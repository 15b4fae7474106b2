-- ===== src/Runtime/Submission/Ending.antt =====
-- How a transaction of an off-chain worker ends in a block of runtime/src/lib.rs.
use cyborg_chain.Prelude.{
  ◌≡◌, refl, Bool, some, Result, ok, err, true, is_some, if◌then◌else◌, module_error, arith,
  Option-cases, inl, inr, Bytes, lookup,
}
use cyborg_chain.Text.{is_utf8}
use cyborg_chain.EdgeConnect.Invariant.{add_response_lem}
use cyborg_chain.Frame.{AccountId, BlockNumber, Frame}
use cyborg_chain.EdgeConnect
use cyborg_chain.EdgeConnect.{connection_does_not_exist, submit_response}
use cyborg_chain.EdgeConnect.Dispatch as EdgeCalls
use cyborg_chain.EdgeConnect.Offchain as EdgeOffchain
use cyborg_chain.EdgeConnect.Sending.{IsSendable, IsSignable}
use cyborg_chain.EdgeConnect.Unsigned.{accepted_succeeds}
use cyborg_chain.WorkerRegistration
use cyborg_chain.WorkerRegistration.Dispatch as WorkerCalls
use cyborg_chain.WorkerRegistration.Clusters.{ReportsKnown, HasCluster}
use cyborg_chain.WorkerRegistration.Verify.{verify_connection-ok}
use cyborg_chain.Runtime.Compose.{edge_connect, worker_registration, RuntimeError, Chain, dispatch}
use cyborg_chain.Runtime.Submission.{Origins, Pending, unsigned, signed, execute}

module _ (frame : Frame) (origins : Origins frame) (host : WorkerRegistration.Host)
    (config : EdgeConnect.Config) (signer : EdgeOffchain.Signer) where
  -- What is true of a transaction of an off-chain worker from then on.
  abbrev pub IsOwn : Chain → Pending → Type 0
  IsOwn chain (unsigned call) = IsSendable signer call
  IsOwn chain (signed who (edge_connect call)) = IsSignable call
  IsOwn chain (signed who (worker_registration call)) = ReportsKnown chain.worker call

  -- How such a transaction ends: a signed response needs a connection.
  abbrev pub ending : Pending → Chain → Result RuntimeError (Unit {0})
  ending (signed who (edge_connect call)) chain =
      if is_some chain.edge.connection
      then ok tt
      else err (RuntimeError.edge_connect (module_error connection_does_not_exist))
  ending t chain = ok tt

  signed_response :
      (now : BlockNumber) (origin : frame.Origin) (who : AccountId) (response : Bytes)
      (s : EdgeConnect.Storage)
      → frame.ensure_signed origin ≡ some who
      → is_utf8 response ≡ true
      → (EdgeCalls.dispatch frame config now origin (EdgeCalls.Call.submit_response response) s).0
        ≡ (if is_some s.connection then ok tt else err (module_error connection_does_not_exist))
  unfolding EdgeCalls.dispatch submit_response
  signed_response now origin who response s by_who text =
      ground (arith, add_response_lem config (some who) response s text)

  known_report :
      (now : BlockNumber) (origin : frame.Origin) (who : AccountId)
      (c : WorkerRegistration.ClusterId) (status : Bool) (s : WorkerRegistration.Storage)
      → frame.ensure_signed origin ≡ some who
      → HasCluster c s
      → (WorkerCalls.dispatch frame host now origin
          (WorkerCalls.Call.verify_connection c status)
          s).0
        ≡ ok tt
  unfolding WorkerCalls.dispatch
  known_report now origin who c status s by_who known =
      elim (Option-cases (lookup c s.worker_clusters)) [
        | inl missing ↦ absurd (ground arith)
        | inr (w, stored) ↦
            rw (verify_connection-ok frame origin c status s who w by_who stored) refl
      ]

  pub execute-ending :
      (now : BlockNumber) (chain : Chain) (t : Pending)
      → IsOwn chain t
      → (execute frame origins host config signer t now chain).0 ≡ ending t chain
  unfolding dispatch
  execute-ending now chain (unsigned call) (good, text) =
      rw
        (accepted_succeeds frame config signer.verify now origins.no_signer
          origins.ensure_none-no_signer chain.edge call text good)
        refl
  execute-ending now chain (signed who (edge_connect (EdgeCalls.Call.submit_response response)))
        own =
      ground (
        arith,
        signed_response now (origins.signed_by who) who response chain.edge
            (origins.ensure_signed-signed_by who) own,
      )
  execute-ending now chain (signed who (edge_connect call)) own = absurd own
  execute-ending now chain (signed who (worker_registration call)) (c, status, is, known) =
      rw
        (
          is,
          known_report now (origins.signed_by who) who c status chain.worker
              (origins.ensure_signed-signed_by who) known,
        )
        refl
