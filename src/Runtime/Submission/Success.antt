-- ===== src/Runtime/Submission/Success.antt =====
-- What becomes of the transactions of the off-chain workers of runtime/src/lib.rs.
use cyborg_chain.Prelude.{
  ℕ, suc, ◌+◌, ◌<◌, ◌≡◌, List, [], ◌∷◌, ◌++◌, u64_mod, All, All-snoc, All-mono, All-delete, All-mem,
  arith,
}
use cyborg_chain.Frame.{BlockNumber, Frame}
use cyborg_chain.EdgeConnect
use cyborg_chain.EdgeConnect.Offchain as EdgeOffchain
use cyborg_chain.EdgeConnect.Sending.{IsSendable, IsSignable, offchain_worker-IsProper}
use cyborg_chain.WorkerRegistration
use cyborg_chain.WorkerRegistration.Dispatch as WorkerCalls
use cyborg_chain.WorkerRegistration.Invariant.{IsValid, genesis-IsValid}
use cyborg_chain.WorkerRegistration.Outcome.{dispatch-Outcome}
use cyborg_chain.WorkerRegistration.Safety.{HasRoom, Outcome-IsValid, Outcome-HasRoom}
use cyborg_chain.WorkerRegistration.Clusters.{
  HasCluster, Outcome-HasCluster, offchain_worker-ReportsKnown,
}
use cyborg_chain.Runtime.Compose.{RuntimeCall, edge_connect, worker_registration, Chain, dispatch}
use cyborg_chain.Runtime.Submission.Ending.{IsOwn, ending, execute-ending}
use cyborg_chain.Runtime.Submission.{
  Origins, Pending, unsigned, signed, System, execute, Step, next_block, other, included,
  handed_unsigned, handed_signed, reported, Reach, start, later,
}

module _ (frame : Frame) (origins : Origins frame) (host : WorkerRegistration.Host)
    (config : EdgeConnect.Config) (signer : EdgeOffchain.Signer) where
  -- A storage of worker-registration that any call of the runtime leads to.
  dispatch_worker :
      (P : WorkerRegistration.Storage → Type 0) (now : BlockNumber) (origin : frame.Origin)
      (call : RuntimeCall) (chain : Chain)
      → P chain.worker
      → ((c : WorkerCalls.Call) → P (WorkerCalls.dispatch frame host now origin c chain.worker).1)
      → P (dispatch frame host config now origin call chain).1.worker
  unfolding dispatch
  dispatch_worker P now origin (edge_connect call) chain h k = h
  dispatch_worker P now origin (worker_registration call) chain h k = k call

  record Inv (n : ℕ) (chain : Chain) (pending : List Pending) : Type 0 where
    own : All (IsOwn frame origins host config signer chain) pending
    valid : IsValid chain.worker
    room : (k : ℕ) → n + k < u64_mod → HasRoom k chain.worker

  dispatch-IsOwn :
      (now : BlockNumber) (origin : frame.Origin) (call : RuntimeCall) (chain : Chain)
      → IsValid chain.worker
      → (t : Pending) → IsOwn frame origins host config signer chain t
      → IsOwn frame origins host config signer
          (dispatch frame host config now origin call chain).1
          t
  dispatch-IsOwn now origin call chain valid (unsigned c) own = own
  dispatch-IsOwn now origin call chain valid (signed who (edge_connect c)) own = own
  dispatch-IsOwn now origin call chain valid (signed who (worker_registration c))
        (d, status, is, known) =
      (
        d,
        status,
        is,
        dispatch_worker (HasCluster d) now origin call chain known (λ e.
            Outcome-HasCluster d (dispatch-Outcome frame host now origin chain.worker valid e)
              known),
      )

  dispatch-Inv :
      (n : ℕ) (now : BlockNumber) (origin : frame.Origin) (call : RuntimeCall) (chain : Chain)
      (pending : List Pending)
      → suc n < u64_mod
      → Inv n chain pending
      → Inv (suc n) (dispatch frame host config now origin call chain).1 pending
  dispatch-Inv n now origin call chain pending few inv = record {
    own =
        All-mono (IsOwn frame origins host config signer chain) _ pending
          (dispatch-IsOwn now origin call chain inv.valid) inv.own;
    valid = dispatch_worker IsValid now origin call chain inv.valid (λ c.
        Outcome-IsValid (dispatch-Outcome frame host now origin chain.worker inv.valid c) inv.valid
          (inv.room 1 (omega arith)));
    room = λ k lt.
        dispatch_worker (HasRoom k) now origin call chain (inv.room k (omega arith)) (λ c.
          Outcome-HasRoom (dispatch-Outcome frame host now origin chain.worker inv.valid c) k
            (inv.room (suc k) (omega arith)));
  }

  execute-Inv :
      (n : ℕ) (now : BlockNumber) (t : Pending) (chain : Chain) (pending : List Pending)
      → suc n < u64_mod
      → Inv n chain pending
      → Inv (suc n) (execute frame origins host config signer t now chain).1 pending
  execute-Inv n now (unsigned call) chain =
      dispatch-Inv n now origins.no_signer (edge_connect call) chain
  execute-Inv n now (signed who call) chain = dispatch-Inv n now (origins.signed_by who) call chain

  handed-Inv :
      (n : ℕ) (t : Pending) (chain : Chain) (pending : List Pending)
      → IsOwn frame origins host config signer chain t
      → Inv n chain pending
      → Inv (suc n) chain (pending ++ t ∷ [])
  handed-Inv n t chain pending own inv = record {
    own = All-snoc (IsOwn frame origins host config signer chain) pending t inv.own own;
    valid = inv.valid;
    room = λ k lt. inv.room k (omega arith);
  }

  Step-Inv :
      (n : ℕ) {w v : System}
      → suc n < u64_mod
      → Step frame origins host config signer w v
      → Inv n w.chain w.pending
      → Inv (suc n) v.chain v.pending
  Step-Inv n {w} few next_block inv = record {
    own = inv.own;
    valid = inv.valid;
    room = λ k lt. inv.room k (omega arith);
  }
  Step-Inv n {w} few (other origin call) inv =
      dispatch-Inv n w.block origin call w.chain w.pending few inv
  Step-Inv n {w} few (included before after t split) inv =
      execute-Inv n w.block t w.chain (before ++ after) few (record {
        own =
            All-delete (IsOwn frame origins host config signer w.chain) before t after
              (rw split at inv.own);
        valid = inv.valid;
        room = inv.room;
      })
  Step-Inv n {w} few (handed_unsigned client mutate call m) inv =
      let proper = offchain_worker-IsProper config client signer mutate w.block w.chain.edge in
      handed-Inv n (unsigned call) w.chain w.pending
        (All-mem (IsSendable signer) m proper.unsigned_calls) inv
  Step-Inv n {w} few (handed_signed client mutate who call m) inv =
      let proper = offchain_worker-IsProper config client signer mutate w.block w.chain.edge in
      handed-Inv n (signed who (edge_connect call)) w.chain w.pending
        (All-mem IsSignable m proper.signed_calls) inv
  Step-Inv n {w} few (reported client json can_sign who call h) inv =
      handed-Inv n (signed who (worker_registration call)) w.chain w.pending
        (offchain_worker-ReportsKnown host client json can_sign w.block w.chain.worker call h) inv

  Reach-Inv :
      {n : ℕ} {w : System}
      → Reach frame origins host config signer n w
      → n < u64_mod
      → Inv n w.chain w.pending
  Reach-Inv start few = record {
    own = tt;
    valid = genesis-IsValid;
    room = λ k lt. record { cluster_ids = omega arith; task_ids = omega arith };
  }
  Reach-Inv (later {n = n} r st) few = Step-Inv n few st (Reach-Inv r (omega arith))

  -- In every state that blocks, accounts and off-chain workers reach from genesis, in fewer than
  -- 2^64 steps in whatever order: each transaction that an off-chain worker has handed to the pool,
  -- and that no block has taken yet, succeeds if the current block takes it. The one exception is a
  -- signed response where there is no connection, which fails for that reason.
  pub pending_succeeds :
      (n : ℕ) (w : System)
      → n < u64_mod
      → Reach frame origins host config signer n w
      → All
          (λ t.
            (execute frame origins host config signer t w.block w.chain).0
            ≡ ending frame origins host config signer t w.chain)
          w.pending
  pending_succeeds n w few r =
      All-mono (IsOwn frame origins host config signer w.chain) _ w.pending
        (execute-ending frame origins host config signer w.block w.chain) (Reach-Inv r few).own
