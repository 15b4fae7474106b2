-- ===== src/WorkerRegistration/Clusters.antt =====
-- The clusters that pallets/worker-registration/src/lib.rs knows: what its calls and its off-chain
-- worker do with them.
use mathlib.Core.Option.{some-injective}
use cyborg_chain.Prelude.{
  if◌then◌else◌, is_some, lookup, lookup-insert, Result, DispatchError, ◌≡◌, refl, sym, Bool, true,
  false, Option, none, some, arith,
}
use cyborg_chain.Frame.{BlockNumber}
use cyborg_chain.Http.{Client}
use cyborg_chain.WorkerRegistration.{ClusterId, Worker, IndexingData, Error, Storage, Host}
use cyborg_chain.WorkerRegistration.Register.{new_worker}
use cyborg_chain.WorkerRegistration.Verify.{lookup-with_status}
use cyborg_chain.WorkerRegistration.Dispatch.{Call}
use cyborg_chain.WorkerRegistration.Outcome.{Outcome, failed, registered, scheduled, reported}
use cyborg_chain.WorkerRegistration.Offchain.{
  Json, fetch_cluster_status, or_not_deployed, ping_data, report, offchain_worker,
}

abbrev pub HasCluster : ClusterId → Storage → Type 0
HasCluster c s = is_some (lookup c s.worker_clusters) ≡ true

module _ {host : Host} {now : BlockNumber} {s : Storage}
    {r : Result (DispatchError Error) (Unit {0}) × Storage} where
  -- No call removes a cluster.
  pub Outcome-HasCluster :
      (d : ClusterId) → Outcome host now s r → HasCluster d s → HasCluster d r.1
  Outcome-HasCluster d (failed e h) k = rw h k
  Outcome-HasCluster d (registered creator name ip port fresh address positive h) k = rw h (
      ground (
        arith,
        lookup-insert {0} s.next_cluster_id d
            (new_worker s.next_cluster_id creator now name ip port) s.worker_clusters,
      ))
  Outcome-HasCluster d (scheduled who task_data worker assigned w pick known stored h) k = rw h k
  Outcome-HasCluster d (reported c w status stored h) k =
      rw h (ground (arith, lookup-with_status c d w status s))

-- A report on a cluster that the storage has.
abbrev pub ReportsKnown : Storage → Call → Type 0
ReportsKnown s call =
    (c : ClusterId) × (status : Bool) × (call ≡ Call.verify_connection c status) × HasCluster c s

report-ReportsKnown :
    (client : Client) (json : Json) (s : Storage) (call : Call) (c : ClusterId)
    (found : Option Worker)
    → lookup c s.worker_clusters ≡ found
    → report client json c found ≡ some call
    → ReportsKnown s call
unfolding report
report-ReportsKnown client json s call c none stored h = absurd (cc)
report-ReportsKnown client json s call c (some w) stored h =
    let status =
      (or_not_deployed (fetch_cluster_status client json w.ip w.port)).deployment_status in
    (c, status, sym (some-injective _ _ h), rw stored refl)

ping-ReportsKnown :
    (client : Client) (json : Json) (s : Storage) (call : Call) (ping : Option IndexingData)
    → (elim ping [
      | none ↦ none
      | some data' ↦ report client json data'.id (lookup data'.id s.worker_clusters)
    ])
      ≡ some call
    → ReportsKnown s call
ping-ReportsKnown client json s call none h = absurd (cc)
ping-ReportsKnown client json s call (some data') h =
    report-ReportsKnown client json s call data'.id (lookup data'.id s.worker_clusters) refl h

may_sign-ReportsKnown :
    (can_sign : Bool) (s : Storage) (call : Call) (o : Option Call)
    → (o ≡ some call → ReportsKnown s call)
    → (if can_sign then o else none) ≡ some call
    → ReportsKnown s call
may_sign-ReportsKnown true s call o f h = f h
may_sign-ReportsKnown false s call o f h = absurd (cc)

-- The call of the off-chain worker reports on a cluster that the block's storage has.
pub offchain_worker-ReportsKnown :
    (host : Host) (client : Client) (json : Json) (can_sign : Bool) (block_number : BlockNumber)
    (s : Storage) (call : Call)
    → offchain_worker host client json can_sign block_number s ≡ some call
    → ReportsKnown s call
unfolding offchain_worker
offchain_worker-ReportsKnown host client json can_sign block_number s call =
    may_sign-ReportsKnown can_sign s call _
      (ping-ReportsKnown client json s call (ping_data host block_number s))
