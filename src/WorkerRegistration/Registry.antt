-- ===== src/WorkerRegistration/Registry.antt =====
-- What clients of pallets/worker-registration/src/lib.rs rely on: the accounts, their clusters and
-- the tasks, over time.
use cyborg_chain.Prelude.{
  u64_mod, length, lookup, lookup-insert, Result, DispatchError, ◌<◌, ◌≡◌, some, List, arith,
}
use cyborg_chain.Frame.{AccountId, BlockNumber, Frame}
use cyborg_chain.WorkerRegistration.{ClusterId, TaskId, Worker, TaskInfo, Error, Storage, Host}
use cyborg_chain.WorkerRegistration.Register.{HasAddress}
use cyborg_chain.WorkerRegistration.Schedule.{new_task}
use cyborg_chain.WorkerRegistration.Invariant.{IsValid, genesis}
use cyborg_chain.WorkerRegistration.Outcome.{
  Outcome, failed, registered, scheduled, reported, dispatch-Outcome,
}
use cyborg_chain.WorkerRegistration.Safety.{run-IsValid}
use cyborg_chain.WorkerRegistration.Dispatch.{Call, Extrinsic, dispatch, run}

cluster_of_one_account :
    (s : Storage) (a b : AccountId) (c : ClusterId)
    → IsValid s
    → lookup a s.worker_accounts ≡ some c
    → lookup b s.worker_accounts ≡ some c
    → a ≡ b
cluster_of_one_account s a b c v ha hb =
    let r = v.accounts a c ha in
    let q = v.accounts b c hb in ground (arith, r.stored, r.owner, q.stored, q.owner)

registered_worker :
    (s : Storage) (a : AccountId) (c : ClusterId)
    → IsValid s
    → lookup a s.worker_accounts ≡ some c
    → (w : Worker) × (lookup c s.worker_clusters ≡ some w)
      × (w.id ≡ c)
      × (w.account ≡ a)
      × HasAddress w.ip
      × (0 < w.port)
registered_worker s a c v h =
    let r = v.accounts a c h in
    let k = v.clusters c r.worker r.stored in (r.worker, r.stored, k.id, r.owner, k.address, k.port)

module _ (frame : Frame) (host : Host) (xs : List (Extrinsic frame))
    (few : length xs < u64_mod) where
  -- After fewer than 2^64 extrinsics from genesis no two accounts share a cluster.
  run_cluster_of_one_account :
      (a b : AccountId) (c : ClusterId)
      → lookup a (run frame host xs genesis).worker_accounts ≡ some c
      → lookup b (run frame host xs genesis).worker_accounts ≡ some c
      → a ≡ b
  run_cluster_of_one_account a b c =
      cluster_of_one_account (run frame host xs genesis) a b c (run-IsValid frame host xs few)

  -- After fewer than 2^64 extrinsics from genesis every registered account has a worker that can
  -- be reached: the record under its cluster has that id, names the account, and has an address
  -- and a port that is not 0.
  run_registered_worker :
      (a : AccountId) (c : ClusterId)
      → lookup a (run frame host xs genesis).worker_accounts ≡ some c
      → (w : Worker) × (lookup c (run frame host xs genesis).worker_clusters ≡ some w)
        × (w.id ≡ c)
        × (w.account ≡ a)
        × HasAddress w.ip
        × (0 < w.port)
  run_registered_worker a c =
      registered_worker (run frame host xs genesis) a c (run-IsValid frame host xs few)

module _ {host : Host} {now : BlockNumber} {s : Storage}
    {r : Result (DispatchError Error) (Unit {0}) × Storage} where
  Outcome-keeps_account :
      Outcome host now s r
      → (a : AccountId) (c : ClusterId) → lookup a s.worker_accounts ≡ some c
      → lookup a r.1.worker_accounts ≡ some c
  Outcome-keeps_account (failed e h) a c k = rw h k
  Outcome-keeps_account (registered creator name ip port fresh address positive h) a c k =
      rw h (ground (arith, lookup-insert creator a s.next_cluster_id s.worker_accounts))
  Outcome-keeps_account (scheduled who task_data worker assigned w pick known stored h) a c k =
      rw h k
  Outcome-keeps_account (reported d w status stored h) a c k = rw h k

  Outcome-keeps_task :
      Outcome host now s r
      → IsValid s
      → (t : TaskId) (i : TaskInfo) → lookup t s.tasks ≡ some i
      → lookup t r.1.tasks ≡ some i
  Outcome-keeps_task (failed e h) v t i k = rw h k
  Outcome-keeps_task (registered creator name ip port fresh address positive h) v t i k = rw h k
  Outcome-keeps_task (scheduled who task_data worker assigned w pick known stored h) v t i k =
      rw h (
        ground (
          arith,
          (v.tasks t i k).issued,
          lookup-insert s.next_task_id t (new_task who now task_data assigned) s.tasks,
        ))
  Outcome-keeps_task (reported d w status stored h) v t i k = rw h k

module _ (frame : Frame) (host : Host) (now : BlockNumber) (origin : frame.Origin) (call : Call)
    (s : Storage) where
  -- On a valid storage no call takes a registered account's cluster away, or changes it.
  registration_permanent :
      (a : AccountId) (c : ClusterId)
      → IsValid s
      → lookup a s.worker_accounts ≡ some c
      → lookup a (dispatch frame host now origin call s).1.worker_accounts ≡ some c
  registration_permanent a c v k =
      Outcome-keeps_account (dispatch-Outcome frame host now origin s v call) a c k

  -- On a valid storage no call changes or removes the record of a task.
  task_permanent :
      (t : TaskId) (i : TaskInfo)
      → IsValid s
      → lookup t s.tasks ≡ some i
      → lookup t (dispatch frame host now origin call s).1.tasks ≡ some i
  task_permanent t i v k =
      Outcome-keeps_task (dispatch-Outcome frame host now origin s v call) v t i k
