-- ===== src/WorkerRegistration/Refinement.antt =====
-- What pallets/worker-registration/src/lib.rs promises, without its storage: a registry that only
-- grows, and that each call of the pallet implements by one step or none.
use mathlib.Core.Path.{fun_ext}
use cyborg_chain.Prelude.{
  ◌==◌, if◌then◌else◌, length, Dict, lookup, insert, lookup-insert, Result, DispatchError, ℕ, ◌≡◌,
  ◌≢◌, Option, none, some, List, [], ◌∷◌, arith,
}
use cyborg_chain.Frame.{AccountId, BlockNumber, Frame}
use cyborg_chain.WorkerRegistration.{ClusterId, TaskId, TaskInfo, Error, Storage, Host}
use cyborg_chain.WorkerRegistration.Schedule.{new_task}
use cyborg_chain.WorkerRegistration.Invariant.{IsValid, next_cluster_id_free, next_task_id_free}
use cyborg_chain.WorkerRegistration.Outcome.{
  Outcome, failed, registered, scheduled, reported, dispatch-Outcome,
}
use cyborg_chain.WorkerRegistration.Safety.{HasRoom, Outcome-IsValid, Outcome-HasRoom}
use cyborg_chain.WorkerRegistration.Dispatch.{Extrinsic, dispatch, run}

-- The registry: who has which cluster, and which tasks there are.
pub record Registry : Type 0 where
  pub accounts : AccountId → Option ClusterId
  pub tasks : TaskId → Option TaskInfo

abbrev pub assign {ℓ} : {V : Type ℓ} → (ℕ → Option V) → ℕ → V → ℕ → Option V
assign f k v j = if k == j then some v else f j

-- An account without a cluster is given a cluster that nobody has, or a task that is new is given
-- to somebody's cluster. Nothing is ever taken away or replaced.
pub data Step (r : Registry) : Registry → Type 0 where
  joins :
      (a : AccountId) (c : ClusterId)
      → r.accounts a ≡ none
      → ((b : AccountId) → r.accounts b ≢ some c)
      → Step r (record r { accounts = assign r.accounts a c })
  posts :
      (t : TaskId) (i : TaskInfo) (worker : AccountId)
      → r.tasks t ≡ none
      → r.accounts worker ≡ some i.assigned_worker
      → Step r (record r { tasks = assign r.tasks t i })

pub data Steps (r : Registry) : Registry → Type 0 where
  done : Steps r r
  more : {q p : Registry} → Steps r q → Step q p → Steps r p

-- The registry that a storage represents. The order of the entries of its maps is forgotten.
abbrev pub view : Storage → Registry
view s = record { accounts = λ a. lookup a s.worker_accounts; tasks = λ t. lookup t s.tasks }

view-insert {ℓ} :
    {V : Type ℓ} (k : ℕ) (v : V) (d : Dict V)
    → (λ j. lookup j (insert k v d)) ≡ assign (λ j. lookup j d) k v
view-insert k v d = fun_ext (λ j. lookup-insert k j v d)

next_cluster_unassigned :
    (s : Storage)
    → IsValid s
    → (b : AccountId) → lookup b s.worker_accounts ≢ some s.next_cluster_id
next_cluster_unassigned s v b h =
    let r = v.accounts b s.next_cluster_id h in cc (r.stored, next_cluster_id_free s v)

module _ {host : Host} {now : BlockNumber} {s : Storage}
    {r : Result (DispatchError Error) (Unit {0}) × Storage} {q : Registry} where
  Outcome-refines : Outcome host now s r → IsValid s → Steps q (view s) → Steps q (view r.1)
  Outcome-refines (failed e h) v before = rw h before
  Outcome-refines (registered creator name ip port fresh address positive h) v before =
      let step : Step (view s) (record {
        accounts = assign (view s).accounts creator s.next_cluster_id;
        tasks = (view s).tasks;
      }) =
        joins creator s.next_cluster_id fresh (next_cluster_unassigned s v) in
      let after = more before step in
      rw (h, view-insert creator s.next_cluster_id s.worker_accounts) after
  Outcome-refines (scheduled who task_data worker assigned w pick known stored h) v before =
      let i = new_task who now task_data assigned in
      let step : Step (view s) (record {
        accounts = (view s).accounts;
        tasks = assign (view s).tasks s.next_task_id i;
      }) =
        posts s.next_task_id i worker (next_task_id_free s v) known in
      let after = more before step in rw (h, view-insert s.next_task_id i s.tasks) after
  Outcome-refines (reported c w status stored h) v before = rw h before

module _ (frame : Frame) (host : Host) where
  run_refines_from :
      (xs : List (Extrinsic frame)) (s : Storage) (q : Registry)
      → IsValid s
      → HasRoom (length xs) s
      → Steps q (view s)
      → Steps q (view (run frame host xs s))
  unfolding run
  run_refines_from [] s q v room before = before
  run_refines_from (x ∷ xs) s q v room before =
      let o = dispatch-Outcome frame host x.block x.origin s v x.call in
      run_refines_from xs (dispatch frame host x.block x.origin x.call s).1 q
        (Outcome-IsValid o v (omega (arith, room.cluster_ids, room.task_ids)))
        (Outcome-HasRoom o (length xs) room) (Outcome-refines o v before)

  -- From any valid storage with room for as many new ids, any extrinsics, failing or not, implement
  -- steps of the registry before them, which end in the registry after them: an account without a
  -- cluster is given one that nobody has, or a task id that is free gets a task for somebody's
  -- cluster. Nothing else changes the registry, and no account or task of it is removed or replaced.
  pub run_refines :
      (xs : List (Extrinsic frame)) (s : Storage)
      → IsValid s
      → HasRoom (length xs) s
      → Steps (view s) (view (run frame host xs s))
  run_refines xs s v room = run_refines_from xs s (view s) v room done
