-- ===== src/WorkerRegistration/Replay.antt =====
-- The events of pallets/worker-registration/src/lib.rs, as a client that only reads events sees
-- them.
use cyborg_chain.Frame.Events
use cyborg_chain.WorkerRegistration.Dispatch.{Extrinsic, dispatch, run}
use cyborg_chain.Prelude.{
  is_some, u64_mod, Bytes, length, Dict, lookup, insert, map_values, map_values-insert,
  lookup-map_values, Result, DispatchError, ◌+◌, ◌%◌, ◌<◌, ◌≡◌, refl, true, Option, none, some,
  List, [], ◌∷◌, ◌++◌, foldl, arith,
}
use cyborg_chain.WorkerRegistration.{
  ClusterId, TaskId, TaskStatusType, Ip, TaskInfo, Event, worker_registered, task_scheduled,
  connection_established, Error, Storage, Host, string_ip,
}
use cyborg_chain.WorkerRegistration.Schedule.{new_task, with_task}
use cyborg_chain.WorkerRegistration.Invariant.{IsValid, next_task_id_free}
use cyborg_chain.WorkerRegistration.Outcome.{
  Outcome, failed, registered, scheduled, reported, dispatch-Outcome,
}
use cyborg_chain.WorkerRegistration.Safety.{HasRoom, Outcome-IsValid, Outcome-HasRoom}
use cyborg_chain.Frame.{AccountId, BlockNumber, Frame}

-- What an event says of a task, and the cluster that its worker has.
pub record Job : Type 0 where
  pub owner : AccountId
  pub metadata : Bytes
  pub assigned_worker : Option ClusterId

-- What a client can know of the storage: the clusters' records with their blocks and addresses are
-- in no event.
pub record View : Type 0 where
  pub next_cluster_id : ClusterId
  pub next_task_id : TaskId
  pub accounts : Dict ClusterId
  pub allocations : Dict AccountId
  pub owners : Dict AccountId
  pub status : Dict TaskStatusType
  pub jobs : Dict Job

abbrev pub job : TaskInfo → Job
job i = record {
  owner = i.task_owner;
  metadata = i.metadata;
  assigned_worker = some i.assigned_worker;
}

abbrev pub view : Storage → View
view s = record {
  next_cluster_id = s.next_cluster_id;
  next_task_id = s.next_task_id;
  accounts = s.worker_accounts;
  allocations = s.task_allocations;
  owners = s.task_owners;
  status = s.task_status;
  jobs = map_values job s.tasks;
}

-- How the client takes in one event: it numbers the workers in the order in which they come, and
-- takes a task's number from the event.
unfoldable pub read_event : View → Event → View
read_event v (worker_registered creator) = record v {
  next_cluster_id = (v.next_cluster_id + 1) % u64_mod;
  accounts = insert creator v.next_cluster_id v.accounts;
}
read_event v (task_scheduled worker owner task_id task assigned_ip) = record v {
  next_task_id = (task_id + 1) % u64_mod;
  allocations = insert task_id worker v.allocations;
  owners = insert task_id owner v.owners;
  status = insert task_id TaskStatusType.pending v.status;
  jobs =
      insert task_id
        (record { owner = owner; metadata = task; assigned_worker = lookup worker v.accounts })
        v.jobs;
}
read_event v _ = v

-- The events that make sense: an account registers once; a task has the next id, which no task has,
-- and goes to a registered account; only clusters that have been registered are reported. The other
-- events are never deposited.
unfoldable pub IsAllowed : View → Event → Type 0
IsAllowed v (worker_registered creator) = lookup creator v.accounts ≡ none
IsAllowed v (task_scheduled worker owner task_id task assigned_ip) =
    (task_id ≡ v.next_task_id)
    × (lookup task_id v.jobs ≡ none)
    × (is_some (lookup worker v.accounts) ≡ true)
IsAllowed v (connection_established cluster_id) = cluster_id < v.next_cluster_id
IsAllowed v _ = ⊥

-- From `s` to `t` the events `news` were deposited, and they account for all that has changed.
abbrev IsReplay : Storage → Storage → List Event → Type 0
IsReplay = Events.IsReplay view (λ s. s.events) read_event IsAllowed

same : (s : Storage) → IsReplay s s []
same = Events.IsReplay-refl view (λ s. s.events) read_event IsAllowed

with_task-IsReplay :
    (now : BlockNumber) (who : AccountId) (task_data : Bytes) (worker : AccountId)
    (assigned : ClusterId) (ip : Ip) (s : Storage)
    → IsValid s
    → lookup worker s.worker_accounts ≡ some assigned
    → IsReplay s
        (with_task now who task_data worker assigned ip s)
        (task_scheduled worker who s.next_task_id task_data (string_ip ip) ∷ [])
with_task-IsReplay now who task_data worker assigned ip s v known = record {
  deposited = refl;
  replayed =
      unfold read_event in
      rw (map_values-insert job s.next_task_id (new_task who now task_data assigned) s.tasks, known)
        refl;
  allowed =
      unfold IsAllowed in
      (
        (refl, lookup-map_values job s.next_task_id s.tasks (next_task_id_free s v), rw known refl),
        tt,
      );
}

module _ {host : Host} {now : BlockNumber} {s : Storage}
    {r : Result (DispatchError Error) (Unit {0}) × Storage} (v : IsValid s) where
  Outcome-IsReplay : Outcome host now s r → (news : List Event) × IsReplay s r.1 news
  unfolding read_event IsAllowed
  Outcome-IsReplay (failed e h) = ([], rw h (same s))
  Outcome-IsReplay (registered creator name ip port fresh address positive h) = (
    worker_registered creator ∷ [],
    rw h (record { deposited = refl; replayed = refl; allowed = (fresh, tt) }),
  )
  Outcome-IsReplay (scheduled who task_data worker assigned w pick known stored h) = (
    task_scheduled worker who s.next_task_id task_data (string_ip w.ip) ∷ [],
    rw h (with_task-IsReplay now who task_data worker assigned w.ip s v known),
  )
  Outcome-IsReplay (reported c w status stored h) = (
    connection_established c ∷ [],
    rw h (record {
      deposited = refl;
      replayed = refl;
      allowed = ((v.clusters c w stored).issued, tt);
    }),
  )

module _ (frame : Frame) (host : Host) where
  run-IsReplay :
      (xs : List (Extrinsic frame)) (s : Storage)
      → IsValid s
      → HasRoom (length xs) s
      → (news : List Event) × IsReplay s (run frame host xs s) news
  unfolding run
  run-IsReplay [] s v room = ([], same s)
  run-IsReplay (x ∷ xs) s v room =
      let t = (dispatch frame host x.block x.origin x.call s).1 in
      let o = dispatch-Outcome frame host x.block x.origin s v x.call in
      let (es, p) = Outcome-IsReplay v o in
      let (fs, q) =
        run-IsReplay xs t (Outcome-IsValid o v (omega (arith, room.cluster_ids, room.task_ids)))
          (Outcome-HasRoom o (length xs) room) in
      (
        es ++ fs,
        Events.IsReplay-trans view (λ s. s.events) read_event IsAllowed s t (run frame host xs t) es
            fs p q,
      )

  -- On a valid storage with room in both counters for all of them, extrinsics only append events,
  -- and a client that knew the accounts' clusters, the tasks, their owners, workers and statuses
  -- and the next ids before, and reads these events in order, knows them after. It numbers the new
  -- workers in the order of their events, and finds a task's cluster under its worker's account.
  pub run_replay :
      (xs : List (Extrinsic frame)) (s : Storage)
      → IsValid s
      → HasRoom (length xs) s
      → (news : List Event) × ((run frame host xs s).events ≡ s.events ++ news)
        × (view (run frame host xs s) ≡ foldl read_event (view s) news)
  run_replay xs s v room =
      let (news, p) = run-IsReplay xs s v room in (news, p.deposited, p.replayed)

  -- On a valid storage with room in both counters, the events that extrinsics append make sense in
  -- the view of a client that has read those before: no account registers twice, each task has the
  -- next id, which no task had, and goes to a registered account, only clusters that have been
  -- registered are reported, and the two events on completed tasks do not occur.
  pub run-IsLog :
      (xs : List (Extrinsic frame)) (s : Storage)
      → IsValid s
      → HasRoom (length xs) s
      → (news : List Event) × ((run frame host xs s).events ≡ s.events ++ news)
        × Events.IsLog read_event IsAllowed (view s) news
  run-IsLog xs s v room = let (news, p) = run-IsReplay xs s v room in (news, p.deposited, p.allowed)
