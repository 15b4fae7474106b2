-- ===== src/WorkerRegistration/Schedule.antt =====
-- `task_scheduler` of pallets/worker-registration/src/lib.rs, branch by branch.
use cyborg_chain.Prelude.{
  u64_mod, Bytes, length, get_elem?, Dict, lookup, insert, ok, err, bad_origin, module_error, ℕ,
  ◌+◌, ◌%◌, ◌≡◌, ◌≢◌, Option, none, some, [], ◌∷◌, ◌++◌, arith,
}
use cyborg_chain.Frame.{AccountId, BlockNumber, Frame}
use cyborg_chain.WorkerRegistration.{
  ClusterId, TaskStatusType, docker, Ip, Worker, TaskInfo, task_scheduled, no_workers_available,
  Storage, Host, string_ip, task_scheduler,
}

abbrev pub new_task : AccountId → BlockNumber → Bytes → ClusterId → TaskInfo
new_task who now task_data assigned = record {
  task_owner = who;
  create_block = now;
  metadata = task_data;
  assigned_worker = assigned;
  time_elapsed = none;
  average_cpu_percentage_use = none;
  task_type = docker;
}

-- The storage after a task has been given to `worker`, whose cluster `assigned` has address `ip`.
abbrev pub with_task :
    BlockNumber → AccountId → Bytes → AccountId → ClusterId → Ip → Storage → Storage
with_task now who task_data worker assigned ip s = record s {
  next_task_id = (s.next_task_id + 1) % u64_mod;
  task_allocations = insert s.next_task_id worker s.task_allocations;
  task_owners = insert s.next_task_id who s.task_owners;
  tasks = insert s.next_task_id (new_task who now task_data assigned) s.tasks;
  task_status = insert s.next_task_id TaskStatusType.pending s.task_status;
  events = s.events ++ task_scheduled worker who s.next_task_id task_data (string_ip ip) ∷ [];
}

-- The worker that the hash of the task chooses.
unfoldable pub chosen : Host → Dict ClusterId → Bytes → Option (AccountId × ClusterId)
chosen host accounts task_data = elim (get_elem? (host.blake2_256 task_data) 0) [
  | none ↦ none
  | some byte ↦ get_elem? (host.iter accounts) (byte % length (host.iter accounts))
]

pub chosen_lem :
    (host : Host) (accounts : Dict ClusterId) (task_data : Bytes) (byte : ℕ)
    (worker : AccountId × ClusterId)
    → get_elem? (host.blake2_256 task_data) 0 ≡ some byte
    → get_elem? (host.iter accounts) (byte % length (host.iter accounts)) ≡ some worker
    → chosen host accounts task_data ≡ some worker
unfolding chosen
chosen_lem host accounts task_data byte worker hash pick = ground arith

module _ (frame : Frame) (host : Host) (now : BlockNumber) (origin : frame.Origin)
    (task_data : Bytes) (s : Storage) where
  pub task_scheduler-unsigned :
      frame.ensure_signed origin ≡ none
      → task_scheduler frame host now origin task_data s ≡ (err bad_origin, s)
  unfolding task_scheduler
  task_scheduler-unsigned h = ground arith

  pub task_scheduler-no_workers :
      (who : AccountId)
      → frame.ensure_signed origin ≡ some who
      → host.iter s.worker_accounts ≡ []
      → task_scheduler frame host now origin task_data s
        ≡ (err (module_error no_workers_available), s)
  unfolding task_scheduler
  task_scheduler-no_workers who signed h = ground arith

  pub task_scheduler-ok :
      (who : AccountId) (byte : ℕ) (worker : AccountId × ClusterId) (assigned : ClusterId)
      (w : Worker)
      → frame.ensure_signed origin ≡ some who
      → host.iter s.worker_accounts ≢ []
      → get_elem? (host.blake2_256 task_data) 0 ≡ some byte
      → get_elem? (host.iter s.worker_accounts) (byte % length (host.iter s.worker_accounts))
        ≡ some worker
      → lookup worker.0 s.worker_accounts ≡ some assigned
      → lookup assigned s.worker_clusters ≡ some w
      → task_scheduler frame host now origin task_data s
        ≡ (ok tt, with_task now who task_data worker.0 assigned w.ip s)
  unfolding task_scheduler
  task_scheduler-ok who byte worker assigned w signed some_worker hash pick account cluster =
      ground arith
