-- ===== src/WorkerRegistration/Invariant.antt =====
-- The invariant of the storage of pallets/worker-registration/src/lib.rs.
use cyborg_chain.Prelude.{
  Option-cases, lookup, lookup-nil, ◌<◌, ◌≡◌, inl, inr, none, some, [], arith,
}
use cyborg_chain.Frame.{AccountId}
use cyborg_chain.WorkerRegistration.{ClusterId, TaskId, TaskStatusType, Worker, TaskInfo, Storage}
use cyborg_chain.WorkerRegistration.Register.{HasAddress}

-- An account's cluster: the record is there, and it names the account.
pub record Registered (s : Storage) (a : AccountId) (c : ClusterId) : Type 0 where
  pub worker : Worker
  pub stored : lookup c s.worker_clusters ≡ some worker
  pub owner : worker.account ≡ a

-- A cluster record: it is the one that its account leads to, and it can be reached.
pub record ClusterIsValid (s : Storage) (c : ClusterId) (w : Worker) : Type 0 where
  pub account : lookup w.account s.worker_accounts ≡ some c
  pub id : w.id ≡ c
  pub issued : c < s.next_cluster_id
  pub address : HasAddress w.ip
  pub port : 0 < w.port

-- A task: owner, allocation and status are there and agree with the task's record.
pub record TaskIsValid (s : Storage) (t : TaskId) (i : TaskInfo) : Type 0 where
  pub issued : t < s.next_task_id
  pub owner : lookup t s.task_owners ≡ some i.task_owner
  pub status : lookup t s.task_status ≡ some TaskStatusType.pending
  pub worker : AccountId
  pub allocation : lookup t s.task_allocations ≡ some worker
  pub assigned : lookup worker s.worker_accounts ≡ some i.assigned_worker

-- No other map knows a task that has no record.
pub record TaskIsAbsent (s : Storage) (t : TaskId) : Type 0 where
  pub owner : lookup t s.task_owners ≡ none
  pub status : lookup t s.task_status ≡ none
  pub allocation : lookup t s.task_allocations ≡ none

pub record IsValid (s : Storage) : Type 0 where
  pub accounts :
      (a : AccountId) (c : ClusterId) → lookup a s.worker_accounts ≡ some c → Registered s a c
  pub clusters :
      (c : ClusterId) (w : Worker) → lookup c s.worker_clusters ≡ some w → ClusterIsValid s c w
  pub tasks : (t : TaskId) (i : TaskInfo) → lookup t s.tasks ≡ some i → TaskIsValid s t i
  pub absent : (t : TaskId) → lookup t s.tasks ≡ none → TaskIsAbsent s t

-- In a valid storage the next cluster id is free.
pub next_cluster_id_free :
    (s : Storage) → IsValid s → lookup s.next_cluster_id s.worker_clusters ≡ none
next_cluster_id_free s v = elim (Option-cases (lookup s.next_cluster_id s.worker_clusters)) [
  | inl free ↦ free
  | inr (w, e) ↦ absurd (omega (arith, (v.clusters _ w e).issued))
]

-- In a valid storage the next task id is free.
pub next_task_id_free : (s : Storage) → IsValid s → lookup s.next_task_id s.tasks ≡ none
next_task_id_free s v = elim (Option-cases (lookup s.next_task_id s.tasks)) [
  | inl free ↦ free
  | inr (i, e) ↦ absurd (omega (arith, (v.tasks _ i e).issued))
]

abbrev pub genesis : Storage
genesis = record {
  next_cluster_id = 0;
  worker_accounts = [];
  task_status = [];
  task_allocations = [];
  task_owners = [];
  next_task_id = 0;
  tasks = [];
  worker_clusters = [];
  events = [];
  indexed = [];
}

pub genesis-IsValid : IsValid genesis
genesis-IsValid = record {
  accounts = λ a c h. cc (lookup-nil {V = ClusterId} a);
  clusters = λ c w h. cc (lookup-nil {V = Worker} c);
  tasks = λ t i h. cc (lookup-nil {V = TaskInfo} t);
  absent = λ t h. record { owner = lookup-nil t; status = lookup-nil t; allocation = lookup-nil t };
}
