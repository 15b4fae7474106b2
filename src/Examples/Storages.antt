-- ===== src/Examples/Storages.antt =====
-- Storages of the pallet worker-registration that the examples start from, reached from genesis by
-- its own calls.
use cyborg_chain.Prelude.{ascii, lookup, insert, ◌≡◌, refl, false, none, some, List, [], ◌∷◌, arith}
use cyborg_chain.Text.{to_string, join}
use cyborg_chain.WorkerRegistration.{
  docker, Ip, Worker, TaskInfo, worker_registered, task_scheduled, Storage, string_ip, derived_key,
  worker_register, task_scheduler,
}
use cyborg_chain.WorkerRegistration.Invariant.{IsValid, genesis}
use cyborg_chain.WorkerRegistration.Safety.{HasRoom, run-IsValid}
use cyborg_chain.Examples.Outside.{frame, host}
use cyborg_chain.WorkerRegistration.Dispatch.{Call, Extrinsic, dispatch, run}

abbrev pub ip : Ip
ip = record { ipv4 = some (127 ∷ 0 ∷ 0 ∷ 1 ∷ []); ipv6 = none }

-- Account 7 registers in block 1.
abbrev pub registration : Extrinsic frame
registration = record { block = 1; origin = some 7; call = Call.worker_register (ascii "w") ip 80 }

-- Account 9 schedules a task in block 2.
abbrev pub scheduling : Extrinsic frame
scheduling = record { block = 2; origin = some 9; call = Call.task_scheduler (ascii "task") }

abbrev pub one_worker_run : List (Extrinsic frame)
one_worker_run = registration ∷ []

abbrev pub one_task_run : List (Extrinsic frame)
one_task_run = registration ∷ scheduling ∷ []

abbrev pub one_worker : Storage
one_worker = run frame host one_worker_run genesis

abbrev pub one_task : Storage
one_task = run frame host one_task_run genesis

pub one_worker-IsValid : IsValid one_worker
one_worker-IsValid = run-IsValid frame host one_worker_run (omega arith)

pub one_task-IsValid : IsValid one_task
one_task-IsValid = run-IsValid frame host one_task_run (omega arith)

pub one_worker-HasRoom : HasRoom 1 one_worker
unfolding run dispatch worker_register derived_key insert lookup
one_worker-HasRoom = record { cluster_ids = omega arith; task_ids = omega arith }

abbrev pub the_worker : Worker
the_worker = record {
  id = 0;
  account = 7;
  start_block = 1;
  name = ascii "w";
  ip = ip;
  port = 80;
  status = false;
}

pub account_of_one_worker : lookup 7 one_worker.worker_accounts ≡ some 0
unfolding run dispatch worker_register derived_key insert lookup
account_of_one_worker = refl

pub cluster_of_one_worker : lookup 0 one_worker.worker_clusters ≡ some the_worker
unfolding run dispatch worker_register derived_key insert lookup
cluster_of_one_worker = refl

abbrev pub the_task : TaskInfo
the_task = record {
  task_owner = 9;
  create_block = 2;
  metadata = ascii "task";
  assigned_worker = 0;
  time_elapsed = none;
  average_cpu_percentage_use = none;
  task_type = docker;
}

pub task_of_one_task : lookup 0 one_task.tasks ≡ some the_task
unfolding run dispatch worker_register task_scheduler derived_key string_ip insert lookup
task_of_one_task = refl

-- The task's event carries the address of the worker's cluster.
scheduled_event_test :
    one_task.events
    ≡ worker_registered 7 ∷ task_scheduled 7 9 0 (ascii "task") (ascii "127.0.0.1") ∷ []
unfolding run dispatch worker_register task_scheduler derived_key string_ip join to_string insert
    lookup
scheduled_event_test = refl
