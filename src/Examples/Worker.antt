-- ===== src/Examples/Worker.antt =====
-- The theorems on pallets/worker-registration/src/lib.rs at concrete storages and calls.
use cyborg_chain.Prelude.{
  ascii, lookup, insert, ok, err, panic, module_error, ◌<◌, ◌≡◌, refl, ◌≢◌, ◌↔◌, true, Option, none,
  some, arith, List, [], ◌∷◌, length,
}
use cyborg_chain.Frame.{AccountId}
use cyborg_chain.WorkerRegistration.{
  ClusterId, Worker, cluster_exists, derived_key, worker_register, task_scheduler,
  verify_connection,
}
use cyborg_chain.WorkerRegistration.Invariant.{IsValid, genesis}
use cyborg_chain.WorkerRegistration.Safety.{
  HasRoom, dispatch-ne-panic, dispatch_atomic, run-IsValid,
}
use cyborg_chain.WorkerRegistration.Register.{HasAddress, with_worker, worker_register_iff}
use cyborg_chain.WorkerRegistration.Schedule.{with_task, chosen}
use cyborg_chain.WorkerRegistration.Verify.{verify_connection_reports}
use cyborg_chain.WorkerRegistration.Progress.{task_scheduler_progress}
use cyborg_chain.WorkerRegistration.Refinement.{Steps, view, run_refines}
use cyborg_chain.Examples.Outside.{frame, host}
use cyborg_chain.Examples.Storages.{
  ip, one_task_run, one_worker, one_worker-IsValid, the_worker, account_of_one_worker,
  cluster_of_one_worker,
}
use cyborg_chain.WorkerRegistration.Dispatch.{Call, Extrinsic, dispatch, run}

run-IsValid_example : IsValid (run frame host one_task_run genesis)
run-IsValid_example = run-IsValid frame host one_task_run (omega arith)

dispatch-ne-panic_example :
    (dispatch frame host 3 (some 9) (Call.task_scheduler (ascii "x")) one_worker).0 ≢ panic
dispatch-ne-panic_example =
    dispatch-ne-panic frame host 3 (some 9) (Call.task_scheduler (ascii "x")) one_worker
      one_worker-IsValid

-- Account 7 registers once more.
again_fails :
    (dispatch frame host 3 (some 7) (Call.worker_register (ascii "v") ip 81) one_worker).0
    ≡ err (module_error cluster_exists)
unfolding run dispatch worker_register derived_key insert lookup
again_fails = refl

dispatch_atomic_example :
    (dispatch frame host 3 (some 7) (Call.worker_register (ascii "v") ip 81) one_worker).1
    ≡ one_worker
dispatch_atomic_example =
    dispatch_atomic frame host 3 (some 7) (Call.worker_register (ascii "v") ip 81) one_worker
      (module_error cluster_exists) one_worker-IsValid again_fails

task_scheduler_progress_example :
    (worker : AccountId) × (assigned : ClusterId) × (w : Worker) × (chosen host
        one_worker.worker_accounts
        (ascii "x")
      ≡ some (worker, assigned))
    × (lookup worker one_worker.worker_accounts ≡ some assigned)
    × (lookup assigned one_worker.worker_clusters ≡ some w)
    × (task_scheduler frame host 3 (some 9) (ascii "x") one_worker
        ≡ (ok tt, with_task 3 9 (ascii "x") worker assigned w.ip one_worker))
task_scheduler_progress_example =
    task_scheduler_progress frame host 3 (some 9) 9 refl (ascii "x") one_worker 7 0
      one_worker-IsValid account_of_one_worker

worker_register_iff_example :
    (worker_register frame host 1 (some 7) (ascii "w") ip 80 genesis ≡ (ok tt, one_worker)) ↔ (
      (creator : AccountId) × (◌≡◌ {A = Option AccountId} (some 7) (some creator))
      × HasAddress ip
      × (0 < 80)
      × (lookup creator genesis.worker_accounts ≡ none)
      × (one_worker ≡ with_worker host 1 creator (ascii "w") ip 80 genesis))
worker_register_iff_example =
    worker_register_iff frame host 1 (some 7) (ascii "w") ip 80 genesis one_worker

-- Account 9 has nothing to do with the cluster.
verify_connection_reports_example :
    let (r, after) = verify_connection frame (some 9) 0 true one_worker in
    (r ≡ ok tt)
    × (lookup 0 after.worker_clusters ≡ some (record the_worker { status = true }))
    × (after.worker_accounts ≡ one_worker.worker_accounts)
    × (after.tasks ≡ one_worker.tasks)
verify_connection_reports_example =
    verify_connection_reports frame (some 9) 0 true one_worker 9 the_worker refl
      cluster_of_one_worker 0

-- From one worker's storage: a task for it, a registration of another account, and one that fails.
abbrev more_calls : List (Extrinsic frame)
more_calls =
    record { block = 3; origin = some 9; call = Call.task_scheduler (ascii "x") }
    ∷ record { block = 3; origin = some 8; call = Call.worker_register (ascii "v") ip 81 }
    ∷ record { block = 4; origin = some 8; call = Call.worker_register (ascii "v") ip 81 }
    ∷ []

more_calls_room : HasRoom (length more_calls) one_worker
unfolding run dispatch worker_register derived_key insert lookup
more_calls_room = record { cluster_ids = omega arith; task_ids = omega arith }

run_refines_example : Steps (view one_worker) (view (run frame host more_calls one_worker))
run_refines_example =
    run_refines frame host more_calls one_worker one_worker-IsValid more_calls_room
