-- ===== src/WorkerRegistration/Preservation/Scheduling.antt =====
-- The invariant across giving a task to a registered worker.
use cyborg_chain.Prelude.{
  ◌==◌, Bool-cases, u64_mod, Bytes, lookup, lookup-insert, ◌+◌, ◌<◌, ◌≡◌, inl, inr, none, some,
  arith,
}
use cyborg_chain.Frame.{AccountId, BlockNumber}
use cyborg_chain.WorkerRegistration.{ClusterId, TaskId, TaskStatusType, Ip, TaskInfo, Storage}
use cyborg_chain.WorkerRegistration.Schedule.{new_task, with_task}
use cyborg_chain.WorkerRegistration.Invariant.{TaskIsValid, TaskIsAbsent, IsValid}

module _ (now : BlockNumber) (who : AccountId) (task_data : Bytes) (worker : AccountId)
    (assigned : ClusterId) (ip : Ip) (s : Storage) (v : IsValid s)
    (known : lookup worker s.worker_accounts ≡ some assigned)
    (room : s.next_task_id + 1 < u64_mod) where
  abbrev after : Storage
  after = with_task now who task_data worker assigned ip s

  tasks_after : (t : TaskId) (i : TaskInfo) → lookup t after.tasks ≡ some i → TaskIsValid after t i
  tasks_after t i h = elim (Bool-cases (s.next_task_id == t)) [
    | inl same ↦ record {
      issued = ground arith;
      owner = ground (
        arith,
        lookup-insert s.next_task_id t (new_task who now task_data assigned) s.tasks,
        lookup-insert s.next_task_id t who s.task_owners,
      );
      status = ground (arith, lookup-insert s.next_task_id t TaskStatusType.pending s.task_status);
      worker = worker;
      allocation = ground (arith, lookup-insert s.next_task_id t worker s.task_allocations);
      assigned =
          ground
            (arith, lookup-insert s.next_task_id t (new_task who now task_data assigned) s.tasks);
    }
    | inr other ↦
        let found : lookup t s.tasks ≡ some i =
          ground
            (arith, lookup-insert s.next_task_id t (new_task who now task_data assigned) s.tasks) in
        let old = v.tasks t i found in
        record {
          issued = omega (arith, old.issued);
          owner = ground (arith, old.owner, lookup-insert s.next_task_id t who s.task_owners);
          status = ground (
            arith,
            old.status,
            lookup-insert s.next_task_id t TaskStatusType.pending s.task_status,
          );
          worker = old.worker;
          allocation =
              ground
                (arith, old.allocation, lookup-insert s.next_task_id t worker s.task_allocations);
          assigned = old.assigned;
        }
  ]

  absent_after : (t : TaskId) → lookup t after.tasks ≡ none → TaskIsAbsent after t
  absent_after t h = ground (
    arith,
    lookup-insert s.next_task_id t (new_task who now task_data assigned) s.tasks,
    lookup-insert s.next_task_id t who s.task_owners,
    lookup-insert s.next_task_id t worker s.task_allocations,
    lookup-insert s.next_task_id t TaskStatusType.pending s.task_status,
    v.absent t,
  )

  pub with_task-IsValid : IsValid after
  with_task-IsValid = record {
    accounts = λ a c h.
        let old = v.accounts a c h in
        record { worker = old.worker; stored = old.stored; owner = old.owner };
    clusters = λ c w h.
        let old = v.clusters c w h in
        record {
          account = old.account;
          id = old.id;
          issued = old.issued;
          address = old.address;
          port = old.port;
        };
    tasks = tasks_after;
    absent = absent_after;
  }
