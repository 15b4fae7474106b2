-- ===== src/WorkerRegistration/Progress.antt =====
-- `task_scheduler` of pallets/worker-registration/src/lib.rs where there is a worker.
use cyborg_chain.Prelude.{
  Bytes, length, lookup, ok, ◌<◌, ◌≡◌, ◌≢◌, some, List, [], ◌∷◌, Memᴰ, arith,
}
use cyborg_chain.Frame.{AccountId, BlockNumber, Frame}
use cyborg_chain.WorkerRegistration.{ClusterId, Worker, Storage, Host, task_scheduler}
use cyborg_chain.WorkerRegistration.Schedule.{with_task, chosen, chosen_lem, task_scheduler-ok}
use cyborg_chain.WorkerRegistration.Invariant.{IsValid}
use cyborg_chain.WorkerRegistration.Outcome.{choice}

mem-length {ℓ} : {A : Type ℓ} (a : A) (xs : List A) → Memᴰ a xs → 0 < length xs
mem-length a (x ∷ xs) m = omega arith
mem-length a [] m = elim m [ ]

length-ne-nil {ℓ} : {A : Type ℓ} (xs : List A) → 0 < length xs → xs ≢ []
length-ne-nil [] h e = elim h [ ]
length-ne-nil (x ∷ xs) h e = cc

module _ (frame : Frame) (host : Host) (now : BlockNumber) (origin : frame.Origin) (who : AccountId)
    (signed : frame.ensure_signed origin ≡ some who) (task_data : Bytes) (s : Storage) where
  -- On a valid storage with at least one registered account, a signed task is accepted. It gets
  -- the next task id and goes to the registered worker that the hash of its data chooses, whose
  -- address is in the event; nothing else changes.
  pub task_scheduler_progress :
      (a : AccountId) (c : ClusterId)
      → IsValid s
      → lookup a s.worker_accounts ≡ some c
      → (worker : AccountId) × (assigned : ClusterId) × (w : Worker) × (chosen host
            s.worker_accounts task_data
          ≡ some (worker, assigned))
        × (lookup worker s.worker_accounts ≡ some assigned)
        × (lookup assigned s.worker_clusters ≡ some w)
        × (task_scheduler frame host now origin task_data s
            ≡ (ok tt, with_task now who task_data worker assigned w.ip s))
  task_scheduler_progress a c v has =
      let there : 0 < length (host.iter s.worker_accounts) =
        mem-length (a, c) (host.iter s.worker_accounts)
          (host.iter_complete s.worker_accounts a c has) in
      let k = choice host s task_data v there in
      (
        k.worker.0,
        k.worker.1,
        k.cluster,
        chosen_lem host s.worker_accounts task_data k.byte k.worker k.hash k.pick,
        k.known,
        k.stored,
        task_scheduler-ok frame host now origin task_data s who k.byte k.worker k.worker.1 k.cluster
            signed (length-ne-nil (host.iter s.worker_accounts) there) k.hash k.pick k.known
            k.stored,
      )
