-- ===== src/WorkerRegistration/Safety.antt =====
-- What holds of every call of pallets/worker-registration/src/lib.rs on a valid storage, and of
-- every sequence of calls from genesis.
use cyborg_chain.Prelude.{
  u64_mod, length, Result, err, panic, DispatchError, ℕ, suc, ◌+◌, ◌<◌, ◌≡◌, ◌≢◌, List, [], ◌∷◌,
  arith,
}
use cyborg_chain.Frame.{BlockNumber, Frame}
use cyborg_chain.WorkerRegistration.{Error, Storage, Host}
use cyborg_chain.WorkerRegistration.Invariant.{IsValid, genesis, genesis-IsValid}
use cyborg_chain.WorkerRegistration.Preservation.{
  with_worker-IsValid, with_task-IsValid, with_status-IsValid,
}
use cyborg_chain.WorkerRegistration.Outcome.{
  Outcome, failed, registered, scheduled, reported, dispatch-Outcome,
}
use cyborg_chain.WorkerRegistration.Dispatch.{Call, Extrinsic, dispatch, run}

-- Both counters have room for `n` more calls.
pub record HasRoom (n : ℕ) (s : Storage) : Type 0 where
  pub cluster_ids : s.next_cluster_id + n < u64_mod
  pub task_ids : s.next_task_id + n < u64_mod

module _ {host : Host} {now : BlockNumber} {s : Storage}
    {r : Result (DispatchError Error) (Unit {0}) × Storage} where
  pub Outcome-IsValid : Outcome host now s r → IsValid s → HasRoom 1 s → IsValid r.1
  Outcome-IsValid (failed e h) v room = rw h v
  Outcome-IsValid (registered creator name ip port fresh address positive h) v room = rw h (
      with_worker-IsValid host now creator name ip port s v fresh address positive room.cluster_ids)
  Outcome-IsValid (scheduled who task_data worker assigned w pick known stored h) v room =
      rw h (with_task-IsValid now who task_data worker assigned w.ip s v known room.task_ids)
  Outcome-IsValid (reported c w status stored h) v room =
      rw h (with_status-IsValid c w status s v stored)

  pub Outcome-HasRoom : Outcome host now s r → (n : ℕ) → HasRoom (suc n) s → HasRoom n r.1
  Outcome-HasRoom (failed e h) n room = rw h (omega (arith, room.cluster_ids, room.task_ids))
  Outcome-HasRoom (registered creator name ip port fresh address positive h) n room =
      rw h (omega (arith, room.cluster_ids, room.task_ids))
  Outcome-HasRoom (scheduled who task_data worker assigned w pick known stored h) n room =
      rw h (omega (arith, room.cluster_ids, room.task_ids))
  Outcome-HasRoom (reported c w status stored h) n room =
      rw h (omega (arith, room.cluster_ids, room.task_ids))

  Outcome-ne-panic : Outcome host now s r → r.0 ≢ panic
  Outcome-ne-panic (failed e h) p = cc
  Outcome-ne-panic (registered creator name ip port fresh address positive h) p = cc
  Outcome-ne-panic (scheduled who task_data worker assigned w pick known stored h) p = cc
  Outcome-ne-panic (reported c w status stored h) p = cc

  Outcome-atomic : Outcome host now s r → (e : DispatchError Error) → r.0 ≡ err e → r.1 ≡ s
  Outcome-atomic (failed e' h) e p = cc
  Outcome-atomic (registered creator name ip port fresh address positive h) e p = cc
  Outcome-atomic (scheduled who task_data worker assigned w pick known stored h) e p = cc
  Outcome-atomic (reported c w status stored h) e p = cc

module _ (frame : Frame) (host : Host) where
  -- On a valid storage with room in both counters, every call keeps the invariant, whether it
  -- succeeds or fails.
  dispatch-IsValid :
      (now : BlockNumber) (origin : frame.Origin) (call : Call) (s : Storage)
      → IsValid s
      → HasRoom 1 s
      → IsValid (dispatch frame host now origin call s).1
  dispatch-IsValid now origin call s v room =
      Outcome-IsValid (dispatch-Outcome frame host now origin s v call) v room

  -- On a valid storage no call panics: neither the remainder by the number of workers, nor the
  -- index into the hash, nor the index into the list of workers.
  pub dispatch-ne-panic :
      (now : BlockNumber) (origin : frame.Origin) (call : Call) (s : Storage)
      → IsValid s
      → (dispatch frame host now origin call s).0 ≢ panic
  dispatch-ne-panic now origin call s v =
      Outcome-ne-panic (dispatch-Outcome frame host now origin s v call)

  -- On a valid storage a call that returns an error has changed nothing, although
  -- `task_scheduler` writes before its last three checks.
  pub dispatch_atomic :
      (now : BlockNumber) (origin : frame.Origin) (call : Call) (s : Storage)
      (e : DispatchError Error)
      → IsValid s
      → (dispatch frame host now origin call s).0 ≡ err e
      → (dispatch frame host now origin call s).1 ≡ s
  dispatch_atomic now origin call s e v =
      Outcome-atomic (dispatch-Outcome frame host now origin s v call) e

  run-IsValid_from :
      (xs : List (Extrinsic frame)) (s : Storage)
      → IsValid s
      → HasRoom (length xs) s
      → IsValid (run frame host xs s)
  unfolding run
  run-IsValid_from [] s v room = v
  run-IsValid_from (x ∷ xs) s v room =
      let o = dispatch-Outcome frame host x.block x.origin s v x.call in
      run-IsValid_from xs (dispatch frame host x.block x.origin x.call s).1
        (Outcome-IsValid o v (omega (arith, room.cluster_ids, room.task_ids)))
        (Outcome-HasRoom o (length xs) room)

  -- From genesis, any sequence of fewer than 2^64 extrinsics, failing or not, leads to a valid
  -- storage.
  pub run-IsValid :
      (xs : List (Extrinsic frame)) → length xs < u64_mod → IsValid (run frame host xs genesis)
  run-IsValid xs few =
      run-IsValid_from xs genesis genesis-IsValid
        (record { cluster_ids = omega arith; task_ids = omega arith })
