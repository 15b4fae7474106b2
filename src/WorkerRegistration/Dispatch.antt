-- ===== src/WorkerRegistration/Dispatch.antt =====
-- The calls of pallets/worker-registration/src/lib.rs as `#[pallet::call]` exposes them, and a
-- chain's sequence of them.
use cyborg_chain.WorkerRegistration
use cyborg_chain.Prelude.{Bytes, ℕ, Bool, List, [], ◌∷◌}
use cyborg_chain.Frame.{BlockNumber, Frame}
use cyborg_chain.WorkerRegistration.{ClusterId, Ip, Storage, Host, WorkerAction}

pub data Call : Type 0 where
  worker_register : (name : Bytes) (ip : Ip) (port : ℕ) → Call
  task_scheduler : (task_data : Bytes) → Call
  verify_connection : (worker_index : ClusterId) (deployment_status : Bool) → Call

-- A call with its origin, in the block numbered `block`.
pub record Extrinsic (frame : Frame) : Type 0 where
  pub block : BlockNumber
  pub origin : frame.Origin
  pub call : Call

module _ (frame : Frame) (host : Host) where
  unfoldable pub dispatch : BlockNumber → frame.Origin → Call → WorkerAction (Unit {0})
  dispatch now origin (worker_register name ip port) =
      WorkerRegistration.worker_register frame host now origin name ip port
  dispatch now origin (task_scheduler task_data) =
      WorkerRegistration.task_scheduler frame host now origin task_data
  dispatch now origin (verify_connection worker_index deployment_status) =
      WorkerRegistration.verify_connection frame origin worker_index deployment_status

  -- The storage after each extrinsic in turn, whether it succeeds or not.
  unfoldable pub run : List (Extrinsic frame) → Storage → Storage
  run [] s = s
  run (x ∷ xs) s = run xs (dispatch x.block x.origin x.call s).1
