-- ===== src/Runtime/Compose.antt =====
-- `construct_runtime!` of runtime/src/lib.rs, as far as the repository's own pallets go: one state
-- and one call type.
use cyborg_chain.Prelude.{Result, ok, err, panic, DispatchError, Action, none, []}
use cyborg_chain.Frame.{BlockNumber, Frame}
use cyborg_chain.EdgeConnect
use cyborg_chain.EdgeConnect.Dispatch as EdgeCalls
use cyborg_chain.WorkerRegistration
use cyborg_chain.WorkerRegistration.Dispatch as WorkerCalls
use cyborg_chain.WorkerRegistration.Invariant as WorkerInvariant

-- `RuntimeCall` has a variant for each pallet.
pub data RuntimeCall : Type 0 where
  edge_connect : EdgeCalls.Call → RuntimeCall
  worker_registration : WorkerCalls.Call → RuntimeCall

-- The error of a call carries its pallet.
pub data RuntimeError : Type 0 where
  edge_connect : DispatchError EdgeConnect.Error → RuntimeError
  worker_registration : DispatchError WorkerRegistration.Error → RuntimeError

pub record Chain : Type 0 where
  pub edge : EdgeConnect.Storage
  pub worker : WorkerRegistration.Storage

abbrev lift :
    {E : Type 0} → (E → RuntimeError) → Result E (Unit {0}) → Result RuntimeError (Unit {0})
lift f (ok a) = ok a
lift f (err e) = err (f e)
lift f panic = panic

module _ (frame : Frame) (host : WorkerRegistration.Host) (config : EdgeConnect.Config) where
  unfoldable pub dispatch :
      BlockNumber → frame.Origin → RuntimeCall → Action Chain RuntimeError (Unit {0})
  dispatch now origin (edge_connect call) s =
      let (r, t) = EdgeCalls.dispatch frame config now origin call s.edge in
      (lift RuntimeError.edge_connect r, record s { edge = t })
  dispatch now origin (worker_registration call) s =
      let (r, t) = WorkerCalls.dispatch frame host now origin call s.worker in
      (lift RuntimeError.worker_registration r, record s { worker = t })

abbrev pub genesis : Chain
genesis = record {
  edge = record {
    connection = none;
    commands = [];
    responses = [];
    next_unsigned_at = 0;
    events = [];
  };
  worker = WorkerInvariant.genesis;
}
