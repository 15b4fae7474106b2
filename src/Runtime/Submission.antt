-- ===== src/Runtime/Submission.antt =====
-- A chain of runtime/src/lib.rs with the transactions that the off-chain workers of its two pallets
-- have handed to the pool: steps that any node, account or block author can make, in any order.
use cyborg_chain.Prelude.{
  ℕ, suc, ◌+◌, ◌≡◌, Bool, Option, some, List, [], ◌∷◌, ◌++◌, Memᴰ, Result, true,
}
use cyborg_chain.Frame.{AccountId, BlockNumber, Frame}
use cyborg_chain.Http.{Client}
use cyborg_chain.EdgeConnect
use cyborg_chain.EdgeConnect.Choose.{Stored, Mutated}
use cyborg_chain.EdgeConnect.Dispatch as EdgeCalls
use cyborg_chain.EdgeConnect.Offchain as EdgeOffchain
use cyborg_chain.WorkerRegistration
use cyborg_chain.WorkerRegistration.Dispatch as WorkerCalls
use cyborg_chain.WorkerRegistration.Offchain as WorkerOffchain
use cyborg_chain.Runtime.Compose.{
  RuntimeCall, edge_connect, worker_registration, RuntimeError, Chain, dispatch, genesis,
}
pub mod Ending
pub mod Success

-- The origins that a block gives to its extrinsics.
pub record Origins (frame : Frame) : Type 0 where
  pub signed_by : AccountId → frame.Origin
  pub ensure_signed-signed_by : (who : AccountId) → frame.ensure_signed (signed_by who) ≡ some who
  pub no_signer : frame.Origin
  pub ensure_none-no_signer : frame.ensure_none no_signer ≡ true

-- A transaction of the pool.
pub data Pending : Type 0 where
  unsigned : EdgeCalls.Call → Pending
  signed : (who : AccountId) → RuntimeCall → Pending

pub record System : Type 0 where
  pub block : BlockNumber
  pub chain : Chain
  -- what the off-chain workers have handed to the pool, and no block has yet
  pub pending : List Pending

module _ (frame : Frame) (origins : Origins frame) (host : WorkerRegistration.Host)
    (config : EdgeConnect.Config) (signer : EdgeOffchain.Signer) where
  -- The dispatch of a transaction of the pool with its origin in a block. What a block does before
  -- it (validation, nonce and fees) is left out.
  abbrev pub execute : Pending → BlockNumber → Chain → Result RuntimeError (Unit {0}) × Chain
  execute (unsigned call) now = dispatch frame host config now origins.no_signer (edge_connect call)
  execute (signed who call) now = dispatch frame host config now (origins.signed_by who) call

  -- A run of the off-chain worker of edge-connect on the chain's state.
  abbrev pub edge_run :
      Client → ((Stored → Option BlockNumber) → Mutated) → System → EdgeOffchain.Sent
  edge_run client mutate w =
      EdgeOffchain.offchain_worker config client signer mutate w.block w.chain.edge

  pub data Step (w : System) : System → Type 0 where
    next_block : Step w (record w { block = suc w.block })
    -- any other extrinsic, of any origin
    other :
        (origin : frame.Origin) (call : RuntimeCall)
        → Step w (record w { chain = (dispatch frame host config w.block origin call w.chain).1 })
    -- a block takes a transaction of the pool, not always the oldest one
    included :
        (before after : List Pending) (t : Pending)
        → w.pending ≡ before ++ t ∷ after
        → Step w (record w { chain = (execute t w.block w.chain).1; pending = before ++ after })
    -- the off-chain worker of edge-connect, with whatever its server and the local storage answer
    handed_unsigned :
        (client : Client) (mutate : (Stored → Option BlockNumber) → Mutated) (call : EdgeCalls.Call)
        → Memᴰ call (edge_run client mutate w).unsigned_calls
        → Step w (record w { pending = w.pending ++ unsigned call ∷ [] })
    handed_signed :
        (client : Client) (mutate : (Stored → Option BlockNumber) → Mutated) (who : AccountId)
        (call : EdgeCalls.Call)
        → Memᴰ call (edge_run client mutate w).signed_calls
        → Step w (record w { pending = w.pending ++ signed who (edge_connect call) ∷ [] })
    -- the off-chain worker of worker-registration
    reported :
        (client : Client) (json : WorkerOffchain.Json) (can_sign : Bool) (who : AccountId)
        (call : WorkerCalls.Call)
        → WorkerOffchain.offchain_worker host client json can_sign w.block w.chain.worker
          ≡ some call
        → Step w (record w { pending = w.pending ++ signed who (worker_registration call) ∷ [] })

  -- The systems after `n` steps from genesis.
  pub data Reach : ℕ → System → Type 0 where
    start : Reach 0 (record { block = 0; chain = genesis; pending = [] })
    later : {n : ℕ} {w v : System} → Reach n w → Step w v → Reach (suc n) v
