-- ===== src/Frame.antt =====
-- What both pallets take from `frame_system`: who sent a call. The origin type and its two checks
-- are not code of this repository, so they are a parameter of the model.
pub mod Events
use cyborg_chain.Prelude.{ℕ, Bool, Option}

-- `T::AccountId`, a 32-byte identifier that the pallets only compare and store.
abbrev pub AccountId : Type 0
AccountId = ℕ

-- `BlockNumberFor<T>`, a u32 in the runtime.
abbrev pub BlockNumber : Type 0
BlockNumber = ℕ

pub record Frame : Type 1 where
  -- `OriginFor<T>`
  pub Origin : Type 0
  -- `ensure_signed`: the signer, or `BadOrigin`
  pub ensure_signed : Origin → Option AccountId
  -- `ensure_none`: whether the call was not signed, else `BadOrigin`
  pub ensure_none : Origin → Bool
