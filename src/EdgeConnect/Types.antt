-- ===== src/EdgeConnect/Types.antt =====
-- The data types, errors, events, configuration and storage of pallets/edge-connect/src/lib.rs.
use cyborg_chain.Prelude.{Bytes, ascii, ℕ, Option, List}
use cyborg_chain.Frame.{AccountId, BlockNumber}

-- The constants of the pallet's `Config`, each a u32 or a block number. (`UnsignedPriority` is
-- declared there and used nowhere.)
pub record Config : Type 0 where
  pub grace_period : BlockNumber
  pub unsigned_interval : BlockNumber
  pub max_command : ℕ
  pub max_responses : ℕ
  pub max_string_length : ℕ

-- `KEY_TYPE`: under which the keystore has the keys of the off-chain worker.
abbrev pub key_type : Bytes
key_type = ascii "edge"

-- `T::Public` and `T::Signature`, which the pallet only passes on.
abbrev pub Public : Type 0
Public = ℕ

abbrev pub Signature : Type 0
Signature = Bytes

pub record ResponsePayload : Type 0 where
  pub block_number : BlockNumber
  pub response : Bytes
  pub public : Public

pub data TransactionType : Type 0 where
  signed unsigned_for_any unsigned_for_all raw no_transaction : TransactionType

pub data Event : Type 0 where
  connection_created : (connection : ℕ) (who : AccountId) → Event
  connection_removed : (connection : ℕ) (who : AccountId) → Event
  command_sent : (command : Bytes) (who : AccountId) → Event
  new_response : (response : Bytes) (maybe_who : Option AccountId) → Event

pub data Error : Type 0 where
  connection_already_exists connection_does_not_exist response_too_large invalid_command : Error
  command_too_long too_many_commands : Error

-- An entry of `Commands` or `Responses`.
abbrev pub Entry : Type 0
Entry = Option AccountId × Bytes

-- The storage items, and the events deposited so far. `connection` is `none` while the item does
-- not exist.
pub record Storage : Type 0 where
  pub connection : Option ℕ
  pub commands : List Entry
  pub responses : List Entry
  pub next_unsigned_at : BlockNumber
  pub events : List Event
