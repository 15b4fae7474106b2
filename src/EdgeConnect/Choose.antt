-- ===== src/EdgeConnect/Choose.antt =====
-- `choose_transaction_type` of pallets/edge-connect/src/lib.rs: the grace period between two sends
-- of the off-chain workers of a node, and the lock by which they keep it.
use cyborg_chain.Prelude.{ltb, ◌==◌, if◌then◌else◌, u32_mod, ◌+◌, ◌%◌, Option, none, some}
use cyborg_chain.Frame.{BlockNumber}
use cyborg_chain.EdgeConnect.{
  Config, TransactionType, signed, unsigned_for_any, unsigned_for_all, raw, no_transaction,
}

-- What `StorageValueRef::get` finds: bytes that are no block number, nothing, or a block number.
pub data Stored : Type 0 where
  undecodable absent : Stored
  at : BlockNumber → Stored

-- The closure given to `mutate`: the block number to write, or `none` for `Err(RECENTLY_SENT)`.
unfoldable pub next_send : Config → BlockNumber → Stored → Option BlockNumber
next_send config block_number (at block) =
    if ltb block_number ((block + config.grace_period) % u32_mod) then none else some block_number
next_send config block_number absent = some block_number
next_send config block_number undecodable = some block_number

-- The result of `StorageValueRef::mutate`.
pub data Mutated : Type 0 where
  written : BlockNumber → Mutated
  value_function_failed : Mutated
  concurrent_modification : BlockNumber → Mutated

unfoldable pub type_of_block : BlockNumber → TransactionType
type_of_block block_number =
    let transaction_type = block_number % 4 in
    if transaction_type == 0
    then signed
    else if transaction_type == 1
    then unsigned_for_any
    else if transaction_type == 2
    then unsigned_for_all
    else raw

-- `mutate` is that of the entry "example_ocw::last_send".
unfoldable pub choose_transaction_type :
    Config → (mutate : (Stored → Option BlockNumber) → Mutated) → BlockNumber → TransactionType
unfolding type_of_block
choose_transaction_type config mutate block_number = elim (mutate (next_send config block_number)) [
  | written n ↦ type_of_block n
  | value_function_failed ↦ no_transaction
  | concurrent_modification _ ↦ no_transaction
]
