-- ===== src/Examples/Chain.antt =====
-- The theorems on runtime/src/lib.rs and node/src/chain_spec.rs at concrete inputs.
use cyborg_chain.Prelude.{
  ℕ, ◌^◌, ◌*◌, ◌<◌, ◌≤◌, arith, Bytes, ascii, length, ◌≡◌, refl, Option, none, some, [], ◌∷◌,
}
use cyborg_chain.Runtime.Constants.{block_hash_count}
use cyborg_chain.Runtime.Period.{checked_next_power_of_two, period, period_largest}
use cyborg_chain.Runtime.Transaction.{Transaction, signed_with, with_payload, create_transaction}
use cyborg_chain.Runtime.Signed.{IsFor, create_transaction-IsFor}
use cyborg_chain.Node.ChainSpec.{
  get_from_seed, GenesisConfig, testnet_genesis, ChainSpec, all_of, get_account_id_from_seed,
  authority_keys_from_seed, genesis_of, local_testnet_config, load_spec,
}
use cyborg_chain.Node.Genesis.{total, BuiltIn, load_spec_shares}
use cyborg_chain.Examples.Outside.{signing, keys}

period_test : period block_hash_count ≡ 2048
unfolding period checked_next_power_of_two
period_test = refl

period_largest_example :
    (j : ℕ) × (period block_hash_count ≡ 2 ^ j)
    × (period block_hash_count < block_hash_count)
    × (block_hash_count ≤ 2 * period block_hash_count)
period_largest_example = period_largest block_hash_count (omega arith) (omega arith)

abbrev transaction : Transaction signing
transaction = record {
  call = 3;
  address = 7;
  signature = 1 ∷ 3 ∷ [];
  era = (2048, 9);
  nonce = 2;
  tip = 0;
}

transaction_is : create_transaction signing 3 1 7 2 10 ≡ some transaction
unfolding create_transaction period checked_next_power_of_two with_payload signed_with
transaction_is = refl

create_transaction-IsFor_example : IsFor signing 3 1 7 2 (2048, 9) transaction
create_transaction-IsFor_example =
    create_transaction-IsFor signing 3 1 7 2 10 transaction transaction_is

abbrev one_seed : GenesisConfig
one_seed = testnet_genesis [] ((7, 7) ∷ []) 7 (7 ∷ 3 ∷ [])

one_seed_is :
    genesis_of keys [] (ascii "Alice" ∷ []) (ascii "Alice" ∷ []) (ascii "5E4" ∷ []) ≡ some one_seed
unfolding genesis_of all_of get_account_id_from_seed authority_keys_from_seed get_from_seed
one_seed_is = refl

-- The local chain: twelve accounts, two authorities.
abbrev local_genesis : GenesisConfig
local_genesis =
    testnet_genesis [] ((7, 7) ∷ (5, 5) ∷ []) 7
      (7 ∷ 5 ∷ 9 ∷ 6 ∷ 5 ∷ 8 ∷ 14 ∷ 12 ∷ 16 ∷ 13 ∷ 12 ∷ 15 ∷ [])

abbrev no_files : Bytes → Option ChainSpec
no_files path = none

local_spec_is : load_spec keys [] no_files (ascii "local") ≡ some (local_testnet_config keys [])
unfolding load_spec
local_spec_is = refl

local_genesis_is : (local_testnet_config keys []).genesis ≡ some local_genesis
unfolding local_testnet_config genesis_of all_of get_account_id_from_seed authority_keys_from_seed
    get_from_seed
local_genesis_is = refl

load_spec_shares_example :
    (total local_genesis.balances ≡ 12_000_000_000_000_000_000_000_000_000)
    × (length local_genesis.aura ≡ 2)
    × (length local_genesis.grandpa ≡ 2)
    × (local_genesis.sudo ≡ get_account_id_from_seed keys (ascii "Alice"))
load_spec_shares_example =
    load_spec_shares keys [] no_files (ascii "local") 2 12 (local_testnet_config keys [])
      local_genesis BuiltIn.local local_spec_is local_genesis_is
