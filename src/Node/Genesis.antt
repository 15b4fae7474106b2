-- ===== src/Node/Genesis.antt =====
-- What the genesis states of node/src/chain_spec.rs give to whom.
pub mod Images
pub mod Sources
pub mod Accepted
use cyborg_chain.Prelude.{
  Bytes, ascii, length, length-append, ℕ, suc, ◌+◌, ◌*◌, ◌≤◌, ◌<◌, ◌≡◌, refl, ap, ◌∙◌, Option, none,
  some, List, [], ◌∷◌, ◌++◌, map, arith,
}
use cyborg_chain.Frame.{AccountId}
use cyborg_chain.Runtime.Constants.{u128_mod}
use cyborg_chain.Node.ChainSpec.{
  Keys, ◌>>=◌, GenesisConfig, endowment, testnet_genesis, all_of, get_account_id_from_seed,
  authority_keys_from_seed, genesis_of, ChainSpec, load_spec, development_config, enthiran_config,
  local_testnet_config, one_authority, two_authorities, development_seeds, local_seeds,
  enthiran_seeds, enthiran_addresses,
}

abbrev pub total : List (AccountId × ℕ) → ℕ
total [] = 0
total (e ∷ es) = e.1 + total es

total_endowed :
    (accounts : List AccountId)
    → total (map (λ k. (k, endowment)) accounts) ≡ length accounts * endowment
total_endowed [] = refl
total_endowed (a ∷ as') = omega (arith, total_endowed as')

pub bind_inv :
    {A B : Type 0} (m : Option A) (f : A → Option B) {b : B}
    → (m >>= f) ≡ some b
    → (a : A) × (m ≡ some a) × (f a ≡ some b)
bind_inv none f h = cc
bind_inv (some a) f h = (a, refl, h)

pub length-all_of :
    {A : Type 0} (f : Bytes → Option A) (xs : List Bytes) (ys : List A)
    → all_of f xs ≡ some ys
    → length ys ≡ length xs
unfolding all_of
length-all_of f [] ys h = ground arith
length-all_of f (x ∷ xs) ys h =
    let (a, _, h') = bind_inv (f x) _ h in
    let (rest, found, e) = bind_inv (all_of f xs) _ h' in
    ground (arith, length-all_of f xs rest found)

pub length-map {ℓ} : {A B : Type ℓ} (f : A → B) (xs : List A) → length (map f xs) ≡ length xs
length-map f [] = refl
length-map f (x ∷ xs) = ap suc (length-map f xs)

-- The balances of a genesis add up to 10^27 for each endowed account; they fit a u128 for up to
-- 300 million accounts.
pub testnet_genesis-total :
    (code : Bytes) (authorities : List (ℕ × ℕ)) (root_key : AccountId) (accounts : List AccountId)
    → length accounts ≤ 300_000_000
    → (total (testnet_genesis code authorities root_key accounts).balances
        ≡ length accounts * 1_000_000_000_000_000_000_000_000_000)
      × (total (testnet_genesis code authorities root_key accounts).balances < u128_mod)
unfolding testnet_genesis
testnet_genesis-total code authorities root_key accounts few =
    (total_endowed accounts, omega (arith, total_endowed accounts))

-- What a genesis that can be built is built from.
pub record Parts (keys : Keys) (code : Bytes) (authorities seeds addresses : List Bytes)
    (g : GenesisConfig) : Type 0 where
  pub auths : List (ℕ × ℕ)
  pub root : AccountId
  pub seeded : List AccountId
  pub known : List AccountId
  pub from_authorities : all_of (authority_keys_from_seed keys) authorities ≡ some auths
  pub from_alice : get_account_id_from_seed keys (ascii "Alice") ≡ some root
  pub from_seeds : all_of (get_account_id_from_seed keys) seeds ≡ some seeded
  pub from_addresses : all_of keys.from_ss58check addresses ≡ some known
  pub built : g ≡ testnet_genesis code auths root (seeded ++ known)

pub genesis_of_inv :
    (keys : Keys) (code : Bytes) (authorities seeds addresses : List Bytes) (g : GenesisConfig)
    → genesis_of keys code authorities seeds addresses ≡ some g
    → Parts keys code authorities seeds addresses g
unfolding genesis_of
genesis_of_inv keys code authorities seeds addresses g h = ground arith

-- Whenever the genesis of a chain specification can be built, the balances add up to
-- 10^27 for each seed and address, there is an Aura and a Grandpa key for each authority, and the
-- root key is the account of "Alice".
genesis_of_shares :
    (keys : Keys) (code : Bytes) (authorities seeds addresses : List Bytes) (g : GenesisConfig)
    → genesis_of keys code authorities seeds addresses ≡ some g
    → (total g.balances ≡ (length seeds + length addresses) * 1_000_000_000_000_000_000_000_000_000)
      × (length g.aura ≡ length authorities)
      × (length g.grandpa ≡ length authorities)
      × (g.sudo ≡ get_account_id_from_seed keys (ascii "Alice"))
unfolding testnet_genesis
genesis_of_shares keys code authorities seeds addresses g h =
    let p = genesis_of_inv keys code authorities seeds addresses g h in
    let n = length-all_of (get_account_id_from_seed keys) seeds p.seeded p.from_seeds in
    let k = length-all_of keys.from_ss58check addresses p.known p.from_addresses in
    let a = length-all_of (authority_keys_from_seed keys) authorities p.auths p.from_authorities in
    let accounts = length-append {0} p.seeded p.known in
    let count : length (p.seeded ++ p.known) ≡ length seeds + length addresses = omega arith in
    (
      rw p.built (
          total_endowed (p.seeded ++ p.known)
          ∙ ap (λ (n : ℕ). n * 1_000_000_000_000_000_000_000_000_000) count),
      rw p.built (length-map (λ x. x.0) p.auths ∙ a),
      rw p.built (length-map (λ x. (x.1, 1)) p.auths ∙ a),
      rw (p.built, p.from_alice),
    )

-- The ids that `load_spec` knows, with what their genesis states hold.
pub data BuiltIn : (id : Bytes) (authorities accounts : ℕ) → Type 0 where
  dev : BuiltIn (ascii "dev") 1 5
  enthiran : BuiltIn (ascii "enthiran") 2 5
  default : BuiltIn [] 2 12
  local : BuiltIn (ascii "local") 2 12

-- What `genesis_of_shares` says of a specification.
spec_shares :
    (keys : Keys) (code : Bytes) (authorities seeds addresses : List Bytes) (own spec : ChainSpec)
    (g : GenesisConfig)
    → own.genesis ≡ genesis_of keys code authorities seeds addresses
    → some own ≡ some spec
    → spec.genesis ≡ some g
    → (total g.balances ≡ (length seeds + length addresses) * 1_000_000_000_000_000_000_000_000_000)
      × (length g.aura ≡ length authorities)
      × (length g.grandpa ≡ length authorities)
      × (g.sudo ≡ get_account_id_from_seed keys (ascii "Alice"))
spec_shares keys code authorities seeds addresses own spec g built found h =
    let same : own ≡ spec = cc in
    genesis_of_shares keys code authorities seeds addresses g
      (cc (built, ap (λ (s : ChainSpec). s.genesis) same, h))

-- The specification that an id known to the node leads to is never one from a file: if its genesis
-- can be built, the supply is 10^27 for each of its accounts (5 for "dev" and "enthiran", else 12),
-- it has one authority ("dev") or two, and the root key is the account of "Alice".
pub load_spec_shares :
    (keys : Keys) (code : Bytes) (from_json_file : Bytes → Option ChainSpec) (id : Bytes)
    (authorities accounts : ℕ) (spec : ChainSpec) (g : GenesisConfig)
    → BuiltIn id authorities accounts
    → load_spec keys code from_json_file id ≡ some spec
    → spec.genesis ≡ some g
    → (total g.balances ≡ accounts * 1_000_000_000_000_000_000_000_000_000)
      × (length g.aura ≡ authorities)
      × (length g.grandpa ≡ authorities)
      × (g.sudo ≡ get_account_id_from_seed keys (ascii "Alice"))
unfolding load_spec development_config enthiran_config local_testnet_config
load_spec_shares keys code from_json_file id authorities accounts spec g dev found =
    spec_shares keys code one_authority development_seeds [] (development_config keys code) spec g
      refl found
load_spec_shares keys code from_json_file id authorities accounts spec g enthiran found =
    spec_shares keys code two_authorities enthiran_seeds enthiran_addresses
      (enthiran_config keys code) spec g refl found
load_spec_shares keys code from_json_file id authorities accounts spec g default found =
    spec_shares keys code two_authorities local_seeds [] (local_testnet_config keys code) spec g
      refl found
load_spec_shares keys code from_json_file id authorities accounts spec g local found =
    spec_shares keys code two_authorities local_seeds [] (local_testnet_config keys code) spec g
      refl found
