-- ===== src/Node/ChainSpec.antt =====
-- node/src/chain_spec.rs, and `load_spec` of node/src/command.rs.
use cyborg_chain.Prelude.{
  if◌then◌else◌, Bytes, ascii, bytes_eq, ℕ, ◌||◌, Option, none, some, List, [], ◌∷◌, ◌++◌, map,
}
use cyborg_chain.Frame.{AccountId}

-- Keys come from secret texts by code of other libraries: `Pair::from_string`, then `public`, for
-- the three schemes, and SS58 addresses. `none` is an error, on which the node panics.
pub record Keys : Type 0 where
  pub aura : Bytes → Option ℕ
  pub grandpa : Bytes → Option ℕ
  pub sr25519 : Bytes → Option ℕ
  pub into_account : ℕ → AccountId
  pub from_ss58check : Bytes → Option AccountId

infixl 5 ◌>>=◌
abbrev pub ◌>>=◌ : {A B : Type 0} → Option A → (A → Option B) → Option B
none >>= f = none
some a >>= f = f a

unfoldable pub get_from_seed : (Bytes → Option ℕ) → Bytes → Option ℕ
get_from_seed from_string seed = from_string (ascii "//" ++ seed)

pub data ChainType : Type 0 where
  development local : ChainType

-- The parts of `RuntimeGenesisConfig` that `testnet_genesis` sets. `code` is the WASM binary.
pub record GenesisConfig : Type 0 where
  pub code : Bytes
  pub balances : List (AccountId × ℕ)
  pub aura : List ℕ
  pub grandpa : List (ℕ × ℕ)
  pub sudo : Option AccountId

abbrev pub endowment : ℕ
endowment = 1_000_000_000_000_000_000_000_000_000

unfoldable pub testnet_genesis : Bytes → List (ℕ × ℕ) → AccountId → List AccountId → GenesisConfig
testnet_genesis code initial_authorities root_key endowed_accounts = record {
  code = code;
  balances = map (λ k. (k, endowment)) endowed_accounts;
  aura = map (λ x. x.0) initial_authorities;
  grandpa = map (λ x. (x.1, 1)) initial_authorities;
  sudo = some root_key;
}

-- A `serde_json::Value` of the properties.
pub data Property : Type 0 where
  text : Bytes → Property
  number : ℕ → Property

-- A chain specification: `genesis` is what its closure returns, `none` if that panics.
pub record ChainSpec : Type 0 where
  pub name : Bytes
  pub id : Bytes
  pub chain_type : ChainType
  pub genesis : Option GenesisConfig
  pub properties : Option (List (Bytes × Property))

-- `vec![f(x), …]`, where each call may panic.
unfoldable pub all_of : {A : Type 0} → (Bytes → Option A) → List Bytes → Option (List A)
all_of f [] = some []
all_of f (x ∷ xs) = do a ← f x; rest ← all_of f xs; some (a ∷ rest)

module _ (keys : Keys) where
  unfoldable pub get_account_id_from_seed : Bytes → Option AccountId
  unfolding get_from_seed
  get_account_id_from_seed seed = do
    public ← get_from_seed keys.sr25519 seed
    some (keys.into_account public)

  unfoldable pub authority_keys_from_seed : Bytes → Option (ℕ × ℕ)
  unfolding get_from_seed
  authority_keys_from_seed s = do
    aura ← get_from_seed keys.aura s
    grandpa ← get_from_seed keys.grandpa s
    some (aura, grandpa)

-- The lists that the three configurations write out: the seeds of their authorities and of their
-- accounts, and known addresses.
abbrev pub one_authority : List Bytes
one_authority = ascii "Alice" ∷ []

abbrev pub two_authorities : List Bytes
two_authorities = ascii "Alice" ∷ ascii "Bob" ∷ []

abbrev pub development_seeds : List Bytes
development_seeds =
    ascii "Alice" ∷ ascii "Bob" ∷ ascii "Charlie" ∷ ascii "Alice//stash" ∷ ascii "Bob//stash" ∷ []

abbrev pub local_seeds : List Bytes
local_seeds =
    ascii "Alice"
    ∷ ascii "Bob"
    ∷ ascii "Charlie"
    ∷ ascii "Dave"
    ∷ ascii "Eve"
    ∷ ascii "Ferdie"
    ∷ ascii "Alice//stash"
    ∷ ascii "Bob//stash"
    ∷ ascii "Charlie//stash"
    ∷ ascii "Dave//stash"
    ∷ ascii "Eve//stash"
    ∷ ascii "Ferdie//stash"
    ∷ []

abbrev pub enthiran_seeds : List Bytes
enthiran_seeds = ascii "Alice" ∷ ascii "Bob" ∷ ascii "Charlie" ∷ []

abbrev pub enthiran_addresses : List Bytes
enthiran_addresses =
    ascii "5E4SberoKKe5UtNxS1dk51QdZAcKuryLAAJ6eDA9wgHUuPSA"
    ∷ ascii "5C8A6BZSL3M1G7VP7bcDjatrEx8WLYd2Yup4tJy1rR5D4uXx"
    ∷ []

module _ (keys : Keys) (code : Bytes) where
  unfoldable pub genesis_of : List Bytes → List Bytes → List Bytes → Option GenesisConfig
  unfolding all_of get_account_id_from_seed authority_keys_from_seed testnet_genesis
  genesis_of authorities seeds addresses = do
    initial_authorities ← all_of (authority_keys_from_seed keys) authorities
    root_key ← get_account_id_from_seed keys (ascii "Alice")
    seeded ← all_of (get_account_id_from_seed keys) seeds
    known ← all_of keys.from_ss58check addresses
    some (testnet_genesis code initial_authorities root_key (seeded ++ known))

  unfoldable pub development_config : ChainSpec
  unfolding genesis_of
  development_config = record {
    name = ascii "Cyborg DevNet";
    id = ascii "dev";
    chain_type = development;
    genesis = genesis_of one_authority development_seeds [];
    properties = none;
  }

  unfoldable pub local_testnet_config : ChainSpec
  unfolding genesis_of
  local_testnet_config = record {
    name = ascii "Local Testnet";
    id = ascii "local_testnet";
    chain_type = local;
    genesis = genesis_of two_authorities local_seeds [];
    properties = none;
  }

  unfoldable pub enthiran_config : ChainSpec
  unfolding genesis_of
  enthiran_config = record {
    name = ascii "Enthiran Testnet";
    id = ascii "enthiran_testnet";
    chain_type = local;
    genesis = genesis_of two_authorities enthiran_seeds enthiran_addresses;
    properties =
        some ((ascii "tokenSymbol", text (ascii "ENTT")) ∷ (ascii "tokenDecimals", number 18) ∷ []);
  }

  -- `load_spec`: any other text is the path of a JSON file, which another library reads.
  unfoldable pub load_spec : (from_json_file : Bytes → Option ChainSpec) → Bytes → Option ChainSpec
  load_spec from_json_file id =
      if bytes_eq id (ascii "dev")
      then some development_config
      else if bytes_eq id (ascii "enthiran")
      then some enthiran_config
      else if bytes_eq id [] || bytes_eq id (ascii "local")
      then some local_testnet_config
      else from_json_file id
