-- ===== src/Node/Genesis/Accepted.antt =====
-- That the runtime of runtime/src/lib.rs can start from the genesis states of
-- node/src/chain_spec.rs: the conditions of `pallet_balances`, `pallet_aura` and `pallet_grandpa`.
use cyborg_chain.Prelude.{
  Bytes, ascii, length, All, Distinct, Images, ℕ, ◌≤◌, ◌<◌, ◌≡◌, refl, ap, true, Option, some, List,
  [], ◌∷◌, ◌++◌, map, Memᴰ, arith,
}
use cyborg_chain.Frame.{AccountId}
use cyborg_chain.Runtime.Constants.{
  existential_deposit, aura_max_authorities, grandpa_max_authorities, u128_mod,
}
use cyborg_chain.Node.ChainSpec.{
  Keys, GenesisConfig, endowment, testnet_genesis, ChainSpec, all_of, get_account_id_from_seed,
  authority_keys_from_seed, one_authority, two_authorities, development_seeds, local_seeds,
  enthiran_seeds, enthiran_addresses, genesis_of, development_config, local_testnet_config,
  enthiran_config, load_spec,
}
use cyborg_chain.Node.Genesis.{
  total, length-all_of, length-map, testnet_genesis-total, genesis_of_inv, BuiltIn, dev, enthiran,
  default, local,
}
use cyborg_chain.Node.Genesis.Images.{
  AreApart, Images-all_of, Images-map, Images-append, Images-Distinct, Images-length,
}
use cyborg_chain.Node.Genesis.Sources.{
  seed, address, account_of, sources, all_differ, all_differ-Distinct, development_differ,
  enthiran_differ, local_differ, endowed,
}

-- What a genesis state has to fulfil: `pallet_balances` panics on an account that is listed twice
-- and on a balance below the existential deposit, the other two on too many authorities; and
-- somebody has to be able to pay for the calls of sudo.
pub record IsAccepted (g : GenesisConfig) : Type 0 where
  pub distinct : Distinct (map (λ e. e.0) g.balances)
  pub rich : All (λ e. existential_deposit ≤ e.1) g.balances
  pub supply : total g.balances < u128_mod
  pub aura_fits : length g.aura ≤ aura_max_authorities
  pub grandpa_fits : length g.grandpa ≤ grandpa_max_authorities
  pub votes : All (λ e. 0 < e.1) g.grandpa
  pub sudo : AccountId
  pub has_sudo : g.sudo ≡ some sudo
  pub sudo_pays : Memᴰ (sudo, endowment) g.balances

firsts :
    (accounts : List AccountId)
    → map (λ (e : AccountId × ℕ). e.0) (map (λ k. (k, endowment)) accounts) ≡ accounts
firsts [] = refl
firsts (a ∷ as') = ap (λ (r : List AccountId). a ∷ r) (firsts as')

each_rich :
    (accounts : List AccountId)
    → All
        (λ (e : AccountId × ℕ). existential_deposit ≤ e.1)
        (map (λ (k : AccountId). (k, endowment)) accounts)
each_rich [] = tt
each_rich (a ∷ as') = (omega arith, each_rich as')

each_votes :
    (authorities : List (ℕ × ℕ))
    → All (λ (e : ℕ × ℕ). 0 < e.1) (map (λ (x : ℕ × ℕ). (x.1, 1)) authorities)
each_votes [] = tt
each_votes (a ∷ as') = (omega arith, each_votes as')

first_pays :
    {A : Type 0} (f : A → Option AccountId) (x : A) (xs : List A) (root : AccountId)
    (accounts : List AccountId)
    → f x ≡ some root
    → Images f (x ∷ xs) accounts
    → Memᴰ {A = AccountId × ℕ} (root, endowment) (map (λ (k : AccountId). (k, endowment)) accounts)
first_pays f x xs root [] hx h = absurd h
first_pays f x xs root (a ∷ as') hx h = Memᴰ.head (cc (hx, h.0))

accounts_Images :
    (keys : Keys) (seeds addresses : List Bytes) (seeded known : List AccountId)
    → all_of (get_account_id_from_seed keys) seeds ≡ some seeded
    → all_of keys.from_ss58check addresses ≡ some known
    → Images (account_of keys) (sources seeds addresses) (seeded ++ known)
accounts_Images keys seeds addresses seeded known hs ha =
    Images-append (account_of keys) (map seed seeds) (map address addresses) seeded known
      (Images-map (account_of keys) seed seeds seeded
        (Images-all_of (get_account_id_from_seed keys) seeds seeded hs))
      (Images-map (account_of keys) address addresses known
        (Images-all_of keys.from_ss58check addresses known ha))

testnet_genesis-IsAccepted :
    (code : Bytes) (auths : List (ℕ × ℕ)) (root : AccountId) (accounts : List AccountId)
    → Distinct accounts
    → length auths ≤ 32
    → length accounts ≤ 300_000_000
    → Memᴰ {A = AccountId × ℕ} (root, endowment) (map (λ (k : AccountId). (k, endowment)) accounts)
    → IsAccepted (testnet_genesis code auths root accounts)
unfolding testnet_genesis
testnet_genesis-IsAccepted code auths root accounts different few_auths few pays = record {
  distinct = rw (firsts accounts) different;
  rich = each_rich accounts;
  supply = (testnet_genesis-total code auths root accounts few).1;
  aura_fits = rw (length-map (λ (x : ℕ × ℕ). x.0) auths) few_auths;
  grandpa_fits = rw (length-map {B = ℕ × ℕ} (λ (x : ℕ × ℕ). (x.1, 1)) auths) few_auths;
  votes = each_votes auths;
  sudo = root;
  has_sudo = refl;
  sudo_pays = pays;
}

genesis_of-IsAccepted :
    (keys : Keys) (code : Bytes) (authorities seeds addresses : List Bytes) (g : GenesisConfig)
    → length authorities ≤ 32
    → length (sources (ascii "Alice" ∷ seeds) addresses) ≤ 300_000_000
    → all_differ (sources (ascii "Alice" ∷ seeds) addresses) ≡ true
    → AreApart (account_of keys) (sources (ascii "Alice" ∷ seeds) addresses)
    → genesis_of keys code authorities (ascii "Alice" ∷ seeds) addresses ≡ some g
    → IsAccepted g
genesis_of-IsAccepted keys code authorities seeds addresses g few_auths few differ apart h =
    let p = genesis_of_inv keys code authorities (ascii "Alice" ∷ seeds) addresses g h in
    let texts = sources (ascii "Alice" ∷ seeds) addresses in
    let accounts = p.seeded ++ p.known in
    let images =
      accounts_Images keys (ascii "Alice" ∷ seeds) addresses p.seeded p.known p.from_seeds
        p.from_addresses in
    let n = length-all_of (authority_keys_from_seed keys) authorities p.auths p.from_authorities in
    let m = Images-length (account_of keys) texts accounts images in
    rw p.built (
      testnet_genesis-IsAccepted code p.auths p.root accounts
        (Images-Distinct (account_of keys) texts accounts images apart
          (all_differ-Distinct texts differ))
        (omega arith) (omega arith)
        (first_pays (account_of keys) (seed (ascii "Alice"))
          (map seed seeds ++ map address addresses) p.root accounts p.from_alice images))

spec-IsAccepted :
    (keys : Keys) (code : Bytes) (authorities seeds addresses : List Bytes) (own spec : ChainSpec)
    (g : GenesisConfig)
    → length authorities ≤ 32
    → length (sources (ascii "Alice" ∷ seeds) addresses) ≤ 300_000_000
    → all_differ (sources (ascii "Alice" ∷ seeds) addresses) ≡ true
    → AreApart (account_of keys) (sources (ascii "Alice" ∷ seeds) addresses)
    → own.genesis ≡ genesis_of keys code authorities (ascii "Alice" ∷ seeds) addresses
    → some own ≡ some spec
    → spec.genesis ≡ some g
    → IsAccepted g
spec-IsAccepted keys code authorities seeds addresses own spec g few_auths few differ apart built
      found h =
    let same : own ≡ spec = cc in
    genesis_of-IsAccepted keys code authorities seeds addresses g few_auths few differ apart
      (cc (built, ap (λ (s : ChainSpec). s.genesis) same, h))

abbrev tail : List Bytes → List Bytes
tail [] = []
tail (x ∷ xs) = xs

-- If different texts of a specification known to the node lead to different accounts, and its
-- genesis can be built, the runtime can start from it: no account is endowed twice, each has the
-- existential deposit, their sum is a u128, Aura and Grandpa get no more authorities than they can
-- hold, each with a vote, and the sudo key is an endowed account, so that it can pay for its calls.
pub load_spec-IsAccepted :
    (keys : Keys) (code : Bytes) (from_json_file : Bytes → Option ChainSpec) (id : Bytes)
    (authorities accounts : ℕ) (spec : ChainSpec) (g : GenesisConfig)
    (b : BuiltIn id authorities accounts)
    → AreApart (account_of keys) (endowed b)
    → load_spec keys code from_json_file id ≡ some spec
    → spec.genesis ≡ some g
    → IsAccepted g
unfolding load_spec development_config enthiran_config local_testnet_config
load_spec-IsAccepted keys code from_json_file id authorities accounts spec g dev apart found =
    spec-IsAccepted keys code one_authority (tail development_seeds) []
      (development_config keys code) spec g (omega arith) (omega arith) development_differ apart
      refl found
load_spec-IsAccepted keys code from_json_file id authorities accounts spec g enthiran apart found =
    spec-IsAccepted keys code two_authorities (tail enthiran_seeds) enthiran_addresses
      (enthiran_config keys code) spec g (omega arith) (omega arith) enthiran_differ apart refl
      found
load_spec-IsAccepted keys code from_json_file id authorities accounts spec g default apart found =
    spec-IsAccepted keys code two_authorities (tail local_seeds) [] (local_testnet_config keys code)
      spec g (omega arith) (omega arith) local_differ apart refl found
load_spec-IsAccepted keys code from_json_file id authorities accounts spec g local apart found =
    spec-IsAccepted keys code two_authorities (tail local_seeds) [] (local_testnet_config keys code)
      spec g (omega arith) (omega arith) local_differ apart refl found
