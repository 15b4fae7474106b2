-- ===== src/Node/Genesis/Sources.antt =====
-- The texts that the accounts of the genesis states of node/src/chain_spec.rs come from.
use cyborg_chain.Prelude.{
  Bytes, bytes_eq, bytes_eq_refl, All, Distinct, ℕ, ◌≡◌, refl, ◌≢◌, Bool, true, false, not, ◌&&◌,
  Option, List, [], ◌∷◌, ◌++◌, map, arith,
}
use cyborg_chain.Frame.{AccountId}
use cyborg_chain.Node.ChainSpec.{
  Keys, get_account_id_from_seed, development_seeds, local_seeds, enthiran_seeds,
  enthiran_addresses,
}
use cyborg_chain.Node.Genesis.{BuiltIn, dev, enthiran, default, local}

-- What an account of a genesis state is written as.
pub data Source : Type 0 where
  seed : Bytes → Source
  address : Bytes → Source

abbrev pub account_of : Keys → Source → Option AccountId
account_of keys (seed s) = get_account_id_from_seed keys s
account_of keys (address s) = keys.from_ss58check s

abbrev pub sources : List Bytes → List Bytes → List Source
sources seeds addresses = map seed seeds ++ map address addresses

-- A test that no two of the texts are the same.
unfoldable pub source_eq : Source → Source → Bool
source_eq (seed s) (seed t) = bytes_eq s t
source_eq (address s) (address t) = bytes_eq s t
source_eq _ _ = false

unfoldable pub none_is : Source → List Source → Bool
none_is x [] = true
none_is x (y ∷ ys) = not (source_eq x y) && none_is x ys

unfoldable pub all_differ : List Source → Bool
all_differ [] = true
all_differ (x ∷ xs) = none_is x xs && all_differ xs

source_eq_refl : (x : Source) → source_eq x x ≡ true
unfolding source_eq
source_eq_refl (seed s) = bytes_eq_refl s
source_eq_refl (address s) = bytes_eq_refl s

none_is-All : (x : Source) (ys : List Source) → none_is x ys ≡ true → All (λ y. x ≢ y) ys
unfolding none_is
none_is-All x [] h = tt
none_is-All x (y ∷ ys) h =
    (λ e. absurd (cc (h, source_eq_refl x, e)), none_is-All x ys (ground arith))

pub all_differ-Distinct : (xs : List Source) → all_differ xs ≡ true → Distinct xs
unfolding all_differ
all_differ-Distinct [] h = tt
all_differ-Distinct (x ∷ xs) h =
    (none_is-All x xs (ground arith), all_differ-Distinct xs (ground arith))

pub development_differ : all_differ (sources development_seeds []) ≡ true
unfolding all_differ none_is source_eq
development_differ = refl

pub enthiran_differ : all_differ (sources enthiran_seeds enthiran_addresses) ≡ true
unfolding all_differ none_is source_eq
enthiran_differ = refl

pub local_differ : all_differ (sources local_seeds []) ≡ true
unfolding all_differ none_is source_eq
local_differ = refl

-- The texts that a built-in specification writes its accounts as.
abbrev pub endowed :
    {id : Bytes} {authorities accounts : ℕ} → BuiltIn id authorities accounts → List Source
endowed dev = sources development_seeds []
endowed enthiran = sources enthiran_seeds enthiran_addresses
endowed default = sources local_seeds []
endowed local = sources local_seeds []
