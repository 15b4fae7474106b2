-- ===== src/Examples/Genesis.antt =====
-- The genesis of the development chain, with keys by the length of the secret text.
use cyborg_chain.Prelude.{
  Bytes, ascii, All-mem, Distinct, Images, ◌≡◌, refl, ◌≢◌, Option, none, some, List, [], ◌∷◌, Memᴰ,
  arith,
}
use cyborg_chain.Frame.{AccountId}
use cyborg_chain.Node.ChainSpec.{
  get_from_seed, GenesisConfig, testnet_genesis, ChainSpec, all_of, get_account_id_from_seed,
  authority_keys_from_seed, development_seeds, genesis_of, development_config, load_spec,
}
use cyborg_chain.Node.Genesis.{BuiltIn}
use cyborg_chain.Node.Genesis.Images.{AreApart}
use cyborg_chain.Node.Genesis.Sources.{account_of, sources, endowed}
use cyborg_chain.Node.Genesis.Accepted.{IsAccepted, load_spec-IsAccepted}
use cyborg_chain.Examples.Outside.{keys}

Memᴰ-Images :
    {A : Type 0} (f : A → Option AccountId) (xs : List A) (ys : List AccountId) (x : A)
    (a : AccountId)
    → Images f xs ys
    → Memᴰ x xs
    → f x ≡ some a
    → Memᴰ a ys
Memᴰ-Images f [] ys x a h m e = elim m [ ]
Memᴰ-Images f (z ∷ zs) [] x a h m e = absurd h
Memᴰ-Images f (z ∷ zs) (y ∷ ys) x a h (Memᴰ.head p) e = Memᴰ.head (cc (h.0, p, e))
Memᴰ-Images f (z ∷ zs) (y ∷ ys) x a h (Memᴰ.tail m) e = Memᴰ.tail (Memᴰ-Images f zs ys x a h.1 m e)

Distinct-AreApart :
    {A : Type 0} (f : A → Option AccountId) (xs : List A) (ys : List AccountId)
    → Images f xs ys
    → Distinct ys
    → AreApart f xs
Distinct-AreApart f [] ys h d x y a m n p q = elim m [ ]
Distinct-AreApart f (z ∷ zs) [] h d x y a m n p q = absurd h
Distinct-AreApart f (z ∷ zs) (w ∷ ws) h d x y a (Memᴰ.head i) (Memᴰ.head j) p q = cc
Distinct-AreApart f (z ∷ zs) (w ∷ ws) h d x y a (Memᴰ.head i) (Memᴰ.tail n) p q =
    absurd (All-mem (λ v. w ≢ v) (Memᴰ-Images f zs ws y a h.1 n q) d.0 (cc (h.0, i, p)))
Distinct-AreApart f (z ∷ zs) (w ∷ ws) h d x y a (Memᴰ.tail m) (Memᴰ.head j) p q =
    absurd (All-mem (λ v. w ≢ v) (Memᴰ-Images f zs ws x a h.1 m p) d.0 (cc (h.0, j, q)))
Distinct-AreApart f (z ∷ zs) (w ∷ ws) h d x y a (Memᴰ.tail m) (Memᴰ.tail n) p q =
    Distinct-AreApart f zs ws h.1 d.1 x y a m n p q

abbrev development_accounts : List AccountId
development_accounts = 7 ∷ 5 ∷ 9 ∷ 14 ∷ 12 ∷ []

development_accounts-Distinct : Distinct development_accounts
development_accounts-Distinct = ground arith

development_Images : Images (account_of keys) (sources development_seeds []) development_accounts
unfolding get_account_id_from_seed get_from_seed
development_Images = (refl, (refl, (refl, (refl, (refl, tt)))))

development_apart : AreApart (account_of keys) (endowed BuiltIn.dev)
development_apart =
    Distinct-AreApart (account_of keys) (sources development_seeds []) development_accounts
      development_Images development_accounts-Distinct

abbrev development_genesis : GenesisConfig
development_genesis = testnet_genesis [] ((7, 7) ∷ []) 7 development_accounts

abbrev no_files : Bytes → Option ChainSpec
no_files path = none

development_spec_is : load_spec keys [] no_files (ascii "dev") ≡ some (development_config keys [])
unfolding load_spec
development_spec_is = refl

development_genesis_is : (development_config keys []).genesis ≡ some development_genesis
unfolding development_config genesis_of all_of get_account_id_from_seed authority_keys_from_seed
    get_from_seed
development_genesis_is = refl

load_spec-IsAccepted_example : IsAccepted development_genesis
load_spec-IsAccepted_example =
    load_spec-IsAccepted keys [] no_files (ascii "dev") 1 5 (development_config keys [])
      development_genesis BuiltIn.dev development_apart development_spec_is development_genesis_is
