-- ===== src/Prelude/Maps.antt =====
-- A map from numbers, as an association list: the contents of one `StorageMap`.
use Prim.Native.Nat.{ℕ}
use mathlib.Core.Path.{◌≡◌, refl}
use mathlib.Core.Logic.{◌≢◌, inl, inr}
use mathlib.Core.Bool.{Bool}
use mathlib.Core.Option.{Option, none, some}
use mathlib.Core.List.{List, [], ◌∷◌}
use native.Mathlib.Omega.{arith}
use cyborg_chain.Prelude.Tests.{◌==◌, if◌then◌else◌, is_some, Bool-cases}

abbrev pub Dict {ℓ} : Type ℓ → Type ℓ
Dict V = List (ℕ × V)

module _ {ℓ} {V : Type ℓ} where
  unfoldable pub lookup : ℕ → Dict V → Option V
  lookup k [] = none
  lookup k ((j, v) ∷ d) = if j == k then some v else lookup k d

  unfoldable pub insert : ℕ → V → Dict V → Dict V
  insert k v [] = (k, v) ∷ []
  insert k v ((j, w) ∷ d) = if j == k then (k, v) ∷ d else (j, w) ∷ insert k v d

  abbrev pub contains_key : ℕ → Dict V → Bool
  contains_key k d = is_some (lookup k d)

  pub lookup-nil : (k : ℕ) → lookup k [] ≡ none
  unfolding lookup
  lookup-nil k = refl

  pub lookup-insert :
      (k j : ℕ) (v : V) (d : Dict V)
      → lookup j (insert k v d) ≡ (if k == j then some v else lookup j d)
  unfolding lookup insert
  lookup-insert k j v [] = refl
  lookup-insert k j v ((i, w) ∷ d) = ground (arith, lookup-insert k j v d)

module _ {ℓ} {V : Type ℓ} where
  pub lookup-insert_self : (k : ℕ) (v : V) (d : Dict V) → lookup k (insert k v d) ≡ some v
  lookup-insert_self k v d = ground (arith, lookup-insert k k v d)

  pub lookup-insert_ne :
      (k j : ℕ) (v : V) (d : Dict V) → k ≢ j → lookup j (insert k v d) ≡ lookup j d
  lookup-insert_ne k j v d h = ground (arith, lookup-insert k j v d)

module _ {ℓ κ} {V : Type ℓ} {W : Type κ} where
  -- The same keys with other values.
  abbrev pub map_values : (V → W) → Dict V → Dict W
  map_values f [] = []
  map_values f ((k, v) ∷ d) = (k, f v) ∷ map_values f d

  pub map_values-insert :
      (f : V → W) (k : ℕ) (v : V) (d : Dict V)
      → map_values f (insert k v d) ≡ insert k (f v) (map_values f d)
  unfolding insert
  map_values-insert f k v [] = refl
  map_values-insert f k v ((j, w) ∷ d) = ground (arith, map_values-insert f k v d)

  pub lookup-map_values :
      (f : V → W) (k : ℕ) (d : Dict V) → lookup k d ≡ none → lookup k (map_values f d) ≡ none
  unfolding lookup
  lookup-map_values f k [] h = refl
  lookup-map_values f k ((j, w) ∷ d) h = elim (Bool-cases (j == k)) [
    | inl same ↦ absurd (cc (rw same at h))
    | inr other ↦ rw other (lookup-map_values f k d (rw other at h))
  ]
