-- ===== src/Node/Action/Succeeds.antt =====
-- Actions of the node that always come to a result.
use cyborg_chain.Prelude.{
  if◌then◌else◌, Result, ok, err, panic, Action, pure, or_panic, ◌≡◌, refl, Bool, true, false,
  Option, none, some,
}
use cyborg_chain.Node.Action.{◌>>=◌, next}

module _ {S E : Type 0} where
  abbrev pub Succeeds : {A : Type 0} → Action S E A → Type 0
  Succeeds {A} m = (s : S) → (a : A) × ((m s).0 ≡ ok a)

  pub Succeeds-try : {A : Type 0} (r : Result E A) → (a : A) × (r ≡ ok a) → Succeeds (λ s. (r, s))
  Succeeds-try r h s = h

  Succeeds-next :
      {A B : Type 0} (f : A → Action S E B) (r : Result E A) (s : S)
      → (a : A) × (r ≡ ok a)
      → ((a : A) → Succeeds (f a))
      → (b : B) × ((next f r s).0 ≡ ok b)
  Succeeds-next f (ok a) s h hf = hf a s
  Succeeds-next f (err x) s (a, e) hf = absurd (cc)
  Succeeds-next f panic s (a, e) hf = absurd (cc)

  pub Succeeds-bind :
      {A B : Type 0} (m : Action S E A) (f : A → Action S E B)
      → Succeeds m
      → ((a : A) → Succeeds (f a))
      → Succeeds (m >>= f)
  unfolding ◌>>=◌
  Succeeds-bind m f hm hf s = Succeeds-next f (m s).0 (m s).1 (hm s) hf

  pub Succeeds-or_panic :
      {A : Type 0} (o : Option A) → (a : A) × (o ≡ some a) → Succeeds (or_panic o)
  Succeeds-or_panic (some b) h s = (b, refl)
  Succeeds-or_panic none (a, e) s = absurd (cc)

  pub Succeeds-if :
      (b : Bool) (m : Action S E (Unit {0})) → Succeeds m → Succeeds (if b then m else pure tt)
  Succeeds-if true m h s = h s
  Succeeds-if false m h s = (tt, refl)
