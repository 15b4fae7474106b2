-- ===== src/Prelude/Actions.antt =====
-- Fallible code over a state. A failed `ensure!` or `?` ends a dispatchable by `err`; a failed
-- index, a remainder by 0 or an `unwrap` on the wrong variant ends it by `panic`. What was written
-- before stays written, so the state comes back in every case.
use mathlib.Core.Bool.{Bool}
use mathlib.Core.Option.{Option, none, some}
use cyborg_chain.Prelude.Tests.{if◌then◌else◌}

pub data Result (E A : Type 0) : Type 0 where
  ok : A → Result E A
  err : E → Result E A
  panic : Result E A

-- `DispatchError`, as far as the pallets produce it: `BadOrigin` of the origin checks, and the
-- error enum of a pallet.
pub data DispatchError (E : Type 0) : Type 0 where
  bad_origin : DispatchError E
  module_error : E → DispatchError E

abbrev pub Action : Type 0 → Type 0 → Type 0 → Type 0
Action S E A = S → Result E A × S

infixl 5 ◌>>=◌ ◌>>◌
abbrev pub ◌>>=◌ : {S E A B : Type 0} → Action S E A → (A → Action S E B) → Action S E B
◌>>=◌ m f s =
    let (r, s') = m s in elim r [ ok a ↦ f a s' | err e ↦ (err e, s') | panic ↦ (panic, s') ]

abbrev pub ◌>>◌ : {S E A B : Type 0} → Action S E A → Action S E B → Action S E B
m >> k = m >>= λ _. k

module _ {S E A : Type 0} where
  abbrev pub pure : A → Action S E A
  pure a s = (ok a, s)

  -- Reads a part of the state.
  abbrev pub gets : (S → A) → Action S E A
  gets f s = (ok (f s), s)

  -- `ok_or(e)?`
  abbrev pub or_err : Option A → E → Action S E A
  or_err none e s = (err e, s)
  or_err (some a) e s = (ok a, s)

  -- `unwrap()`, an index
  abbrev pub or_panic : Option A → Action S E A
  or_panic none s = (panic, s)
  or_panic (some a) s = (ok a, s)

module _ {S E : Type 0} where
  -- `ensure!(c, e)`
  abbrev pub ensure : Bool → E → Action S E (Unit {0})
  ensure c e s = (if c then ok tt else err e, s)

  abbrev pub modify : (S → S) → Action S E (Unit {0})
  modify f s = (ok tt, f s)
