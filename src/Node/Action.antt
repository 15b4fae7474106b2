-- ===== src/Node/Action.antt =====
-- Fallible steps of the node, with what they have started. The actions are those of the pallets;
-- `>>=` stays shut, so that a long chain is taken apart by rules about it.
pub mod Succeeds
use cyborg_chain.Prelude.{Action, Result, ok, err, panic}
use cyborg_chain.Prelude.{◌>>=◌ as ◌>>='◌}

infixl 5 ◌>>=◌ ◌>>◌
unfoldable pub ◌>>=◌ : {S E A B : Type 0} → Action S E A → (A → Action S E B) → Action S E B
m >>= f = m >>=' f

abbrev pub ◌>>◌ : {S E A B : Type 0} → Action S E A → Action S E B → Action S E B
m >> k = m >>= λ _. k

-- What `>>=` does after its first action.
abbrev pub next : {S E A B : Type 0} → (A → Action S E B) → Result E A → S → Result E B × S
next f r s = elim r [ ok a ↦ f a s | err e ↦ (err e, s) | panic ↦ (panic, s) ]
