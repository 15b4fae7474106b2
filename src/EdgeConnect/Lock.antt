-- ===== src/EdgeConnect/Lock.antt =====
-- The off-chain workers of one node that share the entry "example_ocw::last_send", interleaved in
-- any order: `mutate` reads the entry, runs its closure, and writes by compare-and-set, which fails
-- if the entry is no longer what was read.
pub mod Contention
use cyborg_chain.EdgeConnect.Choose.{Stored, undecodable, absent, at, next_send}
use cyborg_chain.Prelude.{
  ◌==◌, if◌then◌else◌, Bool-cases, u32_mod, ℕ, ◌+◌, ◌≤◌, ◌<◌, ◌≡◌, refl, ◌≢◌, inl, inr, none, some,
  List, [], ◌∷◌, arith,
}
use cyborg_chain.Frame.{BlockNumber}
use cyborg_chain.EdgeConnect.{Config}

-- A worker: before `mutate`, or between its read of `seen` and its compare-and-set, in the run for
-- a block.
pub data Pc : Type 0 where
  idle : Pc
  holding : (seen : Stored) (block : BlockNumber) → Pc

pub record World : Type 0 where
  pub entry : Stored
  pub pc : ℕ → Pc
  -- the blocks for which a transaction was sent, the last one first
  pub sends : List BlockNumber

abbrev pub update : (ℕ → Pc) → ℕ → Pc → ℕ → Pc
update f i p j = if i == j then p else f j

pub data Step (config : Config) (w : World) : World → Type 0 where
  read :
      (i : ℕ) (block : BlockNumber)
      → w.pc i ≡ idle
      → block + config.grace_period < u32_mod
      → Step config w (record w { pc = update w.pc i (holding w.entry block) })
  recently_sent :
      (i : ℕ) (seen : Stored) (block : BlockNumber)
      → w.pc i ≡ holding seen block
      → next_send config block seen ≡ none
      → Step config w (record w { pc = update w.pc i idle })
  swap :
      (i : ℕ) (seen : Stored) (block : BlockNumber) (n : BlockNumber)
      → w.pc i ≡ holding seen block
      → next_send config block seen ≡ some n
      → w.entry ≡ seen
      → Step config w (record { entry = at n; pc = update w.pc i idle; sends = n ∷ w.sends })
  lost :
      (i : ℕ) (seen : Stored) (block : BlockNumber) (n : BlockNumber)
      → w.pc i ≡ holding seen block
      → next_send config block seen ≡ some n
      → w.entry ≢ seen
      → Step config w (record w { pc = update w.pc i idle })

pub data Reach (config : Config) (entry : Stored) : World → Type 0 where
  start : Reach config entry (record { entry = entry; pc = λ _. idle; sends = [] })
  later : {w v : World} → Reach config entry w → Step config w v → Reach config entry v

-- Each send is at least a grace period after the one before it.
abbrev pub Spaced : ℕ → List BlockNumber → Type 0
Spaced grace [] = Unit
Spaced grace (b ∷ []) = Unit
Spaced grace (b ∷ a ∷ r) = (a + grace ≤ b) × Spaced grace (a ∷ r)

-- The entry holds the last send, and no sum of a send and the grace period overflows.
abbrev LastSend : Config → Stored → List BlockNumber → Type 0
LastSend config entry [] = Unit
LastSend config entry (b ∷ r) = (entry ≡ at b) × (b + config.grace_period < u32_mod)

abbrev PcFits : Config → Pc → Type 0
PcFits config idle = Unit
PcFits config (holding seen block) = block + config.grace_period < u32_mod

record Inv (config : Config) (w : World) : Type 0 where
  spaced : Spaced config.grace_period w.sends
  last : LastSend config w.entry w.sends
  fits : (i : ℕ) → PcFits config (w.pc i)

update-PcFits :
    (config : Config) (f : ℕ → Pc) (i : ℕ) (p : Pc)
    → ((j : ℕ) → PcFits config (f j))
    → PcFits config p
    → (j : ℕ) → PcFits config (update f i p j)
update-PcFits config f i p h hp j = elim (Bool-cases (i == j)) [
  | inl same ↦ rw same hp
  | inr other ↦ rw other (h j)
]

-- A write after the last send comes at least a grace period later.
Spaced-send :
    (config : Config) (entry : Stored) (sends : List BlockNumber) (block n : BlockNumber)
    → Spaced config.grace_period sends
    → LastSend config entry sends
    → next_send config block entry ≡ some n
    → Spaced config.grace_period (n ∷ sends)
unfolding next_send
Spaced-send config entry [] block n sp last h = tt
Spaced-send config (at b) (a ∷ r) block n sp last h = (ground arith, sp)
Spaced-send config absent (a ∷ r) block n sp last h = absurd (cc (last.0))
Spaced-send config undecodable (a ∷ r) block n sp last h = absurd (cc (last.0))

next_send-eq :
    (config : Config) (block n : BlockNumber) (seen : Stored)
    → next_send config block seen ≡ some n
    → n ≡ block
unfolding next_send
next_send-eq config block n (at b) h = ground arith
next_send-eq config block n absent h = ground arith
next_send-eq config block n undecodable h = ground arith

Step-Inv : {config : Config} {w v : World} → Step config w v → Inv config w → Inv config v
Step-Inv {config} {w} (read i block p small) inv = record {
  spaced = inv.spaced;
  last = inv.last;
  fits = update-PcFits config w.pc i (holding w.entry block) inv.fits small;
}
Step-Inv {config} {w} (recently_sent i seen block p h) inv = record {
  spaced = inv.spaced;
  last = inv.last;
  fits = update-PcFits config w.pc i idle inv.fits tt;
}
Step-Inv {config} {w} (lost i seen block n p h ne) inv = record {
  spaced = inv.spaced;
  last = inv.last;
  fits = update-PcFits config w.pc i idle inv.fits tt;
}
Step-Inv {config} {w} (swap i seen block n p h same) inv = record {
  spaced = Spaced-send config w.entry w.sends block n inv.spaced inv.last (rw same h);
  last = let fits = inv.fits i in (refl, rw (next_send-eq config block n seen h) (rw p at fits));
  fits = update-PcFits config w.pc i idle inv.fits tt;
}

Reach-Inv : {config : Config} {entry : Stored} {w : World} → Reach config entry w → Inv config w
Reach-Inv start = record { spaced = tt; last = tt; fits = λ i. tt }
Reach-Inv (later r st) = Step-Inv st (Reach-Inv r)

-- However the workers of a node interleave, two sends in a row are at least a grace period apart.
-- (Block numbers stay so far below 2^32 that adding the grace period does not wrap.)
pub sends-Spaced :
    (config : Config) (entry : Stored) (w : World)
    → Reach config entry w
    → Spaced config.grace_period w.sends
sends-Spaced config entry w r = (Reach-Inv r).spaced
