-- ===== src/EdgeConnect/Lock/Contention.antt =====
-- Lost writes to the entry "example_ocw::last_send" in pallets/edge-connect/src/lib.rs.
use cyborg_chain.Prelude.{length, ◌<◌, ◌≡◌, refl, ◌≢◌, ◌⊎◌, inl, inr, arith}
use cyborg_chain.EdgeConnect.{Config}
use cyborg_chain.EdgeConnect.Lock.{World, Step, read, recently_sent, swap, lost}

-- What the workers of a node come to from the state `w`.
data Later (config : Config) (w : World) : World → Type 0 where
  now : Later config w w
  after : {u v : World} → Later config w u → Step config u v → Later config w v

-- Either nobody has written the entry, or somebody has sent.
Progress : World → World → Type 0
Progress w v = (v.entry ≡ w.entry) × (v.sends ≡ w.sends) ⊎ (length w.sends < length v.sends)

Step-Progress :
    {config : Config} (w : World) {u v : World} → Step config u v → Progress w u → Progress w v
unfolding Progress
Step-Progress w (read i block p small) h = h
Step-Progress w (recently_sent i seen block p e) h = h
Step-Progress w (lost i seen block n p e other) h = h
Step-Progress w (swap i seen block n p e same) (inl (entry, sends)) = inr (rw sends (omega arith))
Step-Progress w (swap i seen block n p e same) (inr more) = inr (omega (arith, more))

Later-Progress : {config : Config} {w v : World} → Later config w v → Progress w v
unfolding Progress
Later-Progress now = inl (refl, refl)
Later-Progress {w = w} (after r st) = Step-Progress w st (Later-Progress r)

-- When the entry is no longer what it was in an earlier state, more has been sent since that state:
-- a worker that has read the entry there loses its write only if another one has sent.
lost_means_sent :
    (config : Config) (w v : World)
    → Later config w v
    → v.entry ≢ w.entry
    → length w.sends < length v.sends
unfolding Progress
lost_means_sent config w v r changed = elim (Later-Progress r) [
  | inl (same, sends) ↦ absurd (changed same)
  | inr more ↦ more
]
