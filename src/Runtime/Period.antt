-- ===== src/Runtime/Period.antt =====
-- The mortality period in `create_transaction` of runtime/src/lib.rs:
-- `BlockHashCount::get().checked_next_power_of_two().map(|c| c / 2).unwrap_or(2)`.
use cyborg_chain.Prelude.{
  leb, if◌then◌else◌, Bool-cases, ℕ, zero, suc, ◌*◌, ◌/◌, ◌^◌, ◌≤◌, ◌<◌, ◌≡◌, ap, inl, inr, false,
  Option, none, some, arith,
}
use native.Mathlib.Nat.{pow-suc}

-- The least power of two from `p` on that is at least `n`, after at most `fuel` doublings.
next_power_from : ℕ → ℕ → ℕ → Option ℕ
next_power_from zero p n = none
next_power_from (suc fuel) p n =
    let rest = next_power_from fuel (p * 2) n in if leb n p then some p else rest

-- `u32::checked_next_power_of_two`: the powers of two that are u32 are the 32 from 1 to 2^31.
unfoldable pub checked_next_power_of_two : ℕ → Option ℕ
unfolding next_power_from
checked_next_power_of_two n = next_power_from 32 1 n

unfoldable pub period : ℕ → ℕ
unfolding checked_next_power_of_two
period count = elim (checked_next_power_of_two count) [ none ↦ 2 | some c ↦ c / 2 ]

next_power_skip :
    (fuel p q n : ℕ) {v : Option ℕ}
    → leb n p ≡ false
    → q ≡ p * 2
    → next_power_from fuel q n ≡ v
    → next_power_from (suc fuel) p n ≡ v
unfolding next_power_from
next_power_skip fuel p q n short e h = ground (arith, ap (λ (t : ℕ). next_power_from fuel t n) e)

-- From `p = 2^k`, with enough doublings left, the search ends at a power `2^m` with
-- `n ≤ 2^m`, and `2^m < 2 * n` unless it ends at once.
next_power_from_finds :
    (fuel k n : ℕ)
    → n ≤ 2 ^ k * 2 ^ fuel
    → 2 ^ k < 2 * n
    → (m : ℕ) × (next_power_from (suc fuel) (2 ^ k) n ≡ some (2 ^ m))
      × (n ≤ 2 ^ m)
      × (2 ^ m < 2 * n)
unfolding next_power_from
next_power_from_finds zero k n reach low =
    let fits : n ≤ 2 ^ k = omega arith in (k, ground arith, fits, low)
next_power_from_finds (suc fuel) k n reach low = elim (Bool-cases (leb n (2 ^ k))) [
  | inl fits ↦ (k, rw fits, ground arith, low)
  | inr short ↦
      let step : 2 ^ suc k ≡ 2 ^ k * 2 = pow-suc 2 k in
      let small : 2 ^ k < n = ground arith in
      let grow = ap (λ (t : ℕ). t * 2 ^ fuel) step in
      let reach' : n ≤ 2 ^ suc k * 2 ^ fuel =
        omega (arith, grow, ap (λ (t : ℕ). 2 ^ k * t) (pow-suc 2 fuel)) in
      let (m, found, above, below) =
        next_power_from_finds fuel (suc k) n reach' (omega (arith, step)) in
      (m, next_power_skip (suc fuel) (2 ^ k) (2 ^ suc k) n short step found, above, below)
]

half_power : (m n : ℕ) → 2 ≤ n → n ≤ 2 ^ m → (j : ℕ) × (2 ^ m / 2 ≡ 2 ^ j) × (2 ^ m ≡ 2 * 2 ^ j)
half_power zero n h above = absurd (omega arith)
half_power (suc j) n h above = (j, omega (arith, pow-suc 2 j), omega (arith, pow-suc 2 j))

-- For any number of kept block hashes from 2 to 2^31, the period is the largest power of two that is
-- below that number.
pub period_largest :
    (count : ℕ)
    → 2 ≤ count
    → count ≤ 2 ^ 31
    → (j : ℕ) × (period count ≡ 2 ^ j) × (period count < count) × (count ≤ 2 * period count)
unfolding period
period_largest count low high =
    let (m, found, above, below) = next_power_from_finds 31 0 count (omega arith) (omega arith) in
    let (j, half, whole) = half_power m count low above in
    (j, ground arith, ground arith, ground arith)
