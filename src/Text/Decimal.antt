-- ===== src/Text/Decimal.antt =====
-- `to_string` of an unsigned integer, and `join` of texts.
use native.Mathlib.Nat.{pow-suc}
use cyborg_chain.Prelude.{
  ltb, if◌then◌else◌, u32_mod, Bytes, ℕ, zero, suc, ◌+◌, ◌-◌, ◌*◌, ◌/◌, ◌%◌, ◌^◌, ◌<◌, ◌≡◌, ap,
  List, [], ◌∷◌, ◌++◌, arith,
}

-- The decimal digits of `n`, most significant first, in front of `acc`; `fuel` is at least the
-- number of digits.
unfoldable pub to_string_from : ℕ → ℕ → Bytes → Bytes
to_string_from zero n acc = acc
to_string_from (suc fuel) n acc =
    let digit = 48 + n % 10 in
    let rest = to_string_from fuel (n / 10) (digit ∷ acc) in if ltb n 10 then digit ∷ acc else rest

-- Ten digits are enough for a u32.
unfoldable pub to_string : ℕ → Bytes
unfolding to_string_from
to_string n = to_string_from 10 n []

unfoldable pub join : Bytes → List Bytes → Bytes
join sep [] = []
join sep (x ∷ []) = x
join sep (x ∷ y ∷ r) = x ++ (sep ++ join sep (y ∷ r))

-- Reading decimal digits back.
unfoldable pub parse_from : ℕ → Bytes → ℕ
parse_from n [] = n
parse_from n (c ∷ cs) = parse_from (n * 10 + (c - 48)) cs

-- A number below the power of ten of the fuel is read back from its digits.
parse_from-to_string_from :
    (fuel n : ℕ) (acc : Bytes)
    → n < 10 ^ fuel
    → parse_from 0 (to_string_from fuel n acc) ≡ parse_from n acc
unfolding parse_from to_string_from
parse_from-to_string_from zero n acc h = ap (λ m. parse_from m acc) (omega arith)
parse_from-to_string_from (suc fuel) n acc h =
    let digit : ℕ = 48 + n % 10 in
    let low : n < 10 → 0 * 10 + (digit - 48) ≡ n = λ small. omega arith in
    let join : n / 10 * 10 + (digit - 48) ≡ n = omega arith in
    let fits : n / 10 < 10 ^ fuel = omega (arith, pow-suc 10 fuel) in
    let rest = parse_from-to_string_from fuel (n / 10) (digit ∷ acc) fits in
    ground (arith, low, join, rest)

-- The text of a u32 is read back as that number.
pub parse-to_string : (n : ℕ) → n < u32_mod → parse_from 0 (to_string n) ≡ n
unfolding to_string parse_from
parse-to_string n h = parse_from-to_string_from 10 n [] (omega arith)
