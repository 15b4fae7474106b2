-- ===== src/Text/Split.antt =====
-- A joined text, cut into its pieces again.
use cyborg_chain.Prelude.{
  ltb, ◌==◌, if◌then◌else◌, ==_iff, Bool-cases, u32_mod, Bytes, All, ℕ, zero, suc, ◌/◌, ◌≤◌, ◌<◌,
  ◌≡◌, refl, ap, ◌∙◌, ◌⊎◌, inl, inr, false, List, [], ◌∷◌, ◌++◌, map, arith,
}
use cyborg_chain.Text.Decimal.{to_string_from, to_string, join, parse_from, parse-to_string}

abbrev cons_head : ℕ → List Bytes → List Bytes
cons_head c [] = (c ∷ []) ∷ []
cons_head c (x ∷ xs) = (c ∷ x) ∷ xs

-- The pieces of a text between the separators `sep`.
unfoldable pub split : ℕ → Bytes → List Bytes
split sep [] = [] ∷ []
split sep (c ∷ cs) = let rest = split sep cs in if c == sep then [] ∷ rest else cons_head c rest

abbrev IsDigit : ℕ → Type 0
IsDigit c = (48 ≤ c) × (c ≤ 57)

to_string_from-IsDigit :
    (fuel n : ℕ) (acc : Bytes) → All IsDigit acc → All IsDigit (to_string_from fuel n acc)
unfolding to_string_from
to_string_from-IsDigit zero n acc h = h
to_string_from-IsDigit (suc fuel) n acc h = elim (Bool-cases (ltb n 10)) [
  | inl small ↦ rw small ((omega arith, omega arith), h)
  | inr large ↦ rw large (to_string_from-IsDigit fuel (n / 10) _ ((omega arith, omega arith), h))
]

to_string-IsDigit : (n : ℕ) → All IsDigit (to_string n)
unfolding to_string
to_string-IsDigit n = to_string_from-IsDigit 10 n [] tt

-- A separator that is no digit.
abbrev pub IsSeparator : ℕ → Type 0
IsSeparator sep = (sep < 48) ⊎ (57 < sep)

module _ (sep : ℕ) (is_sep : IsSeparator sep) where
  not_sep : (c : ℕ) → IsDigit c → (c == sep) ≡ false
  not_sep c h = ground arith

  split-digits : (x : Bytes) → All IsDigit x → split sep x ≡ x ∷ []
  unfolding split
  split-digits [] h = refl
  split-digits (c ∷ x) h = rw (not_sep c (h.0), split-digits x h.1) refl

  split-append : (x r : Bytes) → All IsDigit x → split sep (x ++ sep ∷ r) ≡ x ∷ split sep r
  unfolding split
  split-append [] r h = rw ((==_iff sep sep).1 refl) refl
  split-append (c ∷ x) r h = rw (not_sep c (h.0), split-append x r h.1) refl

  split-join :
      (n : ℕ) (ns : List ℕ)
      → split sep (join (sep ∷ []) (map to_string (n ∷ ns))) ≡ map to_string (n ∷ ns)
  unfolding join
  split-join n [] = split-digits (to_string n) (to_string-IsDigit n)
  split-join n (m ∷ ns) =
      split-append (to_string n) (join (sep ∷ []) (map to_string (m ∷ ns))) (to_string-IsDigit n)
      ∙ ap (λ xs. to_string n ∷ xs) (split-join m ns)

  parse-map : (ns : List ℕ) → All (λ n. n < u32_mod) ns → map (parse_from 0) (map to_string ns) ≡ ns
  parse-map [] h = refl
  parse-map (n ∷ ns) h = rw (parse-to_string n h.0, parse-map ns h.1) refl

  -- Numbers that are joined by the separator are read back.
  pub parse-split-join :
      (n : ℕ) (ns : List ℕ)
      → All (λ n. n < u32_mod) (n ∷ ns)
      → map (parse_from 0) (split sep (join (sep ∷ []) (map to_string (n ∷ ns)))) ≡ n ∷ ns
  parse-split-join n ns h =
      ap (λ xs. map (parse_from 0) xs) (split-join n ns) ∙ parse-map (n ∷ ns) h
