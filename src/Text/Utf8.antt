-- ===== src/Text/Utf8.antt =====
-- `str::from_utf8`: whether bytes are well-formed UTF-8. The states are those of the table in
-- RFC 3629: how many continuation bytes are due, and which lead bytes narrow the next one.
use cyborg_chain.Prelude.{
  ℕ, ◌<◌, ◌≡◌, refl, Bool, true, false, ◌&&◌, Option, none, some, [], ◌∷◌, Bytes, arith, ltb, leb,
  ◌==◌, if◌then◌else◌, All,
}

pub data Utf8State : Type 0 where
  start one_more two_more three_more after_e0 after_ed after_f0 after_f4 : Utf8State

abbrev between : ℕ → ℕ → ℕ → Bool
between lo hi c = leb lo c && leb c hi

abbrev next_if : Bool → Utf8State → Option Utf8State
next_if true s = some s
next_if false s = none

lead_byte : ℕ → Option Utf8State
lead_byte c =
    if ltb c 0x80
    then some start
    else if between 0xc2 0xdf c
    then some one_more
    else if c == 0xe0
    then some after_e0
    else if c == 0xed
    then some after_ed
    else if between 0xe1 0xef c
    then some two_more
    else if c == 0xf0
    then some after_f0
    else if c == 0xf4
    then some after_f4
    else next_if (between 0xf1 0xf3 c) three_more

utf8_step : Utf8State → ℕ → Option Utf8State
unfolding lead_byte
utf8_step start c = lead_byte c
utf8_step one_more c = next_if (between 0x80 0xbf c) start
utf8_step two_more c = next_if (between 0x80 0xbf c) one_more
utf8_step three_more c = next_if (between 0x80 0xbf c) two_more
utf8_step after_e0 c = next_if (between 0xa0 0xbf c) one_more
utf8_step after_ed c = next_if (between 0x80 0x9f c) one_more
utf8_step after_f0 c = next_if (between 0x90 0xbf c) two_more
utf8_step after_f4 c = next_if (between 0x80 0x8f c) two_more

abbrev is_start : Utf8State → Bool
is_start start = true
is_start _ = false

utf8_run : Utf8State → Bytes → Bool
unfolding utf8_step
utf8_run s [] = is_start s
utf8_run s (c ∷ cs) = elim (utf8_step s c) [ none ↦ false | some t ↦ utf8_run t cs ]

unfoldable pub is_utf8 : Bytes → Bool
unfolding utf8_run
is_utf8 = utf8_run start

-- ASCII bytes are well-formed.
pub ascii-is_utf8 : (cs : Bytes) → All (λ c. c < 0x80) cs → is_utf8 cs ≡ true
unfolding is_utf8
ascii-is_utf8 [] h = refl
ascii-is_utf8 (c ∷ cs) h = ground (arith, ascii-is_utf8 cs h.1)
