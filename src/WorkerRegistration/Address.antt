-- ===== src/WorkerRegistration/Address.antt =====
-- The text of a cluster's address in pallets/worker-registration/src/lib.rs.
use cyborg_chain.Prelude.{
  u32_mod, All, ℕ, ◌<◌, ◌≡◌, inl, inr, Option, none, some, List, ◌∷◌, map, arith,
}
use cyborg_chain.Text.{parse_from, split, parse-split-join}
use cyborg_chain.WorkerRegistration.{Ip, string_ip}

-- The separator and the numbers of the address that the text shows.
abbrev pub shown : Ip → Option (ℕ × List ℕ)
shown ip = elim ip.ipv4 [
  | some i ↦ some (46, i)
  | none ↦ elim ip.ipv6 [ some i ↦ some (58, i) | none ↦ none ]
]

read_back :
    (ipv4 ipv6 : Option (List ℕ)) (separator n : ℕ) (ns : List ℕ)
    → shown (record { ipv4 = ipv4; ipv6 = ipv6 }) ≡ some (separator, n ∷ ns)
    → All (λ n. n < u32_mod) (n ∷ ns)
    → map (parse_from 0) (split separator (string_ip (record { ipv4 = ipv4; ipv6 = ipv6 })))
      ≡ n ∷ ns
unfolding string_ip
read_back (some i) ipv6 separator n ns h fits =
    let same : 46 ≡ separator = cc in
    let all : i ≡ n ∷ ns = cc in
    rw (← same, all) (parse-split-join 46 (inl (omega arith)) n ns fits)
read_back none (some i) separator n ns h fits =
    let same : 58 ≡ separator = cc in
    let all : i ≡ n ∷ ns = cc in
    rw (← same, all) (parse-split-join 58 (inr (omega arith)) n ns fits)
read_back none none separator n ns h fits = absurd (cc)

-- The text of a cluster's address gives its numbers back: it is cut at its separator, a dot for an
-- IPv4 address and a colon for an IPv6 one, and each piece is read as a decimal number. (The
-- numbers are u32s, and there is at least one.)
pub string_ip_roundtrip :
    (ip : Ip) (separator n : ℕ) (ns : List ℕ)
    → shown ip ≡ some (separator, n ∷ ns)
    → All (λ n. n < u32_mod) (n ∷ ns)
    → map (parse_from 0) (split separator (string_ip ip)) ≡ n ∷ ns
string_ip_roundtrip ip separator n ns h fits = read_back ip.ipv4 ip.ipv6 separator n ns h fits
