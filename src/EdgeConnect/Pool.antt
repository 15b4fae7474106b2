-- ===== src/EdgeConnect/Pool.antt =====
-- How many unsigned transactions of pallets/edge-connect/src/lib.rs the pool holds at a time.
use cyborg_chain.Prelude.{
  Bool-cases, Bytes, ascii, length, All, Distinct, ◌≤◌, ◌≡◌, refl, ◌≢◌, ◌⊎◌, inl, inr, Bool, true,
  List, [], ◌∷◌, map, arith,
}
use cyborg_chain.EdgeConnect.{Signature, ResponsePayload}
use cyborg_chain.EdgeConnect.Dispatch.{
  Call, TransactionValidity, valid, invalid, valid_tx, validate_unsigned,
}
use cyborg_chain.EdgeConnect.Unsigned.{accepted}

-- `encode` is that of a tag's prefix and the tag, `(prefix, tag).encode()`.
module _ (encode : Bytes → Bytes → Bytes) (verify : ResponsePayload → Signature → Bool) where
  -- The tag that a transaction provides: two transactions that provide the same one exclude each
  -- other, in the pool and in a block.
  abbrev pub tag : TransactionValidity → Bytes
  tag (valid t) = encode t.tag_prefix t.provides
  tag (invalid e) = []

  abbrev number_tag : Bytes
  number_tag = encode (ascii "ocw-edge:") (ascii "submit_number_unsigned")

  abbrev payload_tag : Bytes
  payload_tag = encode (ascii "ocw-edge:") (ascii "submit_number_unsigned_with_signed_payload")

  two_tags :
      (c : Call)
      → accepted (validate_unsigned verify c) ≡ true
      → (tag (validate_unsigned verify c) ≡ number_tag)
        ⊎ (tag (validate_unsigned verify c) ≡ payload_tag)
  unfolding validate_unsigned valid_tx
  two_tags (Call.submit_response_unsigned n r) h = inl refl
  two_tags (Call.submit_response_unsigned_with_signed_payload p sig) h =
      elim (Bool-cases (verify p sig)) [
        | inl good ↦ inr (rw good refl)
        | inr bad ↦ absurd (cc (rw bad at h))
      ]
  two_tags c h = absurd (cc)

  -- Among three tags two are the same.
  three_tags :
      {a b : Bytes} (x y z : Bytes)
      → (x ≡ a) ⊎ (x ≡ b)
      → (y ≡ a) ⊎ (y ≡ b)
      → (z ≡ a) ⊎ (z ≡ b)
      → x ≢ y
      → x ≢ z
      → y ≢ z
      → ⊥
  three_tags x y z (inl p) (inl q) r xy xz yz = xy (cc)
  three_tags x y z (inr p) (inr q) r xy xz yz = xy (cc)
  three_tags x y z (inl p) (inr q) (inl r) xy xz yz = xz (cc)
  three_tags x y z (inl p) (inr q) (inr r) xy xz yz = yz (cc)
  three_tags x y z (inr p) (inl q) (inl r) xy xz yz = yz (cc)
  three_tags x y z (inr p) (inl q) (inr r) xy xz yz = xz (cc)

  -- Unsigned calls that the pool accepts, and no two of which provide the same tag, are at most
  -- two.
  pub accepted_at_most_two :
      (calls : List Call)
      → All (λ c. accepted (validate_unsigned verify c) ≡ true) calls
      → Distinct (map (λ c. tag (validate_unsigned verify c)) calls)
      → length calls ≤ 2
  accepted_at_most_two [] h d = omega arith
  accepted_at_most_two (a ∷ []) h d = omega arith
  accepted_at_most_two (a ∷ b ∷ []) h d = omega arith
  accepted_at_most_two (a ∷ b ∷ c ∷ rest) (ha, (hb, (hc, h))) ((ab, (ac, r)), ((bc, r'), d)) =
      absurd (three_tags _ _ _ (two_tags a ha) (two_tags b hb) (two_tags c hc) ab ac bc)
