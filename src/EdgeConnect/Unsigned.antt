-- ===== src/EdgeConnect/Unsigned.antt =====
-- Unsigned transactions of pallets/edge-connect/src/lib.rs: what the pool accepts, and what a block
-- does with it.
use cyborg_chain.Prelude.{
  Bytes, length, length-append, ok, err, bad_origin, ◌+◌, ◌≤◌, ◌<◌, ◌≡◌, refl, ◌↔◌, ◌⊎◌, inl, inr,
  Bool, true, false, none, [], ◌∷◌, ◌++◌, arith,
}
use cyborg_chain.Text.{is_utf8}
use cyborg_chain.Frame.{BlockNumber, Frame}
use cyborg_chain.EdgeConnect.{
  Config, Signature, ResponsePayload, Storage, create_connection, remove_connection, send_command,
  submit_response, submit_response_unsigned, submit_response_unsigned_with_signed_payload,
}
use cyborg_chain.EdgeConnect.Invariant.{HasText}
use cyborg_chain.EdgeConnect.Outcome.{answer_unsigned}
use cyborg_chain.EdgeConnect.Dispatch
use cyborg_chain.EdgeConnect.Dispatch.{
  Call, dispatch, validate_unsigned, TransactionValidity, valid, invalid,
}

-- Whether the pool accepts a call as an unsigned transaction.
abbrev pub accepted : TransactionValidity → Bool
accepted (valid t) = true
accepted (invalid e) = false

module _ (verify : ResponsePayload → Signature → Bool) where
  -- The pool accepts exactly the two unsigned submissions, the second only with a payload whose
  -- signature verifies.
  validate_unsigned_iff :
      (c : Call)
      → (accepted (validate_unsigned verify c) ≡ true) ↔ (
          ((n : BlockNumber) × (r : Bytes) × (c ≡ Call.submit_response_unsigned n r))
          ⊎ ((p : ResponsePayload) × (sig : Signature) × (c
                ≡ Call.submit_response_unsigned_with_signed_payload p sig)
              × (verify p sig ≡ true)))
  unfolding validate_unsigned
  validate_unsigned_iff (Call.submit_response_unsigned n r) = (λ h. inl (n, r, refl), λ h. refl)
  validate_unsigned_iff (Call.submit_response_unsigned_with_signed_payload p sig) =
      (λ h. inr (p, sig, refl, ground arith), λ h. ground arith)
  validate_unsigned_iff c = (λ h. ground arith, λ h. ground arith)

module _ (frame : Frame) (config : Config) (now : BlockNumber) (origin : frame.Origin)
    (no_signer : frame.ensure_none origin ≡ true) (s : Storage) where
  -- An unsigned submission of a text always succeeds, and sets the next block for unsigned
  -- submissions, whatever that was before.
  pub submit_response_unsigned-ok :
      (n : BlockNumber) (r : Bytes)
      → is_utf8 r ≡ true
      → submit_response_unsigned frame config now origin n r s
        ≡ (ok tt, answer_unsigned config now r s)
  unfolding submit_response_unsigned
  submit_response_unsigned-ok n r text = ground arith

  pub submit_payload-ok :
      (p : ResponsePayload) (sig : Signature)
      → is_utf8 p.response ≡ true
      → submit_response_unsigned_with_signed_payload frame config now origin p sig s
        ≡ (ok tt, answer_unsigned config now p.response s)
  unfolding submit_response_unsigned_with_signed_payload
  submit_payload-ok p sig text = ground arith

module _ (frame : Frame) (config : Config) (now : BlockNumber) (origin : frame.Origin)
    (no_signer : frame.ensure_none origin ≡ true) (s : Storage) where
  -- Two unsigned responses in one block are both stored, if they are within the bound and the list
  -- has room for two: `next_unsigned_at`, which the first call sets, is not tested by the second.
  pub unsigned_twice_in_one_block :
      (n m : BlockNumber) (r₁ r₂ : Bytes)
      → is_utf8 r₁ ≡ true
      → is_utf8 r₂ ≡ true
      → length r₁ ≤ config.max_string_length
      → length r₂ ≤ config.max_string_length
      → length s.responses + 1 < config.max_responses
      → (submit_response_unsigned frame config now origin m r₂
          (submit_response_unsigned frame config now origin n r₁ s).1).1.responses
        ≡ (s.responses ++ (none, r₁) ∷ []) ++ (none, r₂) ∷ []
  unsigned_twice_in_one_block n m r₁ r₂ t₁ t₂ l₁ l₂ room =
      let first = submit_response_unsigned-ok frame config now origin no_signer s n r₁ t₁ in
      let after = answer_unsigned config now r₁ s in
      let second = submit_response_unsigned-ok frame config now origin no_signer after m r₂ t₂ in
      ground (arith, first, second, length-append {0} s.responses ((none, r₁) ∷ []))

module _ (frame : Frame) (config : Config) (verify : ResponsePayload → Signature → Bool)
    (now : BlockNumber) (origin : frame.Origin) (no_signer : frame.ensure_none origin ≡ true)
    (s : Storage) where
  -- What the pool accepts, a block executes without error for an unsigned origin, whatever the
  -- storage: also before the block `next_unsigned_at`, and without a connection.
  pub accepted_succeeds :
      (c : Call)
      → HasText c
      → accepted (validate_unsigned verify c) ≡ true
      → (dispatch frame config now origin c s).0 ≡ ok tt
  unfolding validate_unsigned
  accepted_succeeds (Call.submit_response_unsigned n r) text h =
      unfold dispatch in
      rw (submit_response_unsigned-ok frame config now origin no_signer s n r text)
  accepted_succeeds (Call.submit_response_unsigned_with_signed_payload p sig) text h =
      unfold dispatch in rw (submit_payload-ok frame config now origin no_signer s p sig text)
  accepted_succeeds c text h = ground arith

  -- What the pool rejects as a call that may not be unsigned fails in a block for an origin that
  -- nobody has signed, and changes nothing.
  rejected_fails :
      (c : Call)
      → frame.ensure_signed origin ≡ none
      → validate_unsigned verify c ≡ invalid Dispatch.call
      → dispatch frame config now origin c s ≡ (err bad_origin, s)
  unfolding validate_unsigned dispatch create_connection remove_connection send_command
      submit_response
  rejected_fails (Call.submit_response_unsigned n r) nobody h = ground arith
  rejected_fails c nobody h = ground arith
