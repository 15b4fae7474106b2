-- ===== src/EdgeConnect/Sending.antt =====
-- What the off-chain worker of pallets/edge-connect/src/lib.rs hands to the transaction pool.
use cyborg_chain.Prelude.{
  ltb, if◌then◌else◌, Bool-cases, Bytes, length, All, All-map, ℕ, ◌≤◌, ◌<◌, ◌≡◌, refl, ◌⊎◌, inl,
  inr, Bool, true, false, Option, none, some, List, [], arith,
}
use cyborg_chain.Text.{is_utf8}
use cyborg_chain.Frame.{BlockNumber}
use cyborg_chain.Http.{Waited, answered, Client, Fetch, fetched, error}
use cyborg_chain.EdgeConnect.{
  Config, Public, Signature, TransactionType, signed, unsigned_for_any, unsigned_for_all, raw,
  no_transaction, Storage,
}
use cyborg_chain.EdgeConnect.Invariant.{HasText}
use cyborg_chain.EdgeConnect.Choose.{Stored, Mutated, choose_transaction_type}
use cyborg_chain.EdgeConnect.Unsigned.{accepted}
use cyborg_chain.EdgeConnect.Offchain.{
  response_url, fetch_response, Signer, SendError, no_local_accounts, failed_to_fetch_response,
  too_early, no_accounts_available, Sent, nothing_sent, with_fetched, payload, signed_payload_call,
  any_sent, fetch_response_and_send_signed, fetch_response_and_send_raw_unsigned,
  fetch_response_and_send_unsigned_for_any_account,
  fetch_response_and_send_unsigned_for_all_accounts, send, offchain_worker,
}
use cyborg_chain.EdgeConnect.Dispatch.{Call, validate_unsigned}

-- A response that is fetched is the body of an answer with code 200 to a request for the local
-- server's URL within the deadline; it is well-formed UTF-8, and not empty.
fetch_response_fetched :
    (client : Client) (response : Bytes)
    → fetch_response client ≡ fetched response
    → (request : ℕ → Waited) × (client.get response_url (client.deadline 3000) ≡ some request)
      × (request (client.deadline 3000) ≡ answered (record { code = 200; body = response }))
      × (is_utf8 response ≡ true)
      × (0 < length response)
unfolding fetch_response
fetch_response_fetched client response h = ground arith

-- A call that the pool takes as unsigned, with a text in it.
abbrev pub IsSendable : Signer → Call → Type 0
IsSendable signer c = (accepted (validate_unsigned signer.verify c) ≡ true) × HasText c

abbrev pub IsSignable : Call → Type 0
IsSignable (Call.submit_response response) = is_utf8 response ≡ true
IsSignable _ = ⊥

-- What a run may hand to the pool for a block.
pub record IsProper (signer : Signer) (next_unsigned_at block_number : BlockNumber) (r : Sent)
    : Type 0 where
  pub unsigned_calls : All (IsSendable signer) r.unsigned_calls
  pub signed_calls : All IsSignable r.signed_calls
  pub one_way : (r.signed_calls ≡ []) ⊎ (r.unsigned_calls ≡ [])
  pub not_early : (r.unsigned_calls ≡ []) ⊎ (next_unsigned_at ≤ block_number)

module _ (signer : Signer) (next_unsigned_at block_number : BlockNumber) where
  nothing_sent-IsProper :
      (e : Option SendError) → IsProper signer next_unsigned_at block_number (nothing_sent e)
  nothing_sent-IsProper e = record {
    unsigned_calls = tt;
    signed_calls = tt;
    one_way = inl refl;
    not_early = inl refl;
  }

  unsigned-IsProper :
      (calls : List Call) (e : Option SendError)
      → All (IsSendable signer) calls
      → next_unsigned_at ≤ block_number
      → IsProper signer next_unsigned_at block_number
          (record { signed_calls = []; unsigned_calls = calls; result = e })
  unsigned-IsProper calls e h late = record {
    unsigned_calls = h;
    signed_calls = tt;
    one_way = inl refl;
    not_early = inr late;
  }

  with_fetched-IsProper :
      (client : Client) (f : Bytes → Sent)
      → ((response : Bytes)
          → is_utf8 response ≡ true
          → IsProper signer next_unsigned_at block_number (f response))
      → IsProper signer next_unsigned_at block_number (with_fetched client f)
  unfolding with_fetched
  with_fetched-IsProper client f h = go (fetch_response client) refl
    where
      go :
          (r : Fetch Bytes)
          → fetch_response client ≡ r
          → IsProper signer next_unsigned_at block_number (with_fetched client f)
      go (fetched response) e =
          let (_, _, _, text, _) = fetch_response_fetched client response e in
          rw (e, with_fetched) (h response text)
      go (error e') e = rw (e, with_fetched) (nothing_sent-IsProper (some failed_to_fetch_response))

  branch-IsProper :
      (b : Bool) (x y : Sent)
      → IsProper signer next_unsigned_at block_number x
      → IsProper signer next_unsigned_at block_number y
      → IsProper signer next_unsigned_at block_number (if b then x else y)
  branch-IsProper true x y hx hy = hx
  branch-IsProper false x y hx hy = hy

  -- The guard that all three unsigned helpers begin with.
  guarded-IsProper :
      (r : Sent)
      → (next_unsigned_at ≤ block_number → IsProper signer next_unsigned_at block_number r)
      → IsProper signer next_unsigned_at block_number
          (if ltb block_number next_unsigned_at then nothing_sent (some too_early) else r)
  guarded-IsProper r h = elim (Bool-cases (ltb block_number next_unsigned_at)) [
    | inl early ↦ rw early (nothing_sent-IsProper (some too_early))
    | inr late ↦ rw late (h (ground arith))
  ]

  signed_payload_call-IsSendable :
      (response : Bytes) (t : Public × Signature × Bool)
      → is_utf8 response ≡ true
      → signer.verify (payload block_number response t.0) t.1 ≡ true
      → IsSendable signer (signed_payload_call block_number response t)
  unfolding signed_payload_call validate_unsigned
  signed_payload_call-IsSendable response t text verifies = (ground arith, text)

module _ (client : Client) (signer : Signer) (next_unsigned_at block_number : BlockNumber) where
  signed_helper-IsProper :
      IsProper signer next_unsigned_at block_number (fetch_response_and_send_signed client signer)
  unfolding fetch_response_and_send_signed
  signed_helper-IsProper =
      branch-IsProper signer next_unsigned_at block_number signer.can_sign _ _
        (with_fetched-IsProper signer next_unsigned_at block_number client _ (λ response text.
          record {
            unsigned_calls = tt;
            signed_calls =
                let f : Public → Call = λ account. Call.submit_response response in
                All-map (λ t. t.1 ≡ f t.0) IsSignable (λ t. t.1) (λ t e. rw e text)
                  (signer.send_signed f) (signer.send_signed_calls f);
            one_way = inr refl;
            not_early = inl refl;
          }))
        (nothing_sent-IsProper signer next_unsigned_at block_number (some no_local_accounts))

  raw_helper-IsProper :
      IsProper signer next_unsigned_at block_number
        (fetch_response_and_send_raw_unsigned client signer next_unsigned_at block_number)
  unfolding fetch_response_and_send_raw_unsigned validate_unsigned
  raw_helper-IsProper = guarded-IsProper signer next_unsigned_at block_number _ (λ late.
      with_fetched-IsProper signer next_unsigned_at block_number client _ (λ response text.
        unsigned-IsProper signer next_unsigned_at block_number _ _ ((refl, text), tt) late))

  any_sent-IsProper :
      (response : Bytes) (r : Option (Public × Signature × Bool))
      → is_utf8 response ≡ true
      → ((t : Public × Signature × Bool)
          → r ≡ some t
          → signer.verify (payload block_number response t.0) t.1 ≡ true)
      → next_unsigned_at ≤ block_number
      → IsProper signer next_unsigned_at block_number (any_sent block_number response r)
  unfolding any_sent
  any_sent-IsProper response none text verifies late =
      nothing_sent-IsProper signer next_unsigned_at block_number (some no_accounts_available)
  any_sent-IsProper response (some t) text verifies late =
      unsigned-IsProper signer next_unsigned_at block_number _ _
        (
          signed_payload_call-IsSendable signer next_unsigned_at block_number response t text
              (verifies t refl),
          tt,
        )
        late

  any_helper-IsProper :
      IsProper signer next_unsigned_at block_number (
        fetch_response_and_send_unsigned_for_any_account client signer next_unsigned_at
          block_number)
  unfolding fetch_response_and_send_unsigned_for_any_account
  any_helper-IsProper = guarded-IsProper signer next_unsigned_at block_number _ (λ late.
      with_fetched-IsProper signer next_unsigned_at block_number client _ (λ response text.
        any_sent-IsProper response _ text
          (signer.send_unsigned_any_verifies (payload block_number response)
            (λ p sig. Call.submit_response_unsigned_with_signed_payload p sig))
          late))

  all_helper-IsProper : IsProper signer next_unsigned_at block_number (
      fetch_response_and_send_unsigned_for_all_accounts client signer next_unsigned_at block_number)
  unfolding fetch_response_and_send_unsigned_for_all_accounts
  all_helper-IsProper = guarded-IsProper signer next_unsigned_at block_number _ (λ late.
      with_fetched-IsProper signer next_unsigned_at block_number client _ (λ response text.
        unsigned-IsProper signer next_unsigned_at block_number _ _
          (All-map (λ t. signer.verify (payload block_number response t.0) t.1 ≡ true)
            (IsSendable signer) (signed_payload_call block_number response)
            (λ t.
              signed_payload_call-IsSendable signer next_unsigned_at block_number response t text)
            _
            (signer.send_unsigned_all_verifies (payload block_number response)
              (λ p sig. Call.submit_response_unsigned_with_signed_payload p sig)))
          late))

  send-IsProper :
      (t : TransactionType)
      → IsProper signer next_unsigned_at block_number
          (send client signer t next_unsigned_at block_number)
  unfolding send
  send-IsProper signed = signed_helper-IsProper
  send-IsProper unsigned_for_any = any_helper-IsProper
  send-IsProper unsigned_for_all = all_helper-IsProper
  send-IsProper raw = raw_helper-IsProper
  send-IsProper no_transaction = nothing_sent-IsProper signer next_unsigned_at block_number none

-- A run of the off-chain worker hands over signed or unsigned calls, never both. Every unsigned
-- call is one that the pool's validation accepts, with a text in it, and is handed over only from
-- the block `next_unsigned_at` of the storage on. Every signed call submits a response, a text.
pub offchain_worker-IsProper :
    (config : Config) (client : Client) (signer : Signer)
    (mutate : (Stored → Option BlockNumber) → Mutated) (block_number : BlockNumber) (s : Storage)
    → IsProper signer s.next_unsigned_at block_number
        (offchain_worker config client signer mutate block_number s)
unfolding offchain_worker
offchain_worker-IsProper config client signer mutate block_number s =
    branch-IsProper signer s.next_unsigned_at block_number signer.can_sign _ _
      (send-IsProper client signer s.next_unsigned_at block_number
        (choose_transaction_type config mutate block_number))
      (nothing_sent-IsProper signer s.next_unsigned_at block_number none)
