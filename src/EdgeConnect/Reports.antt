-- ===== src/EdgeConnect/Reports.antt =====
-- Which call of pallets/edge-connect/src/lib.rs an event reports, and of whom.
use cyborg_chain.Prelude.{
  ltb, leb, Bool-cases, Bytes, length, All, ℕ, ◌≡◌, refl, sym, ap, ◌∙◌, ◌⊎◌, inl, inr, Bool, true,
  false, ◌&&◌, Option, none, some, List, [], ◌∷◌, ◌++◌, arith,
}
use mathlib.Core.List.{append-nil, append_assoc}
use cyborg_chain.Text.{is_utf8}
use cyborg_chain.Frame.{AccountId, BlockNumber, Frame}
use cyborg_chain.EdgeConnect.{
  Config, Signature, ResponsePayload, Event, connection_created, connection_removed, command_sent,
  new_response, Error, Storage, create_connection, remove_connection, send_command, submit_response,
  submit_response_unsigned, submit_response_unsigned_with_signed_payload,
}
use cyborg_chain.EdgeConnect.Invariant.{HasText, add_response_lem}
use cyborg_chain.EdgeConnect.Outcome.{answer, command_error, send_command-ok, send_command-err}
use cyborg_chain.EdgeConnect.Unsigned.{submit_response_unsigned-ok, submit_payload-ok}
use cyborg_chain.EdgeConnect.Dispatch.{Call, Extrinsic, dispatch, run}

-- An event says what a call with an origin asks for, and names its signer. A removal has the number
-- of the call, which need not be that of the connection.
abbrev pub Says : (frame : Frame) → frame.Origin → Call → Event → Type 0
Says frame origin call (connection_created connection who) =
    (call ≡ Call.create_connection connection) × (frame.ensure_signed origin ≡ some who)
Says frame origin call (connection_removed connection who) =
    (call ≡ Call.remove_connection connection) × (frame.ensure_signed origin ≡ some who)
Says frame origin call (command_sent command who) =
    (call ≡ Call.send_command command) × (frame.ensure_signed origin ≡ some who)
Says frame origin call (new_response response (some who)) =
    (call ≡ Call.submit_response response) × (frame.ensure_signed origin ≡ some who)
Says frame origin call (new_response response none) =
    ((block_number : BlockNumber) × (call ≡ Call.submit_response_unsigned block_number response)
      × (frame.ensure_none origin ≡ true))
    ⊎ ((p : ResponsePayload) × (signature : Signature) × (call
          ≡ Call.submit_response_unsigned_with_signed_payload p signature)
        × (p.response ≡ response)
        × (frame.ensure_none origin ≡ true))

-- The events of a sequence of extrinsics, in order: each extrinsic has none, or one that says what
-- it asks for.
pub data Caused (frame : Frame) : List (Extrinsic frame) → List Event → Type 0 where
  nothing : Caused frame [] []
  silent :
      (x : Extrinsic frame) {xs : List (Extrinsic frame)} {es : List Event}
      → Caused frame xs es
      → Caused frame (x ∷ xs) es
  reported :
      (x : Extrinsic frame) (e : Event) {xs : List (Extrinsic frame)} {es : List Event}
      → Says frame x.origin x.call e
      → Caused frame xs es
      → Caused frame (x ∷ xs) (e ∷ es)

module _ (frame : Frame) (config : Config) (now : BlockNumber) (origin : frame.Origin)
    (s : Storage) where
  -- A call has deposited nothing, or one event that says what it asks for.
  abbrev Reports : Call → List Event → Type 0
  Reports call after =
      (after ≡ s.events) ⊎ ((e : Event) × Says frame origin call e × (after ≡ s.events ++ e ∷ []))

  answer-Reports :
      (call : Call) (maybe_who : Option AccountId) (response : Bytes)
      → Says frame origin call (new_response response maybe_who)
      → Reports call (answer config maybe_who response s).events
  answer-Reports call maybe_who response says =
      let fits =
        leb (length response) config.max_string_length
        && ltb (length s.responses) config.max_responses in
      elim (Bool-cases fits) [
        | inl yes_fits ↦ inr (new_response response maybe_who, says, rw yes_fits refl)
        | inr too_long ↦ inl (rw too_long refl)
      ]

  create-Reports :
      (n : ℕ) (signer : Option AccountId) (existing : Option ℕ)
      → frame.ensure_signed origin ≡ signer
      → s.connection ≡ existing
      → Reports (Call.create_connection n) (create_connection frame origin n s).1.events
  unfolding create_connection
  create-Reports n none existing by_who h = inl (ground arith)
  create-Reports n (some who) (some m) by_who h = inl (ground arith)
  create-Reports n (some who) none by_who h =
      inr (connection_created n who, (refl, by_who), ground arith)

  remove-Reports :
      (n : ℕ) (signer : Option AccountId) (existing : Option ℕ)
      → frame.ensure_signed origin ≡ signer
      → s.connection ≡ existing
      → Reports (Call.remove_connection n) (remove_connection frame origin n s).1.events
  unfolding remove_connection
  remove-Reports n none existing by_who h = inl (ground arith)
  remove-Reports n (some who) none by_who h = inl (ground arith)
  remove-Reports n (some who) (some m) by_who h =
      inr (connection_removed n who, (refl, by_who), ground arith)

  command-Reports :
      (command : Bytes) (signer : Option AccountId) (check : Option Error)
      → frame.ensure_signed origin ≡ signer
      → command_error config command s ≡ check
      → Reports (Call.send_command command) (send_command frame config origin command s).1.events
  command-Reports command none check by_who h = inl (unfold send_command in ground arith)
  command-Reports command (some who) none by_who h = inr (
    command_sent command who,
    (refl, by_who),
    rw (send_command-ok frame config now origin s command who by_who h) refl,
  )
  command-Reports command (some who) (some e) by_who h =
      inl (rw (send_command-err frame config now origin s command who e by_who h) refl)

  response-Reports :
      (response : Bytes) (signer : Option AccountId) (existing : Option ℕ)
      → frame.ensure_signed origin ≡ signer
      → s.connection ≡ existing
      → is_utf8 response ≡ true
      → Reports
          (Call.submit_response response)
          (submit_response frame config origin response s).1.events
  unfolding submit_response
  response-Reports response none existing by_who h text = inl (ground arith)
  response-Reports response (some who) none by_who h text = inl (ground arith)
  response-Reports response (some who) (some m) by_who h text =
      rw (by_who, h, add_response_lem config (some who) response s text)
        (answer-Reports (Call.submit_response response) (some who) response (refl, by_who))

  unsigned-Reports :
      (block_number : BlockNumber) (response : Bytes) (no_signer : Bool)
      → frame.ensure_none origin ≡ no_signer
      → is_utf8 response ≡ true
      → Reports
          (Call.submit_response_unsigned block_number response)
          (submit_response_unsigned frame config now origin block_number response s).1.events
  unsigned-Reports block_number response false no_signer text =
      inl (unfold submit_response_unsigned in ground arith)
  unsigned-Reports block_number response true no_signer text =
      rw
        (submit_response_unsigned-ok frame config now origin no_signer s block_number response text)
        (answer-Reports (Call.submit_response_unsigned block_number response) none response
          (inl (block_number, refl, no_signer)))

  payload-Reports :
      (p : ResponsePayload) (signature : Signature) (no_signer : Bool)
      → frame.ensure_none origin ≡ no_signer
      → is_utf8 p.response ≡ true
      → Reports
          (Call.submit_response_unsigned_with_signed_payload p signature)
          (submit_response_unsigned_with_signed_payload frame config now origin p signature
            s).1.events
  payload-Reports p signature false no_signer text =
      inl (unfold submit_response_unsigned_with_signed_payload in ground arith)
  payload-Reports p signature true no_signer text =
      rw (submit_payload-ok frame config now origin no_signer s p signature text) (
        answer-Reports (Call.submit_response_unsigned_with_signed_payload p signature) none
          p.response (inr (p, signature, refl, refl, no_signer)))

  dispatch-Reports :
      (call : Call) → HasText call → Reports call (dispatch frame config now origin call s).1.events
  unfolding dispatch
  dispatch-Reports (Call.create_connection n) text =
      create-Reports n (frame.ensure_signed origin) s.connection refl refl
  dispatch-Reports (Call.send_command command) text =
      command-Reports command (frame.ensure_signed origin) (command_error config command s) refl
        refl
  dispatch-Reports (Call.submit_response response) text =
      response-Reports response (frame.ensure_signed origin) s.connection refl refl text
  dispatch-Reports (Call.submit_response_unsigned block_number response) text =
      unsigned-Reports block_number response (frame.ensure_none origin) refl text
  dispatch-Reports (Call.submit_response_unsigned_with_signed_payload p signature) text =
      payload-Reports p signature (frame.ensure_none origin) refl text
  dispatch-Reports (Call.remove_connection n) text =
      remove-Reports n (frame.ensure_signed origin) s.connection refl refl

module _ (frame : Frame) (config : Config) where
  -- What any extrinsics append to the events is caused by them.
  pub run-Caused :
      (xs : List (Extrinsic frame)) (s : Storage)
      → All (λ x. HasText x.call) xs
      → (news : List Event) × ((run frame config xs s).events ≡ s.events ++ news)
        × Caused frame xs news
  unfolding run
  run-Caused [] s texts = ([], sym (append-nil s.events), nothing)
  run-Caused (x ∷ xs) s texts =
      let t = (dispatch frame config x.block x.origin x.call s).1 in
      let (es, appended, caused) = run-Caused xs t texts.1 in
      elim (dispatch-Reports frame config x.block x.origin s x.call texts.0) [
        | inl same ↦ (es, rw same at appended, silent x caused)
        | inr (e, says, one) ↦ (
          e ∷ es,
          appended ∙ ap (λ (l : List Event). l ++ es) one ∙ append_assoc s.events (e ∷ []) es,
          reported x e says caused,
        )
      ]
