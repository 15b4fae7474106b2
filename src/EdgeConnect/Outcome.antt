-- ===== src/EdgeConnect/Outcome.antt =====
-- What a dispatchable of pallets/edge-connect/src/lib.rs may do: the error of each call by the
-- first check that fails, and its effect where none does.
use cyborg_chain.EdgeConnect.Dispatch.{Call, dispatch}
use cyborg_chain.Prelude.{
  ltb, leb, if◌then◌else◌, is_some, u32_mod, Bytes, ascii, bytes_eq, length, Result, ok, err,
  DispatchError, bad_origin, module_error, ℕ, ◌+◌, ◌%◌, ◌≡◌, refl, Bool, true, false, ◌&&◌, Option,
  none, some, [], ◌∷◌, ◌++◌, arith,
}
use cyborg_chain.Text.{is_utf8}
use cyborg_chain.Frame.{AccountId, BlockNumber, Frame}
use cyborg_chain.EdgeConnect.{
  Config, Signature, ResponsePayload, connection_created, connection_removed, command_sent, Error,
  connection_already_exists, connection_does_not_exist, invalid_command, command_too_long,
  too_many_commands, Storage, create_connection, remove_connection, send_command, submit_response,
  submit_response_unsigned, submit_response_unsigned_with_signed_payload,
}
use cyborg_chain.EdgeConnect.Invariant.{HasText, with_response}

-- The storage after `add_response` of a text.
abbrev pub answer : Config → Option AccountId → Bytes → Storage → Storage
answer config maybe_who response s =
    if leb (length response) config.max_string_length
      && ltb (length s.responses) config.max_responses
    then with_response maybe_who response s
    else s

-- The same for an unsigned call, in the block `now`.
abbrev pub answer_unsigned : Config → BlockNumber → Bytes → Storage → Storage
answer_unsigned config now response s = record (answer config none response s) {
  next_unsigned_at = (now + config.unsigned_interval) % u32_mod;
}

abbrev pub with_connection : ℕ → AccountId → Storage → Storage
with_connection n who s = record s {
  connection = some n;
  events = s.events ++ connection_created n who ∷ [];
}

abbrev pub without_connection : ℕ → AccountId → Storage → Storage
without_connection n who s = record s {
  connection = none;
  events = s.events ++ connection_removed n who ∷ [];
}

abbrev pub with_command : Bytes → AccountId → Storage → Storage
with_command command who s = record s {
  commands = s.commands ++ (some who, command) ∷ [];
  events = s.events ++ command_sent command who ∷ [];
}

abbrev pub command_error : Config → Bytes → Storage → Option Error
command_error config command s =
    if is_some s.connection
    then if bytes_eq command (ascii "ping")
      then if leb (length command) config.max_string_length
        then if ltb (length s.commands) config.max_command then none else some too_many_commands
        else some command_too_long
      else some invalid_command
    else some connection_does_not_exist

-- A call fails and changes nothing, or it has one of five effects and succeeds.
pub data Outcome (config : Config) (now : BlockNumber) (s : Storage)
    (r : Result (DispatchError Error) (Unit {0}) × Storage) : Type 0 where
  failed : (e : DispatchError Error) → r ≡ (err e, s) → Outcome config now s r
  connected :
      (n : ℕ) (who : AccountId)
      → s.connection ≡ none
      → r ≡ (ok tt, with_connection n who s)
      → Outcome config now s r
  disconnected :
      (n : ℕ) (who : AccountId)
      → is_some s.connection ≡ true
      → r ≡ (ok tt, without_connection n who s)
      → Outcome config now s r
  commanded :
      (command : Bytes) (who : AccountId)
      → command_error config command s ≡ none
      → r ≡ (ok tt, with_command command who s)
      → Outcome config now s r
  answered :
      (response : Bytes) (who : AccountId)
      → is_utf8 response ≡ true
      → is_some s.connection ≡ true
      → r ≡ (ok tt, answer config (some who) response s)
      → Outcome config now s r
  answered_unsigned :
      (response : Bytes)
      → is_utf8 response ≡ true
      → r ≡ (ok tt, answer_unsigned config now response s)
      → Outcome config now s r

module _ (frame : Frame) (config : Config) (now : BlockNumber) (origin : frame.Origin)
    (s : Storage) where
  pub send_command-ok :
      (command : Bytes) (who : AccountId)
      → frame.ensure_signed origin ≡ some who
      → command_error config command s ≡ none
      → send_command frame config origin command s ≡ (ok tt, with_command command who s)
  unfolding send_command
  send_command-ok command who by_who h = ground arith

  pub send_command-err :
      (command : Bytes) (who : AccountId) (e : Error)
      → frame.ensure_signed origin ≡ some who
      → command_error config command s ≡ some e
      → send_command frame config origin command s ≡ (err (module_error e), s)
  unfolding send_command
  send_command-err command who e by_who h = ground arith

  create-Outcome :
      (n : ℕ) (signer : Option AccountId) (existing : Option ℕ)
      → frame.ensure_signed origin ≡ signer
      → s.connection ≡ existing
      → Outcome config now s (create_connection frame origin n s)
  unfolding create_connection
  create-Outcome n none existing by_who h = failed bad_origin (ground arith)
  create-Outcome n (some who) none by_who h = connected n who h (ground arith)
  create-Outcome n (some who) (some m) by_who h =
      failed (module_error connection_already_exists) (ground arith)

  remove-Outcome :
      (n : ℕ) (signer : Option AccountId) (existing : Option ℕ)
      → frame.ensure_signed origin ≡ signer
      → s.connection ≡ existing
      → Outcome config now s (remove_connection frame origin n s)
  unfolding remove_connection
  remove-Outcome n none existing by_who h = failed bad_origin (ground arith)
  remove-Outcome n (some who) none by_who h =
      failed (module_error connection_does_not_exist) (ground arith)
  remove-Outcome n (some who) (some m) by_who h = disconnected n who (ground arith) (ground arith)

  command-Outcome :
      (command : Bytes) (signer : Option AccountId) (check : Option Error)
      → frame.ensure_signed origin ≡ signer
      → command_error config command s ≡ check
      → Outcome config now s (send_command frame config origin command s)
  command-Outcome command none check by_who h =
      failed bad_origin (unfold send_command in ground arith)
  command-Outcome command (some who) none by_who h =
      commanded command who h (send_command-ok command who by_who h)
  command-Outcome command (some who) (some e) by_who h =
      failed (module_error e) (send_command-err command who e by_who h)

  response-Outcome :
      (response : Bytes) (signer : Option AccountId) (existing : Option ℕ)
      → frame.ensure_signed origin ≡ signer
      → s.connection ≡ existing
      → is_utf8 response ≡ true
      → Outcome config now s (submit_response frame config origin response s)
  unfolding submit_response
  response-Outcome response none existing by_who h text = failed bad_origin (ground arith)
  response-Outcome response (some who) none by_who h text =
      failed (module_error connection_does_not_exist) (ground arith)
  response-Outcome response (some who) (some m) by_who h text =
      answered response who text (ground arith) (ground arith)

  unsigned-Outcome :
      (block_number : BlockNumber) (response : Bytes) (no_signer : Bool)
      → frame.ensure_none origin ≡ no_signer
      → is_utf8 response ≡ true
      → Outcome config now s
          (submit_response_unsigned frame config now origin block_number response s)
  unfolding submit_response_unsigned
  unsigned-Outcome block_number response false no_signer text = failed bad_origin (ground arith)
  unsigned-Outcome block_number response true no_signer text =
      answered_unsigned response text (ground arith)

  payload-Outcome :
      (payload : ResponsePayload) (signature : Signature) (no_signer : Bool)
      → frame.ensure_none origin ≡ no_signer
      → is_utf8 payload.response ≡ true
      → Outcome config now s
          (submit_response_unsigned_with_signed_payload frame config now origin payload signature s)
  unfolding submit_response_unsigned_with_signed_payload
  payload-Outcome payload signature false no_signer text = failed bad_origin (ground arith)
  payload-Outcome payload signature true no_signer text =
      answered_unsigned payload.response text (ground arith)

  -- Every call with a text has one of the six outcomes.
  pub dispatch-Outcome :
      (call : Call) → HasText call → Outcome config now s (dispatch frame config now origin call s)
  unfolding dispatch
  dispatch-Outcome (Call.create_connection n) text =
      create-Outcome n (frame.ensure_signed origin) s.connection refl refl
  dispatch-Outcome (Call.send_command command) text =
      command-Outcome command (frame.ensure_signed origin) (command_error config command s) refl
        refl
  dispatch-Outcome (Call.submit_response response) text =
      response-Outcome response (frame.ensure_signed origin) s.connection refl refl text
  dispatch-Outcome (Call.submit_response_unsigned block_number response) text =
      unsigned-Outcome block_number response (frame.ensure_none origin) refl text
  dispatch-Outcome (Call.submit_response_unsigned_with_signed_payload payload signature) text =
      payload-Outcome payload signature (frame.ensure_none origin) refl text
  dispatch-Outcome (Call.remove_connection n) text =
      remove-Outcome n (frame.ensure_signed origin) s.connection refl refl
