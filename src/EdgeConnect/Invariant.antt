-- ===== src/EdgeConnect/Invariant.antt =====
-- The bounds on the storage of pallets/edge-connect/src/lib.rs, and what `add_response` does to it.
use cyborg_chain.EdgeConnect.Dispatch.{Call}
use cyborg_chain.Prelude.{
  ltb, leb, if◌then◌else◌, is_some, Bytes, ascii, length, length-append, All, All-snoc, ok, ◌≤◌,
  ◌<◌, ◌≡◌, true, ◌&&◌, Option, [], ◌∷◌, ◌++◌, arith,
}
use cyborg_chain.Text.{is_utf8}
use cyborg_chain.Frame.{AccountId}
use cyborg_chain.EdgeConnect.{Config, new_response, Entry, Storage, add_response}

-- A stored command: the text "ping", with its sender.
abbrev pub IsPing : Entry → Type 0
IsPing e = (e.1 ≡ ascii "ping") × (is_some e.0 ≡ true)

-- A stored response: a text that is not longer than the bound.
abbrev pub IsResponse : Config → Entry → Type 0
IsResponse config e = (length e.1 ≤ config.max_string_length) × (is_utf8 e.1 ≡ true)

pub record IsBounded (config : Config) (s : Storage) : Type 0 where
  pub commands_fit : length s.commands ≤ config.max_command
  pub commands : All IsPing s.commands
  pub responses_fit : length s.responses ≤ config.max_responses
  pub responses : All (IsResponse config) s.responses

-- The argument of a call that becomes a response is a Rust `String`, so it is UTF-8.
abbrev pub HasText : Call → Type 0
HasText (Call.submit_response response) = is_utf8 response ≡ true
HasText (Call.submit_response_unsigned block_number response) = is_utf8 response ≡ true
HasText (Call.submit_response_unsigned_with_signed_payload payload signature) =
    is_utf8 payload.response ≡ true
HasText _ = Unit

-- What `add_response` does with a text: nothing, or it stores the response with its event.
abbrev pub with_response : Option AccountId → Bytes → Storage → Storage
with_response maybe_who response s = record s {
  responses = s.responses ++ (maybe_who, response) ∷ [];
  events = s.events ++ new_response response maybe_who ∷ [];
}

-- On a text, `add_response` never panics and never fails: it stores the response with its event
-- if the text is within its bound and the list has room, and else leaves the storage as it is.
pub add_response_lem :
    (config : Config) (maybe_who : Option AccountId) (response : Bytes) (s : Storage)
    → is_utf8 response ≡ true
    → add_response config maybe_who response s ≡ (
      ok tt,
      if leb (length response) config.max_string_length
            && ltb (length s.responses) config.max_responses
          then with_response maybe_who response s
          else s,
    )
unfolding add_response
add_response_lem config maybe_who response s text = ground arith

pub with_response-IsBounded :
    (config : Config) (maybe_who : Option AccountId) (response : Bytes) (s : Storage)
    → IsBounded config s
    → is_utf8 response ≡ true
    → length response ≤ config.max_string_length
    → length s.responses < config.max_responses
    → IsBounded config (with_response maybe_who response s)
with_response-IsBounded config maybe_who response s v text short room = record {
  commands_fit = v.commands_fit;
  commands = v.commands;
  responses_fit = omega (arith, length-append {0} s.responses ((maybe_who, response) ∷ []));
  responses =
      All-snoc (IsResponse config) s.responses (maybe_who, response) v.responses (short, text);
}
