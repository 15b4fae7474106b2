-- ===== src/EdgeConnect/Calls.antt =====
-- The dispatchables of pallets/edge-connect/src/lib.rs, and `add_response`.
use cyborg_chain.Prelude.{
  ltb, leb, if◌then◌else◌, is_some, u32_mod, Bytes, ascii, bytes_eq, length, DispatchError,
  bad_origin, module_error, Action, ◌>>=◌, ◌>>◌, pure, gets, or_err, or_panic, ensure, modify, ℕ,
  ◌+◌, ◌%◌, not, Option, none, some, List, [], ◌∷◌, ◌++◌,
}
use cyborg_chain.Text.{is_utf8}
use cyborg_chain.Frame.{AccountId, BlockNumber, Frame}
use cyborg_chain.EdgeConnect.Types.{
  Config, Signature, ResponsePayload, Event, connection_created, connection_removed, command_sent,
  new_response, Error, connection_already_exists, connection_does_not_exist, invalid_command,
  command_too_long, too_many_commands, Entry, Storage,
}

abbrev pub EdgeAction : Type 0 → Type 0
EdgeAction = Action Storage (DispatchError Error)

abbrev deposit_event : Event → EdgeAction (Unit {0})
deposit_event e = modify (λ s. record s { events = s.events ++ e ∷ [] })

-- `BoundedVec::try_from`: the vector itself, if it is not longer than the bound.
abbrev try_from : ℕ → Bytes → Option Bytes
try_from bound bytes = if leb (length bytes) bound then some bytes else none

-- `BoundedVec::try_push`: the longer vector, if the bound leaves room.
abbrev try_push : ℕ → Entry → List Entry → Option (List Entry)
try_push bound x xs = if ltb (length xs) bound then some (xs ++ x ∷ []) else none

-- `String::from_utf8(bytes).unwrap()`
abbrev from_utf8 : Bytes → Option Bytes
from_utf8 bytes = if is_utf8 bytes then some bytes else none

module _ (config : Config) where
  push_response : Option AccountId → Bytes → Option (List Entry) → EdgeAction (Unit {0})
  push_response maybe_who bounded none = pure tt
  push_response maybe_who bounded (some responses) = do
    modify (λ s. record s { responses = responses })
    response ← or_panic (from_utf8 bounded)
    deposit_event (new_response response maybe_who)

  bound_response : Option AccountId → Option Bytes → EdgeAction (Unit {0})
  unfolding push_response
  bound_response maybe_who none = pure tt
  bound_response maybe_who (some bounded) = do
    responses ← gets (λ s. s.responses)
    push_response maybe_who bounded (try_push config.max_responses (maybe_who, bounded) responses)

  -- A response that is too long, or that finds the list full, is dropped with a warning.
  unfoldable pub add_response : Option AccountId → Bytes → EdgeAction (Unit {0})
  unfolding bound_response
  add_response maybe_who response =
      bound_response maybe_who (try_from config.max_string_length response)

module _ (frame : Frame) where
  unfoldable pub create_connection : frame.Origin → ℕ → EdgeAction (Unit {0})
  create_connection origin connection = do
    who ← or_err (frame.ensure_signed origin) bad_origin
    existing ← gets (λ s. s.connection)
    ensure (not (is_some existing)) (module_error connection_already_exists)
    modify (λ s. record s { connection = some connection })
    deposit_event (connection_created connection who)

  -- The given `connection` only goes into the event.
  unfoldable pub remove_connection : frame.Origin → ℕ → EdgeAction (Unit {0})
  remove_connection origin connection = do
    who ← or_err (frame.ensure_signed origin) bad_origin
    existing ← gets (λ s. s.connection)
    ensure (is_some existing) (module_error connection_does_not_exist)
    modify (λ s. record s { connection = none })
    deposit_event (connection_removed connection who)

module _ (frame : Frame) (config : Config) where
  unfoldable pub send_command : frame.Origin → Bytes → EdgeAction (Unit {0})
  send_command origin command = do
    who ← or_err (frame.ensure_signed origin) bad_origin
    existing ← gets (λ s. s.connection)
    ensure (is_some existing) (module_error connection_does_not_exist)
    ensure (bytes_eq command (ascii "ping")) (module_error invalid_command)
    bounded ← or_err (try_from config.max_string_length command) (module_error command_too_long)
    current ← gets (λ s. s.commands)
    commands ←
        or_err (try_push config.max_command (some who, bounded) current)
          (module_error too_many_commands)
    modify (λ s. record s { commands = commands })
    deposit_event (command_sent command who)

  unfoldable pub submit_response : frame.Origin → Bytes → EdgeAction (Unit {0})
  unfolding add_response
  submit_response origin response = do
    who ← or_err (frame.ensure_signed origin) bad_origin
    existing ← gets (λ s. s.connection)
    ensure (is_some existing) (module_error connection_does_not_exist)
    add_response config (some who) response

module _ (frame : Frame) (config : Config) (now : BlockNumber) where
  -- `now` is `<system::Pallet<T>>::block_number()`, the sum is one of u32.
  abbrev schedule_next : EdgeAction (Unit {0})
  schedule_next =
      modify (λ s. record s { next_unsigned_at = (now + config.unsigned_interval) % u32_mod })

  unfoldable pub submit_response_unsigned :
      frame.Origin → BlockNumber → Bytes → EdgeAction (Unit {0})
  unfolding add_response
  submit_response_unsigned origin block_number response = do
    ensure (frame.ensure_none origin) bad_origin
    add_response config none response
    schedule_next

  unfoldable pub submit_response_unsigned_with_signed_payload :
      frame.Origin → ResponsePayload → Signature → EdgeAction (Unit {0})
  unfolding add_response
  submit_response_unsigned_with_signed_payload origin response_payload signature = do
    ensure (frame.ensure_none origin) bad_origin
    add_response config none response_payload.response
    schedule_next
