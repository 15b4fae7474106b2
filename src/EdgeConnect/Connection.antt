-- ===== src/EdgeConnect/Connection.antt =====
-- The connection and the commands of pallets/edge-connect/src/lib.rs.
use cyborg_chain.Prelude.{
  if◌then◌else◌, is_some, Bytes, ascii, bytes_eq_sound, length, ok, err, module_error, ℕ, ◌≤◌, ◌<◌,
  ◌≡◌, ap, ◌≢◌, ◌↔◌, true, none, some, [], ◌∷◌, ◌++◌, arith,
}
use cyborg_chain.Frame.{AccountId, Frame}
use cyborg_chain.EdgeConnect.{
  Config, connection_removed, connection_already_exists, connection_does_not_exist,
  command_too_long, Storage, create_connection, remove_connection, send_command,
}
use cyborg_chain.EdgeConnect.Outcome.{
  with_connection, without_connection, with_command, command_error, send_command-ok,
}

module _ (frame : Frame) (origin : frame.Origin) (who : AccountId)
    (signature : frame.ensure_signed origin ≡ some who) (s : Storage) where
  -- A signed `create_connection` succeeds exactly while there is no connection, and then stores
  -- the given one.
  pub create_connection_lem :
      (n : ℕ)
      → create_connection frame origin n s ≡ (
          if is_some s.connection
          then (err (module_error connection_already_exists), s)
          else (ok tt, with_connection n who s))
  unfolding create_connection
  create_connection_lem n = ground arith

  -- A signed `remove_connection` succeeds exactly while there is a connection, whichever number it
  -- is given, and then clears it.
  pub remove_connection_lem :
      (n : ℕ)
      → remove_connection frame origin n s ≡ (
          if is_some s.connection
          then (ok tt, without_connection n who s)
          else (err (module_error connection_does_not_exist), s))
  unfolding remove_connection
  remove_connection_lem n = ground arith

  -- The connection `n` is removed by a call that names any other number `m`, and the event then
  -- reports the removal of `m`.
  remove_other_connection :
      (n m : ℕ)
      → s.connection ≡ some n
      → ((remove_connection frame origin m s).0 ≡ ok tt)
        × ((remove_connection frame origin m s).1.connection ≡ none)
        × ((remove_connection frame origin m s).1.events
            ≡ s.events ++ connection_removed m who ∷ [])
  unfolding remove_connection
  remove_other_connection n m h = ground arith

module _ (frame : Frame) (config : Config) (origin : frame.Origin) (command : Bytes)
    (s : Storage) where
  send_command_inv :
      (after : Storage)
      → send_command frame config origin command s ≡ (ok tt, after)
      → (who : AccountId) × (frame.ensure_signed origin ≡ some who)
        × (command_error config command s ≡ none)
  unfolding send_command
  send_command_inv after h = ground arith

  -- A command is accepted exactly when it is signed, a connection exists, it is the text "ping",
  -- the bound on texts has room for that, and the list is not full; then it is appended with its
  -- sender, and an event is deposited.
  pub send_command_iff :
      (after : Storage)
      → (send_command frame config origin command s ≡ (ok tt, after)) ↔ (
          (who : AccountId) × (frame.ensure_signed origin ≡ some who)
          × (is_some s.connection ≡ true)
          × (command ≡ ascii "ping")
          × (4 ≤ config.max_string_length)
          × (length s.commands < config.max_command)
          × (after ≡ with_command command who s))
  send_command_iff after = (
    λ h.
        let (who, by_who, check) = send_command_inv after h in
        let ping : command ≡ ascii "ping" = bytes_eq_sound command (ascii "ping") (ground arith) in
        let short : length command ≤ config.max_string_length = ground arith in
        (
          who,
          by_who,
          ground arith,
          ping,
          rw ping at short,
          ground arith,
          cc (h, send_command-ok frame config 0 origin s command who by_who check),
        ),
    λ (who, by_who, there, ping, short, room, e).
        let check : command_error config command s ≡ none = rw ping (ground arith) in
        rw e (send_command-ok frame config 0 origin s command who by_who check),
  )

  -- With a bound of four bytes or more, no command is refused as too long: a longer one is not
  -- "ping", and that is tested first.
  command_never_too_long :
      4 ≤ config.max_string_length
      → (send_command frame config origin command s).0 ≢ err (module_error command_too_long)
  unfolding send_command
  command_never_too_long long_enough h =
      ground
        (arith, ap (λ (c : Bytes). length c) (bytes_eq_sound command (ascii "ping") (ground arith)))
