-- ===== src/Examples/Edge.antt =====
-- The theorems on the calls of pallets/edge-connect/src/lib.rs at concrete storages and calls.
use cyborg_chain.EdgeConnect.Pool.{tag, accepted_at_most_two}
use cyborg_chain.Prelude.{
  Bytes, ap, is_some, ascii, length, ok, err, panic, module_error, ℕ, ◌≤◌, ◌<◌, ◌≡◌, refl, ◌≢◌, ◌↔◌,
  Bool, true, Option, none, some, List, [], ◌∷◌, arith, All, Distinct, map, ◌++◌,
}
use cyborg_chain.Text.{is_utf8}
use cyborg_chain.EdgeConnect.{
  Signature, ResponsePayload, connection_does_not_exist, Storage, send_command,
  submit_response_unsigned,
}
use cyborg_chain.EdgeConnect.Invariant.{IsBounded}
use cyborg_chain.EdgeConnect.Outcome.{with_command}
use cyborg_chain.EdgeConnect.Safety.{dispatch_text-ne-panic, dispatch_text_atomic, run-IsBounded}
use cyborg_chain.EdgeConnect.Connection.{send_command_iff}
use cyborg_chain.EdgeConnect.Unsigned.{accepted, unsigned_twice_in_one_block}
use cyborg_chain.Runtime.Constants.{edge_config}
use cyborg_chain.Examples.Outside.{frame}
use cyborg_chain.EdgeConnect.Dispatch.{Call, Extrinsic, dispatch, run, validate_unsigned, valid_tx}
use cyborg_chain.Runtime.Compose.{genesis}

abbrev connected_storage : Storage
connected_storage = record genesis.edge { connection = some 5 }

empty-IsBounded : IsBounded edge_config genesis.edge
empty-IsBounded = record {
  commands_fit = omega arith;
  commands = tt;
  responses_fit = omega arith;
  responses = tt;
}

abbrev respond : Call
respond = Call.submit_response_unsigned 1 (ascii "r")

respond_text : is_utf8 (ascii "r") ≡ true
unfolding is_utf8
respond_text = refl

abbrev two_responses : List (Extrinsic frame)
two_responses =
    record { block = 1; origin = none; call = respond }
    ∷ record { block = 1; origin = none; call = respond }
    ∷ []

run-IsBounded_example : IsBounded edge_config (run frame edge_config two_responses genesis.edge)
run-IsBounded_example =
    run-IsBounded frame edge_config two_responses genesis.edge (respond_text, (respond_text, tt))
      empty-IsBounded

dispatch_text-ne-panic_example : (dispatch frame edge_config 1 none respond genesis.edge).0 ≢ panic
dispatch_text-ne-panic_example =
    dispatch_text-ne-panic frame edge_config 1 none respond genesis.edge respond_text

-- A command without a connection.
unconnected :
    (dispatch frame edge_config 1 (some 7) (Call.send_command (ascii "ping")) genesis.edge).0
    ≡ err (module_error connection_does_not_exist)
unfolding dispatch send_command
unconnected = refl

dispatch_text_atomic_example :
    (dispatch frame edge_config 1 (some 7) (Call.send_command (ascii "ping")) genesis.edge).1
    ≡ genesis.edge
dispatch_text_atomic_example =
    dispatch_text_atomic frame edge_config 1 (some 7) (Call.send_command (ascii "ping"))
      genesis.edge (module_error connection_does_not_exist) tt unconnected

send_command_iff_example :
    (send_command frame edge_config (some 7) (ascii "ping") connected_storage
      ≡ (ok tt, with_command (ascii "ping") 7 connected_storage))
    ↔ ((who : ℕ) × (◌≡◌ {A = Option ℕ} (some 7) (some who))
        × (is_some connected_storage.connection ≡ true)
        × (ascii "ping" ≡ ascii "ping")
        × (4 ≤ edge_config.max_string_length)
        × (length connected_storage.commands < edge_config.max_command)
        × (with_command (ascii "ping") 7 connected_storage
            ≡ with_command (ascii "ping") who connected_storage))
send_command_iff_example =
    send_command_iff frame edge_config (some 7) (ascii "ping") connected_storage
      (with_command (ascii "ping") 7 connected_storage)

abbrev verifies : ResponsePayload → Signature → Bool
verifies p sig = true

unsigned_twice_in_one_block_example :
    (submit_response_unsigned frame edge_config 1 none 1
      (ascii "r")
      (submit_response_unsigned frame edge_config 1 none 1 (ascii "r") genesis.edge).1).1.responses
    ≡ (none, ascii "r") ∷ (none, ascii "r") ∷ []
unsigned_twice_in_one_block_example =
    unsigned_twice_in_one_block frame edge_config 1 none refl genesis.edge 1 1 (ascii "r")
      (ascii "r") respond_text respond_text (omega arith) (omega arith) (omega arith)

-- One call of each kind.
abbrev two_calls : List Call
two_calls =
    respond
    ∷ Call.submit_response_unsigned_with_signed_payload
        (record { block_number = 1; response = ascii "r"; public = 7 }) []
    ∷ []

two_calls-accepted : All (λ c. accepted (validate_unsigned verifies c) ≡ true) two_calls
unfolding validate_unsigned
two_calls-accepted = (refl, (refl, tt))

two_calls-Distinct :
    Distinct (map (λ c. tag (λ p t. p ++ t) verifies (validate_unsigned verifies c)) two_calls)
unfolding validate_unsigned valid_tx
two_calls-Distinct =
    ((λ e. let lengths : 31 ≡ 51 = ap (λ (t : Bytes). length t) e in omega arith, tt), (tt, tt))

accepted_at_most_two_example : 2 ≤ 2
accepted_at_most_two_example =
    accepted_at_most_two (λ p t. p ++ t) verifies two_calls two_calls-accepted two_calls-Distinct
