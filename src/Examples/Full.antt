-- ===== src/Examples/Full.antt =====
-- The theorems on responses and on full lists of pallets/edge-connect/src/lib.rs at concrete runs.
use cyborg_chain.Prelude.{ascii, ◌≡◌, refl, true, some, List, [], ◌∷◌, arith}
use cyborg_chain.Text.{is_utf8}
use cyborg_chain.EdgeConnect.{Config, Storage, submit_response}
use cyborg_chain.EdgeConnect.Full.{full_commands_stay, full_responses_stay}
use cyborg_chain.EdgeConnect.Dispatch.{Call, Extrinsic, run}
use cyborg_chain.Runtime.Compose.{genesis}
use cyborg_chain.Runtime.Constants.{edge_config}
use cyborg_chain.Examples.Outside.{frame}

-- Room for one command and for one response.
abbrev small_config : Config
small_config = record edge_config { max_command = 1; max_responses = 1 }

abbrev connected : Storage
connected = record genesis.edge { connection = some 5 }

abbrev full : Storage
full = record connected {
  commands = (some 7, ascii "ping") ∷ [];
  responses = (some 7, ascii "r") ∷ [];
}

abbrev one_more_each : List (Extrinsic frame)
one_more_each =
    record { block = 1; origin = some 9; call = Call.send_command (ascii "ping") }
    ∷ record { block = 2; origin = some 9; call = Call.submit_response (ascii "t") }
    ∷ []

response_text : is_utf8 (ascii "t") ≡ true
unfolding is_utf8
response_text = refl

full_commands_stay_example :
    (run frame small_config one_more_each full).commands ≡ (some 7, ascii "ping") ∷ []
full_commands_stay_example =
    full_commands_stay frame small_config one_more_each full (tt, (response_text, tt)) (omega arith)

full_responses_stay_example :
    (run frame small_config one_more_each full).responses ≡ (some 7, ascii "r") ∷ []
full_responses_stay_example =
    full_responses_stay frame small_config one_more_each full (tt, (response_text, tt))
      (omega arith)
