-- ===== src/Examples/Events.antt =====
-- The theorems on events at concrete runs.
use cyborg_chain.Prelude.{ascii, ◌≡◌, refl, true, some, List, [], ◌∷◌, ◌++◌, foldl, arith}
use cyborg_chain.Text.{is_utf8}
use cyborg_chain.Examples.Outside.{frame, host}
use cyborg_chain.Examples.Storages.{one_task_run}
use cyborg_chain.Frame.Events
use cyborg_chain.EdgeConnect
use cyborg_chain.EdgeConnect.Dispatch as EdgeCalls
use cyborg_chain.EdgeConnect.Replay as EdgeReplay
use cyborg_chain.EdgeConnect.Reports as EdgeReports
use cyborg_chain.Runtime.Compose
use cyborg_chain.Runtime.Constants.{edge_config}
use cyborg_chain.WorkerRegistration
use cyborg_chain.WorkerRegistration.Dispatch as WorkerCalls
use cyborg_chain.WorkerRegistration.Invariant as WorkerInvariant
use cyborg_chain.WorkerRegistration.Replay as WorkerReplay

run_replay_example :
    (news : List WorkerRegistration.Event) × ((WorkerCalls.run frame host one_task_run
        WorkerInvariant.genesis).events
      ≡ [] ++ news)
    × (WorkerReplay.view (WorkerCalls.run frame host one_task_run WorkerInvariant.genesis)
        ≡ foldl WorkerReplay.read_event (WorkerReplay.view WorkerInvariant.genesis) news)
run_replay_example =
    WorkerReplay.run_replay frame host one_task_run WorkerInvariant.genesis
      WorkerInvariant.genesis-IsValid (record { cluster_ids = omega arith; task_ids = omega arith })

run-IsLog_example :
    (news : List WorkerRegistration.Event) × ((WorkerCalls.run frame host one_task_run
        WorkerInvariant.genesis).events
      ≡ [] ++ news)
    × Events.IsLog WorkerReplay.read_event WorkerReplay.IsAllowed
        (WorkerReplay.view WorkerInvariant.genesis)
        news
run-IsLog_example =
    WorkerReplay.run-IsLog frame host one_task_run WorkerInvariant.genesis
      WorkerInvariant.genesis-IsValid (record { cluster_ids = omega arith; task_ids = omega arith })

-- A connection is made, a response is submitted, and the connection is removed.
abbrev connect_and_answer : List (EdgeCalls.Extrinsic frame)
connect_and_answer =
    record { block = 1; origin = some 7; call = EdgeCalls.create_connection 5 }
    ∷ record { block = 2; origin = some 7; call = EdgeCalls.submit_response (ascii "r") }
    ∷ record { block = 3; origin = some 7; call = EdgeCalls.remove_connection 6 }
    ∷ []

response_text : is_utf8 (ascii "r") ≡ true
unfolding is_utf8
response_text = refl

edge_run_replay_example :
    (news : List EdgeConnect.Event) × ((EdgeCalls.run frame edge_config connect_and_answer
        Compose.genesis.edge).events
      ≡ [] ++ news)
    × (EdgeReplay.view (EdgeCalls.run frame edge_config connect_and_answer Compose.genesis.edge)
        ≡ foldl EdgeReplay.read_event (EdgeReplay.view Compose.genesis.edge) news)
    × EdgeReports.Caused frame connect_and_answer news
edge_run_replay_example =
    EdgeReplay.edge_run_replay frame edge_config connect_and_answer Compose.genesis.edge
      (tt, (response_text, (tt, tt)))

edge_run-IsLog_example :
    (news : List EdgeConnect.Event) × ((EdgeCalls.run frame edge_config connect_and_answer
        Compose.genesis.edge).events
      ≡ [] ++ news)
    × Events.IsLog EdgeReplay.read_event
        (EdgeReplay.IsAllowed edge_config)
        (EdgeReplay.view Compose.genesis.edge)
        news
edge_run-IsLog_example =
    EdgeReplay.edge_run-IsLog frame edge_config connect_and_answer Compose.genesis.edge
      (tt, (response_text, (tt, tt)))
