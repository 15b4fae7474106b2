-- ===== src/Examples/Submissions.antt =====
-- The theorems on the off-chain worker of pallets/edge-connect/src/lib.rs, with a server that
-- answers every request and one account to sign with.
use cyborg_chain.Prelude.{ascii, ◌+◌, ◌≤◌, ◌≡◌, refl, true, none, some, [], ◌∷◌, arith}
use cyborg_chain.Text.{is_utf8}
use cyborg_chain.Http.{Client, fetched}
use cyborg_chain.EdgeConnect.Choose.{absent, at, next_send, type_of_block, choose_transaction_type}
use cyborg_chain.EdgeConnect.Lock.{
  idle, holding, World, update, read, swap, Reach, start, later, sends-Spaced,
}
use cyborg_chain.EdgeConnect.Offchain.{
  fetch_response, with_fetched, fetch_response_and_send_raw_unsigned, send, offchain_worker,
}
use cyborg_chain.EdgeConnect.Sending.{IsProper, offchain_worker-IsProper}
use cyborg_chain.EdgeConnect.Unsigned.{accepted}
use cyborg_chain.EdgeConnect.Interval.{interval_is_kept}
use cyborg_chain.Runtime.Constants.{edge_config}
use cyborg_chain.Examples.Outside.{frame, client, signer, mutate}
use cyborg_chain.EdgeConnect.{no_transaction, unsigned_for_all}
use cyborg_chain.EdgeConnect.Dispatch.{Call, dispatch, validate_unsigned}
use cyborg_chain.Runtime.Compose.{genesis}

abbrev server : Client
server = client (ascii "block")

-- Block 7 is one for a raw unsigned transaction.
raw_test :
    (offchain_worker edge_config server signer (mutate absent) 7 genesis.edge).unsigned_calls
    ≡ Call.submit_response_unsigned 7 (ascii "block") ∷ []
unfolding offchain_worker send fetch_response_and_send_raw_unsigned with_fetched fetch_response
    choose_transaction_type type_of_block next_send is_utf8
raw_test = refl

offchain_worker-IsProper_example :
    IsProper signer 0 7 (offchain_worker edge_config server signer (mutate absent) 7 genesis.edge)
offchain_worker-IsProper_example =
    offchain_worker-IsProper edge_config server signer (mutate absent) 7 genesis.edge

server_answers : fetch_response server ≡ fetched (ascii "block")
unfolding fetch_response is_utf8
server_answers = refl

-- Block 6 is within the grace period after block 5, block 10 is not.
grace_test :
    (choose_transaction_type edge_config (mutate (at 5)) 6 ≡ no_transaction)
    × (choose_transaction_type edge_config (mutate (at 5)) 10 ≡ unsigned_for_all)
unfolding choose_transaction_type type_of_block next_send
grace_test = (refl, refl)

-- Worker 0 reads the absent entry for block 4 and writes it.
abbrev idle_world : World
idle_world = record { entry = absent; pc = λ i. idle; sends = [] }

abbrev reading_world : World
reading_world = record idle_world { pc = update idle_world.pc 0 (holding absent 4) }

abbrev sent_world : World
sent_world = record { entry = at 4; pc = update reading_world.pc 0 idle; sends = 4 ∷ [] }

writes : next_send edge_config 4 absent ≡ some 4
unfolding next_send
writes = refl

sent_world_reached : Reach edge_config absent sent_world
sent_world_reached =
    later (later start (read 0 4 refl (omega arith))) (swap 0 absent 4 4 refl writes refl)

abbrev reading_again_world : World
reading_again_world = record sent_world { pc = update sent_world.pc 1 (holding (at 4) 7) }

abbrev sent_again_world : World
sent_again_world = record {
  entry = at 7;
  pc = update reading_again_world.pc 1 idle;
  sends = 7 ∷ 4 ∷ [];
}

writes_again : next_send edge_config 7 (at 4) ≡ some 7
unfolding next_send
writes_again = refl

-- Worker 1 does so for block 7, a grace period later.
sent_again_reached : Reach edge_config absent sent_again_world
sent_again_reached =
    later (later sent_world_reached (read 1 7 refl (omega arith)))
      (swap 1 (at 4) 7 7 refl writes_again refl)

sends-Spaced_example : (4 + 3 ≤ 7) × Unit {0}
sends-Spaced_example = sends-Spaced edge_config absent sent_again_world sent_again_reached

text_of_answer : is_utf8 (ascii "r") ≡ true
unfolding is_utf8
text_of_answer = refl

answer_is_accepted :
    accepted (validate_unsigned signer.verify (Call.submit_response_unsigned 1 (ascii "r"))) ≡ true
unfolding validate_unsigned
answer_is_accepted = refl

-- After a submission in block 1 nothing is handed over for block 3.
interval_is_kept_example :
    (offchain_worker edge_config server signer
      (mutate absent)
      3
      (dispatch frame edge_config 1 none
        (Call.submit_response_unsigned 1 (ascii "r"))
        genesis.edge).1).unsigned_calls
    ≡ []
interval_is_kept_example =
    interval_is_kept frame edge_config signer.verify 1 none refl genesis.edge server signer
      (mutate absent) (Call.submit_response_unsigned 1 (ascii "r")) 3 text_of_answer
      answer_is_accepted (omega arith) (omega arith)
