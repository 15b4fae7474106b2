-- ===== src/EdgeConnect/Replay.antt =====
-- The events of pallets/edge-connect/src/lib.rs, as a client that only reads events sees them.
use cyborg_chain.Frame.Events
use cyborg_chain.EdgeConnect.Dispatch.{Extrinsic, dispatch, run}
use cyborg_chain.Prelude.{
  ltb, leb, Bool-cases, is_some, Bytes, ascii, length, All, Result, DispatchError, ℕ, ◌≤◌, ◌<◌, ◌≡◌,
  refl, inl, inr, true, ◌&&◌, Option, none, some, List, [], ◌∷◌, ◌++◌, foldl, arith,
}
use cyborg_chain.Text.{is_utf8}
use cyborg_chain.EdgeConnect.{
  Config, Event, connection_created, connection_removed, command_sent, new_response, Error, Entry,
  Storage,
}
use cyborg_chain.EdgeConnect.Invariant.{HasText}
use cyborg_chain.EdgeConnect.Outcome.{
  answer, Outcome, failed, connected, disconnected, commanded, answered, answered_unsigned,
  dispatch-Outcome,
}
use cyborg_chain.EdgeConnect.Reports.{Caused, run-Caused}
use cyborg_chain.EdgeConnect.Safety.{command_is_ping}
use cyborg_chain.Frame.{AccountId, BlockNumber, Frame}

-- What a client can know of the storage: all but the time of the next unsigned transaction.
pub record View : Type 0 where
  pub connection : Option ℕ
  pub commands : List Entry
  pub responses : List Entry

abbrev pub view : Storage → View
view s = record { connection = s.connection; commands = s.commands; responses = s.responses }

-- How the client takes in one event.
unfoldable pub read_event : View → Event → View
read_event v (connection_created connection who) = record v { connection = some connection }
read_event v (connection_removed connection who) = record v { connection = none }
read_event v (command_sent command who) = record v {
  commands = v.commands ++ (some who, command) ∷ [];
}
read_event v (new_response response maybe_who) = record v {
  responses = v.responses ++ (maybe_who, response) ∷ [];
}

-- Who answers: an account while there is a connection, or an unsigned transaction.
abbrev MayAnswer : Option ℕ → Option AccountId → Type 0
MayAnswer connection none = Unit
MayAnswer connection (some who) = is_some connection ≡ true

-- The events that make sense: a connection starts where there is none and ends where there is one,
-- only "ping" is sent, over a connection, and the two lists stay within their bounds.
unfoldable pub IsAllowed : Config → View → Event → Type 0
IsAllowed config v (connection_created connection who) = v.connection ≡ none
IsAllowed config v (connection_removed connection who) = is_some v.connection ≡ true
IsAllowed config v (command_sent command who) =
    (is_some v.connection ≡ true)
    × (command ≡ ascii "ping")
    × (length v.commands < config.max_command)
IsAllowed config v (new_response response maybe_who) =
    MayAnswer v.connection maybe_who
    × (is_utf8 response ≡ true)
    × (length response ≤ config.max_string_length)
    × (length v.responses < config.max_responses)

-- From `s` to `t` the events `news` were deposited, and they account for all that has changed.
abbrev IsReplay : Config → Storage → Storage → List Event → Type 0
IsReplay config = Events.IsReplay view (λ s. s.events) read_event (IsAllowed config)

same : (config : Config) (s : Storage) → IsReplay config s s []
same config = Events.IsReplay-refl view (λ s. s.events) read_event (IsAllowed config)

-- The events of an answer: one if it is stored, none if it is dropped.
answer-IsReplay :
    (config : Config) (maybe_who : Option AccountId) (response : Bytes) (s : Storage)
    → MayAnswer s.connection maybe_who
    → is_utf8 response ≡ true
    → (news : List Event) × IsReplay config s (answer config maybe_who response s) news
answer-IsReplay config maybe_who response s may text =
    let fits =
      leb (length response) config.max_string_length
      && ltb (length s.responses) config.max_responses in
    elim (Bool-cases fits) [
      | inl yes_fits ↦ (
        new_response response maybe_who ∷ [],
        rw yes_fits (record {
          deposited = refl;
          replayed = unfold read_event in refl;
          allowed = unfold IsAllowed in ((may, text, ground arith, ground arith), tt);
        }),
      )
      | inr too_long ↦ ([], rw too_long (same config s))
    ]

module _ {config : Config} {now : BlockNumber} {s : Storage}
    {r : Result (DispatchError Error) (Unit {0}) × Storage} where
  Outcome-IsReplay : Outcome config now s r → (news : List Event) × IsReplay config s r.1 news
  unfolding read_event IsAllowed
  Outcome-IsReplay (failed e h) = ([], rw h (same config s))
  Outcome-IsReplay (connected n who free h) = (
    connection_created n who ∷ [],
    rw h (record { deposited = refl; replayed = refl; allowed = (free, tt) }),
  )
  Outcome-IsReplay (disconnected n who there h) = (
    connection_removed n who ∷ [],
    rw h (record { deposited = refl; replayed = refl; allowed = (there, tt) }),
  )
  Outcome-IsReplay (commanded command who check h) =
      let (ping, room) = command_is_ping config command s check in
      let there : is_some s.connection ≡ true = ground arith in
      (
        command_sent command who ∷ [],
        rw h (record { deposited = refl; replayed = refl; allowed = ((there, ping, room), tt) }),
      )
  Outcome-IsReplay (answered response who text there h) =
      let (news, p) = answer-IsReplay config (some who) response s there text in (news, rw h p)
  Outcome-IsReplay (answered_unsigned response text h) =
      let (news, p) = answer-IsReplay config none response s tt text in
      (news, rw h (record { deposited = p.deposited; replayed = p.replayed; allowed = p.allowed }))

append-cancel : (xs ys zs : List Event) → xs ++ ys ≡ xs ++ zs → ys ≡ zs
append-cancel [] ys zs h = h
append-cancel (x ∷ xs) ys zs h = append-cancel xs ys zs (ground arith)

module _ (frame : Frame) (config : Config) where
  run-IsReplay :
      (xs : List (Extrinsic frame)) (s : Storage)
      → All (λ x. HasText x.call) xs
      → (news : List Event) × IsReplay config s (run frame config xs s) news
  unfolding run
  run-IsReplay [] s texts = ([], same config s)
  run-IsReplay (x ∷ xs) s texts =
      let t = (dispatch frame config x.block x.origin x.call s).1 in
      let (es, p) =
        Outcome-IsReplay (dispatch-Outcome frame config x.block x.origin s x.call texts.0) in
      let (fs, q) = run-IsReplay xs t texts.1 in
      (
        es ++ fs,
        Events.IsReplay-trans view (λ s. s.events) read_event (IsAllowed config) s t
            (run frame config xs t) es fs p q,
      )

  -- Any extrinsics whose texts are UTF-8 only append events, and a client that knew the
  -- connection, the commands and the responses before, and reads these events in order, knows
  -- them after: no change of theirs goes without its event. The events belong to the extrinsics in
  -- order, at most one to each, and say what their extrinsics ask for: an event names the account
  -- that has signed its extrinsic (none for an unsigned response), and has the number or the text
  -- of its call. (The number in a removal is that of the call, which need not be that of the
  -- connection.)
  pub edge_run_replay :
      (xs : List (Extrinsic frame)) (s : Storage)
      → All (λ x. HasText x.call) xs
      → (news : List Event) × ((run frame config xs s).events ≡ s.events ++ news)
        × (view (run frame config xs s) ≡ foldl read_event (view s) news)
        × Caused frame xs news
  edge_run_replay xs s texts =
      let (news, p) = run-IsReplay xs s texts in
      let (es, appended, caused) = run-Caused frame config xs s texts in
      let same : es ≡ news = append-cancel s.events es news (cc (appended, p.deposited)) in
      (news, p.deposited, p.replayed, rw same at caused)

  -- The events that any extrinsics whose texts are UTF-8 append are a session: in the view of a
  -- client that has read those before, each connection starts where there is none, each end of one
  -- and each command has a connection, commands are "ping", a signed response has a connection,
  -- every response is UTF-8 and within the bound of its length, and the commands and the responses
  -- have room.
  pub edge_run-IsLog :
      (xs : List (Extrinsic frame)) (s : Storage)
      → All (λ x. HasText x.call) xs
      → (news : List Event) × ((run frame config xs s).events ≡ s.events ++ news)
        × Events.IsLog read_event (IsAllowed config) (view s) news
  edge_run-IsLog xs s texts =
      let (news, p) = run-IsReplay xs s texts in (news, p.deposited, p.allowed)
