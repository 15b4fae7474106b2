-- ===== src/EdgeConnect/Safety.antt =====
-- What holds of every call of pallets/edge-connect/src/lib.rs, and of every sequence of calls.
use cyborg_chain.EdgeConnect.Dispatch.{Call, Extrinsic, dispatch, run}
use cyborg_chain.Prelude.{
  ltb, leb, Bool-cases, Bytes, ascii, bytes_eq_sound, length, length-append, All, All-snoc, Result,
  err, panic, DispatchError, ◌<◌, ◌≡◌, refl, ◌≢◌, inl, inr, true, ◌&&◌, Option, none, some, List,
  [], ◌∷◌, arith,
}
use cyborg_chain.Text.{is_utf8}
use cyborg_chain.Frame.{AccountId, BlockNumber, Frame}
use cyborg_chain.EdgeConnect.{Config, Error, Storage}
use cyborg_chain.EdgeConnect.Invariant.{IsPing, IsBounded, HasText, with_response-IsBounded}
use cyborg_chain.EdgeConnect.Outcome.{
  answer, command_error, Outcome, failed, connected, disconnected, commanded, answered,
  answered_unsigned, dispatch-Outcome,
}

pub command_is_ping :
    (config : Config) (command : Bytes) (s : Storage)
    → command_error config command s ≡ none
    → (command ≡ ascii "ping") × (length s.commands < config.max_command)
command_is_ping config command s h =
    (bytes_eq_sound command (ascii "ping") (ground arith), ground arith)

answer-IsBounded :
    (config : Config) (maybe_who : Option AccountId) (response : Bytes) (s : Storage)
    → IsBounded config s
    → is_utf8 response ≡ true
    → IsBounded config (answer config maybe_who response s)
answer-IsBounded config maybe_who response s v text =
    let fits =
      leb (length response) config.max_string_length
      && ltb (length s.responses) config.max_responses in
    elim (Bool-cases fits) [
      | inl yes_fits ↦
          rw yes_fits (
            with_response-IsBounded config maybe_who response s v text (ground arith)
              (ground arith))
      | inr too_long ↦ rw too_long v
    ]

module _ {config : Config} {now : BlockNumber} {s : Storage}
    {r : Result (DispatchError Error) (Unit {0}) × Storage} where
  Outcome-IsBounded : Outcome config now s r → IsBounded config s → IsBounded config r.1
  Outcome-IsBounded (failed e h) v = rw h v
  Outcome-IsBounded (connected n who free h) v = rw h (record {
    commands_fit = v.commands_fit;
    commands = v.commands;
    responses_fit = v.responses_fit;
    responses = v.responses;
  })
  Outcome-IsBounded (disconnected n who there h) v = rw h (record {
    commands_fit = v.commands_fit;
    commands = v.commands;
    responses_fit = v.responses_fit;
    responses = v.responses;
  })
  Outcome-IsBounded (commanded command who check h) v =
      let (ping, room) = command_is_ping config command s check in
      rw h (record {
        commands_fit = omega (arith, room, length-append {0} s.commands ((some who, command) ∷ []));
        commands = All-snoc IsPing s.commands (some who, command) v.commands (ping, refl);
        responses_fit = v.responses_fit;
        responses = v.responses;
      })
  Outcome-IsBounded (answered response who text there h) v =
      rw h (answer-IsBounded config (some who) response s v text)
  Outcome-IsBounded (answered_unsigned response text h) v =
      let a = answer-IsBounded config none response s v text in
      rw h (record {
        commands_fit = a.commands_fit;
        commands = a.commands;
        responses_fit = a.responses_fit;
        responses = a.responses;
      })

  Outcome-ne-panic : Outcome config now s r → r.0 ≢ panic
  Outcome-ne-panic (failed e h) p = cc
  Outcome-ne-panic (connected n who free h) p = cc
  Outcome-ne-panic (disconnected n who there h) p = cc
  Outcome-ne-panic (commanded command who check h) p = cc
  Outcome-ne-panic (answered response who text there h) p = cc
  Outcome-ne-panic (answered_unsigned response text h) p = cc

  Outcome-atomic : Outcome config now s r → (e : DispatchError Error) → r.0 ≡ err e → r.1 ≡ s
  Outcome-atomic (failed e' h) e p = cc
  Outcome-atomic (connected n who free h) e p = cc
  Outcome-atomic (disconnected n who there h) e p = cc
  Outcome-atomic (commanded command who check h) e p = cc
  Outcome-atomic (answered response who text there h) e p = cc
  Outcome-atomic (answered_unsigned response text h) e p = cc

module _ (frame : Frame) (config : Config) where
  -- A call whose response argument, if it has one, is UTF-8 keeps the bounds on the commands and
  -- the responses, whether it succeeds or fails.
  pub dispatch-IsBounded :
      (now : BlockNumber) (origin : frame.Origin) (call : Call) (s : Storage)
      → HasText call
      → IsBounded config s
      → IsBounded config (dispatch frame config now origin call s).1
  dispatch-IsBounded now origin call s text v =
      Outcome-IsBounded (dispatch-Outcome frame config now origin s call text) v

  -- A call whose response argument, if it has one, is UTF-8 does not panic: the `unwrap` in
  -- `add_response` is safe.
  pub dispatch_text-ne-panic :
      (now : BlockNumber) (origin : frame.Origin) (call : Call) (s : Storage)
      → HasText call
      → (dispatch frame config now origin call s).0 ≢ panic
  dispatch_text-ne-panic now origin call s text =
      Outcome-ne-panic (dispatch-Outcome frame config now origin s call text)

  -- A call that returns an error has changed nothing.
  pub dispatch_text_atomic :
      (now : BlockNumber) (origin : frame.Origin) (call : Call) (s : Storage)
      (e : DispatchError Error)
      → HasText call
      → (dispatch frame config now origin call s).0 ≡ err e
      → (dispatch frame config now origin call s).1 ≡ s
  dispatch_text_atomic now origin call s e text =
      Outcome-atomic (dispatch-Outcome frame config now origin s call text) e

  -- From a storage within the bounds, any sequence of extrinsics, failing or not, stays within
  -- them.
  pub run-IsBounded :
      (xs : List (Extrinsic frame)) (s : Storage)
      → All (λ x. HasText x.call) xs
      → IsBounded config s
      → IsBounded config (run frame config xs s)
  unfolding run
  run-IsBounded [] s texts v = v
  run-IsBounded (x ∷ xs) s texts v =
      run-IsBounded xs (dispatch frame config x.block x.origin x.call s).1 texts.1
        (dispatch-IsBounded x.block x.origin x.call s texts.0 v)
