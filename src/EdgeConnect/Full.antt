-- ===== src/EdgeConnect/Full.antt =====
-- What happens to the two bounded vectors of pallets/edge-connect/src/lib.rs once they are full.
use cyborg_chain.Prelude.{
  Bytes, length, All, Result, DispatchError, ◌≤◌, ◌<◌, ◌≡◌, refl, ◌∙◌, ◌⊎◌, some, List, [], ◌∷◌,
  arith,
}
use cyborg_chain.Frame.{AccountId, BlockNumber, Frame}
use cyborg_chain.EdgeConnect.{Config, Error, Storage}
use cyborg_chain.EdgeConnect.Invariant.{HasText, with_response}
use cyborg_chain.EdgeConnect.Outcome.{
  Outcome, failed, connected, disconnected, commanded, answered, answered_unsigned,
  dispatch-Outcome,
}
use cyborg_chain.EdgeConnect.Dispatch.{Extrinsic, dispatch, run}

module _ {config : Config} {now : BlockNumber} {s : Storage}
    {r : Result (DispatchError Error) (Unit {0}) × Storage} where
  Outcome-full_commands :
      Outcome config now s r → config.max_command ≤ length s.commands → r.1.commands ≡ s.commands
  Outcome-full_commands (failed e h) full = rw h refl
  Outcome-full_commands (connected n who free h) full = rw h refl
  Outcome-full_commands (disconnected n who there h) full = rw h refl
  Outcome-full_commands (commanded command who check h) full = absurd (ground arith)
  Outcome-full_commands (answered response who text there h) full = rw h (ground arith)
  Outcome-full_commands (answered_unsigned response text h) full = rw h (ground arith)

  Outcome-full_responses :
      Outcome config now s r
      → config.max_responses ≤ length s.responses
      → r.1.responses ≡ s.responses
  Outcome-full_responses (failed e h) full = rw h refl
  Outcome-full_responses (connected n who free h) full = rw h refl
  Outcome-full_responses (disconnected n who there h) full = rw h refl
  Outcome-full_responses (commanded command who check h) full = rw h refl
  Outcome-full_responses (answered response who text there h) full = rw h (ground arith)
  Outcome-full_responses (answered_unsigned response text h) full = rw h (ground arith)

module _ (frame : Frame) (config : Config) where
  -- Once the list of commands is full, no extrinsics whose texts are UTF-8 change it again: the
  -- first `max_command` commands stay, and every later one is lost.
  pub full_commands_stay :
      (xs : List (Extrinsic frame)) (s : Storage)
      → All (λ x. HasText x.call) xs
      → config.max_command ≤ length s.commands
      → (run frame config xs s).commands ≡ s.commands
  unfolding run
  full_commands_stay [] s texts full = refl
  full_commands_stay (x ∷ xs) s texts full =
      let o = dispatch-Outcome frame config x.block x.origin s x.call texts.0 in
      let same = Outcome-full_commands o full in
      full_commands_stay xs (dispatch frame config x.block x.origin x.call s).1 texts.1
        (rw same full)
      ∙ same

  -- Once the list of responses is full, no extrinsics whose texts are UTF-8 change it again: the
  -- first `max_responses` responses stay, and every later one is lost.
  pub full_responses_stay :
      (xs : List (Extrinsic frame)) (s : Storage)
      → All (λ x. HasText x.call) xs
      → config.max_responses ≤ length s.responses
      → (run frame config xs s).responses ≡ s.responses
  unfolding run
  full_responses_stay [] s texts full = refl
  full_responses_stay (x ∷ xs) s texts full =
      let o = dispatch-Outcome frame config x.block x.origin s x.call texts.0 in
      let same = Outcome-full_responses o full in
      full_responses_stay xs (dispatch frame config x.block x.origin x.call s).1 texts.1
        (rw same full)
      ∙ same

-- What a successful response leaves: itself with its sender and its event if it is within the
-- bound and the list has room, else nothing.
abbrev pub IsKept : Config → Bytes → Storage → AccountId → Storage → Type 0
IsKept config response s who after =
    ((length response ≤ config.max_string_length)
      × (length s.responses < config.max_responses)
      × (after ≡ with_response (some who) response s))
    ⊎ (((config.max_string_length < length response) ⊎ (config.max_responses ≤ length s.responses))
        × (after ≡ s))
