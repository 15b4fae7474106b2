-- ===== src/Node/Command/Outcome.antt =====
-- How a run of node/src/command.rs can end: with a failure before any job, or with the result of one
-- job, the one that the subcommand asks for.
use cyborg_chain.Prelude.{
  if◌then◌else◌, ascii, All, All-snoc, All-map, All-append, Result, ok, err, panic, ◌≡◌, refl, ◌≢◌,
  Bool, true, false, Option, none, some, List, [], ◌∷◌, ◌++◌,
}
use cyborg_chain.Node.Action.{◌>>=◌, next}
use cyborg_chain.Node.Service.{Libraries, ServiceAction}
use cyborg_chain.Node.Service.Follows.{background, label}
use cyborg_chain.Node.Command.{
  Subcommand, Types, Runner, Job, CommandError, cli_error, service_error, CommandLine, Event,
  runner_created, service_effect, performed, CommandAction, map_err, cli, fail, in_service, created,
  new_runner, execute,
}

module _ (libs : Libraries) (types : Types) (line : CommandLine libs types) where
  -- An event that is not a job. A subcommand starts no part of the node but the telemetry's worker.
  abbrev pub Quiet : Option (Subcommand types.Cmd) → Event libs types line → Type 0
  Quiet sub (performed job) = ⊥
  Quiet sub runner_created = Unit
  Quiet none (service_effect e) = Unit
  Quiet (some sub) (service_effect e) = label libs e ≡ background (ascii "telemetry")

  module _ (sub : Option (Subcommand types.Cmd)) (Asked : Job libs types → Type 0) where
    pub data Outcome (r : Result (CommandError libs types) (Unit {0}))
        (events : List (Event libs types line)) : Type 0 where
      failed : ((a : Unit {0}) → r ≢ ok a) → All (Quiet sub) events → Outcome r events
      finished :
          (job : Job libs types) (before : List (Event libs types line))
          → Asked job
          → All (Quiet sub) before
          → events ≡ before ++ performed job ∷ []
          → r ≡ map_err libs types line cli_error (line.perform job)
          → Outcome r events

    -- An action with such an outcome, after events that are not jobs.
    abbrev pub Ends : CommandAction libs types line (Unit {0}) → Type 0
    Ends m = (s : List (Event libs types line)) → All (Quiet sub) s → Outcome (m s).0 (m s).1

    pub Ends-fail : (e : CommandError libs types) → Ends (fail libs types line e)
    Ends-fail e s h = failed (λ a. cc) h

    pub Ends-if :
        (b : Bool) (m n : CommandAction libs types line (Unit {0}))
        → (b ≡ true → Ends m)
        → (b ≡ false → Ends n)
        → Ends (if b then m else n)
    Ends-if true m n h k = h refl
    Ends-if false m n h k = k refl

    pub Ends-execute : (job : Job libs types) → Asked job → Ends (execute libs types line job)
    unfolding execute
    Ends-execute job asked s h = finished job s asked h refl refl

    Ends-next :
        {E A : Type 0} (wrap : E → CommandError libs types) (r : Result E A)
        (f : A → CommandAction libs types line (Unit {0})) (s : List (Event libs types line))
        → All (Quiet sub) s
        → ((a : A) → r ≡ ok a → Ends (f a))
        → let (r', s') = next f (map_err libs types line wrap r) s in Outcome r' s'
    Ends-next wrap (ok a) f s h hf = hf a refl s h
    Ends-next wrap (err e) f s h hf = failed (λ a. cc) h
    Ends-next wrap panic f s h hf = failed (λ a. cc) h

    pub Ends-cli :
        {A : Type 0} (r : Result types.CliError A)
        (f : A → CommandAction libs types line (Unit {0}))
        → ((a : A) → r ≡ ok a → Ends (f a))
        → Ends (cli libs types line r >>= f)
    unfolding ◌>>=◌
    Ends-cli r f hf s h = Ends-next cli_error r f s h hf

    Ends-created :
        (r : Result types.CliError (Runner types))
        (f : Runner types → CommandAction libs types line (Unit {0}))
        → ((runner : Runner types) → r ≡ ok runner → Ends (f runner))
        → Ends (created libs types line r >>= f)
    unfolding ◌>>=◌
    Ends-created (ok runner) f hf s h =
        hf runner refl _ (All-snoc (Quiet sub) s runner_created h tt)
    Ends-created (err e) f hf s h = failed (λ a. cc) h
    Ends-created panic f hf s h = failed (λ a. cc) h

    pub Ends-new_runner :
        (f : Runner types → CommandAction libs types line (Unit {0}))
        → ((runner : Runner types) → line.create_runner sub ≡ ok runner → Ends (f runner))
        → Ends (new_runner libs types line sub >>= f)
    Ends-new_runner f hf = Ends-created (line.create_runner sub) f hf

    pub Ends-in_service :
        {A : Type 0} (m : ServiceAction libs A) (f : A → CommandAction libs types line (Unit {0}))
        → All (λ e. Quiet sub (service_effect e)) (m []).1
        → ((a : A) → (m []).0 ≡ ok a → Ends (f a))
        → Ends (in_service libs types line m >>= f)
    unfolding ◌>>=◌ in_service
    Ends-in_service m f quiet hf s h =
        Ends-next service_error (m []).0 f _
          (All-append (Quiet sub) s _ h
            (All-map _ (Quiet sub) service_effect (λ e q. q) (m []).1 quiet))
          hf
