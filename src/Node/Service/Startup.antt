-- ===== src/Node/Service/Startup.antt =====
-- The order in which `new_full` of node/src/service.rs starts the parts of a node.
use cyborg_chain.WorkerRegistration
use cyborg_chain.Prelude.{
  is_some, Bytes, ascii, Result, ok, err, panic, pure, ◌≡◌, refl, sym, ◌≢◌, Bool, true, false, not,
  Option, none, some, List, [], ◌∷◌, ◌++◌,
}
use cyborg_chain.Node.Service.{
  is_authority, Configuration, Libraries, Features, Effect, start_network, try, emit,
  PartialComponents, open_telemetry, spawn_telemetry, partial_from, new_partial, expect,
  start_offchain_workers, start_authoring, start_voting, full_from, prepared, new_full,
}
use cyborg_chain.Node.Service.Follows.{
  Label, background, essential, key, rpc, networking, only_if, Follows, completed, stopped, labels,
  FollowsAll, labels-emit, Follows-try, Follows-or_panic, Follows-emit, Follows-pure, Follows-bind,
  Follows-if,
}
use mathlib.Core.List.{append-nil}
use cyborg_chain.Node.Action.{◌>>=◌, ◌>>◌, next}

abbrev pub telemetry_labels : Option (List Bytes) → List Label
telemetry_labels none = []
telemetry_labels (some []) = []
telemetry_labels (some (e ∷ es)) = background (ascii "telemetry") ∷ []

-- What a node with these settings starts, in order, before the network.
abbrev pub after_partial : Features → Configuration → List Label
after_partial features config =
    only_if config.offchain_worker_enabled (
      background (ascii "offchain-workers-runner")
      ∷ only_if features.ocw (key WorkerRegistration.key_type ∷ []))
    ++ (rpc
        ∷ (only_if (is_authority config.role) (essential (ascii "aura") ∷ [])
            ++ only_if (not config.disable_grandpa) (essential (ascii "grandpa-voter") ∷ [])))

abbrev pub before_network : Features → Configuration → List Label
before_network features config =
    telemetry_labels config.telemetry_endpoints ++ after_partial features config

abbrev opened_labels : {A : Type 0} → Option A → List Label
opened_labels o = only_if (is_some o) (background (ascii "telemetry") ∷ [])

module _ (libs : Libraries) where
  open libs use {Error, Telemetry, TelemetryWorker, Network, Sync, ProtocolName, Starter}

  Follows-spawn_telemetry :
      (o : Option (TelemetryWorker × Telemetry))
      → FollowsAll libs (spawn_telemetry libs o) (opened_labels o)
  unfolding spawn_telemetry
  Follows-spawn_telemetry none = Follows-pure libs none
  Follows-spawn_telemetry (some (worker, telemetry)) =
      Follows-bind libs _ _ (background (ascii "telemetry") ∷ []) [] (Follows-emit libs _)
        (λ u. Follows-pure libs (some telemetry))

  Follows-partial_from :
      (config : Configuration) (o : Option (TelemetryWorker × Telemetry)) (ls : List Label)
      → opened_labels o ≡ ls
      → FollowsAll libs (partial_from libs config o) ls
  unfolding partial_from
  Follows-partial_from config o ls e =
      rw (← e, ← append-nil (opened_labels o))
        (Follows-bind libs _ _ [] (opened_labels o ++ []) (Follows-try libs _) (λ parts.
          Follows-bind libs _ _ (opened_labels o) [] (Follows-spawn_telemetry o) (λ telemetry.
            Follows-bind libs _ _ [] [] (Follows-try libs _) (λ import.
              Follows-bind libs _ _ [] [] (Follows-try libs _) (λ slot_duration.
                Follows-bind libs _ _ [] [] (Follows-try libs _) (λ queue. Follows-pure libs _))))))

  follows_worker :
      (config : Configuration) (e : Bytes) (es : List Bytes) (r : Result Error TelemetryWorker)
      → FollowsAll libs
          ((try libs r >>= λ worker. pure (some (worker, libs.new_telemetry worker (e ∷ es))))
            >>= partial_from libs config)
          (background (ascii "telemetry") ∷ [])
  unfolding ◌>>=◌
  follows_worker config e es (ok worker) s =
      Follows-partial_from config (some (worker, libs.new_telemetry worker (e ∷ es))) _ refl s
  follows_worker config e es (err x) s =
      stopped [] (background (ascii "telemetry") ∷ []) (λ a. cc) refl
        (sym (append-nil (labels libs s)))
  follows_worker config e es panic s =
      stopped [] (background (ascii "telemetry") ∷ []) (λ a. cc) refl
        (sym (append-nil (labels libs s)))

  follows_opened :
      (config : Configuration) (o : Option (List Bytes))
      → FollowsAll libs (open_telemetry libs o >>= partial_from libs config) (telemetry_labels o)
  unfolding ◌>>=◌ open_telemetry
  follows_opened config none = Follows-partial_from config none [] refl
  follows_opened config (some []) = Follows-partial_from config none [] refl
  follows_opened config (some (e ∷ es)) = follows_worker config e es (libs.new_worker 16)

  pub Follows-new_partial :
      (config : Configuration)
      → FollowsAll libs (new_partial libs config) (telemetry_labels config.telemetry_endpoints)
  unfolding new_partial
  Follows-new_partial config = follows_opened config config.telemetry_endpoints

  Follows-expect : (b : Bool) → FollowsAll libs (expect libs b) []
  Follows-expect true s = Follows-pure libs tt s
  Follows-expect false s = Follows-or_panic libs none s

  Follows-start_offchain_workers :
      (features : Features) (config : Configuration) (parts : PartialComponents libs)
      (network : Network)
      → FollowsAll libs (start_offchain_workers libs features config parts network) (
          only_if config.offchain_worker_enabled (
            background (ascii "offchain-workers-runner")
            ∷ only_if features.ocw (key WorkerRegistration.key_type ∷ [])))
  unfolding start_offchain_workers
  Follows-start_offchain_workers features config parts network =
      Follows-if libs config.offchain_worker_enabled _ _ (
        Follows-bind libs _ _ (background (ascii "offchain-workers-runner") ∷ [])
          (only_if features.ocw (key WorkerRegistration.key_type ∷ [])) (Follows-emit libs _)
          (λ u. Follows-if libs features.ocw _ _ (
            Follows-bind libs _ _ [] (key WorkerRegistration.key_type ∷ []) (Follows-expect _)
              (λ v. Follows-emit libs _))))

  Follows-start_authoring :
      (config : Configuration) (parts : PartialComponents libs) (sync : Sync)
      → FollowsAll libs
          (start_authoring libs config parts sync)
          (only_if (is_authority config.role) (essential (ascii "aura") ∷ []))
  unfolding start_authoring
  Follows-start_authoring config parts sync = Follows-if libs (is_authority config.role) _ _ (
      Follows-bind libs _ _ [] (essential (ascii "aura") ∷ []) (Follows-try libs _)
        (λ slot_duration.
          Follows-bind libs _ _ [] (essential (ascii "aura") ∷ []) (Follows-try libs _)
            (λ aura. Follows-emit libs _)))

  Follows-start_voting :
      (config : Configuration) (parts : PartialComponents libs) (name : ProtocolName)
      (network : Network) (sync : Sync)
      → FollowsAll libs
          (start_voting libs config parts name network sync)
          (only_if (not config.disable_grandpa) (essential (ascii "grandpa-voter") ∷ []))
  unfolding start_voting
  Follows-start_voting config parts name network sync =
      Follows-if libs (not config.disable_grandpa) _ _ (
        Follows-bind libs _ _ [] (essential (ascii "grandpa-voter") ∷ []) (Follows-try libs _)
          (λ voter. Follows-emit libs _))

  follows_last :
      (config : Configuration) (parts : PartialComponents libs) (name : ProtocolName)
      (network : Network) (sync : Sync) (starter : Starter)
      → FollowsAll libs
          (start_voting libs config parts name network sync >> pure starter)
          (only_if (not config.disable_grandpa) (essential (ascii "grandpa-voter") ∷ []))
  follows_last config parts name network sync starter =
      rw
        (← append-nil
          (only_if (not config.disable_grandpa) (essential (ascii "grandpa-voter") ∷ [])))
        (Follows-bind libs _ _ _ [] (Follows-start_voting config parts name network sync)
          (λ u. Follows-pure libs starter))

  Follows-full_from :
      (features : Features) (config : Configuration) (parts : PartialComponents libs)
      → FollowsAll libs (full_from libs features config parts) (after_partial features config)
  unfolding full_from
  Follows-full_from features config parts =
      Follows-bind libs _ _ [] _ (Follows-or_panic libs _) (λ genesis.
        Follows-bind libs _ _ [] _ (Follows-try libs _) (λ built.
          Follows-bind libs _ _ _ _ (Follows-start_offchain_workers features config parts _) (λ u.
            Follows-bind libs _ _ [] _ (Follows-try libs _) (λ v.
              Follows-bind libs _ _ (rpc ∷ []) _ (Follows-emit libs _) (λ w.
                Follows-bind libs _ _ _ _ (Follows-start_authoring config parts _)
                  (λ x. follows_last config parts _ _ _ _))))))

  Follows-prepared :
      (features : Features) (config : Configuration)
      → FollowsAll libs (prepared libs features config) (before_network features config)
  unfolding prepared
  Follows-prepared features config =
      Follows-bind libs _ _ _ _ (Follows-new_partial config)
        (λ parts. Follows-full_from features config parts)

-- A start of a node: all of it, the network last; or a failure on the way, after a part of what
-- comes before the network.
pub data Startup {E : Type 0} (features : Features) (config : Configuration)
    (r : Result E (Unit {0})) (after : List Label) : Type 0 where
  started :
      r ≡ ok tt
      → after ≡ before_network features config ++ networking ∷ []
      → Startup features config r after
  failed :
      (done rest : List Label)
      → r ≢ ok tt
      → done ++ rest ≡ before_network features config
      → after ≡ done
      → Startup features config r after

module _ (libs : Libraries) (features : Features) (config : Configuration) where
  open libs use {Error, Starter}

  Startup-next :
      (r : Result Error Starter) (s : List (Effect libs))
      → Follows [] (before_network features config) r (labels libs s)
      → let (q, after) = next (λ starter. emit libs (start_network starter)) r s in
        Startup features config q (labels libs after)
  unfolding emit
  Startup-next (ok starter) s (completed a e h) =
      started refl (cc (h, labels-emit libs s (start_network starter)))
  Startup-next (ok starter) s (stopped done rest fails split h) = absurd (fails starter refl)
  Startup-next (err x) s (completed a e h) = absurd (cc)
  Startup-next (err x) s (stopped done rest fails split h) = failed done rest (cc) split h
  Startup-next panic s (completed a e h) = absurd (cc)
  Startup-next panic s (stopped done rest fails split h) = failed done rest (cc) split h

  -- A start that succeeds has started exactly what the settings ask for, in this order: telemetry
  -- if it has endpoints, the off-chain workers (and in a build with `ocw` a key of the type of worker-registration) if they are
  -- enabled, the RPC, authoring if the node is an authority, voting unless GRANDPA is disabled, and
  -- the network last. One that fails or panics has started some first part of that, and never the
  -- network.
  pub new_full-Startup :
      let (r, effects) = new_full libs features config [] in
      Startup features config r (labels libs effects)
  unfolding new_full ◌>>=◌
  new_full-Startup =
      Startup-next (prepared libs features config []).0 (prepared libs features config []).1
        (Follows-prepared libs features config [])
