-- ===== src/Node/Service/Tasks.antt =====
-- The tasks that `new_full` of node/src/service.rs hands to the task manager: from what they are
-- built, and with which settings.
use cyborg_chain.Prelude.{
  if◌then◌else◌, is_some, Bytes, All, All-snoc, Result, ok, err, panic, pure, or_panic, ◌≡◌, refl,
  Bool, true, false, not, Option, none, some, List, [], ◌∷◌, arith,
}
use cyborg_chain.Node.Service.{
  Role, full, authority, is_authority, Configuration, StartAuraParams, GrandpaParams, Libraries,
  Features, offchain_workers, authoring, voting, Effect, spawn, spawn_essential_blocking,
  generate_key, ServiceAction, try, emit, PartialComponents, open_telemetry, spawn_telemetry,
  partial_from, new_partial, expect, start_offchain_workers, start_authoring, start_voting,
  full_from, prepared, new_full,
}
use cyborg_chain.Node.Action.{◌>>=◌, next}

module _ (libs : Libraries) (config : Configuration) where
  open libs use {Error, Starter, Network, ProtocolName, Sync, TelemetryWorker, Telemetry, Keystore}

  -- What the settings allow a task to be.
  abbrev pub Allowed : Effect libs → Type 0
  Allowed (spawn name group (offchain_workers options)) =
      (config.offchain_worker_enabled ≡ true) × (options.is_validator ≡ is_authority config.role)
  Allowed (spawn_essential_blocking name group (authoring aura)) =
      (params : StartAuraParams libs.Client libs.SelectChain libs.BlockImport libs.Pool
        libs.Keystore libs.Sync libs.Telemetry)
      × (libs.start_aura params ≡ ok aura)
      × (config.role ≡ authority)
      × (params.force_authoring ≡ config.force_authoring)
      × (client : libs.Client) × (libs.aura_slot_duration client ≡ ok params.slot_duration)
  Allowed (spawn_essential_blocking name group (voting voter)) =
      (params : GrandpaParams libs.Link libs.Network libs.Sync libs.Pool libs.Keystore
        libs.ProtocolName libs.Telemetry)
      × (libs.run_grandpa_voter params ≡ ok voter)
      × (config.disable_grandpa ≡ false)
      × (is_some params.keystore ≡ is_authority config.role)
      × (params.local_role ≡ config.role)
  Allowed (generate_key key_type seed) = config.offchain_worker_enabled ≡ true
  Allowed _ = Unit

  abbrev Keeps : {A : Type 0} → ServiceAction libs A → Type 0
  Keeps m = (s : List (Effect libs)) → All Allowed s → All Allowed (m s).1

  Keeps-emit : (e : Effect libs) → Allowed e → Keeps (emit libs e)
  unfolding emit
  Keeps-emit e a s h = All-snoc Allowed s e h a

  Keeps-or_panic : {A : Type 0} (o : Option A) → Keeps (or_panic o)
  Keeps-or_panic (some a) s h = h
  Keeps-or_panic none s h = h

  Keeps-next :
      {A B : Type 0} (f : A → ServiceAction libs B) (r : Result Error A) (s : List (Effect libs))
      → All Allowed s
      → ((a : A) → r ≡ ok a → Keeps (f a))
      → All Allowed (next f r s).1
  Keeps-next f (ok a) s h hf = hf a refl s h
  Keeps-next f (err x) s h hf = h
  Keeps-next f panic s h hf = h

  Keeps-bind :
      {A B : Type 0} (m : ServiceAction libs A) (f : A → ServiceAction libs B)
      → Keeps m
      → ((a : A) → Keeps (f a))
      → Keeps (m >>= f)
  unfolding ◌>>=◌
  Keeps-bind m f hm hf s h = Keeps-next f (m s).0 (m s).1 (hm s h) (λ a e. hf a)

  -- A call of a library, whose result is known in what follows.
  Keeps-try :
      {A B : Type 0} (r : Result Error A) (f : A → ServiceAction libs B)
      → ((a : A) → r ≡ ok a → Keeps (f a))
      → Keeps (try libs r >>= f)
  unfolding ◌>>=◌
  Keeps-try r f hf s h = Keeps-next f r s h hf

  Keeps-if :
      (b : Bool) (m : ServiceAction libs (Unit {0}))
      → (b ≡ true → Keeps m)
      → Keeps (if b then m else pure tt)
  Keeps-if true m h s k = h refl s k
  Keeps-if false m h s k = k

  Keeps-expect : (b : Bool) → Keeps (expect libs b)
  Keeps-expect true s h = h
  Keeps-expect false s h = h

  Keeps-open_telemetry : (o : Option (List Bytes)) → Keeps (open_telemetry libs o)
  unfolding open_telemetry
  Keeps-open_telemetry none s h = h
  Keeps-open_telemetry (some []) s h = h
  Keeps-open_telemetry (some (e ∷ es)) s h = Keeps-try _ _ (λ w e s h. h) s h

  Keeps-spawn_telemetry :
      (o : Option (TelemetryWorker × Telemetry)) → Keeps (spawn_telemetry libs o)
  unfolding spawn_telemetry
  Keeps-spawn_telemetry none s h = h
  Keeps-spawn_telemetry (some (worker, telemetry)) s h =
      Keeps-bind _ _ (Keeps-emit _ tt) (λ u s h. h) s h

  Keeps-new_partial : Keeps (new_partial libs config)
  unfolding new_partial partial_from
  Keeps-new_partial = Keeps-bind _ _ (Keeps-open_telemetry config.telemetry_endpoints) (λ opened.
      Keeps-try _ _ (λ parts e. Keeps-bind _ _ (Keeps-spawn_telemetry opened) (λ telemetry.
        Keeps-try _ _ (λ import e. Keeps-try _ _ (λ n e. Keeps-try _ _ (λ q e s h. h))))))

  Keeps-start_offchain_workers :
      (features : Features) (parts : PartialComponents libs) (network : Network)
      → Keeps (start_offchain_workers libs features config parts network)
  unfolding start_offchain_workers
  Keeps-start_offchain_workers features parts network =
      Keeps-if config.offchain_worker_enabled _ (λ enabled.
        Keeps-bind _ _ (Keeps-emit _ (enabled, refl)) (λ u.
          Keeps-if features.ocw _
            (λ e. Keeps-bind _ _ (Keeps-expect _) (λ v. Keeps-emit _ enabled))))

  is_authority_sound : (r : Role) → is_authority r ≡ true → r ≡ authority
  is_authority_sound authority h = refl
  is_authority_sound full h = cc

  Keeps-start_authoring :
      (parts : PartialComponents libs) (sync : Sync)
      → Keeps (start_authoring libs config parts sync)
  unfolding start_authoring
  Keeps-start_authoring parts sync = Keeps-if (is_authority config.role) _ (λ is.
      Keeps-try _ _ (λ n answered. Keeps-try _ _ (λ aura built.
        Keeps-emit _ (_, built, is_authority_sound config.role is, refl, parts.client, answered))))

  is_some-if : (b : Bool) (k : Keystore) → is_some (if b then some k else none) ≡ b
  is_some-if true k = refl
  is_some-if false k = refl

  Keeps-start_voting :
      (parts : PartialComponents libs) (name : ProtocolName) (network : Network) (sync : Sync)
      → Keeps (start_voting libs config parts name network sync)
  unfolding start_voting
  Keeps-start_voting parts name network sync = Keeps-if (not config.disable_grandpa) _ (λ enabled.
      Keeps-try _ _ (λ voter built.
        Keeps-emit _
          (_, built, ground arith, is_some-if (is_authority config.role) parts.keystore, refl)))

  Keeps-full_from :
      (features : Features) (parts : PartialComponents libs)
      → Keeps (full_from libs features config parts)
  unfolding full_from
  Keeps-full_from features parts = Keeps-bind _ _ (Keeps-or_panic _) (λ genesis.
      Keeps-try _ _ (λ built e. Keeps-bind _ _ (Keeps-start_offchain_workers features parts _) (λ u.
        Keeps-try _ _ (λ v e. Keeps-bind _ _ (Keeps-emit _ tt) (λ w.
          Keeps-bind _ _ (Keeps-start_authoring parts _)
            (λ x. Keeps-bind _ _ (Keeps-start_voting parts _ _ _) (λ y s h. h)))))))

  -- Whether the start succeeds or fails: only an authority authors blocks, and only an authority
  -- hands its keystore to the voter; there is a voter only if GRANDPA is not disabled; off-chain
  -- workers run, and their key is made, only if they are enabled, and they know whether the node
  -- is an authority; authoring is forced only if the settings say so, and its slots have the duration
  -- that the runtime answers.
  pub new_full-Allowed : (features : Features) → All Allowed (new_full libs features config []).1
  unfolding new_full prepared
  new_full-Allowed features =
      Keeps-bind _ _ (Keeps-bind _ _ Keeps-new_partial (λ parts. Keeps-full_from features parts))
        (λ starter. Keeps-emit _ tt) [] tt
