-- ===== src/Node/Service/Success.antt =====
-- A start of a node by `new_full` of node/src/service.rs where no call of a library fails.
use cyborg_chain.Prelude.{
  Bytes, Result, ok, ℕ, ◌≡◌, refl, Bool, true, false, not, Option, none, some, List, [], ◌∷◌, ◌++◌,
}
use cyborg_chain.Node.Service.Follows.{Label, networking, labels}
use cyborg_chain.Node.Service.Startup.{before_network, Startup, started, failed, new_full-Startup}
use cyborg_chain.Node.Service.{
  is_authority, Configuration, StartAuraParams, GrandpaParams, Libraries, Features, Effect, emit,
  PartialComponents, open_telemetry, spawn_telemetry, partial_from, new_partial, expect, seed_key,
  start_offchain_workers, start_authoring, start_voting, full_from, prepared, new_full,
}
use cyborg_chain.Node.Action.Succeeds.{
  Succeeds, Succeeds-try, Succeeds-bind, Succeeds-or_panic, Succeeds-if,
}

-- No call of a library fails.
pub record Works (libs : Libraries) : Type 0 where
  pub worker : (n : ℕ) → (w : libs.TelemetryWorker) × (libs.new_worker n ≡ ok w)
  pub full_parts :
      (c : Configuration) (t : Option libs.Telemetry) (e : libs.Executor)
      → (p : libs.Client × libs.Backend × libs.Keystore) × (libs.new_full_parts c t e ≡ ok p)
  pub import :
      (c : libs.Client) (s : libs.SelectChain) (t : Option libs.Telemetry)
      → (p : libs.BlockImport × libs.Link) × (libs.grandpa_block_import c s t ≡ ok p)
  pub slot_duration : (c : libs.Client) → (n : ℕ) × (libs.aura_slot_duration c ≡ ok n)
  pub queue :
      (b : libs.BlockImport) (j : Option libs.BlockImport) (c : libs.Client) (n : ℕ)
      (t : Option libs.Telemetry)
      → (q : libs.ImportQueue) × (libs.aura_import_queue b j c n t ≡ ok q)
  pub genesis : (c : libs.Client) → (h : libs.Hash) × (libs.genesis_hash c ≡ some h)
  pub network :
      (c : Configuration) (n : libs.ProtocolName) (client : libs.Client) (p : libs.Pool)
      (q : libs.ImportQueue) (w : libs.WarpSync)
      → (b : libs.Network × libs.RpcChannel × libs.TxController × libs.Starter × libs.Sync)
        × (libs.build_network c n client p q w ≡ ok b)
  pub generated :
      (k : libs.Keystore) (key_type seed : Bytes) → libs.sr25519_generate_new k key_type seed ≡ true
  pub tasks :
      (c : Configuration) (n : libs.Network) (client : libs.Client) (k : libs.Keystore)
      (p : libs.Pool) (b : libs.Backend) (r : libs.RpcChannel) (x : libs.TxController)
      (s : libs.Sync) (t : Option libs.Telemetry)
      → libs.spawn_tasks c n client k p b r x s t ≡ ok tt
  pub aura :
      (p : StartAuraParams libs.Client libs.SelectChain libs.BlockImport libs.Pool libs.Keystore
        libs.Sync libs.Telemetry)
      → (a : libs.Aura) × (libs.start_aura p ≡ ok a)
  pub voter :
      (p : GrandpaParams libs.Link libs.Network libs.Sync libs.Pool libs.Keystore libs.ProtocolName
        libs.Telemetry)
      → (v : libs.Voter) × (libs.run_grandpa_voter p ≡ ok v)

started_of :
    {E : Type 0} (features : Features) (config : Configuration) {r : Result E (Unit {0})}
    {after : List Label}
    → Startup features config r after
    → (u : Unit {0}) × (r ≡ ok u)
    → (r ≡ ok tt) × (after ≡ before_network features config ++ networking ∷ [])
started_of features config (started e h) k = (e, h)
started_of features config (failed done rest fails split h) (u, k) = absurd (fails k)

module _ (libs : Libraries) where
  open libs use {Error, Starter}

  Succeeds-emit : (e : Effect libs) → Succeeds (emit libs e)
  unfolding emit
  Succeeds-emit e s = (tt, refl)

  Succeeds-expect : (b : Bool) → b ≡ true → Succeeds (expect libs b)
  Succeeds-expect true h s = (tt, refl)
  Succeeds-expect false h s = absurd (cc)

  module _ (works : Works libs) where
    Succeeds-open_telemetry : (o : Option (List Bytes)) → Succeeds (open_telemetry libs o)
    unfolding open_telemetry
    Succeeds-open_telemetry none s = (none, refl)
    Succeeds-open_telemetry (some []) s = (none, refl)
    Succeeds-open_telemetry (some (e ∷ es)) s =
        Succeeds-bind _ _ (Succeeds-try _ (works.worker 16)) (λ w s. (_, refl)) s

    Succeeds-spawn_telemetry :
        (o : Option (libs.TelemetryWorker × libs.Telemetry)) → Succeeds (spawn_telemetry libs o)
    unfolding spawn_telemetry
    Succeeds-spawn_telemetry none s = (none, refl)
    Succeeds-spawn_telemetry (some (worker, telemetry)) s =
        Succeeds-bind _ _ (Succeeds-emit _) (λ u s. (_, refl)) s

    pub Succeeds-new_partial : (config : Configuration) → Succeeds (new_partial libs config)
    unfolding new_partial partial_from
    Succeeds-new_partial config =
        Succeeds-bind _ _ (Succeeds-open_telemetry config.telemetry_endpoints) (λ opened.
          Succeeds-bind _ _ (Succeeds-try _ (works.full_parts _ _ _)) (λ parts.
            Succeeds-bind _ _ (Succeeds-spawn_telemetry opened) (λ telemetry.
              Succeeds-bind _ _ (Succeeds-try _ (works.import _ _ _)) (λ import.
                Succeeds-bind _ _ (Succeeds-try _ (works.slot_duration _)) (λ n.
                  Succeeds-bind _ _ (Succeeds-try _ (works.queue _ _ _ _ _)) (λ q s. (_, refl)))))))

    Succeeds-key : (features : Features) (k : libs.Keystore) → Succeeds (seed_key libs features k)
    Succeeds-key features k =
        Succeeds-if features.ocw _
          (Succeeds-bind _ _ (Succeeds-expect _ (works.generated k _ _)) (λ u. Succeeds-emit _))

    Succeeds-full_from :
        (features : Features) (config : Configuration) (parts : PartialComponents libs)
        → Succeeds (full_from libs features config parts)
    unfolding full_from start_offchain_workers start_authoring start_voting
    Succeeds-full_from features config parts =
        Succeeds-bind _ _ (Succeeds-or_panic _ (works.genesis _)) (λ genesis.
          Succeeds-bind _ _ (Succeeds-try _ (works.network _ _ _ _ _ _)) (λ built.
            Succeeds-bind _ _
              (Succeeds-if config.offchain_worker_enabled _
                (Succeeds-bind _ _ (Succeeds-emit _) (λ u. Succeeds-key features parts.keystore)))
              (λ u. Succeeds-bind _ _ (Succeeds-try _ (tt, works.tasks _ _ _ _ _ _ _ _ _ _)) (λ v.
                Succeeds-bind _ _ (Succeeds-emit _) (λ w.
                  Succeeds-bind _ _
                    (Succeeds-if (is_authority config.role) _ (
                      Succeeds-bind _ _ (Succeeds-try _ (works.slot_duration _)) (λ n.
                        Succeeds-bind _ _ (Succeeds-try _ (works.aura _)) (λ a. Succeeds-emit _))))
                    (λ x.
                      Succeeds-bind _ _
                        (Succeeds-if (not config.disable_grandpa) _ (
                          Succeeds-bind _ _ (Succeeds-try _ (works.voter _))
                            (λ a. Succeeds-emit _)))
                        (λ y s. (_, refl))))))))

    pub Succeeds-new_full :
        (features : Features) (config : Configuration) → Succeeds (new_full libs features config)
    unfolding new_full prepared
    Succeeds-new_full features config =
        Succeeds-bind _ _
          (Succeeds-bind _ _ (Succeeds-new_partial config)
            (λ parts. Succeeds-full_from features config parts))
          (λ starter. Succeeds-emit _)

    -- Where no call of a library fails, the node starts: all that its settings ask for, in their
    -- order, and the network last.
    pub new_full_starts :
        (features : Features) (config : Configuration)
        → let (r, effects) = new_full libs features config [] in
          (r ≡ ok tt) × (labels libs effects ≡ before_network features config ++ networking ∷ [])
    new_full_starts features config =
        started_of features config (new_full-Startup libs features config)
          (Succeeds-new_full features config [])
