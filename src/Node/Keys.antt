-- ===== src/Node/Keys.antt =====
-- The keystore that `new_full` of node/src/service.rs fills, and what the off-chain workers of the
-- two pallets do with it: pallets/worker-registration/src/lib.rs and pallets/edge-connect/src/lib.rs
-- ask for keys of different types.
use cyborg_chain.Prelude.{
  if◌then◌else◌, Bytes, ascii, bytes_eq, All, All-append, All-prefix, lookup, Result, ok, ◌≡◌, ◌↔◌,
  refl, ap, Bool, true, false, not, ◌&&◌, ◌||◌, Option, none, some, List, [], ◌∷◌, ◌++◌,
}
use cyborg_chain.Node.Service.{is_authority, Configuration, Libraries, Features, new_full}
use cyborg_chain.Node.Service.Follows.{
  Label, background, essential, key, rpc, networking, only_if, labels,
}
use cyborg_chain.Node.Service.Startup.{
  telemetry_labels, before_network, Startup, started, failed, new_full-Startup,
}
use mathlib.Core.List.{append-nil}
use cyborg_chain.EdgeConnect
use cyborg_chain.EdgeConnect.Offchain as EdgeOffchain
use cyborg_chain.EdgeConnect.Choose as EdgeChoose
use cyborg_chain.Frame.{BlockNumber}
use cyborg_chain.Http.{Client}
use cyborg_chain.WorkerRegistration
use cyborg_chain.WorkerRegistration.Dispatch.{verify_connection}
use cyborg_chain.WorkerRegistration.Pinging.{SaysDeployed, own_status, own_status_iff}
use cyborg_chain.WorkerRegistration.Offchain as WorkerOffchain

-- The types of the keys that a start has generated.
abbrev pub key_types : List Label → List Bytes
key_types [] = []
key_types (key t ∷ ls) = t ∷ key_types ls
key_types (_ ∷ ls) = key_types ls

-- `Signer::can_sign()` on a keystore with keys of these types: whether there is one of the pallet's.
abbrev pub has_key : Bytes → List Bytes → Bool
has_key t [] = false
has_key t (k ∷ ks) = bytes_eq k t || has_key t ks

key_types-append : (ls ks : List Label) → key_types (ls ++ ks) ≡ key_types ls ++ key_types ks
key_types-append [] ks = refl
key_types-append (key t ∷ ls) ks = ap (λ (ts : List Bytes). t ∷ ts) (key_types-append ls ks)
key_types-append (background n ∷ ls) ks = key_types-append ls ks
key_types-append (essential n ∷ ls) ks = key_types-append ls ks
key_types-append (rpc ∷ ls) ks = key_types-append ls ks
key_types-append (networking ∷ ls) ks = key_types-append ls ks

telemetry_has_no_key : (o : Option (List Bytes)) → key_types (telemetry_labels o) ≡ []
telemetry_has_no_key none = refl
telemetry_has_no_key (some []) = refl
telemetry_has_no_key (some (e ∷ es)) = refl

task_has_no_key : (b : Bool) (n : Bytes) → key_types (only_if b (essential n ∷ [])) ≡ []
task_has_no_key true n = refl
task_has_no_key false n = refl

abbrev seeded : Bool → Bool → List Bytes
seeded enabled ocw = if enabled && ocw then WorkerRegistration.key_type ∷ [] else []

offchain_key :
    (enabled ocw : Bool) (n : Bytes)
    → key_types
        (only_if enabled (background n ∷ only_if ocw (key WorkerRegistration.key_type ∷ [])))
      ≡ seeded enabled ocw
offchain_key true true n = refl
offchain_key true false n = refl
offchain_key false ocw n = refl

only_these :
    (a b c d : List Label) (k : List Bytes)
    → key_types a ≡ []
    → key_types b ≡ k
    → key_types c ≡ []
    → key_types d ≡ []
    → key_types (a ++ (b ++ (rpc ∷ (c ++ d)))) ≡ k
only_these a b c d k ha hb hc hd =
    rw (key_types-append a (b ++ (rpc ∷ (c ++ d))), key_types-append b (rpc ∷ (c ++ d)))
      (rw (key_types-append c d) (rw (ha, hb, hc, hd) (append-nil k)))

start_key_types :
    (features : Features) (config : Configuration)
    → key_types (before_network features config)
      ≡ seeded config.offchain_worker_enabled features.ocw
start_key_types features config =
    only_these (telemetry_labels config.telemetry_endpoints)
      (only_if config.offchain_worker_enabled (
        background (ascii "offchain-workers-runner")
        ∷ only_if features.ocw (key WorkerRegistration.key_type ∷ [])))
      (only_if (is_authority config.role) (essential (ascii "aura") ∷ []))
      (only_if (not config.disable_grandpa) (essential (ascii "grandpa-voter") ∷ []))
      (seeded config.offchain_worker_enabled features.ocw)
      (telemetry_has_no_key config.telemetry_endpoints)
      (offchain_key config.offchain_worker_enabled features.ocw (ascii "offchain-workers-runner"))
      (task_has_no_key (is_authority config.role) (ascii "aura"))
      (task_has_no_key (not config.disable_grandpa) (ascii "grandpa-voter"))

-- Every generated key is of the type of worker-registration.
abbrev AllSeeded : List Bytes → Type 0
AllSeeded = All (λ t. t ≡ WorkerRegistration.key_type)

seeded-AllSeeded : (enabled ocw : Bool) → AllSeeded (seeded enabled ocw)
seeded-AllSeeded true true = (refl, tt)
seeded-AllSeeded true false = tt
seeded-AllSeeded false ocw = tt

Startup-AllSeeded :
    {E : Type 0} (features : Features) (config : Configuration) {r : Result E (Unit {0})}
    {after : List Label}
    → Startup features config r after
    → AllSeeded (key_types after)
Startup-AllSeeded features config (started e h) =
    rw (h, key_types-append (before_network features config) (networking ∷ []))
      (rw (start_key_types features config) (
        All-append _ (seeded config.offchain_worker_enabled features.ocw) []
          (seeded-AllSeeded config.offchain_worker_enabled features.ocw) tt))
Startup-AllSeeded features config (failed done rest fails split h) = rw h (
    All-prefix _ (key_types done) (key_types rest) (
      rw (← key_types-append done rest, split, start_key_types features config)
        (seeded-AllSeeded config.offchain_worker_enabled features.ocw)))

no_edge_key : (ks : List Bytes) → AllSeeded ks → has_key EdgeConnect.key_type ks ≡ false
no_edge_key [] h = refl
no_edge_key (k ∷ ks) h = rw (h.0) (no_edge_key ks h.1)

module _ (libs : Libraries) (features : Features) (config : Configuration) where
  -- The types of the keys in a keystore that was empty before the start.
  abbrev pub keystore : List Bytes
  keystore = key_types (labels libs (new_full libs features config []).1)

  -- With a keystore that holds just the keys that a start generates, the off-chain worker of
  -- edge-connect sends nothing: whatever the settings are and however the start ends, it generates
  -- no key of that pallet's type, and without one the worker returns before it chooses a
  -- transaction type, so that not even the raw unsigned transactions are sent, which need no key.
  -- (A key of the type that is in the keystore before the start, or that is inserted after it, lets
  -- the worker go on.)
  pub edge_worker_is_idle :
      (edge : EdgeConnect.Config) (client : Client) (signer : EdgeOffchain.Signer)
      (mutate : (EdgeChoose.Stored → Option BlockNumber) → EdgeChoose.Mutated)
      (block_number : BlockNumber) (s : EdgeConnect.Storage)
      → signer.can_sign ≡ has_key EdgeConnect.key_type keystore
      → EdgeOffchain.offchain_worker edge client signer mutate block_number s
        ≡ EdgeOffchain.nothing_sent none
  unfolding EdgeOffchain.offchain_worker
  edge_worker_is_idle edge client signer mutate block_number s h =
      let none_there =
        no_edge_key keystore
          (Startup-AllSeeded features config (new_full-Startup libs features config)) in
      rw (h, none_there) refl

  seeded_is_there :
      {E : Type 0} {r : Result E (Unit {0})} {after : List Label}
      → Startup features config r after
      → r ≡ ok tt
      → config.offchain_worker_enabled ≡ true
      → features.ocw ≡ true
      → has_key WorkerRegistration.key_type (key_types after) ≡ true
  seeded_is_there (started e h) is_ok enabled ocw =
      rw (h, key_types-append (before_network features config) (networking ∷ []))
        (rw (start_key_types features config) (rw (enabled, ocw) refl))
  seeded_is_there (failed done rest fails split h) is_ok enabled ocw = absurd (fails is_ok)

  -- On a node that has started with off-chain workers, in a build with the feature `ocw`, the
  -- off-chain worker of worker-registration can sign with the keys that the start has generated:
  -- if the index has a request for its block that names a known cluster, it calls
  -- `verify_connection` for that cluster, with the status "deployed" exactly if the cluster says so
  -- when it is asked, and "not deployed" after any error.
  pub seeded_worker_reports :
      (host : WorkerRegistration.Host) (client : Client) (json : WorkerOffchain.Json)
      (block_number : BlockNumber) (s : WorkerRegistration.Storage)
      (request : WorkerRegistration.IndexingData) (w : WorkerRegistration.Worker)
      → (new_full libs features config []).0 ≡ ok tt
      → config.offchain_worker_enabled ≡ true
      → features.ocw ≡ true
      → WorkerOffchain.ping_data host block_number s ≡ some request
      → lookup request.id s.worker_clusters ≡ some w
      → (status : Bool) × ((status ≡ true) ↔ SaysDeployed client json w.ip w.port)
        × (WorkerOffchain.offchain_worker host client json
              (has_key WorkerRegistration.key_type keystore)
              block_number
              s
            ≡ some (verify_connection request.id status))
  unfolding WorkerOffchain.offchain_worker WorkerOffchain.report
  seeded_worker_reports host client json block_number s request w is_ok enabled ocw found known =
      let there = seeded_is_there (new_full-Startup libs features config) is_ok enabled ocw in
      (
        own_status client json w.ip w.port,
        own_status_iff client json w.ip w.port,
        rw (there, found, known) refl,
      )
