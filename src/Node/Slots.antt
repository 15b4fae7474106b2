-- ===== src/Node/Slots.antt =====
-- The slots in which a node of node/src/service.rs authors blocks, which it asks the runtime for:
-- `slot_duration` of runtime/src/lib.rs.
use cyborg_chain.Prelude.{All, All-mono, ok, ◌≡◌, []}
use cyborg_chain.Node.Service.{
  Configuration, StartAuraParams, Libraries, Features, authoring, Effect, spawn,
  spawn_essential_blocking, generate_key, serve, start_network, new_full,
}
use cyborg_chain.Node.Service.Tasks.{Allowed, new_full-Allowed}
use cyborg_chain.Runtime.Constants.{millisecs_per_block}
use cyborg_chain.Runtime.Api.{ApiLibs, consensus_api, slot_duration_kept}

module _ (libs : Libraries) (config : Configuration) where
  -- A task that authors blocks does so in slots of the block time.
  abbrev pub InSlots : Effect libs → Type 0
  InSlots (spawn_essential_blocking name group (authoring aura)) =
      (params : StartAuraParams libs.Client libs.SelectChain libs.BlockImport libs.Pool
        libs.Keystore libs.Sync libs.Telemetry)
      × (libs.start_aura params ≡ ok aura)
      × (params.slot_duration ≡ millisecs_per_block)
  InSlots _ = Unit

  module _ (api : ApiLibs)
      (asks : (c : libs.Client)
        → libs.aura_slot_duration c ≡ ok (consensus_api api).slot_duration) where
    Allowed-InSlots : (e : Effect libs) → Allowed libs config e → InSlots e
    Allowed-InSlots (spawn name group task) h = tt
    Allowed-InSlots (spawn_essential_blocking name group (authoring aura)) h =
        let (params, built, is, forced, client, answered) = h in
        (params, built, cc (answered, asks client, slot_duration_kept api))
    Allowed-InSlots (spawn_essential_blocking name group task) h = tt
    Allowed-InSlots (generate_key t seed) h = tt
    Allowed-InSlots serve h = tt
    Allowed-InSlots (start_network starter) h = tt

    -- Where the client asks the runtime for the duration of a slot, every task of a start that
    -- authors blocks, however the start ends, is built for slots of `MILLISECS_PER_BLOCK`: the
    -- runtime halves the slot into the minimum period and Aura doubles that, and nothing is lost.
    pub new_full-InSlots : (features : Features) → All InSlots (new_full libs features config []).1
    new_full-InSlots features =
        All-mono (Allowed libs config) InSlots (new_full libs features config []).1 Allowed-InSlots
          (new_full-Allowed libs config features)
