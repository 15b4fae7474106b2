-- ===== src/Examples/Slots.antt =====
-- The slots of the node of the examples, over the runtime of the examples.
use cyborg_chain.Prelude.{All, ok, ◌≡◌, refl, []}
use cyborg_chain.Node.Service.{new_full}
use cyborg_chain.Node.Slots.{InSlots, new_full-InSlots}
use cyborg_chain.Runtime.Api.{consensus_api}
use cyborg_chain.Examples.Api
use cyborg_chain.Examples.Service

asks :
    (c : Service.libs.Client)
    → Service.libs.aura_slot_duration c ≡ ok (consensus_api Api.libs).slot_duration
unfolding consensus_api
asks c = refl

new_full-InSlots_example :
    All
      (InSlots Service.libs Service.config)
      (new_full Service.libs Service.features Service.config []).1
new_full-InSlots_example =
    new_full-InSlots Service.libs Service.config Api.libs asks Service.features
