-- ===== src/Examples/Keys.antt =====
-- What the off-chain workers of the two pallets do on the node of the examples, which has generated
-- one key.
use cyborg_chain.Node.Action.{◌>>=◌}
use cyborg_chain.Prelude.{
  ascii, lookup, insert, ok, ◌≡◌, ◌↔◌, refl, Bool, true, none, some, [], ◌∷◌,
}
use cyborg_chain.Node.Keys.{has_key, keystore, edge_worker_is_idle, seeded_worker_reports}
use cyborg_chain.Node.Service.{
  emit, open_telemetry, spawn_telemetry, partial_from, new_partial, start_offchain_workers,
  start_authoring, start_voting, full_from, prepared, new_full,
}
use cyborg_chain.Examples.Outside.{host, client, json, signer, mutate}
use cyborg_chain.Examples.Storages.{ip, one_worker, the_worker}
use cyborg_chain.Examples.Service.{libs, config, features, start}
use cyborg_chain.Runtime.Constants.{edge_config}
use cyborg_chain.EdgeConnect.Choose.{absent}
use cyborg_chain.EdgeConnect.Offchain as EdgeOffchain
use cyborg_chain.Runtime.Compose.{genesis}
use cyborg_chain.WorkerRegistration
use cyborg_chain.WorkerRegistration.Dispatch as WorkerCalls
use cyborg_chain.WorkerRegistration.Pinging.{SaysDeployed}
use cyborg_chain.WorkerRegistration.Offchain as WorkerOffchain

keystore_test : keystore libs features config ≡ ascii "ping" ∷ []
unfolding new_full prepared new_partial open_telemetry spawn_telemetry partial_from full_from
    start_offchain_workers start_authoring start_voting emit ◌>>=◌
keystore_test = refl

-- A signer over the keystore of the node.
abbrev edge_signer : EdgeOffchain.Signer
edge_signer = record signer { can_sign = has_key (ascii "edge") (keystore libs features config) }

edge_worker_is_idle_example :
    EdgeOffchain.offchain_worker edge_config
      (client (ascii "block"))
      edge_signer
      (mutate absent)
      7
      genesis.edge
    ≡ EdgeOffchain.nothing_sent none
edge_worker_is_idle_example =
    edge_worker_is_idle libs features config edge_config (client (ascii "block")) edge_signer
      (mutate absent) 7 genesis.edge refl

start_is_ok : start.0 ≡ ok tt
unfolding new_full prepared new_partial open_telemetry spawn_telemetry partial_from full_from
    start_offchain_workers start_authoring start_voting emit ◌>>=◌
start_is_ok = refl

abbrev request : WorkerRegistration.IndexingData
request = record { label = ascii "registered_cluster_ping"; id = 0 }

request_found : WorkerOffchain.ping_data host 1 one_worker ≡ some request
unfolding WorkerOffchain.ping_data WorkerOffchain.read WorkerRegistration.derived_key
    WorkerCalls.run WorkerCalls.dispatch WorkerRegistration.worker_register insert lookup
request_found = refl

cluster_known : lookup 0 one_worker.worker_clusters ≡ some the_worker
unfolding WorkerCalls.run WorkerCalls.dispatch WorkerRegistration.worker_register
    WorkerRegistration.derived_key insert lookup
cluster_known = refl

seeded_worker_reports_example :
    (status : Bool) × ((status ≡ true) ↔ SaysDeployed (client (ascii "{}")) json ip 80)
    × (WorkerOffchain.offchain_worker host
          (client (ascii "{}"))
          json
          (has_key (ascii "ping") (keystore libs features config))
          1
          one_worker
        ≡ some (WorkerCalls.verify_connection 0 status))
seeded_worker_reports_example =
    seeded_worker_reports libs features config host (client (ascii "{}")) json 1 one_worker request
      the_worker start_is_ok refl refl request_found cluster_known
