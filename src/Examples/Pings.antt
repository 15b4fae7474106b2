-- ===== src/Examples/Pings.antt =====
-- The theorems on the off-chain worker of pallets/worker-registration/src/lib.rs at concrete
-- storages, with a cluster that answers every request.
use cyborg_chain.WorkerRegistration.Address.{string_ip_roundtrip}
use cyborg_chain.Prelude.{
  ascii, lookup, insert, ok, ◌≡◌, refl, ◌≢◌, ◌↔◌, Bool, true, Option, some, arith, map, ◌∷◌, [],
}
use cyborg_chain.Text.{to_string, join, is_utf8, parse_from, split}
use cyborg_chain.Frame.{AccountId}
use cyborg_chain.Http.{Client, fetched}
use cyborg_chain.WorkerRegistration.{Storage, string_ip, derived_key, worker_register}
use cyborg_chain.WorkerRegistration.Invariant.{genesis}
use cyborg_chain.WorkerRegistration.Register.{new_worker}
use cyborg_chain.WorkerRegistration.Offchain.{
  cluster_url, http_call, read, ping_data, offchain_worker,
}
use cyborg_chain.WorkerRegistration.Pinging.{SaysDeployed}
use cyborg_chain.WorkerRegistration.Reporting.{registration_is_reported}
use cyborg_chain.WorkerRegistration.SameBlock.{PingsIssued, second_registration_overwrites}
use cyborg_chain.Examples.Outside.{frame, host, client, json}
use cyborg_chain.Examples.Storages.{ip}
use cyborg_chain.WorkerRegistration.Dispatch.{Call, dispatch}

abbrev deployed : Client
deployed = client (ascii "{}")

pings_of_genesis : PingsIssued host genesis
unfolding ping_data read
pings_of_genesis m d h = cc

first_registers : (worker_register frame host 1 (some 7) (ascii "w") ip 80 genesis).0 ≡ ok tt
unfolding worker_register derived_key insert lookup
first_registers = refl

abbrev after_first : Storage
after_first = (worker_register frame host 1 (some 7) (ascii "w") ip 80 genesis).1

abbrev after_second : Storage
after_second = (worker_register frame host 1 (some 8) (ascii "v") ip 81 after_first).1

first_is : worker_register frame host 1 (some 7) (ascii "w") ip 80 genesis ≡ (ok tt, after_first)
unfolding worker_register derived_key insert lookup
first_is = refl

second_is :
    worker_register frame host 1 (some 8) (ascii "v") ip 81 after_first ≡ (ok tt, after_second)
unfolding worker_register derived_key insert lookup
second_is = refl

cluster_status_test : http_call deployed ip 80 (ascii "cluster-status") ≡ fetched (ascii "{}")
unfolding http_call is_utf8 string_ip join to_string
cluster_status_test = refl

cluster_url_test :
    cluster_url ip 80 (ascii "cluster-status") ≡ ascii "http://127.0.0.1:80/cluster-status"
unfolding string_ip join to_string
cluster_url_test = refl

second_registration_overwrites_example :
    offchain_worker host deployed json true 1 after_second ≢ some (Call.verify_connection 0 true)
second_registration_overwrites_example =
    second_registration_overwrites frame host deployed json 1 (some 7) (some 8) (ascii "w")
      (ascii "v") ip ip 80 81 genesis after_first after_second 1 true pings_of_genesis (omega arith)
      first_is second_is

registration_is_reported_example :
    (creator : AccountId) × (status : Bool) × (◌≡◌ {A = Option AccountId} (some 7) (some creator))
    × ((status ≡ true) ↔ SaysDeployed deployed json ip 80)
    × (offchain_worker host deployed json true 1 after_first
        ≡ some (Call.verify_connection 0 status))
    × ((dispatch frame host 2 (some 9) (Call.verify_connection 0 status) after_first).0 ≡ ok tt)
    × (lookup 0
          (dispatch frame host 2
            (some 9)
            (Call.verify_connection 0 status)
            after_first).1.worker_clusters
        ≡ some (record (new_worker 0 creator 1 (ascii "w") ip 80) { status = status }))
registration_is_reported_example =
    registration_is_reported frame host deployed json 1 2 (some 7) (some 9) 9 (ascii "w") ip 80
      genesis first_registers refl

string_ip_roundtrip_example : map (parse_from 0) (split 46 (string_ip ip)) ≡ 127 ∷ 0 ∷ 0 ∷ 1 ∷ []
string_ip_roundtrip_example =
    string_ip_roundtrip ip 46 127 (0 ∷ 0 ∷ 1 ∷ []) refl
      (omega arith, (omega arith, (omega arith, (omega arith, tt))))
