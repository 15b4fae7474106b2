-- ===== src/WorkerRegistration/Pinging.antt =====
-- From a registration to the report of its status: the path through the off-chain worker of
-- pallets/worker-registration/src/lib.rs.
use cyborg_chain.Prelude.{
  Bytes, ascii, bytes_eq_refl, length, lookup-insert_self, ok, ℕ, ◌<◌, ◌≡◌, ◌↔◌, ap, ◌++◌, Bool,
  true, some, arith,
}
use cyborg_chain.Text.{is_utf8, to_string}
use cyborg_chain.Frame.{AccountId, BlockNumber, Frame}
use cyborg_chain.Http.{Waited, answered, Client, Fetch, fetched, error}
use cyborg_chain.WorkerRegistration.{
  string_ip, Ip, IndexingData, Storage, Host, derived_key, worker_register,
}
use cyborg_chain.WorkerRegistration.Register.{
  new_worker, with_worker, worker_register-ok, worker_register-ok_inv,
}
use cyborg_chain.WorkerRegistration.Offchain.{
  Json, VerifyClusterJsonResponse, cluster_url, http_call, fetch_cluster_status, or_not_deployed,
  ping_data, offchain_worker,
}
use cyborg_chain.WorkerRegistration.Dispatch.{Call}

-- A body that `http_call` returns is that of an answer with code 200 to a request for the
-- cluster's URL within the deadline, is well-formed UTF-8, and is not empty.
http_call_fetched :
    (client : Client) (ip : Ip) (port : ℕ) (route body : Bytes)
    → http_call client ip port route ≡ fetched body
    → (request : ℕ → Waited) × (client.get (cluster_url ip port route) (client.deadline 3000)
        ≡ some request)
      × (request (client.deadline 3000) ≡ answered (record { code = 200; body = body }))
      × (is_utf8 body ≡ true)
      × (0 < length body)
unfolding http_call
http_call_fetched client ip port route body h = ground arith

ping_data_after :
    (host : Host) (now : BlockNumber) (creator : AccountId) (name : Bytes) (ip : Ip) (port : ℕ)
    (s : Storage)
    → ping_data host now (with_worker host now creator name ip port s)
      ≡ some (record { label = ascii "registered_cluster_ping"; id = s.next_cluster_id })
unfolding ping_data
ping_data_after host now creator name ip port s =
    let key = derived_key host now (ascii "ping") in
    let d : IndexingData = record {
      label = ascii "registered_cluster_ping";
      id = s.next_cluster_id;
    } in
    ground (arith, bytes_eq_refl key, host.decode-encode_data d)

-- What the cluster at an address says of itself.
abbrev pub own_status : Client → Json → Ip → ℕ → Bool
own_status client json ip port =
    (or_not_deployed (fetch_cluster_status client json ip port)).deployment_status

-- A cluster says that it is deployed: a request for its route "cluster-status" can be sent, and is
-- answered within the deadline of 3000 milliseconds, with code 200 and a text that is UTF-8, not
-- empty, and JSON whose `deployment_status` is true.
pub record SaysDeployed (client : Client) (json : Json) (ip : Ip) (port : ℕ) : Type 0 where
  pub request : ℕ → Waited
  pub body : Bytes
  pub is_sent :
      client.get
        (ascii "http://"
          ++ (string_ip ip ++ (ascii ":" ++ (to_string port ++ ascii "/cluster-status"))))
        (client.deadline 3000)
      ≡ some request
  pub in_time : request (client.deadline 3000) ≡ answered (record { code = 200; body = body })
  pub text : is_utf8 body ≡ true
  pub not_empty : 0 < length body
  pub says : json body ≡ some (record { deployment_status = true })

fetch_cluster_status_fetched :
    (client : Client) (json : Json) (ip : Ip) (port : ℕ) (r : VerifyClusterJsonResponse)
    → fetch_cluster_status client json ip port ≡ fetched r
    → (body : Bytes) × (http_call client ip port (ascii "cluster-status") ≡ fetched body)
      × (json body ≡ some r)
unfolding fetch_cluster_status
fetch_cluster_status_fetched client json ip port r h = ground arith

fetched_of_true :
    (f : Fetch VerifyClusterJsonResponse)
    → (or_not_deployed f).deployment_status ≡ true
    → f ≡ fetched (record { deployment_status = true })
fetched_of_true (fetched r) h = ground arith
fetched_of_true (error e) h = cc

fetch_cluster_status-deployed :
    (client : Client) (json : Json) (ip : Ip) (port : ℕ)
    → SaysDeployed client json ip port
    → fetch_cluster_status client json ip port ≡ fetched (record { deployment_status = true })
unfolding fetch_cluster_status http_call
fetch_cluster_status-deployed client json ip port d =
    rw (d.is_sent, d.in_time) (ground (arith, d.text, d.not_empty, d.says))

-- The status is "deployed" exactly if the cluster says so: every error counts as "not deployed".
pub own_status_iff :
    (client : Client) (json : Json) (ip : Ip) (port : ℕ)
    → (own_status client json ip port ≡ true) ↔ SaysDeployed client json ip port
own_status_iff client json ip port = (
  λ h.
      let deployed = fetched_of_true (fetch_cluster_status client json ip port) h in
      let (body, answer, says) = fetch_cluster_status_fetched client json ip port _ deployed in
      let (request, is_sent, in_time, text, not_empty) =
        http_call_fetched client ip port (ascii "cluster-status") body answer in
      record {
        request = request;
        body = body;
        is_sent = is_sent;
        in_time = in_time;
        text = text;
        not_empty = not_empty;
        says = says;
      },
  λ d.
      ap (λ f. (or_not_deployed f).deployment_status)
        (fetch_cluster_status-deployed client json ip port d),
)

module _ (frame : Frame) (host : Host) (client : Client) (json : Json) (now : BlockNumber) where
  offchain_worker_after :
      (creator : AccountId) (name : Bytes) (ip : Ip) (port : ℕ) (s : Storage)
      → offchain_worker host client json true now (with_worker host now creator name ip port s)
        ≡ some (Call.verify_connection s.next_cluster_id (own_status client json ip port))
  unfolding offchain_worker
  offchain_worker_after creator name ip port s = rw (
    ping_data_after host now creator name ip port s,
    lookup-insert_self s.next_cluster_id (new_worker s.next_cluster_id creator now name ip port)
        s.worker_clusters,
  )

  -- Right after a registration in a block, the off-chain worker of that block asks the new cluster
  -- for its status, and submits a report with the cluster's id and that status.
  pub registration_is_pinged :
      (origin : frame.Origin) (name : Bytes) (ip : Ip) (port : ℕ) (s : Storage)
      → (worker_register frame host now origin name ip port s).0 ≡ ok tt
      → offchain_worker host client json true now
          (worker_register frame host now origin name ip port s).1
        ≡ some (Call.verify_connection s.next_cluster_id (own_status client json ip port))
  registration_is_pinged origin name ip port s h =
      let (creator, signed, check) =
        worker_register-ok_inv frame host now origin name ip port s h in
      rw (worker_register-ok frame host now origin name ip port s creator signed check)
        (offchain_worker_after creator name ip port s)
