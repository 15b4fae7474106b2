-- ===== src/WorkerRegistration/Offchain.antt =====
-- The off-chain worker of pallets/worker-registration/src/lib.rs: it reads what the block's
-- registration has left for it, asks the cluster for its status and reports that on chain.
use cyborg_chain.Prelude.{
  ltb, ◌==◌, if◌then◌else◌, Bytes, ascii, bytes_eq, length, lookup, ℕ, Bool, false, Option, none,
  some, List, [], ◌∷◌, ◌++◌,
}
use cyborg_chain.Text.{to_string, is_utf8}
use cyborg_chain.Frame.{BlockNumber}
use cyborg_chain.Http.{
  unknown, Client, Fetch, fetched, error, ◌>>=◌, ◌>>◌, sent, waited, reject_unless,
}
use cyborg_chain.WorkerRegistration.{
  ClusterId, Ip, Worker, IndexingData, Storage, Host, string_ip, derived_key,
}
use cyborg_chain.WorkerRegistration.Dispatch.{Call}

pub record VerifyClusterJsonResponse : Type 0 where
  pub deployment_status : Bool

-- `serde_json::from_slice::<VerifyClusterJSONResponse>`, code of another library.
abbrev pub Json : Type 0
Json = Bytes → Option VerifyClusterJsonResponse

abbrev duration : ℕ
duration = 3000

abbrev pub cluster_url : Ip → ℕ → Bytes → Bytes
cluster_url ip port route =
    ascii "http://" ++ (string_ip ip ++ (ascii ":" ++ (to_string port ++ (ascii "/" ++ route))))

unfoldable pub http_call : Client → Ip → ℕ → Bytes → Fetch Bytes
http_call client ip port route = do
  let deadline : ℕ = client.deadline duration
  request ← sent (client.get (cluster_url ip port route) deadline)
  response ← waited (request deadline)
  reject_unless (response.code == 200)
  reject_unless (is_utf8 response.body)
  reject_unless (ltb 0 (length response.body))
  fetched response.body

abbrev or_unknown : Option VerifyClusterJsonResponse → Fetch VerifyClusterJsonResponse
or_unknown none = error unknown
or_unknown (some r) = fetched r

unfoldable pub fetch_cluster_status : Client → Json → Ip → ℕ → Fetch VerifyClusterJsonResponse
unfolding http_call
fetch_cluster_status client json ip port = do
  body ← http_call client ip port (ascii "cluster-status")
  or_unknown (json body)

-- `unwrap_or_else`: any error counts as "not deployed".
abbrev pub or_not_deployed : Fetch VerifyClusterJsonResponse → VerifyClusterJsonResponse
or_not_deployed (fetched r) = r
or_not_deployed (error e) = record { deployment_status = false }

-- The value under a key of the off-chain database: the last that was set.
unfoldable pub read : Bytes → List (Bytes × Bytes) → Option Bytes
read key [] = none
read key ((k, v) ∷ db) = if bytes_eq k key then some v else read key db

-- `oci_mem_ping.get::<IndexingData>()`, where only `Ok(Some(data))` is used.
unfoldable pub ping_data : Host → BlockNumber → Storage → Option IndexingData
unfolding read
ping_data host block_number s =
    elim (read (derived_key host block_number (ascii "ping")) s.indexed) [
      | none ↦ none
      | some bytes ↦ host.decode_data bytes
    ]

unfoldable pub report : Client → Json → ClusterId → Option Worker → Option Call
unfolding fetch_cluster_status
report client json id none = none
report client json id (some cluster) =
    let response = or_not_deployed (fetch_cluster_status client json cluster.ip cluster.port) in
    some (Call.verify_connection id response.deployment_status)

-- The call that the worker of a block hands to `send_signed_transaction`, if any. `can_sign` says
-- whether the keystore has an account; the block's storage is `s`.
unfoldable pub offchain_worker : Host → Client → Json → Bool → BlockNumber → Storage → Option Call
unfolding report
offchain_worker host client json can_sign block_number s =
    if can_sign
    then elim (ping_data host block_number s) [
      | none ↦ none
      | some data' ↦ report client json data'.id (lookup data'.id s.worker_clusters)
    ]
    else none
