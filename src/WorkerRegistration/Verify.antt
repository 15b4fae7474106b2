-- ===== src/WorkerRegistration/Verify.antt =====
-- `verify_connection` of pallets/worker-registration/src/lib.rs, branch by branch.
use cyborg_chain.Prelude.{
  ◌==◌, if◌then◌else◌, lookup, insert, lookup-insert, ok, err, bad_origin, module_error, ◌≡◌, refl,
  Bool, none, some, [], ◌∷◌, ◌++◌, arith,
}
use cyborg_chain.Frame.{AccountId, Frame}
use cyborg_chain.WorkerRegistration.{
  ClusterId, Worker, connection_established, worker_cluster_not_registered, Storage,
  verify_connection,
}

abbrev pub set_status : Bool → Worker → Worker
set_status status w = record w { status = status }

-- The storage after a report on the cluster `c`, whose record was `w`: the closure's `insert`, and
-- the write of `try_mutate` over it.
abbrev pub with_status : ClusterId → Worker → Bool → Storage → Storage
with_status c w status s = record s {
  worker_clusters =
      insert c (set_status status w) (insert c (set_status status w) s.worker_clusters);
  events = s.events ++ connection_established c ∷ [];
}

pub lookup-with_status :
    (c d : ClusterId) (w : Worker) (status : Bool) (s : Storage)
    → lookup d (with_status c w status s).worker_clusters
      ≡ (if c == d then some (set_status status w) else lookup d s.worker_clusters)
lookup-with_status c d w status s = ground (
  arith,
  lookup-insert c d (set_status status w) (insert c (set_status status w) s.worker_clusters),
  lookup-insert c d (set_status status w) s.worker_clusters,
)

module _ (frame : Frame) (origin : frame.Origin) (c : ClusterId) (status : Bool) (s : Storage) where
  pub verify_connection-unsigned :
      frame.ensure_signed origin ≡ none
      → verify_connection frame origin c status s ≡ (err bad_origin, s)
  unfolding verify_connection
  verify_connection-unsigned h = ground arith

  pub verify_connection-unknown :
      (who : AccountId)
      → frame.ensure_signed origin ≡ some who
      → lookup c s.worker_clusters ≡ none
      → verify_connection frame origin c status s
        ≡ (err (module_error worker_cluster_not_registered), s)
  unfolding verify_connection
  verify_connection-unknown who signed h = ground arith

  pub verify_connection-ok :
      (who : AccountId) (w : Worker)
      → frame.ensure_signed origin ≡ some who
      → lookup c s.worker_clusters ≡ some w
      → verify_connection frame origin c status s ≡ (ok tt, with_status c w status s)
  unfolding verify_connection
  verify_connection-ok who w signed h = ground arith

  -- Any signed account may report on any registered cluster, whoever it is: the report sets the
  -- status of that cluster's record, and leaves the rest of it, the other clusters and the
  -- accounts as they are.
  pub verify_connection_reports :
      (who : AccountId) (w : Worker)
      → frame.ensure_signed origin ≡ some who
      → lookup c s.worker_clusters ≡ some w
      → (d : ClusterId)
      → let (r, after) = verify_connection frame origin c status s in
        (r ≡ ok tt)
        × (lookup d after.worker_clusters
            ≡ (if c == d then some (record w { status = status }) else lookup d s.worker_clusters))
        × (after.worker_accounts ≡ s.worker_accounts)
        × (after.tasks ≡ s.tasks)
  verify_connection_reports who w signed h d =
      rw (verify_connection-ok who w signed h) (refl, lookup-with_status c d w status s, refl, refl)
