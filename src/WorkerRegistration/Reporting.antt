-- ===== src/WorkerRegistration/Reporting.antt =====
-- A registration and the report on it, as transactions of pallets/worker-registration/src/lib.rs:
-- the call that the off-chain worker submits, executed in a later block.
use cyborg_chain.Prelude.{
  Bytes, lookup, lookup-insert_self, ok, ℕ, ◌≡◌, ◌↔◌, refl, Bool, true, some, arith,
}
use cyborg_chain.Frame.{AccountId, BlockNumber, Frame}
use cyborg_chain.Http.{Client}
use cyborg_chain.WorkerRegistration.{ClusterId, Ip, Worker, Storage, Host, worker_register}
use cyborg_chain.WorkerRegistration.Register.{
  new_worker, with_worker, worker_register-ok, worker_register-ok_inv,
}
use cyborg_chain.WorkerRegistration.Verify.{set_status, lookup-with_status, verify_connection-ok}
use cyborg_chain.WorkerRegistration.Offchain.{Json, offchain_worker}
use cyborg_chain.WorkerRegistration.Pinging.{
  SaysDeployed, own_status, own_status_iff, registration_is_pinged,
}
use cyborg_chain.WorkerRegistration.Dispatch.{Call, dispatch}

module _ (frame : Frame) (host : Host) (client : Client) (json : Json)
    (now later : BlockNumber) where
  report_succeeds :
      (reporter : frame.Origin) (who : AccountId) (c : ClusterId) (w : Worker) (status : Bool)
      (s : Storage)
      → frame.ensure_signed reporter ≡ some who
      → lookup c s.worker_clusters ≡ some w
      → let (r, after) = dispatch frame host later reporter (Call.verify_connection c status) s in
        (r ≡ ok tt) × (lookup c after.worker_clusters ≡ some (set_status status w))
  unfolding dispatch
  report_succeeds reporter who c w status s by_who stored =
      rw (verify_connection-ok frame reporter c status s who w by_who stored)
        (refl, ground (arith, lookup-with_status c c w status s))

  -- On the storage right after a registration, with no other call in between: the off-chain worker
  -- of the block submits a report on the new cluster, and if some account signs it and it is
  -- executed on that storage in a later block, it succeeds, and the cluster's record is that of
  -- the registration with the reported status. The status is "deployed" exactly if the cluster
  -- says so when it is asked, and "not deployed" after any error.
  pub registration_is_reported :
      (origin reporter : frame.Origin) (who : AccountId) (name : Bytes) (ip : Ip) (port : ℕ)
      (s : Storage)
      → (worker_register frame host now origin name ip port s).0 ≡ ok tt
      → frame.ensure_signed reporter ≡ some who
      → let registered_storage = (worker_register frame host now origin name ip port s).1 in
        (creator : AccountId) × (status : Bool) × (frame.ensure_signed origin ≡ some creator)
        × ((status ≡ true) ↔ SaysDeployed client json ip port)
        × (offchain_worker host client json true now registered_storage
            ≡ some (Call.verify_connection s.next_cluster_id status))
        × ((dispatch frame host later reporter
              (Call.verify_connection s.next_cluster_id status)
              registered_storage).0
            ≡ ok tt)
        × (lookup s.next_cluster_id
              (dispatch frame host later reporter
                (Call.verify_connection s.next_cluster_id status)
                registered_storage).1.worker_clusters
            ≡ some (record (new_worker s.next_cluster_id creator now name ip port) {
              status = status;
            }))
  registration_is_reported origin reporter who name ip port s h by_who =
      let (creator, by_creator, check) =
        worker_register-ok_inv frame host now origin name ip port s h in
      let is = worker_register-ok frame host now origin name ip port s creator by_creator check in
      let w = new_worker s.next_cluster_id creator now name ip port in
      let stored = lookup-insert_self s.next_cluster_id w s.worker_clusters in
      let status = own_status client json ip port in
      let (succeeds, record_is) =
        report_succeeds reporter who s.next_cluster_id w status
          (with_worker host now creator name ip port s) by_who stored in
      (
        creator,
        status,
        by_creator,
        own_status_iff client json ip port,
        registration_is_pinged frame host client json now origin name ip port s h,
        rw is succeeds,
        rw is record_is,
      )
