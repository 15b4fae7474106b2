-- ===== src/WorkerRegistration/Register.antt =====
-- `worker_register` of pallets/worker-registration/src/lib.rs, branch by branch.
use cyborg_chain.Prelude.{
  ℕ, ◌+◌, ◌%◌, ◌≡◌, true, false, Option, none, some, ◌∷◌, [], ◌++◌, ◌||◌, ltb, is_some, u64_mod,
  Bytes, ascii, lookup, insert, ok, err, ◌<◌, ◌↔◌, ap, Result, DispatchError, bad_origin,
  module_error, arith, if◌then◌else◌,
}
use cyborg_chain.Frame.{Frame, AccountId, BlockNumber}
use cyborg_chain.WorkerRegistration.{
  ClusterId, Ip, Worker, worker_registered, Error, worker_register_missing_ip,
  worker_register_missing_port, cluster_exists, Storage, Host, derived_key, worker_register,
}

abbrev pub HasAddress : Ip → Type 0
HasAddress ip = (is_some ip.ipv4 || is_some ip.ipv6) ≡ true

abbrev pub new_worker : ClusterId → AccountId → BlockNumber → Bytes → Ip → ℕ → Worker
new_worker cid creator now name ip port = record {
  id = cid;
  account = creator;
  start_block = now;
  name = name;
  ip = ip;
  port = port;
  status = false;
}

-- The storage after a registration.
abbrev pub with_worker : Host → BlockNumber → AccountId → Bytes → Ip → ℕ → Storage → Storage
with_worker host now creator name ip port s = record s {
  worker_accounts = insert creator s.next_cluster_id s.worker_accounts;
  worker_clusters =
      insert s.next_cluster_id (new_worker s.next_cluster_id creator now name ip port)
        s.worker_clusters;
  next_cluster_id = (s.next_cluster_id + 1) % u64_mod;
  indexed =
      (
        derived_key host now (ascii "ping"),
        host.encode_data
            (record { label = ascii "registered_cluster_ping"; id = s.next_cluster_id }),
      )
      ∷ s.indexed;
  events = s.events ++ worker_registered creator ∷ [];
}

-- The error of a registration, by the first check that fails; `none` where all pass.
abbrev pub register_error : Option AccountId → Ip → ℕ → Storage → Option (DispatchError Error)
register_error none ip port s = some bad_origin
register_error (some creator) ip port s =
    if is_some ip.ipv4 || is_some ip.ipv6
    then if ltb 0 port
      then if is_some (lookup creator s.worker_accounts)
        then some (module_error cluster_exists)
        else none
      else some (module_error worker_register_missing_port)
    else some (module_error worker_register_missing_ip)

module _ (frame : Frame) (host : Host) (now : BlockNumber) (origin : frame.Origin) (name : Bytes)
    (ip : Ip) (port : ℕ) (s : Storage) where
  pub worker_register-err :
      (e : DispatchError Error)
      → register_error (frame.ensure_signed origin) ip port s ≡ some e
      → worker_register frame host now origin name ip port s ≡ (err e, s)
  unfolding worker_register
  worker_register-err e h = ground arith

  pub worker_register-ok :
      (creator : AccountId)
      → frame.ensure_signed origin ≡ some creator
      → register_error (some creator) ip port s ≡ none
      → worker_register frame host now origin name ip port s
        ≡ (ok tt, with_worker host now creator name ip port s)
  unfolding worker_register
  worker_register-ok creator signed h = ground arith

  pub worker_register-ok_inv :
      (worker_register frame host now origin name ip port s).0 ≡ ok tt
      → (creator : AccountId) × (frame.ensure_signed origin ≡ some creator)
        × (register_error (some creator) ip port s ≡ none)
  unfolding worker_register
  worker_register-ok_inv h = ground arith

  -- A registration succeeds exactly when it is signed, has an address and a port that is not 0,
  -- and the signer has no cluster yet; then the storage is the one with the new worker.
  pub worker_register_iff :
      (after : Storage)
      → (worker_register frame host now origin name ip port s ≡ (ok tt, after)) ↔ (
          (creator : AccountId) × (frame.ensure_signed origin ≡ some creator)
          × HasAddress ip
          × (0 < port)
          × (lookup creator s.worker_accounts ≡ none)
          × (after ≡ with_worker host now creator name ip port s))
  worker_register_iff after = (
    λ h.
        let (creator, signed, check) =
          worker_register-ok_inv
            (ap (λ (r : Result (DispatchError Error) (Unit {0}) × Storage). r.0) h) in
        (
          creator,
          signed,
          ground arith,
          ground arith,
          ground arith,
          cc (h, worker_register-ok creator signed check),
        ),
    λ (creator, signed, address, positive, fresh, e).
        rw e (worker_register-ok creator signed (ground arith)),
  )
