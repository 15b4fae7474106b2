-- ===== src/WorkerRegistration/Outcome.antt =====
-- What a dispatchable of pallets/worker-registration/src/lib.rs may do to a valid storage.
use cyborg_chain.Prelude.{
  Bytes, length, get_elem?, get_elem?-mem, lookup, Result, ok, err, DispatchError, bad_origin,
  module_error, ℕ, ◌%◌, ◌<◌, ◌≡◌, refl, ◌≢◌, Bool, Option, none, some, List, [], ◌∷◌, arith,
}
use cyborg_chain.Frame.{AccountId, BlockNumber, Frame}
use cyborg_chain.WorkerRegistration.{
  ClusterId, Ip, Worker, Error, no_workers_available, worker_cluster_not_registered, Storage, Host,
  worker_register, task_scheduler, verify_connection,
}
use cyborg_chain.WorkerRegistration.Register.{
  HasAddress, with_worker, register_error, worker_register-err, worker_register-ok,
}
use cyborg_chain.WorkerRegistration.Schedule.{
  with_task, chosen, chosen_lem, task_scheduler-unsigned, task_scheduler-no_workers,
  task_scheduler-ok,
}
use cyborg_chain.WorkerRegistration.Verify.{
  with_status, verify_connection-unsigned, verify_connection-unknown, verify_connection-ok,
}
use cyborg_chain.WorkerRegistration.Invariant.{IsValid}
use cyborg_chain.WorkerRegistration.Dispatch.{Call, dispatch}

-- It fails and changes nothing, or it does one of three things and succeeds.
pub data Outcome (host : Host) (now : BlockNumber) (s : Storage)
    (r : Result (DispatchError Error) (Unit {0}) × Storage) : Type 0 where
  failed : (e : DispatchError Error) → r ≡ (err e, s) → Outcome host now s r
  registered :
      (creator : AccountId) (name : Bytes) (ip : Ip) (port : ℕ)
      → lookup creator s.worker_accounts ≡ none
      → HasAddress ip
      → 0 < port
      → r ≡ (ok tt, with_worker host now creator name ip port s)
      → Outcome host now s r
  scheduled :
      (who : AccountId) (task_data : Bytes) (worker : AccountId) (assigned : ClusterId) (w : Worker)
      → chosen host s.worker_accounts task_data ≡ some (worker, assigned)
      → lookup worker s.worker_accounts ≡ some assigned
      → lookup assigned s.worker_clusters ≡ some w
      → r ≡ (ok tt, with_task now who task_data worker assigned w.ip s)
      → Outcome host now s r
  reported :
      (c : ClusterId) (w : Worker) (status : Bool)
      → lookup c s.worker_clusters ≡ some w
      → r ≡ (ok tt, with_status c w status s)
      → Outcome host now s r

first_byte : (host : Host) (b : Bytes) → (x : ℕ) × (get_elem? (host.blake2_256 b) 0 ≡ some x)
first_byte host b =
    let (x, e, _) = get_elem?-mem (host.blake2_256 b) 0 (omega (arith, host.length-blake2_256 b)) in
    (x, e)

not_empty {ℓ} : {A : Type ℓ} (x : A) (xs : List A) → x ∷ xs ≢ []
not_empty x xs h = cc

-- Where there is a worker at all, the hash of a task chooses one whose cluster is known.
pub record Choice (host : Host) (s : Storage) (task_data : Bytes) : Type 0 where
  pub byte : ℕ
  pub worker : AccountId × ClusterId
  pub cluster : Worker
  pub hash : get_elem? (host.blake2_256 task_data) 0 ≡ some byte
  pub pick :
      get_elem? (host.iter s.worker_accounts) (byte % length (host.iter s.worker_accounts))
      ≡ some worker
  pub known : lookup worker.0 s.worker_accounts ≡ some worker.1
  pub stored : lookup worker.1 s.worker_clusters ≡ some cluster

pub choice :
    (host : Host) (s : Storage) (task_data : Bytes)
    → IsValid s
    → 0 < length (host.iter s.worker_accounts)
    → Choice host s task_data
choice host s task_data v some_worker =
    let (byte, hash) = first_byte host task_data in
    let (worker, pick, visited) =
      get_elem?-mem (host.iter s.worker_accounts) (byte % length (host.iter s.worker_accounts))
        (omega arith) in
    let account = host.iter_sound s.worker_accounts worker.0 worker.1 visited in
    let r = v.accounts worker.0 worker.1 account in
    record {
      byte = byte;
      worker = worker;
      cluster = r.worker;
      hash = hash;
      pick = pick;
      known = account;
      stored = r.stored;
    }

module _ (frame : Frame) (host : Host) (now : BlockNumber) (origin : frame.Origin)
    (s : Storage) where
  register-Outcome :
      (name : Bytes) (ip : Ip) (port : ℕ) (signer : Option AccountId)
      → frame.ensure_signed origin ≡ signer
      → (check : Option (DispatchError Error)) → register_error signer ip port s ≡ check
      → Outcome host now s (worker_register frame host now origin name ip port s)
  register-Outcome name ip port signer signed (some e) h =
      failed e (worker_register-err frame host now origin name ip port s e (rw signed h))
  register-Outcome name ip port none signed none h = cc
  register-Outcome name ip port (some creator) signed none h =
      registered creator name ip port (ground arith) (ground arith) (ground arith)
        (worker_register-ok frame host now origin name ip port s creator signed h)

  pick-Outcome :
      (v : IsValid s) (who : AccountId) (task_data : Bytes)
      → frame.ensure_signed origin ≡ some who
      → (workers : List (AccountId × ClusterId)) → host.iter s.worker_accounts ≡ workers
      → Outcome host now s (task_scheduler frame host now origin task_data s)
  pick-Outcome v who task_data signed [] listed =
      failed (module_error no_workers_available)
        (task_scheduler-no_workers frame host now origin task_data s who signed listed)
  pick-Outcome v who task_data signed (x ∷ xs) listed =
      let c = choice host s task_data v (rw listed (omega arith)) in
      scheduled who task_data c.worker.0 c.worker.1 c.cluster
        (chosen_lem host s.worker_accounts task_data c.byte c.worker c.hash c.pick) c.known c.stored
        (task_scheduler-ok frame host now origin task_data s who c.byte c.worker c.worker.1
          c.cluster signed (rw listed (not_empty x xs)) c.hash c.pick c.known c.stored)

  schedule-Outcome :
      (v : IsValid s) (task_data : Bytes) (signer : Option AccountId)
      → frame.ensure_signed origin ≡ signer
      → Outcome host now s (task_scheduler frame host now origin task_data s)
  schedule-Outcome v task_data none signed =
      failed bad_origin (task_scheduler-unsigned frame host now origin task_data s signed)
  schedule-Outcome v task_data (some who) signed =
      pick-Outcome v who task_data signed (host.iter s.worker_accounts) refl

  verify-Outcome :
      (c : ClusterId) (status : Bool) (signer : Option AccountId)
      → frame.ensure_signed origin ≡ signer
      → (found : Option Worker) → lookup c s.worker_clusters ≡ found
      → Outcome host now s (verify_connection frame origin c status s)
  verify-Outcome c status none signed found stored =
      failed bad_origin (verify_connection-unsigned frame origin c status s signed)
  verify-Outcome c status (some who) signed none stored =
      failed (module_error worker_cluster_not_registered)
        (verify_connection-unknown frame origin c status s who signed stored)
  verify-Outcome c status (some who) signed (some w) stored =
      reported c w status stored (verify_connection-ok frame origin c status s who w signed stored)

  -- Every call on a valid storage has one of the four outcomes.
  pub dispatch-Outcome :
      (v : IsValid s) (call : Call) → Outcome host now s (dispatch frame host now origin call s)
  unfolding dispatch
  dispatch-Outcome v (Call.worker_register name ip port) =
      register-Outcome name ip port (frame.ensure_signed origin) refl
        (register_error (frame.ensure_signed origin) ip port s) refl
  dispatch-Outcome v (Call.task_scheduler task_data) =
      schedule-Outcome v task_data (frame.ensure_signed origin) refl
  dispatch-Outcome v (Call.verify_connection c status) =
      verify-Outcome c status (frame.ensure_signed origin) refl (lookup c s.worker_clusters) refl
