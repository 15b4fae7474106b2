-- ===== src/WorkerRegistration/Calls.antt =====
-- The dispatchables of pallets/worker-registration/src/lib.rs.
use mathlib.Core.List.{head?}
use cyborg_chain.Prelude.{
  ℕ, ◌+◌, ◌%◌, ◌≡◌, Bool, false, not, ◌||◌, Option, none, some, List, [], ◌∷◌, ◌++◌, map, Memᴰ, ltb,
  ◌==◌, if◌then◌else◌, is_some, u64_mod, Bytes, ascii, length, get_elem?, Dict, lookup, insert,
  contains_key, Action, DispatchError, bad_origin, module_error, ◌>>=◌, ◌>>◌, gets, or_err,
  or_panic, ensure, modify,
}
use cyborg_chain.Text.{to_string, join}
use cyborg_chain.Frame.{Frame, AccountId, BlockNumber}
use cyborg_chain.WorkerRegistration.Types.{
  ClusterId, TaskStatusType, docker, Ip, Worker, TaskInfo, IndexingData, Event, worker_registered,
  task_scheduled, connection_established, Error, worker_register_missing_ip,
  worker_register_missing_port, cluster_exists, no_workers_available, worker_cluster_not_registered,
  Storage,
}

-- What the pallet calls outside the repository: the hash of the host, the SCALE codec, and the
-- order in which a storage map is iterated.
pub record Host : Type 0 where
  -- `sp_io::hashing::blake2_256`, which returns 32 bytes
  pub blake2_256 : Bytes → Bytes
  pub length-blake2_256 : (b : Bytes) → length (blake2_256 b) ≡ 32
  -- SCALE: a block number has one encoding, and what is encoded can be decoded
  pub encode_block : BlockNumber → Bytes
  pub encode_block_injective : (m n : BlockNumber) → encode_block m ≡ encode_block n → m ≡ n
  pub encode_data : IndexingData → Bytes
  pub decode_data : Bytes → Option IndexingData
  pub decode-encode_data : (d : IndexingData) → decode_data (encode_data d) ≡ some d
  -- `WorkerAccounts::<T>::iter()`, which visits the entries of the map
  pub iter : Dict ClusterId → List (AccountId × ClusterId)
  pub iter_sound :
      (d : Dict ClusterId) (a : AccountId) (c : ClusterId)
      → Memᴰ (a, c) (iter d)
      → lookup a d ≡ some c
  pub iter_complete :
      (d : Dict ClusterId) (a : AccountId) (c : ClusterId)
      → lookup a d ≡ some c
      → Memᴰ (a, c) (iter d)

abbrev pub WorkerAction : Type 0 → Type 0
WorkerAction = Action Storage (DispatchError Error)

abbrev deposit_event : Event → WorkerAction (Unit {0})
deposit_event e = modify (λ s. record s { events = s.events ++ e ∷ [] })

-- The `match` on the cluster's address: IPv4 with dots, else IPv6 with colons, else "localhost".
unfoldable pub string_ip : Ip → Bytes
string_ip ip = elim ip.ipv4 [
  | some i ↦ join (ascii ".") (map to_string i)
  | none ↦ elim ip.ipv6 [ some i ↦ join (ascii ":") (map to_string i) | none ↦ ascii "localhost" ]
]

abbrev pub onchain_tx_key : Bytes
onchain_tx_key = ascii "cluster::storage::tx"

-- `a % b` on `usize`, which panics at 0.
abbrev rem : ℕ → ℕ → Option ℕ
rem a b = if b == 0 then none else some (a % b)

module _ (host : Host) where
  -- `extend` is not used: the line that would append it is commented out.
  unfoldable pub derived_key : BlockNumber → Bytes → Bytes
  derived_key block_number extend = onchain_tx_key ++ (ascii "/" ++ host.encode_block block_number)

module _ (frame : Frame) (host : Host) (now : BlockNumber) where
  -- `now` is `frame_system::Pallet::<T>::block_number()`.
  unfoldable pub worker_register : frame.Origin → Bytes → Ip → ℕ → WorkerAction (Unit {0})
  worker_register origin name ip port = do
    creator ← or_err (frame.ensure_signed origin) bad_origin
    ensure (is_some ip.ipv4 || is_some ip.ipv6) (module_error worker_register_missing_ip)
    ensure (ltb 0 port) (module_error worker_register_missing_port)
    accounts ← gets (λ s. s.worker_accounts)
    ensure (not (contains_key creator accounts)) (module_error cluster_exists)
    cid ← gets (λ s. s.next_cluster_id)
    let cluster : Worker = record {
      id = cid;
      account = creator;
      start_block = now;
      name = name;
      ip = ip;
      port = port;
      status = false;
    }
    modify (λ s. record s { worker_accounts = insert creator cid s.worker_accounts })
    modify (λ s. record s { worker_clusters = insert cid cluster s.worker_clusters })
    modify (λ s. record s { next_cluster_id = (s.next_cluster_id + 1) % u64_mod })
    let key = derived_key host now (ascii "ping")
    let indexing : IndexingData = record { label = ascii "registered_cluster_ping"; id = cid }
    modify (λ s. record s { indexed = (key, host.encode_data indexing) ∷ s.indexed })
    deposit_event (worker_registered creator)

  unfoldable pub task_scheduler : frame.Origin → Bytes → WorkerAction (Unit {0})
  task_scheduler origin task_data = do
    who ← or_err (frame.ensure_signed origin) bad_origin
    accounts ← gets (λ s. s.worker_accounts)
    ensure (is_some (head? (host.iter accounts))) (module_error no_workers_available)
    task_id ← gets (λ s. s.next_task_id)
    modify (λ s. record s { next_task_id = (task_id + 1) % u64_mod })
    workers ← gets (λ s. host.iter s.worker_accounts)
    first_byte ← or_panic (get_elem? (host.blake2_256 task_data) 0)
    random_index ← or_panic (rem first_byte (length workers))
    selected ← or_panic (get_elem? workers random_index)
    let selected_worker = selected.0
    found ← gets (λ s. lookup selected_worker s.worker_accounts)
    assigned ← or_err found (module_error worker_cluster_not_registered)
    let task_info : TaskInfo = record {
      task_owner = who;
      create_block = now;
      metadata = task_data;
      assigned_worker = assigned;
      time_elapsed = none;
      average_cpu_percentage_use = none;
      task_type = docker;
    }
    modify (λ s. record s { task_allocations = insert task_id selected_worker s.task_allocations })
    modify (λ s. record s { task_owners = insert task_id who s.task_owners })
    modify (λ s. record s { tasks = insert task_id task_info s.tasks })
    modify (λ s. record s { task_status = insert task_id TaskStatusType.pending s.task_status })
    again ← gets (λ s. lookup selected_worker s.worker_accounts)
    cluster_id ← or_err again (module_error worker_cluster_not_registered)
    stored ← gets (λ s. lookup cluster_id s.worker_clusters)
    cluster ← or_err stored (module_error worker_cluster_not_registered)
    deposit_event (task_scheduled selected_worker who task_id task_data (string_ip cluster.ip))

module _ (frame : Frame) where
  -- `try_mutate` reads the item, runs its closure and, if that returns `Ok`, writes the item back;
  -- the closure itself has already written it by `insert`.
  unfoldable pub verify_connection : frame.Origin → ClusterId → Bool → WorkerAction (Unit {0})
  verify_connection origin worker_index deployment_status = do
    who ← or_err (frame.ensure_signed origin) bad_origin
    worker ← gets (λ s. lookup worker_index s.worker_clusters)
    found ← or_err worker (module_error worker_cluster_not_registered)
    let cluster_info : Worker = record found { status = deployment_status }
    modify (λ s. record s { worker_clusters = insert worker_index cluster_info s.worker_clusters })
    deposit_event (connection_established worker_index)
    modify (λ s. record s { worker_clusters = insert worker_index cluster_info s.worker_clusters })
