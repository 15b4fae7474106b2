-- ===== src/WorkerRegistration/Types.antt =====
-- The data types, errors, events and storage of pallets/worker-registration/src/lib.rs.
use cyborg_chain.Prelude.{ℕ, Bool, Option, List, Bytes, ascii, Dict}
use cyborg_chain.Frame.{AccountId, BlockNumber}

-- `KEY_TYPE`: under which the keystore has the keys of the off-chain worker.
abbrev pub key_type : Bytes
key_type = ascii "ping"

abbrev pub ClusterId : Type 0
ClusterId = ℕ  -- u64

abbrev pub TaskId : Type 0
TaskId = ℕ  -- u64

pub data WorkerStatusType : Type 0 where
  active pending completed inactive : WorkerStatusType

pub data TaskStatusType : Type 0 where
  pending completed expired : TaskStatusType

pub data TaskType : Type 0 where
  docker : TaskType

pub record Ip : Type 0 where
  pub ipv4 : Option (List ℕ)
  pub ipv6 : Option (List ℕ)

pub record Worker : Type 0 where
  pub id : ClusterId
  pub account : AccountId
  pub start_block : BlockNumber
  pub name : Bytes
  pub ip : Ip
  pub port : ℕ  -- u32
  pub status : Bool

pub record TaskInfo : Type 0 where
  pub task_owner : AccountId
  pub create_block : BlockNumber
  pub metadata : Bytes
  pub assigned_worker : ClusterId
  pub time_elapsed : Option BlockNumber
  pub average_cpu_percentage_use : Option ℕ
  pub task_type : TaskType

-- The tuple struct `IndexingData(Vec<u8>, u64)`.
pub record IndexingData : Type 0 where
  pub label : Bytes
  pub id : ℕ

pub data Event : Type 0 where
  worker_registered : (creator : AccountId) → Event
  task_scheduled : (worker owner : AccountId) (task_id : TaskId) (task assigned_ip : Bytes) → Event
  connection_established : (cluster_id : ClusterId) → Event
  submitted_completed_task : (task_id : TaskId) → Event
  verified_completed_task : (task_id : TaskId) → Event

pub data Error : Type 0 where
  worker_register_missing_ip worker_register_missing_port cluster_exists no_workers_available :
      Error
  worker_cluster_not_registered unassigned_task_id invalid_task_owner require_pending_task : Error

-- The storage items, the events deposited so far, and what `offchain_index::set` has written for
-- the off-chain workers, newest first.
pub record Storage : Type 0 where
  pub next_cluster_id : ClusterId
  pub worker_accounts : Dict ClusterId
  pub task_status : Dict TaskStatusType
  pub task_allocations : Dict AccountId
  pub task_owners : Dict AccountId
  pub next_task_id : TaskId
  pub tasks : Dict TaskInfo
  pub worker_clusters : Dict Worker
  pub events : List Event
  pub indexed : List (Bytes × Bytes)
