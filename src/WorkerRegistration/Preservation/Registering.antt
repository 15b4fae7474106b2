-- ===== src/WorkerRegistration/Preservation/Registering.antt =====
-- The invariant across a registration.
use cyborg_chain.Prelude.{
  ◌==◌, ==_iff, Bool-cases, u64_mod, Bytes, lookup, lookup-insert, lookup-insert_self, ℕ, ◌+◌, ◌<◌,
  ◌≡◌, inl, inr, none, some, arith,
}
use cyborg_chain.Frame.{AccountId, BlockNumber}
use cyborg_chain.WorkerRegistration.{ClusterId, TaskId, Ip, Worker, TaskInfo, Storage, Host}
use cyborg_chain.WorkerRegistration.Register.{HasAddress, new_worker, with_worker}
use cyborg_chain.WorkerRegistration.Invariant.{Registered, ClusterIsValid, TaskIsValid, IsValid}

module _ (host : Host) (now : BlockNumber) (creator : AccountId) (name : Bytes) (ip : Ip) (port : ℕ)
    (s : Storage) (v : IsValid s) (fresh : lookup creator s.worker_accounts ≡ none)
    (address : HasAddress ip) (positive : 0 < port) (room : s.next_cluster_id + 1 < u64_mod) where
  abbrev after : Storage
  after = with_worker host now creator name ip port s

  accounts_after :
      (a : AccountId) (c : ClusterId)
      → lookup a after.worker_accounts ≡ some c
      → Registered after a c
  accounts_after a c h = elim (Bool-cases (creator == a)) [
    | inl same ↦ record {
      worker = new_worker s.next_cluster_id creator now name ip port;
      stored = ground (
        arith,
        lookup-insert creator a s.next_cluster_id s.worker_accounts,
        lookup-insert_self s.next_cluster_id (new_worker s.next_cluster_id creator now name ip port)
            s.worker_clusters,
      );
      owner = (==_iff creator a).0 same;
    }
    | inr other ↦
        let old : lookup a s.worker_accounts ≡ some c =
          ground (arith, lookup-insert creator a s.next_cluster_id s.worker_accounts) in
        let r = v.accounts a c old in
        record {
          worker = r.worker;
          stored = ground (
            arith,
            (v.clusters c r.worker r.stored).issued,
            r.stored,
            lookup-insert s.next_cluster_id c
                (new_worker s.next_cluster_id creator now name ip port) s.worker_clusters,
          );
          owner = r.owner;
        }
  ]

  clusters_after :
      (c : ClusterId) (w : Worker)
      → lookup c after.worker_clusters ≡ some w
      → ClusterIsValid after c w
  clusters_after c w h = ground (
    arith,
    lookup-insert s.next_cluster_id c (new_worker s.next_cluster_id creator now name ip port)
        s.worker_clusters,
    lookup-insert creator w.account s.next_cluster_id s.worker_accounts,
    lookup-insert_self creator s.next_cluster_id s.worker_accounts,
    v.clusters c w,
  )

  tasks_after : (t : TaskId) (i : TaskInfo) → lookup t after.tasks ≡ some i → TaskIsValid after t i
  tasks_after t i h =
      let old = v.tasks t i h in
      record {
        issued = old.issued;
        owner = old.owner;
        status = old.status;
        worker = old.worker;
        allocation = old.allocation;
        assigned = ground (
          arith,
          old.assigned,
          lookup-insert creator old.worker s.next_cluster_id s.worker_accounts,
        );
      }

  pub with_worker-IsValid : IsValid after
  with_worker-IsValid = record {
    accounts = accounts_after;
    clusters = clusters_after;
    tasks = tasks_after;
    absent = λ t h.
        let old = v.absent t h in
        record { owner = old.owner; status = old.status; allocation = old.allocation };
  }
