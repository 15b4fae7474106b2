-- ===== src/WorkerRegistration/Preservation/Verifying.antt =====
-- The invariant across a report on a connection.
use cyborg_chain.Prelude.{◌==◌, Bool-cases, lookup, ◌≡◌, inl, inr, Bool, some, arith}
use cyborg_chain.Frame.{AccountId}
use cyborg_chain.WorkerRegistration.{ClusterId, Worker, Storage}
use cyborg_chain.WorkerRegistration.Invariant.{Registered, ClusterIsValid, IsValid}
use cyborg_chain.WorkerRegistration.Verify.{set_status, with_status, lookup-with_status}

module _ (c : ClusterId) (w : Worker) (status : Bool) (s : Storage) (v : IsValid s)
    (found : lookup c s.worker_clusters ≡ some w) where
  abbrev after : Storage
  after = with_status c w status s

  accounts_after :
      (a : AccountId) (d : ClusterId)
      → lookup a after.worker_accounts ≡ some d
      → Registered after a d
  accounts_after a d h =
      let r = v.accounts a d h in
      elim (Bool-cases (c == d)) [
        | inl same ↦ record {
          worker = set_status status w;
          stored = ground (arith, lookup-with_status c d w status s);
          owner = ground (arith, r.stored, r.owner);
        }
        | inr other ↦ record {
          worker = r.worker;
          stored = ground (arith, r.stored, lookup-with_status c d w status s);
          owner = r.owner;
        }
      ]

  clusters_after :
      (d : ClusterId) (u : Worker)
      → lookup d after.worker_clusters ≡ some u
      → ClusterIsValid after d u
  clusters_after d u h = elim (Bool-cases (c == d)) [
    | inl same ↦
        let e : u ≡ set_status status w = ground (arith, lookup-with_status c d w status s) in
        let old = v.clusters c w found in
        ground (arith, old.account, old.id, old.issued, old.address, old.port)
    | inr other ↦
        let kept : lookup d s.worker_clusters ≡ some u =
          ground (arith, lookup-with_status c d w status s) in
        let old = v.clusters d u kept in
        ground (arith, old.account, old.id, old.issued, old.address, old.port)
  ]

  pub with_status-IsValid : IsValid after
  with_status-IsValid = record {
    accounts = accounts_after;
    clusters = clusters_after;
    tasks = λ t i h.
        let old = v.tasks t i h in
        record {
          issued = old.issued;
          owner = old.owner;
          status = old.status;
          worker = old.worker;
          allocation = old.allocation;
          assigned = old.assigned;
        };
    absent = λ t h.
        let old = v.absent t h in
        record { owner = old.owner; status = old.status; allocation = old.allocation };
  }
