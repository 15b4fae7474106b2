-- ===== src/WorkerRegistration/SameBlock.antt =====
-- The key under which a registration of pallets/worker-registration/src/lib.rs leaves its request
-- for the off-chain worker, and two registrations in one block.
use cyborg_chain.Prelude.{
  ◌==◌, if◌then◌else◌, ==_iff, Bool-cases, u64_mod, Bytes, ascii, bytes_eq, bytes_eq_refl,
  bytes_eq_sound, ok, ℕ, ◌+◌, ◌<◌, ◌≡◌, refl, ◌∙◌, ◌≢◌, inl, inr, Bool, true, some, [], ◌∷◌, ◌++◌,
  arith,
}
use cyborg_chain.Frame.{AccountId, BlockNumber, Frame}
use cyborg_chain.Http.{Client}
use cyborg_chain.WorkerRegistration.{
  ClusterId, Ip, IndexingData, Storage, Host, onchain_tx_key, derived_key, worker_register,
}
use cyborg_chain.WorkerRegistration.Register.{with_worker, worker_register_iff}
use cyborg_chain.WorkerRegistration.Offchain.{Json, ping_data, offchain_worker}
use cyborg_chain.WorkerRegistration.Dispatch.{Call}

bytes_eq-append : (p x y : Bytes) → bytes_eq (p ++ x) (p ++ y) ≡ bytes_eq x y
bytes_eq-append [] x y = refl
bytes_eq-append (c ∷ p) x y = ground (arith, bytes_eq-append p x y)

module _ (host : Host) where
  encode_block_eq :
      (m n : BlockNumber) → bytes_eq (host.encode_block m) (host.encode_block n) ≡ (m == n)
  encode_block_eq m n = elim (Bool-cases (m == n)) [
    | inl same ↦
        let e : m ≡ n = (==_iff m n).0 same in rw (same, e) (bytes_eq_refl (host.encode_block n))
    | inr other ↦ elim (Bool-cases (bytes_eq (host.encode_block m) (host.encode_block n))) [
      | inl same ↦ ground (
        arith,
        host.encode_block_injective m n
            (bytes_eq_sound (host.encode_block m) (host.encode_block n) same),
      )
      | inr differs ↦ rw (other, differs)
    ]
  ]

  -- Two blocks have the same key exactly if they are the same block, whatever the suffixes.
  pub derived_key_eq :
      (m n : BlockNumber) (x y : Bytes)
      → bytes_eq (derived_key host m x) (derived_key host n y) ≡ (m == n)
  unfolding derived_key
  derived_key_eq m n x y =
      bytes_eq-append (onchain_tx_key ++ ascii "/") (host.encode_block m) (host.encode_block n)
      ∙ encode_block_eq m n

  -- What the off-chain worker of block `m` finds after a registration in block `n`.
  pub ping_data-with_worker :
      (n m : BlockNumber) (creator : AccountId) (name : Bytes) (ip : Ip) (port : ℕ) (s : Storage)
      → ping_data host m (with_worker host n creator name ip port s) ≡ (
          if n == m
          then some (record { label = ascii "registered_cluster_ping"; id = s.next_cluster_id })
          else ping_data host m s)
  unfolding ping_data
  ping_data-with_worker n m creator name ip port s = ground (
    arith,
    derived_key_eq n m (ascii "ping") (ascii "ping"),
    host.decode-encode_data
        (record { label = ascii "registered_cluster_ping"; id = s.next_cluster_id }),
  )

  -- The requests in the index name clusters whose ids have been given out.
  abbrev pub PingsIssued : Storage → Type 0
  PingsIssued s =
      (m : BlockNumber) (d : IndexingData) → ping_data host m s ≡ some d → d.id < s.next_cluster_id

  reports_on_ping :
      (client : Client) (json : Json) (m : BlockNumber) (s : Storage) (c : ClusterId)
      (status : Bool)
      → offchain_worker host client json true m s ≡ some (Call.verify_connection c status)
      → (d : IndexingData) × (ping_data host m s ≡ some d) × (d.id ≡ c)
  unfolding offchain_worker
  reports_on_ping client json m s c status h = ground arith

  first_ping_lost :
      (now m : BlockNumber) (c₁ c₂ : AccountId) (name₁ name₂ : Bytes) (ip₁ ip₂ : Ip)
      (port₁ port₂ : ℕ) (s : Storage) (d : IndexingData)
      → PingsIssued s
      → s.next_cluster_id + 1 < u64_mod
      → ping_data host m
          (with_worker host now c₂ name₂ ip₂ port₂ (with_worker host now c₁ name₁ ip₁ port₁ s))
        ≡ some d
      → d.id ≢ s.next_cluster_id
  first_ping_lost now m c₁ c₂ name₁ name₂ ip₁ ip₂ port₁ port₂ s d issued room found = ground (
    arith,
    ping_data-with_worker now m c₂ name₂ ip₂ port₂ (with_worker host now c₁ name₁ ip₁ port₁ s),
    ping_data-with_worker now m c₁ name₁ ip₁ port₁ s,
    issued m d,
  )

module _ (frame : Frame) (host : Host) (client : Client) (json : Json) (now : BlockNumber) where
  -- If two workers register in one block, no off-chain worker of any block reports on the first:
  -- its request is overwritten. (The requests before concern earlier clusters, and the ids do not
  -- wrap.)
  pub second_registration_overwrites :
      (first second : frame.Origin) (name₁ name₂ : Bytes) (ip₁ ip₂ : Ip) (port₁ port₂ : ℕ)
      (s s₁ s₂ : Storage) (m : BlockNumber) (status : Bool)
      → PingsIssued host s
      → s.next_cluster_id + 1 < u64_mod
      → worker_register frame host now first name₁ ip₁ port₁ s ≡ (ok tt, s₁)
      → worker_register frame host now second name₂ ip₂ port₂ s₁ ≡ (ok tt, s₂)
      → offchain_worker host client json true m s₂
        ≢ some (Call.verify_connection s.next_cluster_id status)
  second_registration_overwrites first second name₁ name₂ ip₁ ip₂ port₁ port₂ s s₁ s₂ m status
        issued room h₁ h₂ p =
      let (c₁, _, _, _, _, e₁) =
        (worker_register_iff frame host now first name₁ ip₁ port₁ s s₁).0 h₁ in
      let (c₂, _, _, _, _, e₂) =
        (worker_register_iff frame host now second name₂ ip₂ port₂ s₁ s₂).0 h₂ in
      let (d, found, id) = reports_on_ping host client json m s₂ s.next_cluster_id status p in
      let found' = rw (e₂, e₁) at found in
      first_ping_lost host now m c₁ c₂ name₁ name₂ ip₁ ip₂ port₁ port₂ s d issued room found' id
