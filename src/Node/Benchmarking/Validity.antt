-- ===== src/Node/Benchmarking/Validity.antt =====
-- Whether a block takes the extrinsics of node/src/benchmarking.rs: the checks that `SignedExtra`
-- lists, each a check of frame_system or pallet_transaction_payment.
use cyborg_chain.Prelude.{
  Bytes, ℕ, ◌+◌, ◌^◌, ◌≤◌, ◌<◌, ◌≡◌, refl, sym, ◌∙◌, Bool, true, false, Option, some, [], arith,
}
use cyborg_chain.Frame.{AccountId}
use cyborg_chain.Runtime.Constants.{version, block_hash_count}
use cyborg_chain.Runtime.Period.{checked_next_power_of_two, period}
use cyborg_chain.Node.Benchmarking.{
  BenchmarkCall, remark, transfer_keep_alive, Tools, UncheckedExtrinsic, signed_extrinsic,
  create_benchmark_extrinsic, ExtrinsicBuilder, remark_builder, transfer_keep_alive_builder, build,
}

-- The documented behaviour that a chain's check of a signed extrinsic rests on.
pub record Laws (tools : Tools) : Type 0 where
  pub verify : AccountId → Bytes → tools.Signature → Bool
  pub verify-sign :
      (pair : tools.Pair) (m : Bytes) → verify (tools.public pair) m (tools.sign pair m) ≡ true
  -- `era.birth(number)`, for a period that is a power of two from 4 to 4096
  pub birth : tools.Era → ℕ → ℕ
  pub birth-mortal :
      (j current number : ℕ)
      → 2 ≤ j
      → j ≤ 12
      → current ≤ number
      → number < current + 2 ^ j
      → birth (tools.mortal (2 ^ j) current) number ≡ current
  -- whether all bytes of an account are zero
  pub is_zero : AccountId → Bool
  pub bob-is_zero : is_zero (tools.public tools.bob) ≡ false
  -- a chain has its first block
  pub genesis : (client : tools.Client) → (g : tools.Hash) × (tools.block_hash client 0 ≡ some g)
  -- the client's best block is one of the chain's
  pub best_block :
      (client : tools.Client)
      → tools.block_hash client (tools.best_number client) ≡ some (tools.best_hash client)

-- A block in which an extrinsic is checked, with the state before it.
pub record Block (tools : Tools) : Type 0 where
  pub number : ℕ
  -- `frame_system::BlockHash`: the hashes of the blocks before, as far as they are stored
  pub hash : ℕ → Option tools.Hash
  pub account_nonce : AccountId → ℕ
  -- whether the weight of a call fits into what is left of the block
  pub fits : BenchmarkCall → Bool
  -- whether an account can pay the fee of a call and a tip
  pub can_pay : AccountId → BenchmarkCall → ℕ → Bool

-- A block is built on the best block of a client: it has the hash of the first block, and of the
-- `block_hash_count` blocks before it those that the client has.
pub record IsAbove (tools : Tools) (client : tools.Client) (block : Block tools) : Type 0 where
  pub above : tools.best_number client < block.number
  pub first_hash : block.hash 0 ≡ tools.block_hash client 0
  pub hashes :
      (n : ℕ)
      → n ≤ tools.best_number client
      → block.number < n + block_hash_count
      → block.hash n ≡ tools.block_hash client n

module _ (tools : Tools) (laws : Laws tools) where
  -- The checks of a signed extrinsic in a block, in the order of `SignedExtra`. For the signature
  -- the payload is put together again from the extrinsic, the runtime's versions, and the hashes
  -- of the first block and the era's birth block, which the block's state has to hold.
  pub record PassesChecks (block : Block tools) (x : UncheckedExtrinsic tools) : Type 0 where
    pub genesis_hash : tools.Hash
    pub birth_hash : tools.Hash
    -- CheckNonZeroSender
    pub non_zero_sender : laws.is_zero x.address ≡ false
    -- CheckGenesis
    pub genesis : block.hash 0 ≡ some genesis_hash
    -- CheckEra
    pub past : laws.birth x.extra.era block.number < block.number
    pub birth : block.hash (laws.birth x.extra.era block.number) ≡ some birth_hash
    -- CheckNonce
    pub nonce : x.extra.nonce ≡ block.account_nonce x.address
    -- CheckWeight
    pub weight : block.fits x.call ≡ true
    -- ChargeTransactionPayment
    pub fee : block.can_pay x.address x.call x.extra.tip ≡ true
    -- the signature, with CheckSpecVersion and CheckTxVersion
    pub verifies :
        laws.verify x.address
          (tools.encode x.call x.extra (record {
            spec_version = version.spec_version;
            transaction_version = version.transaction_version;
            genesis_hash = genesis_hash;
            birth_hash = birth_hash;
          }))
          x.signature
        ≡ true

  period_is : period block_hash_count ≡ 2 ^ 11
  unfolding period checked_next_power_of_two
  period_is = refl

  era_birth :
      (client : tools.Client) (number : ℕ)
      → tools.best_number client ≤ number
      → number < tools.best_number client + 2048
      → laws.birth (tools.mortal (period block_hash_count) (tools.best_number client)) number
        ≡ tools.best_number client
  era_birth client number low high =
      rw period_is (laws.birth-mortal 11 _ _ (omega arith) (omega arith) low high)

  -- An extrinsic of Bob with the given call and nonce that passes the checks of the block.
  abbrev pub BuildsAccepted :
      Option (UncheckedExtrinsic tools) → BenchmarkCall → ℕ → Block tools → Type 0
  BuildsAccepted built call nonce block =
      (x : UncheckedExtrinsic tools) × (built ≡ some x)
      × (x.call ≡ call)
      × (x.address ≡ tools.public tools.bob)
      × (x.extra.nonce ≡ nonce)
      × PassesChecks block x

  create-BuildsAccepted :
      (client : tools.Client) (call : BenchmarkCall) (nonce : ℕ) (block : Block tools)
      → IsAbove tools client block
      → block.number < tools.best_number client + 2048
      → block.account_nonce (tools.public tools.bob) ≡ nonce
      → block.fits call ≡ true
      → block.can_pay (tools.public tools.bob) call 0 ≡ true
      → BuildsAccepted
          (create_benchmark_extrinsic tools client tools.bob call nonce)
          call
          nonce
          block
  unfolding create_benchmark_extrinsic
  create-BuildsAccepted client call nonce block on high next fits pays =
      let (g, e) = laws.genesis client in
      let birth_is = era_birth client block.number (omega (arith, on.above)) high in
      (
        signed_extrinsic tools client tools.bob call nonce g,
        rw (create_benchmark_extrinsic, e) refl,
        refl,
        refl,
        refl,
        record {
          genesis_hash = g;
          birth_hash = tools.best_hash client;
          non_zero_sender = laws.bob-is_zero;
          genesis = on.first_hash ∙ e;
          past = rw birth_is (on.above);
          birth = rw birth_is (
              on.hashes (tools.best_number client) (omega arith) (omega arith)
              ∙ laws.best_block client);
          nonce = sym next;
          weight = fits;
          fee = pays;
          verifies = laws.verify-sign tools.bob _;
        },
      )

  abbrev pub client_of : ExtrinsicBuilder tools.Client → tools.Client
  client_of (remark_builder client) = client
  client_of (transfer_keep_alive_builder client dest value) = client

  abbrev pub call_of : ExtrinsicBuilder tools.Client → BenchmarkCall
  call_of (remark_builder client) = remark []
  call_of (transfer_keep_alive_builder client dest value) = transfer_keep_alive dest value

  -- Both builders build an extrinsic of Bob with their call and the given nonce, and it passes the
  -- checks of `SignedExtra`, with its signature, in each of the 2047 blocks after the best one of
  -- the builder's client that is built on that one, if in that block the nonce is the next one of
  -- Bob's account, the call's weight fits, and Bob can pay the fee without a tip.
  pub build-BuildsAccepted :
      (builder : ExtrinsicBuilder tools.Client) (nonce : ℕ) (block : Block tools)
      → IsAbove tools (client_of builder) block
      → block.number < tools.best_number (client_of builder) + 2048
      → block.account_nonce (tools.public tools.bob) ≡ nonce
      → block.fits (call_of builder) ≡ true
      → block.can_pay (tools.public tools.bob) (call_of builder) 0 ≡ true
      → BuildsAccepted (build tools builder nonce) (call_of builder) nonce block
  unfolding build
  build-BuildsAccepted (remark_builder client) nonce block on high next fits pays =
      create-BuildsAccepted client (remark []) nonce block on high next fits pays
  build-BuildsAccepted (transfer_keep_alive_builder client dest value) nonce block on high next fits
        pays =
      create-BuildsAccepted client (transfer_keep_alive dest value) nonce block on high next fits
        pays
