-- ===== src/Node/Benchmarking.antt =====
-- node/src/benchmarking.rs: the extrinsics that the benchmark commands build.
pub mod Validity
use cyborg_chain.Prelude.{Bytes, ascii, ℕ, Option, none, some, []}
use cyborg_chain.Frame.{AccountId}
use cyborg_chain.Runtime.Constants.{block_hash_count, version}
use cyborg_chain.Runtime.Period.{period}

-- The calls of the two builders.
pub data BenchmarkCall : Type 0 where
  remark : (text : Bytes) → BenchmarkCall
  transfer_keep_alive : (dest : AccountId) (value : ℕ) → BenchmarkCall

-- `SignedExtra`, as far as its parts carry data.
pub record Extra (Era : Type 0) : Type 0 where
  pub era : Era
  pub nonce : ℕ
  pub tip : ℕ

-- What is signed beside the call and the extra, without the parts that are `()`.
pub record Additional (Hash : Type 0) : Type 0 where
  pub spec_version : ℕ
  pub transaction_version : ℕ
  pub genesis_hash : Hash
  pub birth_hash : Hash

-- The client's view of the chain, eras, encoding and signatures: code of other libraries.
pub record Tools : Type 1 where
  pub Client : Type 0
  pub Hash : Type 0
  pub Era : Type 0
  pub Pair : Type 0
  pub Signature : Type 0
  pub block_hash : Client → ℕ → Option Hash
  pub best_hash : Client → Hash
  pub best_number : Client → ℕ
  pub mortal : ℕ → ℕ → Era
  pub bob : Pair
  pub public : Pair → AccountId
  pub encode : BenchmarkCall → Extra Era → Additional Hash → Bytes
  pub sign : Pair → Bytes → Signature

module _ (tools : Tools) where
  open tools use {Client, Hash, Era, Pair, Signature}

  pub record UncheckedExtrinsic : Type 0 where
    pub call : BenchmarkCall
    pub address : AccountId
    pub signature : Signature
    pub extra : Extra Era

  -- What `create_benchmark_extrinsic` builds, once it has the hash of the first block.
  abbrev pub signed_extrinsic : Client → Pair → BenchmarkCall → ℕ → Hash → UncheckedExtrinsic
  signed_extrinsic client sender call nonce genesis_hash =
      let extra : Extra Era = record {
        era = tools.mortal (period block_hash_count) (tools.best_number client);
        nonce = nonce;
        tip = 0;
      } in
      let raw_payload = tools.encode call extra (record {
        spec_version = version.spec_version;
        transaction_version = version.transaction_version;
        genesis_hash = genesis_hash;
        birth_hash = tools.best_hash client;
      }) in
      record {
        call = call;
        address = tools.public sender;
        signature = tools.sign sender raw_payload;
        extra = extra;
      }

  -- `none` is the panic of `expect("Genesis block exists; qed")`.
  unfoldable pub create_benchmark_extrinsic :
      Client → Pair → BenchmarkCall → ℕ → Option UncheckedExtrinsic
  create_benchmark_extrinsic client sender call nonce = elim (tools.block_hash client 0) [
    | none ↦ none
    | some genesis_hash ↦ some (signed_extrinsic client sender call nonce genesis_hash)
  ]

-- `RemarkBuilder` and `TransferKeepAliveBuilder`, the two that implement `ExtrinsicBuilder`.
pub data ExtrinsicBuilder (Client : Type 0) : Type 0 where
  remark_builder : (client : Client) → ExtrinsicBuilder Client
  transfer_keep_alive_builder :
      (client : Client) (dest : AccountId) (value : ℕ) → ExtrinsicBuilder Client

module _ {Client : Type 0} where
  abbrev pub pallet : ExtrinsicBuilder Client → Bytes
  pallet (remark_builder client) = ascii "system"
  pallet (transfer_keep_alive_builder client dest value) = ascii "balances"

  abbrev pub extrinsic : ExtrinsicBuilder Client → Bytes
  extrinsic (remark_builder client) = ascii "remark"
  extrinsic (transfer_keep_alive_builder client dest value) = ascii "transfer_keep_alive"

unfoldable pub build :
    (tools : Tools) → ExtrinsicBuilder tools.Client → ℕ → Option (UncheckedExtrinsic tools)
unfolding create_benchmark_extrinsic
build tools (remark_builder client) nonce =
    create_benchmark_extrinsic tools client tools.bob (remark []) nonce
build tools (transfer_keep_alive_builder client dest value) nonce =
    create_benchmark_extrinsic tools client tools.bob (transfer_keep_alive dest value) nonce
