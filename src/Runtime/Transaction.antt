-- ===== src/Runtime/Transaction.antt =====
-- `create_transaction` of runtime/src/lib.rs: the transaction that wraps a call of an off-chain
-- worker.
use cyborg_chain.Prelude.{Bytes, ℕ, ◌-◌, ◌≡◌, Option, none, some}
use cyborg_chain.Frame.{AccountId, BlockNumber}
use cyborg_chain.Runtime.Constants.{block_hash_count}
use cyborg_chain.Runtime.Period.{period}

-- `sp_runtime::generic`: eras, the payload to sign, its encoding, and the key store's signature.
pub record Signing : Type 1 where
  pub Call : Type 0
  pub Era : Type 0
  pub Payload : Type 0
  pub Signature : Type 0
  pub Signer : Type 0
  -- `Era::mortal(period, current)`
  pub mortal : ℕ → ℕ → Era
  -- `SignedPayload::new(call, extra)`, with the era, the nonce and the tip of the extra
  pub new_payload : Call → Era × ℕ × ℕ → Option Payload
  pub deconstruct : Payload → Call × (Era × ℕ × ℕ)
  pub deconstruct-new_payload :
      (c : Call) (e : Era × ℕ × ℕ) (p : Payload) → new_payload c e ≡ some p → deconstruct p ≡ (c, e)
  pub encode : Payload → Bytes
  -- `C::sign(payload, public)`
  pub sign : Bytes → Signer → Option Signature

module _ (signing : Signing) where
  open signing use {Call, Era, Payload, Signature, Signer}

  -- What is handed to the pool: the call, the sender, the signature, and of the extra the era, the
  -- nonce and the tip (its other parts carry no data).
  pub record Transaction : Type 0 where
    pub call : Call
    pub address : AccountId
    pub signature : Signature
    pub era : Era
    pub nonce : ℕ
    pub tip : ℕ

  abbrev pub tip : ℕ
  tip = 0

  unfoldable pub signed_with : AccountId → Payload → Option Signature → Option Transaction
  signed_with account p none = none
  signed_with account p (some sig) =
      let (call, extra) = signing.deconstruct p in
      some (record {
        call = call;
        address = account;
        signature = sig;
        era = extra.0;
        nonce = extra.1;
        tip = extra.2;
      })

  unfoldable pub with_payload : AccountId → Signer → Option Payload → Option Transaction
  unfolding signed_with
  with_payload account public none = none
  with_payload account public (some p) =
      signed_with account p (signing.sign (signing.encode p) public)

  -- `block_number` is `System::block_number()`, one more than the current block; the subtraction
  -- saturates at 0.
  unfoldable pub create_transaction :
      Call → Signer → AccountId → ℕ → BlockNumber → Option Transaction
  unfolding with_payload
  create_transaction call public account nonce block_number =
      let current_block : ℕ = block_number - 1 in
      let era = signing.mortal (period block_hash_count) current_block in
      with_payload account public (signing.new_payload call (era, nonce, tip))
