-- ===== src/Runtime/Signed.antt =====
-- What a transaction of `create_transaction` in runtime/src/lib.rs says.
use cyborg_chain.Prelude.{ℕ, ◌-◌, ◌≡◌, refl, Option, none, some, arith}
use cyborg_chain.Frame.{AccountId, BlockNumber}
use cyborg_chain.Runtime.Period.{period}
use cyborg_chain.Runtime.Transaction.{
  Signing, Transaction, signed_with, with_payload, create_transaction,
}

module _ (signing : Signing) where
  open signing use {Call, Era, Payload, Signature, Signer}

  signed_with_inv :
      (account : AccountId) (p : Payload) (o : Option Signature) (t : Transaction signing)
      → signed_with signing account p o ≡ some t
      → (t.call ≡ (signing.deconstruct p).0)
        × (t.address ≡ account)
        × (t.era ≡ (signing.deconstruct p).1.0)
        × (t.nonce ≡ (signing.deconstruct p).1.1)
        × (t.tip ≡ (signing.deconstruct p).1.2)
        × (o ≡ some t.signature)
  unfolding signed_with
  signed_with_inv account p none t h = cc
  signed_with_inv account p (some sig) t h = ground arith

  -- What a transaction for a call says: the call, the sender and the nonce, no tip, and the given
  -- era; its signature is that of the signer over the payload of just these.
  pub record IsFor (c : Call) (public : Signer) (account : AccountId) (n : ℕ) (e : Era)
      (t : Transaction signing) : Type 0 where
    pub call : t.call ≡ c
    pub address : t.address ≡ account
    pub era : t.era ≡ e
    pub nonce : t.nonce ≡ n
    pub no_tip : t.tip ≡ 0
    pub payload : Payload
    pub built : signing.new_payload c (e, n, 0) ≡ some payload
    pub signed : signing.sign (signing.encode payload) public ≡ some t.signature

  with_payload_inv :
      (call : Call) (public : Signer) (account : AccountId) (nonce : ℕ) (era : Era)
      (o : Option Payload) (t : Transaction signing)
      → signing.new_payload call (era, nonce, 0) ≡ o
      → with_payload signing account public o ≡ some t
      → IsFor call public account nonce era t
  unfolding with_payload
  with_payload_inv call public account nonce era none t e h = cc
  with_payload_inv call public account nonce era (some p) t e h =
      let (c, a, r, n, i, sig) =
        signed_with_inv account p (signing.sign (signing.encode p) public) t h in
      let parts = signing.deconstruct-new_payload call (era, nonce, 0) p e in
      record {
        call = rw parts at c;
        address = a;
        era = rw parts at r;
        nonce = rw parts at n;
        no_tip = rw parts at i;
        payload = p;
        built = e;
        signed = sig;
      }

  -- A transaction that is created is one for the given call, signer, account and nonce, with an
  -- era of 2048 blocks from the block before the given number.
  pub create_transaction-IsFor :
      (call : Call) (public : Signer) (account : AccountId) (nonce : ℕ) (block_number : BlockNumber)
      (t : Transaction signing)
      → create_transaction signing call public account nonce block_number ≡ some t
      → IsFor call public account nonce (signing.mortal 2048 (block_number - 1)) t
  unfolding create_transaction period
  create_transaction-IsFor call public account nonce block_number t h =
      with_payload_inv call public account nonce (signing.mortal 2048 (block_number - 1)) _ t refl h
