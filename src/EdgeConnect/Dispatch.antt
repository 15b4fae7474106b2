-- ===== src/EdgeConnect/Dispatch.antt =====
-- The calls of pallets/edge-connect/src/lib.rs as `#[pallet::call]` exposes them, their validation
-- as unsigned transactions, and a chain's sequence of them.
use cyborg_chain.EdgeConnect
use cyborg_chain.Prelude.{if◌then◌else◌, Bytes, ascii, ℕ, Bool, true, not, List, [], ◌∷◌}
use cyborg_chain.Frame.{BlockNumber, Frame}
use cyborg_chain.EdgeConnect.{Config, Signature, ResponsePayload, Storage, EdgeAction}

pub data Call : Type 0 where
  create_connection : (connection : ℕ) → Call
  send_command : (command : Bytes) → Call
  submit_response : (response : Bytes) → Call
  submit_response_unsigned : (block_number : BlockNumber) (response : Bytes) → Call
  submit_response_unsigned_with_signed_payload :
      (response_payload : ResponsePayload) (signature : Signature) → Call
  remove_connection : (connection : ℕ) → Call

pub record Extrinsic (frame : Frame) : Type 0 where
  pub block : BlockNumber
  pub origin : frame.Origin
  pub call : Call

module _ (frame : Frame) (config : Config) where
  unfoldable pub dispatch : BlockNumber → frame.Origin → Call → EdgeAction (Unit {0})
  dispatch now origin (create_connection connection) =
      EdgeConnect.create_connection frame origin connection
  dispatch now origin (send_command command) = EdgeConnect.send_command frame config origin command
  dispatch now origin (submit_response response) =
      EdgeConnect.submit_response frame config origin response
  dispatch now origin (submit_response_unsigned block_number response) =
      EdgeConnect.submit_response_unsigned frame config now origin block_number response
  dispatch now origin (submit_response_unsigned_with_signed_payload payload signature) =
      EdgeConnect.submit_response_unsigned_with_signed_payload frame config now origin payload
        signature
  dispatch now origin (remove_connection connection) =
      EdgeConnect.remove_connection frame origin connection

  unfoldable pub run : List (Extrinsic frame) → Storage → Storage
  run [] s = s
  run (x ∷ xs) s = run xs (dispatch x.block x.origin x.call s).1

pub data InvalidTransaction : Type 0 where
  call bad_proof : InvalidTransaction

-- What `ValidTransaction::with_tag_prefix(…)…build()` is given.
pub record ValidTransaction : Type 0 where
  pub tag_prefix : Bytes
  pub priority : ℕ
  pub provides : Bytes
  pub longevity : ℕ
  pub propagate : Bool

pub data TransactionValidity : Type 0 where
  valid : ValidTransaction → TransactionValidity
  invalid : InvalidTransaction → TransactionValidity

abbrev pub unsigned_txs_priority : ℕ
unsigned_txs_priority = 100

unfoldable pub valid_tx : Bytes → TransactionValidity
valid_tx provide = valid (record {
  tag_prefix = ascii "ocw-edge:";
  priority = unsigned_txs_priority;
  provides = provide;
  longevity = 3;
  propagate = true;
})

-- `verify` is `SignedPayload::<T>::verify::<T::AuthorityId>`.
unfoldable pub validate_unsigned :
    (verify : ResponsePayload → Signature → Bool) → Call → TransactionValidity
unfolding valid_tx
validate_unsigned verify (submit_response_unsigned block_number response) =
    valid_tx (ascii "submit_number_unsigned")
validate_unsigned verify (submit_response_unsigned_with_signed_payload payload signature) =
    if not (verify payload signature)
    then invalid bad_proof
    else valid_tx (ascii "submit_number_unsigned_with_signed_payload")
validate_unsigned verify _ = invalid call
