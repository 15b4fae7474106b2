-- ===== src/EdgeConnect/Interval.antt =====
-- The interval between the unsigned transactions of pallets/edge-connect/src/lib.rs, on the side of
-- the off-chain workers.
use cyborg_chain.Prelude.{u32_mod, ◌+◌, ◌%◌, ◌<◌, ◌≡◌, inl, inr, Bool, true, Option, [], arith}
use cyborg_chain.Frame.{BlockNumber, Frame}
use cyborg_chain.Http.{Client}
use cyborg_chain.EdgeConnect.{Config, Signature, ResponsePayload, Storage}
use cyborg_chain.EdgeConnect.Invariant.{HasText}
use cyborg_chain.EdgeConnect.Choose.{Stored, Mutated}
use cyborg_chain.EdgeConnect.Unsigned.{accepted, submit_response_unsigned-ok, submit_payload-ok}
use cyborg_chain.EdgeConnect.Offchain.{Signer, offchain_worker}
use cyborg_chain.EdgeConnect.Sending.{offchain_worker-IsProper}
use cyborg_chain.EdgeConnect.Dispatch.{Call, dispatch, validate_unsigned}

module _ (frame : Frame) (config : Config) (verify : ResponsePayload → Signature → Bool)
    (now : BlockNumber) (origin : frame.Origin) (no_signer : frame.ensure_none origin ≡ true)
    (s : Storage) where
  next_after_accepted :
      (c : Call)
      → HasText c
      → accepted (validate_unsigned verify c) ≡ true
      → (dispatch frame config now origin c s).1.next_unsigned_at
        ≡ (now + config.unsigned_interval) % u32_mod
  unfolding validate_unsigned
  next_after_accepted (Call.submit_response_unsigned n r) text h =
      unfold dispatch in
      rw (submit_response_unsigned-ok frame config now origin no_signer s n r text)
  next_after_accepted (Call.submit_response_unsigned_with_signed_payload p sig) text h =
      unfold dispatch in rw (submit_payload-ok frame config now origin no_signer s p sig text)
  next_after_accepted c text h = absurd (ground arith)

  -- After an unsigned submission in the block `now` the off-chain workers hand over no unsigned
  -- transaction for any block before the end of the interval. (The end is within a u32.)
  pub interval_is_kept :
      (client : Client) (signer : Signer) (mutate : (Stored → Option BlockNumber) → Mutated)
      (c : Call) (block_number : BlockNumber)
      → HasText c
      → accepted (validate_unsigned verify c) ≡ true
      → now + config.unsigned_interval < u32_mod
      → block_number < now + config.unsigned_interval
      → (offchain_worker config client signer mutate block_number
          (dispatch frame config now origin c s).1).unsigned_calls
        ≡ []
  interval_is_kept client signer mutate c block_number text h small early =
      let after = (dispatch frame config now origin c s).1 in
      elim (offchain_worker-IsProper config client signer mutate block_number after).not_early [
        | inl none_sent ↦ none_sent
        | inr late ↦ absurd (omega (arith, next_after_accepted c text h))
      ]
