-- ===== src/EdgeConnect/Offchain.antt =====
-- The off-chain worker of pallets/edge-connect/src/lib.rs: it fetches a response from the local
-- server and submits it, in one of four ways.
use cyborg_chain.EdgeConnect.Dispatch.{Call}
use cyborg_chain.Prelude.{
  ltb, ◌==◌, if◌then◌else◌, Bytes, ascii, length, All, ℕ, ◌≡◌, Bool, true, Option, none, some, List,
  [], ◌∷◌, map,
}
use cyborg_chain.Text.{is_utf8}
use cyborg_chain.Frame.{BlockNumber}
use cyborg_chain.Http.{Client, Fetch, fetched, error, ◌>>=◌, ◌>>◌, sent, waited, reject_unless}
use cyborg_chain.EdgeConnect.{
  Config, Public, Signature, ResponsePayload, TransactionType, signed, unsigned_for_any,
  unsigned_for_all, raw, no_transaction, Storage,
}
use cyborg_chain.EdgeConnect.Choose.{Stored, Mutated, choose_transaction_type}

abbrev duration : ℕ
duration = 3000

abbrev pub response_url : Bytes
response_url = ascii "http://127.0.0.1:8080/block"

unfoldable pub fetch_response : Client → Fetch Bytes
fetch_response client = do
  let deadline : ℕ = client.deadline duration
  request ← sent (client.get response_url deadline)
  response ← waited (request deadline)
  reject_unless (response.code == 200)
  reject_unless (is_utf8 response.body)
  reject_unless (ltb 0 (length response.body))
  fetched response.body

-- The transaction helpers of `frame_system::offchain`, which are not code of this repository. Each
-- sending reports, for every account used, the call that went to the pool and whether it was taken.
pub record Signer : Type 0 where
  pub can_sign : Bool
  pub verify : ResponsePayload → Signature → Bool
  -- `all_accounts().send_signed_transaction(f)`
  pub send_signed : (Public → Call) → List (Public × Call × Bool)
  pub send_signed_calls : (f : Public → Call) → All (λ t. t.1 ≡ f t.0) (send_signed f)
  -- `any_account().send_unsigned_transaction(f, g)`: none without an account
  pub send_unsigned_any :
      (Public → ResponsePayload)
      → (ResponsePayload → Signature → Call)
      → Option (Public × Signature × Bool)
  pub send_unsigned_any_verifies :
      (f : Public → ResponsePayload) (g : ResponsePayload → Signature → Call)
      (t : Public × Signature × Bool)
      → send_unsigned_any f g ≡ some t
      → verify (f t.0) t.1 ≡ true
  -- `all_accounts().send_unsigned_transaction(f, g)`
  pub send_unsigned_all :
      (Public → ResponsePayload)
      → (ResponsePayload → Signature → Call)
      → List (Public × Signature × Bool)
  pub send_unsigned_all_verifies :
      (f : Public → ResponsePayload) (g : ResponsePayload → Signature → Call)
      → All (λ t. verify (f t.0) t.1 ≡ true) (send_unsigned_all f g)
  -- `SubmitTransaction::submit_unsigned_transaction(call)`: whether the pool took it
  pub submit_unsigned : Call → Bool

-- The error texts of the helpers, in the order of the source.
pub data SendError : Type 0 where
  no_local_accounts failed_to_fetch_response too_early unable_to_submit_unsigned : SendError
  no_accounts_available unable_to_submit : SendError

-- A run of a helper: the calls that it handed to the pool, and how it ended.
pub record Sent : Type 0 where
  pub signed_calls : List Call
  pub unsigned_calls : List Call
  pub result : Option SendError  -- `none` for `Ok(())`

abbrev pub nothing_sent : Option SendError → Sent
nothing_sent e = record { signed_calls = []; unsigned_calls = []; result = e }

-- `Self::fetch_response().map_err(|_| "Failed to fetch response")?` and what follows it.
unfoldable pub with_fetched : Client → (Bytes → Sent) → Sent
with_fetched client send = elim (fetch_response client) [
  | fetched response ↦ send response
  | error e ↦ nothing_sent (some failed_to_fetch_response)
]

abbrev ok_or : Bool → SendError → Option SendError
ok_or taken e = if taken then none else some e

-- The loop over the results: the first that was not taken ends it.
pub all_taken : List (Public × Signature × Bool) → Option SendError
all_taken [] = none
all_taken ((account, sig, taken) ∷ rest) =
    let r = all_taken rest in if taken then r else some unable_to_submit

unfoldable pub payload : BlockNumber → Bytes → Public → ResponsePayload
payload block_number response account = record {
  block_number = block_number;
  response = response;
  public = account;
}

unfoldable pub signed_payload_call : BlockNumber → Bytes → Public × Signature × Bool → Call
unfolding payload
signed_payload_call block_number response t =
    Call.submit_response_unsigned_with_signed_payload (payload block_number response t.0) t.1

unfoldable pub any_sent : BlockNumber → Bytes → Option (Public × Signature × Bool) → Sent
unfolding signed_payload_call
any_sent block_number response none = nothing_sent (some no_accounts_available)
any_sent block_number response (some t) = record {
  signed_calls = [];
  unsigned_calls = signed_payload_call block_number response t ∷ [];
  result = ok_or t.2 unable_to_submit;
}

module _ (client : Client) (signer : Signer) where
  unfoldable pub fetch_response_and_send_signed : Sent
  unfolding with_fetched
  fetch_response_and_send_signed =
      if signer.can_sign
      then with_fetched client (λ response. record {
        signed_calls =
            map (λ t. t.1) (signer.send_signed (λ account. Call.submit_response response));
        unsigned_calls = [];
        result = none;
      })
      else nothing_sent (some no_local_accounts)

  -- `next_unsigned_at` is that of the block's storage.
  unfoldable pub fetch_response_and_send_raw_unsigned : BlockNumber → BlockNumber → Sent
  unfolding with_fetched
  fetch_response_and_send_raw_unsigned next_unsigned_at block_number =
      if ltb block_number next_unsigned_at
      then nothing_sent (some too_early)
      else with_fetched client (λ response.
        let call = Call.submit_response_unsigned block_number response in
        record {
          signed_calls = [];
          unsigned_calls = call ∷ [];
          result = ok_or (signer.submit_unsigned call) unable_to_submit_unsigned;
        })

  unfoldable pub fetch_response_and_send_unsigned_for_any_account : BlockNumber → BlockNumber → Sent
  unfolding with_fetched any_sent payload
  fetch_response_and_send_unsigned_for_any_account next_unsigned_at block_number =
      if ltb block_number next_unsigned_at
      then nothing_sent (some too_early)
      else with_fetched client (λ response. any_sent block_number response (
          signer.send_unsigned_any (payload block_number response)
            (λ p sig. Call.submit_response_unsigned_with_signed_payload p sig)))

  unfoldable pub fetch_response_and_send_unsigned_for_all_accounts :
      BlockNumber → BlockNumber → Sent
  unfolding with_fetched all_taken payload signed_payload_call
  fetch_response_and_send_unsigned_for_all_accounts next_unsigned_at block_number =
      if ltb block_number next_unsigned_at
      then nothing_sent (some too_early)
      else with_fetched client (λ response.
        let results =
          signer.send_unsigned_all (payload block_number response)
            (λ p sig. Call.submit_response_unsigned_with_signed_payload p sig) in
        record {
          signed_calls = [];
          unsigned_calls = map (signed_payload_call block_number response) results;
          result = all_taken results;
        })

  unfoldable pub send : TransactionType → BlockNumber → BlockNumber → Sent
  unfolding fetch_response_and_send_signed fetch_response_and_send_unsigned_for_any_account
      fetch_response_and_send_unsigned_for_all_accounts fetch_response_and_send_raw_unsigned
  send signed next_unsigned_at block_number = fetch_response_and_send_signed
  send unsigned_for_any next_unsigned_at block_number =
      fetch_response_and_send_unsigned_for_any_account next_unsigned_at block_number
  send unsigned_for_all next_unsigned_at block_number =
      fetch_response_and_send_unsigned_for_all_accounts next_unsigned_at block_number
  send raw next_unsigned_at block_number =
      fetch_response_and_send_raw_unsigned next_unsigned_at block_number
  send no_transaction next_unsigned_at block_number = nothing_sent none

-- The run for a block, on the block's storage. The response of a first request is only logged; the
-- helper makes a request of its own. The result is only logged too.
unfoldable pub offchain_worker :
    Config
    → Client
    → Signer
    → ((Stored → Option BlockNumber) → Mutated)
    → BlockNumber
    → Storage
    → Sent
unfolding send
offchain_worker config client signer mutate block_number s =
    if signer.can_sign
    then send client signer (choose_transaction_type config mutate block_number) s.next_unsigned_at
        block_number
    else nothing_sent none
