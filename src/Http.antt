-- ===== src/Http.antt =====
-- The HTTP client of the off-chain workers: `sp_runtime::offchain::http`, which is not code of this
-- repository. Its calls are fields of a parameter; what the pallets do with their results is in
-- WorkerRegistration/Offchain.antt and EdgeConnect/Offchain.antt.
use cyborg_chain.Prelude.{Bytes, ℕ, Bool, true, false, Option, none, some}

-- `http::Error`
pub data HttpError : Type 0 where
  deadline_reached io_error unknown : HttpError

pub record Response : Type 0 where
  pub code : ℕ
  pub body : Bytes

-- What `pending.try_wait(deadline)` returns: the request is still pending, it failed, or it was
-- answered.
pub data Waited : Type 0 where
  still_pending : Waited
  failed : HttpError → Waited
  answered : Response → Waited

pub record Client : Type 0 where
  -- `sp_io::offchain::timestamp().add(Duration::from_millis(n))`
  pub deadline : ℕ → ℕ
  -- `http::Request::get(url).deadline(deadline).send()`: `none` if the request cannot be sent, else
  -- what waiting for it until a deadline gives
  pub get : Bytes → ℕ → Option (ℕ → Waited)

-- `Result<A, http::Error>`
pub data Fetch (A : Type 0) : Type 0 where
  fetched : A → Fetch A
  error : HttpError → Fetch A

infixl 5 ◌>>=◌ ◌>>◌
abbrev pub ◌>>=◌ : {A B : Type 0} → Fetch A → (A → Fetch B) → Fetch B
fetched a >>= f = f a
error e >>= f = error e

abbrev pub ◌>>◌ : {A B : Type 0} → Fetch A → Fetch B → Fetch B
m >> k = m >>= λ _. k

-- `map_err(|_| http::Error::IoError)?` on the result of `send`
abbrev pub sent : Option (ℕ → Waited) → Fetch (ℕ → Waited)
sent none = error io_error
sent (some pending) = fetched pending

-- `map_err(|_| http::Error::DeadlineReached)??` on the result of `try_wait`
abbrev pub waited : Waited → Fetch Response
waited still_pending = error deadline_reached
waited (failed e) = error e
waited (answered r) = fetched r

abbrev pub reject_unless : Bool → Fetch (Unit {0})
reject_unless true = fetched tt
reject_unless false = error unknown
