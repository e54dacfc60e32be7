-- ===== src/Poller.antt =====
-- services/TransactionPoller.ts over the in-memory store of models/Transaction.ts: the polling of
-- the receipt of a transaction. A round of `pollWithBackoff` is two steps, the one before it awaits
-- the provider and the one after. The delay between two rounds changes no state and is left out.
pub mod Settling
mod Tests
use talenttrust_backend.Prelude.{
  ℕ, zero, suc, ◌+◌, String, Bool, true, false, ◌==◌, leb, if◌then◌else◌, Option, none, some, List,
  [], ◌∷◌, Table, get, put, remove, values, has, keep_if, map,
}

pub data TransactionStatus : Type 0 where
  pending : TransactionStatus
  success : TransactionStatus
  failed : TransactionStatus
  timed_out : TransactionStatus

abbrev pub is_pending : TransactionStatus → Bool
is_pending pending = true
is_pending _ = false

-- A receipt, of which the poller reads the status code; none where that is no natural number.
pub record Receipt : Type 0 where
  pub status : Option ℕ

pub record Transaction : Type 0 where
  pub hash : String
  pub status : TransactionStatus
  pub receipt : Option Receipt
  pub last_checked_at : Option ℕ
  pub retry_count : ℕ
  pub started_at : Option ℕ

abbrev pub TransactionStore : Type 0
TransactionStore = Table Transaction

-- What the provider answers: nothing yet, a receipt, or an error.
pub data Response : Type 0 where
  no_receipt : Response
  receipt_of : Receipt → Response
  rpc_error : Response

pub record TransactionPoller : Type 0 where
  pub max_retries : ℕ
  pub max_total_duration_ms : Option ℕ

-- The constructor throws unless the duration is positive; one that is no finite number is not
-- modelled, and throws too.
unfoldable pub create_poller : ℕ → Option ℕ → Option TransactionPoller
create_poller retries none = some (record { max_retries = retries; max_total_duration_ms = none })
create_poller retries (some zero) = none
create_poller retries (some (suc d)) =
    some (record { max_retries = retries; max_total_duration_ms = some (suc d) })

abbrev pub time_out : ℕ → Transaction → Transaction
time_out checked tx = record tx { status = timed_out; last_checked_at = some checked }

-- `elapsedMs >= maxTotalDurationMs`, where there is a duration and a start
abbrev is_overdue : Option ℕ → Option ℕ → ℕ → Bool
is_overdue (some d) (some started) now = leb (started + d) now
is_overdue _ _ now = false

-- What a round does before it awaits the provider: it is over, or it asks.
pub data Begun : Type 0 where
  over : TransactionStore → Begun
  asking : Transaction → Begun

abbrev pub begin_found :
    TransactionPoller → ℕ → ℕ → String → TransactionStore → Option Transaction → Begun
begin_found p now checked hash store none = over store
begin_found p now checked hash store (some tx) =
    if is_pending tx.status
    then if leb p.max_retries tx.retry_count
      then over (put hash (time_out checked tx) store)
      else if is_overdue p.max_total_duration_ms tx.started_at now
      then over (put hash (time_out checked tx) store)
      else asking tx
    else over store

unfoldable pub begin_round : TransactionPoller → ℕ → ℕ → String → TransactionStore → Begun
begin_round p now checked hash store = begin_found p now checked hash store (get hash store)

abbrev pub status_of : Receipt → TransactionStatus
status_of r = elim r.status [ none ↦ failed | some n ↦ if n == 1 then success else failed ]

abbrev pub retried : ℕ → Transaction → Transaction
retried checked tx = record tx { retry_count = tx.retry_count + 1; last_checked_at = some checked }

abbrev pub received : Receipt → ℕ → Transaction → Transaction
received r checked tx = record tx {
  status = status_of r;
  receipt = some r;
  last_checked_at = some checked;
}

-- What a round does with the answer, given the transaction read before the request: the store, and
-- whether another round follows.
unfoldable pub settle_round :
    Response → ℕ → String → Transaction → TransactionStore → Bool × TransactionStore
settle_round (receipt_of r) checked hash tx store = (false, put hash (received r checked tx) store)
settle_round no_receipt checked hash tx store = (true, put hash (retried checked tx) store)
settle_round rpc_error checked hash tx store = (true, put hash (retried checked tx) store)

-- The readings of the clock in a round, and the answer of the provider.
pub record Round : Type 0 where
  pub now : ℕ
  pub checked : ℕ
  pub response : Response
  pub settled : ℕ

-- Another round, or the end.
abbrev pub after_round :
    (TransactionStore → Option TransactionStore) → Bool × TransactionStore → Option TransactionStore
after_round next (true, store) = next store
after_round next (false, store) = some store

abbrev pub finish_round :
    (TransactionStore → Option TransactionStore)
    → Round
    → String
    → TransactionStore
    → Begun
    → Option TransactionStore
finish_round next w hash store (over store') = some store'
finish_round next w hash store (asking tx) =
    after_round next (settle_round w.response w.settled hash tx store)

-- The rounds where nothing else writes to the store; none where the fuel runs out.
module _ (p : TransactionPoller) (world : ℕ → Round) (hash : String) where
  unfoldable pub poll_with_backoff : ℕ → ℕ → TransactionStore → Option TransactionStore
  unfolding begin_round settle_round
  poll_with_backoff zero n store = none
  poll_with_backoff (suc fuel) n store =
      let w = world n in
      finish_round (poll_with_backoff fuel (suc n)) w hash store
        (begin_round p w.now w.checked hash store)

  abbrev pub new_transaction : ℕ → Transaction
  new_transaction now = record {
    hash = hash;
    status = pending;
    receipt = none;
    last_checked_at = none;
    retry_count = 0;
    started_at = some now;
  }

  abbrev pub started : ℕ → TransactionStore → Option Transaction → TransactionStore
  started now store none = put hash (new_transaction now) store
  started now store (some tx) = elim tx.started_at [
    | none ↦ put hash (record tx { started_at = some now }) store
    | some t ↦ store
  ]

  -- `poll`: nothing where no new polls are accepted, or where a poll of the hash is in flight,
  -- which is then awaited.
  unfoldable pub poll : Bool → Bool → ℕ → ℕ → TransactionStore → Option TransactionStore
  unfolding poll_with_backoff
  poll false active fuel now store = some store
  poll true true fuel now store = some store
  poll true false fuel now store = poll_with_backoff fuel 0 (started now store (get hash store))

-- The hashes whose polling `recoverPendingTransactions` resumes.
unfoldable pub pending_hashes : TransactionStore → List String
pending_hashes store = map (λ tx. tx.hash) (keep_if (λ tx. is_pending tx.status) (values store))
