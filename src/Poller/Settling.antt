-- ===== src/Poller/Settling.antt =====
-- services/TransactionPoller.ts: how the polling of a transaction ends.
use talenttrust_backend.Prelude.{
  ℕ, zero, suc, ◌+◌, ◌≤◌, ◌<◌, String, true, false, none, some, get, put, ◌≡◌, refl, ◌∙◌, ◌⊎◌, inl,
  inr, arith, get-put_self,
}
use talenttrust_backend.Poller.{
  pending, success, timed_out, is_pending, Receipt, Transaction, TransactionStore, Response,
  no_receipt, receipt_of, rpc_error, TransactionPoller, time_out, over, asking, begin_round,
  status_of, retried, received, settle_round, Round, poll_with_backoff, poll, new_transaction,
}

-- The status agrees with the receipt: none while pending or timed out, else the status it says.
abbrev pub Explained : Transaction → Type 0
Explained tx = elim tx.receipt [
  | none ↦ (tx.status ≡ pending) ⊎ (tx.status ≡ timed_out)
  | some r ↦ tx.status ≡ status_of r
]

begin_cases :
    (p : TransactionPoller) (now checked : ℕ) (hash : String) (store : TransactionStore)
    (tx : Transaction)
    → get hash store ≡ some tx
    → let b = begin_round p now checked hash store in
      ((b ≡ over store) × (is_pending tx.status ≡ false))
      ⊎ ((b ≡ over (put hash (time_out checked tx) store)) × (is_pending tx.status ≡ true))
      ⊎ ((b ≡ asking tx) × (is_pending tx.status ≡ true) × (tx.retry_count < p.max_retries))
unfolding begin_round
begin_cases p now checked hash store tx h = ground (arith, h)

begin_unlimited :
    (p : TransactionPoller) (now checked : ℕ) (hash : String) (store : TransactionStore)
    (tx : Transaction)
    → p.max_total_duration_ms ≡ none
    → get hash store ≡ some tx
    → tx.status ≡ pending
    → let b = begin_round p now checked hash store in
      ((b ≡ over (put hash (time_out checked tx) store)) × (p.max_retries ≤ tx.retry_count))
      ⊎ ((b ≡ asking tx) × (tx.retry_count < p.max_retries))
unfolding begin_round
begin_unlimited p now checked hash store tx unlimited h e = ground (arith, h)

asked-pending :
    (p : TransactionPoller) (now checked : ℕ) (hash : String) (store : TransactionStore)
    (tx : Transaction)
    → get hash store ≡ some tx
    → begin_round p now checked hash store ≡ asking tx
    → tx.status ≡ pending
unfolding begin_round
asked-pending p now checked hash store tx h b = ground (arith, h)

Response-cases :
    (r : Response) → ((rc : Receipt) × (r ≡ receipt_of rc)) ⊎ ((r ≡ no_receipt) ⊎ (r ≡ rpc_error))
Response-cases (receipt_of rc) = inl (rc, refl)
Response-cases no_receipt = inr (inl refl)
Response-cases rpc_error = inr (inr refl)

status_of-settled : (r : Receipt) → is_pending (status_of r) ≡ false
status_of-settled r = ground arith

-- How a polling ends: with a store in which the transaction is no longer pending, its status
-- agrees with its receipt, and it was retried at most the given number of times.
pub record IsSettled (retries : ℕ) (hash : String) (store : TransactionStore) (tx : Transaction)
    : Type 0 where
  pub found : get hash store ≡ some tx
  pub done : is_pending tx.status ≡ false
  pub explained : Explained tx
  pub bounded : tx.retry_count ≤ retries

time_out-Explained :
    (checked : ℕ) (tx : Transaction)
    → is_pending tx.status ≡ true
    → Explained tx
    → Explained (time_out checked tx)
time_out-Explained checked tx h e = ground arith

settle_again :
    (r : Response) (checked : ℕ) (hash : String) (tx : Transaction) (store : TransactionStore)
    → (r ≡ no_receipt) ⊎ (r ≡ rpc_error)
    → settle_round r checked hash tx store ≡ (true, put hash (retried checked tx) store)
unfolding settle_round
settle_again r checked hash tx store (inl quiet) = rw quiet refl
settle_again r checked hash tx store (inr broken) = rw broken refl

settle_receipt :
    (r : Response) (rc : Receipt) (checked : ℕ) (hash : String) (tx : Transaction)
    (store : TransactionStore)
    → r ≡ receipt_of rc
    → settle_round r checked hash tx store ≡ (false, put hash (received rc checked tx) store)
unfolding settle_round
settle_receipt r rc checked hash tx store got = rw got refl

module _ (p : TransactionPoller) (world : ℕ → Round) (hash : String) where
  run_over :
      (fuel n : ℕ) (store store' : TransactionStore)
      → begin_round p (world n).now (world n).checked hash store ≡ over store'
      → poll_with_backoff p world hash (suc fuel) n store ≡ some store'
  unfolding poll_with_backoff
  run_over fuel n store store' b = rw b refl

  run_again :
      (fuel n : ℕ) (store : TransactionStore) (tx : Transaction)
      → begin_round p (world n).now (world n).checked hash store ≡ asking tx
      → ((world n).response ≡ no_receipt) ⊎ ((world n).response ≡ rpc_error)
      → poll_with_backoff p world hash (suc fuel) n store
        ≡ poll_with_backoff p world hash fuel
            (suc n)
            (put hash (retried (world n).settled tx) store)
  unfolding poll_with_backoff
  run_again fuel n store tx b quiet =
      rw (b, settle_again (world n).response (world n).settled hash tx store quiet) refl

  run_receipt :
      (fuel n : ℕ) (store : TransactionStore) (tx : Transaction) (r : Receipt)
      → begin_round p (world n).now (world n).checked hash store ≡ asking tx
      → (world n).response ≡ receipt_of r
      → poll_with_backoff p world hash (suc fuel) n store
        ≡ some (put hash (received r (world n).settled tx) store)
  unfolding poll_with_backoff
  run_receipt fuel n store tx r b got =
      rw (b, settle_receipt (world n).response r (world n).settled hash tx store got) refl

  -- With more rounds of fuel than there are retries left, polling a stored transaction, whose
  -- status agrees with its receipt and which was not retried more often than configured, ends,
  -- whatever the provider answers and the clock shows: the transaction is then no longer pending,
  -- its status is that of its receipt, or timed out without one, and it was retried at most as
  -- often as configured.
  pub poll_settles :
      (fuel n : ℕ) (store : TransactionStore) (tx : Transaction)
      → get hash store ≡ some tx
      → Explained tx
      → tx.retry_count ≤ p.max_retries
      → p.max_retries < fuel + tx.retry_count
      → (store' : TransactionStore) × (tx' : Transaction) × (poll_with_backoff p world hash fuel n
            store
          ≡ some store')
        × IsSettled p.max_retries hash store' tx'
  poll_settles zero n store tx found e le enough = absurd (omega arith)
  poll_settles (suc fuel) n store tx found e le enough =
      elim (begin_cases p (world n).now (world n).checked hash store tx found) [
        | inl (b, done) ↦ (
          store,
          tx,
          run_over fuel n store store b,
          record { found = found; done = done; explained = e; bounded = le },
        )
        | inr (inl (b, waiting)) ↦ (
          put hash (time_out (world n).checked tx) store,
          time_out (world n).checked tx,
          run_over fuel n store _ b,
          record {
            found = get-put_self hash _ store;
            done = refl;
            explained = time_out-Explained (world n).checked tx waiting e;
            bounded = le;
          },
        )
        | inr (inr (b, waiting, below)) ↦ elim (Response-cases (world n).response) [
          | inl (r, got) ↦ (
            put hash (received r (world n).settled tx) store,
            received r (world n).settled tx,
            run_receipt fuel n store tx r b got,
            record {
              found = get-put_self hash _ store;
              done = status_of-settled r;
              explained = refl;
              bounded = le;
            },
          )
          | inr quiet ↦
              let (store', tx', ran, settled) =
                poll_settles fuel (suc n) (put hash (retried (world n).settled tx) store)
                  (retried (world n).settled tx) (get-put_self hash _ store) e (omega arith)
                  (omega arith) in
              (store', tx', run_again fuel n store tx b quiet ∙ ran, settled)
        ]
      ]

  quiet_times_out :
      (fuel n : ℕ) (store : TransactionStore) (tx : Transaction)
      → p.max_total_duration_ms ≡ none
      → ((k : ℕ) → ((world k).response ≡ no_receipt) ⊎ ((world k).response ≡ rpc_error))
      → get hash store ≡ some tx
      → tx.status ≡ pending
      → tx.retry_count ≤ p.max_retries
      → p.max_retries < fuel + tx.retry_count
      → (store' : TransactionStore) × (tx' : Transaction) × (poll_with_backoff p world hash fuel n
            store
          ≡ some store')
        × (get hash store' ≡ some tx')
        × (tx'.status ≡ timed_out)
        × (tx'.retry_count ≡ p.max_retries)
  quiet_times_out zero n store tx unlimited quiet found waiting le enough = absurd (omega arith)
  quiet_times_out (suc fuel) n store tx unlimited quiet found waiting le enough =
      elim (begin_unlimited p (world n).now (world n).checked hash store tx unlimited found
        waiting) [
          | inl (b, exhausted) ↦ (
            put hash (time_out (world n).checked tx) store,
            time_out (world n).checked tx,
            run_over fuel n store _ b,
            get-put_self hash _ store,
            refl,
            omega arith,
          )
          | inr (b, below) ↦
              let (store', tx', ran, stored, late, count) =
                quiet_times_out fuel (suc n) (put hash (retried (world n).settled tx) store)
                  (retried (world n).settled tx) unlimited quiet (get-put_self hash _ store) waiting
                  (omega arith) (omega arith) in
              (store', tx', run_again fuel n store tx b (quiet n) ∙ ran, stored, late, count)
        ]

  -- Polling a transaction that is not stored yet, without a limit on the duration and with a
  -- provider that never has a receipt or always fails, ends with the transaction timed out after
  -- exactly the configured number of retries.
  unanswered_times_out :
      (fuel now : ℕ) (store : TransactionStore)
      → p.max_total_duration_ms ≡ none
      → ((k : ℕ) → ((world k).response ≡ no_receipt) ⊎ ((world k).response ≡ rpc_error))
      → get hash store ≡ none
      → p.max_retries < fuel
      → (store' : TransactionStore) × (tx' : Transaction) × (poll p world hash true false fuel now
            store
          ≡ some store')
        × (get hash store' ≡ some tx')
        × (tx'.status ≡ timed_out)
        × (tx'.retry_count ≡ p.max_retries)
  unfolding poll
  unanswered_times_out fuel now store unlimited quiet absent enough = rw absent (
      quiet_times_out fuel 0 (put hash (new_transaction p world hash now) store)
        (new_transaction p world hash now) unlimited quiet (get-put_self hash _ store) refl
        (omega arith) (omega arith))

-- A round overwrites what was written while it awaited the provider: a transaction that was found
-- pending and completed elsewhere in the meantime is pending again after a round without a receipt.
pub stale_round_reverts :
    (p : TransactionPoller) (now checked settled : ℕ) (hash : String)
    (store store' : TransactionStore) (tx other : Transaction) (r : Response)
    → get hash store ≡ some tx
    → begin_round p now checked hash store ≡ asking tx
    → get hash store' ≡ some other
    → other.status ≡ success
    → (r ≡ no_receipt) ⊎ (r ≡ rpc_error)
    → (after : Transaction) × (get hash (settle_round r settled hash tx store').1 ≡ some after)
      × (after.status ≡ pending)
stale_round_reverts p now checked settled hash store store' tx other r found b meanwhile won quiet =
    (
      retried settled tx,
      rw (settle_again r settled hash tx store' quiet) (get-put_self hash _ store'),
      asked-pending p now checked hash store tx found b,
    )
