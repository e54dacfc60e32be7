-- ===== src/Poller/Tests.antt =====
-- The theorems on the poller at one transaction and two providers.
use talenttrust_backend.Prelude.{ℕ, zero, suc, ◌≡◌, refl, inl, none, some, [], ◌∷◌, get, put, arith}
use talenttrust_backend.Poller.{
  Transaction, TransactionStore, TransactionPoller, Round, Response, no_receipt, receipt_of,
  pending, success, begin_round, settle_round, poll_with_backoff,
}
use talenttrust_backend.Poller.Settling.{IsSettled, poll_settles, stale_round_reverts}

abbrev twice : TransactionPoller
twice = record { max_retries = 2; max_total_duration_ms = none }

abbrev waiting : Transaction
waiting = record {
  hash = "0x1";
  status = pending;
  receipt = none;
  last_checked_at = none;
  retry_count = 0;
  started_at = some 10;
}

abbrev store : TransactionStore
store = ("0x1", waiting) ∷ []

-- A provider that has the receipt from its second answer on.
abbrev answer : ℕ → Response
answer zero = no_receipt
answer (suc n) = receipt_of (record { status = some 1 })

abbrev second : ℕ → Round
second n = record { now = 20; checked = 20; response = answer n; settled = 30 }

abbrev never : ℕ → Round
never n = record { now = 20; checked = 20; response = no_receipt; settled = 30 }

abbrev confirmed : Transaction
confirmed = record waiting {
  status = success;
  receipt = some (record { status = some 1 });
  last_checked_at = some 30;
  retry_count = 1;
}

confirms : poll_with_backoff twice second "0x1" 3 0 store ≡ some (("0x1", confirmed) ∷ [])
unfolding poll_with_backoff begin_round settle_round get put
confirms = refl

poll_settles_example :
    (store' : TransactionStore) × (tx' : Transaction) × (poll_with_backoff twice second "0x1" 3 0
        store
      ≡ some store')
    × IsSettled 2 "0x1" store' tx'
unfolding get
poll_settles_example =
    poll_settles twice second "0x1" 3 0 store waiting refl (inl refl) (omega arith) (omega arith)

stale_round_reverts_example :
    (after : Transaction) × (get "0x1"
        (settle_round no_receipt 30 "0x1" waiting (("0x1", confirmed) ∷ [])).1
      ≡ some after)
    × (after.status ≡ pending)
unfolding begin_round get
stale_round_reverts_example =
    stale_round_reverts twice 20 20 30 "0x1" store (("0x1", confirmed) ∷ []) waiting confirmed
      no_receipt refl refl refl refl (inl refl)
