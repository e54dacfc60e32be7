-- ===== src/Disputes/Tests.antt =====
-- The theorems on disputes at a small store.
use talenttrust_backend.Prelude.{
  ◌≡◌, refl, true, none, some, List, [], ◌∷◌, get, put, ok, err, sort,
}
use talenttrust_backend.SoftDelete.{at, is_within_retention_window}
use talenttrust_backend.Disputes.{
  DisputeRecord, DisputeStore, opened, under_review, resolved, UpdateDisputePayload, Updated,
  BatchDisputeOperation, update_dispute, update_to, apply_update, process_batch, payload_of,
  list_disputes, dispute_not_found,
}
use talenttrust_backend.Disputes.Transitions.{update_dispute_silent}
use talenttrust_backend.Disputes.History.{
  Operation, updated, deleted, restored, run, run-Follows, Follows,
}

abbrev first_dispute : DisputeRecord
first_dispute = record {
  id = "dispute-001";
  contract_id = "contract-001";
  status = opened;
  resolution = none;
  reason = none;
  raised_by = none;
  created_at = 5;
  updated_at = at 5;
  deleted_at = none;
}

abbrev second_dispute : DisputeRecord
second_dispute = record first_dispute {
  id = "dispute-002";
  status = under_review;
  created_at = 9;
  deleted_at = some (at 20);
}

abbrev store : DisputeStore
store = ("dispute-001", first_dispute) ∷ ("dispute-002", second_dispute) ∷ []

abbrev to_resolved : UpdateDisputePayload
to_resolved = record { status = some resolved; resolution = some "paid" }

lists : list_disputes true store ≡ second_dispute ∷ first_dispute ∷ []
unfolding list_disputes sort
lists = refl

abbrev after : Updated
after = update_to 30 "dispute-001" (apply_update 30 to_resolved first_dispute) opened store

resolves : update_dispute 30 "dispute-001" to_resolved store ≡ ok after
unfolding update_dispute get put
resolves = refl

update_dispute_silent_example : after.notified ≡ none
update_dispute_silent_example =
    update_dispute_silent 30 "dispute-001" to_resolved store {u = after} resolves

abbrev review_op : BatchDisputeOperation
review_op = record { id = "dispute-001"; status = some under_review; resolution = none }

abbrev missing_op : BatchDisputeOperation
missing_op = record { id = "dispute-002"; status = some resolved; resolution = none }

fails_in_batch :
    update_dispute 30 "dispute-002"
      (payload_of missing_op)
      (process_batch (λ _. 30) (review_op ∷ []) store).0
    ≡ err dispute_not_found
unfolding update_dispute process_batch get put
fails_in_batch = refl

abbrev story : List Operation
story =
    updated 30 "dispute-001" to_resolved
    ∷ deleted "dispute-001" (at 40)
    ∷ restored "dispute-001" (at 50)
    ∷ updated 60 "dispute-001" (payload_of review_op)
    ∷ []

abbrev ending : DisputeRecord
ending = record first_dispute { status = resolved; resolution = some "paid"; updated_at = at 50 }

story_ends : get "dispute-001" (run 30 story store) ≡ some ending
unfolding run update_dispute get put is_within_retention_window
story_ends = refl

run-Follows_example : (d : DisputeRecord) × (get "dispute-001" store ≡ some d) × Follows d ending
unfolding get
run-Follows_example =
    run-Follows 30 story "dispute-001" store ending (refl, (refl, tt)) (tt, (tt, (tt, (tt, tt))))
      (unfold run update_dispute put in story_ends)
