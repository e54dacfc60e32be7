-- ===== src/Milestones/Service.antt =====
-- services/milestones.service.ts: the operations on the store of milestones, a map from id to
-- record. Times and fresh ids are arguments, the retention days are those of the settings, and the
-- webhook that is fired, whose delivery changes nothing here, is returned.
use talenttrust_backend.Prelude.{
  ℕ, suc, String, Bool, false, not, ◌&&◌, ◌||◌, leb, if◌then◌else◌, Option, none, some, List, [],
  ◌∷◌, Table, get, put, values, keep_entries, keep_if, or_else, sort, str_eq, Result, ok, err,
  ◌>>=◌, ◌>>◌, guard,
}
use talenttrust_backend.SoftDelete.{
  JsDate, at, is_soft_deleted, is_within_retention_window, is_past_retention_window,
  filter_not_deleted,
}
use talenttrust_backend.Milestones.{Amount}

pub record MilestoneRecord : Type 0 where
  pub id : String
  pub contract_id : String
  pub title : String
  pub description : String
  pub amount : Amount
  pub deadline : Option String
  pub completed : Bool
  pub created_at : ℕ
  pub updated_at : JsDate
  pub deleted_at : Option JsDate

pub record CreateMilestoneInput : Type 0 where
  pub title : String
  pub description : Option String
  pub amount : Amount
  pub deadline : Option String
  pub completed : Option Bool

-- The errors thrown: not found (404), conflict (409) and retention over (410).
pub data MilestoneError : Type 0 where
  milestone_not_found : MilestoneError
  milestone_already_deleted : MilestoneError
  milestone_not_deleted : MilestoneError
  milestone_retention_expired : MilestoneError

abbrev pub MilestoneStore : Type 0
MilestoneStore = Table MilestoneRecord

-- The payload of `milestone.released`.
pub record Released : Type 0 where
  pub milestone_id : String
  pub contract_id : String
  pub title : String
  pub amount : Amount
  pub completed_at : JsDate

abbrev pub new_milestone : ℕ → String → String → CreateMilestoneInput → MilestoneRecord
new_milestone now uuid contract input = record {
  id = uuid;
  contract_id = contract;
  title = input.title;
  description = or_else input.description "";
  amount = input.amount;
  deadline = input.deadline;
  completed = or_else input.completed false;
  created_at = now;
  updated_at = at now;
  deleted_at = none;
}

abbrev released : MilestoneRecord → Released
released m = record {
  milestone_id = m.id;
  contract_id = m.contract_id;
  title = m.title;
  amount = m.amount;
  completed_at = m.updated_at;
}

-- `has_webhooks` says whether the service was made with a webhook service.
unfoldable pub create_milestone :
    Bool
    → ℕ
    → String
    → String
    → CreateMilestoneInput
    → MilestoneStore
    → MilestoneRecord × MilestoneStore × Option Released
create_milestone has_webhooks now uuid contract input store =
    let m = new_milestone now uuid contract input in
    (m, put uuid m store, if has_webhooks && m.completed then some (released m) else none)

-- `a.createdAt - b.createdAt`, oldest first.
abbrev pub oldest_first : MilestoneRecord → MilestoneRecord → Bool
oldest_first a b = leb a.created_at b.created_at

unfoldable pub list_by_contract : String → Bool → MilestoneStore → List MilestoneRecord
list_by_contract contract include_deleted store =
    let all = keep_if (λ m. str_eq m.contract_id contract) (values store) in
    let filtered = if include_deleted then all else filter_not_deleted (λ m. m.deleted_at) all in
    sort oldest_first filtered

-- `if (!record || record.contractId !== contractId) throw ...`
abbrev owned_or_404 : String → Option MilestoneRecord → Result MilestoneError MilestoneRecord
owned_or_404 contract none = err milestone_not_found
owned_or_404 contract (some m) =
    if str_eq m.contract_id contract then ok m else err milestone_not_found

unfoldable pub get_milestone_by_id :
    String → String → Bool → MilestoneStore → Result MilestoneError MilestoneRecord
get_milestone_by_id contract id include_deleted store = do
  m ← owned_or_404 contract (get id store)
  guard (include_deleted || not (is_soft_deleted m.deleted_at)) milestone_not_found
  ok m

unfoldable pub soft_delete_milestone :
    String
    → String
    → JsDate
    → MilestoneStore
    → Result MilestoneError (MilestoneRecord × MilestoneStore)
soft_delete_milestone contract id now store = do
  m ← owned_or_404 contract (get id store)
  guard (not (is_soft_deleted m.deleted_at)) milestone_already_deleted
  let updated = record m { deleted_at = some now; updated_at = now }
  ok (updated, put id updated store)

abbrev deleted_or_409 : Option JsDate → Result MilestoneError JsDate
deleted_or_409 none = err milestone_not_deleted
deleted_or_409 (some t) = ok t

unfoldable pub restore_milestone :
    ℕ
    → String
    → String
    → JsDate
    → MilestoneStore
    → Result MilestoneError (MilestoneRecord × MilestoneStore)
restore_milestone retention_days contract id now store = do
  m ← owned_or_404 contract (get id store)
  deleted_at ← deleted_or_409 m.deleted_at
  guard (is_within_retention_window deleted_at retention_days now) milestone_retention_expired
  let updated = record m { deleted_at = none; updated_at = now }
  ok (updated, put id updated store)

-- The test of the purge loop.
abbrev pub milestone_expired : ℕ → JsDate → MilestoneRecord → Bool
milestone_expired retention_days now m = elim m.deleted_at [
  | none ↦ false
  | some t ↦ is_past_retention_window t retention_days now
]

abbrev count_expired : ℕ → JsDate → List MilestoneRecord → ℕ
count_expired days now [] = 0
count_expired days now (m ∷ ms) =
    let n = count_expired days now ms in if milestone_expired days now m then suc n else n

unfoldable pub purge_expired_milestones : ℕ → JsDate → MilestoneStore → MilestoneStore × ℕ
purge_expired_milestones retention_days now store = (
  keep_entries (λ m. not (milestone_expired retention_days now m)) store,
  count_expired retention_days now (values store),
)
