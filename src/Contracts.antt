-- ===== src/Contracts.antt =====
-- repositories/contractRepository.ts: the two repositories of contracts, the table of the database
-- and the map in memory, both by id. Times are milliseconds, whose order is that of their ISO texts.
-- Statuses are of the declared ones, amounts are not negative, and the users that rows refer to are
-- there, so that the constraints of the table refuse no update. An update reads the contract, waits,
-- and then writes: the two parts are functions of their own, and the whole update is the case where
-- nothing else runs between them.
pub mod Repositories
pub mod Versions
mod Tests
use talenttrust_backend.Prelude.{
  ℕ, zero, suc, ◌+◌, ◌*◌, String, Bool, true, false, not, ◌&&◌, ◌||◌, ltb, leb, ◌==◌, if◌then◌else◌,
  Option, none, some, List, [], ◌∷◌, length, is_some, or_else, str_eq, Table, get, put,
  keep_entries, Result, ok, err,
}
use talenttrust_backend.SoftDelete.{at, day_ms, is_past_retention_window}

pub data ContractStatus : Type 0 where
  draft : ContractStatus
  active : ContractStatus
  completed : ContractStatus
  disputed : ContractStatus
  cancelled : ContractStatus

pub record Contract : Type 0 where
  pub title : String
  pub client_id : String
  pub freelancer_id : String
  pub amount : ℕ
  pub status : ContractStatus
  pub version : ℕ
  pub created_at : String
  pub deleted_at : Option ℕ

-- The fields that an update gives; none stands for a key that is not there.
pub record ContractFields : Type 0 where
  pub title : Option String
  pub status : Option ContractStatus
  pub amount : Option ℕ
  pub client_id : Option String
  pub freelancer_id : Option String
  pub deleted_at : Option (Option ℕ)

pub data ContractError : Type 0 where
  contract_not_found : ContractError
  version_conflict : ContractError
  not_soft_deleted : ContractError
  retention_over : ContractError

abbrev pub ContractTable : Type 0
ContractTable = Table Contract

abbrev pub is_gone : Contract → Bool
is_gone c = is_some c.deleted_at

-- The contract with the fields spread over it, as the map in memory writes it.
abbrev pub with_fields : ContractFields → Contract → Contract
with_fields f c = record {
  title = or_else f.title c.title;
  client_id = or_else f.client_id c.client_id;
  freelancer_id = or_else f.freelancer_id c.freelancer_id;
  amount = or_else f.amount c.amount;
  status = or_else f.status c.status;
  version = suc c.version;
  created_at = c.created_at;
  deleted_at = or_else f.deleted_at c.deleted_at;
}

-- The columns that the UPDATE sets: the client and the date of deletion are not among them.
abbrev pub with_columns : ContractFields → Contract → Contract
with_columns f c = record {
  title = or_else f.title c.title;
  client_id = c.client_id;
  freelancer_id = or_else f.freelancer_id c.freelancer_id;
  amount = or_else f.amount c.amount;
  status = or_else f.status c.status;
  version = suc c.version;
  created_at = c.created_at;
  deleted_at = c.deleted_at;
}

abbrev pub with_deleted_at : Option ℕ → Contract → Contract
with_deleted_at date c = record c { deleted_at = date }

-- Whether a restoration comes too late for a contract deleted then.
abbrev pub is_over : ℕ → ℕ → Option ℕ → Bool
is_over days now none = false
is_over days now (some date) = is_past_retention_window (at date) days (at now)

-- The map in memory.
abbrev pub shown : Bool → Option Contract → Option Contract
shown include_deleted none = none
shown include_deleted (some c) = if include_deleted || not (is_gone c) then some c else none

unfoldable pub memory_find_by_id : Bool → String → ContractTable → Option Contract
memory_find_by_id include_deleted id t = shown include_deleted (get id t)

-- The rest of an update from the contract that was found on.
abbrev pub update_found :
    String
    → ContractFields
    → ℕ
    → ContractTable
    → Option Contract
    → Result ContractError Contract × ContractTable
update_found id f expected t none = (err contract_not_found, t)
update_found id f expected t (some c) =
    if c.version == expected
    then (ok (with_fields f c), put id (with_fields f c) t)
    else (err version_conflict, t)

unfoldable pub memory_update_with_version :
    String → ContractFields → ℕ → ContractTable → Result ContractError Contract × ContractTable
memory_update_with_version id f expected t =
    update_found id f expected t (memory_find_by_id false id t)

abbrev delete_found : String → ℕ → ContractTable → Option Contract → Bool × ContractTable
delete_found id now t none = (false, t)
delete_found id now t (some c) =
    if is_gone c then (false, t) else (true, put id (with_deleted_at (some now) c) t)

unfoldable pub memory_delete : String → ℕ → ContractTable → Bool × ContractTable
memory_delete id now t = delete_found id now t (get id t)

abbrev restore_found :
    String → ℕ → ℕ → ContractTable → Option Contract → Result ContractError Contract × ContractTable
restore_found id now days t none = (err contract_not_found, t)
restore_found id now days t (some c) =
    if not (is_gone c)
    then (err not_soft_deleted, t)
    else if is_over days now c.deleted_at
    then (err retention_over, t)
    else (ok (with_deleted_at none c), put id (with_deleted_at none c) t)

unfoldable pub memory_restore :
    String → ℕ → ℕ → ContractTable → Result ContractError Contract × ContractTable
memory_restore id now days t = restore_found id now days t (get id t)

unfoldable pub memory_purge_expired : ℕ → ℕ → ContractTable → ContractTable
memory_purge_expired now days t =
    keep_entries (λ c. not (is_gone c && is_over days now c.deleted_at)) t

-- The table of the database: `SELECT`, `UPDATE` and its number of changes, by id and a test.
unfoldable pub select_row : (Contract → Bool) → String → ContractTable → Option Contract
select_row test id [] = none
select_row test id ((key, c) ∷ t) =
    let rest = select_row test id t in if str_eq key id && test c then some c else rest

unfoldable pub update_rows :
    (Contract → Bool) → (Contract → Contract) → String → ContractTable → ContractTable
update_rows test change id [] = []
update_rows test change id ((key, c) ∷ t) =
    (key, if str_eq key id && test c then change c else c) ∷ update_rows test change id t

unfoldable pub changes : (Contract → Bool) → String → ContractTable → ℕ
changes test id [] = 0
changes test id ((key, c) ∷ t) =
    let rest = changes test id t in if str_eq key id && test c then suc rest else rest

unfoldable pub sql_find_by_id : Bool → String → ContractTable → Option Contract
sql_find_by_id include_deleted id t = select_row (λ c. include_deleted || not (is_gone c)) id t

-- The row that is read back after an update, which is there.
abbrev row_or_404 : Option Contract → Result ContractError Contract
row_or_404 none = err contract_not_found
row_or_404 (some c) = ok c

abbrev pub is_current : ℕ → Contract → Bool
is_current expected c = c.version == expected && not (is_gone c)

-- The rest of an update after the contract was found or not.
unfoldable pub sql_write :
    String
    → ContractFields
    → ℕ
    → Option Contract
    → ContractTable
    → Result ContractError Contract × ContractTable
sql_write id f expected found t =
    let written = update_rows (is_current expected) (with_columns f) id t in
    if not (is_some found)
    then (err contract_not_found, t)
    else if changes (is_current expected) id t == 0
    then (err version_conflict, written)
    else (row_or_404 (sql_find_by_id false id written), written)

unfoldable pub sql_update_with_version :
    String → ContractFields → ℕ → ContractTable → Result ContractError Contract × ContractTable
unfolding sql_write
sql_update_with_version id f expected t = sql_write id f expected (sql_find_by_id false id t) t

unfoldable pub sql_delete : String → ℕ → ContractTable → Bool × ContractTable
sql_delete id now t = (
  ltb 0 (changes (λ c. not (is_gone c)) id t),
  update_rows (λ c. not (is_gone c)) (with_deleted_at (some now)) id t,
)

abbrev sql_restore_found :
    String → ℕ → ℕ → ContractTable → Option Contract → Result ContractError Contract × ContractTable
sql_restore_found id now days t none = (err contract_not_found, t)
sql_restore_found id now days t (some c) =
    let written = update_rows (λ d. true) (with_deleted_at none) id t in
    if not (is_gone c)
    then (err not_soft_deleted, t)
    else if is_over days now c.deleted_at
    then (err retention_over, t)
    else (row_or_404 (sql_find_by_id true id written), written)

unfoldable pub sql_restore :
    String → ℕ → ℕ → ContractTable → Result ContractError Contract × ContractTable
sql_restore id now days t = sql_restore_found id now days t (sql_find_by_id true id t)

-- `deleted_at <= now - days`
abbrev is_at_cutoff : ℕ → ℕ → Option ℕ → Bool
is_at_cutoff days now none = false
is_at_cutoff days now (some date) = leb (date + days * day_ms) now

unfoldable pub sql_purge_expired : ℕ → ℕ → ContractTable → ContractTable
sql_purge_expired now days t = keep_entries (λ c. not (is_at_cutoff days now c.deleted_at)) t
