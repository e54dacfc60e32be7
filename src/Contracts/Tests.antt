-- ===== src/Contracts/Tests.antt =====
-- The theorems on contracts at a table of one contract.
use talenttrust_backend.Prelude.{
  Option, false, ◌≤◌, ◌+◌, ◌*◌, none, some, List, [], ◌∷◌, get, put, IsMap, ok, ◌≡◌, refl,
}
use talenttrust_backend.SoftDelete.{day_ms}
use talenttrust_backend.Contracts.{
  sql_write, update_found, Contract, draft, active, ContractFields, ContractTable, with_deleted_at,
  with_fields, memory_update_with_version, memory_find_by_id, memory_restore, memory_purge_expired,
  sql_purge_expired, sql_update_with_version, sql_find_by_id, select_row, update_rows, changes,
}
use talenttrust_backend.Contracts.Repositories.{Operation, updating, deleting, restoring}
use talenttrust_backend.Contracts.Versions.{
  one_write_wins, writes_done, overlapping_updates_lost, purge_at_boundary,
}

abbrev contract : Contract
contract = record {
  title = "site";
  client_id = "ann";
  freelancer_id = "bob";
  amount = 100;
  status = draft;
  version = 0;
  created_at = "now";
  deleted_at = none;
}

abbrev contracts : ContractTable
contracts = ("c1", contract) ∷ []

abbrev activate : ContractFields
activate = record {
  title = none;
  status = some active;
  amount = none;
  client_id = none;
  freelancer_id = none;
  deleted_at = none;
}

abbrev rename : ContractFields
rename = record {
  title = some "shop";
  status = none;
  amount = none;
  client_id = none;
  freelancer_id = none;
  deleted_at = none;
}

abbrev operations : List Operation
operations =
    updating "c1" activate 0
    ∷ updating "c1" rename 0
    ∷ deleting "c1" 5
    ∷ updating "c1" rename 1
    ∷ restoring "c1" 6 30
    ∷ []

written :
    (memory_update_with_version "c1" activate 0 contracts).0 ≡ ok (with_fields activate contract)
unfolding memory_update_with_version memory_find_by_id get put
written = refl

read_back :
    (sql_update_with_version "c1" activate 0 contracts).0 ≡ ok (with_fields activate contract)
unfolding sql_update_with_version sql_write sql_find_by_id select_row update_rows changes
read_back = refl

abbrev both : List (ContractFields × Option Contract)
both = (activate, some contract) ∷ (rename, some contract) ∷ []

one_done : writes_done "c1" 0 both contracts ≡ 1
unfolding writes_done sql_write sql_find_by_id select_row update_rows changes
one_done = refl

one_write_wins_example : writes_done "c1" 0 both contracts ≤ 1
one_write_wins_example = one_write_wins "c1" 0 both contracts

here : memory_find_by_id false "c1" contracts ≡ some contract
unfolding memory_find_by_id get
here = refl

overlapping_updates_lost_example :
    let found = memory_find_by_id false "c1" contracts in
    let (r, t) = update_found "c1" activate 0 contracts found in
    let (r', t') = update_found "c1" rename 0 t found in
    (r ≡ ok (with_fields activate contract))
    × (r' ≡ ok (with_fields rename contract))
    × (get "c1" t' ≡ some (with_fields rename contract))
overlapping_updates_lost_example =
    overlapping_updates_lost "c1" activate rename contract contracts here

-- A client that an update gives is written in memory and ignored by the table.
abbrev hand_over : ContractFields
hand_over = record rename { client_id = some "eve" }

given_in_memory :
    (memory_update_with_version "c1" hand_over 0 contracts).0 ≡ ok (with_fields hand_over contract)
unfolding memory_update_with_version memory_find_by_id get put
given_in_memory = refl

ignored_by_table :
    (sql_update_with_version "c1" hand_over 0 contracts).0 ≡ ok (with_fields rename contract)
unfolding sql_update_with_version sql_write sql_find_by_id select_row update_rows changes
ignored_by_table = refl

abbrev gone : Contract
gone = with_deleted_at (some 5) contract

abbrev deleted : ContractTable
deleted = ("c1", gone) ∷ []

deleted-IsMap : IsMap deleted
unfolding get
deleted-IsMap = (refl, tt)

there : get "c1" deleted ≡ some gone
unfolding get
there = refl

purge_at_boundary_example :
    ((memory_restore "c1" (5 + 30 * day_ms) 30 deleted).0 ≡ ok (with_deleted_at none gone))
    × (get "c1" (memory_purge_expired (5 + 30 * day_ms) 30 deleted) ≡ some gone)
    × (get "c1" (sql_purge_expired (5 + 30 * day_ms) 30 deleted) ≡ none)
purge_at_boundary_example = purge_at_boundary "c1" 30 5 gone deleted deleted-IsMap there refl
