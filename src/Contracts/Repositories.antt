-- ===== src/Contracts/Repositories.antt =====
-- repositories/contractRepository.ts: the table of the database and the map in memory give the same
-- answers, but for the purge of expired contracts.
use talenttrust_backend.Prelude.{
  sym, ℕ, String, Bool, not, if◌then◌else◌, Option, none, some, List, [], ◌∷◌, put, Result, ◌≡◌,
  sym,
}
use talenttrust_backend.Contracts.{
  Contract, ContractFields, ContractError, ContractTable, is_gone, memory_update_with_version,
  memory_delete, memory_restore, sql_update_with_version, sql_delete, sql_restore,
}

module _ (test : Contract → Bool) where
  abbrev if_tested : Option Contract → Option Contract
  if_tested none = none
  if_tested (some c) = if test c then some c else none

  abbrev count_tested : Option Contract → ℕ
  count_tested none = 0
  count_tested (some c) = if test c then 1 else 0

  abbrev put_tested :
      (Contract → Contract) → String → ContractTable → Option Contract → ContractTable
  put_tested change id t none = t
  put_tested change id t (some c) = if test c then put id (change c) t else t

-- An update, a deletion or a restoration.
pub data Operation : Type 0 where
  updating : String → ContractFields → ℕ → Operation
  deleting : String → ℕ → Operation
  restoring : String → ℕ → ℕ → Operation

pub data RepositoryAnswer : Type 0 where
  contract_answer : Result ContractError Contract → RepositoryAnswer
  deletion_answer : Bool → RepositoryAnswer

abbrev pub memory_step : Operation → ContractTable → RepositoryAnswer × ContractTable
memory_step (updating id f expected) t =
    let (r, after) = memory_update_with_version id f expected t in (contract_answer r, after)
memory_step (deleting id now) t =
    let (r, after) = memory_delete id now t in (deletion_answer r, after)
memory_step (restoring id now days) t =
    let (r, after) = memory_restore id now days t in (contract_answer r, after)

abbrev pub sql_step : Operation → ContractTable → RepositoryAnswer × ContractTable
sql_step (updating id f expected) t =
    let (r, after) = sql_update_with_version id f expected t in (contract_answer r, after)
sql_step (deleting id now) t = let (r, after) = sql_delete id now t in (deletion_answer r, after)
sql_step (restoring id now days) t =
    let (r, after) = sql_restore id now days t in (contract_answer r, after)

abbrev is_here : Contract → Bool
is_here c = not (is_gone c)

-- The fields that are columns of the UPDATE.
abbrev columns : ContractFields → ContractFields
columns f = record f { client_id = none; deleted_at = none }

-- An update gives neither the client nor the date of deletion.
abbrev pub HasColumns : Operation → Type 0
HasColumns (updating id f expected) = (f.client_id ≡ none) × (f.deleted_at ≡ none)
HasColumns _ = Unit

-- Operations in turn, with their answers.
abbrev pub run_steps :
    (Operation → ContractTable → RepositoryAnswer × ContractTable)
    → List Operation
    → ContractTable
    → List RepositoryAnswer × ContractTable
run_steps step [] t = ([], t)
run_steps step (op ∷ ops) t =
    let (answer, after) = step op t in
    let (answers, last) = run_steps step ops after in (answer ∷ answers, last)
