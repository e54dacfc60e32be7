-- ===== src/Breaker/Registry.antt =====
-- circuit-breaker/registry.ts: the breakers by name. A caller holds the very breaker that the
-- registry keeps, so a step of it is a step of the registry's entry.
use talenttrust_backend.Prelude.{
  ℕ, String, ◌≡◌, refl, ◌⊎◌, inl, inr, Bool, true, false, Option, none, some, List, [], ◌∷◌,
  if◌then◌else◌, or_else, Option-cases, Table, get, put, has, get-put, get-put_self, All, All-map,
  All-put, All-get, All-absent, Result, ok, err, str_eq,
}
use talenttrust_backend.Breaker.{Breaker, Options, Stats, create, reset, get_stats}

pub record BreakerConfig : Type 0 where
  pub failure_threshold : ℕ
  pub success_threshold : ℕ
  pub timeout : ℕ

pub record Registry : Type 0 where
  pub breakers : Table Breaker
  pub configs : Table BreakerConfig

abbrev pub config_of : Options → BreakerConfig
config_of o = record {
  failure_threshold = or_else o.failure_threshold 5;
  success_threshold = or_else o.success_threshold 1;
  timeout = or_else o.timeout 30_000;
}

-- `{ name, ...options }`
abbrev named : String → Options → Options
named name o = record o { name = some (or_else o.name name) }

unfoldable pub get_or_create : String → Options → Registry → Registry
get_or_create name options r =
    let opts = named name options in
    if has name r.breakers then r else record {
      breakers = put name (create opts) r.breakers;
      configs = put name (config_of opts) r.configs;
    }

pub record BreakerStatus : Type 0 where
  pub name : String
  pub stats : Stats
  pub config : BreakerConfig

abbrev status_of : String → Stats → Option BreakerConfig → Option BreakerStatus
status_of name s none = none
status_of name s (some cfg) = some (record { name = name; stats = s; config = cfg })

abbrev cons_status :
    Option BreakerStatus → Option (List BreakerStatus) → Option (List BreakerStatus)
cons_status (some s) (some rest) = some (s ∷ rest)
cons_status _ _ = none

-- The rows of `getAll`; `none` is the fault of reading a configuration that is not there.
unfoldable pub statuses : ℕ → Table BreakerConfig → Table Breaker → Option (List BreakerStatus)
unfolding get_stats
statuses now configs [] = some []
statuses now configs ((name, b) ∷ rest) =
    cons_status (status_of name (get_stats now b).1 (get name configs)) (statuses now configs rest)

-- What `getAll` leaves behind: each breaker has looked at the clock.
unfoldable pub refresh : ℕ → Table Breaker → Table Breaker
unfolding get_stats
refresh now [] = []
refresh now ((name, b) ∷ rest) = (name, (get_stats now b).0) ∷ refresh now rest

unfoldable pub get_all : ℕ → Registry → Registry × Option (List BreakerStatus)
unfolding refresh statuses
get_all now r = (record r { breakers = refresh now r.breakers }, statuses now r.configs r.breakers)

reset_found : String → Option Breaker → Registry → Registry × Bool
reset_found name none r = (r, false)
reset_found name (some b) r = (record r { breakers = put name (reset b) r.breakers }, true)

unfoldable pub reset_one : String → Registry → Registry × Bool
unfolding reset_found
reset_one name r = reset_found name (get name r.breakers) r

pub record AuditEntry : Type 0 where
  pub action : String
  pub severity : String
  pub actor : String
  pub resource : String
  pub resource_id : String

pub record AppError : Type 0 where
  pub status : ℕ
  pub code : String

-- `resetBreaker` on a found breaker logs one entry, returned here; else it throws.
unfoldable pub reset_breaker : String → String → Registry → Registry × Result AppError AuditEntry
unfolding reset_one
reset_breaker name performed_by r =
    let (r', found) = reset_one name r in
    if found
    then (
      r',
      ok (record {
        action = "ADMIN_ACTION";
        severity = "INFO";
        actor = performed_by;
        resource = "circuit_breaker";
        resource_id = name;
      }),
    )
    else (r', err (record { status = 400; code = "bad_request" }))

unfoldable pub clear : Registry → Registry
clear r = record { breakers = []; configs = [] }

-- The configuration that the registry keeps for a name is the one that its breaker runs with.
abbrev pub Matches : Table BreakerConfig → String × Breaker → Type 0
Matches configs e =
    get e.0 configs
    ≡ some (record {
      failure_threshold = e.1.failure_threshold;
      success_threshold = e.1.success_threshold;
      timeout = e.1.timeout;
    })

abbrev pub IsConfigured : Registry → Type 0
IsConfigured r = All (Matches r.configs) r.breakers

create-Matches :
    (name : String) (o : Options) (configs : Table BreakerConfig)
    → Matches (put name (config_of o) configs) (name, create o)
unfolding create
create-Matches name o configs = get-put_self name (config_of o) configs

kept-Matches :
    (name : String) (c : BreakerConfig) (configs : Table BreakerConfig) (e : String × Breaker)
    → Matches configs e × (str_eq name e.0 ≡ false)
    → Matches (put name c configs) e
kept-Matches name c configs e (m, other) = rw (get-put, other) m

-- Whatever options a breaker is first asked for with, the configuration that the registry reports
-- for every name stays the one that its breaker runs with.
pub get_or_create-IsConfigured :
    (name : String) (o : Options) (r : Registry)
    → IsConfigured r
    → IsConfigured (get_or_create name o r)
unfolding get_or_create
get_or_create-IsConfigured name o r h = elim (Option-cases (get name r.breakers)) [
  | inl absent ↦
      let opts = named name o in
      let configs = put name (config_of opts) r.configs in
      rw absent (
        All-put (Matches configs) name (create opts) r.breakers (create-Matches name opts r.configs)
          (All-map _ _ r.breakers (kept-Matches name (config_of opts) r.configs)
            (All-absent (Matches r.configs) name r.breakers absent h)))
  | inr (b, present) ↦ rw present h
]

reset-Matches :
    (configs : Table BreakerConfig) (name : String) (b : Breaker)
    → Matches configs (name, b)
    → Matches configs (name, reset b)
unfolding reset
reset-Matches configs name b m = m

pub reset_one-IsConfigured :
    (name : String) (r : Registry) → IsConfigured r → IsConfigured (reset_one name r).0
unfolding reset_one
reset_one-IsConfigured name r h = elim (Option-cases (get name r.breakers)) [
  | inl absent ↦ rw absent h
  | inr (b, present) ↦ rw present (
      All-put (Matches r.configs) name (reset b) r.breakers
        (reset-Matches r.configs name b (All-get (Matches r.configs) name r.breakers present h)) h)
]

-- A row agrees with the breaker that it reports on.
abbrev pub Reports : ℕ → String × Breaker → BreakerStatus → Type 0
Reports now (name, b) s =
    (s.name ≡ name)
    × (s.stats ≡ (get_stats now b).1)
    × (s.config.failure_threshold ≡ b.failure_threshold)
    × (s.config.success_threshold ≡ b.success_threshold)
    × (s.config.timeout ≡ b.timeout)

abbrev pub ReportsAll : ℕ → Table Breaker → List BreakerStatus → Type 0
ReportsAll now [] [] = Unit
ReportsAll now (e ∷ m) (s ∷ rows) = Reports now e s × ReportsAll now m rows
ReportsAll now _ _ = ⊥

statuses-total :
    (now : ℕ) (configs : Table BreakerConfig) (m : Table Breaker)
    → All (Matches configs) m
    → (rows : List BreakerStatus) × (statuses now configs m ≡ some rows) × ReportsAll now m rows
unfolding statuses
statuses-total now configs [] h = ([], refl, tt)
statuses-total now configs ((name, b) ∷ m) (p, h) =
    let (rows, found, reported) = statuses-total now configs m h in
    (
      record {
        name = name;
        stats = (get_stats now b).1;
        config = record {
          failure_threshold = b.failure_threshold;
          success_threshold = b.success_threshold;
          timeout = b.timeout;
        };
      }
          ∷ rows,
      rw (p, found),
      ((refl, refl, refl, refl, refl), reported),
    )

-- In a registry whose configurations match, the status listing meets no missing configuration, and
-- has one row for each breaker, in order: its name, its counters and the thresholds that it runs
-- with.
get_all_total :
    (now : ℕ) (r : Registry)
    → IsConfigured r
    → (rows : List BreakerStatus) × ((get_all now r).1 ≡ some rows) × ReportsAll now r.breakers rows
unfolding get_all
get_all_total now r h = statuses-total now r.configs r.breakers h

-- Resetting a named breaker through the admin operation either throws the 400 error for a name
-- that is not registered and changes nothing, or resets exactly that breaker and returns the audit
-- entry with the admin and the name.
pub reset_breaker_lem :
    (name by : String) (r : Registry)
    → ((get name r.breakers ≡ none)
        × (reset_breaker name by r ≡ (r, err (record { status = 400; code = "bad_request" }))))
      ⊎ ((b : Breaker) × (entry : AuditEntry) × (get name r.breakers ≡ some b)
          × (reset_breaker name by r
              ≡ (record r { breakers = put name (reset b) r.breakers }, ok entry))
          × (entry.actor ≡ by)
          × (entry.resource_id ≡ name))
unfolding reset_breaker
reset_breaker_lem name by r = elim (Option-cases (get name r.breakers)) [
  | inl absent ↦ inl (absent, rw (absent, reset_found) refl)
  | inr (b, present) ↦ inr (
    b,
    record {
      action = "ADMIN_ACTION";
      severity = "INFO";
      actor = by;
      resource = "circuit_breaker";
      resource_id = name;
    },
    present,
    rw (present, reset_found) refl,
    refl,
    refl,
  )
]
