-- ===== src/Limiter.antt =====
-- middleware/rateLimiter.ts: the request limiter with its blocks for abuse, on what the store
-- (lib/rateLimitStore.ts) and the abuse map hold for one key, and the sweep of the store, which runs
-- on a timer between requests. The response headers are left out.
pub mod Windows
mod Tests
use talenttrust_backend.Prelude.{
  ℕ, ◌+◌, ◌*◌, min, Bool, true, false, not, ◌&&◌, ◌||◌, ltb, leb, if◌then◌else◌, Option, none, some,
  List, [], ◌∷◌, or_else,
}

pub record RateLimiterConfig : Type 0 where
  pub max_requests : ℕ
  pub window_ms : ℕ
  pub abuse_threshold : ℕ
  pub block_window_ms : ℕ
  pub block_duration_ms : ℕ
  pub max_block_duration_ms : ℕ

pub record RateLimitEntry : Type 0 where
  pub count : ℕ
  pub window_start : ℕ
  pub blocked : Bool
  pub blocked_until : ℕ

pub record AbuseRecord : Type 0 where
  pub violations : ℕ
  pub first_violation : ℕ
  pub block_duration : ℕ

-- What is stored for a key.
pub record KeyState : Type 0 where
  pub entry : Option RateLimitEntry
  pub abuse : Option AbuseRecord

abbrev pub unseen : KeyState
unseen = record { entry = none; abuse = none }

-- Whether the request is passed on, and what is stored then.
pub record Answer : Type 0 where
  pub passed : Bool
  pub kept : KeyState

abbrev pub fresh_entry : ℕ → RateLimitEntry
fresh_entry now = record { count = 0; window_start = now; blocked = false; blocked_until = 0 }

abbrev pub fresh_abuse : RateLimiterConfig → ℕ → AbuseRecord
fresh_abuse c now = record {
  violations = 0;
  first_violation = now;
  block_duration = c.block_duration_ms;
}

-- A new window where the old one is over, and the request counted.
abbrev pub count_request : RateLimiterConfig → ℕ → RateLimitEntry → RateLimitEntry
count_request c now e =
    let live =
      if ltb (e.window_start + c.window_ms) now
      then record e { count = 0; window_start = now }
      else e in
    record live { count = live.count + 1 }

abbrev pub count_violation : RateLimiterConfig → ℕ → AbuseRecord → AbuseRecord
count_violation c now a =
    let live = if ltb (a.first_violation + c.block_window_ms) now then fresh_abuse c now else a in
    record live { violations = live.violations + 1 }

abbrev pub set_block : RateLimiterConfig → ℕ → RateLimitEntry → AbuseRecord → Answer
set_block c now e a = record {
  passed = false;
  kept = record {
    entry = some (record e {
      blocked = true;
      blocked_until = now + min a.block_duration c.max_block_duration_ms;
    });
    abuse = some (record a { block_duration = min (a.block_duration * 2) c.max_block_duration_ms });
  };
}

abbrev pub violate : RateLimiterConfig → ℕ → RateLimitEntry → AbuseRecord → Answer
violate c now e a =
    if leb c.abuse_threshold a.violations
    then set_block c now e a
    else record { passed = false; kept = record { entry = some e; abuse = some a } }

-- The request where the key is not blocked.
unfoldable pub admit : RateLimiterConfig → ℕ → KeyState → Answer
admit c now s =
    let e = count_request c now (or_else s.entry (fresh_entry now)) in
    if ltb c.max_requests e.count
    then violate c now e (count_violation c now (or_else s.abuse (fresh_abuse c now)))
    else record { passed = true; kept = record { entry = some e; abuse = s.abuse } }

abbrev pub limit_found : RateLimiterConfig → ℕ → KeyState → Option RateLimitEntry → Answer
limit_found c now s none = admit c now s
limit_found c now s (some e) =
    if e.blocked
    then if ltb now e.blocked_until then record { passed = false; kept = s } else admit c now unseen
    else admit c now s

unfoldable pub limit_request : RateLimiterConfig → ℕ → KeyState → Answer
unfolding admit
limit_request c now s = limit_found c now s s.entry

-- `now - windowStart > windowMs` and `!blocked || now > blockedUntil`
abbrev is_stale : ℕ → ℕ → RateLimitEntry → Bool
is_stale window now e =
    ltb (e.window_start + window) now && (not e.blocked || ltb e.blocked_until now)

abbrev swept_entry : ℕ → ℕ → Option RateLimitEntry → Option RateLimitEntry
swept_entry window now none = none
swept_entry window now (some e) = if is_stale window now e then none else some e

-- The sweep of the store, which knows nothing of the abuse map.
unfoldable pub sweep_store : ℕ → ℕ → KeyState → KeyState
sweep_store window now s = record { entry = swept_entry window now s.entry; abuse = s.abuse }

-- The window that the timer sweeps with.
abbrev pub sweep_window_ms : ℕ
sweep_window_ms = 60_000
