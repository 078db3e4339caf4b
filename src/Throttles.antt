-- ===== src/Throttles.antt =====
-- api/src/common/edit-throttle.service.ts, api/src/common/ip-throttle.ts and the two throttles made of
-- it, api/src/admin-auth/login-throttle.service.ts and
-- api/src/candidate-auth/magic-link-throttle.service.ts.
pub mod Windows
use interview_insights.Prelude.{
  ℕ, zero, suc, ◌+◌, Bool, true, false, not, ◌&&◌, Option, none, some, List, [], ◌∷◌, ltb, leb,
  ◌==◌, if◌then◌else◌,
}
use interview_insights.Prisma.{Prisma}
use interview_insights.Schema.{EditThrottleState, Db}
use interview_insights.World.{World, Action, pure, gets, put_db, ◌>>=◌, ◌>>◌}

-- WINDOW_MS and MAX_EDITS_PER_WINDOW
abbrev pub edit_window_ms : ℕ
edit_window_ms = 3600000

abbrev pub max_edits_per_window : ℕ
max_edits_per_window = 5

-- where: { candidateId }
abbrev pub is_of : ℕ → EditThrottleState → Bool
is_of candidate s = s.candidate_id == candidate

-- `windowStart >= now - WINDOW_MS`, on both sides of which the window is added.
abbrev pub is_current : ℕ → EditThrottleState → Bool
is_current now s = leb now (s.window_start + edit_window_ms)

-- where: { candidateId, windowStart: { gte: windowFloor }, count: { lt: MAX_EDITS_PER_WINDOW } }
abbrev pub is_under_cap : ℕ → ℕ → EditThrottleState → Bool
is_under_cap candidate now s =
    is_of candidate s && is_current now s && ltb s.count max_edits_per_window

-- data: { count: { increment: 1 } }
abbrev pub bumped_row : EditThrottleState → EditThrottleState
bumped_row s = record s { count = s.count + 1 }

-- update: { windowStart: now, count: 1 }
abbrev pub restarted_row : ℕ → EditThrottleState → EditThrottleState
restarted_row now s = record s { window_start = now; count = 1 }

-- `current && current.windowStart >= windowFloor`
abbrev pub is_found_current : ℕ → Option EditThrottleState → Bool
is_found_current now none = false
is_found_current now (some s) = is_current now s

module _ ⦃P : Prisma⦄ where
  -- The atomic increment, which says how many rows it matched.
  unfoldable pub bump : ℕ → Action ℕ
  bump candidate = do
    now ← gets (λ w. w.now)
    db ← gets (λ w. w.db)
    let (bumped, rows) = P.update_many (is_under_cap candidate now) bumped_row db.edit_throttle
    put_db (record db { edit_throttle = rows })
    pure bumped

  -- A fresh window, for a candidate without one or with one that has expired.
  unfoldable pub start_fresh : Bool → ℕ → Action Bool
  start_fresh true candidate = pure false
  start_fresh false candidate = do
    now ← gets (λ w. w.now)
    db ← gets (λ w. w.db)
    put_db (record db {
      edit_throttle =
          P.upsert (is_of candidate)
            (record { candidate_id = candidate; window_start = now; count = 1 }) (restarted_row now)
            db.edit_throttle;
    })
    pure true

  -- What runs where the increment matched nothing.
  unfoldable pub start_window : ℕ → Action Bool
  unfolding start_fresh
  start_window candidate = do
    now ← gets (λ w. w.now)
    current ← gets (λ w. P.find_first (is_of candidate) w.db.edit_throttle)
    start_fresh (is_found_current now current) candidate

  unfoldable pub after_bump : ℕ → ℕ → Action Bool
  unfolding start_window
  after_bump candidate zero = start_window candidate
  after_bump candidate (suc n) = pure true

  unfoldable pub record_attempt_if_allowed : ℕ → Action Bool
  unfolding bump after_bump
  record_attempt_if_allowed candidate = do bumped ← bump candidate; after_bump candidate bumped

-- An entry of the map of an IpThrottle.
pub record Attempts : Type 0 where
  pub count : ℕ
  pub window_start : ℕ

-- IpThrottleOptions
pub record IpThrottleOptions : Type 0 where
  pub window_ms : ℕ
  pub max_attempts_per_window : ℕ

-- LoginThrottleService
abbrev pub login_throttle : IpThrottleOptions
login_throttle = record { window_ms = 900000; max_attempts_per_window = 5 }

-- `now - entry.windowStart >= windowMs`, on both sides of which the start is added.
abbrev pub is_expired : IpThrottleOptions → ℕ → Attempts → Bool
is_expired o now e = leb (e.window_start + o.window_ms) now

-- isBlocked, on the entry of the address.
unfoldable pub is_blocked : IpThrottleOptions → ℕ → Option Attempts → Bool
is_blocked o now none = false
is_blocked o now (some e) =
    if is_expired o now e then false else leb o.max_attempts_per_window e.count

-- recordAttempt, on the entry of the address.
unfoldable pub record_attempt : IpThrottleOptions → ℕ → Option Attempts → Attempts
record_attempt o now none = record { count = 1; window_start = now }
record_attempt o now (some e) =
    if is_expired o now e
    then record { count = 1; window_start = now }
    else record e { count = e.count + 1 }

-- LoginThrottleGuard: whether the request goes on, and the entry of its address afterwards.
unfoldable pub throttle_guard : IpThrottleOptions → ℕ → Option Attempts → Bool × Option Attempts
unfolding is_blocked record_attempt
throttle_guard o now e =
    if is_blocked o now e then (false, e) else (true, some (record_attempt o now e))
