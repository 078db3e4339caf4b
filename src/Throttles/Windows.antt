-- ===== src/Throttles/Windows.antt =====
-- Sequences of attempts at the throttles (api/src/common).

use interview_insights.Prelude.{
  ℕ, zero, suc, ◌+◌, ◌≤◌, ◌≡◌, refl, inl, inr, Bool, true, false, not, ◌&&◌, Option, none, some,
  List, [], ◌∷◌, ◌++◌, length, first, change, count_where, count-zero_of_first, count-zero_of_none,
  count-pos_of_first, first_sound, first-change, change-none, count-eq-zero, All, IsKeyed,
  IsKeyed-change, ltb, leb, ◌==◌, if◌then◌else◌, Bool-cases, Option-cases, arith,
}
use interview_insights.Prisma.{Prisma}
use interview_insights.Schema.{EditThrottleState}
use interview_insights.World.{World, Result, ok, raised}
use interview_insights.Throttles.{
  edit_window_ms, max_edits_per_window, is_of, is_current, is_found_current, is_under_cap,
  bumped_row, restarted_row, bump, start_fresh, start_window, after_bump, record_attempt_if_allowed,
  Attempts, IpThrottleOptions, is_blocked, record_attempt, throttle_guard,
}

abbrev pub with_throttle : World → List EditThrottleState → World
with_throttle w rows = record w { db = record w.db { edit_throttle = rows } }

-- What an attempt answers and does to the table, by the candidate's row.
abbrev pub edit_outcome : ℕ → World → Option EditThrottleState → Bool × World
edit_outcome candidate w none = (
  true,
  with_throttle w (
      w.db.edit_throttle
      ++ record { candidate_id = candidate; window_start = w.now; count = 1 } ∷ []),
)
edit_outcome candidate w (some s) =
    if not (is_current w.now s)
    then (true, with_throttle w (change (is_of candidate) (restarted_row w.now) w.db.edit_throttle))
    else if ltb s.count 5
    then (
      true,
      with_throttle w (change (is_under_cap candidate w.now) bumped_row w.db.edit_throttle),
    )
    else (false, w)

-- The smaller of two numbers.
abbrev pub capped : ℕ → ℕ → ℕ
capped cap n = if leb n cap then n else cap

suc_of_pos : (n : ℕ) → 1 ≤ n → (m : ℕ) × (n ≡ suc m)
suc_of_pos zero h = absurd (omega arith)
suc_of_pos (suc m) h = (m, refl)

module _ ⦃P : Prisma⦄ (candidate : ℕ) where
  bump-eq :
      (w : World)
      → bump candidate w ≡ (
        ok (count_where (is_under_cap candidate w.now) w.db.edit_throttle),
        with_throttle w (change (is_under_cap candidate w.now) bumped_row w.db.edit_throttle),
      )
  unfolding bump
  bump-eq w =
      ground (arith, P.update_many_law (is_under_cap candidate w.now) bumped_row w.db.edit_throttle)

  attempt_under :
      (w : World) (s : EditThrottleState)
      → first (is_of candidate) w.db.edit_throttle ≡ some s
      → is_under_cap candidate w.now s ≡ true
      → record_attempt_if_allowed candidate w ≡ (
        ok true,
        with_throttle w (change (is_under_cap candidate w.now) bumped_row w.db.edit_throttle),
      )
  unfolding record_attempt_if_allowed after_bump
  attempt_under w s e c =
      let pos = suc_of_pos (count_where (is_under_cap candidate w.now) w.db.edit_throttle) (
        count-pos_of_first (is_of candidate) (is_under_cap candidate w.now) w.db.edit_throttle s e
          c) in
      ground (arith, bump-eq w, pos.1)

  attempt_missed :
      (w : World)
      → count_where (is_under_cap candidate w.now) w.db.edit_throttle ≡ 0
      → record_attempt_if_allowed candidate w ≡ start_window candidate w
  unfolding record_attempt_if_allowed after_bump
  attempt_missed w z =
      ground (
        arith,
        bump-eq w,
        change-none (is_under_cap candidate w.now) bumped_row w.db.edit_throttle z,
      )

  start_window-eq :
      (w : World)
      → start_window candidate w ≡ (
          if is_found_current w.now (first (is_of candidate) w.db.edit_throttle)
          then (ok false, w)
          else (
            ok true,
            with_throttle w (
                if count_where (is_of candidate) w.db.edit_throttle == 0
                then w.db.edit_throttle
                  ++ record { candidate_id = candidate; window_start = w.now; count = 1 } ∷ []
                else change (is_of candidate) (restarted_row w.now) w.db.edit_throttle),
          ))
  unfolding start_window start_fresh
  start_window-eq w =
      elim (Bool-cases (is_found_current w.now (first (is_of candidate) w.db.edit_throttle))) [
        | inl y ↦ ground (arith, P.find_first_law (is_of candidate) w.db.edit_throttle)
        | inr n ↦ ground (
          arith,
          P.find_first_law (is_of candidate) w.db.edit_throttle,
          P.upsert_law (is_of candidate)
              (record { candidate_id = candidate; window_start = w.now; count = 1 })
              (restarted_row w.now) w.db.edit_throttle,
        )
      ]

  -- An attempt to edit, where each candidate has at most one row: without a row it is allowed and a
  -- window starts; after the hour of the last window it is allowed and a new window starts; within
  -- the hour it is allowed and counted where fewer than five have been, and is refused, with nothing
  -- changed, where five have been.
  pub record_attempt_if_allowed_outcome :
      (w : World)
      → IsKeyed (λ s. s.candidate_id) w.db.edit_throttle
      → record_attempt_if_allowed candidate w ≡ (
          let out = edit_outcome candidate w (first (is_of candidate) w.db.edit_throttle) in
          (ok out.0, out.1))
  record_attempt_if_allowed_outcome w u =
      elim (Option-cases (first (is_of candidate) w.db.edit_throttle)) [
        | inl n ↦ ground (
          arith,
          attempt_missed w (
              count-zero_of_none (is_of candidate) (is_under_cap candidate w.now) w.db.edit_throttle
                (λ x h. ground arith) n),
          start_window-eq w,
          count-eq-zero (is_of candidate) w.db.edit_throttle,
        )
        | inr (s, e) ↦ elim (Bool-cases (is_current w.now s && ltb s.count 5)) [
          | inl l ↦ ground (
            arith,
            attempt_under w s e
                (ground (arith, first_sound (is_of candidate) w.db.edit_throttle s e)),
          )
          | inr l ↦ ground (
            arith,
            attempt_missed w (
                count-zero_of_first (λ (x : EditThrottleState). x.candidate_id) candidate
                  (is_under_cap candidate w.now) w.db.edit_throttle s u (λ x h. ground arith) e
                  (ground arith)),
            start_window-eq w,
            count-eq-zero (is_of candidate) w.db.edit_throttle,
          )
        ]
      ]

  abbrev says_true : Result Bool → Bool
  says_true (ok b) = b
  says_true (raised f) = false

  -- The answers to attempts at the given times.
  unfoldable pub edit_answers : List ℕ → World → List Bool
  edit_answers [] w = []
  edit_answers (t ∷ rest) w =
      let out = record_attempt_if_allowed candidate (record w { now = t }) in
      says_true out.0 ∷ edit_answers rest out.1

  bumped-found :
      (w : World) (s : EditThrottleState)
      → first (is_of candidate) w.db.edit_throttle ≡ some s
      → is_under_cap candidate w.now s ≡ true
      → first
          (is_of candidate)
          (change (is_under_cap candidate w.now) bumped_row w.db.edit_throttle)
        ≡ some (bumped_row s)
  bumped-found w s e c = ground (
    arith,
    first-change (is_of candidate) (is_under_cap candidate w.now) bumped_row w.db.edit_throttle
        (λ x. refl),
  )

  -- Of the attempts to edit within the hour of a window that has counted at most five, as many are
  -- allowed as make the count five, or all of them where they are fewer; each candidate has at most
  -- one row.
  pub edit_answers-capped :
      (times : List ℕ) (w : World) (s : EditThrottleState)
      → IsKeyed (λ s. s.candidate_id) w.db.edit_throttle
      → first (is_of candidate) w.db.edit_throttle ≡ some s
      → s.count ≤ max_edits_per_window
      → All (λ t. t ≤ s.window_start + edit_window_ms) times
      → count_where (λ b. b) (edit_answers times w) + s.count
        ≡ capped max_edits_per_window (s.count + length times)
  unfolding edit_answers count_where
  edit_answers-capped [] w s u e c a = ground arith
  edit_answers-capped (t ∷ rest) w s u e c a = elim (Bool-cases (ltb s.count 5)) [
    | inl l ↦
        let v = record w { now = t } in
        let under : is_under_cap candidate t s ≡ true =
          ground (arith, first_sound (is_of candidate) w.db.edit_throttle s e, a.0) in
        ground (
          arith,
          attempt_under v s e under,
          edit_answers-capped rest
              (with_throttle v (change (is_under_cap candidate t) bumped_row w.db.edit_throttle))
              (bumped_row s)
              (IsKeyed-change (λ (x : EditThrottleState). x.candidate_id) (is_under_cap candidate t)
                bumped_row w.db.edit_throttle (λ x. refl) u)
              (bumped-found v s e under) (ground arith) a.1,
        )
    | inr l ↦
        let v = record w { now = t } in
        ground (
          arith,
          record_attempt_if_allowed_outcome v u,
          edit_answers-capped rest v s u e c a.1,
          a.0,
        )
  ]

-- The answers of a guard to requests of one address at the given times.
unfoldable pub guard_answers : IpThrottleOptions → List ℕ → Option Attempts → List Bool
guard_answers o [] e = []
guard_answers o (t ∷ rest) e =
    let (passes, e') = throttle_guard o t e in passes ∷ guard_answers o rest e'

-- Of the requests of one address within a window that has counted at most its maximum, a guard lets
-- as many through as make the count the maximum, or all of them where they are fewer.
pub guard_answers-capped :
    (o : IpThrottleOptions) (times : List ℕ) (e : Attempts)
    → e.count ≤ o.max_attempts_per_window
    → All (λ t. t + 1 ≤ e.window_start + o.window_ms) times
    → count_where (λ b. b) (guard_answers o times (some e)) + e.count
      ≡ capped o.max_attempts_per_window (e.count + length times)
unfolding guard_answers count_where throttle_guard is_blocked record_attempt
guard_answers-capped o [] e c a = ground arith
guard_answers-capped o (t ∷ rest) e c a =
    elim (Bool-cases (leb o.max_attempts_per_window e.count)) [
      | inl full ↦ ground (arith, guard_answers-capped o rest e c a.1, a.0)
      | inr free ↦ ground (
        arith,
        guard_answers-capped o rest (record e { count = e.count + 1 }) (ground arith) a.1,
        a.0,
      )
    ]
