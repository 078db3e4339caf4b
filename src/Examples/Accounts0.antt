-- ===== src/Examples/Accounts0.antt =====
-- The theorems about staff accounts and throttles at concrete worlds.
use interview_insights.Prelude.{
  String, ◌≤◌, ◌≡◌, refl, true, some, List, [], ◌∷◌, keep, count_where, contains, arith, ◌+◌, first,
  change, IsKeyed,
}
use interview_insights.Prisma.{list_client}
use interview_insights.Schema.{staff, admin, EditThrottleState}
use interview_insights.World.{World, ok}
use interview_insights.Staff.{is_managed_admin}
use interview_insights.Staff.Admins.{
  StaffCall, creates, sets_role, deactivates, resets_password, is_root, IsStaffed, serve_all,
  serve_all-admins,
}
use interview_insights.Throttles.{record_attempt_if_allowed, login_throttle}
use interview_insights.Throttles.Windows.{
  with_throttle, record_attempt_if_allowed_outcome, edit_answers, edit_answers-capped, capped,
  guard_answers, guard_answers-capped,
}
use interview_insights.Examples.World0.{world0, db0, staffed_world}

abbrev constant_password : World → String
constant_password w = "p"

abbrev same_hash : String → String
same_hash s = s

staffed_world-IsStaffed : IsStaffed staffed_world
unfolding contains
staffed_world-IsStaffed = record {
  keyed = (refl, (refl, (refl, tt)));
  issued = (refl, (refl, (refl, tt)));
}

-- The admin tries to leave, is refused, promotes the moderator and leaves.
abbrev calls0 : List StaffCall
calls0 =
    deactivates 2 2
    ∷ sets_role 2 3 admin
    ∷ creates 2 (record { username = "eve"; email = "e"; role = staff })
    ∷ deactivates 2 1
    ∷ resets_password 2 3
    ∷ deactivates 2 2
    ∷ []

serve_all-admins_example :
    (1
      ≤ count_where is_managed_admin
          (serve_all constant_password same_hash calls0 staffed_world).db.moderators)
    × (keep is_root (serve_all constant_password same_hash calls0 staffed_world).db.moderators
        ≡ keep is_root staffed_world.db.moderators)
unfolding count_where
serve_all-admins_example =
    serve_all-admins constant_password same_hash calls0 staffed_world staffed_world-IsStaffed
      (omega arith)

abbrev edit_state : EditThrottleState
edit_state = record { candidate_id = 41; window_start = 1000; count = 3 }

abbrev throttled_world : World
throttled_world = record world0 { db = record db0 { edit_throttle = edit_state ∷ [] } }

throttled_world-IsKeyed : IsKeyed (λ s. s.candidate_id) throttled_world.db.edit_throttle
unfolding contains
throttled_world-IsKeyed = (refl, tt)

record_attempt_if_allowed_outcome_example :
    record_attempt_if_allowed 41 throttled_world
    ≡ (ok true, with_throttle throttled_world (record edit_state { count = 4 } ∷ []))
unfolding first change
record_attempt_if_allowed_outcome_example =
    record_attempt_if_allowed_outcome 41 throttled_world throttled_world-IsKeyed

edit_answers-capped_example :
    count_where (λ b. b) (edit_answers 41 (2000 ∷ 2500 ∷ 3000 ∷ []) throttled_world) + 3
    ≡ capped 5 (3 + 3)
unfolding first
edit_answers-capped_example =
    edit_answers-capped 41 (2000 ∷ 2500 ∷ 3000 ∷ []) throttled_world edit_state
      throttled_world-IsKeyed refl (omega arith) (omega arith, (omega arith, (omega arith, tt)))

guard_answers-capped_example :
    count_where
        (λ b. b)
        (guard_answers login_throttle
          (20 ∷ 30 ∷ 40 ∷ [])
          (some (record { count = 4; window_start = 10 })))
      + 4
    ≡ capped 5 (4 + 3)
guard_answers-capped_example =
    guard_answers-capped login_throttle (20 ∷ 30 ∷ 40 ∷ [])
      (record { count = 4; window_start = 10 }) (omega arith)
      (omega arith, (omega arith, (omega arith, tt)))
