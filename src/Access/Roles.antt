-- ===== src/Access/Roles.antt =====
-- The hierarchy of the roles.
use interview_insights.Prelude.{ℕ, ◌≡◌, refl, leb}
use interview_insights.Schema.{StaffRole, staff, moderator, admin}
use interview_insights.Access.{
  Permission, moderation_queue_read, moderation_search_read, moderation_analytics_read,
  moderation_queue_approve, moderation_queue_reject, moderation_queue_flag, moderation_queue_claim,
  moderation_queue_release, round_types_read, round_types_write, staff_manage, role_has_permission,
  role_permissions, includes, text_of,
}

-- The rank of a role in admin > moderator > staff.
abbrev pub rank : StaffRole → ℕ
rank staff = 0
rank moderator = 1
rank admin = 2

-- The least rank that has a permission.
abbrev pub least_rank : Permission → ℕ
least_rank moderation_queue_approve = 1
least_rank moderation_queue_reject = 1
least_rank moderation_queue_flag = 1
least_rank moderation_queue_claim = 1
least_rank moderation_queue_release = 1
least_rank round_types_write = 1
least_rank staff_manage = 2
least_rank _ = 0

-- A role has exactly the permissions whose least rank it reaches: the reads are everybody's, the
-- decisions, claims and the curation of round types a moderator's and an admin's, and the management
-- of staff an admin's alone; so each role has all that the role below it has.
pub role_has_permission-rank :
    (role : StaffRole) (p : Permission)
    → role_has_permission role p ≡ leb (least_rank p) (rank role)
unfolding role_has_permission role_permissions includes text_of
role_has_permission-rank staff moderation_queue_read = refl
role_has_permission-rank staff moderation_search_read = refl
role_has_permission-rank staff moderation_analytics_read = refl
role_has_permission-rank staff moderation_queue_approve = refl
role_has_permission-rank staff moderation_queue_reject = refl
role_has_permission-rank staff moderation_queue_flag = refl
role_has_permission-rank staff moderation_queue_claim = refl
role_has_permission-rank staff moderation_queue_release = refl
role_has_permission-rank staff round_types_read = refl
role_has_permission-rank staff round_types_write = refl
role_has_permission-rank staff staff_manage = refl
role_has_permission-rank moderator moderation_queue_read = refl
role_has_permission-rank moderator moderation_search_read = refl
role_has_permission-rank moderator moderation_analytics_read = refl
role_has_permission-rank moderator moderation_queue_approve = refl
role_has_permission-rank moderator moderation_queue_reject = refl
role_has_permission-rank moderator moderation_queue_flag = refl
role_has_permission-rank moderator moderation_queue_claim = refl
role_has_permission-rank moderator moderation_queue_release = refl
role_has_permission-rank moderator round_types_read = refl
role_has_permission-rank moderator round_types_write = refl
role_has_permission-rank moderator staff_manage = refl
role_has_permission-rank admin moderation_queue_read = refl
role_has_permission-rank admin moderation_search_read = refl
role_has_permission-rank admin moderation_analytics_read = refl
role_has_permission-rank admin moderation_queue_approve = refl
role_has_permission-rank admin moderation_queue_reject = refl
role_has_permission-rank admin moderation_queue_flag = refl
role_has_permission-rank admin moderation_queue_claim = refl
role_has_permission-rank admin moderation_queue_release = refl
role_has_permission-rank admin round_types_read = refl
role_has_permission-rank admin round_types_write = refl
role_has_permission-rank admin staff_manage = refl
