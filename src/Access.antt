-- ===== src/Access.antt =====
-- Who may do what: api/src/admin-auth/permissions.ts, permissions.guard.ts,
-- api/src/moderation/guards/escalated-entry.guard.ts and the routes of
-- api/src/moderation/moderation.controller.ts that change something. The session that
-- AdminJwtAuthGuard has verified is an argument.
pub mod Roles
pub mod Routes
use Prim.Native.String.{◌++◌ as text_append}
use interview_insights.Prelude.{
  ℕ, String, Bool, true, false, ◌||◌, ◌&&◌, not, Option, none, some, List, [], ◌∷◌, ◌++◌, str_eq,
}
use interview_insights.Prisma.{Prisma}
use interview_insights.Schema.{
  StaffRole, staff, moderator, admin, same_role, QueueEntry, FlagReason,
}
use interview_insights.World.{World, Action, Failure, forbidden, pure, raise_if, gets, ◌>>=◌, ◌>>◌}
use interview_insights.Moderation.Queue.{has_id}
use interview_insights.Moderation.Claims.{claim, release}
use interview_insights.Moderation.Review.{ActionDto, approve, reject, flag}

-- PERMISSIONS
pub data Permission : Type 0 where
  moderation_queue_read moderation_search_read moderation_analytics_read : Permission
  moderation_queue_approve moderation_queue_reject moderation_queue_flag : Permission
  moderation_queue_claim moderation_queue_release : Permission
  round_types_read round_types_write staff_manage : Permission

-- The text of a permission.
unfoldable pub text_of : Permission → String
text_of moderation_queue_read = "moderation:queue:read"
text_of moderation_search_read = "moderation:search:read"
text_of moderation_analytics_read = "moderation:analytics:read"
text_of moderation_queue_approve = "moderation:queue:approve"
text_of moderation_queue_reject = "moderation:queue:reject"
text_of moderation_queue_flag = "moderation:queue:flag"
text_of moderation_queue_claim = "moderation:queue:claim"
text_of moderation_queue_release = "moderation:queue:release"
text_of round_types_read = "admin:round_types:read"
text_of round_types_write = "admin:round_types:write"
text_of staff_manage = "admin:staff:manage"

abbrev pub staff_permissions : List Permission
staff_permissions =
    moderation_queue_read ∷ moderation_search_read ∷ moderation_analytics_read ∷ round_types_read
    ∷ []

abbrev pub moderator_permissions : List Permission
moderator_permissions =
    staff_permissions
    ++ moderation_queue_approve ∷ moderation_queue_reject ∷ moderation_queue_flag
      ∷ moderation_queue_claim ∷ moderation_queue_release ∷ round_types_write ∷ []

abbrev pub admin_permissions : List Permission
admin_permissions = moderator_permissions ++ staff_manage ∷ []

-- ROLE_PERMISSIONS
unfoldable pub role_permissions : StaffRole → List Permission
role_permissions staff = staff_permissions
role_permissions moderator = moderator_permissions
role_permissions admin = admin_permissions

-- `includes`
unfoldable pub includes : List Permission → Permission → Bool
unfolding text_of
includes [] p = false
includes (x ∷ xs) p = str_eq (text_of x) (text_of p) || includes xs p

unfoldable pub role_has_permission : StaffRole → Permission → Bool
unfolding includes role_permissions
role_has_permission role p = includes (role_permissions role) p

-- PermissionsGuard. A route that requires nothing is open to every session.
unfoldable pub permissions_guard : Option Permission → StaffRole → Action Unit
unfolding role_has_permission
permissions_guard none role = pure tt
permissions_guard (some p) role =
    raise_if (not (role_has_permission role p))
      (forbidden (text_append "Missing required permission: " (text_of p)))

abbrev pub needs_admin_text : String
needs_admin_text =
    "This item has been escalated after repeated resubmissions and requires admin review."

abbrev pub needs_admin : Failure
needs_admin = forbidden needs_admin_text

-- `entry?.escalated`
abbrev pub is_found_escalated : Option QueueEntry → Bool
is_found_escalated none = false
is_found_escalated (some e) = e.escalated

module _ ⦃P : Prisma⦄ where
  -- EscalatedEntryGuard
  unfoldable pub escalated_entry_guard : ℕ → StaffRole → Action Unit
  escalated_entry_guard id role = do
    entry ← gets (λ w. P.find_first (has_id id) w.db.queue)
    raise_if (is_found_escalated entry && not (same_role role admin)) needs_admin

  unfoldable pub approve_route : StaffRole → ℕ → ActionDto → Action QueueEntry
  approve_route role id dto = do
    permissions_guard (some moderation_queue_approve) role
    escalated_entry_guard id role
    approve id dto

  unfoldable pub reject_route : StaffRole → ℕ → ActionDto → Action QueueEntry
  reject_route role id dto = do
    permissions_guard (some moderation_queue_reject) role
    escalated_entry_guard id role
    reject id dto

  unfoldable pub flag_route : StaffRole → ℕ → ActionDto → Option FlagReason → Action QueueEntry
  flag_route role id dto flag_reason = do
    permissions_guard (some moderation_queue_flag) role
    flag id dto flag_reason

  unfoldable pub claim_route : StaffRole → ℕ → ℕ → Action QueueEntry
  claim_route role session_id id = do
    permissions_guard (some moderation_queue_claim) role
    claim id session_id

  unfoldable pub release_route : StaffRole → ℕ → ℕ → Action QueueEntry
  release_route role session_id id = do
    permissions_guard (some moderation_queue_release) role
    release id session_id
