-- ===== src/Staff.antt =====
-- api/src/staff-accounts/staff-accounts.service.ts and api/src/admin-auth/staff-audit-log.service.ts.
-- The generator of passwords (crypto) and their hash (bcryptjs) are parameters.
pub mod Edits
pub mod Accounts
pub mod Passwords
pub mod Admins
use interview_insights.Prelude.{
  ℕ, String, Bool, true, false, not, ◌&&◌, Option, none, some, is_some, List, [], ◌∷◌, ◌++◌, ◌==◌,
  str_eq,
}
use interview_insights.Prisma.{Prisma}
use interview_insights.Schema.{
  StaffRole, admin, same_role, StaffAuditAction, account_created, role_changed, deactivated,
  reactivated, password_reset, Moderator, StaffAuditLog, Db,
}
use interview_insights.World.Calls.{
  Event, StaffNotice, staff_account_created, staff_account_role_changed, staff_account_deactivated,
  staff_account_reactivated, staff_account_password_reset,
}
use interview_insights.World.{
  World, Action, Failure, conflict, forbidden, record_not_found, unique_violation, pure, raise_if,
  or_raise, gets, put_db, when, draw_id, ◌>>=◌, ◌>>◌,
}
use interview_insights.Moderation.Publishing.{publish}

-- CreateStaffAccountDto
pub record CreateStaffAccountDto : Type 0 where
  pub username : String
  pub email : String
  pub role : StaffRole

abbrev pub root_is_managed_elsewhere : Failure
root_is_managed_elsewhere =
    forbidden
      "The root admin account is managed via infra/scripts/rotate-admin-credentials.sh, not this API."

abbrev pub last_admin_keeps_role : Failure
last_admin_keeps_role =
    conflict "Cannot change the role of the last remaining active admin account."

abbrev pub last_admin_stays_active : Failure
last_admin_stays_active = conflict "Cannot deactivate the last remaining active admin account."

-- where: { id }
abbrev pub has_staff_id : ℕ → Moderator → Bool
has_staff_id id m = m.id == id

-- where: { role: 'admin', isActive: true, createdById: { not: null } }
abbrev pub is_managed_admin : Moderator → Bool
is_managed_admin m = same_role m.role admin && m.is_active && is_some m.created_by_id

-- where: { role: 'admin', isActive: true, createdById: { not: null }, id: { not: excludeId } }
abbrev pub is_other_admin : ℕ → Moderator → Bool
is_other_admin id m = is_managed_admin m && not (has_staff_id id m)

abbrev pub with_role : StaffRole → Moderator → Moderator
with_role role m = record m { role = role }

abbrev pub with_active : Bool → Moderator → Moderator
with_active b m = record m { is_active = b }

abbrev pub with_password : String → Moderator → Moderator
with_password hash m = record m { password_hash = hash }

abbrev pub notice_to : Moderator → ℕ → ℕ → ℕ → StaffNotice
notice_to m actor now action_id = record {
  occurred_at = now;
  moderator_id = m.id;
  email = m.email;
  actor_id = actor;
  action_id = action_id;
}

module _ ⦃P : Prisma⦄ where
  -- list
  unfoldable pub list_accounts : World → List Moderator
  list_accounts w = P.find_sorted (λ m. is_some m.created_by_id) (λ m. m.created_at) w.db.moderators

  unfoldable pub find_staff : ℕ → Action Moderator
  find_staff id = do
    found ← gets (λ w. P.find_first (has_staff_id id) w.db.moderators)
    or_raise found record_not_found

  -- assertNotRoot
  unfoldable pub assert_not_root : Moderator → Action Unit
  assert_not_root m = raise_if (not (is_some m.created_by_id)) root_is_managed_elsewhere

  -- countOtherActiveNonRootAdmins
  unfoldable pub count_other_active_non_root_admins : ℕ → World → ℕ
  count_other_active_non_root_admins id w = P.count (is_other_admin id) w.db.moderators

  unfoldable pub update_staff : ℕ → (Moderator → Moderator) → Action Moderator
  unfolding find_staff
  update_staff id f = do
    db ← gets (λ w. w.db)
    rows ← or_raise (P.update (has_staff_id id) f db.moderators) record_not_found
    put_db (record db { moderators = rows })
    find_staff id

  -- StaffAuditLogService.record
  unfoldable pub record_staff_audit : ℕ → ℕ → StaffAuditAction → List StaffRole → Action Unit
  record_staff_audit actor target action detail = do
    id ← draw_id
    now ← gets (λ w. w.now)
    db ← gets (λ w. w.db)
    let row : StaffAuditLog = record {
      id = id;
      actor_id = actor;
      target_id = target;
      action = action;
      detail = detail;
      created_at = now;
    }
    put_db (record db { staff_audit_log = P.create row db.staff_audit_log })

  -- The event of an action that has been audited.
  unfoldable pub publish_staff_event : Moderator → ℕ → (StaffNotice → Event) → Action Unit
  publish_staff_event m actor event_of = do
    now ← gets (λ w. w.now)
    action_id ← draw_id
    publish (event_of (notice_to m actor now action_id)) m.id

  module _ (generate : World → String) (hash : String → String) where
    -- The unique index on the username refuses a second account with it.
    unfoldable pub create_account : ℕ → CreateStaffAccountDto → Action (Moderator × String)
    unfolding record_staff_audit publish_staff_event
    create_account actor dto = do
      password ← gets generate
      id ← draw_id
      now ← gets (λ w. w.now)
      db ← gets (λ w. w.db)
      raise_if (not (P.count (λ m. str_eq m.username dto.username) db.moderators == 0))
          unique_violation
      let created : Moderator = record {
        id = id;
        username = dto.username;
        password_hash = hash password;
        email = dto.email;
        role = dto.role;
        is_active = true;
        created_by_id = some actor;
        created_at = now;
      }
      put_db (record db { moderators = P.create created db.moderators })
      record_staff_audit actor id account_created (dto.role ∷ [])
      publish_staff_event created actor (λ n. staff_account_created n dto.role password)
      pure (created, password)

    unfoldable pub reset_password : ℕ → ℕ → Action String
    unfolding find_staff assert_not_root update_staff record_staff_audit publish_staff_event
    reset_password actor target = do
      before ← find_staff target
      assert_not_root before
      password ← gets generate
      update_staff target (with_password (hash password))
      record_staff_audit actor target password_reset []
      publish_staff_event before actor (λ n. staff_account_password_reset n password)
      pure password

  -- The guard of updateRole and of deactivate.
  unfoldable pub keep_an_admin : Bool → ℕ → Failure → Action Unit
  unfolding count_other_active_non_root_admins
  keep_an_admin loses target failure = when loses do
    remaining ← gets (count_other_active_non_root_admins target)
    raise_if (remaining == 0) failure

  unfoldable pub update_role : ℕ → ℕ → StaffRole → Action Moderator
  unfolding find_staff assert_not_root keep_an_admin update_staff record_staff_audit
      publish_staff_event
  update_role actor target role = do
    before ← find_staff target
    assert_not_root before
    keep_an_admin (same_role before.role admin && before.is_active && not (same_role role admin))
        target last_admin_keeps_role
    updated ← update_staff target (with_role role)
    record_staff_audit actor target role_changed (before.role ∷ role ∷ [])
    publish_staff_event before actor (λ n. staff_account_role_changed n before.role role)
    pure updated

  unfoldable pub deactivate : ℕ → ℕ → Action Moderator
  unfolding find_staff assert_not_root keep_an_admin update_staff record_staff_audit
      publish_staff_event
  deactivate actor target = do
    before ← find_staff target
    assert_not_root before
    keep_an_admin (same_role before.role admin && before.is_active) target last_admin_stays_active
    updated ← update_staff target (with_active false)
    record_staff_audit actor target deactivated []
    publish_staff_event before actor staff_account_deactivated
    pure updated

  unfoldable pub reactivate : ℕ → ℕ → Action Moderator
  unfolding find_staff assert_not_root update_staff record_staff_audit publish_staff_event
  reactivate actor target = do
    before ← find_staff target
    assert_not_root before
    updated ← update_staff target (with_active true)
    record_staff_audit actor target reactivated []
    publish_staff_event before actor staff_account_reactivated
    pure updated
