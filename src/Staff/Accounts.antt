-- ===== src/Staff/Accounts.antt =====
-- What a change of role, a deactivation and a reactivation do to the table of accounts.

use interview_insights.Prelude.{
  ℕ, refl, inl, inr, true, false, not, ◌&&◌, is_some, [], ◌∷◌, first, count_where, arith, ◌==◌,
  Bool-cases, Option-cases,
}
use interview_insights.Prisma.{Prisma}
use interview_insights.Schema.{StaffRole, admin, same_role, reactivated, deactivated, role_changed}
use interview_insights.World.Calls.{
  staff_account_reactivated, staff_account_deactivated, staff_account_role_changed,
}
use interview_insights.World.{World}
use interview_insights.Staff.{
  has_staff_id, is_other_admin, with_role, with_active, assert_not_root, last_admin_stays_active,
  last_admin_keeps_role, update_role, deactivate, reactivate,
}
use interview_insights.Staff.Edits.{
  Edits, Edits-same, finish-Edits, find_staff-eq, keep_an_admin-eq,
}

module _ ⦃P : Prisma⦄ where
  pub reactivate-Edits :
      (actor target : ℕ) (w : World)
      → Edits target (with_active true) (λ m. false) w (reactivate actor target w).1
  unfolding reactivate assert_not_root
  reactivate-Edits actor target w =
      elim (Option-cases (first (has_staff_id target) w.db.moderators)) [
        | inl n ↦
            Edits-same target (with_active true) (λ m. false) w (reactivate actor target w).1
              (ground (arith, find_staff-eq target w))
        | inr (e, s) ↦ elim (Bool-cases (is_some e.created_by_id)) [
          | inr r ↦
              Edits-same target (with_active true) (λ m. false) w (reactivate actor target w).1
                (ground (arith, find_staff-eq target w))
          | inl m ↦
              finish-Edits e actor target (with_active true) (λ m. false) reactivated ([])
                (staff_account_reactivated) w (reactivate actor target w).1 (λ x. refl) s m
                (λ h. absurd (ground arith)) (ground (arith, find_staff-eq target w))
        ]
      ]

  pub deactivate-Edits :
      (actor target : ℕ) (w : World)
      → Edits target
          (with_active false)
          (λ m. same_role m.role admin && m.is_active)
          w
          (deactivate actor target w).1
  unfolding deactivate assert_not_root
  deactivate-Edits actor target w =
      elim (Option-cases (first (has_staff_id target) w.db.moderators)) [
        | inl n ↦
            Edits-same target (with_active false) (λ m. same_role m.role admin && m.is_active) w
              (deactivate actor target w).1 (ground (arith, find_staff-eq target w))
        | inr (e, s) ↦ elim (Bool-cases (is_some e.created_by_id)) [
          | inr r ↦
              Edits-same target (with_active false) (λ m. same_role m.role admin && m.is_active) w
                (deactivate actor target w).1 (ground (arith, find_staff-eq target w))
          | inl m ↦
              elim (Bool-cases (
                (same_role e.role admin && e.is_active)
                && count_where (is_other_admin target) w.db.moderators == 0)) [
                  | inl l ↦
                      Edits-same target (with_active false)
                        (λ m. same_role m.role admin && m.is_active) w (deactivate actor target w).1
                        (ground (
                          arith,
                          find_staff-eq target w,
                          keep_an_admin-eq (same_role e.role admin && e.is_active) target
                              last_admin_stays_active w,
                        ))
                  | inr l ↦
                      finish-Edits e actor target (with_active false)
                        (λ m. same_role m.role admin && m.is_active) deactivated ([])
                        (staff_account_deactivated) w (deactivate actor target w).1 (λ x. refl) s m
                        (λ h. ground arith)
                        (ground (
                          arith,
                          find_staff-eq target w,
                          keep_an_admin-eq (same_role e.role admin && e.is_active) target
                              last_admin_stays_active w,
                        ))
                ]
        ]
      ]

  pub update_role-Edits :
      (actor target : ℕ) (role : StaffRole) (w : World)
      → Edits target
          (with_role role)
          (λ m. same_role m.role admin && m.is_active && not (same_role role admin))
          w
          (update_role actor target role w).1
  unfolding update_role assert_not_root
  update_role-Edits actor target role w =
      elim (Option-cases (first (has_staff_id target) w.db.moderators)) [
        | inl n ↦
            Edits-same target (with_role role)
              (λ m. same_role m.role admin && m.is_active && not (same_role role admin)) w
              (update_role actor target role w).1 (ground (arith, find_staff-eq target w))
        | inr (e, s) ↦ elim (Bool-cases (is_some e.created_by_id)) [
          | inr r ↦
              Edits-same target (with_role role)
                (λ m. same_role m.role admin && m.is_active && not (same_role role admin)) w
                (update_role actor target role w).1 (ground (arith, find_staff-eq target w))
          | inl m ↦
              elim (Bool-cases (
                (same_role e.role admin && e.is_active && not (same_role role admin))
                && count_where (is_other_admin target) w.db.moderators == 0)) [
                  | inl l ↦
                      Edits-same target (with_role role)
                        (λ m. same_role m.role admin && m.is_active && not (same_role role admin)) w
                        (update_role actor target role w).1
                        (ground (
                          arith,
                          find_staff-eq target w,
                          keep_an_admin-eq
                              (same_role e.role admin && e.is_active && not (same_role role admin))
                              target last_admin_keeps_role w,
                        ))
                  | inr l ↦
                      finish-Edits e actor target (with_role role)
                        (λ m. same_role m.role admin && m.is_active && not (same_role role admin))
                        role_changed (e.role ∷ role ∷ [])
                        (λ n. staff_account_role_changed n e.role role) w
                        (update_role actor target role w).1 (λ x. refl) s m (λ h. ground arith)
                        (ground (
                          arith,
                          find_staff-eq target w,
                          keep_an_admin-eq
                              (same_role e.role admin && e.is_active && not (same_role role admin))
                              target last_admin_keeps_role w,
                        ))
                ]
        ]
      ]
