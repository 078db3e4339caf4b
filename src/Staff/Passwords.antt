-- ===== src/Staff/Passwords.antt =====
-- What the creation of an account and the reset of its password do to the table of accounts.

use interview_insights.Prelude.{
  ℕ, String, ◌≡◌, refl, inl, inr, true, false, some, is_some, [], ◌∷◌, ◌++◌, first, change,
  count_where, str_eq, arith, ◌==◌, Bool-cases, Option-cases,
}
use interview_insights.Prisma.{Prisma}
use interview_insights.Schema.{password_reset, account_created, Moderator}
use interview_insights.World.Calls.{staff_account_created, staff_account_password_reset}
use interview_insights.World.{World}
use interview_insights.Staff.{
  CreateStaffAccountDto, has_staff_id, with_password, assert_not_root, record_staff_audit,
  create_account, reset_password,
}
use interview_insights.Staff.Edits.{
  with_moderators, Edits, record_staff_audit-eq, publish_staff_event-eq, update_staff-eq,
  Edits-same, finish, finish-Edits, find_staff-eq,
}

module _ ⦃P : Prisma⦄ (generate : World → String) (hash : String → String) where
  pub reset_password-Edits :
      (actor target : ℕ) (w : World)
      → Edits target
          (with_password (hash (generate w)))
          (λ m. false)
          w
          (reset_password generate hash actor target w).1
  unfolding reset_password assert_not_root
  reset_password-Edits actor target w =
      elim (Option-cases (first (has_staff_id target) w.db.moderators)) [
        | inl n ↦
            Edits-same target (with_password (hash (generate w))) (λ m. false) w
              (reset_password generate hash actor target w).1
              (ground (arith, find_staff-eq target w))
        | inr (e, s) ↦ elim (Bool-cases (is_some e.created_by_id)) [
          | inr r ↦
              Edits-same target (with_password (hash (generate w))) (λ m. false) w
                (reset_password generate hash actor target w).1
                (ground (arith, find_staff-eq target w))
          | inl m ↦
              finish-Edits e actor target (with_password (hash (generate w))) (λ m. false)
                password_reset [] (λ n. staff_account_password_reset n (generate w)) w
                (reset_password generate hash actor target w).1 (λ x. refl) s m
                (λ h. absurd (ground arith)) (reset_finish e actor target w s m)
        ]
      ]
    where
      reset_finish :
          (e : Moderator) (actor target : ℕ) (w : World)
          → first (has_staff_id target) w.db.moderators ≡ some e
          → is_some e.created_by_id ≡ true
          → (reset_password generate hash actor target w).1
            ≡ (finish e actor target
                (with_password (hash (generate w)))
                password_reset
                []
                (λ n. staff_account_password_reset n (generate w))
                w).1
      reset_finish e actor target w s m =
          let w1 =
            with_moderators w
              (change (has_staff_id target) (with_password (hash (generate w))) w.db.moderators) in
          let w2 = (record_staff_audit actor target password_reset [] w1).1 in
          ground (
            arith,
            find_staff-eq target w,
            update_staff-eq target (with_password (hash (generate w))) w e (λ x. refl) s,
            record_staff_audit-eq actor target password_reset [] w1,
            publish_staff_event-eq e actor (λ n. staff_account_password_reset n (generate w)) w2,
          )

  -- The row that `create` makes.
  abbrev pub new_account : ℕ → CreateStaffAccountDto → World → Moderator
  new_account actor dto w = record {
    id = P.uuid w.issued;
    username = dto.username;
    password_hash = hash (generate w);
    email = dto.email;
    role = dto.role;
    is_active = true;
    created_by_id = some actor;
    created_at = w.now;
  }

  pub create_taken :
      (actor : ℕ) (dto : CreateStaffAccountDto) (w : World)
      → (count_where (λ m. str_eq m.username dto.username) w.db.moderators == 0) ≡ false
      → let v = (create_account generate hash actor dto w).1 in
        (v.issued ≡ P.uuid w.issued ∷ w.issued) × (v.db.moderators ≡ w.db.moderators)
  unfolding create_account
  create_taken actor dto w t = (
    ground (arith, P.count_law (λ (m : Moderator). str_eq m.username dto.username) w.db.moderators),
    ground (arith, P.count_law (λ (m : Moderator). str_eq m.username dto.username) w.db.moderators),
  )

  pub create_free :
      (actor : ℕ) (dto : CreateStaffAccountDto) (w : World)
      → (count_where (λ m. str_eq m.username dto.username) w.db.moderators == 0) ≡ true
      → let v = (create_account generate hash actor dto w).1 in
        let i = P.uuid w.issued ∷ w.issued in
        (v.issued ≡ P.uuid (P.uuid i ∷ i) ∷ P.uuid i ∷ i)
        × (v.db.moderators ≡ w.db.moderators ++ new_account actor dto w ∷ [])
  unfolding create_account
  create_free actor dto w t =
      let e = new_account actor dto w in
      let w1 = record (with_moderators w (w.db.moderators ++ e ∷ [])) {
        issued = e.id ∷ w.issued;
      } in
      let w2 = (record_staff_audit actor e.id account_created (dto.role ∷ []) w1).1 in
      (
        ground (
          arith,
          P.count_law (λ (m : Moderator). str_eq m.username dto.username) w.db.moderators,
          P.create_law e w.db.moderators,
          record_staff_audit-eq actor e.id account_created (dto.role ∷ []) w1,
          publish_staff_event-eq e actor (λ n. staff_account_created n dto.role (generate w)) w2,
        ),
        ground (
          arith,
          P.count_law (λ (m : Moderator). str_eq m.username dto.username) w.db.moderators,
          P.create_law e w.db.moderators,
          record_staff_audit-eq actor e.id account_created (dto.role ∷ []) w1,
          publish_staff_event-eq e actor (λ n. staff_account_created n dto.role (generate w)) w2,
        ),
      )
