-- ===== src/Staff/Edits.antt =====
-- The change of one staff account, its record in the audit trail and its event.

use interview_insights.Prelude.{
  ℕ, ◌≤◌, ◌≡◌, refl, ◌⊎◌, inl, inr, Bool, true, false, ◌&&◌, none, some, is_some, List, [], ◌∷◌,
  ◌++◌, first, change, count_where, count-eq-zero, contains, first-change_self, arith, ◌==◌,
  if◌then◌else◌, Option-cases,
}
use interview_insights.Prisma.{Prisma}
use interview_insights.Schema.{StaffRole, StaffAuditAction, Moderator}
use interview_insights.World.Calls.{Event, StaffNotice, send}
use interview_insights.World.{
  Action, pure, World, ok, raised, record_not_found, Failure, ◌>>=◌, ◌>>◌,
}
use interview_insights.Moderation.Publishing.Sent.{publish-eq}
use interview_insights.Staff.{
  has_staff_id, is_other_admin, notice_to, find_staff, count_other_active_non_root_admins,
  update_staff, record_staff_audit, publish_staff_event, keep_an_admin,
}

abbrev pub with_moderators : World → List Moderator → World
with_moderators w rows = record w { db = record w.db { moderators = rows } }

-- The accounts of the second world are those of the first with one changed, which the id finds, which
-- is not the root's and, where the change loses an admin, is not the last; or they are the same. Ids
-- that have been given out in the first have been in the second.
abbrev pub Edits : ℕ → (Moderator → Moderator) → (Moderator → Bool) → World → World → Type 0
Edits target f loses w w' =
    ((id : ℕ) → contains id w.issued ≡ true → contains id w'.issued ≡ true)
    × ((w'.db.moderators ≡ w.db.moderators)
        ⊎ ((e : Moderator) × (first (has_staff_id target) w.db.moderators ≡ some e)
            × (is_some e.created_by_id ≡ true)
            × (loses e ≡ true → 1 ≤ count_where (is_other_admin target) w.db.moderators)
            × (w'.db.moderators ≡ change (has_staff_id target) f w.db.moderators)))

module _ ⦃P : Prisma⦄ where
  pub record_staff_audit-eq :
      (actor target : ℕ) (action : StaffAuditAction) (detail : List StaffRole) (w : World)
      → record_staff_audit actor target action detail w ≡ (
        ok tt,
        record w {
          db = record w.db {
            staff_audit_log =
                w.db.staff_audit_log
                ++ record {
                  id = P.uuid w.issued;
                  actor_id = actor;
                  target_id = target;
                  action = action;
                  detail = detail;
                  created_at = w.now;
                }
                  ∷ [];
          };
          issued = P.uuid w.issued ∷ w.issued;
        },
      )
  unfolding record_staff_audit
  record_staff_audit-eq actor target action detail w = rw P.create_law refl

  pub publish_staff_event-eq :
      (m : Moderator) (actor : ℕ) (event_of : StaffNotice → Event) (w : World)
      → publish_staff_event m actor event_of w ≡ (
        ok tt,
        record w {
          issued = P.uuid w.issued ∷ w.issued;
          calls =
              w.calls
              ++ (if w.connected
                  then send (event_of (notice_to m actor w.now (P.uuid w.issued))) m.id ∷ []
                  else []);
        },
      )
  unfolding publish_staff_event
  publish_staff_event-eq m actor event_of w = ground (
    arith,
    publish-eq (event_of (notice_to m actor w.now (P.uuid w.issued))) m.id
        (record w { issued = P.uuid w.issued ∷ w.issued }),
  )

  pub update_staff-eq :
      (target : ℕ) (f : Moderator → Moderator) (w : World) (e : Moderator)
      → ((m : Moderator) → (f m).id ≡ m.id)
      → first (has_staff_id target) w.db.moderators ≡ some e
      → update_staff target f w
        ≡ (ok (f e), with_moderators w (change (has_staff_id target) f w.db.moderators))
  unfolding update_staff find_staff
  update_staff-eq target f w e k s = ground (
    arith,
    P.update_law (has_staff_id target) f w.db.moderators,
    count-eq-zero (has_staff_id target) w.db.moderators,
    P.find_first_law (has_staff_id target) (change (has_staff_id target) f w.db.moderators),
    first-change_self (has_staff_id target) f w.db.moderators (λ x. rw k refl),
  )

  grown : (a b id : ℕ) (ids : List ℕ) → contains id ids ≡ true → contains id (a ∷ b ∷ ids) ≡ true
  unfolding contains
  grown a b id ids h = ground arith

  pub Edits-same :
      (target : ℕ) (f : Moderator → Moderator) (loses : Moderator → Bool) (w v : World)
      → v ≡ w
      → Edits target f loses w v
  Edits-same target f loses w v e = rw e ((λ id h. h), inl refl)

  -- The end of an operation: the update, its record in the audit trail, and its event.
  abbrev pub finish :
      Moderator
      → ℕ
      → ℕ
      → (Moderator → Moderator)
      → StaffAuditAction
      → List StaffRole
      → (StaffNotice → Event)
      → Action Moderator
  finish before actor target f action detail event_of = do
    updated ← update_staff target f
    record_staff_audit actor target action detail
    publish_staff_event before actor event_of
    pure updated

  done :
      (e : Moderator) (actor target : ℕ) (f : Moderator → Moderator) (action : StaffAuditAction)
      (detail : List StaffRole) (event_of : StaffNotice → Event) (w : World)
      → ((m : Moderator) → (f m).id ≡ m.id)
      → first (has_staff_id target) w.db.moderators ≡ some e
      → let v = (finish e actor target f action detail event_of w).1 in
        (v.issued ≡ P.uuid (P.uuid w.issued ∷ w.issued) ∷ P.uuid w.issued ∷ w.issued)
        × (v.db.moderators ≡ change (has_staff_id target) f w.db.moderators)
  done e actor target f action detail event_of w k s =
      let w1 = with_moderators w (change (has_staff_id target) f w.db.moderators) in
      let w2 = (record_staff_audit actor target action detail w1).1 in
      (
        ground (
          arith,
          update_staff-eq target f w e k s,
          record_staff_audit-eq actor target action detail w1,
          publish_staff_event-eq e actor event_of w2,
        ),
        ground (
          arith,
          update_staff-eq target f w e k s,
          record_staff_audit-eq actor target action detail w1,
          publish_staff_event-eq e actor event_of w2,
        ),
      )

  pub finish-Edits :
      (e : Moderator) (actor target : ℕ) (f : Moderator → Moderator) (loses : Moderator → Bool)
      (action : StaffAuditAction) (detail : List StaffRole) (event_of : StaffNotice → Event)
      (w v : World)
      → ((m : Moderator) → (f m).id ≡ m.id)
      → first (has_staff_id target) w.db.moderators ≡ some e
      → is_some e.created_by_id ≡ true
      → (loses e ≡ true → 1 ≤ count_where (is_other_admin target) w.db.moderators)
      → v ≡ (finish e actor target f action detail event_of w).1
      → Edits target f loses w v
  finish-Edits e actor target f loses action detail event_of w v k s m l h =
      rw
        (
          h,
          (done e actor target f action detail event_of w k s).0,
          (done e actor target f action detail event_of w k s).1,
        )
        ((λ id i. grown _ _ id w.issued i), inr (e, s, m, l, refl))

  pub find_staff-eq :
      (target : ℕ) (w : World)
      → find_staff target w ≡ (
        elim (first (has_staff_id target) w.db.moderators) [
          | none ↦ raised record_not_found
          | some e ↦ ok e
        ],
        w,
      )
  unfolding find_staff
  find_staff-eq target w = elim (Option-cases (first (has_staff_id target) w.db.moderators)) [
    | inl n ↦ ground (arith, P.find_first_law (has_staff_id target) w.db.moderators)
    | inr (e, s) ↦ ground (arith, P.find_first_law (has_staff_id target) w.db.moderators)
  ]

  pub keep_an_admin-eq :
      (loses : Bool) (target : ℕ) (failure : Failure) (w : World)
      → keep_an_admin loses target failure w ≡ (
        (if loses && count_where (is_other_admin target) w.db.moderators == 0
            then raised failure
            else ok tt),
        w,
      )
  unfolding keep_an_admin count_other_active_non_root_admins
  keep_an_admin-eq true target failure w =
      ground (arith, P.count_law (is_other_admin target) w.db.moderators)
  keep_an_admin-eq false target failure w = refl
