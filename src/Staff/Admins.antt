-- ===== src/Staff/Admins.antt =====
-- Sequences of operations on staff accounts (api/src/staff-accounts/staff-accounts.service.ts).
use interview_insights.Prelude.{
  ℕ, String, ◌≤◌, ◌≡◌, refl, inl, inr, Bool, true, false, not, ◌&&◌, is_some, List, [], ◌∷◌, ◌++◌,
  keep, change, count_where, contains, contains-ne, count-append, count-zero_of_first, All,
  All-change, All-append, All-mono, All-of_count, IsKeyed, IsKeyed-change, keep-change, keep-append,
  append_nil, IsKeyed-append, str_eq, ==-refl, ◌∙◌, arith, ◌==◌, Bool-cases, ==-comm,
}
use interview_insights.Prisma.{Prisma}
use interview_insights.Schema.{StaffRole, admin, same_role, Moderator}
use interview_insights.World.{World}
use interview_insights.Staff.{
  CreateStaffAccountDto, has_staff_id, is_managed_admin, is_other_admin, with_role, with_active,
  with_password, create_account, reset_password, update_role, deactivate, reactivate,
}
use interview_insights.Staff.Edits.{Edits}
use interview_insights.Staff.Accounts.{update_role-Edits, deactivate-Edits, reactivate-Edits}
use interview_insights.Staff.Passwords.{
  reset_password-Edits, create_taken, create_free, new_account,
}

-- The calls of the service that change an account, each with its actor.
pub data StaffCall : Type 0 where
  creates : ℕ → CreateStaffAccountDto → StaffCall
  sets_role : ℕ → ℕ → StaffRole → StaffCall
  deactivates reactivates resets_password : ℕ → ℕ → StaffCall

-- The root's account.
abbrev pub is_root : Moderator → Bool
is_root m = not (is_some m.created_by_id)

-- The ids of the accounts are distinct and have been given out.
pub record IsStaffed (w : World) : Type 0 where
  pub keyed : IsKeyed (λ m. m.id) w.db.moderators
  pub issued : All (λ m. contains m.id w.issued ≡ true) w.db.moderators

-- What a step keeps: the form of the table, the last managed admin, and the root's accounts.
pub record Spares (w w' : World) : Type 0 where
  pub staffed : IsStaffed w'
  pub admins :
      1 ≤ count_where is_managed_admin w.db.moderators
      → 1 ≤ count_where is_managed_admin w'.db.moderators
  pub roots : keep is_root w'.db.moderators ≡ keep is_root w.db.moderators

-- A change that every managed admin among the changed rows survives leaves as many.
count-survive :
    (q p : Moderator → Bool) (f : Moderator → Moderator) (rows : List Moderator)
    → All (λ x. (q x && (p x && not (p (f x)))) ≡ false) rows
    → count_where p rows ≤ count_where p (change q f rows)
unfolding count_where change
count-survive q p f [] a = omega arith
count-survive q p f (x ∷ xs) a = ground (arith, a.0, count-survive q p f xs a.1)

-- The others are admins after a change of one account.
count-others :
    (id : ℕ) (f : Moderator → Moderator) (rows : List Moderator)
    → count_where (is_other_admin id) rows
      ≤ count_where is_managed_admin (change (has_staff_id id) f rows)
unfolding count_where change
count-others id f [] = omega arith
count-others id f (x ∷ xs) = ground (arith, count-others id f xs)

Spares-same :
    (w w' : World)
    → IsStaffed w
    → ((id : ℕ) → contains id w.issued ≡ true → contains id w'.issued ≡ true)
    → w'.db.moderators ≡ w.db.moderators
    → Spares w w'
Spares-same w w' s g e = record {
  staffed = record {
    keyed = rw e s.keyed;
    issued =
        rw e (
          All-mono (λ m. contains m.id w.issued ≡ true) w.db.moderators (λ m h. g m.id h) s.issued);
  };
  admins = λ h. rw e h;
  roots = rw e refl;
}

Spares-Edits :
    (target : ℕ) (f : Moderator → Moderator) (loses : Moderator → Bool) (w w' : World)
    → ((m : Moderator) → (f m).id ≡ m.id)
    → ((m : Moderator) → (f m).created_by_id ≡ m.created_by_id)
    → ((m : Moderator)
        → loses m ≡ false
        → is_managed_admin m ≡ true
        → is_managed_admin (f m) ≡ true)
    → IsStaffed w
    → Edits target f loses w w'
    → Spares w w'
Spares-Edits target f loses w w' k c l s (g, inl e) = Spares-same w w' s g e
Spares-Edits target f loses w w' k c l s (g, inr (e, found, managed, guard, h)) = record {
  staffed = record {
    keyed = rw h (IsKeyed-change (λ m. m.id) (has_staff_id target) f w.db.moderators k s.keyed);
    issued = rw h (
        All-change (λ m. contains m.id w'.issued ≡ true) (has_staff_id target) f w.db.moderators
          (λ m i. rw (k m) i)
          (All-mono (λ m. contains m.id w.issued ≡ true) w.db.moderators (λ m i. g m.id i)
            s.issued));
  };
  admins = λ a. elim (Bool-cases (loses e)) [
    | inl y ↦ rw h (ground (arith, guard y, count-others target f w.db.moderators))
    | inr n ↦ rw h (
        ground (
          arith,
          count-survive (has_staff_id target) is_managed_admin f w.db.moderators (
              All-of_count
                (λ x. has_staff_id target x && (is_managed_admin x && not (is_managed_admin (f x))))
                w.db.moderators
                (count-zero_of_first (λ (m : Moderator). m.id) target
                  (λ x.
                    has_staff_id target x && (is_managed_admin x && not (is_managed_admin (f x))))
                  w.db.moderators e s.keyed (λ x i. ground arith) found (survives e n))),
        ))
  ];
  roots = rw h (
      keep-change is_root (has_staff_id target) f w.db.moderators (λ m. rw (c m) refl)
        (All-of_count (λ x. has_staff_id target x && is_root x) w.db.moderators
          (count-zero_of_first (λ (m : Moderator). m.id) target
            (λ x. has_staff_id target x && is_root x) w.db.moderators e s.keyed
            (λ x i. ground arith) found (ground arith))));
}
  where
    survives :
        (e : Moderator)
        → loses e ≡ false
        → (has_staff_id target e && (is_managed_admin e && not (is_managed_admin (f e)))) ≡ false
    survives e n = ground (arith, l e n)

Spares-added :
    (w w' : World) (e : Moderator)
    → IsStaffed w
    → ((id : ℕ) → contains id w.issued ≡ true → contains id w'.issued ≡ true)
    → contains e.id w.issued ≡ false
    → contains e.id w'.issued ≡ true
    → is_some e.created_by_id ≡ true
    → w'.db.moderators ≡ w.db.moderators ++ e ∷ []
    → Spares w w'
unfolding count_where keep
Spares-added w w' e s g fresh known managed h = record {
  staffed = record {
    keyed = rw h (
        IsKeyed-append (λ m. m.id) w.db.moderators e s.keyed
          (All-mono (λ m. contains m.id w.issued ≡ true) w.db.moderators
            (λ m i. ground (arith, ==-comm m.id e.id, contains-ne m.id e.id w.issued i fresh))
            s.issued));
    issued = rw h (
        All-append (λ m. contains m.id w'.issued ≡ true) w.db.moderators (e ∷ [])
          (All-mono (λ m. contains m.id w.issued ≡ true) w.db.moderators (λ m i. g m.id i) s.issued)
          (known, tt));
  };
  admins = λ a. rw h (ground (arith, count-append is_managed_admin w.db.moderators (e ∷ [])));
  roots = rw h (
      ground (
        arith,
        keep-append is_root w.db.moderators (e ∷ []),
        append_nil (keep is_root w.db.moderators),
      ));
}

module _ ⦃P : Prisma⦄ (generate : World → String) (hash : String → String) where
  unfoldable pub serve : StaffCall → World → World
  serve (creates actor dto) w = (create_account generate hash actor dto w).1
  serve (sets_role actor target role) w = (update_role actor target role w).1
  serve (deactivates actor target) w = (deactivate actor target w).1
  serve (reactivates actor target) w = (reactivate actor target w).1
  serve (resets_password actor target) w = (reset_password generate hash actor target w).1

  unfoldable pub serve_all : List StaffCall → World → World
  serve_all [] w = w
  serve_all (c ∷ rest) w = serve_all rest (serve c w)

  Spares-create :
      (actor : ℕ) (dto : CreateStaffAccountDto) (w : World)
      → IsStaffed w
      → Spares w (create_account generate hash actor dto w).1
  unfolding contains
  Spares-create actor dto w s =
      elim (Bool-cases (count_where (λ m. str_eq m.username dto.username) w.db.moderators == 0)) [
        | inl free ↦
            let made = create_free generate hash actor dto w free in
            Spares-added w (create_account generate hash actor dto w).1
              (new_account generate hash actor dto w) s (λ id h. rw made.0 (ground arith))
              (P.uuid_law w.issued) (rw made.0 (ground (arith, ==-refl (P.uuid w.issued)))) refl
              made.1
        | inr taken ↦
            let made = create_taken generate hash actor dto w taken in
            Spares-same w (create_account generate hash actor dto w).1 s
              (λ id h. rw made.0 (ground arith)) made.1
      ]

  serve-Spares : (c : StaffCall) (w : World) → IsStaffed w → Spares w (serve c w)
  unfolding serve
  serve-Spares (creates actor dto) w s = Spares-create actor dto w s
  serve-Spares (sets_role actor target role) w s =
      Spares-Edits target (with_role role)
        (λ m. same_role m.role admin && m.is_active && not (same_role role admin)) w
        (update_role actor target role w).1 (λ m. refl) (λ m. refl) (λ m l a. ground arith) s
        (update_role-Edits actor target role w)
  serve-Spares (deactivates actor target) w s =
      Spares-Edits target (with_active false) (λ m. same_role m.role admin && m.is_active) w
        (deactivate actor target w).1 (λ m. refl) (λ m. refl) (λ m l a. ground arith) s
        (deactivate-Edits actor target w)
  serve-Spares (reactivates actor target) w s =
      Spares-Edits target (with_active true) (λ m. false) w (reactivate actor target w).1
        (λ m. refl) (λ m. refl) (λ m l a. ground arith) s (reactivate-Edits actor target w)
  serve-Spares (resets_password actor target) w s =
      Spares-Edits target (with_password (hash (generate w))) (λ m. false) w
        (reset_password generate hash actor target w).1 (λ m. refl) (λ m. refl)
        (λ m l a. ground arith) s (reset_password-Edits generate hash actor target w)

  serve_all-Spares :
      (calls : List StaffCall) (w : World) → IsStaffed w → Spares w (serve_all calls w)
  unfolding serve_all
  serve_all-Spares [] w s = Spares-same w w s (λ id h. h) refl
  serve_all-Spares (c ∷ rest) w s =
      let one = serve-Spares c w s in
      let more = serve_all-Spares rest (serve c w) one.staffed in
      record {
        staffed = more.staffed;
        admins = λ a. more.admins (one.admins a);
        roots = more.roots ∙ one.roots;
      }

  -- Started where the ids of the accounts are distinct and have been given out and some active admin
  -- is not the root, every sequence of calls, one after the other, leaves such an admin; and the
  -- root's account stays as it was.
  pub serve_all-admins :
      (calls : List StaffCall) (w : World)
      → IsStaffed w
      → 1 ≤ count_where is_managed_admin w.db.moderators
      → (1 ≤ count_where is_managed_admin (serve_all calls w).db.moderators)
        × (keep is_root (serve_all calls w).db.moderators ≡ keep is_root w.db.moderators)
  serve_all-admins calls w s a =
      ((serve_all-Spares calls w s).admins a, (serve_all-Spares calls w s).roots)
