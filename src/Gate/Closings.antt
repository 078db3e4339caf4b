-- ===== src/Gate/Closings.antt =====
-- The steps after which a submission does not wait at the gate: a service takes it out, or decides
-- it.
use interview_insights.Prelude.{
  ℕ, ◌+◌, Bool, true, false, ◌&&◌, ◌≡◌, refl, sym, ap, subst, ◌∙◌, none, some, is_some, List, first,
  first_sound, change, drop_where, count_where, contains, All-mono, All-drop, All-change, IsKeyed,
  IsKeyed-change, IsKeyed-drop, count-drop-other, count-drop-within, count-change-first, arith,
  ◌==◌, eq_of_==, if◌then◌else◌, if_true, if_false,
}
use interview_insights.Schema.{
  EntityType, Status, pending, same_status, same_type, eq_of_same_type, QueueEntry, Db,
}
use interview_insights.Moderation.Queue.{is_for, is_unreviewed_for, has_id}
use interview_insights.Moderation.Review.{is_open}
use interview_insights.Moderation.Entities.{status_of}
use interview_insights.Gate.{is_pending, IsGated, Grows}
use interview_insights.Gate.Steps.{Puts, WaitsFor, not_for, waits, not_none}

module _ (t : EntityType) (id : ℕ) (db db' : Db) (issued issued' : List ℕ) where
  -- A submission that is taken out has no entry left, reviewed or not.
  pub IsGated-removed :
      IsGated db issued
      → Grows issued issued'
      → db'.queue ≡ drop_where (is_for t id) db.queue
      → Puts t id none db db'
      → IsKeyed (λ r. r.id) db'.overall_reviews
      → IsKeyed (λ r. r.process_id) db'.overall_reviews
      → IsGated db' issued'
  IsGated-removed g m q s a b = record {
    keyed = rw q (IsKeyed-drop (λ (x : QueueEntry). x.id) (is_for t id) db.queue g.keyed);
    entries = rw q (
        All-drop (λ x. contains x.id issued' ≡ true) (is_for t id) db.queue
          (All-mono (λ x. contains x.id issued ≡ true) db.queue (λ x h. m x.id h) g.entries));
    entities = λ u j h. known u j (same_type u t && j == id) refl h;
    gate = λ u j.
        ap (λ l. count_where (is_unreviewed_for u j) l) q
        ∙ counted u j (same_type u t && j == id) refl;
    reviews = a;
    processes = b;
  }
    where
      known :
          (u : EntityType) (j : ℕ) (c : Bool)
          → (same_type u t && j == id) ≡ c
          → is_some (status_of u j db') ≡ true
          → contains j issued' ≡ true
      known u j true e h =
          absurd (not_none (status_of u j db') (s u j ∙ if_true _ none (status_of u j db) e) h)
      known u j false e h =
          m j (g.entities u j (subst (λ o. is_some o ≡ true) (s u j ∙ if_false _ none _ e) h))

      counted :
          (u : EntityType) (j : ℕ) (c : Bool)
          → (same_type u t && j == id) ≡ c
          → count_where (is_unreviewed_for u j) (drop_where (is_for t id) db.queue)
            ≡ (if is_pending (status_of u j db') then 1 else 0)
      counted u j true c =
          let st = s u j ∙ if_true _ none (status_of u j db) c in
          let rest = count-drop-within (is_unreviewed_for u j) (is_for t id) db.queue (λ x h.
            rw (sym (eq_of_same_type u t (ground arith)), sym (eq_of_== j id (ground arith)))
              (ground arith)) in
          rw (st, rest) refl
      counted u j false c =
          let st = s u j ∙ if_false _ none (status_of u j db) c in
          let rest =
            count-drop-other (is_unreviewed_for u j) (is_for t id) db.queue
              (λ x h. not_for u t j id x c h) in
          rw (st, rest, g.gate u j) refl

  -- A submission that is decided has its entry reviewed.
  pub IsGated-decided :
      (k : ℕ) (e : QueueEntry) (o : Status) (f : QueueEntry → QueueEntry)
      → IsGated db issued
      → Grows issued issued'
      → first (has_id k) db.queue ≡ some e
      → WaitsFor t id e
      → ((x : QueueEntry) → (f x).id ≡ x.id)
      → ((x : QueueEntry) → is_some (f x).reviewed_at ≡ true)
      → same_status o pending ≡ false
      → is_some (status_of t id db) ≡ true
      → db'.queue ≡ change (is_open k) f db.queue
      → Puts t id (some o) db db'
      → IsKeyed (λ r. r.id) db'.overall_reviews
      → IsKeyed (λ r. r.process_id) db'.overall_reviews
      → IsGated db' issued'
  IsGated-decided k e o f g m w l fi fr np i q s a b = record {
    keyed = rw q (IsKeyed-change (λ (x : QueueEntry). x.id) (is_open k) f db.queue fi g.keyed);
    entries = rw q (
        All-change (λ x. contains x.id issued' ≡ true) (is_open k) f db.queue (λ x h. rw (fi x) h)
          (All-mono (λ x. contains x.id issued ≡ true) db.queue (λ x h. m x.id h) g.entries));
    entities = λ u j h. known u j (same_type u t && j == id) refl h;
    gate = λ u j.
        ap (λ l. count_where (is_unreviewed_for u j) l) q
        ∙ counted u j (same_type u t && j == id) refl;
    reviews = a;
    processes = b;
  }
    where
      moved :
          (u : EntityType) (j : ℕ)
          → count_where (is_unreviewed_for u j) (change (is_open k) f db.queue)
              + (if is_unreviewed_for u j e then 1 else 0)
            ≡ count_where (is_unreviewed_for u j) db.queue
      moved u j =
          count-change-first (λ (x : QueueEntry). x.id) k (is_unreviewed_for u j) (is_open k) f
            db.queue e g.keyed (λ x h. ground arith)
            (ground (arith, first_sound (has_id k) db.queue e w)) (λ x. ground (arith, fr x)) w

      known :
          (u : EntityType) (j : ℕ) (c : Bool)
          → (same_type u t && j == id) ≡ c
          → is_some (status_of u j db') ≡ true
          → contains j issued' ≡ true
      known u j true e h = rw (eq_of_== j id (ground arith)) (m id (g.entities t id i))
      known u j false e h =
          m j (g.entities u j (subst (λ o. is_some o ≡ true) (s u j ∙ if_false _ (some o) _ e) h))

      counted :
          (u : EntityType) (j : ℕ) (c : Bool)
          → (same_type u t && j == id) ≡ c
          → count_where (is_unreviewed_for u j) (change (is_open k) f db.queue)
            ≡ (if is_pending (status_of u j db') then 1 else 0)
      counted u j true c =
          let st = s u j ∙ if_true _ (some o) (status_of u j db) c in
          rw st (ground (arith, moved u j, g.gate u j, waits u t j id e l))
      counted u j false c =
          let st = s u j ∙ if_false _ (some o) (status_of u j db) c in
          rw st (ground (arith, moved u j, g.gate u j, waits u t j id e l))
