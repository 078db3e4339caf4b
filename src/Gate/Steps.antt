-- ===== src/Gate/Steps.antt =====
-- A service makes a step at the gate: it enqueues a submission.
use interview_insights.Prelude.{
  ℕ, Bool, true, false, ◌&&◌, ◌≡◌, refl, sym, ap, ◌∙◌, inl, inr, Option, none, some, is_some, List,
  [], ◌∷◌, ◌++◌, drop_where, count_where, contains, contains-ne, count-append, All-append, All-mono,
  All-drop, IsKeyed, IsKeyed-append, IsKeyed-drop, count-drop-other, count-drop-within, arith, ◌==◌,
  ==-refl, ==-comm, eq_of_==, if◌then◌else◌, Bool-cases, if_true, if_false, count-one,
}
use interview_insights.Schema.{
  EntityType, Status, pending, same_type, same_type_refl, same_type_comm, eq_of_same_type,
  QueueEntry, Db,
}
use interview_insights.Moderation.Queue.{is_for, is_unreviewed_for}
use interview_insights.Moderation.Entities.{status_of}
use interview_insights.Gate.{is_pending, IsGated, Grows}

-- The second tables have another status for one submission, or none, and the same for the others.
abbrev pub Puts : EntityType → ℕ → Option Status → Db → Db → Type 0
Puts t id s db db' =
    (u : EntityType) (i : ℕ)
    → status_of u i db' ≡ (if same_type u t && i == id then s else status_of u i db)

-- The entry is the submission's and unreviewed.
abbrev pub WaitsFor : EntityType → ℕ → QueueEntry → Type 0
WaitsFor t id e = (e.entity_type ≡ t) × (e.entity_id ≡ id) × (is_some e.reviewed_at ≡ false)

same_kind : (u t : EntityType) (i id : ℕ) → u ≡ t → i ≡ id → (same_type u t && i == id) ≡ true
same_kind u t i id a b = rw (a, b) (ground (arith, same_type_refl t, ==-refl id))

kind_of :
    (u : EntityType) (i : ℕ) (x : QueueEntry)
    → is_for u i x ≡ true
    → (x.entity_type ≡ u) × (x.entity_id ≡ i)
kind_of u i x h =
    (eq_of_same_type x.entity_type u (ground arith), eq_of_== x.entity_id i (ground arith))

-- An entry is for one submission.
for_one :
    (u t : EntityType) (i id : ℕ) (x : QueueEntry)
    → is_for u i x ≡ true
    → is_for t id x ≡ true
    → (same_type u t && i == id) ≡ true
for_one u t i id x a b =
    let k = kind_of u i x a in
    let l = kind_of t id x b in same_kind u t i id (sym k.0 ∙ l.0) (sym k.1 ∙ l.1)

pub not_for :
    (u t : EntityType) (i id : ℕ) (x : QueueEntry)
    → (same_type u t && i == id) ≡ false
    → is_unreviewed_for u i x ≡ true
    → is_for t id x ≡ false
not_for u t i id x n h = elim (Bool-cases (is_for t id x)) [
  | inr f ↦ f
  | inl f ↦ ground (arith, for_one u t i id x)
]

-- The test of an entry that waits for a submission.
pub waits :
    (u t : EntityType) (i id : ℕ) (e : QueueEntry)
    → WaitsFor t id e
    → is_unreviewed_for u i e ≡ (same_type u t && i == id)
waits u t i id e k = rw (k.0, k.1, k.2) (ground (arith, ==-comm id i, same_type_comm t u))

pub not_none : (o : Option Status) → o ≡ none → is_some o ≡ true → ⊥
not_none o n h = ground arith

module _ (t : EntityType) (id : ℕ) (db db' : Db) (issued issued' : List ℕ) where
  -- A submission that is enqueued, whether or not it has been before, is pending and has one entry.
  pub IsGated-enqueued :
      (e : QueueEntry)
      → IsGated db issued
      → Grows issued issued'
      → contains id issued' ≡ true
      → contains e.id issued ≡ false
      → contains e.id issued' ≡ true
      → WaitsFor t id e
      → db'.queue ≡ drop_where (is_unreviewed_for t id) db.queue ++ e ∷ []
      → Puts t id (some pending) db db'
      → IsKeyed (λ r. r.id) db'.overall_reviews
      → IsKeyed (λ r. r.process_id) db'.overall_reviews
      → IsGated db' issued'
  IsGated-enqueued e g m i n o k q s a b = record {
    keyed = rw q (
        IsKeyed-append (λ (x : QueueEntry). x.id) (drop_where (is_unreviewed_for t id) db.queue) e
          (IsKeyed-drop (λ (x : QueueEntry). x.id) (is_unreviewed_for t id) db.queue g.keyed)
          (All-drop (λ x. (x.id == e.id) ≡ false) (is_unreviewed_for t id) db.queue
            (All-mono (λ x. contains x.id issued ≡ true) db.queue
              (λ x h. ground (arith, contains-ne x.id e.id issued h n, ==-comm x.id e.id))
              g.entries)));
    entries = rw q (
        All-append (λ x. contains x.id issued' ≡ true)
          (drop_where (is_unreviewed_for t id) db.queue) (e ∷ [])
          (All-drop (λ x. contains x.id issued' ≡ true) (is_unreviewed_for t id) db.queue
            (All-mono (λ x. contains x.id issued ≡ true) db.queue (λ x h. m x.id h) g.entries))
          (o, tt));
    entities = λ u j h. known u j (same_type u t && j == id) refl h;
    gate = λ u j.
        ap (λ l. count_where (is_unreviewed_for u j) l) q
        ∙ counted u j (same_type u t && j == id) refl;
    reviews = a;
    processes = b;
  }
    where
      known :
          (u : EntityType) (j : ℕ) (c : Bool)
          → (same_type u t && j == id) ≡ c
          → is_some (status_of u j db') ≡ true
          → contains j issued' ≡ true
      known u j true e h = rw (eq_of_== j id (ground arith)) i
      known u j false e h = m j (g.entities u j (ground (arith, s u j)))

      counted :
          (u : EntityType) (j : ℕ) (c : Bool)
          → (same_type u t && j == id) ≡ c
          → count_where
              (is_unreviewed_for u j)
              (drop_where (is_unreviewed_for t id) db.queue ++ e ∷ [])
            ≡ (if is_pending (status_of u j db') then 1 else 0)
      counted u j true c =
          let st = s u j ∙ if_true _ (some pending) (status_of u j db) c in
          let one = count-one (is_unreviewed_for u j) e true (waits u t j id e k ∙ c) in
          let rest =
            count-drop-within (is_unreviewed_for u j) (is_unreviewed_for t id) db.queue (λ x h.
              rw (sym (eq_of_same_type u t (ground arith)), sym (eq_of_== j id (ground arith)))
                h) in
          rw
            (
              count-append (is_unreviewed_for u j) (drop_where (is_unreviewed_for t id) db.queue)
                  (e ∷ []),
              st,
              one,
              rest,
            )
            refl
      counted u j false c =
          let st = s u j ∙ if_false _ (some pending) (status_of u j db) c in
          let zero' = count-one (is_unreviewed_for u j) e false (waits u t j id e k ∙ c) in
          let rest =
            count-drop-other (is_unreviewed_for u j) (is_unreviewed_for t id) db.queue
              (λ x h. ground (arith, not_for u t j id x c h)) in
          rw
            (
              count-append (is_unreviewed_for u j) (drop_where (is_unreviewed_for t id) db.queue)
                  (e ∷ []),
              st,
              zero',
              rest,
              g.gate u j,
            )
            (omega arith)
