-- ===== src/Gate/Decisions.antt =====
-- Deciding an entry keeps the gate.
use interview_insights.Prelude.{
  ℕ, ◌≡◌, refl, inl, inr, Bool, true, false, Option, none, some, is_some, first, count-eq-zero,
  count-pos_of_first, IsKeyed, IsKeyed-change, arith, ◌==◌, ==-refl, ◌&&◌, Bool-cases, Option-cases,
  if◌then◌else◌, ap, subst, sym, ◌∙◌,
}
use interview_insights.Prisma.{Prisma}
use interview_insights.Schema.{
  EntityType, round_rating, recruiter_rating, overall_review, company, Status, pending, same_status,
  FlagReason, QueueEntry, OverallReview, Db, same_type, same_type_refl,
}
use interview_insights.World.{World}
use interview_insights.Moderation.Queue.{has_id, is_unreviewed_for}
use interview_insights.Moderation.Indexing.{remove_from_search_index}
use interview_insights.Moderation.Entities.{
  status_of, with_status, entity_exists-eq, status_of-queue, queue-with_status,
}
use interview_insights.Moderation.Review.{
  Decision, decided_approved, decided_rejected, decided_flagged, ActionDto, AuditInput, review_row,
  review_check, review, entity_status, approve, reject, flag, approve_with_audit,
}
use interview_insights.Moderation.Review.Outcomes.{
  audited, queue-audited, committed, decided_queue, with_db, review_commit_open,
}
use interview_insights.Moderation.Review.BestEffort.{review_after-eq}
use interview_insights.Moderation.Review.Decisions.{status_of-audited}
use interview_insights.Moderation.Review.Refinement.{review_outcome, review_spec}
use interview_insights.Gate.{IsGated, Grows}
use interview_insights.Gate.Rules.{Gated, Keeps}
use interview_insights.Gate.Closings.{IsGated-decided}
use interview_insights.Gate.Statuses.{Puts-with_status}

entity_status-settled :
    (d : Decision) (escalated : Bool) → same_status (entity_status d escalated) pending ≡ false
unfolding entity_status
entity_status-settled decided_approved true = refl
entity_status-settled decided_approved false = refl
entity_status-settled decided_rejected true = refl
entity_status-settled decided_rejected false = refl
entity_status-settled decided_flagged true = refl
entity_status-settled decided_flagged false = refl

-- An audit leaves the reviews alone, and a status their keys.
module _ (key : OverallReview → ℕ)
    (settle : (s : Status) (r : OverallReview) → key (record r { status = s }) ≡ key r) where
  IsKeyed-with_status :
      (t : EntityType) (id : ℕ) (s : Status) (db : Db)
      → IsKeyed key db.overall_reviews
      → IsKeyed key (with_status t id s db).overall_reviews
  unfolding with_status
  IsKeyed-with_status round_rating id s db u = u
  IsKeyed-with_status recruiter_rating id s db u = u
  IsKeyed-with_status overall_review id s db u =
      IsKeyed-change key (λ r. r.id == id) (λ r. record r { status = s }) db.overall_reviews
        (settle s) u
  IsKeyed-with_status company id s db u = u

  IsKeyed-audited :
      (id : ℕ) (audit : Option AuditInput) (db : Db)
      → IsKeyed key db.overall_reviews
      → IsKeyed key (audited id audit db).overall_reviews
  IsKeyed-audited id none db u = u
  IsKeyed-audited id (some a) db u = u

-- The unreviewed entries of a submission that is gone: none.
not_orphan :
    (w : World) (id : ℕ) (e : QueueEntry)
    → Gated w
    → first (has_id id) w.db.queue ≡ some e
    → is_some e.reviewed_at ≡ false
    → is_some (status_of e.entity_type e.entity_id w.db) ≡ false
    → ⊥
not_orphan w id e g s r h = elim (Option-cases (status_of e.entity_type e.entity_id w.db)) [
  | inr (x, y) ↦ ground arith
  | inl n ↦ ground (
    arith,
    g.gate e.entity_type e.entity_id,
    count-pos_of_first (has_id id) (is_unreviewed_for e.entity_type e.entity_id) w.db.queue e s,
    same_type_refl e.entity_type,
    ==-refl e.entity_id,
  )
]

module _ (id : ℕ) (d : Decision) (dto : ActionDto) (fr : Option FlagReason)
    (audit : Option AuditInput) where
  committed-Gated :
      (w : World) (e : QueueEntry)
      → first (has_id id) w.db.queue ≡ some e
      → is_some e.reviewed_at ≡ false
      → is_some (status_of e.entity_type e.entity_id w.db) ≡ true
      → Gated w
      → IsGated (committed id d dto fr audit e w) w.issued
  committed-Gated w e s r h g =
      let o = entity_status d e.escalated in
      let decided = decided_queue id d dto fr w.now w.db in
      let settled = with_status e.entity_type e.entity_id o decided in
      let here = status_of-queue e.entity_type e.entity_id w.db decided.queue in
      IsGated-decided e.entity_type e.entity_id w.db (committed id d dto fr audit e w) w.issued
        w.issued id e o (review_row d dto fr w.now) g (λ i k. k) s (refl, refl, r) (λ x. refl)
        (λ x. refl) (entity_status-settled d e.escalated) h
        (queue-audited id audit settled ∙ queue-with_status e.entity_type e.entity_id o decided)
        (λ u i.
          status_of-audited u i id audit settled
          ∙ Puts-with_status e.entity_type e.entity_id o decided (ap is_some here ∙ h) u i
          ∙ ap (λ x. if same_type u e.entity_type && i == e.entity_id then some o else x)
              (status_of-queue u i w.db decided.queue))
        (IsKeyed-audited (λ x. x.id) (λ s x. refl) id audit settled
          (IsKeyed-with_status (λ x. x.id) (λ s x. refl) e.entity_type e.entity_id o decided
            g.reviews))
        (IsKeyed-audited (λ x. x.process_id) (λ s x. refl) id audit settled
          (IsKeyed-with_status (λ x. x.process_id) (λ s x. refl) e.entity_type e.entity_id o decided
            g.processes))

  spec-Gated :
      (w : World)
      → Gated w
      → IsGated (review_spec id d dto fr audit w (first (has_id id) w.db.queue)).1 w.issued
  spec-Gated w g = elim (Option-cases (first (has_id id) w.db.queue)) [
    | inl n ↦ rw n g
    | inr (e, s) ↦ elim (Bool-cases (is_some e.reviewed_at)) [
      | inl r ↦ rw (s, r) g
      | inr r ↦ elim (Bool-cases (is_some (status_of e.entity_type e.entity_id w.db))) [
        | inl h ↦ rw (s, r, h) (committed-Gated w e s r h g)
        | inr h ↦ absurd (not_orphan w id e g s r h)
      ]
    ]
  ]

  module _ ⦃P : Prisma⦄ where
    -- A review gives out no id.
    review-issued : (w : World) → (review id d dto fr audit w).1.issued ≡ w.issued
    unfolding review review_check remove_from_search_index
    review-issued w = elim (Option-cases (first (has_id id) w.db.queue)) [
      | inl n ↦ ground (arith, P.find_first_law (has_id id) w.db.queue)
      | inr (e, s) ↦ elim (Bool-cases (is_some e.reviewed_at)) [
        | inl r ↦ ground (arith, P.find_first_law (has_id id) w.db.queue)
        | inr r ↦ elim (Bool-cases (is_some (status_of e.entity_type e.entity_id w.db))) [
          | inl h ↦ ground (
            arith,
            P.find_first_law (has_id id) w.db.queue,
            entity_exists-eq e.entity_type e.entity_id w,
            review_commit_open id d dto fr audit e w e s r h,
            review_after-eq e id d dto (with_db w (committed id d dto fr audit e w)),
          )
          | inr h ↦ ground (
            arith,
            P.find_first_law (has_id id) w.db.queue,
            entity_exists-eq e.entity_type e.entity_id w,
            P.delete_law (has_id id) w.db.queue,
            count-eq-zero (has_id id) w.db.queue,
          )
        ]
      ]
    ]

    pub Keeps-review : Keeps (review id d dto fr audit)
    Keeps-review = record {
      at = λ w g. (
        subst (λ db. IsGated db (review id d dto fr audit w).1.issued)
            (sym (ap (λ x. x.1) (review_outcome id d dto fr audit w)))
            (subst
              (λ l. IsGated (review_spec id d dto fr audit w (first (has_id id) w.db.queue)).1 l)
              (sym (review-issued w)) (spec-Gated w g)),
        subst (Grows w.issued) (sym (review-issued w)) (λ i h. h),
      );
    }

module _ ⦃P : Prisma⦄ (id : ℕ) (dto : ActionDto) where
  pub Keeps-approve : Keeps (approve id dto)
  unfolding approve
  Keeps-approve = Keeps-review id decided_approved dto none none

  pub Keeps-reject : Keeps (reject id dto)
  unfolding reject
  Keeps-reject = record { at = λ w g. go (is_some dto.rejection_reason_category) refl w g }
    where
      go :
          (b : Bool)
          → is_some dto.rejection_reason_category ≡ b
          → (w : World) → Gated w
          → Gated (reject id dto w).1 × Grows w.issued (reject id dto w).1.issued
      go true e w g = rw e ((Keeps-review id decided_rejected dto none none).at w g)
      go false e w g = rw e (g, λ i h. h)

  pub Keeps-flag : (fr : Option FlagReason) → Keeps (flag id dto fr)
  unfolding flag
  Keeps-flag fr = Keeps-review id decided_flagged dto fr none

  pub Keeps-approve_with_audit : (audit : AuditInput) → Keeps (approve_with_audit id dto audit)
  unfolding approve_with_audit
  Keeps-approve_with_audit audit = Keeps-review id decided_approved dto none (some audit)
