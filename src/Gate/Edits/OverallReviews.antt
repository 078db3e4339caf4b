-- ===== src/Gate/Edits/OverallReviews.antt =====
-- Editing an overall review keeps the gate.
use interview_insights.Prelude.{
  ℕ, ◌≡◌, refl, inl, inr, some, List, [], ◌∷◌, ◌++◌, first, change, drop_where, count-eq-zero,
  first-change_self, first-by_key, change-by_key, IsKeyed-change, arith, subst, sym,
}
use interview_insights.Prisma.{Prisma}
use interview_insights.Schema.{
  overall_review, pending, OverallReview, OverallReviewDto, QueueEntry, Db,
}
use interview_insights.World.{World, Failure, ok, raised}
use interview_insights.Moderation.Queue.{get_moderation_sla_hours, is_unreviewed_for}
use interview_insights.Moderation.Queue.Resubmission.{
  reenqueue-eq, reenqueue_refused, resubmitted, hours-moved, hours-cases, hours_refused-elsewhere,
}
use interview_insights.Moderation.Entities.{status_of}
use interview_insights.Submissions.Inserts.{is_review_of}
use interview_insights.Submissions.OverallReviews.{edited_review, edit_overall_review}
use interview_insights.Gate.{Grows}
use interview_insights.Gate.Rules.{Gated}
use interview_insights.Gate.Steps.{Puts, IsGated-enqueued}
use interview_insights.Gate.Statuses.{Puts-overall_review_changed}
use interview_insights.Gate.Fresh.{grown_once, known_once}

module _ ⦃P : Prisma⦄ (process : ℕ) (dto : OverallReviewDto) where
  abbrev edited_overall_reviews : World → Db
  edited_overall_reviews w = record w.db {
    overall_reviews = change (is_review_of process) (edited_review dto) w.db.overall_reviews;
  }

  -- The world after the edit of a review.
  abbrev after_overall_review_edit : ℕ → ℕ → World → World
  after_overall_review_edit id h w = record w {
    db = record (edited_overall_reviews w) {
      queue =
          drop_where (is_unreviewed_for overall_review id) w.db.queue
          ++ resubmitted overall_review id h (record w { db = edited_overall_reviews w }) ∷ [];
    };
    issued = P.uuid w.issued ∷ w.issued;
  }

  edit_overall_review-eq :
      (id h : ℕ) (w : World) (r : OverallReview)
      → get_moderation_sla_hours w ≡ (ok h, w)
      → first (is_review_of process) w.db.overall_reviews ≡ some r
      → edit_overall_review process id dto w ≡ (
        ok (
          edited_review dto r,
          resubmitted overall_review id h (record w { db = edited_overall_reviews w }),
        ),
        after_overall_review_edit id h w,
      )
  unfolding edit_overall_review
  edit_overall_review-eq id h w r e s = ground (
    arith,
    P.update_law (is_review_of process) (edited_review dto) w.db.overall_reviews,
    count-eq-zero (is_review_of process) w.db.overall_reviews,
    P.find_first_law (is_review_of process) (edited_overall_reviews w).overall_reviews,
    first-change_self (is_review_of process) (edited_review dto) w.db.overall_reviews (λ x. refl),
    reenqueue-eq overall_review id h (record w { db = edited_overall_reviews w })
        (hours-moved h w (edited_overall_reviews w) e),
  )

  edit_overall_review_refused :
      (id : ℕ) (f : Failure) (w : World) (r : OverallReview)
      → get_moderation_sla_hours w ≡ (raised f, w)
      → first (is_review_of process) w.db.overall_reviews ≡ some r
      → edit_overall_review process id dto w ≡ (raised f, w)
  unfolding edit_overall_review
  edit_overall_review_refused id f w r e s = ground (
    arith,
    P.update_law (is_review_of process) (edited_review dto) w.db.overall_reviews,
    count-eq-zero (is_review_of process) w.db.overall_reviews,
    P.find_first_law (is_review_of process) (edited_overall_reviews w).overall_reviews,
    first-change_self (is_review_of process) (edited_review dto) w.db.overall_reviews (λ x. refl),
    reenqueue_refused overall_review id f (record w { db = edited_overall_reviews w })
        (hours_refused-elsewhere f w (record w { db = edited_overall_reviews w }) refl e),
  )

  -- The review of the process is the one with its id.
  Puts-overall_review_edited :
      (w : World) (r : OverallReview) (queue : List QueueEntry)
      → first (is_review_of process) w.db.overall_reviews ≡ some r
      → Gated w
      → Puts overall_review r.id
          (some pending)
          w.db
          (record (edited_overall_reviews w) { queue = queue })
  Puts-overall_review_edited w r queue s g =
      subst
        (λ rows.
          Puts overall_review r.id (some pending) w.db
            (record w.db { queue = queue; overall_reviews = rows }))
        (sym (
          change-by_key (λ (x : OverallReview). x.id) (λ x. x.process_id) process
            (edited_review dto) w.db.overall_reviews r g.reviews g.processes s))
        (Puts-overall_review_changed w.db queue r.id (edited_review dto) pending r
          (first-by_key (λ (x : OverallReview). x.id) (λ x. x.process_id) process
            w.db.overall_reviews r g.reviews s)
          (λ x. refl) (λ x. refl))

  overall_review_edit-Gated :
      (h : ℕ) (w : World) (r : OverallReview)
      → first (is_review_of process) w.db.overall_reviews ≡ some r
      → Gated w
      → Gated (after_overall_review_edit r.id h w)
  unfolding status_of
  overall_review_edit-Gated h w r s g =
      let known =
        first-by_key (λ (x : OverallReview). x.id) (λ x. x.process_id) process w.db.overall_reviews
          r g.reviews s in
      IsGated-enqueued overall_review r.id w.db (after_overall_review_edit r.id h w).db w.issued
        (after_overall_review_edit r.id h w).issued
        (resubmitted overall_review r.id h (record w { db = edited_overall_reviews w })) g
        (grown_once w.issued)
        (grown_once w.issued r.id (g.entities overall_review r.id (ground arith)))
        (P.uuid_law w.issued) (known_once w.issued) (refl, refl, refl) refl
        (Puts-overall_review_edited w r (after_overall_review_edit r.id h w).db.queue s g)
        (IsKeyed-change (λ (x : OverallReview). x.id) (is_review_of process) (edited_review dto)
          w.db.overall_reviews (λ x. refl) g.reviews)
        (IsKeyed-change (λ (x : OverallReview). x.process_id) (is_review_of process)
          (edited_review dto) w.db.overall_reviews (λ x. refl) g.processes)

  -- The edit of the review that the process has.
  pub edit_overall_review-Gated :
      (w : World) (r : OverallReview)
      → first (is_review_of process) w.db.overall_reviews ≡ some r
      → Gated w
      → let out = edit_overall_review process r.id dto w in
        Gated out.1 × Grows w.issued out.1.issued
  edit_overall_review-Gated w r s g = elim (hours-cases w) [
    | inl (h, e) ↦
        rw (edit_overall_review-eq r.id h w r e s)
          (overall_review_edit-Gated h w r s g, grown_once w.issued)
    | inr (f, e) ↦ rw (edit_overall_review_refused r.id f w r e s) (g, λ i h. h)
  ]
