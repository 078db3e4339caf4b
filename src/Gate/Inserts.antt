-- ===== src/Gate/Inserts.antt =====
-- The inserts of the submissions keep the gate.
use interview_insights.Prelude.{
  ℕ, ◌≡◌, refl, inl, inr, true, [], ◌∷◌, ◌++◌, count_where, IsKeyed-append, All-of_count, arith,
  ◌==◌, Bool-cases,
}
use interview_insights.Prisma.{Prisma}
use interview_insights.Schema.{
  round_rating, recruiter_rating, overall_review, RoundRatingDto, RecruiterRatingDto, OverallReview,
  OverallReviewDto,
}
use interview_insights.World.{World}
use interview_insights.World.Safe.{IsOk}
use interview_insights.Moderation.Queue.Resubmission.{hours-cases}
use interview_insights.Fraud.{TextTools}
use interview_insights.Submissions.Inserts.{
  is_rating_by, is_recruiter_rating_by, is_review_of, insert_round_rating, insert_recruiter_rating,
  insert_overall_review,
}
use interview_insights.Submissions.Inserts.RoundRatings.{
  new_round_rating, new_round_rating_entry, after_round_rating, insert_round_rating-eq,
  insert_round_rating_taken, insert_round_rating_refused,
}
use interview_insights.Submissions.Inserts.RecruiterRatings.{
  new_recruiter_rating, new_recruiter_rating_entry, after_recruiter_rating,
  insert_recruiter_rating-eq, insert_recruiter_rating_taken, insert_recruiter_rating_refused,
}
use interview_insights.Submissions.Inserts.OverallReviews.{
  new_overall_review, new_overall_review_entry, after_overall_review, insert_overall_review-eq,
  insert_overall_review_taken, insert_overall_review_refused,
}
use interview_insights.Gate.{Grows}
use interview_insights.Gate.Rules.{Gated, Guards}
use interview_insights.Gate.Steps.{IsGated-enqueued}
use interview_insights.Gate.Statuses.{
  Puts-round_rating_added, Puts-recruiter_rating_added, Puts-overall_review_added,
}
use interview_insights.Gate.Fresh.{
  unknown_round_rating, unknown_recruiter_rating, unknown_overall_review, enqueued, grown_once,
  grown_twice, known_first, known_second, fresh_second,
}

module _ ⦃P : Prisma⦄ (tools : TextTools) (round candidate : ℕ) (dto : RoundRatingDto) where
  insert_round_rating-Gated :
      (h : ℕ) (w : World)
      → (count_where (is_rating_by round candidate) w.db.round_ratings == 0) ≡ true
      → Gated w
      → Gated (after_round_rating tools round candidate dto h w)
  insert_round_rating-Gated h w n g =
      IsGated-enqueued round_rating (P.uuid w.issued) w.db
        (after_round_rating tools round candidate dto h w).db w.issued
        (after_round_rating tools round candidate dto h w).issued
        (new_round_rating_entry tools round candidate dto h w) g (grown_twice w.issued)
        (known_first w.issued) (fresh_second w.issued) (known_second w.issued) (refl, refl, refl)
        (enqueued round_rating w.db w.issued (P.uuid w.issued)
          (new_round_rating_entry tools round candidate dto h w) g (P.uuid_law w.issued))
        (Puts-round_rating_added w.db
          (w.db.queue ++ new_round_rating_entry tools round candidate dto h w ∷ [])
          (new_round_rating tools round candidate dto w)
          (unknown_round_rating w.db w.issued (P.uuid w.issued) g (P.uuid_law w.issued)) refl)
        g.reviews g.processes

  insert_round_rating_at :
      (w : World)
      → Gated w
      → let out = insert_round_rating tools round candidate dto w in
        (IsOk out.0 → Gated out.1) × Grows w.issued out.1.issued
  insert_round_rating_at w g =
      elim (Bool-cases (count_where (is_rating_by round candidate) w.db.round_ratings == 0)) [
        | inr n ↦
            rw (insert_round_rating_taken tools round candidate dto w n)
              ((λ h. absurd h), λ id h. h)
        | inl n ↦ elim (hours-cases w) [
          | inl (h, e) ↦
              rw (insert_round_rating-eq tools round candidate dto h w n e)
                ((λ k. insert_round_rating-Gated h w n g), grown_twice w.issued)
          | inr (f, e) ↦
              rw (insert_round_rating_refused tools round candidate dto f w n e)
                ((λ h. absurd h), grown_once w.issued)
        ]
      ]

  pub Guards-insert_round_rating : Guards (insert_round_rating tools round candidate dto)
  Guards-insert_round_rating = record { at = insert_round_rating_at }

module _ ⦃P : Prisma⦄ (tools : TextTools) (interaction candidate : ℕ)
    (dto : RecruiterRatingDto) where
  insert_recruiter_rating-Gated :
      (h : ℕ) (w : World)
      → (count_where (is_recruiter_rating_by interaction candidate) w.db.recruiter_ratings == 0)
        ≡ true
      → Gated w
      → Gated (after_recruiter_rating tools interaction candidate dto h w)
  insert_recruiter_rating-Gated h w n g =
      IsGated-enqueued recruiter_rating (P.uuid w.issued) w.db
        (after_recruiter_rating tools interaction candidate dto h w).db w.issued
        (after_recruiter_rating tools interaction candidate dto h w).issued
        (new_recruiter_rating_entry tools interaction candidate dto h w) g (grown_twice w.issued)
        (known_first w.issued) (fresh_second w.issued) (known_second w.issued) (refl, refl, refl)
        (enqueued recruiter_rating w.db w.issued (P.uuid w.issued)
          (new_recruiter_rating_entry tools interaction candidate dto h w) g (P.uuid_law w.issued))
        (Puts-recruiter_rating_added w.db
          (w.db.queue ++ new_recruiter_rating_entry tools interaction candidate dto h w ∷ [])
          (new_recruiter_rating tools interaction candidate dto w)
          (unknown_recruiter_rating w.db w.issued (P.uuid w.issued) g (P.uuid_law w.issued)) refl)
        g.reviews g.processes

  insert_recruiter_rating_at :
      (w : World)
      → Gated w
      → let out = insert_recruiter_rating tools interaction candidate dto w in
        (IsOk out.0 → Gated out.1) × Grows w.issued out.1.issued
  insert_recruiter_rating_at w g =
      elim (Bool-cases
        (count_where (is_recruiter_rating_by interaction candidate) w.db.recruiter_ratings == 0)) [
          | inr n ↦
              rw (insert_recruiter_rating_taken tools interaction candidate dto w n)
                ((λ h. absurd h), λ id h. h)
          | inl n ↦ elim (hours-cases w) [
            | inl (h, e) ↦
                rw (insert_recruiter_rating-eq tools interaction candidate dto h w n e)
                  ((λ k. insert_recruiter_rating-Gated h w n g), grown_twice w.issued)
            | inr (f, e) ↦
                rw (insert_recruiter_rating_refused tools interaction candidate dto f w n e)
                  ((λ h. absurd h), grown_once w.issued)
          ]
        ]

  pub Guards-insert_recruiter_rating :
      Guards (insert_recruiter_rating tools interaction candidate dto)
  Guards-insert_recruiter_rating = record { at = insert_recruiter_rating_at }

module _ ⦃P : Prisma⦄ (tools : TextTools) (process candidate : ℕ) (dto : OverallReviewDto) where
  insert_overall_review-Gated :
      (h : ℕ) (w : World)
      → (count_where (is_review_of process) w.db.overall_reviews == 0) ≡ true
      → Gated w
      → Gated (after_overall_review tools process candidate dto h w)
  insert_overall_review-Gated h w n g =
      IsGated-enqueued overall_review (P.uuid w.issued) w.db
        (after_overall_review tools process candidate dto h w).db w.issued
        (after_overall_review tools process candidate dto h w).issued
        (new_overall_review_entry tools process candidate dto h w) g (grown_twice w.issued)
        (known_first w.issued) (fresh_second w.issued) (known_second w.issued) (refl, refl, refl)
        (enqueued overall_review w.db w.issued (P.uuid w.issued)
          (new_overall_review_entry tools process candidate dto h w) g (P.uuid_law w.issued))
        (Puts-overall_review_added w.db
          (w.db.queue ++ new_overall_review_entry tools process candidate dto h w ∷ [])
          (new_overall_review tools process candidate dto w)
          (unknown_overall_review w.db w.issued (P.uuid w.issued) g (P.uuid_law w.issued)) refl)
        (IsKeyed-append (λ (r : OverallReview). r.id) w.db.overall_reviews
          (new_overall_review tools process candidate dto w) g.reviews
          (All-of_count (λ (r : OverallReview). r.id == P.uuid w.issued) w.db.overall_reviews
            (unknown_overall_review w.db w.issued (P.uuid w.issued) g (P.uuid_law w.issued))))
        (IsKeyed-append (λ (r : OverallReview). r.process_id) w.db.overall_reviews
          (new_overall_review tools process candidate dto w) g.processes
          (All-of_count (is_review_of process) w.db.overall_reviews (ground arith)))

  insert_overall_review_at :
      (w : World)
      → Gated w
      → let out = insert_overall_review tools process candidate dto w in
        (IsOk out.0 → Gated out.1) × Grows w.issued out.1.issued
  insert_overall_review_at w g =
      elim (Bool-cases (count_where (is_review_of process) w.db.overall_reviews == 0)) [
        | inr n ↦
            rw (insert_overall_review_taken tools process candidate dto w n)
              ((λ h. absurd h), λ id h. h)
        | inl n ↦ elim (hours-cases w) [
          | inl (h, e) ↦
              rw (insert_overall_review-eq tools process candidate dto h w n e)
                ((λ k. insert_overall_review-Gated h w n g), grown_twice w.issued)
          | inr (f, e) ↦
              rw (insert_overall_review_refused tools process candidate dto f w n e)
                ((λ h. absurd h), grown_once w.issued)
        ]
      ]

  pub Guards-insert_overall_review : Guards (insert_overall_review tools process candidate dto)
  Guards-insert_overall_review = record { at = insert_overall_review_at }
