-- ===== src/Submissions/Inserts/RecruiterRatings.antt =====
-- What inserting a recruiter rating does.
use interview_insights.Prelude.{
  ℕ, ◌+◌, ◌*◌, ◌≡◌, refl, true, false, [], ◌∷◌, ◌++◌, count_where, arith, ◌==◌,
}
use interview_insights.Prisma.{Prisma}
use interview_insights.Schema.{recruiter_rating, QueueEntry, RecruiterRating, RecruiterRatingDto}
use interview_insights.World.{World, Failure, ok, raised, unique_violation}
use interview_insights.Moderation.Queue.{
  get_moderation_sla_hours, compute_sla_deadline, new_entry, create_entry, enqueue,
}
use interview_insights.Moderation.Queue.Resubmission.{hours-elsewhere, hours_refused-elsewhere}
use interview_insights.Fraud.{TextTools, detect_flag_reason}
use interview_insights.Submissions.Inserts.{
  insert_recruiter_rating, recruiter_rating_of, is_recruiter_rating_by,
}

module _ ⦃P : Prisma⦄ (tools : TextTools) (interaction candidate : ℕ)
    (dto : RecruiterRatingDto) where
  -- The new row.
  abbrev pub new_recruiter_rating : World → RecruiterRating
  new_recruiter_rating w = recruiter_rating_of (P.uuid w.issued) interaction candidate dto w.now

  -- Its queue entry.
  abbrev pub new_recruiter_rating_entry : ℕ → World → QueueEntry
  new_recruiter_rating_entry h w =
      new_entry (P.uuid (P.uuid w.issued ∷ w.issued)) recruiter_rating (P.uuid w.issued)
        (detect_flag_reason tools candidate recruiter_rating dto.free_text w)
        (w.now + h * 60 * 60 * 1000) false w.now

  abbrev pub with_recruiter_rating : World → World
  with_recruiter_rating w = record w {
    db = record w.db { recruiter_ratings = w.db.recruiter_ratings ++ new_recruiter_rating w ∷ [] };
    issued = P.uuid w.issued ∷ w.issued;
  }

  abbrev pub after_recruiter_rating : ℕ → World → World
  after_recruiter_rating h w = record (with_recruiter_rating w) {
    db = record (with_recruiter_rating w).db {
      queue = w.db.queue ++ new_recruiter_rating_entry h w ∷ [];
    };
    issued = P.uuid (P.uuid w.issued ∷ w.issued) ∷ P.uuid w.issued ∷ w.issued;
  }

  pub insert_recruiter_rating-eq :
      (h : ℕ) (w : World)
      → (count_where (is_recruiter_rating_by interaction candidate) w.db.recruiter_ratings == 0)
        ≡ true
      → get_moderation_sla_hours w ≡ (ok h, w)
      → insert_recruiter_rating tools interaction candidate dto w
        ≡ (ok (new_recruiter_rating w), after_recruiter_rating h w)
  unfolding insert_recruiter_rating enqueue compute_sla_deadline create_entry
  insert_recruiter_rating-eq h w n e = ground (
    arith,
    P.count_law (is_recruiter_rating_by interaction candidate) w.db.recruiter_ratings,
    P.create_law (new_recruiter_rating w) w.db.recruiter_ratings,
    hours-elsewhere h w (with_recruiter_rating w) refl e,
    P.create_law (new_recruiter_rating_entry h w) w.db.queue,
  )

  pub insert_recruiter_rating_taken :
      (w : World)
      → (count_where (is_recruiter_rating_by interaction candidate) w.db.recruiter_ratings == 0)
        ≡ false
      → insert_recruiter_rating tools interaction candidate dto w ≡ (raised unique_violation, w)
  unfolding insert_recruiter_rating
  insert_recruiter_rating_taken w n =
      ground
        (arith, P.count_law (is_recruiter_rating_by interaction candidate) w.db.recruiter_ratings)

  pub insert_recruiter_rating_refused :
      (f : Failure) (w : World)
      → (count_where (is_recruiter_rating_by interaction candidate) w.db.recruiter_ratings == 0)
        ≡ true
      → get_moderation_sla_hours w ≡ (raised f, w)
      → insert_recruiter_rating tools interaction candidate dto w
        ≡ (raised f, with_recruiter_rating w)
  unfolding insert_recruiter_rating enqueue compute_sla_deadline
  insert_recruiter_rating_refused f w n e = ground (
    arith,
    P.count_law (is_recruiter_rating_by interaction candidate) w.db.recruiter_ratings,
    P.create_law (new_recruiter_rating w) w.db.recruiter_ratings,
    hours_refused-elsewhere f w (with_recruiter_rating w) refl e,
  )
