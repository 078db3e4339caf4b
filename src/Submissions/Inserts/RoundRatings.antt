-- ===== src/Submissions/Inserts/RoundRatings.antt =====
-- What inserting a round rating does.
use interview_insights.Prelude.{
  ℕ, ◌+◌, ◌*◌, ◌≡◌, refl, true, false, [], ◌∷◌, ◌++◌, count_where, arith, ◌==◌,
}
use interview_insights.Prisma.{Prisma}
use interview_insights.Schema.{round_rating, QueueEntry, RoundRating, RoundRatingDto}
use interview_insights.World.{World, Failure, ok, raised, unique_violation}
use interview_insights.Moderation.Queue.{
  get_moderation_sla_hours, compute_sla_deadline, new_entry, create_entry, enqueue,
}
use interview_insights.Moderation.Queue.Resubmission.{hours-elsewhere, hours_refused-elsewhere}
use interview_insights.Fraud.{TextTools, detect_flag_reason}
use interview_insights.Submissions.Inserts.{insert_round_rating, round_rating_of, is_rating_by}

module _ ⦃P : Prisma⦄ (tools : TextTools) (round candidate : ℕ) (dto : RoundRatingDto) where
  -- The new row.
  abbrev pub new_round_rating : World → RoundRating
  new_round_rating w = round_rating_of (P.uuid w.issued) round candidate dto w.now

  -- Its queue entry.
  abbrev pub new_round_rating_entry : ℕ → World → QueueEntry
  new_round_rating_entry h w =
      new_entry (P.uuid (P.uuid w.issued ∷ w.issued)) round_rating (P.uuid w.issued)
        (detect_flag_reason tools candidate round_rating dto.free_text w)
        (w.now + h * 60 * 60 * 1000) false w.now

  abbrev pub with_round_rating : World → World
  with_round_rating w = record w {
    db = record w.db { round_ratings = w.db.round_ratings ++ new_round_rating w ∷ [] };
    issued = P.uuid w.issued ∷ w.issued;
  }

  abbrev pub after_round_rating : ℕ → World → World
  after_round_rating h w = record (with_round_rating w) {
    db = record (with_round_rating w).db { queue = w.db.queue ++ new_round_rating_entry h w ∷ [] };
    issued = P.uuid (P.uuid w.issued ∷ w.issued) ∷ P.uuid w.issued ∷ w.issued;
  }

  pub insert_round_rating-eq :
      (h : ℕ) (w : World)
      → (count_where (is_rating_by round candidate) w.db.round_ratings == 0) ≡ true
      → get_moderation_sla_hours w ≡ (ok h, w)
      → insert_round_rating tools round candidate dto w
        ≡ (ok (new_round_rating w), after_round_rating h w)
  unfolding insert_round_rating enqueue compute_sla_deadline create_entry
  insert_round_rating-eq h w n e = ground (
    arith,
    P.count_law (is_rating_by round candidate) w.db.round_ratings,
    P.create_law (new_round_rating w) w.db.round_ratings,
    hours-elsewhere h w (with_round_rating w) refl e,
    P.create_law (new_round_rating_entry h w) w.db.queue,
  )

  pub insert_round_rating_taken :
      (w : World)
      → (count_where (is_rating_by round candidate) w.db.round_ratings == 0) ≡ false
      → insert_round_rating tools round candidate dto w ≡ (raised unique_violation, w)
  unfolding insert_round_rating
  insert_round_rating_taken w n =
      ground (arith, P.count_law (is_rating_by round candidate) w.db.round_ratings)

  pub insert_round_rating_refused :
      (f : Failure) (w : World)
      → (count_where (is_rating_by round candidate) w.db.round_ratings == 0) ≡ true
      → get_moderation_sla_hours w ≡ (raised f, w)
      → insert_round_rating tools round candidate dto w ≡ (raised f, with_round_rating w)
  unfolding insert_round_rating enqueue compute_sla_deadline
  insert_round_rating_refused f w n e = ground (
    arith,
    P.count_law (is_rating_by round candidate) w.db.round_ratings,
    P.create_law (new_round_rating w) w.db.round_ratings,
    hours_refused-elsewhere f w (with_round_rating w) refl e,
  )
