-- ===== src/Submissions/RoundRatings/Created.antt =====
-- What creating a round rating does.
use interview_insights.Prelude.{ℕ, ◌≡◌, refl, true, none, [], ◌∷◌, ◌++◌, arith, count_where, ◌==◌}
use interview_insights.Prisma.{Prisma}
use interview_insights.Schema.{round_rating, RoundRatingDto}
use interview_insights.World.{World, Failure, ok, raised}
use interview_insights.World.Quiet.{with_calls}
use interview_insights.Moderation.Queue.{get_moderation_sla_hours}
use interview_insights.Moderation.Publishing.{publish_created_event}
use interview_insights.Moderation.Indexing.{index_for_search}
use interview_insights.Fraud.{TextTools}
use interview_insights.Submissions.Quiet.{index_for_search-eq, publish_created_event-eq}
use interview_insights.Submissions.Inserts.{is_rating_by}
use interview_insights.Submissions.Inserts.RoundRatings.{
  new_round_rating, new_round_rating_entry, after_round_rating, insert_round_rating-eq,
  insert_round_rating_refused,
}
use interview_insights.Submissions.RoundRatings.{create_round_rating}

module _ ⦃P : Prisma⦄ (tools : TextTools) (round candidate : ℕ) (dto : RoundRatingDto) where
  create_round_rating-eq :
      (h : ℕ) (w : World)
      → (count_where (is_rating_by round candidate) w.db.round_ratings == 0) ≡ true
      → get_moderation_sla_hours w ≡ (ok h, w)
      → let row = new_round_rating tools round candidate dto w in
        let v = after_round_rating tools round candidate dto h w in
        create_round_rating tools round candidate dto w ≡ (
          ok row,
          with_calls v
              (publish_created_event round_rating row.id none
                (index_for_search round_rating row.id v).1).1.calls,
        )
  unfolding create_round_rating
  create_round_rating-eq h w n e =
      let row = new_round_rating tools round candidate dto w in
      let v = after_round_rating tools round candidate dto h w in
      ground (
        arith,
        insert_round_rating-eq tools round candidate dto h w n e,
        index_for_search-eq round_rating row.id v,
        publish_created_event-eq round_rating row.id none
            (index_for_search round_rating row.id v).1,
      )

  -- Where the candidate has not rated the round and the number of hours is configured properly, a
  -- submission succeeds, the rating starts pending, whatever the fraud checks say, and exactly one
  -- entry is added to the queue: unreviewed and not escalated, with what the fraud checks found and a
  -- deadline the configured number of hours away.
  pub create_round_rating_gated :
      (h : ℕ) (w : World)
      → (count_where (is_rating_by round candidate) w.db.round_ratings == 0) ≡ true
      → get_moderation_sla_hours w ≡ (ok h, w)
      → let out = create_round_rating tools round candidate dto w in
        let row = new_round_rating tools round candidate dto w in
        (out.0 ≡ ok row)
        × (out.1.db.round_ratings ≡ w.db.round_ratings ++ row ∷ [])
        × (out.1.db.queue ≡ w.db.queue ++ new_round_rating_entry tools round candidate dto h w ∷ [])
  create_round_rating_gated h w n e = rw (create_round_rating-eq h w n e) (refl, refl, refl)

  -- Where the candidate has not rated the round and the number of hours is refused, so is the
  -- submission, and no table changes: there is no rating without a queue entry.
  pub create_round_rating_refused :
      (f : Failure) (w : World)
      → (count_where (is_rating_by round candidate) w.db.round_ratings == 0) ≡ true
      → get_moderation_sla_hours w ≡ (raised f, w)
      → let out = create_round_rating tools round candidate dto w in
        (out.0 ≡ raised f) × (out.1.db ≡ w.db)
  unfolding create_round_rating
  create_round_rating_refused f w n e =
      ground (arith, insert_round_rating_refused tools round candidate dto f w n e)
