-- ===== src/Submissions/RoundRatings/Edits.antt =====
-- What editing and removing a round rating does.
use interview_insights.Moderation.Indexing.{remove_from_search_index}
use interview_insights.Submissions.RoundRatings.{remove_review_from_index}
use interview_insights.Prelude.{first_sound}
use interview_insights.Prelude.{
  ℕ, ◌≡◌, inl, inr, true, false, not, ◌&&◌, some, List, [], ◌∷◌, ◌++◌, first, change, drop_where,
  count-pos_of_first, arith, ◌==◌, if◌then◌else◌, Bool-cases,
}
use interview_insights.Prisma.{Prisma}
use interview_insights.Schema.{
  round_rating, permanently_rejected, approved, same_status, RoundRating, RoundRatingDto,
}
use interview_insights.World.{World, ok, raised}
use interview_insights.World.Calls.{Call}
use interview_insights.Moderation.Publishing.{publish_created_event}
use interview_insights.Moderation.Indexing.{index_for_search, remove_from_search_index}
use interview_insights.Moderation.Queue.{is_for, is_unreviewed_for, remove_queue_entries}
use interview_insights.Moderation.Queue.Resubmission.{resubmitted}
use interview_insights.Submissions.RoundRatings.{
  is_rating_of_round, edited_rating, find_round_rating, update_round_rating, delete_round_rating,
  remove_round_rating, rating_not_yours_to_edit, rating_closed,
}

module _ ⦃P : Prisma⦄ (round id candidate : ℕ) (dto : RoundRatingDto) where
  -- An edit of somebody else's rating and one of a permanently rejected rating are refused, and
  -- nothing changes.
  pub update_round_rating_refused :
      (w : World) (r : RoundRating)
      → first (is_rating_of_round round id) w.db.round_ratings ≡ some r
      → (r.candidate_id == candidate && not (same_status r.status permanently_rejected)) ≡ false
      → update_round_rating round id candidate dto w ≡ (
        raised (if r.candidate_id == candidate then rating_closed else rating_not_yours_to_edit),
        w,
      )
  unfolding update_round_rating find_round_rating
  update_round_rating_refused w r s n = elim (Bool-cases (r.candidate_id == candidate)) [
    | inl y ↦ ground (arith, P.find_first_law (is_rating_of_round round id) w.db.round_ratings)
    | inr y ↦ ground (arith, P.find_first_law (is_rating_of_round round id) w.db.round_ratings)
  ]

  -- The tables with the rating edited.
  abbrev pub with_edit : World → World
  with_edit w = record w {
    db = record w.db {
      round_ratings = change (λ r. r.id == id) (edited_rating dto) w.db.round_ratings;
    };
  }

  -- The world after the transaction of an edit.
  abbrev after_edit : ℕ → World → World
  after_edit h w = record (with_edit w) {
    db = record (with_edit w).db {
      queue =
          drop_where (is_unreviewed_for round_rating id) w.db.queue
          ++ resubmitted round_rating id h (with_edit w) ∷ [];
    };
    issued = P.uuid w.issued ∷ w.issued;
  }

  -- The requests of an edit.
  abbrev edit_calls : ℕ → World → List Call
  edit_calls h w =
      (publish_created_event round_rating id (some (resubmitted round_rating id h (with_edit w)).id)
        (index_for_search round_rating id (after_edit h w)).1).1.calls

module _ ⦃P : Prisma⦄ (round id candidate : ℕ) where
  -- The world after the transaction of a removal.
  abbrev without : World → World
  without w = record w {
    db = record w.db {
      queue = drop_where (is_for round_rating id) w.db.queue;
      round_ratings = drop_where (λ r. r.id == id) w.db.round_ratings;
    };
  }

  delete_round_rating-eq :
      (w : World) (r : RoundRating)
      → first (is_rating_of_round round id) w.db.round_ratings ≡ some r
      → delete_round_rating id w ≡ (ok tt, without w)
  unfolding delete_round_rating remove_queue_entries
  delete_round_rating-eq w r s = ground (
    arith,
    P.delete_many_law (is_for round_rating id) w.db.queue,
    P.delete_law (λ (r : RoundRating). r.id == id) w.db.round_ratings,
    count-pos_of_first (is_rating_of_round round id) (λ (r : RoundRating). r.id == id)
        w.db.round_ratings r s,
    first_sound (is_rating_of_round round id) w.db.round_ratings r s,
  )

  -- A removal by the rating's author of a rating that exists succeeds, and no queue entry, reviewed
  -- or not, and no row of the rating stay.
  pub remove_round_rating_removes :
      (w : World) (r : RoundRating)
      → first (is_rating_of_round round id) w.db.round_ratings ≡ some r
      → (r.candidate_id == candidate) ≡ true
      → let out = remove_round_rating round id candidate w in
        (out.0 ≡ ok tt)
        × (out.1.db.queue ≡ drop_where (is_for round_rating id) w.db.queue)
        × (out.1.db.round_ratings ≡ drop_where (λ r. r.id == id) w.db.round_ratings)
  unfolding remove_round_rating find_round_rating remove_from_search_index remove_review_from_index
  remove_round_rating_removes w r s y = elim (Bool-cases (same_status r.status approved)) [
    | inl a ↦ (
      ground (
        arith,
        P.find_first_law (is_rating_of_round round id) w.db.round_ratings,
        delete_round_rating-eq w r s,
      ),
      ground (
        arith,
        P.find_first_law (is_rating_of_round round id) w.db.round_ratings,
        delete_round_rating-eq w r s,
      ),
      ground (
        arith,
        P.find_first_law (is_rating_of_round round id) w.db.round_ratings,
        delete_round_rating-eq w r s,
      ),
    )
    | inr a ↦ (
      ground (
        arith,
        P.find_first_law (is_rating_of_round round id) w.db.round_ratings,
        delete_round_rating-eq w r s,
      ),
      ground (
        arith,
        P.find_first_law (is_rating_of_round round id) w.db.round_ratings,
        delete_round_rating-eq w r s,
      ),
      ground (
        arith,
        P.find_first_law (is_rating_of_round round id) w.db.round_ratings,
        delete_round_rating-eq w r s,
      ),
    )
  ]
