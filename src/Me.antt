-- ===== src/Me.antt =====
-- api/src/me/me.service.ts: the erasure of an account.
pub mod Erased
pub mod Erasure
use interview_insights.Prelude.{
  ℕ, Bool, not, ◌&&◌, Option, none, some, List, [], ◌∷◌, map, contains, ◌==◌, if◌then◌else◌,
}
use interview_insights.Prisma.{Prisma}
use interview_insights.Schema.{
  EntityType, round_rating, recruiter_rating, overall_review, same_type, approved, same_status,
  QueueEntry, RoundRating, RecruiterRating, OverallReview, Company, Round, RecruiterInteraction,
  InterviewProcess, Db,
}
use interview_insights.World.{
  World, Action, record_not_found, foreign_key_violation, pure, raise_if, or_raise, gets, put_db,
  when, transaction, ◌>>=◌, ◌>>◌,
}
use interview_insights.Throttles.{is_of}
use interview_insights.Candidates.{has_account_id}
use interview_insights.Submissions.Companies.{is_requester}
use interview_insights.Submissions.RoundRatings.{remove_review_from_index}

-- where: { candidateId }
abbrev pub is_rating_of_candidate : ℕ → RoundRating → Bool
is_rating_of_candidate c r = r.candidate_id == c

abbrev pub is_recruiter_rating_of_candidate : ℕ → RecruiterRating → Bool
is_recruiter_rating_of_candidate c r = r.candidate_id == c

abbrev pub is_review_of_candidate : ℕ → OverallReview → Bool
is_review_of_candidate c r = r.candidate_id == c

abbrev pub is_process_of_candidate : ℕ → InterviewProcess → Bool
is_process_of_candidate c p = p.candidate_id == c

-- where: { entityType, entityId: { in: ids } }
abbrev pub is_entry_among : EntityType → List ℕ → QueueEntry → Bool
is_entry_among t ids e = same_type e.entity_type t && contains e.entity_id ids

-- The rows that keep a round, an interaction or a process from being deleted: ON DELETE RESTRICT.
abbrev pub is_rating_of_rounds : List ℕ → RoundRating → Bool
is_rating_of_rounds rounds r = contains r.round_id rounds

abbrev pub is_rating_of_interactions : List ℕ → RecruiterRating → Bool
is_rating_of_interactions interactions r = contains r.recruiter_interaction_id interactions

abbrev pub is_review_of_processes : List ℕ → OverallReview → Bool
is_review_of_processes processes r = contains r.process_id processes

-- onDelete: SetNull
abbrev pub without_requester : Company → Company
without_requester c = record c { candidate_id = none }

module _ ⦃P : Prisma⦄ (c : ℕ) where
  unfoldable pub erase_entries : List ℕ → List ℕ → List ℕ → Action Unit
  erase_entries ratings recruiter_ratings reviews = do
    db ← gets (λ w. w.db)
    put_db (record db {
      queue = P.delete_many (is_entry_among overall_review reviews) (
          P.delete_many (is_entry_among recruiter_rating recruiter_ratings)
            (P.delete_many (is_entry_among round_rating ratings) db.queue));
    })

  unfoldable pub erase_content : List ℕ → Action Unit
  erase_content processes = do
    db ← gets (λ w. w.db)
    let ratings = P.delete_many (is_rating_of_candidate c) db.round_ratings
    let recruiter_ratings = P.delete_many (is_recruiter_rating_of_candidate c) db.recruiter_ratings
    let reviews = P.delete_many (is_review_of_candidate c) db.overall_reviews
    let rounds =
        map (λ (r : Round). r.id) (P.find_many (λ r. contains r.process_id processes) db.rounds)
    raise_if (not (P.count (is_rating_of_rounds rounds) ratings == 0)) foreign_key_violation
    let interactions =
        map (λ (r : RecruiterInteraction). r.id)
          (P.find_many (λ r. contains r.process_id processes) db.recruiter_interactions)
    raise_if (not (P.count (is_rating_of_interactions interactions) recruiter_ratings == 0))
        foreign_key_violation
    raise_if (not (P.count (is_review_of_processes processes) reviews == 0)) foreign_key_violation
    put_db (record db {
      round_ratings = ratings;
      recruiter_ratings = recruiter_ratings;
      overall_reviews = reviews;
      rounds = P.delete_many (λ r. contains r.process_id processes) db.rounds;
      recruiter_interactions =
          P.delete_many (λ r. contains r.process_id processes) db.recruiter_interactions;
      processes = P.delete_many (is_process_of_candidate c) db.processes;
      verification_tokens = P.delete_many (λ t. t.candidate_id == c) db.verification_tokens;
      reset_tokens = P.delete_many (λ t. t.candidate_id == c) db.reset_tokens;
      edit_throttle = P.delete_many (is_of c) db.edit_throttle;
    })

  -- The companies that the candidate has requested stay, without a requester.
  unfoldable pub erase_account : Action Unit
  erase_account = do
    db ← gets (λ w. w.db)
    rows ← or_raise (P.delete (has_account_id c) db.candidates) record_not_found
    let companies =
        (P.update_many (λ x. is_requester c x.candidate_id) without_requester db.companies).1
    put_db (record db { candidates = rows; companies = companies })

  unfoldable pub remove_approved : List RoundRating → Action Unit
  unfolding remove_review_from_index
  remove_approved [] = pure tt
  remove_approved (r ∷ rest) = do
    when (same_status r.status approved) (remove_review_from_index r.id)
    remove_approved rest

  unfoldable pub erase_me : Action Unit
  unfolding erase_entries erase_content erase_account remove_approved
  erase_me = do
    ratings ← gets (λ w. P.find_many (is_rating_of_candidate c) w.db.round_ratings)
    recruiter_ratings ←
        gets (λ w. P.find_many (is_recruiter_rating_of_candidate c) w.db.recruiter_ratings)
    reviews ← gets (λ w. P.find_many (is_review_of_candidate c) w.db.overall_reviews)
    processes ← gets (λ w. P.find_many (is_process_of_candidate c) w.db.processes)
    transaction do
      erase_entries (map (λ r. r.id) ratings) (map (λ r. r.id) recruiter_ratings)
          (map (λ r. r.id) reviews)
      erase_content (map (λ p. p.id) processes)
      erase_account
    remove_approved ratings
