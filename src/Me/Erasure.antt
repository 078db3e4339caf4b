-- ===== src/Me/Erasure.antt =====
-- What an erasure does to the tables and answers.
use interview_insights.Prelude.{
  ℕ, ◌≡◌, true, List, map, contains, keep, drop_where, change, arith, ◌==◌,
}
use interview_insights.Prisma.{Prisma}
use interview_insights.Schema.{
  round_rating, recruiter_rating, overall_review, RoundRating, RecruiterRating, OverallReview, Db,
  Round, RecruiterInteraction,
}
use interview_insights.World.{World, Action, ok, raised, foreign_key_violation}
use interview_insights.World.Quiet.{with_calls}
use interview_insights.Throttles.{is_of}
use interview_insights.Candidates.{has_account_id}
use interview_insights.Submissions.Companies.{is_requester}
use interview_insights.Me.{
  is_rating_of_candidate, is_recruiter_rating_of_candidate, is_review_of_candidate,
  is_process_of_candidate, is_entry_among, is_rating_of_rounds, is_rating_of_interactions,
  is_review_of_processes, without_requester, erase_entries, erase_content, erase_me,
}
use interview_insights.Me.Erased.{is_kept, is_kept_by_others}

module _ ⦃P : Prisma⦄ (c : ℕ) where
  abbrev Settles : Action Unit → World → Type 0
  Settles m v = m v ≡ (ok tt, with_calls v (m v).1.calls)

  abbrev without_entries : List ℕ → List ℕ → List ℕ → Db → Db
  without_entries rs cs os db = record db {
    queue = drop_where (is_entry_among overall_review os) (
        drop_where (is_entry_among recruiter_rating cs)
          (drop_where (is_entry_among round_rating rs) db.queue));
  }

  erase_entries-eq :
      (rs cs os : List ℕ) (w : World)
      → erase_entries c rs cs os w ≡ (ok tt, record w { db = without_entries rs cs os w.db })
  unfolding erase_entries
  erase_entries-eq rs cs os w = ground (
    arith,
    P.delete_many_law (is_entry_among round_rating rs) w.db.queue,
    P.delete_many_law (is_entry_among recruiter_rating cs)
        (drop_where (is_entry_among round_rating rs) w.db.queue),
    P.delete_many_law (is_entry_among overall_review os) (
        drop_where (is_entry_among recruiter_rating cs)
          (drop_where (is_entry_among round_rating rs) w.db.queue)),
  )

  abbrev rounds_of : List ℕ → Db → List ℕ
  rounds_of ps db = map (λ r. r.id) (keep (λ r. contains r.process_id ps) db.rounds)

  abbrev interactions_of : List ℕ → Db → List ℕ
  interactions_of ps db =
      map (λ r. r.id) (keep (λ r. contains r.process_id ps) db.recruiter_interactions)

  abbrev others_ratings : Db → List RoundRating
  others_ratings db = drop_where (is_rating_of_candidate c) db.round_ratings

  abbrev others_recruiter_ratings : Db → List RecruiterRating
  others_recruiter_ratings db = drop_where (is_recruiter_rating_of_candidate c) db.recruiter_ratings

  abbrev others_reviews : Db → List OverallReview
  others_reviews db = drop_where (is_review_of_candidate c) db.overall_reviews

  abbrev without_content : List ℕ → Db → Db
  without_content ps db = record db {
    round_ratings = drop_where (is_rating_of_candidate c) db.round_ratings;
    recruiter_ratings = drop_where (is_recruiter_rating_of_candidate c) db.recruiter_ratings;
    overall_reviews = drop_where (is_review_of_candidate c) db.overall_reviews;
    rounds = drop_where (λ r. contains r.process_id ps) db.rounds;
    recruiter_interactions = drop_where (λ r. contains r.process_id ps) db.recruiter_interactions;
    processes = drop_where (is_process_of_candidate c) db.processes;
    verification_tokens = drop_where (λ t. t.candidate_id == c) db.verification_tokens;
    reset_tokens = drop_where (λ t. t.candidate_id == c) db.reset_tokens;
    edit_throttle = drop_where (is_of c) db.edit_throttle;
  }

  erase_content_kept :
      (ps : List ℕ) (w : World)
      → is_kept c ps w.db ≡ true
      → erase_content c ps w ≡ (raised foreign_key_violation, w)
  unfolding erase_content
  erase_content_kept ps w y =
      rw
        (
          P.delete_many_law (is_rating_of_candidate c) w.db.round_ratings,
          P.delete_many_law (is_recruiter_rating_of_candidate c) w.db.recruiter_ratings,
          P.delete_many_law (is_review_of_candidate c) w.db.overall_reviews,
          P.find_many_law (λ (r : Round). contains r.process_id ps) w.db.rounds,
          P.find_many_law (λ (r : RecruiterInteraction). contains r.process_id ps)
              w.db.recruiter_interactions,
          P.count_law (is_rating_of_rounds (rounds_of ps w.db)) (others_ratings w.db),
          P.count_law (is_rating_of_interactions (interactions_of ps w.db))
              (others_recruiter_ratings w.db),
          P.count_law (is_review_of_processes ps) (others_reviews w.db),
        )
        (ground (arith, y))

  abbrev without_account : Db → Db
  without_account db = record db {
    candidates = drop_where (has_account_id c) db.candidates;
    companies = change (λ x. is_requester c x.candidate_id) without_requester db.companies;
  }

  abbrev process_ids : Db → List ℕ
  process_ids db = map (λ p. p.id) (keep (is_process_of_candidate c) db.processes)

  -- The world once the candidate's entries have left the queue.
  abbrev emptied : World → World
  emptied w =
      let db = w.db in
      record w {
        db =
            without_entries (map (λ r. r.id) (keep (is_rating_of_candidate c) db.round_ratings))
              (map (λ r. r.id) (keep (is_recruiter_rating_of_candidate c) db.recruiter_ratings))
              (map (λ r. r.id) (keep (is_review_of_candidate c) db.overall_reviews)) db;
      }

  -- Where a rating or review of anybody else is of one of the candidate's rounds, interactions or
  -- processes, the database refuses the erasure, and no table changes.
  pub erase_me_refused :
      (w : World)
      → is_kept_by_others c w.db ≡ true
      → let out = erase_me c w in (out.0 ≡ raised foreign_key_violation) × (out.1.db ≡ w.db)
  unfolding erase_me
  erase_me_refused w y =
      let db = w.db in
      let rs = map (λ r. r.id) (keep (is_rating_of_candidate c) db.round_ratings) in
      let cs = map (λ r. r.id) (keep (is_recruiter_rating_of_candidate c) db.recruiter_ratings) in
      let os = map (λ r. r.id) (keep (is_review_of_candidate c) db.overall_reviews) in
      let ps = map (λ p. p.id) (keep (is_process_of_candidate c) db.processes) in
      let v : World = record w { db = without_entries rs cs os db } in
      ground (
        arith,
        P.find_many_law (is_rating_of_candidate c) db.round_ratings,
        P.find_many_law (is_recruiter_rating_of_candidate c) db.recruiter_ratings,
        P.find_many_law (is_review_of_candidate c) db.overall_reviews,
        P.find_many_law (is_process_of_candidate c) db.processes,
        erase_entries-eq rs cs os w,
        erase_content_kept ps v y,
      )
