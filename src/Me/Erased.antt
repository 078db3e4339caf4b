-- ===== src/Me/Erased.antt =====
-- The tables after an erasure (api/src/me/me.service.ts), and the rows that keep the database from it.
use interview_insights.Prelude.{
  ℕ, ◌≡◌, refl, Bool, true, false, not, ◌||◌, List, [], ◌∷◌, map, contains, keep, drop_where,
  change, count_where, count-drop-within, arith, ◌==◌, eq_of_==,
}
use interview_insights.Schema.{
  round_rating, recruiter_rating, overall_review, Company, Db, CandidateToken,
}
use interview_insights.Throttles.{is_of}
use interview_insights.Candidates.{has_account_id}
use interview_insights.Submissions.Companies.{is_requester}
use interview_insights.Me.{
  is_rating_of_candidate, is_recruiter_rating_of_candidate, is_review_of_candidate,
  is_process_of_candidate, is_entry_among, is_rating_of_rounds, is_rating_of_interactions,
  is_review_of_processes, without_requester,
}

-- Rows that pass one test and fail the other stay.
keep-drop :
    {A : Type 0} (q p : A → Bool) (rows : List A)
    → ((x : A) → q x ≡ true → p x ≡ false)
    → keep q (drop_where p rows) ≡ keep q rows
unfolding keep drop_where
keep-drop q p [] h = refl
keep-drop q p (x ∷ xs) h = ground (arith, h x, keep-drop q p xs h)

-- The ids of a candidate's submissions.
module _ (c : ℕ) (db : Db) where
  abbrev pub rating_ids : List ℕ
  rating_ids = map (λ r. r.id) (keep (is_rating_of_candidate c) db.round_ratings)

  abbrev pub recruiter_rating_ids : List ℕ
  recruiter_rating_ids =
      map (λ r. r.id) (keep (is_recruiter_rating_of_candidate c) db.recruiter_ratings)

  abbrev pub review_ids : List ℕ
  review_ids = map (λ r. r.id) (keep (is_review_of_candidate c) db.overall_reviews)

-- Nothing of a candidate is left: no submission, no queue entry about one, no process, no token, no
-- account, and no company that names the candidate.
abbrev pub IsCleared : ℕ → Db → Db → Type 0
IsCleared c before db =
    (count_where (is_rating_of_candidate c) db.round_ratings ≡ 0)
    × (count_where (is_recruiter_rating_of_candidate c) db.recruiter_ratings ≡ 0)
    × (count_where (is_review_of_candidate c) db.overall_reviews ≡ 0)
    × (count_where (is_entry_among round_rating (rating_ids c before)) db.queue ≡ 0)
    × (count_where (is_entry_among recruiter_rating (recruiter_rating_ids c before)) db.queue ≡ 0)
    × (count_where (is_entry_among overall_review (review_ids c before)) db.queue ≡ 0)
    × (count_where (is_process_of_candidate c) db.processes ≡ 0)
    × (count_where (λ t. t.candidate_id == c) db.verification_tokens ≡ 0)
    × (count_where (λ t. t.candidate_id == c) db.reset_tokens ≡ 0)
    × (count_where (is_of c) db.edit_throttle ≡ 0)
    × (count_where (has_account_id c) db.candidates ≡ 0)
    × (count_where (λ x. is_requester c x.candidate_id) db.companies ≡ 0)

-- Does a row of somebody else keep one of the processes, of its rounds or of its interactions? It is a
-- rating of such a round or interaction, or a review of such a process.
abbrev pub is_kept : ℕ → List ℕ → Db → Bool
is_kept c processes db =
    not (
      count_where
        (is_rating_of_rounds
          (map (λ r. r.id) (keep (λ r. contains r.process_id processes) db.rounds)))
        (drop_where (is_rating_of_candidate c) db.round_ratings)
      == 0)
    || not (
        count_where
          (is_rating_of_interactions (
            map (λ r. r.id)
              (keep (λ r. contains r.process_id processes) db.recruiter_interactions)))
          (drop_where (is_recruiter_rating_of_candidate c) db.recruiter_ratings)
        == 0)
    || not (
        count_where (is_review_of_processes processes)
          (drop_where (is_review_of_candidate c) db.overall_reviews)
        == 0)

-- Does somebody else's row refer to what an erasure deletes?
abbrev pub is_kept_by_others : ℕ → Db → Bool
is_kept_by_others c db =
    is_kept c (map (λ p. p.id) (keep (is_process_of_candidate c) db.processes)) db

-- What is another candidate's is as before.
abbrev pub IsSpared : ℕ → Db → Db → Type 0
IsSpared d before db =
    (keep (is_rating_of_candidate d) db.round_ratings
      ≡ keep (is_rating_of_candidate d) before.round_ratings)
    × (keep (is_recruiter_rating_of_candidate d) db.recruiter_ratings
        ≡ keep (is_recruiter_rating_of_candidate d) before.recruiter_ratings)
    × (keep (is_review_of_candidate d) db.overall_reviews
        ≡ keep (is_review_of_candidate d) before.overall_reviews)
    × (keep (is_process_of_candidate d) db.processes
        ≡ keep (is_process_of_candidate d) before.processes)
    × (keep (has_account_id d) db.candidates ≡ keep (has_account_id d) before.candidates)

count-change_gone :
    {A : Type 0} (p : A → Bool) (f : A → A) (rows : List A)
    → ((x : A) → p (f x) ≡ false)
    → count_where p (change p f rows) ≡ 0
unfolding count_where change
count-change_gone p f [] h = refl
count-change_gone p f (x ∷ xs) h = ground (arith, h x, count-change_gone p f xs h)

-- Rows that are dropped stay dropped where more are.
count-drop_zero :
    {A : Type 0} (p q : A → Bool) (rows : List A)
    → count_where p rows ≡ 0
    → count_where p (drop_where q rows) ≡ 0
unfolding count_where drop_where
count-drop_zero p q [] h = refl
count-drop_zero p q (x ∷ xs) h = ground (arith, count-drop_zero p q xs)

module _ (c : ℕ) where
  -- The tables after an erasure.
  abbrev pub erased : Db → Db
  erased db = record db {
    queue =
        drop_where
          (is_entry_among overall_review
            (map (λ r. r.id) (keep (is_review_of_candidate c) db.overall_reviews)))
          (drop_where
            (is_entry_among recruiter_rating
              (map (λ r. r.id) (keep (is_recruiter_rating_of_candidate c) db.recruiter_ratings)))
            (drop_where
              (is_entry_among round_rating
                (map (λ r. r.id) (keep (is_rating_of_candidate c) db.round_ratings)))
              db.queue));
    round_ratings = drop_where (is_rating_of_candidate c) db.round_ratings;
    recruiter_ratings = drop_where (is_recruiter_rating_of_candidate c) db.recruiter_ratings;
    overall_reviews = drop_where (is_review_of_candidate c) db.overall_reviews;
    rounds =
        drop_where
          (λ r.
            contains r.process_id (map (λ p. p.id) (keep (is_process_of_candidate c) db.processes)))
          db.rounds;
    recruiter_interactions =
        drop_where
          (λ r.
            contains r.process_id (map (λ p. p.id) (keep (is_process_of_candidate c) db.processes)))
          db.recruiter_interactions;
    processes = drop_where (is_process_of_candidate c) db.processes;
    verification_tokens = drop_where (λ t. t.candidate_id == c) db.verification_tokens;
    reset_tokens = drop_where (λ t. t.candidate_id == c) db.reset_tokens;
    edit_throttle = drop_where (is_of c) db.edit_throttle;
    candidates = drop_where (has_account_id c) db.candidates;
    companies = change (λ x. is_requester c x.candidate_id) without_requester db.companies;
  }

  pub erased-IsCleared : (db : Db) → IsCleared c db (erased db)
  erased-IsCleared db =
      let ratings = is_entry_among round_rating (rating_ids c db) in
      let recruiters = is_entry_among recruiter_rating (recruiter_rating_ids c db) in
      let reviews = is_entry_among overall_review (review_ids c db) in
      let left = drop_where ratings db.queue in
      (
        gone (is_rating_of_candidate c) db.round_ratings,
        gone (is_recruiter_rating_of_candidate c) db.recruiter_ratings,
        gone (is_review_of_candidate c) db.overall_reviews,
        count-drop_zero ratings reviews (drop_where recruiters left)
            (count-drop_zero ratings recruiters left (gone ratings db.queue)),
        count-drop_zero recruiters reviews (drop_where recruiters left) (gone recruiters left),
        gone reviews (drop_where recruiters left),
        gone (is_process_of_candidate c) db.processes,
        gone (λ (t : CandidateToken). t.candidate_id == c) db.verification_tokens,
        gone (λ (t : CandidateToken). t.candidate_id == c) db.reset_tokens,
        gone (is_of c) db.edit_throttle,
        gone (has_account_id c) db.candidates,
        count-change_gone (λ (x : Company). is_requester c x.candidate_id) without_requester
            db.companies (λ x. refl),
      )
    where
      gone : {A : Type 0} (p : A → Bool) (rows : List A) → count_where p (drop_where p rows) ≡ 0
      gone p rows = count-drop-within p p rows (λ x h. h)

  pub erased-IsSpared : (db : Db) (d : ℕ) → (d == c) ≡ false → IsSpared d db (erased db)
  erased-IsSpared db d n = (
    keep-drop (is_rating_of_candidate d) (is_rating_of_candidate c) db.round_ratings
        (λ x h. apart x.candidate_id h),
    keep-drop (is_recruiter_rating_of_candidate d) (is_recruiter_rating_of_candidate c)
        db.recruiter_ratings (λ x h. apart x.candidate_id h),
    keep-drop (is_review_of_candidate d) (is_review_of_candidate c) db.overall_reviews
        (λ x h. apart x.candidate_id h),
    keep-drop (is_process_of_candidate d) (is_process_of_candidate c) db.processes
        (λ x h. apart x.candidate_id h),
    keep-drop (has_account_id d) (has_account_id c) db.candidates (λ x h. apart x.id h),
  )
    where
      apart : (a : ℕ) → (a == d) ≡ true → (a == c) ≡ false
      apart a h = rw (eq_of_== a d h) n
