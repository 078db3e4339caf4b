-- ===== src/Gate/Reviewed.antt =====
-- The page of a company's reviews (`findApprovedReviews` of api/src/companies/companies.service.ts) and
-- the gate.
use interview_insights.Prelude.{
  ℕ, ◌≤◌, ◌≡◌, refl, ap, ◌∙◌, inl, inr, Bool, true, ◌&&◌, not, is_some, List, [], ◌∷◌, map, keep,
  first, count_where, count-keep, SameRows, IsDescending, All, arith, ◌==◌, Bool-cases,
  Option-cases,
}
use interview_insights.Prisma.{Prisma}
use interview_insights.Schema.{approved, same_status, RoundRating, Round, InterviewProcess, Db}
use interview_insights.World.{World, ok}
use interview_insights.Submissions.Public.{
  is_approved_company, is_public_among, Joined, joined_ratings, entry_of_joined, ReviewGroup, Page,
  is_public_of, processes_of_page, find_one, find_approved_reviews,
}
use interview_insights.Submissions.Public.Approved.{holds_of}
use interview_insights.Submissions.Public.Reviews.{
  is_in, IsWhole, count-map, count-le, find_approved_reviews_outcome,
}

-- A page without an entry whose rating passes the test.
abbrev pub is_free_page : (ℕ → Bool) → Page ReviewGroup → Bool
is_free_page p page =
    count_where (λ g. not (count_where (λ e. p e.id) g.entries == 0)) page.items == 0

count-keep-zero :
    {A : Type 0} (p q : A → Bool) (rows : List A)
    → count_where p rows ≡ 0
    → count_where p (keep q rows) ≡ 0
unfolding count_where keep
count-keep-zero p q [] h = refl
count-keep-zero p q (x ∷ xs) h = ground (arith, count-keep-zero p q xs)

-- The groups of whole submissions have no such entry, where the rows have none.
groups_free :
    (p : ℕ → Bool) (rows : List Joined) (groups : List ReviewGroup)
    → count_where (λ j. p j.rating.id) rows ≡ 0
    → All (IsWhole rows) groups
    → count_where (λ g. not (count_where (λ e. p e.id) g.entries == 0)) groups ≡ 0
unfolding count_where
groups_free p rows [] h a = refl
groups_free p rows (g ∷ rest) h a = ground (
  arith,
  ap (count_where (λ e. p e.id)) a.0,
  count-map (λ e. p e.id) entry_of_joined (keep (is_in g.process_id) rows),
  count-keep-zero (λ (j : Joined). p j.rating.id) (is_in g.process_id) rows h,
  groups_free p rows rest h a.1,
)

module _ ⦃P : Prisma⦄ where
  joined-le :
      (q : RoundRating → Bool) (db : Db) (rows : List RoundRating)
      → count_where (λ j. q j.rating) (joined_ratings db rows) ≤ count_where q rows
  unfolding joined_ratings count_where
  joined-le q db [] = omega arith
  joined-le q db (r ∷ rest) =
      elim (Option-cases (P.find_first (λ (x : Round). x.id == r.round_id) db.rounds)) [
        | inl n ↦ ground (arith, n, joined-le q db rest)
        | inr (x, s) ↦
            elim (Option-cases
              (P.find_first (λ (p : InterviewProcess). p.id == x.process_id) db.processes)) [
                | inl n ↦ ground (arith, s, n, joined-le q db rest)
                | inr (y, t) ↦ ground (arith, s, t, joined-le q db rest)
              ]
      ]

  -- Where no approved rating passes the test, the page has no entry of one.
  pub reviews_free :
      (p : ℕ → Bool) (company page size : ℕ) (w : World)
      → count_where (λ r. same_status r.status approved && p r.id) w.db.round_ratings ≡ 0
      → holds_of (is_free_page p) (find_approved_reviews company page size w).0 ≡ true
  unfolding find_approved_reviews find_one
  reviews_free p company page size w h =
      let found = first (λ c. c.id == company && is_approved_company c) w.db.companies in
      elim (Bool-cases (is_some found)) [
        | inr n ↦
            ground (
              arith,
              P.find_first_law (λ c. c.id == company && is_approved_company c) w.db.companies,
            )
        | inl y ↦ shown (find_approved_reviews_outcome company page size w y)
      ]
    where
      joined : List Joined
      joined = joined_ratings w.db w.db.round_ratings

      ids : List ℕ
      ids = processes_of_page company page size joined

      none_joined :
          (rows : List Joined)
          → SameRows (keep (is_public_among ids) joined) rows
          → count_where (λ j. p j.rating.id) rows ≡ 0
      none_joined rows same = omega (
        arith,
        same (λ j. p j.rating.id),
        count-keep (is_public_among ids) (λ j. p j.rating.id) joined,
        count-le (λ j. is_public_among ids j && p j.rating.id)
            (λ (j : Joined). same_status j.rating.status approved && p j.rating.id) joined
            (λ j k. ground arith),
        joined-le (λ r. same_status r.status approved && p r.id) w.db w.db.round_ratings,
        h,
      )

      shown :
          (out : Page ReviewGroup) × (rows : List Joined) × (find_approved_reviews company page size
                w
              ≡ (ok out, w))
            × All (λ id. 1 ≤ count_where (λ j. is_public_of company j && is_in id j) joined) ids
            × (map (λ g. g.process_id) out.items ≡ ids)
            × SameRows (keep (is_public_among ids) joined) rows
            × IsDescending (λ j. j.rating.created_at) rows
            × All (IsWhole rows) out.items
          → holds_of (is_free_page p) (find_approved_reviews company page size w).0 ≡ true
      shown (out, rows, e, a, i, same, d, whole) =
          ap (λ r. holds_of (is_free_page p) r.0) e
          ∙ ap (λ n. n == 0) (groups_free p rows out.items (none_joined rows same) whole)
