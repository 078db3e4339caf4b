-- ===== src/Submissions/Public/Reviews.antt =====
-- The page of a company's reviews: `findApprovedReviews` of api/src/companies/companies.service.ts.
use interview_insights.Prelude.{
  ℕ, ◌-◌, ◌*◌, ◌≤◌, ◌≡◌, refl, sym, ap, ◌∙◌, Bool, true, false, ◌&&◌, Option, none, some, is_some,
  List, [], ◌∷◌, ◌++◌, map, first, keep, count_where, drop, contains, All, count-keep,
  count-drop-le, count-take-le, count-drop_first-le, SameRows, IsDescending, arith, ◌==◌, ==-comm,
  ==-refl, eq_of_==, if◌then◌else◌, Option-cases, Bool-cases, inl, inr,
}
use mathlib.Core.List.{append-nil, append_assoc}
use interview_insights.Prisma.{Prisma}
use interview_insights.World.{World, ok}
use interview_insights.Submissions.Public.{
  is_approved_company, Joined, ReviewEntry, ReviewGroup, Page, entry_of_joined, find_group,
  push_entry, group_by_process, groups_in_order, distinct, is_public_of, is_public_among,
  joined_ratings, processes_of_page, reviews_of_page, max_of, find_one, find_approved_reviews,
}

-- The rating is one of the process.
abbrev pub is_in : ℕ → Joined → Bool
is_in id j = j.round.process_id == id

abbrev entries_in : Option ReviewGroup → List ReviewEntry
entries_in none = []
entries_in (some g) = g.entries

entries-push :
    (id : ℕ) (j : Joined) (groups : List ReviewGroup)
    → entries_in (find_group id (push_entry j groups))
      ≡ entries_in (find_group id groups) ++ (if is_in id j then entry_of_joined j ∷ [] else [])
unfolding find_group push_entry
entries-push id j [] = ground arith
entries-push id j (g ∷ rest) = elim (Bool-cases (g.process_id == j.round.process_id)) [
  | inl e ↦
      rw e (ground (arith, append-nil g.entries, append-nil (entries_in (find_group id rest))))
  | inr n ↦ rw n (ground (arith, append-nil g.entries, entries-push id j rest))
]

entries-group :
    (id : ℕ) (groups : List ReviewGroup) (js : List Joined)
    → entries_in (find_group id (group_by_process groups js))
      ≡ entries_in (find_group id groups) ++ map entry_of_joined (keep (is_in id) js)
unfolding group_by_process keep
entries-group id groups [] = sym (append-nil (entries_in (find_group id groups)))
entries-group id groups (j ∷ js) =
    entries-group id (push_entry j groups) js
    ∙ ap (λ l. l ++ map entry_of_joined (keep (is_in id) js)) (entries-push id j groups)
    ∙ append_assoc (entries_in (find_group id groups)) _ _
    ∙ ap (λ l. entries_in (find_group id groups) ++ l) (kept (is_in id j))
  where
    kept :
        (b : Bool)
        → (if b then entry_of_joined j ∷ [] else []) ++ map entry_of_joined (keep (is_in id) js)
          ≡ map entry_of_joined (if b then j ∷ keep (is_in id) js else keep (is_in id) js)
    kept true = refl
    kept false = refl

find_group_sound :
    (id : ℕ) (groups : List ReviewGroup) (g : ReviewGroup)
    → find_group id groups ≡ some g
    → g.process_id ≡ id
unfolding find_group
find_group_sound id [] g h = absurd (ground arith)
find_group_sound id (x ∷ rest) g h = elim (Bool-cases (x.process_id == id)) [
  | inl e ↦ ground (arith, eq_of_== x.process_id id e)
  | inr n ↦ find_group_sound id rest g (ground arith)
]

kept_some :
    (p : Joined → Bool) (rows : List Joined)
    → map entry_of_joined (keep p rows) ≡ []
    → count_where p rows ≡ 0
unfolding keep count_where
kept_some p [] h = refl
kept_some p (j ∷ js) h = elim (Bool-cases (p j)) [
  | inl e ↦ absurd (ground arith)
  | inr n ↦ ground (arith, kept_some p js)
]

-- The group has the entries of all the process's ratings among these.
abbrev pub IsWhole : List Joined → ReviewGroup → Type 0
IsWhole rows g = g.entries ≡ map entry_of_joined (keep (is_in g.process_id) rows)

groups-IsWhole :
    (ids : List ℕ) (rows : List Joined)
    → All (λ id. 1 ≤ count_where (is_in id) rows) ids
    → let items = groups_in_order ids (group_by_process [] rows) in
      (map (λ g. g.process_id) items ≡ ids) × All (IsWhole rows) items
unfolding groups_in_order
groups-IsWhole [] rows a = (refl, tt)
groups-IsWhole (id ∷ rest) rows a =
    let all = entries-group id [] rows in
    let more = groups-IsWhole rest rows a.1 in
    elim (Option-cases (find_group id (group_by_process [] rows))) [
      | inl n ↦ absurd (omega (arith, a.0, kept_some (is_in id) rows (sym all ∙ ap entries_in n)))
      | inr (g, s) ↦
          let i = find_group_sound id (group_by_process [] rows) g s in
          rw s (
            ap (λ l. g.process_id ∷ l) more.0 ∙ ap (λ k. k ∷ rest) i,
            (
              ap entries_in (sym s)
                  ∙ all
                  ∙ ap (λ k. map entry_of_joined (keep (is_in k) rows)) (sym i),
              more.1,
            ),
          )
    ]

-- An id of a list is counted in it.
count-contains :
    (id : ℕ) (ids : List ℕ) → contains id ids ≡ true → 1 ≤ count_where (λ x. x == id) ids
unfolding contains count_where
count-contains id [] h = absurd (ground arith)
count-contains id (x ∷ xs) h = ground (arith, ==-comm id x, count-contains id xs)

All-contains :
    (Q : ℕ → Type 0) (ids : List ℕ) → ((id : ℕ) → contains id ids ≡ true → Q id) → All Q ids
unfolding contains
All-contains Q [] h = tt
All-contains Q (x ∷ xs) h =
    (h x (ground (arith, ==-refl x)), All-contains Q xs (λ id k. h id (ground arith)))

count-distinct-le : (p : ℕ → Bool) (ids : List ℕ) → count_where p (distinct ids) ≤ count_where p ids
unfolding distinct count_where
count-distinct-le p [] = omega arith
count-distinct-le p (x ∷ xs) =
    omega (arith, count-distinct-le p xs, count-drop-le p (λ y. y == x) (distinct xs))

pub count-map :
    {A B : Type 0} (p : B → Bool) (f : A → B) (rows : List A)
    → count_where p (map f rows) ≡ count_where (λ x. p (f x)) rows
unfolding count_where
count-map p f [] = refl
count-map p f (x ∷ xs) = omega (arith, count-map p f xs)

pub count-le :
    {A : Type 0} (p q : A → Bool) (rows : List A)
    → ((x : A) → p x ≡ true → q x ≡ true)
    → count_where p rows ≤ count_where q rows
unfolding count_where
count-le p q [] h = omega arith
count-le p q (x ∷ xs) h = ground (arith, h x, count-le p q xs h)

module _ ⦃P : Prisma⦄ (company page size : ℕ) (joined : List Joined) where
  abbrev ids : List ℕ
  ids = processes_of_page company page size joined

  -- A process of the page has an approved rating that is the company's.
  public_rating :
      (id : ℕ)
      → contains id ids ≡ true
      → 1 ≤ count_where (λ j. is_public_of company j && is_in id j) joined
  unfolding processes_of_page
  public_rating id h =
      let known = map (λ j. j.round.process_id) (keep (is_public_of company) joined) in
      let key = λ (x : ℕ). max_of (
        map (λ j. j.rating.created_at)
          (keep (λ j. is_public_of company j && j.round.process_id == x) joined)) in
      let order = P.find_ordered ((page - 1) * size) (λ x. true) key (distinct known) in
      let same = λ (x : ℕ). x == id in
      omega (
        arith,
        count-contains id ids h,
        count-take-le same size (drop ((page - 1) * size) order),
        count-drop_first-le same ((page - 1) * size) order,
        P.find_ordered_rows ((page - 1) * size) (λ x. true) key (distinct known) same,
        count-keep (λ x. true) same (distinct known),
        count-distinct-le same known,
        count-map same (λ j. j.round.process_id) (keep (is_public_of company) joined),
        count-keep (is_public_of company) (is_in id) joined,
      )

  -- So the second query finds one.
  rating_found :
      (id : ℕ)
      → contains id ids ≡ true
      → 1
        ≤ count_where
            (is_in id)
            (P.find_ordered 0 (is_public_among ids) (λ j. j.rating.created_at) joined)
  rating_found id h = omega (
    arith,
    public_rating id h,
    count-le (λ j. is_public_of company j && is_in id j) (λ j. is_public_among ids j && is_in id j)
        joined
        (λ j k.
          let e : is_in id j ≡ true = ground arith in
          ground (arith, ap (λ x. contains x ids) (eq_of_== j.round.process_id id e) ∙ h)),
    count-keep (is_public_among ids) (is_in id) joined,
    P.find_ordered_rows 0 (is_public_among ids) (λ j. j.rating.created_at) joined (is_in id),
  )

module _ ⦃P : Prisma⦄ where
  -- The page of the reviews of an approved company shows whole submissions. Each process that the
  -- first query names has an approved rating and is one of the company's; the page has one group for
  -- each of them, in the order of that query; and a group has the entries of all the process's
  -- ratings among the rows of the second query, which are the approved ratings of these processes,
  -- the newest first.
  pub find_approved_reviews_outcome :
      (company page size : ℕ) (w : World)
      → is_some (first (λ c. c.id == company && is_approved_company c) w.db.companies) ≡ true
      → let joined = joined_ratings w.db w.db.round_ratings in
        let ids = processes_of_page company page size joined in
        (out : Page ReviewGroup) × (rows : List Joined) × (find_approved_reviews company page size w
          ≡ (ok out, w))
        × All (λ id. 1 ≤ count_where (λ j. is_public_of company j && is_in id j) joined) ids
        × (map (λ g. g.process_id) out.items ≡ ids)
        × SameRows (keep (is_public_among ids) joined) rows
        × IsDescending (λ j. j.rating.created_at) rows
        × All (IsWhole rows) out.items
  unfolding find_approved_reviews reviews_of_page find_one
  find_approved_reviews_outcome company page size w h =
      let joined = joined_ratings w.db w.db.round_ratings in
      let ids = processes_of_page company page size joined in
      let rows = P.find_ordered 0 (is_public_among ids) (λ j. j.rating.created_at) joined in
      let whole =
        groups-IsWhole ids rows (All-contains _ ids (rating_found company page size joined)) in
      (
        reviews_of_page company page size joined,
        rows,
        ground (
          arith,
          P.find_first_law (λ c. c.id == company && is_approved_company c) w.db.companies,
        ),
        All-contains _ ids (public_rating company page size joined),
        whole.0,
        P.find_ordered_rows 0 (is_public_among ids) (λ j. j.rating.created_at) joined,
        P.find_ordered_law 0 (is_public_among ids) (λ j. j.rating.created_at) joined,
        whole.1,
      )
