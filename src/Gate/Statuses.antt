-- ===== src/Gate/Statuses.antt =====
-- What a write to one table does to the statuses of the submissions.
use mathlib.Core.Option
use interview_insights.Prelude.{
  ℕ, true, ◌≡◌, refl, none, some, is_some, List, [], ◌∷◌, ◌++◌, first, change, drop_where,
  count_where, first-append, first-drop, first-change_key, first-none_of_count, arith, ◌==◌,
  ==-comm, if◌then◌else◌, Bool-cases, Option-cases, eq_of_==, inl, inr,
}
use interview_insights.Schema.{
  EntityType, round_rating, recruiter_rating, overall_review, company, Status, pending, QueueEntry,
  RoundRating, RecruiterRating, OverallReview, Company, Db,
}
use interview_insights.Moderation.Entities.{status_of, with_status}
use interview_insights.Gate.Steps.{Puts}

module _ {A : Type 0} (key : A → ℕ) (status : A → Status) (i : ℕ) where
  look-append :
      (rows : List A) (x : A)
      → count_where (λ y. key y == key x) rows ≡ 0
      → Option.map status (first (λ y. key y == i) (rows ++ x ∷ []))
        ≡ (if i == key x then some (status x) else Option.map status (first (λ y. key y == i) rows))
  look-append rows x n = elim (Bool-cases (i == key x)) [
    | inl e ↦
        let none_yet : first (λ y. key y == i) rows ≡ none =
          rw (eq_of_== i (key x) e) (first-none_of_count (λ y. key y == key x) rows n) in
        ground (arith, first-append (λ y. key y == i) rows x, none_yet, ==-comm i (key x))
    | inr e ↦ ground (arith, first-append (λ y. key y == i) rows x, ==-comm i (key x))
  ]

  look-change :
      (k : ℕ) (f : A → A) (s : Status) (rows : List A) (r : A)
      → first (λ y. key y == k) rows ≡ some r
      → ((x : A) → key (f x) ≡ key x)
      → ((x : A) → status (f x) ≡ s)
      → Option.map status (first (λ y. key y == i) (change (λ y. key y == k) f rows))
        ≡ (if i == k then some s else Option.map status (first (λ y. key y == i) rows))
  look-change k f s rows r e h st = elim (Bool-cases (i == k)) [
    | inl y ↦
        let found : first (λ y. key y == i) rows ≡ some r = rw (eq_of_== i k y) e in
        ground (arith, first-change_key key i k f rows h, found, st r)
    | inr n ↦ ground (arith, first-change_key key i k f rows h)
  ]

  look-drop :
      (k : ℕ) (rows : List A)
      → Option.map status (first (λ y. key y == i) (drop_where (λ y. key y == k) rows))
        ≡ (if i == k then none else Option.map status (first (λ y. key y == i) rows))
  look-drop k rows = ground (arith, first-drop key i k rows)

-- A new submission.
pub Puts-round_rating_added :
    (db : Db) (queue : List QueueEntry) (x : RoundRating)
    → count_where (λ r. r.id == x.id) db.round_ratings ≡ 0
    → x.status ≡ pending
    → Puts round_rating x.id
        (some pending)
        db
        (record db { queue = queue; round_ratings = db.round_ratings ++ x ∷ [] })
unfolding status_of
Puts-round_rating_added db queue x n p round_rating i =
    rw (← p) (look-append (λ (r : RoundRating). r.id) (λ r. r.status) i db.round_ratings x n)
Puts-round_rating_added db queue x n p _ i = refl

pub Puts-recruiter_rating_added :
    (db : Db) (queue : List QueueEntry) (x : RecruiterRating)
    → count_where (λ r. r.id == x.id) db.recruiter_ratings ≡ 0
    → x.status ≡ pending
    → Puts recruiter_rating x.id
        (some pending)
        db
        (record db { queue = queue; recruiter_ratings = db.recruiter_ratings ++ x ∷ [] })
unfolding status_of
Puts-recruiter_rating_added db queue x n p recruiter_rating i =
    rw (← p)
      (look-append (λ (r : RecruiterRating). r.id) (λ r. r.status) i db.recruiter_ratings x n)
Puts-recruiter_rating_added db queue x n p _ i = refl

pub Puts-overall_review_added :
    (db : Db) (queue : List QueueEntry) (x : OverallReview)
    → count_where (λ r. r.id == x.id) db.overall_reviews ≡ 0
    → x.status ≡ pending
    → Puts overall_review x.id
        (some pending)
        db
        (record db { queue = queue; overall_reviews = db.overall_reviews ++ x ∷ [] })
unfolding status_of
Puts-overall_review_added db queue x n p overall_review i =
    rw (← p) (look-append (λ (r : OverallReview). r.id) (λ r. r.status) i db.overall_reviews x n)
Puts-overall_review_added db queue x n p _ i = refl

pub Puts-company_added :
    (db : Db) (queue : List QueueEntry) (x : Company)
    → count_where (λ c. c.id == x.id) db.companies ≡ 0
    → x.status ≡ pending
    → Puts company x.id
        (some pending)
        db
        (record db { queue = queue; companies = db.companies ++ x ∷ [] })
unfolding status_of
Puts-company_added db queue x n p company i =
    rw (← p) (look-append (λ (c : Company). c.id) (λ c. c.status) i db.companies x n)
Puts-company_added db queue x n p _ i = refl

-- A submission that is changed to one status.
pub Puts-round_rating_changed :
    (db : Db) (queue : List QueueEntry) (k : ℕ) (f : RoundRating → RoundRating) (s : Status)
    (r : RoundRating)
    → first (λ x. x.id == k) db.round_ratings ≡ some r
    → ((x : RoundRating) → (f x).id ≡ x.id)
    → ((x : RoundRating) → (f x).status ≡ s)
    → Puts round_rating k
        (some s)
        db
        (record db { queue = queue; round_ratings = change (λ x. x.id == k) f db.round_ratings })
unfolding status_of
Puts-round_rating_changed db queue k f s r e h t round_rating i =
    look-change (λ (x : RoundRating). x.id) (λ x. x.status) i k f s db.round_ratings r e h t
Puts-round_rating_changed db queue k f s r e h t _ i = refl

pub Puts-recruiter_rating_changed :
    (db : Db) (queue : List QueueEntry) (k : ℕ) (f : RecruiterRating → RecruiterRating) (s : Status)
    (r : RecruiterRating)
    → first (λ x. x.id == k) db.recruiter_ratings ≡ some r
    → ((x : RecruiterRating) → (f x).id ≡ x.id)
    → ((x : RecruiterRating) → (f x).status ≡ s)
    → Puts recruiter_rating k (some s) db (record db {
      queue = queue;
      recruiter_ratings = change (λ x. x.id == k) f db.recruiter_ratings;
    })
unfolding status_of
Puts-recruiter_rating_changed db queue k f s r e h t recruiter_rating i =
    look-change (λ (x : RecruiterRating). x.id) (λ x. x.status) i k f s db.recruiter_ratings r e h t
Puts-recruiter_rating_changed db queue k f s r e h t _ i = refl

pub Puts-overall_review_changed :
    (db : Db) (queue : List QueueEntry) (k : ℕ) (f : OverallReview → OverallReview) (s : Status)
    (r : OverallReview)
    → first (λ x. x.id == k) db.overall_reviews ≡ some r
    → ((x : OverallReview) → (f x).id ≡ x.id)
    → ((x : OverallReview) → (f x).status ≡ s)
    → Puts overall_review k (some s) db (record db {
      queue = queue;
      overall_reviews = change (λ x. x.id == k) f db.overall_reviews;
    })
unfolding status_of
Puts-overall_review_changed db queue k f s r e h t overall_review i =
    look-change (λ (x : OverallReview). x.id) (λ x. x.status) i k f s db.overall_reviews r e h t
Puts-overall_review_changed db queue k f s r e h t _ i = refl

pub Puts-company_changed :
    (db : Db) (queue : List QueueEntry) (k : ℕ) (f : Company → Company) (s : Status) (r : Company)
    → first (λ x. x.id == k) db.companies ≡ some r
    → ((x : Company) → (f x).id ≡ x.id)
    → ((x : Company) → (f x).status ≡ s)
    → Puts company k
        (some s)
        db
        (record db { queue = queue; companies = change (λ x. x.id == k) f db.companies })
unfolding status_of
Puts-company_changed db queue k f s r e h t company i =
    look-change (λ (x : Company). x.id) (λ x. x.status) i k f s db.companies r e h t
Puts-company_changed db queue k f s r e h t _ i = refl

-- A submission that is removed.
pub Puts-round_rating_removed :
    (db : Db) (queue : List QueueEntry) (k : ℕ)
    → Puts round_rating k none db
        (record db { queue = queue; round_ratings = drop_where (λ x. x.id == k) db.round_ratings })
unfolding status_of
Puts-round_rating_removed db queue k round_rating i =
    look-drop (λ (x : RoundRating). x.id) (λ x. x.status) i k db.round_ratings
Puts-round_rating_removed db queue k _ i = refl

pub Puts-recruiter_rating_removed :
    (db : Db) (queue : List QueueEntry) (k : ℕ)
    → Puts recruiter_rating k none db (record db {
      queue = queue;
      recruiter_ratings = drop_where (λ x. x.id == k) db.recruiter_ratings;
    })
unfolding status_of
Puts-recruiter_rating_removed db queue k recruiter_rating i =
    look-drop (λ (x : RecruiterRating). x.id) (λ x. x.status) i k db.recruiter_ratings
Puts-recruiter_rating_removed db queue k _ i = refl

pub Puts-overall_review_removed :
    (db : Db) (queue : List QueueEntry) (k : ℕ)
    → Puts overall_review k none db (record db {
      queue = queue;
      overall_reviews = drop_where (λ x. x.id == k) db.overall_reviews;
    })
unfolding status_of
Puts-overall_review_removed db queue k overall_review i =
    look-drop (λ (x : OverallReview). x.id) (λ x. x.status) i k db.overall_reviews
Puts-overall_review_removed db queue k _ i = refl

-- A decision.
pub Puts-with_status :
    (t : EntityType) (id : ℕ) (s : Status) (db : Db)
    → is_some (status_of t id db) ≡ true
    → Puts t id (some s) db (with_status t id s db)
unfolding status_of with_status
Puts-with_status round_rating id s db h =
    elim (Option-cases (first (λ (r : RoundRating). r.id == id) db.round_ratings)) [
      | inl n ↦ absurd (ground arith)
      | inr (r, e) ↦
          Puts-round_rating_changed db db.queue id (λ r. record r { status = s }) s r e (λ x. refl)
            (λ x. refl)
    ]
Puts-with_status recruiter_rating id s db h =
    elim (Option-cases (first (λ (r : RecruiterRating). r.id == id) db.recruiter_ratings)) [
      | inl n ↦ absurd (ground arith)
      | inr (r, e) ↦
          Puts-recruiter_rating_changed db db.queue id (λ r. record r { status = s }) s r e
            (λ x. refl) (λ x. refl)
    ]
Puts-with_status overall_review id s db h =
    elim (Option-cases (first (λ (r : OverallReview). r.id == id) db.overall_reviews)) [
      | inl n ↦ absurd (ground arith)
      | inr (r, e) ↦
          Puts-overall_review_changed db db.queue id (λ r. record r { status = s }) s r e
            (λ x. refl) (λ x. refl)
    ]
Puts-with_status company id s db h =
    elim (Option-cases (first (λ (r : Company). r.id == id) db.companies)) [
      | inl n ↦ absurd (ground arith)
      | inr (r, e) ↦
          Puts-company_changed db db.queue id (λ r. record r { status = s }) s r e (λ x. refl)
            (λ x. refl)
    ]
