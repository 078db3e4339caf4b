-- ===== src/Gate/Stored.antt =====
-- Storing a verdict on a submission keeps the gate.
use mathlib.Core.Option
use interview_insights.Prelude.{
  Bool, ℕ, String, ◌≡◌, refl, inl, inr, some, is_some, List, [], ◌∷◌, first, change, count_where,
  IsKeyed, IsKeyed-change, arith, ◌==◌, Bool-cases, if◌then◌else◌, ap, sym, ◌∙◌,
}
use interview_insights.Prisma.{Prisma}
use interview_insights.Schema.{
  EntityType, round_rating, recruiter_rating, overall_review, Status, RoundRating, RecruiterRating,
  OverallReview, Db,
}
use interview_insights.World.{record_not_found, or_raise, put_db, ◌>>=◌, World}
use interview_insights.Moderation.Queue.{is_unreviewed_for}
use interview_insights.Moderation.Entities.{status_of}
use interview_insights.Verdicts.{
  Triageable, round_rating_verdict, recruiter_rating_verdict, overall_review_verdict, store_verdict,
}
use interview_insights.Gate.{IsGated, Grows, is_pending}
use interview_insights.Gate.Rules.{Gated}

-- Tables with the same queue and the same statuses.
IsGated-alike :
    (db db' : Db) (issued : List ℕ)
    → db'.queue ≡ db.queue
    → ((t : EntityType) (id : ℕ) → status_of t id db' ≡ status_of t id db)
    → IsKeyed (λ r. r.id) db'.overall_reviews
    → IsKeyed (λ r. r.process_id) db'.overall_reviews
    → IsGated db issued
    → IsGated db' issued
IsGated-alike db db' issued q s a b g = record {
  keyed = rw q g.keyed;
  entries = rw q g.entries;
  entities = λ t id h. g.entities t id (ap is_some (sym (s t id)) ∙ h);
  gate = λ t id.
      ap (λ l. count_where (is_unreviewed_for t id) l) q
      ∙ g.gate t id
      ∙ ap (λ o. if is_pending o then 1 else 0) (sym (s t id));
  reviews = a;
  processes = b;
}

-- A write to another column of the rows with an id.
look-other :
    {A : Type 0} (key : A → ℕ) (status : A → Status) (i k : ℕ) (f : A → A) (rows : List A)
    → ((x : A) → key (f x) ≡ key x)
    → ((x : A) → status (f x) ≡ status x)
    → Option.map status (first (λ y. key y == i) (change (λ y. key y == k) f rows))
      ≡ Option.map status (first (λ y. key y == i) rows)
unfolding first change
look-other key status i k f [] h s = refl
look-other key status i k f (x ∷ xs) h s =
    ground (arith, h x, s x, look-other key status i k f xs h s)

module _ (id : ℕ) (v : String) (w : World) where
  abbrev with_round_rating_verdict : Db
  with_round_rating_verdict = record w.db {
    round_ratings =
        change (λ r. r.id == id) (λ r. record r { moderation_verdict = some v }) w.db.round_ratings;
  }

  abbrev with_recruiter_rating_verdict : Db
  with_recruiter_rating_verdict = record w.db {
    recruiter_ratings =
        change (λ r. r.id == id) (λ r. record r { moderation_verdict = some v })
          w.db.recruiter_ratings;
  }

  abbrev with_overall_review_verdict : Db
  with_overall_review_verdict = record w.db {
    overall_reviews =
        change (λ r. r.id == id) (λ r. record r { moderation_verdict = some v })
          w.db.overall_reviews;
  }

  round_rating_verdict-Gated : Gated w → IsGated with_round_rating_verdict w.issued
  unfolding status_of
  round_rating_verdict-Gated g =
      IsGated-alike w.db with_round_rating_verdict w.issued refl same g.reviews g.processes g
    where
      same : (t : EntityType) (i : ℕ) → status_of t i with_round_rating_verdict ≡ status_of t i w.db
      same round_rating i =
          look-other (λ (r : RoundRating). r.id) (λ r. r.status) i id
            (λ r. record r { moderation_verdict = some v }) w.db.round_ratings (λ x. refl)
            (λ x. refl)
      same _ i = refl

  recruiter_rating_verdict-Gated : Gated w → IsGated with_recruiter_rating_verdict w.issued
  unfolding status_of
  recruiter_rating_verdict-Gated g =
      IsGated-alike w.db with_recruiter_rating_verdict w.issued refl same g.reviews g.processes g
    where
      same :
          (t : EntityType) (i : ℕ)
          → status_of t i with_recruiter_rating_verdict ≡ status_of t i w.db
      same recruiter_rating i =
          look-other (λ (r : RecruiterRating). r.id) (λ r. r.status) i id
            (λ r. record r { moderation_verdict = some v }) w.db.recruiter_ratings (λ x. refl)
            (λ x. refl)
      same _ i = refl

  overall_review_verdict-Gated : Gated w → IsGated with_overall_review_verdict w.issued
  unfolding status_of
  overall_review_verdict-Gated g =
      IsGated-alike w.db with_overall_review_verdict w.issued refl same
        (IsKeyed-change (λ (r : OverallReview). r.id) (λ r. r.id == id)
          (λ r. record r { moderation_verdict = some v }) w.db.overall_reviews (λ x. refl)
          g.reviews)
        (IsKeyed-change (λ (r : OverallReview). r.process_id) (λ r. r.id == id)
          (λ r. record r { moderation_verdict = some v }) w.db.overall_reviews (λ x. refl)
          g.processes)
        g
    where
      same :
          (t : EntityType) (i : ℕ) → status_of t i with_overall_review_verdict ≡ status_of t i w.db
      same overall_review i =
          look-other (λ (r : OverallReview). r.id) (λ r. r.status) i id
            (λ r. record r { moderation_verdict = some v }) w.db.overall_reviews (λ x. refl)
            (λ x. refl)
      same _ i = refl

  module _ ⦃P : Prisma⦄ where
    -- An update of the rows of a table, which fails where no row matches.
    put_rows_at :
        {Row : Type 0} (p : Row → Bool) (f : Row → Row) (rows : List Row) (put : List Row → Db)
        → Gated w
        → IsGated (put (change p f rows)) w.issued
        → let out = (or_raise (P.update p f rows) record_not_found >>= λ rs. put_db (put rs)) w in
          Gated out.1 × Grows w.issued out.1.issued
    put_rows_at p f rows put g h = elim (Bool-cases (count_where p rows == 0)) [
      | inl z ↦ rw (P.update_law p f rows, z) (g, λ i k. k)
      | inr z ↦ rw (P.update_law p f rows, z) (h, λ i k. k)
    ]

    pub store_verdict_at :
        (t : Triageable)
        → Gated w
        → let out = store_verdict t id v w in Gated out.1 × Grows w.issued out.1.issued
    unfolding store_verdict
    store_verdict_at round_rating_verdict g =
        put_rows_at (λ (r : RoundRating). r.id == id)
          (λ r. record r { moderation_verdict = some v }) w.db.round_ratings
          (λ rows. record w.db { round_ratings = rows }) g (round_rating_verdict-Gated g)
    store_verdict_at recruiter_rating_verdict g =
        put_rows_at (λ (r : RecruiterRating). r.id == id)
          (λ r. record r { moderation_verdict = some v }) w.db.recruiter_ratings
          (λ rows. record w.db { recruiter_ratings = rows }) g (recruiter_rating_verdict-Gated g)
    store_verdict_at overall_review_verdict g =
        put_rows_at (λ (r : OverallReview). r.id == id)
          (λ r. record r { moderation_verdict = some v }) w.db.overall_reviews
          (λ rows. record w.db { overall_reviews = rows }) g (overall_review_verdict-Gated g)
