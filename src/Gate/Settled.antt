-- ===== src/Gate/Settled.antt =====
-- The gate and the public reads of the tables together (api/src/companies, round-ratings,
-- recruiter-ratings and overall-reviews). The search index is another matter: it is not read here, and
-- the edit of an approved rating leaves its document there.
use mathlib.Core.Option
use interview_insights.Prelude.{
  ℕ, ◌-◌, ◌*◌, ◌≤◌, String, ◌≡◌, refl, sym, ap, ◌∙◌, inl, inr, Bool, true, false, not, ◌&&◌, some,
  List, [], ◌∷◌, first, first_sound, count-pos_of_first, count_where, drop, count-keep,
  count-take-le, count-drop_first-le, IsKeyed, IsRow, first_of_IsRow, arith, ◌==◌, str_eq,
  if◌then◌else◌, Bool-cases, Option-cases,
}
use interview_insights.Prisma.{Prisma}
use interview_insights.Schema.{
  EntityType, round_rating, recruiter_rating, overall_review, company, Status, approved,
  same_status, QueueEntry, RoundRating, RecruiterRating, OverallReview, Company, eq_of_same_status,
}
use interview_insights.World.{World}
use interview_insights.Moderation.Queue.{is_unreviewed_for}
use interview_insights.Moderation.Entities.{status_of}
use interview_insights.Submissions.Public.{
  is_approved_company, shuffle, find_all, find_top, find_one, find_by_slug, find_approved_for_round,
  find_approved_for_interaction, find_approved_for_process, find_approved_reviews,
}
use interview_insights.Submissions.Public.Shuffle.{SameRows-shuffle}
use interview_insights.Submissions.Public.Approved.{holds_of, holds_of_some, holds-or_raise}
use interview_insights.Gate.{IsGated, is_pending}
use interview_insights.Gate.Reviewed.{is_free_page, reviews_free}

-- Does an unreviewed entry of the queue refer to the submission?
abbrev pub is_waiting : EntityType → List QueueEntry → ℕ → Bool
is_waiting t queue id = not (count_where (is_unreviewed_for t id) queue == 0)

module _ (w : World) (g : IsGated w.db w.issued) where
  approved-not_waiting :
      (t : EntityType) (id : ℕ)
      → status_of t id w.db ≡ some approved
      → is_waiting t w.db.queue id ≡ false
  approved-not_waiting t id s =
      let n : count_where (is_unreviewed_for t id) w.db.queue ≡ 0 =
        g.gate t id ∙ ap (λ o. if is_pending o then 1 else 0) s in
      rw n refl

  -- The rows of a table with distinct ids, of which the queue knows the status.
  module _ {Row : Type 0} (t : EntityType) (key : Row → ℕ) (status : Row → Status) (rows : List Row)
      (u : IsKeyed key rows)
      (known : (id : ℕ)
        → status_of t id w.db ≡ Option.map status (first (λ x. key x == id) rows)) where
    row-not_waiting :
        (x : Row)
        → IsRow x rows
        → same_status (status x) approved ≡ true
        → is_waiting t w.db.queue (key x) ≡ false
    row-not_waiting x i a = approved-not_waiting t (key x) (
        known (key x)
        ∙ ap (Option.map status) (first_of_IsRow key rows x u i)
        ∙ ap some (eq_of_same_status (status x) approved a))

    none_waiting :
        (p : Row → Bool)
        → ((x : Row) → p x ≡ true → same_status (status x) approved ≡ true)
        → count_where (λ x. p x && is_waiting t w.db.queue (key x)) rows ≡ 0
    unfolding count_where
    none_waiting p h = go rows (λ x i. i)
      where
        go :
            (xs : List Row)
            → ((x : Row) → IsRow x xs → IsRow x rows)
            → count_where (λ x. p x && is_waiting t w.db.queue (key x)) xs ≡ 0
        go [] k = refl
        go (x ∷ xs) k = elim (Bool-cases (p x)) [
          | inr n ↦ rw n (omega (arith, go xs (λ y i. k y (inr i))))
          | inl e ↦
              rw (e, row-not_waiting x (k x (inl refl)) (h x e))
                (omega (arith, go xs (λ y i. k y (inr i))))
        ]

    module _ ⦃P : Prisma⦄ (p : Row → Bool)
        (h : (x : Row) → p x ≡ true → same_status (status x) approved ≡ true) where
      none_waiting-ordered :
          (skip : ℕ) (order : Row → ℕ)
          → count_where (λ x. is_waiting t w.db.queue (key x)) (P.find_ordered skip p order rows)
            ≡ 0
      none_waiting-ordered skip order =
          sym (P.find_ordered_rows skip p order rows (λ x. is_waiting t w.db.queue (key x)))
          ∙ count-keep p (λ x. is_waiting t w.db.queue (key x)) rows
          ∙ none_waiting p h

      none_waiting-first :
          holds_of_some (λ x. not (is_waiting t w.db.queue (key x))) (P.find_first p rows) ≡ true
      none_waiting-first =
          ap (holds_of_some (λ x. not (is_waiting t w.db.queue (key x)))) (P.find_first_law p rows)
          ∙ elim (Option-cases (first p rows)) [
            | inl n ↦ rw n refl
            | inr (x, s) ↦ elim (Bool-cases (is_waiting t w.db.queue (key x))) [
              | inr n ↦ rw (s, n) refl
              | inl y ↦ absurd (
                  omega (
                    arith,
                    count-pos_of_first p (λ z. p z && is_waiting t w.db.queue (key z)) rows x s
                        (rw (first_sound p rows x s, y) refl),
                    none_waiting p h,
                  ))
            ]
          ]

module _ ⦃P : Prisma⦄ where
  -- In a gated database whose ids are distinct, eight reads show nothing that waits for a moderator:
  -- findAll, findTop, findOne, findBySlug and findApprovedReviews of the companies, and the approved
  -- ratings of a round, those of an interaction and the approved review of a process. Of the
  -- companies and submissions that they answer with, none has an unreviewed entry in the queue. What
  -- `Math.random` gives at i is at most i.
  pub public_reads-settled :
      (w : World) (id page size limit : ℕ) (slug : String) (pick : ℕ → ℕ)
      → IsGated w.db w.issued
      → IsKeyed (λ c. c.id) w.db.companies
      → IsKeyed (λ r. r.id) w.db.round_ratings
      → IsKeyed (λ r. r.id) w.db.recruiter_ratings
      → ((i : ℕ) → pick i ≤ i)
      → let waits = λ (t : EntityType). is_waiting t w.db.queue in
        (count_where (λ c. waits company c.id) (find_all page size w).items ≡ 0)
        × (count_where (λ c. waits company c.id) (find_top pick limit w) ≡ 0)
        × (holds_of (λ c. not (waits company c.id)) (find_one id w).0 ≡ true)
        × (holds_of (λ c. not (waits company c.id)) (find_by_slug slug w).0 ≡ true)
        × (count_where (λ r. waits round_rating r.id) (find_approved_for_round id w) ≡ 0)
        × (count_where (λ r. waits recruiter_rating r.id) (find_approved_for_interaction id w) ≡ 0)
        × (holds_of_some (λ r. not (waits overall_review r.id)) (find_approved_for_process id w)
            ≡ true)
        × (holds_of (is_free_page (waits round_rating)) (find_approved_reviews id page size w).0
            ≡ true)
  unfolding status_of find_all find_top find_one find_by_slug find_approved_for_round
      find_approved_for_interaction find_approved_for_process
  public_reads-settled w id page size limit slug pick g kc kr ki h =
      let waiting = λ (c : Company). is_waiting company w.db.queue c.id in
      let order =
        P.find_ordered ((page - 1) * size) is_approved_company (λ c. c.created_at) w.db.companies in
      let rows = P.find_many is_approved_company w.db.companies in
      (
        omega (
          arith,
          none_waiting-ordered w g company (λ (c : Company). c.id) (λ c. c.status) w.db.companies kc
              (λ i. refl) is_approved_company (λ c k. k) ((page - 1) * size) (λ c. c.created_at),
          count-drop_first-le waiting ((page - 1) * size) order,
          count-take-le waiting size (drop ((page - 1) * size) order),
        ),
        omega (
          arith,
          count-keep is_approved_company waiting w.db.companies,
          none_waiting w g company (λ (c : Company). c.id) (λ c. c.status) w.db.companies kc
              (λ i. refl) is_approved_company (λ c k. k),
          ap (count_where waiting) (P.find_many_law is_approved_company w.db.companies),
          SameRows-shuffle pick rows h waiting,
          count-take-le waiting limit (shuffle pick rows),
        ),
        holds-or_raise w (λ c. not (waiting c))
              (P.find_first (λ c. c.id == id && is_approved_company c) w.db.companies)
            ∙ none_waiting-first w g company (λ (c : Company). c.id) (λ c. c.status) w.db.companies
                kc (λ i. refl) (λ c. c.id == id && is_approved_company c) (λ c k. ground arith),
        holds-or_raise w (λ c. not (waiting c))
              (P.find_first (λ c. str_eq c.content.slug slug && is_approved_company c)
                w.db.companies)
            ∙ none_waiting-first w g company (λ (c : Company). c.id) (λ c. c.status) w.db.companies
                kc (λ i. refl) (λ c. str_eq c.content.slug slug && is_approved_company c)
                (λ c k. ground arith),
        none_waiting-ordered w g round_rating (λ (r : RoundRating). r.id) (λ r. r.status)
            w.db.round_ratings kr (λ i. refl)
            (λ r. r.round_id == id && same_status r.status approved) (λ r k. ground arith) 0
            (λ r. r.created_at),
        none_waiting-ordered w g recruiter_rating (λ (r : RecruiterRating). r.id) (λ r. r.status)
            w.db.recruiter_ratings ki (λ i. refl)
            (λ r. r.recruiter_interaction_id == id && same_status r.status approved)
            (λ r k. ground arith) 0 (λ r. r.created_at),
        none_waiting-first w g overall_review (λ (r : OverallReview). r.id) (λ r. r.status)
            w.db.overall_reviews g.reviews (λ i. refl)
            (λ r. r.process_id == id && same_status r.status approved) (λ r k. ground arith),
        reviews_free (is_waiting round_rating w.db.queue) id page size w (
            none_waiting w g round_rating (λ (r : RoundRating). r.id) (λ r. r.status)
              w.db.round_ratings kr (λ i. refl) (λ r. same_status r.status approved) (λ r k. k)),
      )
