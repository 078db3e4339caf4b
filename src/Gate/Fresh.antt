-- ===== src/Gate/Fresh.antt =====
-- The ids that a database with the gate has not given out.

use interview_insights.Prelude.{
  ℕ, Bool, true, false, ◌≡◌, inl, inr, is_some, List, [], ◌∷◌, ◌++◌, first, drop_where, drop-none,
  count_where, count-eq-zero, contains, sym, arith, ◌==◌, ==-refl, Bool-cases, ap,
}
use interview_insights.Prisma.{Prisma}
use interview_insights.Schema.{
  EntityType, round_rating, recruiter_rating, overall_review, company, QueueEntry, RoundRating,
  RecruiterRating, OverallReview, Company, Db,
}
use interview_insights.Moderation.Queue.{is_unreviewed_for}
use interview_insights.Moderation.Entities.{status_of}
use interview_insights.Gate.{IsGated, Grows}

-- A submission with an id that has not been given out does not exist.
pub unknown :
    (t : EntityType) (id : ℕ) (db : Db) (issued : List ℕ)
    → IsGated db issued
    → contains id issued ≡ false
    → is_some (status_of t id db) ≡ false
unknown t id db issued g n = elim (Bool-cases (is_some (status_of t id db))) [
  | inl y ↦ ground (arith, g.entities t id y)
  | inr y ↦ y
]

count_zero :
    {A : Type 0} (p : A → Bool) (rows : List A)
    → is_some (first p rows) ≡ false
    → count_where p rows ≡ 0
count_zero p rows h = ground (arith, count-eq-zero p rows)

pub unknown_round_rating :
    (db : Db) (issued : List ℕ) (id : ℕ)
    → IsGated db issued
    → contains id issued ≡ false
    → count_where (λ r. r.id == id) db.round_ratings ≡ 0
unfolding status_of
unknown_round_rating db issued id g n =
    count_zero (λ (r : RoundRating). r.id == id) db.round_ratings
      (ground (arith, unknown round_rating id db issued g n))

pub unknown_recruiter_rating :
    (db : Db) (issued : List ℕ) (id : ℕ)
    → IsGated db issued
    → contains id issued ≡ false
    → count_where (λ r. r.id == id) db.recruiter_ratings ≡ 0
unfolding status_of
unknown_recruiter_rating db issued id g n =
    count_zero (λ (r : RecruiterRating). r.id == id) db.recruiter_ratings
      (ground (arith, unknown recruiter_rating id db issued g n))

pub unknown_overall_review :
    (db : Db) (issued : List ℕ) (id : ℕ)
    → IsGated db issued
    → contains id issued ≡ false
    → count_where (λ r. r.id == id) db.overall_reviews ≡ 0
unfolding status_of
unknown_overall_review db issued id g n =
    count_zero (λ (r : OverallReview). r.id == id) db.overall_reviews
      (ground (arith, unknown overall_review id db issued g n))

pub unknown_company :
    (db : Db) (issued : List ℕ) (id : ℕ)
    → IsGated db issued
    → contains id issued ≡ false
    → count_where (λ r. r.id == id) db.companies ≡ 0
unfolding status_of
unknown_company db issued id g n =
    count_zero (λ (r : Company). r.id == id) db.companies
      (ground (arith, unknown company id db issued g n))

-- The queue of a submission that has just been made.
pub enqueued :
    (t : EntityType) (db : Db) (issued : List ℕ) (id : ℕ) (e : QueueEntry)
    → IsGated db issued
    → contains id issued ≡ false
    → db.queue ++ e ∷ [] ≡ drop_where (is_unreviewed_for t id) db.queue ++ e ∷ []
enqueued t db issued id e g n =
    ap (λ l. l ++ e ∷ [])
      (sym (
        drop-none (is_unreviewed_for t id) db.queue
          (ground (arith, g.gate t id, unknown t id db issued g n))))

module _ ⦃P : Prisma⦄ (issued : List ℕ) where
  -- Two ids, one after the other.
  abbrev pub twice : List ℕ
  twice = P.uuid (P.uuid issued ∷ issued) ∷ P.uuid issued ∷ issued

  pub grown_once : Grows issued (P.uuid issued ∷ issued)
  unfolding contains
  grown_once id h = ground arith

  pub grown_twice : Grows issued twice
  unfolding contains
  grown_twice id h = ground arith

  pub known_first : contains (P.uuid issued) twice ≡ true
  unfolding contains
  known_first = ground (arith, ==-refl (P.uuid issued))

  pub known_second : contains (P.uuid (P.uuid issued ∷ issued)) twice ≡ true
  unfolding contains
  known_second = ground (arith, ==-refl (P.uuid (P.uuid issued ∷ issued)))

  pub known_once : contains (P.uuid issued) (P.uuid issued ∷ issued) ≡ true
  unfolding contains
  known_once = ground (arith, ==-refl (P.uuid issued))

  pub fresh_second : contains (P.uuid (P.uuid issued ∷ issued)) issued ≡ false
  unfolding contains
  fresh_second = ground (arith, P.uuid_law (P.uuid issued ∷ issued))
