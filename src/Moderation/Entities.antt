-- ===== src/Moderation/Entities.antt =====
-- The entity that a queue entry refers to, read and written through its type: what `set_status` and
-- `entity_exists` do, whichever of the four tables it is.
use mathlib.Core.Option
use interview_insights.Prelude.{
  ℕ, ◌≡◌, refl, true, Option, some, is_some, List, first, change, first-change_self, count-eq-zero,
  arith, ◌==◌, if◌then◌else◌,
}
use interview_insights.Prisma.{Prisma}
use interview_insights.Schema.{
  EntityType, round_rating, recruiter_rating, overall_review, company, Status, Db, QueueEntry,
  RoundRating, RecruiterRating, OverallReview, Company,
}
use interview_insights.World.{World, ok, raised, record_not_found}
use interview_insights.Moderation.Lookups.{entity_exists}
use interview_insights.Moderation.Review.{set_status}

-- The status of the entity, where it exists.
unfoldable pub status_of : EntityType → ℕ → Db → Option Status
status_of round_rating id db = Option.map (λ r. r.status) (first (λ r. r.id == id) db.round_ratings)
status_of recruiter_rating id db =
    Option.map (λ r. r.status) (first (λ r. r.id == id) db.recruiter_ratings)
status_of overall_review id db =
    Option.map (λ r. r.status) (first (λ r. r.id == id) db.overall_reviews)
status_of company id db = Option.map (λ c. c.status) (first (λ c. c.id == id) db.companies)

-- The tables with another status for one entity.
unfoldable pub with_status : EntityType → ℕ → Status → Db → Db
with_status round_rating id s db = record db {
  round_ratings = change (λ r. r.id == id) (λ r. record r { status = s }) db.round_ratings;
}
with_status recruiter_rating id s db = record db {
  recruiter_ratings = change (λ r. r.id == id) (λ r. record r { status = s }) db.recruiter_ratings;
}
with_status overall_review id s db = record db {
  overall_reviews = change (λ r. r.id == id) (λ r. record r { status = s }) db.overall_reviews;
}
with_status company id s db = record db {
  companies = change (λ c. c.id == id) (λ c. record c { status = s }) db.companies;
}

module _ ⦃P : Prisma⦄ where
  pub entity_exists-eq :
      (t : EntityType) (id : ℕ) (w : World) → entity_exists t id w ≡ is_some (status_of t id w.db)
  unfolding entity_exists status_of
  entity_exists-eq round_rating id w =
      ground (arith, P.find_first_law (λ (r : RoundRating). r.id == id) w.db.round_ratings)
  entity_exists-eq recruiter_rating id w =
      ground (arith, P.find_first_law (λ (r : RecruiterRating). r.id == id) w.db.recruiter_ratings)
  entity_exists-eq overall_review id w =
      ground (arith, P.find_first_law (λ (r : OverallReview). r.id == id) w.db.overall_reviews)
  entity_exists-eq company id w =
      ground (arith, P.find_first_law (λ (c : Company). c.id == id) w.db.companies)

  pub set_status-eq :
      (t : EntityType) (id : ℕ) (s : Status) (w : World)
      → set_status t id s w ≡ (
          if is_some (status_of t id w.db)
          then (ok tt, record w { db = with_status t id s w.db })
          else (raised record_not_found, w))
  unfolding set_status status_of with_status
  set_status-eq round_rating id s w = ground (
    arith,
    P.update_law (λ (r : RoundRating). r.id == id) (λ r. record r { status = s })
        w.db.round_ratings,
    count-eq-zero (λ (r : RoundRating). r.id == id) w.db.round_ratings,
  )
  set_status-eq recruiter_rating id s w = ground (
    arith,
    P.update_law (λ (r : RecruiterRating). r.id == id) (λ r. record r { status = s })
        w.db.recruiter_ratings,
    count-eq-zero (λ (r : RecruiterRating). r.id == id) w.db.recruiter_ratings,
  )
  set_status-eq overall_review id s w = ground (
    arith,
    P.update_law (λ (r : OverallReview). r.id == id) (λ r. record r { status = s })
        w.db.overall_reviews,
    count-eq-zero (λ (r : OverallReview). r.id == id) w.db.overall_reviews,
  )
  set_status-eq company id s w = ground (
    arith,
    P.update_law (λ (c : Company). c.id == id) (λ c. record c { status = s }) w.db.companies,
    count-eq-zero (λ (c : Company). c.id == id) w.db.companies,
  )

pub status_of-with_status :
    (t : EntityType) (id : ℕ) (s : Status) (db : Db)
    → is_some (status_of t id db) ≡ true
    → status_of t id (with_status t id s db) ≡ some s
unfolding status_of with_status
status_of-with_status round_rating id s db h = ground (
  arith,
  first-change_self (λ r. r.id == id) (λ r. record r { status = s }) db.round_ratings (λ x. refl),
)
status_of-with_status recruiter_rating id s db h = ground (
  arith,
  first-change_self (λ r. r.id == id) (λ r. record r { status = s }) db.recruiter_ratings
      (λ x. refl),
)
status_of-with_status overall_review id s db h = ground (
  arith,
  first-change_self (λ r. r.id == id) (λ r. record r { status = s }) db.overall_reviews (λ x. refl),
)
status_of-with_status company id s db h = ground (
  arith,
  first-change_self (λ r. r.id == id) (λ r. record r { status = s }) db.companies (λ x. refl),
)

-- The status of an entity does not depend on the queue.
pub status_of-queue :
    (t : EntityType) (id : ℕ) (db : Db) (rows : List QueueEntry)
    → status_of t id (record db { queue = rows }) ≡ status_of t id db
unfolding status_of
status_of-queue round_rating id db rows = refl
status_of-queue _ id db rows = refl

-- A status write leaves the queue and the audit trail alone.
pub queue-with_status :
    (t : EntityType) (id : ℕ) (s : Status) (db : Db) → (with_status t id s db).queue ≡ db.queue
unfolding with_status
queue-with_status round_rating id s db = refl
queue-with_status _ id s db = refl

pub audits-with_status :
    (t : EntityType) (id : ℕ) (s : Status) (db : Db) → (with_status t id s db).audits ≡ db.audits
unfolding with_status
audits-with_status round_rating id s db = refl
audits-with_status _ id s db = refl
