-- ===== src/Submissions/Public/Approved.antt =====
-- The status of what the public reads of companies, of ratings and of reviews show
-- (api/src/companies/companies.service.ts and the services of the ratings and reviews).
use interview_insights.Prelude.{◌≡◌, refl, Bool, true, Option, none, some}
use interview_insights.Prisma.{Prisma}
use interview_insights.World.{World, Result, ok, raised, or_raise, record_not_found}

-- The answer, where there is one, passes the test.
abbrev pub holds_of : {A : Type 0} → (A → Bool) → Result A → Bool
holds_of p (ok a) = p a
holds_of p (raised f) = true

abbrev pub holds_of_some : {A : Type 0} → (A → Bool) → Option A → Bool
holds_of_some p none = true
holds_of_some p (some a) = p a

module _ ⦃P : Prisma⦄ (w : World) where
  pub holds-or_raise :
      {A : Type 0} (p : A → Bool) (o : Option A)
      → holds_of p (or_raise o record_not_found w).0 ≡ holds_of_some p o
  holds-or_raise p none = refl
  holds-or_raise p (some a) = refl
