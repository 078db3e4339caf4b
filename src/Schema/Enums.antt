-- ===== src/Schema/Enums.antt =====
-- The enums of api/prisma/schema.prisma that the moderation services branch on.
use interview_insights.Prelude.{ℕ, ◌≡◌, Bool, true, false, arith, ◌==◌}

pub data EntityType : Type 0 where
  round_rating recruiter_rating overall_review company : EntityType

pub data Status : Type 0 where
  pending approved rejected flagged permanently_rejected : Status

pub data FlagReason : Type 0 where
  spam_pattern rate_limit duplicate manual_report ai_triage_stalled : FlagReason

pub data RejectionReason : Type 0 where
  low_quality guideline_violation identifying_information spam_or_promotional : RejectionReason
  inaccurate_or_unverifiable other : RejectionReason

pub data StaffRole : Type 0 where
  staff moderator admin : StaffRole

pub data StaffAuditAction : Type 0 where
  account_created role_changed deactivated reactivated password_reset : StaffAuditAction

-- `===` on entity types.
abbrev pub same_type : EntityType → EntityType → Bool
same_type round_rating round_rating = true
same_type recruiter_rating recruiter_rating = true
same_type overall_review overall_review = true
same_type company company = true
same_type _ _ = false

-- `===` on statuses.
abbrev pub same_status : Status → Status → Bool
same_status pending pending = true
same_status approved approved = true
same_status rejected rejected = true
same_status flagged flagged = true
same_status permanently_rejected permanently_rejected = true
same_status _ _ = false

-- `===` on roles.
abbrev pub same_role : StaffRole → StaffRole → Bool
same_role staff staff = true
same_role moderator moderator = true
same_role admin admin = true
same_role _ _ = false

pub same_type_refl : (t : EntityType) → same_type t t ≡ true
same_type_refl t = ground arith

pub eq_of_same_type : (s t : EntityType) → same_type s t ≡ true → s ≡ t
eq_of_same_type s t h = ground arith

pub eq_of_same_status : (s t : Status) → same_status s t ≡ true → s ≡ t
eq_of_same_status s t h = ground arith

pub data RoundType : Type 0 where
  coding system_design behavioral leadership case_study assessment take_home : RoundType
  tech_screening other_type : RoundType

abbrev pub round_type_code : RoundType → ℕ
round_type_code coding = 0
round_type_code system_design = 1
round_type_code behavioral = 2
round_type_code leadership = 3
round_type_code case_study = 4
round_type_code assessment = 5
round_type_code take_home = 6
round_type_code tech_screening = 7
round_type_code other_type = 8

-- `===` on round types.
abbrev pub same_round_type : RoundType → RoundType → Bool
same_round_type a b = round_type_code a == round_type_code b

pub same_type_comm : (s t : EntityType) → same_type s t ≡ same_type t s
same_type_comm s t = ground arith
