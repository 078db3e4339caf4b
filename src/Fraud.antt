-- ===== src/Fraud.antt =====
-- api/src/fraud-checks/fraud-checks.service.ts. Whether a text is blank, how it is normalised, and
-- what the database's `similarity` says of two texts are parameters.
use interview_insights.Prelude.{
  ℕ, ◌+◌, String, Bool, false, not, ◌&&◌, Option, none, some, leb, ◌==◌, if◌then◌else◌,
}
use interview_insights.Prisma.{Prisma}
use interview_insights.Schema.{
  EntityType, round_rating, recruiter_rating, overall_review, company, FlagReason, rate_limit,
  duplicate, InterviewProcess,
}
use interview_insights.World.{World}

-- `!text.trim()`, normalizeFreeText, and
-- `similarity(lower(text), normalized) > DUPLICATE_SIMILARITY_THRESHOLD`.
pub record TextTools : Type 0 where
  pub is_blank : String → Bool
  pub normalize : String → String
  pub is_similar : String → String → Bool

-- RATE_LIMIT_WINDOW_MS and RATE_LIMIT_MAX_SUBMISSIONS
abbrev pub rate_limit_window_ms : ℕ
rate_limit_window_ms = 86400000

abbrev pub rate_limit_max_submissions : ℕ
rate_limit_max_submissions = 3

-- where: { candidateId, createdAt: { gte: windowStart } }, with the window added on both sides.
abbrev pub is_recent_of : ℕ → ℕ → InterviewProcess → Bool
is_recent_of candidate now p =
    p.candidate_id == candidate && leb now (p.created_at + rate_limit_window_ms)

module _ ⦃P : Prisma⦄ (tools : TextTools) where
  unfoldable pub check_rate_limit : ℕ → World → Bool
  check_rate_limit candidate w =
      leb rate_limit_max_submissions (P.count (is_recent_of candidate w.now) w.db.processes)

  -- The row has a text, and it is similar.
  abbrev pub is_similar_text : String → Option String → Bool
  is_similar_text normalized none = false
  is_similar_text normalized (some text) = tools.is_similar text normalized

  -- SELECT EXISTS (...)
  unfoldable pub has_similar_existing_text : EntityType → String → World → Bool
  has_similar_existing_text round_rating normalized w =
      not (P.count (λ r. is_similar_text normalized r.content.free_text) w.db.round_ratings == 0)
  has_similar_existing_text recruiter_rating normalized w =
      not
        (P.count (λ r. is_similar_text normalized r.content.free_text) w.db.recruiter_ratings == 0)
  has_similar_existing_text overall_review normalized w =
      not
        (P.count (λ r. is_similar_text normalized r.content.review_text) w.db.overall_reviews == 0)
  has_similar_existing_text company normalized w = false

  unfoldable pub check_duplicate_free_text : EntityType → Option String → World → Bool
  unfolding has_similar_existing_text
  check_duplicate_free_text t none w = false
  check_duplicate_free_text t (some text) w =
      if tools.is_blank text then false else has_similar_existing_text t (tools.normalize text) w

  unfoldable pub detect_flag_reason : ℕ → EntityType → Option String → World → Option FlagReason
  unfolding check_rate_limit check_duplicate_free_text
  detect_flag_reason candidate t free_text w =
      if check_rate_limit candidate w
      then some rate_limit
      else if check_duplicate_free_text t free_text w
      then some duplicate
      else none
