-- ===== src/Gate/Requests.antt =====
-- Any sequence of requests, moderator actions and verdicts keeps the gate.
use interview_insights.Prelude.{ℕ, String, Option, List, [], ◌∷◌}
use interview_insights.Prisma.{Prisma}
use interview_insights.Schema.{
  FlagReason, RoundRatingDto, RecruiterRatingDto, OverallReviewDto, CompanyDto, RoundDto,
}
use interview_insights.World.{World}
use interview_insights.Fraud.{TextTools}
use interview_insights.Moderation.Claims.{claim, release}
use interview_insights.Moderation.Review.{ActionDto, approve, reject, flag}
use interview_insights.Submissions.RoundRatings.{
  create_round_rating, update_round_rating, remove_round_rating,
}
use interview_insights.Submissions.RecruiterRatings.{
  create_recruiter_rating, update_recruiter_rating, remove_recruiter_rating,
}
use interview_insights.Submissions.OverallReviews.{
  create_overall_review, update_overall_review, remove_overall_review,
}
use interview_insights.Submissions.Companies.{UpdateCompanyDto, create_company, update_company}
use interview_insights.Submissions.Processes.{
  ProcessDto, IdentifierTools, create_process, remove_process, create_round,
}
use interview_insights.Submissions.Bulk.{BulkDto, create_bulk}
use interview_insights.Verdicts.{VerdictEvent, handle_message}
use interview_insights.Gate.{IsGated}
use interview_insights.Gate.Rules.{Gated}
use interview_insights.Gate.Services.{
  Keeps-create_round_rating, Keeps-update_round_rating, Keeps-remove_round_rating,
  Keeps-create_recruiter_rating, Keeps-update_recruiter_rating, Keeps-remove_recruiter_rating,
  Keeps-create_overall_review, Keeps-update_overall_review, Keeps-remove_overall_review,
  Keeps-create_company, Keeps-update_company,
}
use interview_insights.Gate.Decisions.{Keeps-approve, Keeps-reject, Keeps-flag}
use interview_insights.Gate.Claims.{Keeps-claim, Keeps-release}
use interview_insights.Gate.Verdicts.{Keeps-handle_message}
use interview_insights.Gate.Structure.{
  Keeps-create_process, Keeps-remove_process, Keeps-create_round,
}
use interview_insights.Gate.Bulk.{Keeps-create_bulk}

-- A call of a service, with its arguments, a message for the verdict consumer, or time that passes.
pub data Request : Type 0 where
  creates_round_rating : ℕ → ℕ → RoundRatingDto → Request
  updates_round_rating : ℕ → ℕ → ℕ → RoundRatingDto → Request
  removes_round_rating : ℕ → ℕ → ℕ → Request
  creates_recruiter_rating : ℕ → ℕ → RecruiterRatingDto → Request
  updates_recruiter_rating : ℕ → ℕ → ℕ → RecruiterRatingDto → Request
  removes_recruiter_rating : ℕ → ℕ → ℕ → Request
  creates_overall_review : ℕ → ℕ → OverallReviewDto → Request
  updates_overall_review : ℕ → ℕ → OverallReviewDto → Request
  removes_overall_review : ℕ → ℕ → Request
  submits_in_bulk : ℕ → ℕ → BulkDto → Request
  creates_process : ℕ → ℕ → ProcessDto → Request
  removes_process : ℕ → ℕ → Request
  creates_round : ℕ → ℕ → RoundDto → Request
  requests_company : CompanyDto → Option ℕ → Request
  updates_company : ℕ → ℕ → UpdateCompanyDto → Request
  claims releases : ℕ → ℕ → Request
  approves rejects : ℕ → ActionDto → Request
  flags : ℕ → ActionDto → Option FlagReason → Request
  receives : Option String → Request
  elapses : ℕ → Request

module _ ⦃P : Prisma⦄ (tools : TextTools) (ids : IdentifierTools)
    (parse : String → Option VerdictEvent) where
  -- The world after a request, whether it is answered or refused.
  unfoldable pub serve : Request → World → World
  serve (creates_round_rating round candidate dto) w =
      (create_round_rating tools round candidate dto w).1
  serve (updates_round_rating round id candidate dto) w =
      (update_round_rating round id candidate dto w).1
  serve (removes_round_rating round id candidate) w = (remove_round_rating round id candidate w).1
  serve (creates_recruiter_rating interaction candidate dto) w =
      (create_recruiter_rating tools interaction candidate dto w).1
  serve (updates_recruiter_rating interaction id candidate dto) w =
      (update_recruiter_rating interaction id candidate dto w).1
  serve (removes_recruiter_rating interaction id candidate) w =
      (remove_recruiter_rating interaction id candidate w).1
  serve (creates_overall_review process candidate dto) w =
      (create_overall_review tools process candidate dto w).1
  serve (updates_overall_review process candidate dto) w =
      (update_overall_review process candidate dto w).1
  serve (removes_overall_review process candidate) w = (remove_overall_review process candidate w).1
  serve (submits_in_bulk company candidate dto) w =
      (create_bulk tools ids candidate company dto w).1
  serve (creates_process company candidate dto) w = (create_process company candidate dto w).1
  serve (removes_process id candidate) w = (remove_process id candidate w).1
  serve (creates_round process candidate dto) w = (create_round process candidate dto w).1
  serve (requests_company dto candidate) w = (create_company dto candidate w).1
  serve (updates_company id candidate dto) w = (update_company id candidate dto w).1
  serve (claims id m) w = (claim id m w).1
  serve (releases id m) w = (release id m w).1
  serve (approves id dto) w = (approve id dto w).1
  serve (rejects id dto) w = (reject id dto w).1
  serve (flags id dto reason) w = (flag id dto reason w).1
  serve (receives value) w = (handle_message parse value w).1
  serve (elapses t) w = record w { now = t }

  unfoldable pub serve_all : List Request → World → World
  serve_all [] w = w
  serve_all (r ∷ rest) w = serve_all rest (serve r w)

  serve-IsGated : (r : Request) (w : World) → Gated w → Gated (serve r w)
  unfolding serve
  serve-IsGated (creates_round_rating round candidate dto) w g =
      ((Keeps-create_round_rating tools round candidate dto).at w g).0
  serve-IsGated (updates_round_rating round id candidate dto) w g =
      ((Keeps-update_round_rating round id candidate dto).at w g).0
  serve-IsGated (removes_round_rating round id candidate) w g =
      ((Keeps-remove_round_rating round id candidate).at w g).0
  serve-IsGated (creates_recruiter_rating interaction candidate dto) w g =
      ((Keeps-create_recruiter_rating tools interaction candidate dto).at w g).0
  serve-IsGated (updates_recruiter_rating interaction id candidate dto) w g =
      ((Keeps-update_recruiter_rating interaction id candidate dto).at w g).0
  serve-IsGated (removes_recruiter_rating interaction id candidate) w g =
      ((Keeps-remove_recruiter_rating interaction id candidate).at w g).0
  serve-IsGated (creates_overall_review process candidate dto) w g =
      ((Keeps-create_overall_review tools process candidate dto).at w g).0
  serve-IsGated (updates_overall_review process candidate dto) w g =
      ((Keeps-update_overall_review process candidate dto).at w g).0
  serve-IsGated (removes_overall_review process candidate) w g =
      ((Keeps-remove_overall_review process candidate).at w g).0
  serve-IsGated (submits_in_bulk company candidate dto) w g =
      ((Keeps-create_bulk tools ids candidate company dto).at w g).0
  serve-IsGated (creates_process company candidate dto) w g =
      ((Keeps-create_process company candidate dto).at w g).0
  serve-IsGated (removes_process id candidate) w g = ((Keeps-remove_process id candidate).at w g).0
  serve-IsGated (creates_round process candidate dto) w g =
      ((Keeps-create_round process candidate dto).at w g).0
  serve-IsGated (requests_company dto candidate) w g =
      ((Keeps-create_company dto candidate).at w g).0
  serve-IsGated (updates_company id candidate dto) w g =
      ((Keeps-update_company id candidate dto).at w g).0
  serve-IsGated (claims id m) w g = ((Keeps-claim id m).at w g).0
  serve-IsGated (releases id m) w g = ((Keeps-release id m).at w g).0
  serve-IsGated (approves id dto) w g = ((Keeps-approve id dto).at w g).0
  serve-IsGated (rejects id dto) w g = ((Keeps-reject id dto).at w g).0
  serve-IsGated (flags id dto reason) w g = ((Keeps-flag id dto reason).at w g).0
  serve-IsGated (receives value) w g = ((Keeps-handle_message parse value).at w g).0
  serve-IsGated (elapses t) w g = g

  -- Whatever is requested, in whatever order, from tables in which every submission that is pending
  -- has exactly one unreviewed entry in the queue and no other submission has one, this still holds
  -- after all of the requests, answered or refused; and so do the parts of the invariant that it
  -- rests on: the ids of the queue are distinct, ids are given out once, and a process has at most
  -- one review. The requests are the creation, edit and removal of round ratings, recruiter ratings
  -- and overall reviews, bulk submissions, the creation and removal of processes and the creation of
  -- rounds, the request and edit of companies, claims, releases, approvals, rejections
  -- and flags by moderators, and messages for the verdict consumer.
  pub serve_all-IsGated :
      (rs : List Request) (w : World)
      → IsGated w.db w.issued
      → IsGated (serve_all rs w).db (serve_all rs w).issued
  unfolding serve_all
  serve_all-IsGated [] w g = g
  serve_all-IsGated (r ∷ rs) w g = serve_all-IsGated rs (serve r w) (serve-IsGated r w g)
