-- ===== src/Examples/Gate0.antt =====
-- The moderation gate at a world with one rating that waits, and the validation of a round's metadata.
use interview_insights.Prelude.{
  ℕ, ◌≡◌, refl, true, not, none, some, is_some, List, [], ◌∷◌, count_where, contains, first, arith,
  if◌then◌else◌,
}
use interview_insights.Prisma.{list_client}
use interview_insights.Schema.{
  EntityType, round_rating, recruiter_rating, overall_review, company, Company, approved, coding,
  text, texts, RoundTypeFieldOption,
}
use interview_insights.World.{World}
use interview_insights.Moderation.Queue.{is_unreviewed_for}
use interview_insights.Moderation.Entities.{status_of}
use interview_insights.Moderation.Review.{ActionDto}
use interview_insights.Submissions.RoundTypes.{Metadata, validate_type_metadata}
use interview_insights.Submissions.RoundTypes.Validation.{
  is_ok, is_valid_metadata, validate_type_metadata-eq,
}
use interview_insights.Submissions.Processes.{IdentifierTools}
use interview_insights.Submissions.Bulk.{BulkDto}
use interview_insights.Gate.{IsGated, is_pending}
use interview_insights.Gate.Requests.{
  Request, creates_round_rating, updates_round_rating, approves, removes_round_rating, elapses,
  serve_all, serve_all-IsGated,
}
use interview_insights.Gate.Reviewed.{is_free_page}
use interview_insights.Gate.Settled.{is_waiting, public_reads-settled}
use interview_insights.Submissions.Public.{
  find_all, find_top, find_one, find_by_slug, find_approved_for_round,
  find_approved_for_interaction, find_approved_for_process, find_approved_reviews,
}
use interview_insights.Submissions.Public.Approved.{holds_of, holds_of_some}
use interview_insights.Examples.World0.{world0, coding_round, open_entry, rating_of}
use interview_insights.Examples.Submissions0.{plain_tools, new_words}

abbrev gate_world : World
gate_world = record world0 {
  db = record world0.db {
    queue = open_entry ∷ [];
    round_ratings = rating_of 11 ∷ record (rating_of 12) { status = approved } ∷ [];
  };
  issued = 12 ∷ 11 ∷ 1 ∷ [];
}

gate_world-entities :
    (t : EntityType) (id : ℕ)
    → is_some (status_of t id gate_world.db) ≡ true
    → contains id gate_world.issued ≡ true
unfolding status_of contains first
gate_world-entities round_rating id h = ground arith
gate_world-entities recruiter_rating id h = ground arith
gate_world-entities overall_review id h = ground arith
gate_world-entities company id h = ground arith

gate_world-gate :
    (t : EntityType) (id : ℕ)
    → count_where (is_unreviewed_for t id) gate_world.db.queue
      ≡ (if is_pending (status_of t id gate_world.db) then 1 else 0)
unfolding status_of count_where first
gate_world-gate round_rating id = ground arith
gate_world-gate recruiter_rating id = ground arith
gate_world-gate overall_review id = ground arith
gate_world-gate company id = ground arith

gate_world-IsGated : IsGated gate_world.db gate_world.issued
unfolding contains
gate_world-IsGated = record {
  keyed = (refl, tt);
  entries = (refl, tt);
  entities = gate_world-entities;
  gate = gate_world-gate;
  reviews = tt;
  processes = tt;
}

abbrev plain_action : ActionDto
plain_action = record {
  reviewed_by = some "moderator";
  rejection_reason_category = none;
  review_note = none;
}

abbrev plain_hash : IdentifierTools
plain_hash = record { secret = some "key"; hash = λ identifier key. identifier }

-- The waiting rating is edited and approved, while another candidate rates the same round.
abbrev busy_day : List Request
busy_day =
    updates_round_rating 31 11 41 new_words
    ∷ creates_round_rating 31 42 new_words
    ∷ elapses 500
    ∷ approves 1 plain_action
    ∷ removes_round_rating 31 11 41
    ∷ []

serve_all-IsGated_example :
    let v = serve_all plain_tools plain_hash (λ value. none) busy_day gate_world in
    IsGated v.db v.issued
serve_all-IsGated_example =
    serve_all-IsGated plain_tools plain_hash (λ value. none) busy_day gate_world gate_world-IsGated

public_reads-settled_example :
    let waits = λ (t : EntityType). is_waiting t gate_world.db.queue in
    (count_where (λ c. waits company c.id) (find_all 1 10 gate_world).items ≡ 0)
    × (count_where (λ c. waits company c.id) (find_top (λ i. i) 5 gate_world) ≡ 0)
    × (holds_of (λ c. not (waits company c.id)) (find_one 31 gate_world).0 ≡ true)
    × (holds_of (λ c. not (waits company c.id)) (find_by_slug "acme" gate_world).0 ≡ true)
    × (count_where (λ r. waits round_rating r.id) (find_approved_for_round 31 gate_world) ≡ 0)
    × (count_where (λ r. waits recruiter_rating r.id) (find_approved_for_interaction 31 gate_world)
        ≡ 0)
    × (holds_of_some
          (λ r. not (waits overall_review r.id))
          (find_approved_for_process 31 gate_world)
        ≡ true)
    × (holds_of (is_free_page (waits round_rating)) (find_approved_reviews 31 1 10 gate_world).0
        ≡ true)
unfolding contains
public_reads-settled_example =
    public_reads-settled gate_world 31 1 10 5 "acme" (λ i. i) gate_world-IsGated tt
      (refl, (refl, tt)) tt (λ i. omega arith)

abbrev graphs_option : RoundTypeFieldOption
graphs_option = record {
  id = 90;
  round_type = coding;
  field_key = "problemDataStructures";
  value = "graph";
  sort_order = 0;
  is_active = true;
}

abbrev option_world : World
option_world = record world0 { db = record world0.db { round_type_options = graphs_option ∷ [] } }

abbrev graph_round : Metadata
graph_round =
    ("problemDescription", text "Shortest paths.")
    ∷ ("problemDataStructures", texts ("graph" ∷ []))
    ∷ []

validate_type_metadata-eq_example :
    let out = validate_type_metadata coding (some graph_round) option_world in
    (is_ok out.0 ≡ is_valid_metadata (graphs_option ∷ []) coding (some graph_round))
    × (out.1 ≡ option_world)
validate_type_metadata-eq_example = validate_type_metadata-eq coding (some graph_round) option_world

abbrev open_company : Company
open_company = record {
  id = 51;
  content = record {
    name = "Acme";
    slug = "acme";
    industry = none;
    size_bucket = "mid";
    logo_url = none;
  };
  status = approved;
  candidate_id = none;
  created_at = 1;
}

abbrev company_world : World
company_world = record option_world {
  db = record option_world.db { companies = open_company ∷ [] };
}

-- A process with one rated round.
abbrev one_round : BulkDto
one_round = record {
  process = record {
    role_title = "Engineer";
    details = record {
      level = none;
      department = none;
      application_date = none;
      outcome = "offer";
    };
  };
  rounds =
      record {
        round = record coding_round { type_metadata = some graph_round };
        rating = some new_words;
      }
      ∷ [];
  recruiter_interactions = [];
  overall_review = none;
}
