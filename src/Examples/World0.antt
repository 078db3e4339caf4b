-- ===== src/Examples/World0.antt =====
-- A world with five queue entries: one open, one escalated, one held by a moderator, one whose review
-- is gone, and one that has been reviewed.
use interview_insights.Prelude.{String, Option, ℕ, Bool, true, false, none, some, [], ◌∷◌}
use interview_insights.Schema.{
  round_rating, pending, rejected, QueueEntry, RoundRating, StaffRole, admin, moderator, Moderator,
  Db, RoundDto, coding,
}
use interview_insights.World.{World, hours}

-- An unreviewed entry about a round rating.
abbrev pub entry_of : ℕ → ℕ → Bool → ℕ → QueueEntry
entry_of id about escalated deadline = record {
  id = id;
  entity_type = round_rating;
  entity_id = about;
  flag_reason = none;
  reviewed_by = none;
  reviewed_at = none;
  decision = none;
  rejection_reason_category = none;
  review_note = none;
  escalated = escalated;
  sla_deadline = deadline;
  claimed_by_id = none;
  claimed_at = none;
  breach_notified_at = none;
  warning_notified_at = none;
  created_at = 10;
}

abbrev pub open_entry : QueueEntry
open_entry = entry_of 1 11 false 2000

abbrev pub escalated_entry : QueueEntry
escalated_entry = entry_of 2 12 true 5000

abbrev pub held_entry : QueueEntry
held_entry = record (entry_of 3 13 false 9000000) { claimed_by_id = some 70; claimed_at = some 20 }

abbrev pub orphan_entry : QueueEntry
orphan_entry = entry_of 4 14 false 9000000000

abbrev pub reviewed_entry : QueueEntry
reviewed_entry = record (entry_of 5 11 false 400) {
  reviewed_at = some 300;
  decision = some rejected;
}

abbrev pub rating_of : ℕ → RoundRating
rating_of id = record {
  id = id;
  round_id = 31;
  candidate_id = 41;
  content = record {
    difficulty = 3;
    fluency = 4;
    clarity = 4;
    focus = 5;
    technical_depth = none;
    free_text = some "Fair and well prepared.";
  };
  status = pending;
  moderation_verdict = none;
  created_at = 10;
}

abbrev pub coding_round : RoundDto
coding_round = record {
  sequence_number = 1;
  title = none;
  description = none;
  round_type = coding;
  scheduled_duration_minutes = none;
  type_metadata = none;
}

abbrev pub db0 : Db
db0 = record {
  queue = open_entry ∷ escalated_entry ∷ held_entry ∷ orphan_entry ∷ reviewed_entry ∷ [];
  round_ratings = rating_of 11 ∷ rating_of 12 ∷ rating_of 13 ∷ [];
  recruiter_ratings = [];
  overall_reviews = [];
  companies = [];
  rounds = record { id = 31; process_id = 32; content = coding_round } ∷ [];
  recruiter_interactions = [];
  processes =
      record {
        id = 32;
        candidate_id = 41;
        company_id = 51;
        role_title = "Engineer";
        details = record {
          level = none;
          department = none;
          application_date = none;
          outcome = "offer";
        };
        created_at = 5;
      }
      ∷ [];
  audits = [];
  moderators = [];
  staff_audit_log = [];
  edit_throttle = [];
  recruiters = [];
  round_type_options = [];
  candidates = [];
  verification_tokens = [];
  reset_tokens = [];
}

abbrev pub world0 : World
world0 = record {
  db = db0;
  now = 3000;
  issued = 1 ∷ 2 ∷ 3 ∷ 4 ∷ 5 ∷ [];
  calls = [];
  answers = λ call. true;
  takes_stamp = λ id. true;
  connected = true;
  sla_env = hours 2;
}

-- A member of staff.
abbrev pub member : ℕ → String → StaffRole → Option ℕ → Moderator
member id name role creator = record {
  id = id;
  username = name;
  password_hash = "x";
  email = "staff";
  role = role;
  is_active = true;
  created_by_id = creator;
  created_at = 1;
}

-- The root, an admin and a moderator.
abbrev pub staffed_world : World
staffed_world = record world0 {
  db = record db0 {
    moderators =
        member 1 "root" admin none
        ∷ member 2 "ada" admin (some 1)
        ∷ member 3 "bob" moderator (some 2)
        ∷ [];
  };
}
