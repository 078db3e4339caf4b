-- ===== src/Submissions/Processes.antt =====
-- The structure that submissions hang on: api/src/interview-processes/interview-processes.service.ts,
-- api/src/rounds/rounds.service.ts and api/src/recruiters/recruiters.service.ts.
use interview_insights.Prelude.{
  ℕ, ◌+◌, ◌%◌, String, Bool, false, not, ◌&&◌, ◌||◌, Option, none, some, is_some, ◌==◌, str_eq,
}
use interview_insights.Prisma.{Prisma}
use interview_insights.Schema.{
  approved, same_status, Company, RoundDto, Round, Recruiter, RecruiterInteraction, ProcessDetails,
  InterviewProcess, Db,
}
use interview_insights.World.{
  Action, Failure, conflict, forbidden, not_found, error, record_not_found, pure, raise_if,
  or_raise, gets, put_db, draw_id, transaction, ◌>>=◌, ◌>>◌,
}
use interview_insights.Moderation.Lookups.{company_row}
use interview_insights.Submissions.Inserts.{is_review_of}
use interview_insights.Submissions.RoundTypes.{validate_type_metadata}

-- CreateInterviewProcessDto
pub record ProcessDto : Type 0 where
  pub role_title : String
  pub details : ProcessDetails

-- The keyed hash of identifiers (crypto's HMAC), and its key where the environment sets one.
pub record IdentifierTools : Type 0 where
  pub secret : Option String
  pub hash : String → String → String

abbrev pub company_missing : Failure
company_missing = not_found "Company not found."

abbrev pub process_not_yours_to_delete : Failure
process_not_yours_to_delete = forbidden "You can only delete your own process."

abbrev pub process_has_content : Failure
process_has_content =
    conflict "This process has at least one rating or review and cannot be deleted."

abbrev pub process_not_yours_to_extend : Failure
process_not_yours_to_extend = forbidden "You can only add rounds to your own process."

abbrev pub no_hash_secret : Failure
no_hash_secret = error "EMAIL_HASH_SECRET must be set to hash recruiter identifiers."

-- `company && company.status === 'approved'`
abbrev pub is_open_company : Option Company → Bool
is_open_company none = false
is_open_company (some c) = same_status c.status approved

-- labelForIndex: the code of the last character of `Recruiter ${...}`, which is 16 bits wide.
unfoldable pub label_for_index : ℕ → ℕ
label_for_index index = (65 + index) % 65536

-- where: { companyId_internalIdentifierHash: { companyId, internalIdentifierHash } }
abbrev pub is_recruiter_with : ℕ → String → Recruiter → Bool
is_recruiter_with company hash r = r.company_id == company && str_eq r.internal_identifier_hash hash

module _ ⦃P : Prisma⦄ where
  unfoldable pub assert_company_approved : ℕ → Action Unit
  assert_company_approved company = do
    found ← gets (company_row company)
    raise_if (not (is_open_company found)) company_missing

  unfoldable pub insert_process : ℕ → ℕ → ProcessDto → Action InterviewProcess
  insert_process company candidate dto = do
    id ← draw_id
    now ← gets (λ w. w.now)
    db ← gets (λ w. w.db)
    let row : InterviewProcess = record {
      id = id;
      candidate_id = candidate;
      company_id = company;
      role_title = dto.role_title;
      details = dto.details;
      created_at = now;
    }
    put_db (record db { processes = P.create row db.processes })
    pure row

  unfoldable pub create_process : ℕ → ℕ → ProcessDto → Action InterviewProcess
  create_process company candidate dto = do
    assert_company_approved company
    insert_process company candidate dto

  unfoldable pub insert_round : ℕ → RoundDto → Action Round
  insert_round process dto = do
    id ← draw_id
    db ← gets (λ w. w.db)
    let row : Round = record { id = id; process_id = process; content = dto }
    put_db (record db { rounds = P.create row db.rounds })
    pure row

  unfoldable pub find_process : ℕ → Action InterviewProcess
  find_process id = do
    found ← gets (λ w. P.find_first (λ p. p.id == id) w.db.processes)
    or_raise found record_not_found

  unfoldable pub create_round : ℕ → ℕ → RoundDto → Action Round
  create_round process candidate dto = do
    p ← find_process process
    raise_if (not (p.candidate_id == candidate)) process_not_yours_to_extend
    validate_type_metadata dto.round_type dto.type_metadata
    insert_round process dto

  -- hasAnyContent, of the rows that the read includes.
  unfoldable pub has_rated_round : ℕ → Db → Bool
  has_rated_round id db = is_some (
      P.find_first
        (λ r.
          r.process_id == id && is_some (P.find_first (λ x. x.round_id == r.id) db.round_ratings))
        db.rounds)

  unfoldable pub has_rated_interaction : ℕ → Db → Bool
  has_rated_interaction id db = is_some (
      P.find_first
        (λ r.
          r.process_id == id
          && is_some (P.find_first (λ x. x.recruiter_interaction_id == r.id) db.recruiter_ratings))
        db.recruiter_interactions)

  unfoldable pub has_any_content : ℕ → Db → Bool
  unfolding has_rated_round has_rated_interaction
  has_any_content id db =
      has_rated_round id db
      || has_rated_interaction id db
      || is_some (P.find_first (is_review_of id) db.overall_reviews)

  -- The transaction of a removal.
  unfoldable pub delete_process : ℕ → Action Unit
  delete_process id = transaction do
    db ← gets (λ w. w.db)
    rows ← or_raise (P.delete (λ p. p.id == id) db.processes) record_not_found
    put_db (record db {
      rounds = P.delete_many (λ r. r.process_id == id) db.rounds;
      recruiter_interactions = P.delete_many (λ r. r.process_id == id) db.recruiter_interactions;
      processes = rows;
    })

  unfoldable pub remove_process : ℕ → ℕ → Action Unit
  remove_process id candidate = do
    p ← find_process id
    raise_if (not (p.candidate_id == candidate)) process_not_yours_to_delete
    full ← gets (λ w. has_any_content id w.db)
    raise_if full process_has_content
    delete_process id

  unfoldable pub insert_recruiter : ℕ → String → Action Recruiter
  insert_recruiter company hash = do
    prior ← gets (λ w. P.count (λ r. r.company_id == company) w.db.recruiters)
    id ← draw_id
    db ← gets (λ w. w.db)
    let row : Recruiter = record {
      id = id;
      company_id = company;
      internal_identifier_hash = hash;
      display_label = label_for_index prior;
    }
    put_db (record db { recruiters = P.create row db.recruiters })
    pure row

  unfoldable pub existing_or_new : ℕ → String → Option Recruiter → Action Recruiter
  unfolding insert_recruiter
  existing_or_new company hash none = insert_recruiter company hash
  existing_or_new company hash (some r) = pure r

  unfoldable pub find_or_create : IdentifierTools → ℕ → String → Action Recruiter
  unfolding existing_or_new
  find_or_create tools company identifier = do
    secret ← or_raise tools.secret no_hash_secret
    let hash = tools.hash identifier secret
    existing ← gets (λ w. P.find_first (is_recruiter_with company hash) w.db.recruiters)
    existing_or_new company hash existing

  unfoldable pub insert_interaction : ℕ → ℕ → Action RecruiterInteraction
  insert_interaction process recruiter = do
    id ← draw_id
    db ← gets (λ w. w.db)
    let row : RecruiterInteraction = record {
      id = id;
      process_id = process;
      recruiter_id = recruiter;
    }
    put_db (record db { recruiter_interactions = P.create row db.recruiter_interactions })
    pure row
