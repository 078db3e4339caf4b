-- ===== src/Candidates.antt =====
-- The accounts of candidates: api/src/candidate-auth (candidate-auth.service.ts and
-- strategies/candidate-jwt.strategy.ts) and api/src/candidates/candidates.service.ts. The token that a
-- call generates is an argument of it. A mail is its receiver, its subject and its link.
mod Columns
pub mod Passwords
pub mod Resets
pub mod Forgotten
pub mod Links
pub mod Requested
use interview_insights.Prelude.{
  ℕ, ◌+◌, ◌*◌, String, Bool, true, false, not, ◌&&◌, Option, none, some, is_some, List, ◌==◌, ltb,
  str_eq, if◌then◌else◌,
}
use Prim.Native.String.{◌++◌ as str_append}
use interview_insights.Prisma.{Prisma}
use interview_insights.Schema.{CandidateAccount, CandidateToken, Db}
use interview_insights.World.Calls.{deliver}
use interview_insights.World.{
  World, Action, Failure, ok, conflict, not_found, gone, unauthorized, error, record_not_found,
  unique_violation, pure, raise, raise_if, or_raise, gets, put_db, draw_id, request, catching,
  transaction, ◌>>=◌, ◌>>◌,
}
pub use Columns.{
  AccountTools, Session, Purpose, token_ttl_ms, no_hash_secret, no_encryption_key,
  password_already_set, invalid_login, session_refused, link_not_found, link_used, link_expired,
  reset_not_found, reset_used, reset_expired, has_email_hash, has_account_id, has_token_hash,
  has_token_id, is_outstanding_of, consumed, new_token, new_account, with_new_password,
  with_encrypted, verified, with_reset_password, session_of, password_of, or_default, link_to,
  verify_path, reset_path, verification_subject, reset_subject, login_link, verify_link,
}

module _ ⦃P : Prisma⦄ (tools : AccountTools) where
  unfoldable pub email_hash_of : String → Action String
  email_hash_of email = do
    secret ← or_raise tools.hash_secret no_hash_secret
    pure (tools.hash_email email secret)

  unfoldable pub encrypted_of : String → Action String
  encrypted_of email = do
    key ← or_raise tools.encryption_key no_encryption_key
    pure (tools.encrypt_email email key)

  abbrev pub account_with : String → World → Option CandidateAccount
  account_with hash w = P.find_first (has_email_hash hash) w.db.candidates

  -- `candidate.upsert`, which answers with the row. The id is spent where the row exists.
  unfoldable pub upsert_account :
      String
      → (ℕ → ℕ → CandidateAccount)
      → (ℕ → CandidateAccount → CandidateAccount)
      → Action CandidateAccount
  upsert_account hash row change = do
    id ← draw_id
    now ← gets (λ w. w.now)
    db ← gets (λ w. w.db)
    put_db (record db {
      candidates = P.upsert (has_email_hash hash) (row id now) (change now) db.candidates;
    })
    found ← gets (account_with hash)
    or_raise found record_not_found

  -- CandidatesService.create
  unfoldable pub create_candidate : String → Action CandidateAccount
  unfolding email_hash_of encrypted_of upsert_account
  create_candidate email = do
    hash ← email_hash_of email
    encrypted ← encrypted_of email
    upsert_account hash (λ id now. new_account id hash encrypted now)
        (λ now. with_encrypted encrypted)

  -- The transaction of a new login link.
  unfoldable pub issue_verification : ℕ → String → Action Unit
  issue_verification candidate hash = transaction do
    id ← draw_id
    now ← gets (λ w. w.now)
    db ← gets (λ w. w.db)
    let rows = (P.update_many (is_outstanding_of candidate) (consumed now) db.verification_tokens).1
    raise_if (not (P.count (has_token_hash hash) rows == 0)) unique_violation
    put_db (record db { verification_tokens = P.create (new_token id candidate hash now) rows })

  unfoldable pub issue_and_send_verification : ℕ → String → Purpose → String → Action Unit
  unfolding issue_verification
  issue_and_send_verification candidate email purpose token = do
    issue_verification candidate (tools.hash_token token)
    request (deliver email (verification_subject purpose) (link_to tools verify_path token))

  unfoldable pub request_link : String → String → Action Unit
  unfolding create_candidate issue_and_send_verification
  request_link email token = do
    candidate ← create_candidate email
    issue_and_send_verification candidate.id email login_link token

  unfoldable pub register : String → String → String → Action Session
  unfolding email_hash_of encrypted_of upsert_account issue_and_send_verification
  register email password token = do
    hash ← email_hash_of email
    existing ← gets (account_with hash)
    raise_if (is_some (password_of existing)) password_already_set
    let password_hash = tools.hash_password password
    encrypted ← encrypted_of email
    candidate ←
        upsert_account hash
          (λ id now. with_new_password password_hash now (new_account id hash encrypted now))
          (λ now a. with_new_password password_hash now (with_encrypted encrypted a))
    catching (issue_and_send_verification candidate.id email verify_link token)
    pure (session_of candidate)

  -- The two checks of login, on the account that was found.
  unfoldable pub check_password : String → Option CandidateAccount → Action Session
  check_password password none = raise invalid_login
  check_password password (some a) = do
    hash ← or_raise a.password_hash invalid_login
    raise_if (not (tools.compare_password password hash)) invalid_login
    pure (session_of a)

  unfoldable pub login : String → String → Action Session
  unfolding email_hash_of check_password
  login email password = do
    hash ← email_hash_of email
    found ← gets (account_with hash)
    check_password password found

  -- The checks of a token before the transaction.
  unfoldable pub check_token :
      Failure → Failure → Failure → Option CandidateToken → Action CandidateToken
  check_token missing used expired found = do
    t ← or_raise found missing
    raise_if (is_some t.consumed_at) used
    now ← gets (λ w. w.now)
    raise_if (ltb t.expires_at now) expired
    pure t

  unfoldable pub find_account : ℕ → Action CandidateAccount
  find_account id = do
    found ← gets (λ w. P.find_first (has_account_id id) w.db.candidates)
    or_raise found record_not_found

  -- `candidate.update({ where: { id } })`, which answers with the row.
  unfoldable pub update_account :
      ℕ → (CandidateAccount → CandidateAccount) → Action CandidateAccount
  unfolding find_account
  update_account id change = do
    db ← gets (λ w. w.db)
    rows ← or_raise (P.update (has_account_id id) change db.candidates) record_not_found
    put_db (record db { candidates = rows })
    find_account id

  unfoldable pub verify_account : ℕ → ℕ → CandidateAccount → Action CandidateAccount
  unfolding update_account
  verify_account id now a w =
      if a.email_verified then (ok a, w) else update_account id (verified now) w

  -- The transaction of a login by link.
  unfoldable pub consume_verification : CandidateToken → Action CandidateAccount
  unfolding find_account verify_account
  consume_verification t = transaction do
    now ← gets (λ w. w.now)
    db ← gets (λ w. w.db)
    rows ←
        or_raise (P.update (has_token_id t.id) (consumed now) db.verification_tokens)
          record_not_found
    put_db (record db { verification_tokens = rows })
    existing ← find_account t.candidate_id
    verify_account t.candidate_id now existing

  unfoldable pub verify : String → Action Session
  unfolding check_token consume_verification
  verify token = do
    found ←
        gets (λ w. P.find_first (has_token_hash (tools.hash_token token)) w.db.verification_tokens)
    t ← check_token link_not_found link_used link_expired found
    candidate ← consume_verification t
    pure (session_of candidate)

  -- The transaction of a new reset link.
  unfoldable pub issue_reset : ℕ → String → Action Unit
  issue_reset candidate hash = transaction do
    id ← draw_id
    now ← gets (λ w. w.now)
    db ← gets (λ w. w.db)
    let rows = (P.update_many (is_outstanding_of candidate) (consumed now) db.reset_tokens).1
    raise_if (not (P.count (has_token_hash hash) rows == 0)) unique_violation
    put_db (record db { reset_tokens = P.create (new_token id candidate hash now) rows })

  unfoldable pub send_reset : String → String → Option CandidateAccount → Action Unit
  unfolding issue_reset
  send_reset email token none = pure tt
  send_reset email token (some a) = do
    issue_reset a.id (tools.hash_token token)
    request (deliver email reset_subject (link_to tools reset_path token))

  unfoldable pub request_password_reset : String → String → Action Unit
  unfolding email_hash_of send_reset
  request_password_reset email token = do
    hash ← email_hash_of email
    found ← gets (account_with hash)
    send_reset email token found

  -- The transaction of a reset.
  unfoldable pub consume_reset : CandidateToken → String → Action CandidateAccount
  unfolding update_account
  consume_reset t hash = transaction do
    now ← gets (λ w. w.now)
    db ← gets (λ w. w.db)
    rows ← or_raise (P.update (has_token_id t.id) (consumed now) db.reset_tokens) record_not_found
    put_db (record db { reset_tokens = rows })
    update_account t.candidate_id (with_reset_password hash now)

  unfoldable pub confirm_password_reset : String → String → Action Session
  unfolding check_token consume_reset
  confirm_password_reset token password = do
    found ← gets (λ w. P.find_first (has_token_hash (tools.hash_token token)) w.db.reset_tokens)
    t ← check_token reset_not_found reset_used reset_expired found
    candidate ← consume_reset t (tools.hash_password password)
    pure (session_of candidate)

-- `!candidate || candidate.tokenVersion !== payload.tokenVersion`
abbrev pub is_current_session : Session → Option CandidateAccount → Bool
is_current_session s none = false
is_current_session s (some a) = a.token_version == s.token_version

-- CandidateJwtStrategy.validate
unfoldable pub validate_session : ⦃P : Prisma⦄ → Session → Action Session
validate_session ⦃P⦄ s = do
  found ← gets (λ w. P.find_first (has_account_id s.candidate_id) w.db.candidates)
  raise_if (not (is_current_session s found)) session_refused
  pure s
