-- ===== src/Candidates/Columns.antt =====
-- What the accounts of candidates are made of: the tools and the environment, the refusals, and the
-- `where` and `data` clauses of api/src/candidate-auth/candidate-auth.service.ts.
use interview_insights.Prelude.{
  ℕ, ◌+◌, ◌*◌, String, Bool, true, false, not, ◌&&◌, Option, none, some, is_some, ◌==◌, str_eq,
}
use Prim.Native.String.{◌++◌ as str_append}
use interview_insights.Schema.{CandidateAccount, CandidateToken}
use interview_insights.World.{Failure, conflict, not_found, gone, unauthorized, error}

-- What the code takes from its libraries and the environment: the keyed hash of mail addresses (HMAC)
-- and its key, their encryption and its key, the hash of passwords (bcrypt), the hash of tokens (SHA-256),
-- and the address of the site.
pub record AccountTools : Type 0 where
  pub hash_secret : Option String
  pub hash_email : String → String → String
  pub encryption_key : Option String
  pub encrypt_email : String → String → String
  pub hash_password : String → String
  pub compare_password : String → String → Bool
  pub hash_token : String → String
  pub cors_origin : Option String

-- CandidateSessionPayload
pub record Session : Type 0 where
  pub candidate_id : ℕ
  pub token_version : ℕ

pub data Purpose : Type 0 where
  login_link verify_link : Purpose

abbrev pub token_ttl_ms : ℕ
token_ttl_ms = 15 * 60 * 1000

abbrev pub no_hash_secret : Failure
no_hash_secret = error "EMAIL_HASH_SECRET must be set to hash candidate emails."

abbrev pub no_encryption_key : Failure
no_encryption_key =
    error
      "EMAIL_ENCRYPTION_KEY must be set to store a candidate email notification-service can use."

abbrev pub password_already_set : Failure
password_already_set = conflict "An account with this email already has a password set."

abbrev pub invalid_login : Failure
invalid_login = unauthorized "Invalid email or password."

abbrev pub session_refused : Failure
session_refused = unauthorized "Unauthorized"

abbrev pub link_not_found : Failure
link_not_found = not_found "Login link not found."

abbrev pub link_used : Failure
link_used = conflict "This login link has already been used."

abbrev pub link_expired : Failure
link_expired = gone "This login link has expired."

abbrev pub reset_not_found : Failure
reset_not_found = not_found "Password reset link not found."

abbrev pub reset_used : Failure
reset_used = conflict "This password reset link has already been used."

abbrev pub reset_expired : Failure
reset_expired = gone "This password reset link has expired."

-- where: { emailHash }
abbrev pub has_email_hash : String → CandidateAccount → Bool
has_email_hash h a = str_eq a.email_hash h

abbrev pub has_account_id : ℕ → CandidateAccount → Bool
has_account_id id a = a.id == id

-- where: { tokenHash }
abbrev pub has_token_hash : String → CandidateToken → Bool
has_token_hash h t = str_eq t.token_hash h

abbrev pub has_token_id : ℕ → CandidateToken → Bool
has_token_id id t = t.id == id

-- where: { candidateId, consumedAt: null }
abbrev pub is_outstanding_of : ℕ → CandidateToken → Bool
is_outstanding_of candidate t = t.candidate_id == candidate && not (is_some t.consumed_at)

-- data: { consumedAt: new Date() }
abbrev pub consumed : ℕ → CandidateToken → CandidateToken
consumed now t = record t { consumed_at = some now }

-- data: { candidateId, tokenHash, expiresAt }
abbrev pub new_token : ℕ → ℕ → String → ℕ → CandidateToken
new_token id candidate hash now = record {
  id = id;
  candidate_id = candidate;
  token_hash = hash;
  expires_at = now + token_ttl_ms;
  consumed_at = none;
  created_at = now;
}

-- A new row of the table, without a password.
abbrev pub new_account : ℕ → String → String → ℕ → CandidateAccount
new_account id hash encrypted now = record {
  id = id;
  email_hash = hash;
  email_encrypted = some encrypted;
  email_verified = false;
  verified_at = none;
  password_hash = none;
  password_set_at = none;
  token_version = 0;
  created_at = now;
}

-- data: { passwordHash, passwordSetAt }
abbrev pub with_new_password : String → ℕ → CandidateAccount → CandidateAccount
with_new_password hash now a = record a { password_hash = some hash; password_set_at = some now }

abbrev pub with_encrypted : String → CandidateAccount → CandidateAccount
with_encrypted encrypted a = record a { email_encrypted = some encrypted }

-- data: { verificationStatus: 'email_verified', verifiedAt: new Date() }
abbrev pub verified : ℕ → CandidateAccount → CandidateAccount
verified now a = record a { email_verified = true; verified_at = some now }

-- data: { passwordHash, passwordSetAt: new Date(), tokenVersion: { increment: 1 } }
abbrev pub with_reset_password : String → ℕ → CandidateAccount → CandidateAccount
with_reset_password hash now a = record (with_new_password hash now a) {
  token_version = a.token_version + 1;
}

abbrev pub session_of : CandidateAccount → Session
session_of a = record { candidate_id = a.id; token_version = a.token_version }

-- `existing?.passwordHash`
abbrev pub password_of : Option CandidateAccount → Option String
password_of none = none
password_of (some a) = a.password_hash

abbrev pub or_default : String → Option String → String
or_default d none = d
or_default d (some s) = s

-- The link of a mail.
abbrev pub link_to : AccountTools → String → String → String
link_to tools path token =
    str_append (or_default "http://localhost:3000" tools.cors_origin) (str_append path token)

abbrev pub verify_path : String
verify_path = "/auth/verify?token="

abbrev pub reset_path : String
reset_path = "/auth/reset-password?token="

abbrev pub verification_subject : Purpose → String
verification_subject login_link = "Your Interview Insights login link"
verification_subject verify_link = "Verify your Interview Insights email"

abbrev pub reset_subject : String
reset_subject = "Reset your Interview Insights password"
