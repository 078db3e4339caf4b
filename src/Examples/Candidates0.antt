-- ===== src/Examples/Candidates0.antt =====
-- The theorems about the accounts of candidates at a world with one account and two links.
use interview_insights.Prelude.{
  ◌≡◌, refl, none, some, [], ◌∷◌, first, str_eq, count_where, change, drop_where, arith, is_some,
  keep, contains, not, ◌&&◌, if◌then◌else◌,
}
use interview_insights.Prisma.{list_client}
use interview_insights.Schema.{CandidateAccount, CandidateToken}
use interview_insights.World.{World, ok, raised, outage, foreign_key_violation}
use interview_insights.World.Calls.{deliver}
use interview_insights.Candidates.{
  AccountTools, Session, session_of, has_token_hash, register, login, verify, validate_session,
  confirm_password_reset, request_link, new_account, with_new_password, new_token, link_used,
  link_to, reset_path, reset_subject, has_email_hash, request_password_reset, reset_used,
  session_refused,
}
use interview_insights.Candidates.Passwords.{register-login}
use interview_insights.Candidates.Resets.{reset_revokes}
use interview_insights.Candidates.Links.{login_spec, account_of, verify_outcome}
use interview_insights.Candidates.Requested.{
  verify_twice, request_link_supersedes, request_link-verify,
}
use interview_insights.Candidates.Forgotten.{request_password_reset_answer, forgot-login}
use interview_insights.Me.{erase_me}
use interview_insights.Me.Erasure.{erase_me_refused}
use interview_insights.Examples.World0.{world0, rating_of}

abbrev clear_tools : AccountTools
clear_tools = record {
  hash_secret = some "key";
  hash_email = λ email key. email;
  encryption_key = some "other key";
  encrypt_email = λ email key. email;
  hash_password = λ password. password;
  compare_password = λ password hash. str_eq password hash;
  hash_token = λ token. token;
  cors_origin = none;
}

abbrev ada : CandidateAccount
ada = with_new_password "old" 5 (new_account 41 "ada" "ada" 5)

abbrev ada_link : CandidateToken
ada_link = new_token 81 41 "first" 2900

abbrev ada_reset : CandidateToken
ada_reset = new_token 82 41 "reset" 2900

abbrev account_world : World
account_world = record world0 {
  db = record world0.db {
    candidates = ada ∷ [];
    verification_tokens = ada_link ∷ [];
    reset_tokens = ada_reset ∷ [];
  };
}

abbrev ada_session : Session
ada_session = record { candidate_id = 41; token_version = 0 }

register-login_example :
    let out = register clear_tools "bob" "secret" "t" account_world in
    (s : Session) × (out.0 ≡ ok s) × ((login clear_tools "bob" "secret" out.1).0 ≡ ok s)
unfolding first
register-login_example =
    register-login clear_tools "key" "other key" "bob" "secret" "t" account_world refl refl refl
      refl

reset_revokes_example :
    let v : World = record (confirm_password_reset clear_tools "reset" "new" account_world).1 {
      now = 4000;
    } in
    (validate_session ada_session v ≡ (raised session_refused, v))
    × (confirm_password_reset clear_tools "reset" "newer" v ≡ (raised reset_used, v))
unfolding first
reset_revokes_example =
    reset_revokes clear_tools "reset" "new" account_world ada_reset ada ada_session 4000 "newer"
      refl (omega arith) refl refl refl refl

verify_outcome_example :
    verify clear_tools "first" account_world
    ≡ login_spec
        (first (has_token_hash "first") account_world.db.verification_tokens)
        (account_of
          (first (has_token_hash "first") account_world.db.verification_tokens)
          account_world)
        account_world
verify_outcome_example = verify_outcome clear_tools "first" account_world

verify_first : (verify clear_tools "first" account_world).0 ≡ ok ada_session
unfolding verify first count_where change
verify_first = refl

verify_twice_example :
    let v : World = record (verify clear_tools "first" account_world).1 { now = 4000 } in
    verify clear_tools "first" v ≡ (raised link_used, v)
verify_twice_example = verify_twice clear_tools "first" account_world ada_session 4000 verify_first

request_link_supersedes_example :
    let v : World = record (request_link clear_tools "ada" "second" account_world).1 {
      now = 4000;
    } in
    verify clear_tools "first" v ≡ (raised link_used, v)
unfolding first
request_link_supersedes_example =
    request_link_supersedes clear_tools "key" "other key" "ada" "second" account_world ada "first"
      ada_link 4000 refl refl refl refl refl refl

request_link-verify_example :
    (verify clear_tools "second"
      (record (request_link clear_tools "ada" "second" account_world).1 { now = 4000 })).0
    ≡ ok (session_of ada)
unfolding first
request_link-verify_example =
    request_link-verify clear_tools "key" "other key" "ada" "second" account_world ada 4000 refl
      refl refl refl refl (omega arith)

-- Candidate 42 has rated a round of candidate 41.
abbrev rated_world : World
rated_world = record account_world {
  db = record account_world.db { round_ratings = record (rating_of 15) { candidate_id = 42 } ∷ [] };
}

erase_me_refused_example :
    let out = erase_me 41 rated_world in
    (out.0 ≡ raised foreign_key_violation) × (out.1.db ≡ rated_world.db)
unfolding count_where drop_where keep contains
erase_me_refused_example = erase_me_refused 41 rated_world refl

request_password_reset_answer_example :
    let known = is_some (first (has_email_hash "ada") account_world.db.candidates) in
    let taken =
      account_world.answers (deliver "ada" reset_subject (link_to clear_tools reset_path "t")) in
    (request_password_reset clear_tools "ada" "t" account_world).0
    ≡ (if known && not taken then raised outage else ok tt)
unfolding first
request_password_reset_answer_example =
    request_password_reset_answer clear_tools "ada" "key" "t" account_world refl refl

forgot-login_example :
    let v : World = record (request_password_reset clear_tools "ada" "t" account_world).1 {
      now = 3000;
    } in
    let out = confirm_password_reset clear_tools "t" "new" v in
    (s : Session) × (out.0 ≡ ok s) × ((login clear_tools "ada" "new" out.1).0 ≡ ok s)
unfolding first
forgot-login_example =
    forgot-login clear_tools "ada" "key" "t" account_world ada "new" 3000 refl refl refl refl refl
      (omega arith)
