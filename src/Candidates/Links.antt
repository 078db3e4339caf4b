-- ===== src/Candidates/Links.antt =====
-- The login by a link: `verify` of api/src/candidate-auth/candidate-auth.service.ts.
use interview_insights.Prelude.{
  ◌≤◌, String, ◌≡◌, refl, inl, inr, true, Option, none, some, is_some, first, first-change_self,
  change, count_where, count-eq-zero, count-pos_of_first, arith, ==-refl, ltb, if◌then◌else◌,
  Option-cases, Bool-cases,
}
use interview_insights.Prisma.{Prisma}
use interview_insights.Schema.{CandidateAccount, CandidateToken, Db}
use interview_insights.World.{World, Result, ok, raised, record_not_found}
use interview_insights.Candidates.{
  AccountTools, Session, session_of, has_account_id, has_token_hash, has_token_id, verified,
  consumed, check_token, find_account, update_account, verify_account, consume_verification, verify,
  link_not_found, link_used, link_expired,
}

-- The tables after a login by link.
abbrev pub logged_in : CandidateToken → CandidateAccount → World → Db
logged_in t a w = record w.db {
  verification_tokens = change (has_token_id t.id) (consumed w.now) w.db.verification_tokens;
  candidates =
      if a.email_verified
      then w.db.candidates
      else change (has_account_id t.candidate_id) (verified w.now) w.db.candidates;
}

-- What a login by link answers and leaves, by the token that its hash finds and by the account.
abbrev pub login_spec :
    Option CandidateToken → Option CandidateAccount → World → Result Session × World
login_spec none o w = (raised link_not_found, w)
login_spec (some t) o w =
    if is_some t.consumed_at
    then (raised link_used, w)
    else if ltb t.expires_at w.now
    then (raised link_expired, w)
    else elim o [
      | none ↦ (raised record_not_found, w)
      | some a ↦ (ok (session_of a), record w { db = logged_in t a w })
    ]

abbrev pub account_of : Option CandidateToken → World → Option CandidateAccount
account_of none w = none
account_of (some t) w = first (has_account_id t.candidate_id) w.db.candidates

module _ ⦃P : Prisma⦄ (tools : AccountTools) where
  module _ (t : CandidateToken) (w : World) where
    consume-none :
        1 ≤ count_where (has_token_id t.id) w.db.verification_tokens
        → first (has_account_id t.candidate_id) w.db.candidates ≡ none
        → consume_verification tools t w ≡ (raised record_not_found, w)
    unfolding consume_verification find_account
    consume-none c n = ground (
      arith,
      P.update_law (has_token_id t.id) (consumed w.now) w.db.verification_tokens,
      P.find_first_law (has_account_id t.candidate_id) w.db.candidates,
    )

    consume-some :
        (a : CandidateAccount)
        → 1 ≤ count_where (has_token_id t.id) w.db.verification_tokens
        → first (has_account_id t.candidate_id) w.db.candidates ≡ some a
        → (consume_verification tools t w).1 ≡ record w { db = logged_in t a w }
    unfolding consume_verification find_account verify_account update_account
    consume-some a c s = ground (
      arith,
      P.update_law (has_token_id t.id) (consumed w.now) w.db.verification_tokens,
      P.find_first_law (has_account_id t.candidate_id) w.db.candidates,
      P.update_law (has_account_id t.candidate_id) (verified w.now) w.db.candidates,
      count-eq-zero (has_account_id t.candidate_id) w.db.candidates,
      P.find_first_law (has_account_id t.candidate_id) (logged_in t a w).candidates,
      first-change_self (has_account_id t.candidate_id) (verified w.now) w.db.candidates
          (λ x. refl),
    )

    abbrev settled_account : CandidateAccount → CandidateAccount
    settled_account a = if a.email_verified then a else verified w.now a

    consume_answer :
        (a : CandidateAccount)
        → 1 ≤ count_where (has_token_id t.id) w.db.verification_tokens
        → first (has_account_id t.candidate_id) w.db.candidates ≡ some a
        → (consume_verification tools t w).0 ≡ ok (settled_account a)
    unfolding consume_verification find_account verify_account update_account
    consume_answer a c s = ground (
      arith,
      P.update_law (has_token_id t.id) (consumed w.now) w.db.verification_tokens,
      P.find_first_law (has_account_id t.candidate_id) w.db.candidates,
      P.update_law (has_account_id t.candidate_id) (verified w.now) w.db.candidates,
      count-eq-zero (has_account_id t.candidate_id) w.db.candidates,
      P.find_first_law (has_account_id t.candidate_id) (logged_in t a w).candidates,
      first-change_self (has_account_id t.candidate_id) (verified w.now) w.db.candidates
          (λ x. refl),
    )

    same_session : (a : CandidateAccount) → session_of (settled_account a) ≡ session_of a
    same_session a = elim (Bool-cases a.email_verified) [ inl y ↦ rw y refl | inr n ↦ rw n refl ]

  -- A login by link answers and leaves what the specification says, on every branch: an unknown
  -- link, a used one and an expired one are refused, in this order, and so is one whose account is
  -- gone, and nothing changes; any other is used up, its account's address is verified, at this
  -- moment where it was not before, and the answer is the account's session.
  pub verify_outcome :
      (token : String) (w : World)
      → let found = first (has_token_hash (tools.hash_token token)) w.db.verification_tokens in
        verify tools token w ≡ login_spec found (account_of found w) w
  unfolding verify check_token
  verify_outcome token w =
      let p = has_token_hash (tools.hash_token token) in
      let rows = w.db.verification_tokens in
      elim (Option-cases (first p rows)) [
        | inl n ↦ ground (arith, P.find_first_law p rows)
        | inr (t, f) ↦
            let there = count-pos_of_first p (has_token_id t.id) rows t f (==-refl t.id) in
            elim (Bool-cases (is_some t.consumed_at)) [
              | inl u ↦ ground (arith, P.find_first_law p rows)
              | inr u ↦ elim (Bool-cases (ltb t.expires_at w.now)) [
                | inl x ↦ ground (arith, P.find_first_law p rows)
                | inr x ↦
                    elim (Option-cases (first (has_account_id t.candidate_id) w.db.candidates)) [
                      | inl g ↦
                          rw f (ground (arith, P.find_first_law p rows, consume-none t w there g))
                      | inr (a, s) ↦ rw f (
                          ground (
                            arith,
                            P.find_first_law p rows,
                            consume-some t w a there s,
                            consume_answer t w a there s,
                            same_session t w a,
                          ))
                    ]
              ]
            ]
      ]

  pub verify_used :
      (token : String) (t : CandidateToken) (w : World)
      → first (has_token_hash (tools.hash_token token)) w.db.verification_tokens ≡ some t
      → is_some t.consumed_at ≡ true
      → verify tools token w ≡ (raised link_used, w)
  verify_used token t w f u = ground (arith, verify_outcome token w)
