-- ===== src/Candidates/Forgotten.antt =====
-- A forgotten password: the request for a reset link, the reset, and the login that it leads to.
use interview_insights.Prelude.{
  ℕ, ◌+◌, ◌≤◌, String, ◌≡◌, refl, sym, true, not, ◌&&◌, none, some, is_some, subst, [], ◌∷◌, ◌++◌,
  first, first-append, first-change, change, count-eq-zero, ◌==◌, arith, str_eq-refl, Option-cases,
  inl, inr, if◌then◌else◌,
}
use interview_insights.Prisma.{Prisma}
use interview_insights.Schema.{CandidateAccount, CandidateToken}
use interview_insights.World.Calls.{deliver}
use interview_insights.World.{World, ok, raised, outage}
use interview_insights.World.Quiet.{with_calls}
use interview_insights.Candidates.{
  AccountTools, Session, has_email_hash, has_account_id, has_token_hash, is_outstanding_of,
  new_token, token_ttl_ms, consumed, link_to, reset_path, reset_subject, email_hash_of, issue_reset,
  send_reset, request_password_reset, confirm_password_reset, login,
}
use interview_insights.Candidates.Resets.{reset-login}

module _ ⦃P : Prisma⦄ (tools : AccountTools) (email key token : String) (w : World) where
  -- A new token violates no unique key.
  reset_free :
      (a : CandidateAccount)
      → first (has_token_hash (tools.hash_token token)) w.db.reset_tokens ≡ none
      → (P.count
            (has_token_hash (tools.hash_token token))
            (P.update_many (is_outstanding_of a.id) (consumed w.now) w.db.reset_tokens).1
          == 0)
        ≡ true
  reset_free a t =
      let p = has_token_hash (tools.hash_token token) in
      let rows = change (is_outstanding_of a.id) (consumed w.now) w.db.reset_tokens in
      ground (
        arith,
        P.update_many_law (is_outstanding_of a.id) (consumed w.now) w.db.reset_tokens,
        P.count_law p rows,
        count-eq-zero p rows,
        first-change p (is_outstanding_of a.id) (consumed w.now) w.db.reset_tokens (λ x. refl),
      )

  -- The answer to a request for a reset link, where the key of the environment is set and no other
  -- token has the hash of the new one: it fails where
  -- an account with the address exists and the mail is not taken, and succeeds in every other case.
  pub request_password_reset_answer :
      tools.hash_secret ≡ some key
      → first (has_token_hash (tools.hash_token token)) w.db.reset_tokens ≡ none
      → let known = is_some (first (has_email_hash (tools.hash_email email key)) w.db.candidates) in
        let taken = w.answers (deliver email reset_subject (link_to tools reset_path token)) in
        (request_password_reset tools email token w).0
        ≡ (if known && not taken then raised outage else ok tt)
  unfolding request_password_reset email_hash_of send_reset issue_reset
  request_password_reset_answer h t =
      elim (Option-cases (first (has_email_hash (tools.hash_email email key)) w.db.candidates)) [
        | inl n ↦
            ground (
              arith,
              P.find_first_law (has_email_hash (tools.hash_email email key)) w.db.candidates,
            )
        | inr (a, s) ↦ ground (
          arith,
          P.find_first_law (has_email_hash (tools.hash_email email key)) w.db.candidates,
          reset_free a t,
        )
      ]

  module _ (a : CandidateAccount) where
    abbrev fresh : CandidateToken
    fresh = new_token (P.uuid w.issued) a.id (tools.hash_token token) w.now

    -- The world after the request, but for the mail.
    abbrev requested : World
    requested = record w {
      db = record w.db {
        reset_tokens =
            change (is_outstanding_of a.id) (consumed w.now) w.db.reset_tokens ++ fresh ∷ [];
      };
      issued = P.uuid w.issued ∷ w.issued;
    }

    request_password_reset-eq :
        tools.hash_secret ≡ some key
        → first (has_email_hash (tools.hash_email email key)) w.db.candidates ≡ some a
        → first (has_token_hash (tools.hash_token token)) w.db.reset_tokens ≡ none
        → (request_password_reset tools email token w).1
          ≡ with_calls requested (request_password_reset tools email token w).1.calls
    unfolding request_password_reset email_hash_of send_reset issue_reset
    request_password_reset-eq h s n = ground (
      arith,
      reset_free a n,
      P.find_first_law (has_email_hash (tools.hash_email email key)) w.db.candidates,
      P.update_many_law (is_outstanding_of a.id) (consumed w.now) w.db.reset_tokens,
      P.create_law fresh (change (is_outstanding_of a.id) (consumed w.now) w.db.reset_tokens),
    )

    -- Whoever asks for a reset link and has an account gets back in: with the token of the link, at
    -- any time within its 15 minutes, a new password is set, and it logs in with the address, to the
    -- session that the reset answers with. The key of the environment is set, bcrypt accepts a
    -- password against its own hash, no other token has the hash of this one, and the account is the
    -- one with its id.
    pub forgot-login :
        (password : String) (later : ℕ)
        → tools.hash_secret ≡ some key
        → tools.compare_password password (tools.hash_password password) ≡ true
        → first (has_email_hash (tools.hash_email email key)) w.db.candidates ≡ some a
        → first (has_account_id a.id) w.db.candidates ≡ some a
        → first (has_token_hash (tools.hash_token token)) w.db.reset_tokens ≡ none
        → later ≤ w.now + token_ttl_ms
        → let v : World = record (request_password_reset tools email token w).1 { now = later } in
          let out = confirm_password_reset tools token password v in
          (s : Session) × (out.0 ≡ ok s) × ((login tools email password out.1).0 ≡ ok s)
    forgot-login password later h c e i n l =
        let p = has_token_hash (tools.hash_token token) in
        let q = is_outstanding_of a.id in
        let v : World =
          record (with_calls requested (request_password_reset tools email token w).1.calls) {
            now = later;
          } in
        subst
          (λ u.
            let out = confirm_password_reset tools token password (record u { now = later }) in
            (s : Session) × (out.0 ≡ ok s) × ((login tools email password out.1).0 ≡ ok s))
          (sym (request_password_reset-eq h e n))
          (reset-login tools token password v fresh a email key h c
            (ground (
              arith,
              first-append p (change q (consumed w.now) w.db.reset_tokens) fresh,
              first-change p q (consumed w.now) w.db.reset_tokens (λ x. refl),
              str_eq-refl (tools.hash_token token),
            ))
            refl (ground arith) i e)
