-- ===== src/Candidates/Resets.antt =====
-- The reset of a password: `confirmPasswordReset` of
-- api/src/candidate-auth/candidate-auth.service.ts, and the sessions from before it.
use interview_insights.Prelude.{
  ℕ, ◌≤◌, String, ◌≡◌, refl, true, false, some, is_some, ap, first, first-change, first-change_self,
  first_sound, change, count-eq-zero, count-pos_of_first, arith, ==-refl, ltb,
}
use interview_insights.Prisma.{Prisma}
use interview_insights.Schema.{CandidateAccount, CandidateToken, Db}
use interview_insights.World.{World, ok, raised}
use interview_insights.Candidates.{
  AccountTools, Session, session_of, has_email_hash, has_account_id, has_token_hash, has_token_id,
  with_reset_password, consumed, login, check_token, find_account, update_account, consume_reset,
  confirm_password_reset, validate_session, session_refused, reset_used,
}
use interview_insights.Candidates.Passwords.{login-eq}

module _ ⦃P : Prisma⦄ (tools : AccountTools) where
  confirm_used :
      (token password : String) (t : CandidateToken) (w : World)
      → first (has_token_hash (tools.hash_token token)) w.db.reset_tokens ≡ some t
      → is_some t.consumed_at ≡ true
      → confirm_password_reset tools token password w ≡ (raised reset_used, w)
  unfolding confirm_password_reset check_token
  confirm_used token password t w f c =
      ground (arith, P.find_first_law (has_token_hash (tools.hash_token token)) w.db.reset_tokens)

  module _ (token password : String) (w : World) (t : CandidateToken) (a : CandidateAccount) where
    -- The tables after a reset.
    abbrev reset_tables : Db
    reset_tables = record w.db {
      reset_tokens = change (has_token_id t.id) (consumed w.now) w.db.reset_tokens;
      candidates =
          change (has_account_id t.candidate_id)
            (with_reset_password (tools.hash_password password) w.now) w.db.candidates;
    }

    abbrev reset_account : CandidateAccount
    reset_account = with_reset_password (tools.hash_password password) w.now a

    confirm_password_reset-eq :
        first (has_token_hash (tools.hash_token token)) w.db.reset_tokens ≡ some t
        → is_some t.consumed_at ≡ false
        → ltb t.expires_at w.now ≡ false
        → first (has_account_id t.candidate_id) w.db.candidates ≡ some a
        → confirm_password_reset tools token password w
          ≡ (ok (session_of reset_account), record w { db = reset_tables })
    unfolding confirm_password_reset check_token consume_reset update_account find_account
    confirm_password_reset-eq f u x s = ground (
      arith,
      P.find_first_law (has_token_hash (tools.hash_token token)) w.db.reset_tokens,
      P.update_law (has_token_id t.id) (consumed w.now) w.db.reset_tokens,
      count-pos_of_first (has_token_hash (tools.hash_token token)) (has_token_id t.id)
          w.db.reset_tokens t f (==-refl t.id),
      P.update_law (has_account_id t.candidate_id)
          (with_reset_password (tools.hash_password password) w.now) w.db.candidates,
      count-eq-zero (has_account_id t.candidate_id) w.db.candidates,
      P.find_first_law (has_account_id t.candidate_id) reset_tables.candidates,
      first-change_self (has_account_id t.candidate_id)
          (with_reset_password (tools.hash_password password) w.now) w.db.candidates (λ x. refl),
    )

    -- A password reset with an unused link that has not expired, for the account that an address
    -- leads to, succeeds, and the new password logs in with that address: to the session that the
    -- reset answers with. The key of the environment is set, and bcrypt accepts a password against
    -- its own hash.
    pub reset-login :
        (email key : String)
        → tools.hash_secret ≡ some key
        → tools.compare_password password (tools.hash_password password) ≡ true
        → first (has_token_hash (tools.hash_token token)) w.db.reset_tokens ≡ some t
        → is_some t.consumed_at ≡ false
        → ltb t.expires_at w.now ≡ false
        → first (has_account_id t.candidate_id) w.db.candidates ≡ some a
        → first (has_email_hash (tools.hash_email email key)) w.db.candidates ≡ some a
        → let out = confirm_password_reset tools token password w in
          (s : Session) × (out.0 ≡ ok s) × ((login tools email password out.1).0 ≡ ok s)
    reset-login email key h c f u x s e = rw (confirm_password_reset-eq f u x s) (
      session_of reset_account,
      refl,
      ap (λ o. o.0)
          (login-eq tools key email password (tools.hash_password password) reset_account
            (record w { db = reset_tables }) h
            (ground (
              arith,
              first-change (has_email_hash (tools.hash_email email key))
                  (has_account_id t.candidate_id)
                  (with_reset_password (tools.hash_password password) w.now) w.db.candidates
                  (λ x. refl),
              first_sound (has_account_id t.candidate_id) w.db.candidates a s,
            ))
            refl c),
    )

    -- After a password reset with an unused link that has not expired, for an account that exists,
    -- every session of the account from before it is refused, and so is the link, at any later time
    -- and with any password: neither changes anything.
    pub reset_revokes :
        (s : Session) (later : ℕ) (other : String)
        → s.candidate_id ≡ t.candidate_id
        → s.token_version ≤ a.token_version
        → first (has_token_hash (tools.hash_token token)) w.db.reset_tokens ≡ some t
        → is_some t.consumed_at ≡ false
        → ltb t.expires_at w.now ≡ false
        → first (has_account_id t.candidate_id) w.db.candidates ≡ some a
        → let v : World = record (confirm_password_reset tools token password w).1 {
          now = later;
        } in
          (validate_session s v ≡ (raised session_refused, v))
          × (confirm_password_reset tools token other v ≡ (raised reset_used, v))
    unfolding validate_session
    reset_revokes s later other i o f u x g = rw (confirm_password_reset-eq f u x g) (
      ground (
        arith,
        P.find_first_law (has_account_id s.candidate_id) reset_tables.candidates,
        first-change_self (has_account_id t.candidate_id)
            (with_reset_password (tools.hash_password password) w.now) w.db.candidates (λ x. refl),
      ),
      confirm_used token other (consumed w.now t) (record w { db = reset_tables; now = later })
          (ground (
            arith,
            first-change (has_token_hash (tools.hash_token token)) (has_token_id t.id)
                (consumed w.now) w.db.reset_tokens (λ x. refl),
            ==-refl t.id,
          ))
          refl,
    )
