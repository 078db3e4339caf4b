-- ===== src/Candidates/Passwords.antt =====
-- Registration and the login by a password: `register` and `login` of
-- api/src/candidate-auth/candidate-auth.service.ts.
use interview_insights.Prelude.{
  ℕ, String, ◌≡◌, refl, inl, inr, true, Option, none, some, ap, ◌∙◌, List, ◌∷◌, first, first-append,
  first-change_self, count-eq-zero, arith, str_eq-refl, Option-cases, Bool-cases, ◌==◌,
}
use interview_insights.Prisma.{Prisma}
use interview_insights.Schema.{CandidateAccount}
use interview_insights.World.{World, ok}
use interview_insights.Candidates.{
  AccountTools, Session, session_of, has_email_hash, has_token_hash, is_outstanding_of, consumed,
  new_account, with_new_password, with_encrypted, password_of, email_hash_of, encrypted_of,
  upsert_account, issue_verification, issue_and_send_verification, verify_link, register, login,
  check_password,
}

-- The row after a registration, by the one that there was.
abbrev pub registered :
    String → String → String → ℕ → ℕ → Option CandidateAccount → CandidateAccount
registered hash encrypted password id now none =
    with_new_password password now (new_account id hash encrypted now)
registered hash encrypted password id now (some a) =
    with_new_password password now (with_encrypted encrypted a)

module _ ⦃P : Prisma⦄ (tools : AccountTools) where
  upsert-found :
      (hash encrypted password : String) (id now : ℕ) (rows : List CandidateAccount)
      → first (has_email_hash hash) (
          P.upsert
            (has_email_hash hash)
            (registered hash encrypted password id now none)
            (λ a. registered hash encrypted password id now (some a))
            rows)
        ≡ some (registered hash encrypted password id now (first (has_email_hash hash) rows))
  upsert-found hash encrypted password id now rows =
      elim (Option-cases (first (has_email_hash hash) rows)) [
        | inl n ↦ ground (
          arith,
          P.upsert_law (has_email_hash hash) (registered hash encrypted password id now none)
              (λ a. registered hash encrypted password id now (some a)) rows,
          count-eq-zero (has_email_hash hash) rows,
          first-append (has_email_hash hash) rows (registered hash encrypted password id now none),
          str_eq-refl hash,
        )
        | inr (a, s) ↦ ground (
          arith,
          P.upsert_law (has_email_hash hash) (registered hash encrypted password id now none)
              (λ a. registered hash encrypted password id now (some a)) rows,
          count-eq-zero (has_email_hash hash) rows,
          first-change_self (has_email_hash hash)
              (λ a. registered hash encrypted password id now (some a)) rows (λ x. refl),
        )
      ]

  issue-candidates :
      (candidate : ℕ) (email token : String) (w : World)
      → (issue_and_send_verification tools candidate email verify_link token w).1.db.candidates
        ≡ w.db.candidates
  unfolding issue_and_send_verification issue_verification
  issue-candidates candidate email token w =
      elim (Bool-cases (
        P.count (has_token_hash (tools.hash_token token))
          (P.update_many (is_outstanding_of candidate) (consumed w.now) w.db.verification_tokens).1
        == 0)) [ inl y ↦ ground (arith, y) | inr n ↦ ground (arith, n) ]

  registered-password :
      (hash encrypted password : String) (id now : ℕ) (o : Option CandidateAccount)
      → (registered hash encrypted password id now o).password_hash ≡ some password
  registered-password hash encrypted password id now none = refl
  registered-password hash encrypted password id now (some a) = refl

  -- The row that a registration leaves, the table with it, and the world before the mail.
  abbrev row_for : String → String → String → World → CandidateAccount
  row_for hash encrypted hashed w =
      registered hash encrypted hashed (P.uuid w.issued) w.now
        (first (has_email_hash hash) w.db.candidates)

  abbrev rows_for : String → String → String → World → List CandidateAccount
  rows_for hash encrypted hashed w =
      P.upsert (has_email_hash hash) (registered hash encrypted hashed (P.uuid w.issued) w.now none)
        (λ a. registered hash encrypted hashed (P.uuid w.issued) w.now (some a)) w.db.candidates

  abbrev with_rows : String → String → String → World → World
  with_rows hash encrypted hashed w = record w {
    db = record w.db { candidates = rows_for hash encrypted hashed w };
    issued = P.uuid w.issued ∷ w.issued;
  }

  register-eq :
      (key encryption_key email password token : String) (w : World)
      → tools.hash_secret ≡ some key
      → tools.encryption_key ≡ some encryption_key
      → password_of (first (has_email_hash (tools.hash_email email key)) w.db.candidates) ≡ none
      → let hash = tools.hash_email email key in
        let encrypted = tools.encrypt_email email encryption_key in
        let row = row_for hash encrypted (tools.hash_password password) w in
        register tools email password token w ≡ (
          ok (session_of row),
          (issue_and_send_verification tools row.id email verify_link token
              (with_rows hash encrypted (tools.hash_password password) w)).1,
        )
  unfolding register email_hash_of encrypted_of upsert_account
  register-eq key encryption_key email password token w h k n =
      let hash = tools.hash_email email key in
      let encrypted = tools.encrypt_email email encryption_key in
      let hashed = tools.hash_password password in
      ground (
        arith,
        P.find_first_law (has_email_hash hash) w.db.candidates,
        P.find_first_law (has_email_hash hash) (rows_for hash encrypted hashed w),
        upsert-found hash encrypted hashed (P.uuid w.issued) w.now w.db.candidates,
      )

  pub login-eq :
      (key email password hashed : String) (a : CandidateAccount) (w : World)
      → tools.hash_secret ≡ some key
      → first (has_email_hash (tools.hash_email email key)) w.db.candidates ≡ some a
      → a.password_hash ≡ some hashed
      → tools.compare_password password hashed ≡ true
      → login tools email password w ≡ (ok (session_of a), w)
  unfolding login email_hash_of check_password
  login-eq key email password hashed a w h f e c =
      ground (arith, P.find_first_law (has_email_hash (tools.hash_email email key)) w.db.candidates)

  -- Where the keys of the environment are set, and where bcrypt accepts a password against its own
  -- hash, registering an address that has no password yet succeeds, whether or not the mail is sent,
  -- and the password logs in: to the same session.
  pub register-login :
      (key encryption_key email password token : String) (w : World)
      → tools.hash_secret ≡ some key
      → tools.encryption_key ≡ some encryption_key
      → tools.compare_password password (tools.hash_password password) ≡ true
      → password_of (first (has_email_hash (tools.hash_email email key)) w.db.candidates) ≡ none
      → let out = register tools email password token w in
        (s : Session) × (out.0 ≡ ok s) × ((login tools email password out.1).0 ≡ ok s)
  register-login key encryption_key email password token w h k c n =
      let hash = tools.hash_email email key in
      let encrypted = tools.encrypt_email email encryption_key in
      let hashed = tools.hash_password password in
      let row = row_for hash encrypted hashed w in
      let v =
        (issue_and_send_verification tools row.id email verify_link token
          (with_rows hash encrypted hashed w)).1 in
      rw (register-eq key encryption_key email password token w h k n) (
        session_of row,
        refl,
        ap (λ o. o.0)
            (login-eq key email password hashed row v h
              (ap (first (has_email_hash hash))
                  (issue-candidates row.id email token (with_rows hash encrypted hashed w))
                ∙ upsert-found hash encrypted hashed (P.uuid w.issued) w.now w.db.candidates)
              (registered-password hash encrypted hashed (P.uuid w.issued) w.now
                (first (has_email_hash hash) w.db.candidates))
              c),
      )
