-- ===== src/Candidates/Requested.antt =====
-- The request for a login link and its use: `requestLink` and `verify` of
-- api/src/candidate-auth/candidate-auth.service.ts.
use interview_insights.Prelude.{
  ℕ, ◌+◌, ◌≤◌, String, ◌≡◌, refl, sym, Option, none, some, ap, subst, ◌∙◌, [], ◌∷◌, ◌++◌, first,
  first-append, first-change, first-change_self, change, changed, count-eq-zero, arith, ==-refl,
  str_eq-refl,
}
use interview_insights.Prisma.{Prisma}
use interview_insights.Schema.{CandidateAccount, CandidateToken}
use interview_insights.World.{World, ok, raised}
use interview_insights.World.Quiet.{with_calls}
use interview_insights.Candidates.{
  AccountTools, Session, session_of, has_email_hash, has_account_id, has_token_hash, has_token_id,
  is_outstanding_of, new_account, with_encrypted, new_token, token_ttl_ms, consumed,
  issue_verification, issue_and_send_verification, email_hash_of, encrypted_of, upsert_account,
  create_candidate, request_link, verify, link_used,
}
use interview_insights.Candidates.Links.{
  login_spec, logged_in, account_of, verify_outcome, verify_used,
}

-- A login that succeeds has used its token up.
spec_succeeded :
    (o : Option CandidateToken) (c : Option CandidateAccount) (w : World) (s : Session)
    → (login_spec o c w).0 ≡ ok s
    → (t : CandidateToken) × (a : CandidateAccount) × (o ≡ some t)
      × ((login_spec o c w).1 ≡ record w { db = logged_in t a w })
spec_succeeded none c w s h = absurd (ground arith)
spec_succeeded (some t) none w s h = absurd (ground arith)
spec_succeeded (some t) (some a) w s h = (t, a, refl, ground arith)

module _ ⦃P : Prisma⦄ (tools : AccountTools) where
  -- A link that has logged in is refused at any later time, and nothing changes.
  pub verify_twice :
      (token : String) (w : World) (s : Session) (later : ℕ)
      → (verify tools token w).0 ≡ ok s
      → let v : World = record (verify tools token w).1 { now = later } in
        verify tools token v ≡ (raised link_used, v)
  verify_twice token w s later h =
      let p = has_token_hash (tools.hash_token token) in
      let rows = w.db.verification_tokens in
      let out = verify_outcome tools token w in
      let (t, a, f, e) =
        spec_succeeded (first p rows) (account_of (first p rows) w) w s
          (sym (ap (λ o. o.0) out) ∙ h) in
      let after = ap (λ o. o.1) out ∙ e in
      subst
        (λ u.
          let v : World = record u { now = later } in verify tools token v ≡ (raised link_used, v))
        (sym after)
        (verify_used tools token (consumed w.now t) (record w { db = logged_in t a w; now = later })
          (ground (
            arith,
            first-change p (has_token_id t.id) (consumed w.now) rows (λ x. refl),
            ==-refl t.id,
          ))
          refl)

  -- The world after a link has been requested for an account that exists.
  module _ (key encryption_key email token : String) (w : World) (a : CandidateAccount) where
    abbrev requested : World
    requested = record w {
      db = record w.db {
        candidates =
            change (has_email_hash (tools.hash_email email key))
              (with_encrypted (tools.encrypt_email email encryption_key)) w.db.candidates;
        verification_tokens =
            change (is_outstanding_of a.id) (consumed w.now) w.db.verification_tokens
            ++ new_token (P.uuid (P.uuid w.issued ∷ w.issued)) a.id (tools.hash_token token) w.now
              ∷ [];
      };
      issued = P.uuid (P.uuid w.issued ∷ w.issued) ∷ P.uuid w.issued ∷ w.issued;
    }

    request_link-eq :
        tools.hash_secret ≡ some key
        → tools.encryption_key ≡ some encryption_key
        → first (has_email_hash (tools.hash_email email key)) w.db.candidates ≡ some a
        → first (has_token_hash (tools.hash_token token)) w.db.verification_tokens ≡ none
        → (request_link tools email token w).1
          ≡ with_calls requested (request_link tools email token w).1.calls
    unfolding request_link create_candidate email_hash_of encrypted_of upsert_account
        issue_and_send_verification issue_verification
    request_link-eq h k s n =
        let p = has_email_hash (tools.hash_email email key) in
        let f = with_encrypted (tools.encrypt_email email encryption_key) in
        let r = has_token_hash (tools.hash_token token) in
        ground (
          arith,
          P.upsert_law p
              (new_account (P.uuid w.issued) (tools.hash_email email key)
                (tools.encrypt_email email encryption_key) w.now)
              f w.db.candidates,
          count-eq-zero p w.db.candidates,
          P.find_first_law p (change p f w.db.candidates),
          first-change_self p f w.db.candidates (λ x. refl),
          P.update_many_law (is_outstanding_of a.id) (consumed w.now) w.db.verification_tokens,
          P.count_law r (change (is_outstanding_of a.id) (consumed w.now) w.db.verification_tokens),
          count-eq-zero r
              (change (is_outstanding_of a.id) (consumed w.now) w.db.verification_tokens),
          first-change r (is_outstanding_of a.id) (consumed w.now) w.db.verification_tokens
              (λ x. refl),
          P.create_law
              (new_token (P.uuid (P.uuid w.issued ∷ w.issued)) a.id (tools.hash_token token) w.now)
              (change (is_outstanding_of a.id) (consumed w.now) w.db.verification_tokens),
        )

    -- Requesting a link for an account that exists ends every link of that account from before: it is
    -- refused as used, at any later time, where no other token has the hash of the new one. The keys of
    -- the environment are set.
    pub request_link_supersedes :
        (old : String) (t : CandidateToken) (later : ℕ)
        → tools.hash_secret ≡ some key
        → tools.encryption_key ≡ some encryption_key
        → first (has_email_hash (tools.hash_email email key)) w.db.candidates ≡ some a
        → first (has_token_hash (tools.hash_token token)) w.db.verification_tokens ≡ none
        → first (has_token_hash (tools.hash_token old)) w.db.verification_tokens ≡ some t
        → t.candidate_id ≡ a.id
        → let v : World = record (request_link tools email token w).1 { now = later } in
          verify tools old v ≡ (raised link_used, v)
    request_link_supersedes old t later h k s n f i =
        let p = has_token_hash (tools.hash_token old) in
        let q = is_outstanding_of a.id in
        let fresh =
          new_token (P.uuid (P.uuid w.issued ∷ w.issued)) a.id (tools.hash_token token) w.now in
        let v : World = record (with_calls requested (request_link tools email token w).1.calls) {
          now = later;
        } in
        subst
          (λ u.
            let x : World = record u { now = later } in verify tools old x ≡ (raised link_used, x))
          (sym (request_link-eq h k s n))
          (verify_used tools old (changed q (consumed w.now) t) v
            (ground (
              arith,
              first-append p (change q (consumed w.now) w.db.verification_tokens) fresh,
              first-change p q (consumed w.now) w.db.verification_tokens (λ x. refl),
            ))
            (ground (arith, ==-refl a.id)))

    -- A link that is requested for an account that exists logs in until its 15 minutes are over: the
    -- answer is the account's session. The keys of the environment are set, no other token has the
    -- hash of this one, and the account is the one with its id.
    pub request_link-verify :
        (later : ℕ)
        → tools.hash_secret ≡ some key
        → tools.encryption_key ≡ some encryption_key
        → first (has_email_hash (tools.hash_email email key)) w.db.candidates ≡ some a
        → first (has_account_id a.id) w.db.candidates ≡ some a
        → first (has_token_hash (tools.hash_token token)) w.db.verification_tokens ≡ none
        → later ≤ w.now + token_ttl_ms
        → (verify tools token (record (request_link tools email token w).1 { now = later })).0
          ≡ ok (session_of a)
    request_link-verify later h k s g n l =
        let p = has_token_hash (tools.hash_token token) in
        let q = is_outstanding_of a.id in
        let e = has_email_hash (tools.hash_email email key) in
        let f = with_encrypted (tools.encrypt_email email encryption_key) in
        let fresh =
          new_token (P.uuid (P.uuid w.issued ∷ w.issued)) a.id (tools.hash_token token) w.now in
        let v : World = record (with_calls requested (request_link tools email token w).1.calls) {
          now = later;
        } in
        subst (λ u. (verify tools token (record u { now = later })).0 ≡ ok (session_of a))
          (sym (request_link-eq h k s n))
          (ground (
            arith,
            verify_outcome tools token v,
            first-append p (change q (consumed w.now) w.db.verification_tokens) fresh,
            first-change p q (consumed w.now) w.db.verification_tokens (λ x. refl),
            str_eq-refl (tools.hash_token token),
            first-change (has_account_id a.id) e f w.db.candidates (λ x. refl),
          ))
