-- ===== src/Gate/Structure.antt =====
-- A bulk submission, and the structure that submissions hang on, keep the gate.
use interview_insights.Prelude.{
  ℕ, String, ◌≡◌, refl, not, Option, none, some, is_some, inl, inr, Bool-cases, drop_where,
  count_where, List, ◌∷◌, arith, ◌==◌, ap, sym, ◌∙◌, if◌then◌else◌,
}
use interview_insights.Prisma.{Prisma}
use interview_insights.Schema.{
  EntityType, round_rating, RoundDto, InterviewProcess, Round, Recruiter, RecruiterInteraction, Db,
  RoundType, MetaValue,
}
use interview_insights.World.{
  World, Action, ok, raised, record_not_found, pure, raise_if, or_raise, gets, ◌>>=◌, ◌>>◌,
}
use interview_insights.World.Quiet.{IsQuiet, quiet_rules}
use interview_insights.Moderation.Entities.{status_of}
use interview_insights.Submissions.RoundTypes.{validate_type_metadata}
use interview_insights.Submissions.RoundTypes.Validation.{validate_type_metadata-eq}
use interview_insights.Submissions.Processes.{
  ProcessDto, IdentifierTools, assert_company_approved, insert_process, create_process,
  insert_round, create_round, find_process, delete_process, remove_process, has_any_content,
  insert_recruiter, existing_or_new, find_or_create, insert_interaction,
  process_not_yours_to_extend, process_not_yours_to_delete, process_has_content, is_recruiter_with,
  no_hash_secret,
}
use interview_insights.Gate.{IsGated, Grows, is_pending}
use interview_insights.Gate.Rules.{
  IsGated-Grows, Gated, Keeps, Guards, Keeps-quiet, Keeps-bind, Guards-Keeps,
}
use interview_insights.Gate.Fresh.{grown_once}

-- Writes to the tables that are not gated.
module _ (db : Db) (issued : List ℕ) (ps : List InterviewProcess) (rs : List Round)
    (is : List RecruiterInteraction) (cs : List Recruiter) where
  abbrev elsewhere : Db
  elsewhere = record db {
    processes = ps;
    rounds = rs;
    recruiter_interactions = is;
    recruiters = cs;
  }

  same_status_of : (t : EntityType) (id : ℕ) → status_of t id elsewhere ≡ status_of t id db
  unfolding status_of
  same_status_of round_rating id = refl
  same_status_of _ id = refl

  IsGated-elsewhere : IsGated db issued → IsGated elsewhere issued
  IsGated-elsewhere g = record {
    keyed = g.keyed;
    entries = g.entries;
    entities = λ t id h. g.entities t id (ap is_some (sym (same_status_of t id)) ∙ h);
    gate =
        λ t id. g.gate t id ∙ ap (λ o. if is_pending o then 1 else 0) (sym (same_status_of t id));
    reviews = g.reviews;
    processes = g.processes;
  }

module _ {A : Type 0} (m : Action A) where
  pub Guards-quiet : IsQuiet m → Guards m
  Guards-quiet q = Guards-Keeps m (Keeps-quiet m q)

module _ ⦃P : Prisma⦄ where
  moved :
      (w : World) (ps : List InterviewProcess) (rs : List Round) (is : List RecruiterInteraction)
      (cs : List Recruiter)
      → Gated w
      → IsGated (elsewhere w.db w.issued ps rs is cs) (P.uuid w.issued ∷ w.issued)
  moved w ps rs is cs g =
      IsGated-Grows (elsewhere w.db w.issued ps rs is cs) w.issued (P.uuid w.issued ∷ w.issued)
        (grown_once w.issued) (IsGated-elsewhere w.db w.issued ps rs is cs g)

  pub Keeps-insert_process :
      (company candidate : ℕ) (dto : ProcessDto) → Keeps (insert_process company candidate dto)
  unfolding insert_process
  Keeps-insert_process company candidate dto = record {
    at = λ w g. (
      moved w (insert_process company candidate dto w).1.db.processes w.db.rounds
          w.db.recruiter_interactions w.db.recruiters g,
      grown_once w.issued,
    );
  }

  pub Keeps-insert_round : (process : ℕ) (dto : RoundDto) → Keeps (insert_round process dto)
  unfolding insert_round
  Keeps-insert_round process dto = record {
    at = λ w g. (
      moved w w.db.processes (insert_round process dto w).1.db.rounds w.db.recruiter_interactions
          w.db.recruiters g,
      grown_once w.issued,
    );
  }

  pub Keeps-insert_interaction :
      (process recruiter : ℕ) → Keeps (insert_interaction process recruiter)
  unfolding insert_interaction
  Keeps-insert_interaction process recruiter = record {
    at = λ w g. (
      moved w w.db.processes w.db.rounds
          (insert_interaction process recruiter w).1.db.recruiter_interactions w.db.recruiters g,
      grown_once w.issued,
    );
  }

  Keeps-insert_recruiter : (company : ℕ) (hash : String) → Keeps (insert_recruiter company hash)
  unfolding insert_recruiter
  Keeps-insert_recruiter company hash = record {
    at = λ w g. (
      moved w w.db.processes w.db.rounds w.db.recruiter_interactions
          (insert_recruiter company hash w).1.db.recruiters g,
      grown_once w.issued,
    );
  }

  Keeps-existing_or_new :
      (company : ℕ) (hash : String) (o : Option Recruiter) → Keeps (existing_or_new company hash o)
  unfolding existing_or_new
  Keeps-existing_or_new company hash none = Keeps-insert_recruiter company hash
  Keeps-existing_or_new company hash (some r) = Keeps-quiet (pure r) (search quiet_rules)

  pub Keeps-find_or_create :
      (tools : IdentifierTools) (company : ℕ) (identifier : String)
      → Keeps (find_or_create tools company identifier)
  unfolding find_or_create
  Keeps-find_or_create tools company identifier =
      Keeps-bind
        (λ secret. do
          existing ← gets (λ w.
              P.find_first (is_recruiter_with company (tools.hash identifier secret))
                w.db.recruiters)
          existing_or_new company (tools.hash identifier secret) existing)
        (λ secret. record {
          at = λ w g.
              (Keeps-existing_or_new company (tools.hash identifier secret) (
                  P.find_first (is_recruiter_with company (tools.hash identifier secret))
                    w.db.recruiters)).at
                w g;
        })
        (or_raise tools.secret no_hash_secret)
        (Keeps-quiet (or_raise tools.secret no_hash_secret) (search quiet_rules))

  pub assert_company_approved-IsQuiet : (company : ℕ) → IsQuiet (assert_company_approved company)
  unfolding assert_company_approved
  assert_company_approved-IsQuiet company = search quiet_rules

  pub validate-IsQuiet :
      (t : RoundType) (m : Option (List (String × MetaValue)))
      → IsQuiet (validate_type_metadata t m)
  validate-IsQuiet t m = record {
    at = λ w.
        let e = (validate_type_metadata-eq t m w).1 in
        e ∙ ap (λ c. record w { calls = c }) (ap (λ v. v.calls) (sym e));
  }

  pub Keeps-create_process :
      (company candidate : ℕ) (dto : ProcessDto) → Keeps (create_process company candidate dto)
  unfolding create_process
  Keeps-create_process company candidate dto =
      Keeps-bind (λ _. insert_process company candidate dto)
        (λ _. Keeps-insert_process company candidate dto) (assert_company_approved company)
        (Keeps-quiet (assert_company_approved company) (assert_company_approved-IsQuiet company))

  find_process-IsQuiet : (id : ℕ) → IsQuiet (find_process id)
  unfolding find_process
  find_process-IsQuiet id = search quiet_rules

  pub Keeps-create_round :
      (process candidate : ℕ) (dto : RoundDto) → Keeps (create_round process candidate dto)
  unfolding create_round
  Keeps-create_round process candidate dto =
      Keeps-bind
        (λ p.
          raise_if (not (p.candidate_id == candidate)) process_not_yours_to_extend
          >> (validate_type_metadata dto.round_type dto.type_metadata >> insert_round process dto))
        (λ p.
          Keeps-bind
            (λ _.
              validate_type_metadata dto.round_type dto.type_metadata >> insert_round process dto)
            (λ _.
              Keeps-bind (λ _. insert_round process dto) (λ _. Keeps-insert_round process dto)
                (validate_type_metadata dto.round_type dto.type_metadata)
                (Keeps-quiet _ (validate-IsQuiet dto.round_type dto.type_metadata)))
            (raise_if (not (p.candidate_id == candidate)) process_not_yours_to_extend)
            (Keeps-quiet _ (search quiet_rules)))
        (find_process process) (Keeps-quiet (find_process process) (find_process-IsQuiet process))

  abbrev without_process : ℕ → World → World
  without_process id w = record w {
    db = record w.db {
      processes = drop_where (λ p. p.id == id) w.db.processes;
      rounds = drop_where (λ r. r.process_id == id) w.db.rounds;
      recruiter_interactions = drop_where (λ r. r.process_id == id) w.db.recruiter_interactions;
    };
  }

  delete_process-cases :
      (id : ℕ) (w : World)
      → delete_process id w ≡ (
          if count_where (λ p. p.id == id) w.db.processes == 0
          then (raised record_not_found, w)
          else (ok tt, without_process id w))
  unfolding delete_process
  delete_process-cases id w = ground (
    arith,
    P.delete_law (λ (p : InterviewProcess). p.id == id) w.db.processes,
    P.delete_many_law (λ (r : Round). r.process_id == id) w.db.rounds,
    P.delete_many_law (λ (r : RecruiterInteraction). r.process_id == id)
        w.db.recruiter_interactions,
  )

  delete_process_at :
      (id : ℕ) (w : World)
      → Gated w
      → let out = delete_process id w in Gated out.1 × Grows w.issued out.1.issued
  delete_process_at id w g = elim (Bool-cases (count_where (λ p. p.id == id) w.db.processes == 0)) [
    | inl z ↦ rw (delete_process-cases id w, z) (g, λ i h. h)
    | inr z ↦
        rw (delete_process-cases id w, z)
          (
            IsGated-elsewhere w.db w.issued (without_process id w).db.processes
                (without_process id w).db.rounds (without_process id w).db.recruiter_interactions
                w.db.recruiters g,
            λ i h. h,
          )
  ]

  pub Keeps-remove_process : (id candidate : ℕ) → Keeps (remove_process id candidate)
  unfolding remove_process
  Keeps-remove_process id candidate =
      Keeps-bind
        (λ p.
          raise_if (not (p.candidate_id == candidate)) process_not_yours_to_delete
          >> (gets (λ w. has_any_content id w.db) >>= λ full.
              raise_if full process_has_content >> delete_process id))
        (λ p.
          Keeps-bind
            (λ _. gets (λ w. has_any_content id w.db) >>= λ full.
              raise_if full process_has_content >> delete_process id)
            (λ _.
              Keeps-bind (λ full. raise_if full process_has_content >> delete_process id)
                (λ full.
                  Keeps-bind (λ _. delete_process id) (λ _. record { at = delete_process_at id })
                    (raise_if full process_has_content) (Keeps-quiet _ (search quiet_rules)))
                (gets (λ w. has_any_content id w.db)) (Keeps-quiet _ (search quiet_rules)))
            (raise_if (not (p.candidate_id == candidate)) process_not_yours_to_delete)
            (Keeps-quiet _ (search quiet_rules)))
        (find_process id) (Keeps-quiet (find_process id) (find_process-IsQuiet id))
