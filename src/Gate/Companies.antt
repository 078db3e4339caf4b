-- ===== src/Gate/Companies.antt =====
-- Requesting a company keeps the gate.
use interview_insights.Prelude.{
  ◌+◌, ◌*◌, ℕ, ◌≡◌, refl, inl, inr, true, false, Option, none, [], ◌∷◌, ◌++◌, count_where, arith,
  ◌==◌, Bool-cases,
}
use interview_insights.Prisma.{Prisma}
use interview_insights.Schema.{company, pending, Company, CompanyDto, QueueEntry}
use interview_insights.World.{World, Failure, ok, raised, unique_violation}
use interview_insights.Moderation.Queue.{
  get_moderation_sla_hours, new_entry, enqueue, compute_sla_deadline, create_entry,
}
use interview_insights.Moderation.Queue.Resubmission.{
  hours-cases, hours_refused-elsewhere, hours-elsewhere,
}
use interview_insights.Submissions.Companies.{holds_slug, insert_company}
use interview_insights.Gate.{Grows}
use interview_insights.Gate.Rules.{IsGated-Grows, Gated, Keeps}
use interview_insights.Gate.Steps.{IsGated-enqueued}
use interview_insights.Gate.Statuses.{Puts-company_added}
use interview_insights.Gate.Fresh.{
  grown_once, grown_twice, known_first, known_second, fresh_second, enqueued, unknown_company,
}

module _ ⦃P : Prisma⦄ (dto : CompanyDto) (candidate : Option ℕ) where
  abbrev new_company : World → Company
  new_company w = record {
    id = P.uuid w.issued;
    content = dto;
    status = pending;
    candidate_id = candidate;
    created_at = w.now;
  }

  abbrev new_company_entry : ℕ → World → QueueEntry
  new_company_entry h w =
      new_entry (P.uuid (P.uuid w.issued ∷ w.issued)) company (P.uuid w.issued) none
        (w.now + h * 60 * 60 * 1000) false w.now

  abbrev with_company : World → World
  with_company w = record w {
    db = record w.db { companies = w.db.companies ++ new_company w ∷ [] };
    issued = P.uuid w.issued ∷ w.issued;
  }

  abbrev after_company : ℕ → World → World
  after_company h w = record (with_company w) {
    db = record (with_company w).db { queue = w.db.queue ++ new_company_entry h w ∷ [] };
    issued = P.uuid (P.uuid w.issued ∷ w.issued) ∷ P.uuid w.issued ∷ w.issued;
  }

  insert_company-eq :
      (h : ℕ) (w : World)
      → (count_where (holds_slug dto.slug) w.db.companies == 0) ≡ true
      → get_moderation_sla_hours w ≡ (ok h, w)
      → insert_company dto candidate w ≡ (ok (new_company w), after_company h w)
  unfolding insert_company enqueue compute_sla_deadline create_entry
  insert_company-eq h w n e = ground (
    arith,
    P.count_law (holds_slug dto.slug) w.db.companies,
    P.create_law (new_company w) w.db.companies,
    hours-elsewhere h w (with_company w) refl e,
    P.create_law (new_company_entry h w) w.db.queue,
  )

  insert_company_taken :
      (w : World)
      → (count_where (holds_slug dto.slug) w.db.companies == 0) ≡ false
      → insert_company dto candidate w ≡ (raised unique_violation, w)
  unfolding insert_company
  insert_company_taken w n = ground (arith, P.count_law (holds_slug dto.slug) w.db.companies)

  insert_company_refused :
      (f : Failure) (w : World)
      → (count_where (holds_slug dto.slug) w.db.companies == 0) ≡ true
      → get_moderation_sla_hours w ≡ (raised f, w)
      → insert_company dto candidate w
        ≡ (raised f, record w { issued = P.uuid w.issued ∷ w.issued })
  unfolding insert_company enqueue compute_sla_deadline
  insert_company_refused f w n e = ground (
    arith,
    P.count_law (holds_slug dto.slug) w.db.companies,
    P.create_law (new_company w) w.db.companies,
    hours_refused-elsewhere f w (with_company w) refl e,
  )

  insert_company-Gated : (h : ℕ) (w : World) → Gated w → Gated (after_company h w)
  insert_company-Gated h w g =
      IsGated-enqueued company (P.uuid w.issued) w.db (after_company h w).db w.issued
        (after_company h w).issued (new_company_entry h w) g (grown_twice w.issued)
        (known_first w.issued) (fresh_second w.issued) (known_second w.issued) (refl, refl, refl)
        (enqueued company w.db w.issued (P.uuid w.issued) (new_company_entry h w) g
          (P.uuid_law w.issued))
        (Puts-company_added w.db (w.db.queue ++ new_company_entry h w ∷ []) (new_company w)
          (unknown_company w.db w.issued (P.uuid w.issued) g (P.uuid_law w.issued)) refl)
        g.reviews g.processes

  insert_company_at :
      (w : World)
      → Gated w
      → let out = insert_company dto candidate w in Gated out.1 × Grows w.issued out.1.issued
  insert_company_at w g =
      elim (Bool-cases (count_where (holds_slug dto.slug) w.db.companies == 0)) [
        | inr n ↦ rw (insert_company_taken w n) (g, λ id h. h)
        | inl n ↦ elim (hours-cases w) [
          | inl (h, e) ↦
              rw (insert_company-eq h w n e) (insert_company-Gated h w g, grown_twice w.issued)
          | inr (f, e) ↦ rw (insert_company_refused f w n e) (
            IsGated-Grows w.db w.issued (P.uuid w.issued ∷ w.issued) (grown_once w.issued) g,
            grown_once w.issued,
          )
        ]
      ]

  pub Keeps-insert_company : Keeps (insert_company dto candidate)
  Keeps-insert_company = record { at = insert_company_at }
