-- ===== src/Gate/Edits/Companies.antt =====
-- Editing a company keeps the gate.
use interview_insights.Prelude.{
  ℕ, ◌≡◌, refl, inl, inr, Bool, true, false, not, ◌&&◌, none, some, [], ◌∷◌, ◌++◌, first, change,
  drop_where, count_where, count-eq-zero, arith, ◌==◌, Bool-cases, Option-cases,
}
use interview_insights.Prisma.{Prisma}
use interview_insights.Schema.{company, pending, Company, Db}
use interview_insights.World.{World, Failure, ok, raised, record_not_found, unique_violation}
use interview_insights.Moderation.Queue.{get_moderation_sla_hours, is_unreviewed_for}
use interview_insights.Moderation.Queue.Resubmission.{
  reenqueue-eq, reenqueue_refused, resubmitted, hours-moved, hours-cases, hours_refused-elsewhere,
}
use interview_insights.Moderation.Entities.{status_of}
use interview_insights.Submissions.Companies.{
  UpdateCompanyDto, edited_company, holds_slug, edit_company,
}
use interview_insights.Gate.{Grows}
use interview_insights.Gate.Rules.{Gated, Keeps}
use interview_insights.Gate.Steps.{IsGated-enqueued}
use interview_insights.Gate.Statuses.{Puts-company_changed}
use interview_insights.Gate.Fresh.{grown_once, known_once}

module _ ⦃P : Prisma⦄ (id : ℕ) (dto : UpdateCompanyDto) where
  -- Another company that holds the slug.
  abbrev is_rival : Company → Company → Bool
  is_rival old c = holds_slug (edited_company dto old).content.slug c && not (c.id == id)

  abbrev edited_companies : World → Db
  edited_companies w = record w.db {
    companies = change (λ c. c.id == id) (edited_company dto) w.db.companies;
  }

  -- The world after the edit of a company.
  abbrev after_company_edit : ℕ → World → World
  after_company_edit h w = record w {
    db = record (edited_companies w) {
      queue =
          drop_where (is_unreviewed_for company id) w.db.queue
          ++ resubmitted company id h (record w { db = edited_companies w }) ∷ [];
    };
    issued = P.uuid w.issued ∷ w.issued;
  }

  edit_company-eq :
      (h : ℕ) (w : World) (c : Company)
      → (count_where (is_rival c) w.db.companies == 0) ≡ true
      → get_moderation_sla_hours w ≡ (ok h, w)
      → first (λ c. c.id == id) w.db.companies ≡ some c
      → edit_company id dto w ≡ (ok (edited_company dto c), after_company_edit h w)
  unfolding edit_company
  edit_company-eq h w c n e s = ground (
    arith,
    P.find_first_law (λ (c : Company). c.id == id) w.db.companies,
    P.count_law (is_rival c) w.db.companies,
    P.update_law (λ (c : Company). c.id == id) (edited_company dto) w.db.companies,
    count-eq-zero (λ (c : Company). c.id == id) w.db.companies,
    reenqueue-eq company id h (record w { db = edited_companies w })
        (hours-moved h w (edited_companies w) e),
  )

  edit_company_refused :
      (f : Failure) (w : World) (c : Company)
      → (count_where (is_rival c) w.db.companies == 0) ≡ true
      → get_moderation_sla_hours w ≡ (raised f, w)
      → first (λ c. c.id == id) w.db.companies ≡ some c
      → edit_company id dto w ≡ (raised f, w)
  unfolding edit_company
  edit_company_refused f w c n e s = ground (
    arith,
    P.find_first_law (λ (c : Company). c.id == id) w.db.companies,
    P.count_law (is_rival c) w.db.companies,
    P.update_law (λ (c : Company). c.id == id) (edited_company dto) w.db.companies,
    count-eq-zero (λ (c : Company). c.id == id) w.db.companies,
    reenqueue_refused company id f (record w { db = edited_companies w })
        (hours_refused-elsewhere f w (record w { db = edited_companies w }) refl e),
  )

  edit_company_taken :
      (w : World) (c : Company)
      → (count_where (is_rival c) w.db.companies == 0) ≡ false
      → first (λ c. c.id == id) w.db.companies ≡ some c
      → edit_company id dto w ≡ (raised unique_violation, w)
  unfolding edit_company
  edit_company_taken w c n s = ground (
    arith,
    P.find_first_law (λ (c : Company). c.id == id) w.db.companies,
    P.count_law (is_rival c) w.db.companies,
  )

  edit_company_missing :
      (w : World)
      → first (λ c. c.id == id) w.db.companies ≡ none
      → edit_company id dto w ≡ (raised record_not_found, w)
  unfolding edit_company
  edit_company_missing w n =
      ground (arith, P.find_first_law (λ (c : Company). c.id == id) w.db.companies)

  company_edit-Gated :
      (h : ℕ) (w : World) (c : Company)
      → first (λ c. c.id == id) w.db.companies ≡ some c
      → Gated w
      → Gated (after_company_edit h w)
  unfolding status_of
  company_edit-Gated h w c s g =
      IsGated-enqueued company id w.db (after_company_edit h w).db w.issued
        (after_company_edit h w).issued
        (resubmitted company id h (record w { db = edited_companies w })) g (grown_once w.issued)
        (grown_once w.issued id (g.entities company id (ground arith))) (P.uuid_law w.issued)
        (known_once w.issued) (refl, refl, refl) refl
        (Puts-company_changed w.db (after_company_edit h w).db.queue id (edited_company dto) pending
          c s (λ x. refl) (λ x. refl))
        g.reviews g.processes

  edit_company_at :
      (w : World)
      → Gated w
      → let out = edit_company id dto w in Gated out.1 × Grows w.issued out.1.issued
  edit_company_at w g = elim (Option-cases (first (λ c. c.id == id) w.db.companies)) [
    | inl n ↦ rw (edit_company_missing w n) (g, λ i h. h)
    | inr (c, s) ↦ elim (Bool-cases (count_where (is_rival c) w.db.companies == 0)) [
      | inr n ↦ rw (edit_company_taken w c n s) (g, λ i h. h)
      | inl n ↦ elim (hours-cases w) [
        | inl (h, e) ↦
            rw (edit_company-eq h w c n e s) (company_edit-Gated h w c s g, grown_once w.issued)
        | inr (f, e) ↦ rw (edit_company_refused f w c n e s) (g, λ i h. h)
      ]
    ]
  ]

  pub Keeps-edit_company : Keeps (edit_company id dto)
  Keeps-edit_company = record { at = edit_company_at }
