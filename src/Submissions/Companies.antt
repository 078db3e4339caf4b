-- ===== src/Submissions/Companies.antt =====
-- api/src/companies/companies.service.ts: the requests for a company. A slug is unique among the
-- pending and the approved companies (the index companies_slug_pending_approved_key).
use interview_insights.Prelude.{
  ℕ, String, Bool, false, not, ◌&&◌, ◌||◌, Option, none, some, is_some, ◌==◌, str_eq,
}
use interview_insights.Prisma.{Prisma}
use interview_insights.Schema.{company, pending, approved, same_status, Company, CompanyDto}
use interview_insights.World.{
  Action, Failure, conflict, forbidden, record_not_found, unique_violation, pure, raise_if,
  or_raise, gets, put_db, transaction, draw_id, ◌>>=◌, ◌>>◌,
}
use interview_insights.Moderation.Queue.{enqueue, reenqueue}
use interview_insights.Moderation.Lookups.{company_row}
use interview_insights.Moderation.Publishing.{publish_created_event}
use interview_insights.Moderation.Indexing.{index_for_search}
use interview_insights.Moderation.Review.{or_keep}

abbrev pub already_requested : Failure
already_requested =
    conflict
      "This company has already been requested and is pending review — please check back later."

abbrev pub company_not_yours : Failure
company_not_yours = forbidden "You can only edit your own company request."

abbrev pub company_approved : Failure
company_approved = forbidden "An approved company can no longer be edited."

-- UpdateCompanyDto
pub record UpdateCompanyDto : Type 0 where
  pub name : Option String
  pub slug : Option String
  pub industry : Option String
  pub size_bucket : Option String
  pub logo_url : Option String

-- A key that is not in the dto leaves the column as it is.
abbrev pub or_the : Option String → String → String
or_the none old = old
or_the (some new) old = new

-- data: { ...dto, status: 'pending' }
abbrev pub edited_company : UpdateCompanyDto → Company → Company
edited_company dto c = record c {
  content = record {
    name = or_the dto.name c.content.name;
    slug = or_the dto.slug c.content.slug;
    industry = or_keep dto.industry c.content.industry;
    size_bucket = or_the dto.size_bucket c.content.size_bucket;
    logo_url = or_keep dto.logo_url c.content.logo_url;
  };
  status = pending;
}

-- where: { slug, status: 'pending' }
abbrev pub is_pending_slug : String → Company → Bool
is_pending_slug slug c = str_eq c.content.slug slug && same_status c.status pending

-- The rows that the unique index constrains.
abbrev pub holds_slug : String → Company → Bool
holds_slug slug c =
    str_eq c.content.slug slug && (same_status c.status pending || same_status c.status approved)

-- `company.candidateId === candidateId`
abbrev pub is_requester : ℕ → Option ℕ → Bool
is_requester candidate none = false
is_requester candidate (some id) = id == candidate

module _ ⦃P : Prisma⦄ where
  -- The transaction of a request.
  unfoldable pub insert_company : CompanyDto → Option ℕ → Action Company
  insert_company dto candidate = transaction do
    taken ← gets (λ w. P.count (holds_slug dto.slug) w.db.companies)
    raise_if (not (taken == 0)) unique_violation
    id ← draw_id
    now ← gets (λ w. w.now)
    db ← gets (λ w. w.db)
    let row : Company = record {
      id = id;
      content = dto;
      status = pending;
      candidate_id = candidate;
      created_at = now;
    }
    put_db (record db { companies = P.create row db.companies })
    enqueue company id none
    pure row

  unfoldable pub create_company : CompanyDto → Option ℕ → Action Company
  create_company dto candidate = do
    duplicate ← gets (λ w. P.find_first (is_pending_slug dto.slug) w.db.companies)
    raise_if (is_some duplicate) already_requested
    c ← insert_company dto candidate
    index_for_search company c.id
    publish_created_event company c.id none
    pure c

  -- The transaction of an edit. Another row that holds the new slug violates the index.
  unfoldable pub edit_company : ℕ → UpdateCompanyDto → Action Company
  edit_company id dto = transaction do
    found ← gets (company_row id)
    old ← or_raise found record_not_found
    taken ← gets (λ w.
        P.count (λ c. holds_slug (edited_company dto old).content.slug c && not (c.id == id))
          w.db.companies)
    raise_if (not (taken == 0)) unique_violation
    db ← gets (λ w. w.db)
    rows ← or_raise (P.update (λ c. c.id == id) (edited_company dto) db.companies) record_not_found
    put_db (record db { companies = rows })
    reenqueue company id
    pure (edited_company dto old)

  unfoldable pub update_company : ℕ → ℕ → UpdateCompanyDto → Action Company
  update_company id candidate dto = do
    found ← gets (company_row id)
    c ← or_raise found record_not_found
    raise_if (not (is_requester candidate c.candidate_id)) company_not_yours
    raise_if (same_status c.status approved) company_approved
    updated ← edit_company id dto
    index_for_search company id
    pure updated
