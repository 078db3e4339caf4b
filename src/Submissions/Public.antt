-- ===== src/Submissions/Public.antt =====
-- What anyone may read: the public reads of api/src/companies/companies.service.ts and of the
-- services of the ratings and reviews. The two raw queries of findApprovedReviews are written as what
-- they mean over the joined tables. A page is numbered from 1, as the routes check.
pub mod Shuffle
pub mod Approved
pub mod Reviews
use interview_insights.Prelude.{
  ℕ, zero, suc, ◌-◌, ◌*◌, String, Bool, true, ◌&&◌, Option, none, some, List, [], ◌∷◌, ◌++◌, map,
  length, keep, take, drop, get_elem?, set, contains, drop_where, ◌==◌, str_eq, if◌then◌else◌,
}
use Prim.Native.Nat.{max}
use interview_insights.Prisma.{Prisma}
use interview_insights.Schema.{
  approved, same_status, RoundType, RoundRating, RoundRatingDto, RecruiterRating, OverallReview,
  Company, Round, InterviewProcess, Db,
}
use interview_insights.World.{World, Action, record_not_found, pure, or_raise, gets, ◌>>=◌, ◌>>◌}

-- where: { status: 'approved' }
abbrev pub is_approved_company : Company → Bool
is_approved_company c = same_status c.status approved

pub record Page (A : Type 0) : Type 0 where
  pub items : List A
  pub total : ℕ
  pub page : ℕ
  pub page_size : ℕ

-- `[items[i], items[j]] = [items[j], items[i]]`; both are in range wherever it is done.
abbrev pub swap_found : {A : Type 0} → List A → ℕ → ℕ → Option A → Option A → List A
swap_found items i j (some a) (some b) = set (set items i b) j a
swap_found items i j _ _ = items

unfoldable pub swap : {A : Type 0} → List A → ℕ → ℕ → List A
swap items i j = swap_found items i j (get_elem? items i) (get_elem? items j)

-- The loop from i down to 1. `pick i` is the random number that it draws at i.
unfoldable pub shuffle_from : {A : Type 0} → (ℕ → ℕ) → ℕ → List A → List A
unfolding swap
shuffle_from pick zero items = items
shuffle_from pick (suc i) items = shuffle_from pick i (swap items (suc i) (pick (suc i)))

unfoldable pub shuffle : {A : Type 0} → (ℕ → ℕ) → List A → List A
unfolding shuffle_from
shuffle pick items = shuffle_from pick (length items - 1) items

-- A rating with its round and its process.
pub record Joined : Type 0 where
  pub rating : RoundRating
  pub round : Round
  pub process : InterviewProcess

abbrev pub join_one :
    RoundRating → Option Round → Option InterviewProcess → List Joined → List Joined
join_one r (some round) (some process) rest =
    record { rating = r; round = round; process = process } ∷ rest
join_one r _ _ rest = rest

-- An entry of a submission on a company's page.
pub record ReviewEntry : Type 0 where
  pub id : ℕ
  pub created_at : ℕ
  pub round_title : Option String
  pub round_type : RoundType
  pub content : RoundRatingDto

pub record ReviewGroup : Type 0 where
  pub process_id : ℕ
  pub role_title : String
  pub entries : List ReviewEntry

abbrev pub entry_of_joined : Joined → ReviewEntry
entry_of_joined j = record {
  id = j.rating.id;
  created_at = j.rating.created_at;
  round_title = j.round.content.title;
  round_type = j.round.content.round_type;
  content = j.rating.content;
}

-- `groupsByProcess.get(id)`
unfoldable pub find_group : ℕ → List ReviewGroup → Option ReviewGroup
find_group id [] = none
find_group id (g ∷ rest) = if g.process_id == id then some g else find_group id rest

-- The body of the loop over the ratings: the entry is pushed to its group, which is made where it is
-- the first one.
unfoldable pub push_entry : Joined → List ReviewGroup → List ReviewGroup
push_entry j [] =
    record {
      process_id = j.round.process_id;
      role_title = j.process.role_title;
      entries = entry_of_joined j ∷ [];
    }
    ∷ []
push_entry j (g ∷ rest) =
    if g.process_id == j.round.process_id
    then record g { entries = g.entries ++ entry_of_joined j ∷ [] } ∷ rest
    else g ∷ push_entry j rest

unfoldable pub group_by_process : List ReviewGroup → List Joined → List ReviewGroup
unfolding push_entry
group_by_process groups [] = groups
group_by_process groups (j ∷ rest) = group_by_process (push_entry j groups) rest

-- `.map((id) => groupsByProcess.get(id)).filter((group) => group !== undefined)`
abbrev pub with_found : Option ReviewGroup → List ReviewGroup → List ReviewGroup
with_found none rest = rest
with_found (some g) rest = g ∷ rest

unfoldable pub groups_in_order : List ℕ → List ReviewGroup → List ReviewGroup
unfolding find_group
groups_in_order [] groups = []
groups_in_order (id ∷ rest) groups = with_found (find_group id groups) (groups_in_order rest groups)

-- GROUP BY r."process_id": each id once.
unfoldable pub distinct : List ℕ → List ℕ
distinct [] = []
distinct (id ∷ rest) = id ∷ drop_where (λ x. x == id) (distinct rest)

-- MAX(rr."created_at")
unfoldable pub max_of : List ℕ → ℕ
max_of [] = 0
max_of (x ∷ xs) = max x (max_of xs)

-- WHERE ip."company_id" = … AND rr."status" = 'approved'
abbrev pub is_public_of : ℕ → Joined → Bool
is_public_of company j = j.process.company_id == company && same_status j.rating.status approved

-- where: { status: 'approved', round: { processId: { in: processIds } } }
abbrev pub is_public_among : List ℕ → Joined → Bool
is_public_among ids j = same_status j.rating.status approved && contains j.round.process_id ids

module _ ⦃P : Prisma⦄ where
  unfoldable pub find_all : ℕ → ℕ → World → Page Company
  find_all page page_size w = record {
    items = take page_size (
        drop ((page - 1) * page_size) (
          P.find_ordered ((page - 1) * page_size) is_approved_company (λ c. c.created_at)
            w.db.companies));
    total = P.count is_approved_company w.db.companies;
    page = page;
    page_size = page_size;
  }

  unfoldable pub find_top : (ℕ → ℕ) → ℕ → World → List Company
  unfolding shuffle
  find_top pick limit w = take limit (shuffle pick (P.find_many is_approved_company w.db.companies))

  unfoldable pub find_one : ℕ → Action Company
  find_one id = do
    found ← gets (λ w. P.find_first (λ c. c.id == id && is_approved_company c) w.db.companies)
    or_raise found record_not_found

  unfoldable pub find_by_slug : String → Action Company
  find_by_slug slug = do
    found ← gets (λ w.
        P.find_first (λ c. str_eq c.content.slug slug && is_approved_company c) w.db.companies)
    or_raise found record_not_found

  unfoldable pub find_approved_for_round : ℕ → World → List RoundRating
  find_approved_for_round round w =
      P.find_ordered 0 (λ r. r.round_id == round && same_status r.status approved)
        (λ r. r.created_at) w.db.round_ratings

  unfoldable pub find_approved_for_interaction : ℕ → World → List RecruiterRating
  find_approved_for_interaction interaction w =
      P.find_ordered 0
        (λ r. r.recruiter_interaction_id == interaction && same_status r.status approved)
        (λ r. r.created_at) w.db.recruiter_ratings

  unfoldable pub find_approved_for_process : ℕ → World → Option OverallReview
  find_approved_for_process process w =
      P.find_first (λ r. r.process_id == process && same_status r.status approved)
        w.db.overall_reviews

  -- JOIN "rounds", JOIN "interview_processes"
  unfoldable pub joined_ratings : Db → List RoundRating → List Joined
  joined_ratings db [] = []
  joined_ratings db (r ∷ rest) = elim (P.find_first (λ x. x.id == r.round_id) db.rounds) [
    | none ↦ joined_ratings db rest
    | some round ↦
        join_one r (some round) (P.find_first (λ p. p.id == round.process_id) db.processes)
          (joined_ratings db rest)
  ]

  -- The first query: the processes of the page, the one with the latest approved rating first.
  unfoldable pub processes_of_page : ℕ → ℕ → ℕ → List Joined → List ℕ
  unfolding distinct max_of
  processes_of_page company page page_size joined = take page_size (
      drop ((page - 1) * page_size) (
        P.find_ordered ((page - 1) * page_size) (λ id. true)
          (λ id. max_of (
            map (λ j. j.rating.created_at)
              (keep (λ j. is_public_of company j && j.round.process_id == id) joined)))
          (distinct (map (λ j. j.round.process_id) (keep (is_public_of company) joined)))))

  unfoldable pub reviews_of_page : ℕ → ℕ → ℕ → List Joined → Page ReviewGroup
  unfolding processes_of_page groups_in_order group_by_process
  reviews_of_page company page page_size joined =
      let ids = processes_of_page company page page_size joined in
      record {
        items = groups_in_order ids (
            group_by_process []
              (P.find_ordered 0 (is_public_among ids) (λ j. j.rating.created_at) joined));
        total =
            length (distinct (map (λ j. j.round.process_id) (keep (is_public_of company) joined)));
        page = page;
        page_size = page_size;
      }

  unfoldable pub find_approved_reviews : ℕ → ℕ → ℕ → Action (Page ReviewGroup)
  unfolding joined_ratings reviews_of_page find_one
  find_approved_reviews company page page_size = do
    find_one company
    gets (λ w. reviews_of_page company page page_size (joined_ratings w.db w.db.round_ratings))
