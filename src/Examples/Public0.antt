-- ===== src/Examples/Public0.antt =====
-- The public reads at a world with two approved companies, a requested one, and two rounds of ratings.
use interview_insights.Prelude.{
  ℕ, ◌≤◌, ◌≡◌, refl, ◌&&◌, none, List, [], ◌∷◌, map, first, drop, descending, drop_where, latest,
  keep, count_where, take, All, SameRows, IsDescending, contains, arith, ◌++◌, ◌<◌, ◌+◌, ◌==◌, ◌⊎◌,
  ◌||◌, str_eq, true,
}
use interview_insights.Prisma.{list_client, next_uuid}
use interview_insights.Schema.{approved, pending, coding, Status, Company, RoundTypeFieldOption}
use interview_insights.World.{World, ok}
use interview_insights.Submissions.Public.{
  is_approved_company, is_public_of, is_public_among, Joined, Page, ReviewGroup, find_top,
  joined_ratings, processes_of_page, find_approved_reviews,
}
use interview_insights.Submissions.Public.Shuffle.{find_top_sample}
use interview_insights.Submissions.Public.Reviews.{is_in, IsWhole, find_approved_reviews_outcome}
use interview_insights.Submissions.RoundTypes.{find_field, round_type_field_schema}
use interview_insights.Submissions.RoundTypes.Options.{
  CreateOptionDto, is_option_of, or_old, check_kind, check_found, create_option,
}
use interview_insights.Submissions.RoundTypes.Offered.{is_offered, create_option_offers}
use interview_insights.Examples.World0.{world0, rating_of}

abbrev acme_of : ℕ → Status → Company
acme_of id status = record {
  id = id;
  content = record {
    name = "Acme";
    slug = "acme";
    industry = none;
    size_bucket = "small";
    logo_url = none;
  };
  status = status;
  candidate_id = none;
  created_at = id;
}

abbrev public_world : World
public_world = record world0 {
  db = record world0.db {
    companies = acme_of 51 approved ∷ acme_of 52 pending ∷ acme_of 53 approved ∷ [];
    round_ratings =
        record (rating_of 11) { status = approved }
        ∷ rating_of 12
        ∷ record (rating_of 13) { status = approved }
        ∷ [];
  };
}

find_top_sample_example :
    (order : List Company) × SameRows (keep is_approved_company public_world.db.companies) order
    × (find_top (λ i. 0) 5 public_world ≡ take 5 order)
find_top_sample_example = find_top_sample (λ i. 0) 5 public_world (λ i. omega arith)

-- The two approved ratings of one process are one submission.
shows_both :
    map
      (λ g. map (λ e. e.id) g.entries)
      (elim (find_approved_reviews 51 1 10 public_world).0 [ ok page ↦ page.items | _ ↦ [] ])
    ≡ (11 ∷ 13 ∷ []) ∷ []
unfolding find_approved_reviews first take drop descending keep drop_where contains
shows_both = refl

find_approved_reviews_outcome_example :
    let joined = joined_ratings public_world.db public_world.db.round_ratings in
    let ids = processes_of_page 51 1 10 joined in
    (out : Page ReviewGroup) × (rows : List Joined) × (find_approved_reviews 51 1 10 public_world
      ≡ (ok out, public_world))
    × All (λ id. 1 ≤ count_where (λ j. is_public_of 51 j && is_in id j) joined) ids
    × (map (λ g. g.process_id) out.items ≡ ids)
    × SameRows (keep (is_public_among ids) joined) rows
    × IsDescending (λ j. j.rating.created_at) rows
    × All (IsWhole rows) out.items
unfolding first
find_approved_reviews_outcome_example = find_approved_reviews_outcome 51 1 10 public_world refl

abbrev heaps : CreateOptionDto
heaps = record { field_key = "problemDataStructures"; value = "heap"; sort_order = none }

abbrev heap_option : RoundTypeFieldOption
heap_option = record {
  id = 6;
  round_type = coding;
  field_key = "problemDataStructures";
  value = "heap";
  sort_order = 0;
  is_active = true;
}

create_option_offers_example :
    let after = (create_option coding heaps public_world).1 in
    (n : ℕ) × (is_offered coding heaps public_world "heap" after
      ≡ (is_offered coding heaps public_world "heap" public_world || str_eq "heap" "heap"))
    × (after.db.round_type_options ≡ public_world.db.round_type_options ++ heap_option ∷ [])
    × (heap_option.value ≡ heaps.value)
    × (heap_option.field_key ≡ heaps.field_key)
    × (heap_option.round_type ≡ coding)
    × (heap_option.is_active ≡ true)
    × (heap_option.sort_order ≡ or_old heaps.sort_order n)
    × All
        (λ x. is_option_of coding heaps.field_key x ≡ true → x.sort_order < n)
        public_world.db.round_type_options
    × ((n ≡ 0)
        ⊎ (1
            ≤ count_where
                (λ x. is_option_of coding heaps.field_key x && x.sort_order + 1 == n)
                public_world.db.round_type_options))
unfolding create_option check_found find_field round_type_field_schema check_kind count_where
    next_uuid latest
create_option_offers_example =
    create_option_offers coding heaps public_world heap_option "heap" refl
