-- ===== src/Submissions/RoundTypes/Offered.antt =====
-- A new option and what the validation of rounds reads
-- (api/src/round-type-registry/round-type-field-options.service.ts).
use interview_insights.Prelude.{
  ℕ, ◌+◌, ◌<◌, ◌≤◌, String, ◌≡◌, refl, sym, ap, ◌∙◌, ◌⊎◌, inl, inr, Bool, true, false, ◌||◌, ◌&&◌,
  count_where, IsRow, str_eq, Option, none, some, List, [], ◌∷◌, ◌++◌, map, keep, keep-append, All,
  All-mono, All-of_count, IsLatest, arith, ◌==◌, ==-refl, str_eq-refl, Bool-cases, if◌then◌else◌,
}
use mathlib.Core.List.{map-append}
use interview_insights.Prisma.{Prisma}
use interview_insights.Schema.{RoundType, round_type_code, same_round_type, RoundTypeFieldOption}
use interview_insights.World.{World, Failure, ok, raised, unique_violation}
use interview_insights.Submissions.RoundTypes.{
  FieldKind, controlled_single, controlled_multi, free, FieldDef, round_type_field_schema,
  find_field, is_among, is_active_option, get_active_options,
}
use interview_insights.Submissions.RoundTypes.Validation.{options_of, active-same}
use interview_insights.Submissions.RoundTypes.Options.{
  CreateOptionDto, or_old, after_highest, is_option_of, is_option_named, check_kind, check_found,
  assert_controlled_field, create_option,
}

same_round_type_refl : (t : RoundType) → same_round_type t t ≡ true
same_round_type_refl t = ==-refl (round_type_code t)

is_among-append :
    (v : String) (xs ys : List String) → is_among v (xs ++ ys) ≡ (is_among v xs || is_among v ys)
unfolding is_among
is_among-append v [] ys = refl
is_among-append v (x ∷ xs) ys = ground (arith, is_among-append v xs ys)

-- The sort order after the highest is above every option's.
after_highest-lt :
    (p : RoundTypeFieldOption → Bool) (rows : List RoundTypeFieldOption)
    (o : Option RoundTypeFieldOption)
    → IsLatest p (λ x. x.sort_order) rows o
    → All (λ x. p x ≡ true → x.sort_order < after_highest o) rows
after_highest-lt p rows none l =
    All-mono (λ x. p x ≡ false) rows (λ x n h. absurd (ground arith)) (All-of_count p rows l)
after_highest-lt p rows (some e) l =
    All-mono (λ x. p x ≡ true → x.sort_order ≤ e.sort_order) rows (λ x k h. ground (arith, k h)) l.2

count-pos_of_IsRow :
    (p : RoundTypeFieldOption → Bool) (e : RoundTypeFieldOption) (rows : List RoundTypeFieldOption)
    → p e ≡ true
    → IsRow e rows
    → 1 ≤ count_where p rows
unfolding count_where
count-pos_of_IsRow p e [] h i = absurd i
count-pos_of_IsRow p e (x ∷ xs) h (inl q) = ground (arith, ap p q)
count-pos_of_IsRow p e (x ∷ xs) h (inr q) = ground (arith, count-pos_of_IsRow p e xs h q)

-- It is 0, or one more than the sort order of an option.
after_highest-attained :
    (p : RoundTypeFieldOption → Bool) (rows : List RoundTypeFieldOption)
    (o : Option RoundTypeFieldOption)
    → IsLatest p (λ x. x.sort_order) rows o
    → (after_highest o ≡ 0)
      ⊎ (1 ≤ count_where (λ x. p x && x.sort_order + 1 == after_highest o) rows)
after_highest-attained p rows none l = inl refl
after_highest-attained p rows (some e) l = inr (
    count-pos_of_IsRow (λ x. p x && x.sort_order + 1 == e.sort_order + 1) e rows
      (rw l.0 (==-refl (e.sort_order + 1))) l.1)

assert-cases :
    (t : RoundType) (k : String) (w : World)
    → (assert_controlled_field t k w ≡ (ok tt, w))
      ⊎ ((f : Failure) × (assert_controlled_field t k w ≡ (raised f, w)))
unfolding assert_controlled_field check_found check_kind
assert-cases t k w = go (find_field k (round_type_field_schema t))
  where
    kinds :
        (x : FieldKind)
        → (check_kind t k x w ≡ (ok tt, w)) ⊎ ((f : Failure) × (check_kind t k x w ≡ (raised f, w)))
    kinds free = inr (_, refl)
    kinds controlled_single = inl refl
    kinds controlled_multi = inl refl

    go :
        (o : Option FieldDef)
        → (check_found t k o w ≡ (ok tt, w))
          ⊎ ((f : Failure) × (check_found t k o w ≡ (raised f, w)))
    go none = inr (_, refl)
    go (some d) = kinds d.kind

module _ ⦃P : Prisma⦄ (t : RoundType) (dto : CreateOptionDto) (w : World) where
  abbrev highest : Option RoundTypeFieldOption
  highest = P.find_latest (is_option_of t dto.field_key) (λ o. o.sort_order) w.db.round_type_options

  abbrev new_option : RoundTypeFieldOption
  new_option = record {
    id = P.uuid w.issued;
    round_type = t;
    field_key = dto.field_key;
    value = dto.value;
    sort_order = or_old dto.sort_order (after_highest highest);
    is_active = true;
  }

  abbrev with_option : World
  with_option = record w {
    db = record w.db { round_type_options = P.create new_option w.db.round_type_options };
    issued = P.uuid w.issued ∷ w.issued;
  }

  create_option-cases :
      (create_option t dto w ≡ (ok new_option, with_option))
      ⊎ ((f : Failure) × (create_option t dto w ≡ (raised f, w)))
  unfolding create_option
  create_option-cases = elim (assert-cases t dto.field_key w) [
    | inr (f, e) ↦ inr (f, ground (arith, e))
    | inl e ↦
        elim (Bool-cases
          (P.count (is_option_named t dto.field_key dto.value) w.db.round_type_options == 0)) [
            | inl z ↦ inl (ground (arith, e, z))
            | inr n ↦ inr (unique_violation, ground (arith, e, n))
          ]
  ]

  options-created :
      options_of (P.create new_option w.db.round_type_options) t dto.field_key
      ≡ options_of w.db.round_type_options t dto.field_key ++ dto.value ∷ []
  unfolding options_of keep
  options-created =
      let p = is_active_option t dto.field_key in
      let rows = w.db.round_type_options in
      let offered : p new_option ≡ true =
        ground (arith, same_round_type_refl t, str_eq-refl dto.field_key) in
      let values = map (λ (o : RoundTypeFieldOption). o.value) in
      ap (λ l. values (keep p l)) (P.create_law new_option rows)
      ∙ ap values (keep-append p rows (new_option ∷ []))
      ∙ map-append (λ o. o.value) (keep p rows) (keep p (new_option ∷ []))
      ∙ ap (λ b. values (keep p rows) ++ values (if b then new_option ∷ [] else [])) offered

  -- Among the values that are offered for the field.
  abbrev pub is_offered : String → World → Bool
  is_offered v u = is_among v (get_active_options t dto.field_key u)

  offered-created : (v : String) → is_offered v with_option ≡ (is_offered v w || str_eq dto.value v)
  unfolding is_among
  offered-created v =
      active-same t dto.field_key v with_option
      ∙ ap (is_among v) options-created
      ∙ is_among-append v (options_of w.db.round_type_options t dto.field_key) (dto.value ∷ [])
      ∙ ground (arith, active-same t dto.field_key v w)

  -- An option that is created is offered at once: to the values that the validation of rounds reads
  -- for its field, exactly its value is added. It is the row of the answer and is stored after the
  -- other options, active, under the type and the field, with the sort order that was given, or with
  -- the first one above the sort orders of all the options of the field: 0 where there is none, and
  -- one more than the sort order of some option otherwise.
  pub create_option_offers :
      (row : RoundTypeFieldOption) (v : String)
      → (create_option t dto w).0 ≡ ok row
      → let after = (create_option t dto w).1 in
        (n : ℕ) × (is_offered v after ≡ (is_offered v w || str_eq dto.value v))
        × (after.db.round_type_options ≡ w.db.round_type_options ++ row ∷ [])
        × (row.value ≡ dto.value)
        × (row.field_key ≡ dto.field_key)
        × (row.round_type ≡ t)
        × (row.is_active ≡ true)
        × (row.sort_order ≡ or_old dto.sort_order n)
        × All
            (λ x. is_option_of t dto.field_key x ≡ true → x.sort_order < n)
            w.db.round_type_options
        × ((n ≡ 0)
            ⊎ (1
                ≤ count_where
                    (λ x. is_option_of t dto.field_key x && x.sort_order + 1 == n)
                    w.db.round_type_options))
  create_option_offers row v h = elim create_option-cases [
    | inr (f, e) ↦ absurd (ground (arith, ap (λ o. o.0) e))
    | inl e ↦
        let made : row ≡ new_option = ground (arith, ap (λ o. o.0) e) in
        let latest =
          P.find_latest_law (is_option_of t dto.field_key) (λ o. o.sort_order)
            w.db.round_type_options in
        rw e (
          after_highest highest,
          offered-created v,
          P.create_law new_option w.db.round_type_options
              ∙ ap (λ r. w.db.round_type_options ++ r ∷ []) (sym made),
          ap (λ r. r.value) made,
          ap (λ r. r.field_key) made,
          ap (λ r. r.round_type) made,
          ap (λ r. r.is_active) made,
          ap (λ r. r.sort_order) made,
          after_highest-lt (is_option_of t dto.field_key) w.db.round_type_options highest latest,
          after_highest-attained (is_option_of t dto.field_key) w.db.round_type_options highest
              latest,
        )
  ]
