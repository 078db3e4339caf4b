-- ===== src/Submissions/RoundTypes/Options.antt =====
-- The creation and the update of options in
-- api/src/round-type-registry/round-type-field-options.service.ts. Sort orders are not negative.
use interview_insights.Prelude.{
  ℕ, ◌+◌, String, Bool, true, not, ◌&&◌, Option, none, some, ◌==◌, str_eq,
}
use interview_insights.Prisma.{Prisma}
use interview_insights.Schema.{RoundType, same_round_type, RoundTypeFieldOption}
use interview_insights.World.{
  Action, record_not_found, unique_violation, pure, raise, raise_if, or_raise, gets, put_db,
  draw_id, ◌>>=◌, ◌>>◌,
}
use interview_insights.Submissions.RoundTypes.{
  FieldKind, free, FieldDef, round_type_field_schema, find_field, unknown_field, free_text_field,
}

-- CreateRoundTypeFieldOptionDto
pub record CreateOptionDto : Type 0 where
  pub field_key : String
  pub value : String
  pub sort_order : Option ℕ

-- UpdateRoundTypeFieldOptionDto
pub record UpdateOptionDto : Type 0 where
  pub value : Option String
  pub sort_order : Option ℕ
  pub is_active : Option Bool

-- A key that is not in the dto leaves the column as it is.
abbrev pub or_old {ℓ} : {A : Type ℓ} → Option A → A → A
or_old none old = old
or_old (some new) old = new

abbrev pub updated_option : UpdateOptionDto → RoundTypeFieldOption → RoundTypeFieldOption
updated_option dto o = record o {
  value = or_old dto.value o.value;
  sort_order = or_old dto.sort_order o.sort_order;
  is_active = or_old dto.is_active o.is_active;
}

-- `(highest?.sortOrder ?? -1) + 1`
abbrev pub after_highest : Option RoundTypeFieldOption → ℕ
after_highest none = 0
after_highest (some o) = o.sort_order + 1

-- where: { roundType, fieldKey }
abbrev pub is_option_of : RoundType → String → RoundTypeFieldOption → Bool
is_option_of t k o = same_round_type o.round_type t && str_eq o.field_key k

-- @@unique([roundType, fieldKey, value])
abbrev pub is_option_named : RoundType → String → String → RoundTypeFieldOption → Bool
is_option_named t k v o = is_option_of t k o && str_eq o.value v

unfoldable pub check_kind : RoundType → String → FieldKind → Action Unit
check_kind t k free = raise (free_text_field k t)
check_kind t k _ = pure tt

unfoldable pub check_found : RoundType → String → Option FieldDef → Action Unit
check_found t k none = raise (unknown_field k t)
check_found t k (some f) = check_kind t k f.kind

unfoldable pub assert_controlled_field : RoundType → String → Action Unit
assert_controlled_field t k = check_found t k (find_field k (round_type_field_schema t))

module _ ⦃P : Prisma⦄ where
  unfoldable pub create_option : RoundType → CreateOptionDto → Action RoundTypeFieldOption
  unfolding assert_controlled_field
  create_option t dto = do
    assert_controlled_field t dto.field_key
    highest ← gets (λ w.
        P.find_latest (is_option_of t dto.field_key) (λ o. o.sort_order) w.db.round_type_options)
    taken ← gets (λ w. P.count (is_option_named t dto.field_key dto.value) w.db.round_type_options)
    raise_if (not (taken == 0)) unique_violation
    id ← draw_id
    db ← gets (λ w. w.db)
    let row : RoundTypeFieldOption = record {
      id = id;
      round_type = t;
      field_key = dto.field_key;
      value = dto.value;
      sort_order = or_old dto.sort_order (after_highest highest);
      is_active = true;
    }
    put_db (record db { round_type_options = P.create row db.round_type_options })
    pure row

  -- A new value that another option of the field has violates the unique key.
  unfoldable pub update_option : ℕ → UpdateOptionDto → Action RoundTypeFieldOption
  update_option id dto = do
    found ← gets (λ w. P.find_first (λ o. o.id == id) w.db.round_type_options)
    old ← or_raise found record_not_found
    let new = updated_option dto old
    taken ← gets (λ w.
        P.count (λ o. is_option_named new.round_type new.field_key new.value o && not (o.id == id))
          w.db.round_type_options)
    raise_if (not (taken == 0)) unique_violation
    db ← gets (λ w. w.db)
    rows ←
        or_raise (P.update (λ o. o.id == id) (updated_option dto) db.round_type_options)
          record_not_found
    put_db (record db { round_type_options = rows })
    pure new
