-- ===== src/Submissions/RoundTypes.antt =====
-- api/src/round-type-registry: round-type-field-schema.ts, and the validation in
-- round-type-field-options.service.ts.
pub mod Options
pub mod Validation
pub mod Offered
use interview_insights.Prelude.{
  ℕ, ◌+◌, String, Bool, true, false, not, ◌&&◌, ◌||◌, Option, none, some, List, [], ◌∷◌, map, keep,
  ◌==◌, str_eq, if◌then◌else◌,
}
use Prim.Native.String.{◌++◌ as str_append}
use interview_insights.Prisma.{Prisma}
use interview_insights.Schema.{
  RoundType, coding, system_design, behavioral, leadership, case_study, assessment, take_home,
  tech_screening, other_type, same_round_type, MetaValue, text, texts, neither,
  RoundTypeFieldOption,
}
use interview_insights.World.{
  World, Action, Failure, bad_request, record_not_found, unique_violation, pure, raise, raise_if,
  or_raise, gets, put_db, draw_id, ◌>>=◌, ◌>>◌,
}

pub data FieldKind : Type 0 where
  controlled_single controlled_multi free : FieldKind

-- RoundTypeFieldDef
pub record FieldDef : Type 0 where
  pub key : String
  pub kind : FieldKind

abbrev field : String → FieldKind → FieldDef
field k kind = record { key = k; kind = kind }

-- ROUND_TYPE_FIELD_SCHEMA
unfoldable pub round_type_field_schema : RoundType → List FieldDef
round_type_field_schema coding =
    field "problemAlgorithms" controlled_multi
    ∷ field "problemDataStructures" controlled_multi
    ∷ field "problemDescription" free
    ∷ []
round_type_field_schema system_design =
    field "keyConcepts" controlled_multi ∷ field "highLevelConcept" free ∷ []
round_type_field_schema behavioral =
    field "frameworkUsed" controlled_single ∷ field "focusAreas" controlled_multi ∷ []
round_type_field_schema leadership = field "principlesAsked" controlled_multi ∷ []
round_type_field_schema case_study =
    field "frameworksUsed" controlled_multi ∷ field "industryContext" free ∷ []
round_type_field_schema assessment =
    field "assessmentFormat" controlled_single ∷ field "skillsAssessed" controlled_multi ∷ []
round_type_field_schema take_home =
    field "projectType" controlled_single ∷ field "technologiesUsed" controlled_multi ∷ []
round_type_field_schema tech_screening =
    field "screeningFormat" controlled_single ∷ field "topicsCovered" controlled_multi ∷ []
round_type_field_schema other_type = field "notes" free ∷ []

-- An object: its keys with their values, each key once.
abbrev pub Metadata : Type 0
Metadata = List (String × MetaValue)

-- `typeMetadata[key]`
unfoldable pub value_at : String → Metadata → Option MetaValue
value_at k [] = none
value_at k ((j, v) ∷ rest) = if str_eq j k then some v else value_at k rest

-- `fieldsByKey.has(key)`
unfoldable pub has_field : String → List FieldDef → Bool
has_field k [] = false
has_field k (f ∷ rest) = str_eq f.key k || has_field k rest

-- `fieldDefs.find((f) => f.key === fieldKey)`
unfoldable pub find_field : String → List FieldDef → Option FieldDef
find_field k [] = none
find_field k (f ∷ rest) = if str_eq f.key k then some f else find_field k rest

-- `length === 0`
abbrev pub is_empty : List String → Bool
is_empty [] = true
is_empty _ = false

-- `set.has(value)`
unfoldable pub is_among : String → List String → Bool
is_among v [] = false
is_among v (x ∷ rest) = str_eq x v || is_among v rest

-- where: { roundType, fieldKey, isActive: true }
abbrev pub is_active_option : RoundType → String → RoundTypeFieldOption → Bool
is_active_option t k o = same_round_type o.round_type t && str_eq o.field_key k && o.is_active

unfoldable pub type_text : RoundType → String
type_text coding = "coding"
type_text system_design = "system_design"
type_text behavioral = "behavioral"
type_text leadership = "leadership"
type_text case_study = "case_study"
type_text assessment = "assessment"
type_text take_home = "take_home"
type_text tech_screening = "tech_screening"
type_text other_type = "other"

-- `join(', ')`
unfoldable pub join : List String → String
join [] = ""
join (x ∷ []) = x
join (x ∷ y ∷ rest) = str_append x (str_append ", " (join (y ∷ rest)))

abbrev pub unknown_key : String → RoundType → Failure
unknown_key k t = bad_request (
    str_append "Unknown type_metadata key \""
      (str_append k (str_append "\" for round type \"" (str_append (type_text t) "\"."))))

abbrev pub not_a_text : String → Failure
not_a_text k = bad_request (str_append "\"" (str_append k "\" must be a string."))

abbrev pub not_texts : String → Failure
not_texts k = bad_request (str_append "\"" (str_append k "\" must be an array of strings."))

abbrev pub invalid_values : String → List String → Failure
invalid_values k values = bad_request (
    str_append "Invalid value(s) for \""
      (str_append k (str_append "\": " (str_append (join values) "."))))

abbrev pub unknown_field : String → RoundType → Failure
unknown_field k t = bad_request (
    str_append "Unknown field \""
      (str_append k (str_append "\" for round type \"" (str_append (type_text t) "\"."))))

abbrev pub free_text_field : String → RoundType → Failure
free_text_field k t = bad_request (
    str_append "\"" (
      str_append k (
        str_append "\" is a free-text field on round type \""
          (str_append (type_text t) "\" — it has no admin-managed vocabulary."))))

-- The loop over the keys of the object.
unfoldable pub check_keys : RoundType → Metadata → Action Unit
check_keys t [] = pure tt
check_keys t ((k, v) ∷ rest) = do
  raise_if (not (has_field k (round_type_field_schema t))) (unknown_key k t)
  check_keys t rest

module _ ⦃P : Prisma⦄ where
  unfoldable pub get_active_options : RoundType → String → World → List String
  get_active_options t k w =
      map (λ o. o.value)
        (P.find_sorted (is_active_option t k) (λ o. o.sort_order) w.db.round_type_options)

  unfoldable pub assert_active_options : RoundType → String → List String → Action Unit
  unfolding get_active_options
  assert_active_options t k [] = pure tt
  assert_active_options t k (v ∷ vs) = do
    options ← gets (get_active_options t k)
    let wrong = keep (λ x. not (is_among x options)) (v ∷ vs)
    raise_if (not (is_empty wrong)) (invalid_values k wrong)

  -- The body of the loop over the fields, on a value that is given.
  unfoldable pub check_value : RoundType → String → FieldKind → MetaValue → Action Unit
  unfolding assert_active_options
  check_value t k free (text s) = pure tt
  check_value t k free _ = raise (not_a_text k)
  check_value t k controlled_single (text s) = assert_active_options t k (s ∷ [])
  check_value t k controlled_single _ = raise (not_a_text k)
  check_value t k controlled_multi (texts vs) = assert_active_options t k vs
  check_value t k controlled_multi _ = raise (not_texts k)

  unfoldable pub check_field : RoundType → FieldDef → Option MetaValue → Action Unit
  unfolding check_value
  check_field t f none = pure tt
  check_field t f (some v) = check_value t f.key f.kind v

  unfoldable pub check_fields : RoundType → List FieldDef → Metadata → Action Unit
  unfolding check_field
  check_fields t [] m = pure tt
  check_fields t (f ∷ rest) m = do check_field t f (value_at f.key m); check_fields t rest m

  unfoldable pub validate_type_metadata : RoundType → Option Metadata → Action Unit
  unfolding check_keys check_fields
  validate_type_metadata t none = pure tt
  validate_type_metadata t (some m) = do
    check_keys t m
    check_fields t (round_type_field_schema t) m
