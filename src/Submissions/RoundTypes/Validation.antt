-- ===== src/Submissions/RoundTypes/Validation.antt =====
-- What the validation of a round's metadata accepts.
use interview_insights.Prelude.{
  String, ◌≡◌, refl, sym, ap, ◌∙◌, Bool, true, false, not, ◌&&◌, Option, none, some, List, [], ◌∷◌,
  map, keep, count_where, arith, ◌==◌, str_eq,
}
use interview_insights.Prisma.{Prisma}
use interview_insights.Schema.{RoundType, MetaValue, text, texts, neither, RoundTypeFieldOption}
use interview_insights.World.{World, Action, Result, ok, raised, ◌>>◌}
use interview_insights.Submissions.RoundTypes.{
  FieldKind, controlled_single, controlled_multi, free, FieldDef, Metadata, round_type_field_schema,
  value_at, has_field, is_among, is_empty, is_active_option, get_active_options, check_keys,
  assert_active_options, check_value, check_field, check_fields, validate_type_metadata,
}

abbrev pub is_ok : {A : Type 0} → Result A → Bool
is_ok (ok a) = true
is_ok (raised f) = false

-- Is every text one of the options?
abbrev pub are_among : List String → List String → Bool
are_among [] options = true
are_among (v ∷ vs) options = is_among v options && are_among vs options

-- The values that a kind of field takes, where these are its active options.
abbrev pub is_fit : List String → FieldKind → MetaValue → Bool
is_fit options free (text s) = true
is_fit options free _ = false
is_fit options controlled_single (text s) = is_among s options
is_fit options controlled_single _ = false
is_fit options controlled_multi (texts vs) = are_among vs options
is_fit options controlled_multi _ = false

abbrev pub is_fit_or_absent : List String → FieldKind → Option MetaValue → Bool
is_fit_or_absent options kind none = true
is_fit_or_absent options kind (some v) = is_fit options kind v

-- The active options of a field.
unfoldable pub options_of : List RoundTypeFieldOption → RoundType → String → List String
options_of rows t k = map (λ o. o.value) (keep (is_active_option t k) rows)

abbrev pub fields_are_fit : List RoundTypeFieldOption → RoundType → List FieldDef → Metadata → Bool
fields_are_fit rows t [] m = true
fields_are_fit rows t (f ∷ rest) m =
    is_fit_or_absent (options_of rows t f.key) f.kind (value_at f.key m)
    && fields_are_fit rows t rest m

abbrev pub keys_are_known : List FieldDef → Metadata → Bool
keys_are_known defs [] = true
keys_are_known defs ((k, v) ∷ rest) = has_field k defs && keys_are_known defs rest

abbrev pub is_valid_metadata : List RoundTypeFieldOption → RoundType → Option Metadata → Bool
is_valid_metadata rows t none = true
is_valid_metadata rows t (some m) =
    keys_are_known (round_type_field_schema t) m
    && fields_are_fit rows t (round_type_field_schema t) m

keep-empty :
    (options values : List String)
    → is_empty (keep (λ x. not (is_among x options)) values) ≡ are_among values options
unfolding keep
keep-empty options [] = refl
keep-empty options (v ∷ vs) = ground (arith, keep-empty options vs)

among-count :
    (v : String) (rows : List RoundTypeFieldOption)
    → is_among v (map (λ o. o.value) rows) ≡ not (count_where (λ o. str_eq o.value v) rows == 0)
unfolding is_among count_where
among-count v [] = refl
among-count v (o ∷ rest) = ground (arith, among-count v rest)

-- Succeeds exactly where the test holds, and changes nothing.
abbrev Decides : Bool → Result Unit × World → World → Type 0
Decides b out w = (is_ok out.0 ≡ b) × (out.1 ≡ w)

after-Decides :
    (a b : Bool) (r : Result Unit) (v w : World) (k : Action Unit)
    → Decides a (r, v) w
    → Decides b (k w) w
    → let out : Result Unit × World = elim r [ ok u ↦ k v | raised f ↦ (raised f, v) ] in
      Decides (a && b) out w
after-Decides a b (ok u) v w k d e = rw (d.1) (ground (arith, d.0, e.0), e.1)
after-Decides a b (raised f) v w k d e = (ground (arith, d.0), d.1)

-- One after the other.
seq-Decides :
    (a b : Bool) (m k : Action Unit) (w : World)
    → Decides a (m w) w
    → Decides b (k w) w
    → Decides (a && b) ((m >> k) w) w
seq-Decides a b m k w = after-Decides a b (m w).0 (m w).1 w k

check_keys-Decides :
    (t : RoundType) (m : Metadata) (w : World)
    → Decides (keys_are_known (round_type_field_schema t) m) (check_keys t m w) w
unfolding check_keys
check_keys-Decides t [] w = (refl, refl)
check_keys-Decides t ((k, v) ∷ rest) w = ground (arith, check_keys-Decides t rest w)

module _ ⦃P : Prisma⦄ where
  -- The order of the options does not matter.
  pub active-same :
      (t : RoundType) (k v : String) (w : World)
      → is_among v (get_active_options t k w) ≡ is_among v (options_of w.db.round_type_options t k)
  unfolding get_active_options options_of
  active-same t k v w =
      among-count v
        (P.find_sorted (is_active_option t k) (λ o. o.sort_order) w.db.round_type_options)
      ∙ ap (λ n. not (n == 0))
          (sym (
            P.find_sorted_rows (is_active_option t k) (λ o. o.sort_order) w.db.round_type_options
              (λ o. str_eq o.value v)))
      ∙ sym (among-count v (keep (is_active_option t k) w.db.round_type_options))

  active-all :
      (t : RoundType) (k : String) (vs : List String) (w : World)
      → are_among vs (get_active_options t k w)
        ≡ are_among vs (options_of w.db.round_type_options t k)
  active-all t k [] w = refl
  active-all t k (v ∷ vs) w =
      ap (λ b. b && are_among vs (get_active_options t k w)) (active-same t k v w)
      ∙ ap (λ b. is_among v (options_of w.db.round_type_options t k) && b) (active-all t k vs w)

  assert-Decides :
      (t : RoundType) (k : String) (values : List String) (w : World)
      → Decides
          (are_among values (options_of w.db.round_type_options t k))
          (assert_active_options t k values w)
          w
  unfolding assert_active_options
  assert-Decides t k [] w = (refl, refl)
  assert-Decides t k (v ∷ vs) w =
      ground (arith, active-all t k (v ∷ vs) w, keep-empty (get_active_options t k w) (v ∷ vs))

  check_value-Decides :
      (t : RoundType) (k : String) (kind : FieldKind) (v : MetaValue) (w : World)
      → Decides
          (is_fit (options_of w.db.round_type_options t k) kind v)
          (check_value t k kind v w)
          w
  unfolding check_value
  check_value-Decides t k free (text s) w = (refl, refl)
  check_value-Decides t k free (texts vs) w = (refl, refl)
  check_value-Decides t k free neither w = (refl, refl)
  check_value-Decides t k controlled_single (text s) w =
      ground (arith, assert-Decides t k (s ∷ []) w)
  check_value-Decides t k controlled_single (texts vs) w = (refl, refl)
  check_value-Decides t k controlled_single neither w = (refl, refl)
  check_value-Decides t k controlled_multi (texts vs) w = assert-Decides t k vs w
  check_value-Decides t k controlled_multi (text s) w = (refl, refl)
  check_value-Decides t k controlled_multi neither w = (refl, refl)

  check_field-Decides :
      (t : RoundType) (f : FieldDef) (o : Option MetaValue) (w : World)
      → Decides
          (is_fit_or_absent (options_of w.db.round_type_options t f.key) f.kind o)
          (check_field t f o w)
          w
  unfolding check_field
  check_field-Decides t f none w = (refl, refl)
  check_field-Decides t f (some v) w = check_value-Decides t f.key f.kind v w

  check_fields-Decides :
      (t : RoundType) (defs : List FieldDef) (m : Metadata) (w : World)
      → Decides (fields_are_fit w.db.round_type_options t defs m) (check_fields t defs m w) w
  unfolding check_fields
  check_fields-Decides t [] m w = (refl, refl)
  check_fields-Decides t (f ∷ rest) m w =
      seq-Decides
        (is_fit_or_absent (options_of w.db.round_type_options t f.key) f.kind (value_at f.key m))
        (fields_are_fit w.db.round_type_options t rest m) (check_field t f (value_at f.key m))
        (check_fields t rest m) w (check_field-Decides t f (value_at f.key m) w)
        (check_fields-Decides t rest m w)

  -- The validation of a round's metadata changes nothing, and accepts exactly the objects whose keys
  -- are all fields of the round's type and whose values fit: a text where the field is free, an
  -- active option where it takes one, a list of active options where it takes several. An absent
  -- object is accepted.
  pub validate_type_metadata-eq :
      (t : RoundType) (m : Option Metadata) (w : World)
      → let out = validate_type_metadata t m w in
        (is_ok out.0 ≡ is_valid_metadata w.db.round_type_options t m) × (out.1 ≡ w)
  unfolding validate_type_metadata
  validate_type_metadata-eq t none w = (refl, refl)
  validate_type_metadata-eq t (some m) w =
      seq-Decides (keys_are_known (round_type_field_schema t) m)
        (fields_are_fit w.db.round_type_options t (round_type_field_schema t) m) (check_keys t m)
        (check_fields t (round_type_field_schema t) m) w (check_keys-Decides t m w)
        (check_fields-Decides t (round_type_field_schema t) m w)
