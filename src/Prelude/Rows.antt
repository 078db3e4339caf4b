-- ===== src/Prelude/Rows.antt =====
-- The rows of a table as a list, and the predicates and lemmas about such lists.
use interview_insights.Prelude.Tests.{if◌then◌else◌, ◌==◌, Bool-cases, is_some}
use mathlib.Core.Option
use mathlib.Core.Logic.{inl, inr}
use Prim.Native.Nat.{ℕ, suc, ◌+◌, ◌≤◌}
use mathlib.Core.Path.{◌≡◌, refl}
use mathlib.Core.Bool.{Bool, true, false, not, ◌||◌}
use mathlib.Core.Option.{Option, none, some}
use mathlib.Core.List.{List, [], ◌∷◌, ◌++◌}
use native.Mathlib.Omega.{arith}

module _ {ℓ} {A : Type ℓ} where
  abbrev pub length : List A → ℕ
  length [] = 0
  length (x ∷ xs) = suc (length xs)

  -- The first row that passes the test.
  unfoldable pub first : (A → Bool) → List A → Option A
  first p [] = none
  first p (x ∷ xs) = if p x then some x else first p xs

  -- The rows that pass the test.
  unfoldable pub keep : (A → Bool) → List A → List A
  keep p [] = []
  keep p (x ∷ xs) = let rest = keep p xs in if p x then x ∷ rest else rest

  -- The rows that fail the test.
  unfoldable pub drop_where : (A → Bool) → List A → List A
  drop_where p [] = []
  drop_where p (x ∷ xs) = let rest = drop_where p xs in if p x then rest else x ∷ rest

  -- Every row that passes the test, changed.
  unfoldable pub change : (A → Bool) → (A → A) → List A → List A
  change p f [] = []
  change p f (x ∷ xs) = (if p x then f x else x) ∷ change p f xs

  -- How many rows pass the test.
  unfoldable pub count_where : (A → Bool) → List A → ℕ
  count_where p [] = 0
  count_where p (x ∷ xs) = (if p x then 1 else 0) + count_where p xs

  -- Every row has the property.
  abbrev pub All {κ} : (A → Type κ) → List A → Type κ
  All P [] = Unit
  All P (x ∷ xs) = P x × All P xs

  -- The change of one row by `update_many`.
  abbrev pub changed : (A → Bool) → (A → A) → A → A
  changed p f x = if p x then f x else x

  -- Where nothing matches, nothing changes.
  pub change-none :
      (p : A → Bool) (f : A → A) (rows : List A) → count_where p rows ≡ 0 → change p f rows ≡ rows
  unfolding change count_where
  change-none p f [] h = refl
  change-none p f (x ∷ xs) h = ground (arith, change-none p f xs)

  -- A test that the change does not affect finds the changed row.
  pub first-change :
      (q p : A → Bool) (f : A → A) (rows : List A)
      → ((x : A) → q (f x) ≡ q x)
      → first q (change p f rows) ≡ Option.map (changed p f) (first q rows)
  unfolding first change
  first-change q p f [] h = refl
  first-change q p f (x ∷ xs) h = ground (arith, h x, first-change q p f xs h)

  -- A change by the test itself, which it keeps, changes what it finds.
  pub first-change_self :
      (p : A → Bool) (f : A → A) (rows : List A)
      → ((x : A) → p (f x) ≡ p x)
      → first p (change p f rows) ≡ Option.map f (first p rows)
  unfolding first change
  first-change_self p f [] h = refl
  first-change_self p f (x ∷ xs) h = ground (arith, h x, first-change_self p f xs h)

  -- A row that passes the narrower test is counted.
  pub count-pos_of_first :
      (q p : A → Bool) (rows : List A) (e : A)
      → first q rows ≡ some e
      → p e ≡ true
      → 1 ≤ count_where p rows
  unfolding first count_where
  count-pos_of_first q p [] e h k = cc
  count-pos_of_first q p (x ∷ xs) e h k = ground (arith, count-pos_of_first q p xs e)

  -- What is found passes the test.
  pub first_sound : (q : A → Bool) (rows : List A) (e : A) → first q rows ≡ some e → q e ≡ true
  unfolding first
  first_sound q [] e h = cc
  first_sound q (x ∷ xs) e h = ground (arith, first_sound q xs e)

  -- No row passes a test that implies one which no row passes.
  pub count-zero_of_none :
      (q p : A → Bool) (rows : List A)
      → ((x : A) → p x ≡ true → q x ≡ true)
      → first q rows ≡ none
      → count_where p rows ≡ 0
  unfolding first count_where
  count-zero_of_none q p [] h n = refl
  count-zero_of_none q p (x ∷ xs) h n = ground (arith, h x, count-zero_of_none q p xs h)

  -- A change that makes no row pass makes no more rows pass.
  pub count-change-le :
      (q p : A → Bool) (f : A → A) (rows : List A)
      → ((x : A) → p x ≡ true → q (f x) ≡ true → q x ≡ true)
      → count_where q (change p f rows) ≤ count_where q rows
  unfolding count_where change
  count-change-le q p f [] h = omega arith
  count-change-le q p f (x ∷ xs) h = ground (arith, h x, count-change-le q p f xs h)

  -- A change that the test does not see.
  pub count-change-same :
      (q p : A → Bool) (f : A → A) (rows : List A)
      → ((x : A) → q (f x) ≡ q x)
      → count_where q (change p f rows) ≡ count_where q rows
  unfolding count_where change
  count-change-same q p f [] h = refl
  count-change-same q p f (x ∷ xs) h = ground (arith, h x, count-change-same q p f xs h)

  pub count-drop_other :
      (q p : A → Bool) (rows : List A)
      → ((x : A) → p x ≡ true → q x ≡ false)
      → count_where q (drop_where p rows) ≡ count_where q rows
  unfolding count_where drop_where
  count-drop_other q p [] h = refl
  count-drop_other q p (x ∷ xs) h = ground (arith, h x, count-drop_other q p xs h)

  -- A change by the test itself that makes its rows fail leaves none.
  pub count-change-zero :
      (p : A → Bool) (f : A → A) (rows : List A)
      → ((x : A) → p x ≡ true → p (f x) ≡ false)
      → count_where p (change p f rows) ≡ 0
  unfolding count_where change
  count-change-zero p f [] h = refl
  count-change-zero p f (x ∷ xs) h = ground (arith, h x, count-change-zero p f xs h)

  pub count-drop-le :
      (q p : A → Bool) (rows : List A) → count_where q (drop_where p rows) ≤ count_where q rows
  unfolding count_where drop_where
  count-drop-le q p [] = omega arith
  count-drop-le q p (x ∷ xs) = ground (arith, count-drop-le q p xs)

  pub count-append :
      (q : A → Bool) (xs ys : List A)
      → count_where q (xs ++ ys) ≡ count_where q xs + count_where q ys
  unfolding count_where
  count-append q [] ys = omega arith
  count-append q (x ∷ xs) ys = ground (arith, count-append q xs ys)

  module _ {κ} (Q : A → Type κ) where
    pub All-change :
        (p : A → Bool) (f : A → A) (rows : List A)
        → ((x : A) → Q x → Q (f x))
        → All Q rows
        → All Q (change p f rows)
    unfolding change
    All-change p f [] h a = tt
    All-change p f (x ∷ xs) h a = elim (Bool-cases (p x)) [
      | inl e ↦ rw e (h x a.0, All-change p f xs h a.1)
      | inr e ↦ rw e (a.0, All-change p f xs h a.1)
    ]

    pub All-drop : (p : A → Bool) (rows : List A) → All Q rows → All Q (drop_where p rows)
    unfolding drop_where
    All-drop p [] a = tt
    All-drop p (x ∷ xs) a = elim (Bool-cases (p x)) [
      | inl e ↦ rw e (All-drop p xs a.1)
      | inr e ↦ rw e (a.0, All-drop p xs a.1)
    ]

    pub All-append : (xs ys : List A) → All Q xs → All Q ys → All Q (xs ++ ys)
    All-append [] ys a b = b
    All-append (x ∷ xs) ys a b = (a.0, All-append xs ys a.1 b)

    pub All-mono {κ'} :
        {R : A → Type κ'} (xs : List A) → ((x : A) → Q x → R x) → All Q xs → All R xs
    All-mono [] h a = tt
    All-mono (x ∷ xs) h a = (h x a.0, All-mono xs h a.1)

  -- A test counts none exactly where it finds none.
  pub count-eq-zero :
      (p : A → Bool) (rows : List A) → (count_where p rows == 0) ≡ not (is_some (first p rows))
  unfolding count_where first
  count-eq-zero p [] = refl
  count-eq-zero p (x ∷ xs) = ground (arith, count-eq-zero p xs)

  -- Two changes by the same idempotent function are one, where it does not affect the first test.
  pub change-change :
      (p q : A → Bool) (f : A → A) (rows : List A)
      → ((x : A) → p (f x) ≡ p x)
      → ((x : A) → f (f x) ≡ f x)
      → change p f (change q f rows) ≡ change (λ x. q x || p x) f rows
  unfolding change
  change-change p q f [] h k = refl
  change-change p q f (x ∷ xs) h k = ground (arith, h x, k x, change-change p q f xs h k)

  -- Tests that agree on the rows change the same rows.
  pub change-ext :
      (p q : A → Bool) (f : A → A) (rows : List A)
      → All (λ x. p x ≡ q x) rows
      → change p f rows ≡ change q f rows
  unfolding change
  change-ext p q f [] h = refl
  change-ext p q f (x ∷ xs) h = ground (arith, h.0, change-ext p q f xs h.1)

  pub keep-none : (p : A → Bool) (rows : List A) → count_where p rows ≡ 0 → keep p rows ≡ []
  unfolding keep count_where
  keep-none p [] h = refl
  keep-none p (x ∷ xs) h = ground (arith, keep-none p xs)

  pub keep-append : (p : A → Bool) (xs ys : List A) → keep p (xs ++ ys) ≡ keep p xs ++ keep p ys
  unfolding keep
  keep-append p [] ys = refl
  keep-append p (x ∷ xs) ys = ground (arith, keep-append p xs ys)

  pub append_assoc : (xs ys zs : List A) → (xs ++ ys) ++ zs ≡ xs ++ (ys ++ zs)
  append_assoc [] ys zs = refl
  append_assoc (x ∷ xs) ys zs = ground (arith, append_assoc xs ys zs)

  pub append_nil : (xs : List A) → xs ++ [] ≡ xs
  append_nil [] = refl
  append_nil (x ∷ xs) = ground (arith, append_nil xs)

  pub All-of_count :
      (p : A → Bool) (rows : List A) → count_where p rows ≡ 0 → All (λ x. p x ≡ false) rows
  unfolding count_where
  All-of_count p [] h = tt
  All-of_count p (x ∷ xs) h = elim (Bool-cases (p x)) [
    | inl e ↦ absurd (ground arith)
    | inr e ↦ (e, All-of_count p xs (ground arith))
  ]

  pub count_of_All :
      (p : A → Bool) (rows : List A) → All (λ x. p x ≡ false) rows → count_where p rows ≡ 0
  unfolding count_where
  count_of_All p [] h = refl
  count_of_All p (x ∷ xs) h = ground (arith, count_of_All p xs h.1)
