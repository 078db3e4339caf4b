-- ===== src/Prelude/Latest.antt =====
-- The latest of the rows that pass a test.
use Prim.Native.Nat.{ℕ, ◌≤◌}
use mathlib.Core.Path.{◌≡◌, refl, ap}
use mathlib.Core.Logic.{◌⊎◌, inl, inr}
use mathlib.Core.Bool.{Bool, true, false, ◌&&◌}
use mathlib.Core.Option.{Option, none, some}
use mathlib.Core.List.{List, [], ◌∷◌, map}
use native.Mathlib.Omega.{arith}
use interview_insights.Prelude.Tests.{if◌then◌else◌, Bool-cases, leb, ◌==◌, ==-refl, eq_of_==}
use interview_insights.Prelude.Rows.{
  count_where, All, All-mono, All-of_count, first, keep, change, drop_where,
}
use interview_insights.Prelude.Keys.{IsKeyed, contains}

module _ {A : Type 0} where
  -- The row is one of the rows.
  abbrev pub IsRow : A → List A → Type 0
  IsRow e [] = ⊥
  IsRow e (x ∷ xs) = (x ≡ e) ⊎ IsRow e xs

  -- A row that passes the test with the greatest key, or none where no row passes the test.
  abbrev pub IsLatest : (A → Bool) → (A → ℕ) → List A → Option A → Type 0
  IsLatest p key rows none = count_where p rows ≡ 0
  IsLatest p key rows (some e) =
      (p e ≡ true) × IsRow e rows × All (λ x. p x ≡ true → key x ≤ key e) rows

  -- The later one of a row, where it passes the test, and the latest of the rest.
  unfoldable pub later : (A → Bool) → (A → ℕ) → A → Option A → Option A
  later p key x none = if p x then some x else none
  later p key x (some y) = if p x && leb (key y) (key x) then some x else some y

  later-IsLatest :
      (p : A → Bool) (key : A → ℕ) (x : A) (xs : List A) (o : Option A)
      → IsLatest p key xs o
      → IsLatest p key (x ∷ xs) (later p key x o)
  unfolding later count_where
  later-IsLatest p key x xs none l = elim (Bool-cases (p x)) [
    | inl e ↦ rw e (
      e,
      inl refl,
      (
        (λ h. omega arith),
        All-mono (λ z. p z ≡ false) xs (λ z k h. absurd (ground arith)) (All-of_count p xs l),
      ),
    )
    | inr e ↦ rw e (ground arith)
  ]
  later-IsLatest p key x xs (some y) l = elim (Bool-cases (p x && leb (key y) (key x))) [
    | inl e ↦ rw e (
      ground arith,
      inl refl,
      (
        (λ h. omega arith),
        All-mono (λ z. p z ≡ true → key z ≤ key y) xs (λ z k h. ground (arith, k h)) l.2,
      ),
    )
    | inr e ↦ rw e (l.0, inr l.1, ((λ h. ground arith), l.2))
  ]

  unfoldable pub latest : (A → Bool) → (A → ℕ) → List A → Option A
  latest p key [] = none
  latest p key (x ∷ xs) = later p key x (latest p key xs)

  pub latest-IsLatest :
      (p : A → Bool) (key : A → ℕ) (rows : List A) → IsLatest p key rows (latest p key rows)
  unfolding latest count_where
  latest-IsLatest p key [] = refl
  latest-IsLatest p key (x ∷ xs) =
      later-IsLatest p key x xs (latest p key xs) (latest-IsLatest p key xs)

  clash :
      (key : A → ℕ) (k : ℕ) (xs : List A) (e : A)
      → contains k (map key xs) ≡ false
      → IsRow e xs
      → k ≡ key e
      → ⊥
  unfolding contains
  clash key k [] e n i s = i
  clash key k (x ∷ xs) e n (inl h) s = ground (arith, ap key h, ==-refl k)
  clash key k (x ∷ xs) e n (inr i) s = clash key k xs e (ground arith) i s

  -- Where the keys are distinct, a row is what its key finds.
  pub first_of_IsRow :
      (key : A → ℕ) (rows : List A) (e : A)
      → IsKeyed key rows
      → IsRow e rows
      → first (λ x. key x == key e) rows ≡ some e
  unfolding first
  first_of_IsRow key [] e u i = absurd i
  first_of_IsRow key (x ∷ xs) e u (inl h) = rw h (rw (==-refl (key e)) refl)
  first_of_IsRow key (x ∷ xs) e u (inr i) = elim (Bool-cases (key x == key e)) [
    | inl h ↦ absurd (clash key (key x) xs e u.0 i (eq_of_== (key x) (key e) h))
    | inr n ↦ ground (arith, first_of_IsRow key xs e u.1 i)
  ]

  -- Changes that do not affect the test, of rows that fail it, keep what passes it.
  pub keep-change :
      (q p : A → Bool) (f : A → A) (rows : List A)
      → ((x : A) → q (f x) ≡ q x)
      → All (λ x. (p x && q x) ≡ false) rows
      → keep q (change p f rows) ≡ keep q rows
  unfolding keep change
  keep-change q p f [] h a = refl
  keep-change q p f (x ∷ xs) h a = ground (arith, h x, a.0, keep-change q p f xs h a.1)

  pub keep-drop :
      (q p : A → Bool) (rows : List A)
      → All (λ x. (p x && q x) ≡ false) rows
      → keep q (drop_where p rows) ≡ keep q rows
  unfolding keep drop_where
  keep-drop q p [] a = refl
  keep-drop q p (x ∷ xs) a = ground (arith, a.0, keep-drop q p xs a.1)
