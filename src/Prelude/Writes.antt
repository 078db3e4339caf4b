-- ===== src/Prelude/Writes.antt =====
-- What a later read sees of a write.
use interview_insights.Prelude.Tests.{if◌then◌else◌, ◌==◌, Bool-cases, is_some, eq_of_==, ==-refl}
use mathlib.Core.Option
use mathlib.Core.Logic.{inl, inr}
use Prim.Native.Nat.{ℕ, ◌+◌}
use mathlib.Core.Path.{◌≡◌, refl, subst}
use mathlib.Core.Bool.{Bool, true, false}
use mathlib.Core.Option.{Option, none, some}
use mathlib.Core.List.{List, [], ◌∷◌, ◌++◌, map}
use native.Mathlib.Omega.{arith}
use interview_insights.Prelude.Rows.{count_where, first, drop_where, change, change-none}
use interview_insights.Prelude.Keys.{contains, IsKeyed, count-zero_of_key, contains-ne}

module _ {A : Type 0} (b : Bool) (x y : A) where
  pub if_true : b ≡ true → (if b then x else y) ≡ x
  if_true h = rw h

  pub if_false : b ≡ false → (if b then x else y) ≡ y
  if_false h = rw h

module _ {A : Type 0} where
  pub count-one :
      (p : A → Bool) (x : A) (b : Bool) → p x ≡ b → count_where p (x ∷ []) ≡ (if b then 1 else 0)
  unfolding count_where
  count-one p x true h = ground arith
  count-one p x false h = ground arith

  pub drop-none : (q : A → Bool) (rows : List A) → count_where q rows ≡ 0 → drop_where q rows ≡ rows
  unfolding count_where drop_where
  drop-none q [] h = refl
  drop-none q (x ∷ xs) h = ground (arith, drop-none q xs)

  -- Rows that pass one test and fail the other are not dropped.
  pub count-drop-other :
      (p q : A → Bool) (rows : List A)
      → ((x : A) → p x ≡ true → q x ≡ false)
      → count_where p (drop_where q rows) ≡ count_where p rows
  unfolding count_where drop_where
  count-drop-other p q [] h = refl
  count-drop-other p q (x ∷ xs) h = ground (arith, h x, count-drop-other p q xs h)

  -- Rows that pass one test and so the other are dropped.
  pub count-drop-within :
      (p q : A → Bool) (rows : List A)
      → ((x : A) → p x ≡ true → q x ≡ true)
      → count_where p (drop_where q rows) ≡ 0
  unfolding count_where drop_where
  count-drop-within p q [] h = refl
  count-drop-within p q (x ∷ xs) h = ground (arith, h x, count-drop-within p q xs h)

  pub first-append :
      (p : A → Bool) (rows : List A) (x : A)
      → first p (rows ++ x ∷ [])
        ≡ (if is_some (first p rows) then first p rows else if p x then some x else none)
  unfolding first
  first-append p [] x = refl
  first-append p (y ∷ ys) x = ground (arith, first-append p ys x)

  pub first-none_of_count :
      (p : A → Bool) (rows : List A) → count_where p rows ≡ 0 → first p rows ≡ none
  unfolding first count_where
  first-none_of_count p [] h = refl
  first-none_of_count p (x ∷ xs) h = ground (arith, first-none_of_count p xs)

module _ {A : Type 0} (key : A → ℕ) where
  -- The row with a key, after the rows with another are dropped.
  pub first-drop :
      (i k : ℕ) (rows : List A)
      → first (λ x. key x == i) (drop_where (λ x. key x == k) rows)
        ≡ (if i == k then none else first (λ x. key x == i) rows)
  unfolding first drop_where
  first-drop i k [] = ground arith
  first-drop i k (x ∷ xs) = ground (arith, first-drop i k xs)

  -- The row with a key, after the rows with another have changed, which keeps the keys.
  pub first-change_key :
      (i k : ℕ) (f : A → A) (rows : List A)
      → ((x : A) → key (f x) ≡ key x)
      → first (λ x. key x == i) (change (λ x. key x == k) f rows) ≡ (
          if i == k
          then Option.map f (first (λ x. key x == i) rows)
          else first (λ x. key x == i) rows)
  unfolding first change
  first-change_key i k f [] h = ground arith
  first-change_key i k f (x ∷ xs) h = ground (arith, h x, first-change_key i k f xs h)

  absent-drop :
      (k : ℕ) (q : A → Bool) (rows : List A)
      → contains k (map key rows) ≡ false
      → contains k (map key (drop_where q rows)) ≡ false
  unfolding contains drop_where
  absent-drop k q [] h = refl
  absent-drop k q (x ∷ xs) h = elim (Bool-cases (q x)) [
    | inl e ↦ ground (arith, absent-drop k q xs)
    | inr e ↦ ground (arith, absent-drop k q xs)
  ]

  pub IsKeyed-drop :
      (q : A → Bool) (rows : List A) → IsKeyed key rows → IsKeyed key (drop_where q rows)
  unfolding drop_where
  IsKeyed-drop q [] u = tt
  IsKeyed-drop q (x ∷ xs) u = elim (Bool-cases (q x)) [
    | inl e ↦ rw e (IsKeyed-drop q xs u.1)
    | inr e ↦ rw e (absent-drop (key x) q xs u.0, IsKeyed-drop q xs u.1)
  ]

  -- Of the rows with one key, which is at most one, the change makes the test fail.
  pub count-change-first :
      (k : ℕ) (p q : A → Bool) (f : A → A) (rows : List A) (e : A)
      → IsKeyed key rows
      → ((x : A) → q x ≡ true → (key x == k) ≡ true)
      → q e ≡ true
      → ((x : A) → p (f x) ≡ false)
      → first (λ x. key x == k) rows ≡ some e
      → count_where p (change q f rows) + (if p e then 1 else 0) ≡ count_where p rows
  unfolding first change count_where
  count-change-first k p q f [] e u h t n s = cc
  count-change-first k p q f (x ∷ xs) e u h t n s = elim (Bool-cases (key x == k)) [
    | inl hit ↦
        ground
          (arith, n x, change-none q f xs, count-zero_of_key key k q xs h, same_key (key x) hit u.0)
    | inr miss ↦ ground (arith, h x, count-change-first k p q f xs e u.1 h t n)
  ]
    where
      same_key :
          (a : ℕ)
          → (a == k) ≡ true
          → contains a (map key xs) ≡ false
          → contains k (map key xs) ≡ false
      same_key a hit c = rw (← eq_of_== a k hit) c

-- The row that one key finds, by another key.
module _ {A : Type 0} (key other : A → ℕ) where
  contains-first :
      (q : A → Bool) (rows : List A) (r : A)
      → first q rows ≡ some r
      → contains (key r) (map key rows) ≡ true
  unfolding first contains
  contains-first q [] r h = cc
  contains-first q (x ∷ xs) r h = elim (Bool-cases (q x)) [
    | inl y ↦ let e : x ≡ r = ground arith in rw e (ground (arith, ==-refl (key r)))
    | inr n ↦ ground (arith, contains-first q xs r)
  ]

  apart :
      (p : ℕ) (x : A) (xs : List A) (r : A)
      → contains (key x) (map key xs) ≡ false
      → first (λ y. other y == p) xs ≡ some r
      → (key x == key r) ≡ false
  apart p x xs r n h =
      contains-ne (key r) (key x) (map key xs) (contains-first (λ y. other y == p) xs r h) n

  -- No row has the second key where the first row that has it is gone.
  none_left :
      (a p : ℕ) (xs : List A)
      → (a == p) ≡ true
      → contains a (map other xs) ≡ false
      → count_where (λ y. other y == p) xs ≡ 0
  none_left a p xs e n =
      count-zero_of_key other p (λ y. other y == p) xs (λ y h. h) (rw (← eq_of_== a p e) n)

  pub first-by_key :
      (p : ℕ) (rows : List A) (r : A)
      → IsKeyed key rows
      → first (λ y. other y == p) rows ≡ some r
      → first (λ y. key y == key r) rows ≡ some r
  unfolding first
  first-by_key p [] r u h = cc
  first-by_key p (x ∷ xs) r u h = elim (Bool-cases (other x == p)) [
    | inl y ↦ let e : x ≡ r = ground arith in rw e (ground (arith, ==-refl (key r)))
    | inr n ↦ ground (arith, apart p x xs r u.0, first-by_key p xs r u.1)
  ]

  pub change-by_key :
      (p : ℕ) (f : A → A) (rows : List A) (r : A)
      → IsKeyed key rows
      → IsKeyed other rows
      → first (λ y. other y == p) rows ≡ some r
      → change (λ y. other y == p) f rows ≡ change (λ y. key y == key r) f rows
  unfolding first change
  change-by_key p f [] r u v h = cc
  change-by_key p f (x ∷ xs) r u v h = elim (Bool-cases (other x == p)) [
    | inl y ↦
        let e : x ≡ r = ground arith in
        subst (λ z. change (λ y. other y == p) f (x ∷ xs) ≡ change (λ y. key y == key z) f (x ∷ xs))
          e
          (ground (
            arith,
            ==-refl (key x),
            change-none (λ y. other y == p) f xs (none_left (other x) p xs y v.0),
            change-none (λ y. key y == key x) f xs
                (count-zero_of_key key (key x) (λ y. key y == key x) xs (λ y h. h) u.0),
          ))
    | inr n ↦ ground (arith, apart p x xs r u.0, change-by_key p f xs r u.1 v.1)
  ]

  pub drop-by_key :
      (p : ℕ) (rows : List A) (r : A)
      → IsKeyed key rows
      → IsKeyed other rows
      → first (λ y. other y == p) rows ≡ some r
      → drop_where (λ y. other y == p) rows ≡ drop_where (λ y. key y == key r) rows
  unfolding first drop_where
  drop-by_key p [] r u v h = cc
  drop-by_key p (x ∷ xs) r u v h = elim (Bool-cases (other x == p)) [
    | inl y ↦
        let e : x ≡ r = ground arith in
        subst
          (λ z. drop_where (λ y. other y == p) (x ∷ xs) ≡ drop_where (λ y. key y == key z) (x ∷ xs))
          e
          (ground (
            arith,
            ==-refl (key x),
            drop-none (λ y. other y == p) xs (none_left (other x) p xs y v.0),
            drop-none (λ y. key y == key x) xs
                (count-zero_of_key key (key x) (λ y. key y == key x) xs (λ y h. h) u.0),
          ))
    | inr n ↦ ground (arith, apart p x xs r u.0, drop-by_key p xs r u.1 v.1)
  ]
