-- ===== src/Prelude/Keys.antt =====
-- Lists of rows with distinct keys.
use interview_insights.Prelude.Tests.{◌==◌, Bool-cases, eq_of_==, ==-refl, ==-comm}
use mathlib.Core.Logic.{inl, inr}
use Prim.Native.Nat.{ℕ}
use mathlib.Core.Path.{◌≡◌, refl, ap}
use mathlib.Core.Bool.{Bool, true, false, ◌||◌}
use mathlib.Core.Option.{some}
use mathlib.Core.List.{List, [], ◌∷◌, ◌++◌, map}
use native.Mathlib.Omega.{arith}
use interview_insights.Prelude.Rows.{All, count_where, first, keep, change}

-- Is the number in the list?
unfoldable pub contains : ℕ → List ℕ → Bool
contains a [] = false
contains a (x ∷ xs) = (a == x) || contains a xs

pub contains-append :
    (a : ℕ) (xs ys : List ℕ) → contains a (xs ++ ys) ≡ (contains a xs || contains a ys)
unfolding contains
contains-append a [] ys = refl
contains-append a (x ∷ xs) ys = ground (arith, contains-append a xs ys)

module _ {A : Type 0} (key : A → ℕ) where
  -- No two rows have the same key.
  abbrev pub IsKeyed : List A → Type 0
  IsKeyed [] = Unit
  IsKeyed (x ∷ xs) = (contains (key x) (map key xs) ≡ false) × IsKeyed xs

  -- Of the rows with one key, which is at most one, those that pass the test.
  pub count-zero_of_key :
      (k : ℕ) (p : A → Bool) (rows : List A)
      → ((x : A) → p x ≡ true → (key x == k) ≡ true)
      → contains k (map key rows) ≡ false
      → count_where p rows ≡ 0
  unfolding contains count_where
  count-zero_of_key k p [] h n = refl
  count-zero_of_key k p (x ∷ xs) h n = ground (arith, h x, count-zero_of_key k p xs h)

  pub count-zero_of_first :
      (k : ℕ) (p : A → Bool) (rows : List A) (e : A)
      → IsKeyed rows
      → ((x : A) → p x ≡ true → (key x == k) ≡ true)
      → first (λ x. key x == k) rows ≡ some e
      → p e ≡ false
      → count_where p rows ≡ 0
  unfolding first count_where
  count-zero_of_first k p [] e u h s n = cc
  count-zero_of_first k p (x ∷ xs) e u h s n = elim (Bool-cases (key x == k)) [
    | inl hit ↦ ground (arith, count-zero_of_key k p xs h)
    | inr miss ↦ ground (arith, h x, count-zero_of_first k p xs e u.1 h)
  ]

  absent-keep :
      (k : ℕ) (p : A → Bool) (rows : List A)
      → contains k (map key rows) ≡ false
      → contains k (map key (keep p rows)) ≡ false
  unfolding contains keep
  absent-keep k p [] h = refl
  absent-keep k p (x ∷ xs) h = elim (Bool-cases (p x)) [
    | inl e ↦ ground (arith, absent-keep k p xs)
    | inr e ↦ ground (arith, absent-keep k p xs)
  ]

  other_keys :
      (k : ℕ) (rows : List A)
      → contains k (map key rows) ≡ false
      → All (λ x. (key x == k) ≡ false) rows
  unfolding contains
  other_keys k [] h = tt
  other_keys k (x ∷ xs) h = (ground (arith, ==-comm (key x) k), other_keys k xs (ground arith))

  -- The keys of the rows that are kept are those of the rows that pass the test.
  pub contains-keep :
      (p : A → Bool) (rows : List A)
      → IsKeyed rows
      → All (λ x. contains (key x) (map key (keep p rows)) ≡ p x) rows
  unfolding contains keep
  contains-keep p [] u = tt
  contains-keep p (x ∷ xs) u = elim (Bool-cases (p x)) [
    | inl e ↦ (
      ground (arith, ==-refl (key x)),
      taken e xs (other_keys (key x) xs u.0) (contains-keep p xs u.1),
    )
    | inr e ↦ (ground (arith, absent-keep (key x) p xs u.0), passed e xs (contains-keep p xs u.1))
  ]
    where
      taken :
          p x ≡ true
          → (ys : List A) → All (λ y. (key y == key x) ≡ false) ys
          → All (λ y. contains (key y) (map key (keep p xs)) ≡ p y) ys
          → All (λ y. contains (key y) (map key (keep p (x ∷ xs))) ≡ p y) ys
      taken e [] a b = tt
      taken e (y ∷ ys) a b = (ground arith, taken e ys a.1 b.1)

      passed :
          p x ≡ false
          → (ys : List A) → All (λ y. contains (key y) (map key (keep p xs)) ≡ p y) ys
          → All (λ y. contains (key y) (map key (keep p (x ∷ xs))) ≡ p y) ys
      passed e [] b = tt
      passed e (y ∷ ys) b = (ground arith, passed e ys b.1)

  absent-append :
      (k : ℕ) (rows : List A) (x : A)
      → contains k (map key rows) ≡ false
      → (k == key x) ≡ false
      → contains k (map key (rows ++ x ∷ [])) ≡ false
  unfolding contains
  absent-append k [] x h n = ground arith
  absent-append k (y ∷ ys) x h n = ground (arith, absent-append k ys x)

  -- A row with a fresh key keeps the keys distinct.
  pub IsKeyed-append :
      (rows : List A) (x : A)
      → IsKeyed rows
      → All (λ y. (key y == key x) ≡ false) rows
      → IsKeyed (rows ++ x ∷ [])
  unfolding contains
  IsKeyed-append [] x u a = (refl, tt)
  IsKeyed-append (y ∷ ys) x u a = (absent-append (key y) ys x u.0 a.0, IsKeyed-append ys x u.1 a.1)

  same_keys :
      (p : A → Bool) (f : A → A) (rows : List A)
      → ((x : A) → key (f x) ≡ key x)
      → map key (change p f rows) ≡ map key rows
  unfolding change
  same_keys p f [] h = refl
  same_keys p f (x ∷ xs) h = ground (arith, h x, same_keys p f xs h)

  pub IsKeyed-change :
      (p : A → Bool) (f : A → A) (rows : List A)
      → ((x : A) → key (f x) ≡ key x)
      → IsKeyed rows
      → IsKeyed (change p f rows)
  unfolding change
  IsKeyed-change p f [] h u = tt
  IsKeyed-change p f (x ∷ xs) h u =
      (ground (arith, h x, same_keys p f xs h, u.0), IsKeyed-change p f xs h u.1)

pub contains-ne :
    (a b : ℕ) (xs : List ℕ) → contains a xs ≡ true → contains b xs ≡ false → (b == a) ≡ false
contains-ne a b xs h k = elim (Bool-cases (b == a)) [
  | inl e ↦ absurd (impossible (eq_of_== b a e))
  | inr n ↦ n
]
  where
    impossible : b ≡ a → ⊥
    impossible e = cc (ap (λ c. contains c xs) e)
