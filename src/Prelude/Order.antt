-- ===== src/Prelude/Order.antt =====
-- Lists of rows in an order: their pages, and the same rows in another order.
use Prim.Native.Nat.{ℕ, zero, suc, ◌+◌, ◌≤◌, ◌<◌}
use mathlib.Core.Path.{◌≡◌, refl, sym, ap, ◌∙◌}
use mathlib.Core.Logic.{inl, inr}
use mathlib.Core.Bool.{Bool, true, not, ◌&&◌}
use mathlib.Core.Option.{Option, none, some}
use mathlib.Core.List.{List, [], ◌∷◌, ◌++◌, reverse, reverse-cons}
use native.Mathlib.Omega.{arith}
use native.Mathlib.Nat.{zero-add, suc-add}
use interview_insights.Prelude.Tests.{if◌then◌else◌, Bool-cases, leb}
use interview_insights.Prelude.Rows.{length, keep, count_where, count-append, All, All-mono}

module _ {A : Type 0} where
  -- `slice(0, n)`
  unfoldable pub take : ℕ → List A → List A
  take zero xs = []
  take (suc n) [] = []
  take (suc n) (x ∷ xs) = x ∷ take n xs

  -- `slice(n)`
  unfoldable pub drop : ℕ → List A → List A
  drop zero xs = xs
  drop (suc n) [] = []
  drop (suc n) (x ∷ xs) = drop n xs

  -- The same rows, each as often.
  abbrev pub SameRows : List A → List A → Type 0
  SameRows xs ys = (p : A → Bool) → count_where p xs ≡ count_where p ys

  -- The greatest key first.
  abbrev pub IsDescending : (A → ℕ) → List A → Type 0
  IsDescending key [] = Unit
  IsDescending key (x ∷ xs) = All (λ y. key y ≤ key x) xs × IsDescending key xs

  unfoldable insert : (A → ℕ) → A → List A → List A
  insert key x [] = x ∷ []
  insert key x (y ∷ ys) = if leb (key y) (key x) then x ∷ y ∷ ys else y ∷ insert key x ys

  -- A sort by insertion.
  unfoldable pub descending : (A → ℕ) → List A → List A
  unfolding insert
  descending key [] = []
  descending key (x ∷ xs) = insert key x (descending key xs)

  SameRows-insert : (key : A → ℕ) (x : A) (xs : List A) → SameRows (x ∷ xs) (insert key x xs)
  unfolding insert count_where
  SameRows-insert key x [] p = refl
  SameRows-insert key x (y ∷ ys) p = ground (arith, SameRows-insert key x ys p)

  pub SameRows-descending : (key : A → ℕ) (xs : List A) → SameRows xs (descending key xs)
  unfolding descending count_where
  SameRows-descending key [] p = refl
  SameRows-descending key (x ∷ xs) p =
      omega (arith, SameRows-descending key xs p, SameRows-insert key x (descending key xs) p)

  All-insert :
      (P : A → Type 0) (key : A → ℕ) (x : A) (xs : List A)
      → P x
      → All P xs
      → All P (insert key x xs)
  unfolding insert
  All-insert P key x [] h a = (h, a)
  All-insert P key x (y ∷ ys) h a = elim (Bool-cases (leb (key y) (key x))) [
    | inl e ↦ rw e (h, a)
    | inr n ↦ rw n (a.0, All-insert P key x ys h a.1)
  ]

  IsDescending-insert :
      (key : A → ℕ) (x : A) (xs : List A) → IsDescending key xs → IsDescending key (insert key x xs)
  unfolding insert
  IsDescending-insert key x [] d = (tt, tt)
  IsDescending-insert key x (y ∷ ys) d = elim (Bool-cases (leb (key y) (key x))) [
    | inl e ↦ rw e ((ground arith, All-mono (λ z. key z ≤ key y) ys (λ z h. ground arith) d.0), d)
    | inr n ↦ rw n (
      All-insert (λ z. key z ≤ key y) key x ys (ground arith) d.0,
      IsDescending-insert key x ys d.1,
    )
  ]

  pub IsDescending-descending : (key : A → ℕ) (xs : List A) → IsDescending key (descending key xs)
  unfolding descending
  IsDescending-descending key [] = tt
  IsDescending-descending key (x ∷ xs) =
      IsDescending-insert key x (descending key xs) (IsDescending-descending key xs)

  pub count-reverse : (p : A → Bool) (xs : List A) → count_where p (reverse xs) ≡ count_where p xs
  unfolding count_where
  count-reverse p [] = refl
  count-reverse p (x ∷ xs) = ground (
    arith,
    ap (count_where p) (reverse-cons x xs),
    count-append p (reverse xs) (x ∷ []),
    count-reverse p xs,
  )

  take_nil : (n : ℕ) → take n [] ≡ []
  unfolding take
  take_nil zero = refl
  take_nil (suc n) = refl

  -- Two pages in a row.
  pub take-append-drop : (m n : ℕ) (xs : List A) → take m xs ++ take n (drop m xs) ≡ take (m + n) xs
  unfolding take drop
  take-append-drop zero n xs = ap (λ k. take k xs) (sym (zero-add n))
  take-append-drop (suc m) n [] = take_nil n ∙ sym (take_nil (suc m + n))
  take-append-drop (suc m) n (x ∷ xs) =
      ap (λ l. x ∷ l) (take-append-drop m n xs) ∙ ap (λ k. take k (x ∷ xs)) (sym (suc-add m n))

  pub take-all : (n : ℕ) (xs : List A) → length xs ≤ n → take n xs ≡ xs
  unfolding take
  take-all zero [] h = refl
  take-all zero (x ∷ xs) h = absurd (omega arith)
  take-all (suc n) [] h = refl
  take-all (suc n) (x ∷ xs) h = ground (arith, take-all n xs)

  pub length-count : (xs : List A) → length xs ≡ count_where (λ x. true) xs
  unfolding count_where
  length-count [] = refl
  length-count (x ∷ xs) = omega (arith, length-count xs)

  -- What is kept by a test passes every weaker test.
  pub count-keep_other :
      (p q : A → Bool) (xs : List A)
      → ((x : A) → p x ≡ true → q x ≡ true)
      → count_where (λ x. not (q x)) (keep p xs) ≡ 0
  unfolding count_where keep
  count-keep_other p q [] h = refl
  count-keep_other p q (x ∷ xs) h = ground (arith, h x, count-keep_other p q xs h)

  pub count-keep :
      (p q : A → Bool) (xs : List A) → count_where q (keep p xs) ≡ count_where (λ x. p x && q x) xs
  unfolding count_where keep
  count-keep p q [] = refl
  count-keep p q (x ∷ xs) = ground (arith, count-keep p q xs)

  pub count-take-le :
      (p : A → Bool) (n : ℕ) (xs : List A) → count_where p (take n xs) ≤ count_where p xs
  unfolding count_where take
  count-take-le p zero xs = omega arith
  count-take-le p (suc n) [] = omega arith
  count-take-le p (suc n) (x ∷ xs) = ground (arith, count-take-le p n xs)

  pub count-drop_first-le :
      (p : A → Bool) (n : ℕ) (xs : List A) → count_where p (drop n xs) ≤ count_where p xs
  unfolding count_where drop
  count-drop_first-le p zero xs = omega arith
  count-drop_first-le p (suc n) [] = omega arith
  count-drop_first-le p (suc n) (x ∷ xs) = ground (arith, count-drop_first-le p n xs)

  -- `items[i]`, `none` out of range.
  unfoldable pub get_elem? : List A → ℕ → Option A
  get_elem? [] i = none
  get_elem? (x ∷ xs) zero = some x
  get_elem? (x ∷ xs) (suc i) = get_elem? xs i

  -- `items[i] = a`, in range.
  unfoldable pub set : List A → ℕ → A → List A
  set [] i a = []
  set (x ∷ xs) zero a = a ∷ xs
  set (x ∷ xs) (suc i) a = x ∷ set xs i a

  pub get_elem?-some : (xs : List A) (i : ℕ) → i < length xs → (a : A) × (get_elem? xs i ≡ some a)
  unfolding get_elem?
  get_elem?-some [] i h = absurd (omega arith)
  get_elem?-some (x ∷ xs) zero h = (x, refl)
  get_elem?-some (x ∷ xs) (suc i) h = get_elem?-some xs i (omega arith)

  -- What a write puts in is counted in place of what was there.
  pub count-set :
      (p : A → Bool) (xs : List A) (i : ℕ) (a b : A)
      → get_elem? xs i ≡ some b
      → count_where p (set xs i a) + (if p b then 1 else 0)
        ≡ count_where p xs + (if p a then 1 else 0)
  unfolding get_elem? set count_where
  count-set p [] i a b h = absurd (ground arith)
  count-set p (x ∷ xs) zero a b h = ground arith
  count-set p (x ∷ xs) (suc i) a b h = omega (arith, count-set p xs i a b h)

  pub get_elem?-set :
      (xs : List A) (i j : ℕ) (a b : A)
      → get_elem? xs j ≡ some b
      → (c : A) × (get_elem? (set xs i a) j ≡ some c) × ((i ≡ j → c ≡ a) × ((i ≡ j → ⊥) → c ≡ b))
  unfolding get_elem? set
  get_elem?-set [] i j a b h = absurd (ground arith)
  get_elem?-set (x ∷ xs) zero zero a b h = (a, refl, ((λ e. refl), λ n. absurd (n refl)))
  get_elem?-set (x ∷ xs) zero (suc j) a b h = (b, h, ((λ e. absurd (omega arith)), λ n. refl))
  get_elem?-set (x ∷ xs) (suc i) zero a b h = (b, h, ((λ e. absurd (omega arith)), λ n. refl))
  get_elem?-set (x ∷ xs) (suc i) (suc j) a b h =
      let r = get_elem?-set xs i j a b h in
      (r.0, r.1, ((λ e. r.2.0 (omega arith)), λ n. r.2.1 (λ e. n (omega arith))))

  pub length-set : (xs : List A) (i : ℕ) (a : A) → length (set xs i a) ≡ length xs
  unfolding set
  length-set [] i a = refl
  length-set (x ∷ xs) zero a = refl
  length-set (x ∷ xs) (suc i) a = omega (arith, length-set xs i a)
