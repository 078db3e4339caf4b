-- ===== src/Submissions/Public/Shuffle.antt =====
-- The random choice of companies for the landing page.
use interview_insights.Prelude.{
  ℕ, zero, suc, ◌-◌, ◌≤◌, ◌<◌, ◌≡◌, refl, sym, ap, ◌∙◌, inl, inr, true, List, [], ◌∷◌, length, keep,
  count_where, take, set, get_elem?-some, get_elem?-set, count-set, length-count, SameRows, arith,
  ◌==◌, Bool-cases, eq_of_==, ==-refl, if◌then◌else◌,
}
use interview_insights.Prisma.{Prisma}
use interview_insights.Schema.{Company}
use interview_insights.World.{World}
use interview_insights.Submissions.Public.{
  is_approved_company, swap, shuffle_from, shuffle, find_top,
}

module _ {A : Type 0} where
  SameRows-swap :
      (items : List A) (i j : ℕ)
      → i < length items
      → j < length items
      → SameRows items (swap items i j)
  unfolding swap
  SameRows-swap items i j h k p =
      let (a, ea) = get_elem?-some items i h in
      let (b, eb) = get_elem?-some items j k in
      let (c, ec, cases) = get_elem?-set items i j b b eb in
      elim (Bool-cases (i == j)) [
        | inl e ↦
            rw (ea, eb)
              (omega (
                arith,
                count-set p items i b a ea,
                count-set p (set items i b) j a c ec,
                ap {B = ℕ} (λ x. if p x then 1 else 0) (cases.0 (eq_of_== i j e)),
              ))
        | inr n ↦
            rw (ea, eb)
              (omega (
                arith,
                count-set p items i b a ea,
                count-set p (set items i b) j a c ec,
                ap {B = ℕ} (λ x. if p x then 1 else 0) (cases.1 (λ e. ground (arith, ==-refl i))),
              ))
      ]

  length-same : (xs ys : List A) → SameRows xs ys → length xs ≡ length ys
  length-same xs ys h = length-count xs ∙ h (λ x. true) ∙ sym (length-count ys)

  SameRows-shuffle_from :
      (pick : ℕ → ℕ) (i : ℕ) (items : List A)
      → ((n : ℕ) → pick n ≤ n)
      → i < length items
      → SameRows items (shuffle_from pick i items)
  unfolding shuffle_from
  SameRows-shuffle_from pick zero items h k p = refl
  SameRows-shuffle_from pick (suc i) items h k p =
      let same = SameRows-swap items (suc i) (pick (suc i)) k (omega (arith, h (suc i))) in
      same p
      ∙ SameRows-shuffle_from pick i (swap items (suc i) (pick (suc i))) h
          (omega (arith, length-same items (swap items (suc i) (pick (suc i))) same)) p

  pub SameRows-shuffle :
      (pick : ℕ → ℕ) (items : List A) → ((n : ℕ) → pick n ≤ n) → SameRows items (shuffle pick items)
  unfolding shuffle shuffle_from
  SameRows-shuffle pick [] h p = refl
  SameRows-shuffle pick (x ∷ xs) h p =
      SameRows-shuffle_from pick (length (x ∷ xs) - 1) (x ∷ xs) h (omega arith) p

-- The companies of the landing page are the first few of the approved ones in some order: each
-- approved company stands in that order as often as in the table, and no other company does. What
-- `Math.random` gives at i is at most i.
pub find_top_sample :
    ⦃P : Prisma⦄ (pick : ℕ → ℕ) (limit : ℕ) (w : World)
    → ((i : ℕ) → pick i ≤ i)
    → (order : List Company) × SameRows (keep is_approved_company w.db.companies) order
      × (find_top pick limit w ≡ take limit order)
unfolding find_top
find_top_sample ⦃P⦄ pick limit w h =
    let rows = P.find_many is_approved_company w.db.companies in
    (
      shuffle pick rows,
      (λ p.
          ap (λ l. count_where p l) (sym (P.find_many_law is_approved_company w.db.companies))
          ∙ SameRows-shuffle pick rows h p),
      refl,
    )
