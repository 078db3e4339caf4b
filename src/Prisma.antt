-- ===== src/Prisma.antt =====
-- The database client that the services call (`@prisma/client`), which is not part of the
-- repository, as an interface. A table is the list of its rows; a `where` clause is a test on rows, a
-- `data` clause a function on rows. The laws are the documented behaviour: reads and counts see the
-- rows that match, writes touch those rows alone, `update` and `delete` fail where
-- no row matches (P2025), and a UUID has not been given out before.
use Prim.Native.Nat.{max}
use mathlib.Core.List.{reverse-reverse}
use interview_insights.Prelude.{
  ℕ, ◌+◌, ◌≤◌, ◌≡◌, refl, sym, subst, ◌∙◌, arith, Bool, false, Option, none, some, List, [], ◌∷◌,
  ◌++◌, first, keep, drop_where, change, count_where, contains, ◌==◌, if◌then◌else◌, IsLatest,
  latest, latest-IsLatest, SameRows, IsDescending, descending, reverse, count-reverse,
  SameRows-descending, IsDescending-descending,
}

pub record Prisma : Type 1 where
  -- findUnique, findFirst
  pub find_first : {Row : Type 0} → (Row → Bool) → List Row → Option Row
  -- findFirst with orderBy: { key: 'desc' }
  pub find_latest : {Row : Type 0} → (Row → Bool) → (Row → ℕ) → List Row → Option Row
  -- findMany with orderBy: { key: 'desc' }, before it skips as many rows as the number says: rows with
  -- the same key may come in another order in each query
  pub find_ordered : {Row : Type 0} → ℕ → (Row → Bool) → (Row → ℕ) → List Row → List Row
  -- findMany with orderBy: { key: 'asc' }
  pub find_sorted : {Row : Type 0} → (Row → Bool) → (Row → ℕ) → List Row → List Row
  pub find_many : {Row : Type 0} → (Row → Bool) → List Row → List Row
  pub count : {Row : Type 0} → (Row → Bool) → List Row → ℕ
  pub create : {Row : Type 0} → Row → List Row → List Row
  -- `none` is the error of a missing row.
  pub update : {Row : Type 0} → (Row → Bool) → (Row → Row) → List Row → Option (List Row)
  pub update_many : {Row : Type 0} → (Row → Bool) → (Row → Row) → List Row → ℕ × List Row
  -- The row of `create`, where no row matches; `update` otherwise.
  pub upsert : {Row : Type 0} → (Row → Bool) → Row → (Row → Row) → List Row → List Row
  pub delete : {Row : Type 0} → (Row → Bool) → List Row → Option (List Row)
  pub delete_many : {Row : Type 0} → (Row → Bool) → List Row → List Row
  -- `@default(uuid())`, after the ids that have been given out
  pub uuid : List ℕ → ℕ
  pub find_first_law :
      {Row : Type 0} (p : Row → Bool) (rows : List Row) → find_first p rows ≡ first p rows
  pub find_latest_law :
      {Row : Type 0} (p : Row → Bool) (key : Row → ℕ) (rows : List Row)
      → IsLatest p key rows (find_latest p key rows)
  pub find_ordered_rows :
      {Row : Type 0} (skip : ℕ) (p : Row → Bool) (key : Row → ℕ) (rows : List Row)
      → SameRows (keep p rows) (find_ordered skip p key rows)
  pub find_ordered_law :
      {Row : Type 0} (skip : ℕ) (p : Row → Bool) (key : Row → ℕ) (rows : List Row)
      → IsDescending key (find_ordered skip p key rows)
  pub find_sorted_rows :
      {Row : Type 0} (p : Row → Bool) (key : Row → ℕ) (rows : List Row)
      → SameRows (keep p rows) (find_sorted p key rows)
  -- Read from its end, the list is descending.
  pub find_sorted_law :
      {Row : Type 0} (p : Row → Bool) (key : Row → ℕ) (rows : List Row)
      → IsDescending key (reverse (find_sorted p key rows))
  pub find_many_law :
      {Row : Type 0} (p : Row → Bool) (rows : List Row) → find_many p rows ≡ keep p rows
  pub count_law :
      {Row : Type 0} (p : Row → Bool) (rows : List Row) → count p rows ≡ count_where p rows
  pub create_law : {Row : Type 0} (r : Row) (rows : List Row) → create r rows ≡ rows ++ r ∷ []
  pub update_law :
      {Row : Type 0} (p : Row → Bool) (f : Row → Row) (rows : List Row)
      → update p f rows ≡ (if count_where p rows == 0 then none else some (change p f rows))
  pub update_many_law :
      {Row : Type 0} (p : Row → Bool) (f : Row → Row) (rows : List Row)
      → update_many p f rows ≡ (count_where p rows, change p f rows)
  pub upsert_law :
      {Row : Type 0} (p : Row → Bool) (r : Row) (f : Row → Row) (rows : List Row)
      → upsert p r f rows ≡ (if count_where p rows == 0 then rows ++ r ∷ [] else change p f rows)
  pub delete_law :
      {Row : Type 0} (p : Row → Bool) (rows : List Row)
      → delete p rows ≡ (if count_where p rows == 0 then none else some (drop_where p rows))
  pub delete_many_law :
      {Row : Type 0} (p : Row → Bool) (rows : List Row) → delete_many p rows ≡ drop_where p rows
  pub uuid_law : (issued : List ℕ) → contains (uuid issued) issued ≡ false

-- A client that meets the laws: the list operations themselves, and the least number above all that
-- have been given out.
unfoldable pub next_uuid : List ℕ → ℕ
next_uuid [] = 0
next_uuid (x ∷ xs) = max (x + 1) (next_uuid xs)

below_next : (a : ℕ) (issued : List ℕ) → next_uuid issued ≤ a → contains a issued ≡ false
unfolding next_uuid contains
below_next a [] h = refl
below_next a (x ∷ xs) h = ground (arith, below_next a xs)

pub next_uuid-IsFresh : (issued : List ℕ) → contains (next_uuid issued) issued ≡ false
next_uuid-IsFresh issued = below_next (next_uuid issued) issued (omega arith)

instance abbrev pub list_client : Prisma
list_client = record {
  find_first = first;
  find_latest = latest;
  find_ordered = λ skip p key rows. descending key (keep p rows);
  find_sorted = λ p key rows. reverse (descending key (keep p rows));
  find_many = keep;
  count = count_where;
  create = λ r rows. rows ++ r ∷ [];
  update = λ p f rows. if count_where p rows == 0 then none else some (change p f rows);
  update_many = λ p f rows. (count_where p rows, change p f rows);
  upsert = λ p r f rows. if count_where p rows == 0 then rows ++ r ∷ [] else change p f rows;
  delete = λ p rows. if count_where p rows == 0 then none else some (drop_where p rows);
  delete_many = drop_where;
  uuid = next_uuid;
  find_first_law = λ p rows. refl;
  find_latest_law = λ p key rows. latest-IsLatest p key rows;
  find_ordered_rows = λ skip p key rows. SameRows-descending key (keep p rows);
  find_ordered_law = λ skip p key rows. IsDescending-descending key (keep p rows);
  find_sorted_rows = λ p key rows q.
      SameRows-descending key (keep p rows) q
      ∙ sym (count-reverse q (descending key (keep p rows)));
  find_sorted_law = λ p key rows.
      subst (IsDescending key) (sym (reverse-reverse (descending key (keep p rows))))
        (IsDescending-descending key (keep p rows));
  find_many_law = λ p rows. refl;
  count_law = λ p rows. refl;
  create_law = λ r rows. refl;
  update_law = λ p f rows. refl;
  update_many_law = λ p f rows. refl;
  upsert_law = λ p r f rows. refl;
  delete_law = λ p rows. refl;
  delete_many_law = λ p rows. refl;
  uuid_law = next_uuid-IsFresh;
}
