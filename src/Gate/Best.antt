-- ===== src/Gate/Best.antt =====
-- The gate in the order in which a service writes: it looks up and refuses, then a transaction writes,
-- and what follows is best effort.
use interview_insights.Prelude.{Bool, true, false, ◌≡◌, refl, sym, subst}
use interview_insights.World.{World, Failure, Action, Result, ok, raised, raise_if, ◌>>=◌, ◌>>◌}
use interview_insights.World.Quiet.{IsQuiet, IsQuiet-raise_if, quiet_rules}
use interview_insights.Submissions.Quiet.{index_for_search-IsQuiet}
use interview_insights.Moderation.Review.BestEffort.{
  publish_created_event-IsQuiet, remove_from_search_index-IsQuiet,
}
use interview_insights.Gate.{Grows}
use interview_insights.Gate.Rules.{Gated, Keeps, Keeps-quiet, Keeps-bind, continue-Keeps}

pub ruleset best_effort = (
  quiet_rules, index_for_search-IsQuiet, publish_created_event-IsQuiet,
  remove_from_search_index-IsQuiet,
)

module _ {A R B : Type 0} (find : Action A) (c d : A → Bool) (e f : Failure) (write : A → Action R)
    (rest : A → R → Action B) where
  pub Keeps-written :
      IsQuiet find
      → ((a : A) → Keeps (write a))
      → ((a : A) (r : R) → IsQuiet (rest a r))
      → Keeps do a ← find; raise_if (c a) e; raise_if (d a) f; r ← write a; rest a r
  Keeps-written q k b =
      Keeps-bind (λ a. raise_if (c a) e >> (raise_if (d a) f >> (write a >>= rest a)))
        (λ a.
          Keeps-bind (λ _. raise_if (d a) f >> (write a >>= rest a))
            (λ _.
              Keeps-bind (λ _. write a >>= rest a)
                (λ _. Keeps-bind (rest a) (λ r. Keeps-quiet (rest a r) (b a r)) (write a) (k a))
                (raise_if (d a) f) (Keeps-quiet (raise_if (d a) f) (IsQuiet-raise_if (d a) f)))
            (raise_if (c a) e) (Keeps-quiet (raise_if (c a) e) (IsQuiet-raise_if (c a) e)))
        find (Keeps-quiet find q)

  refused_or_written :
      (w : World) (a : A) (x y : Bool)
      → c a ≡ x
      → d a ≡ y
      → ((a : A) (r : R) → IsQuiet (rest a r))
      → Gated w
      → Gated (write a w).1 × Grows w.issued (write a w).1.issued
      → let out = (raise_if (c a) e >> (raise_if (d a) f >> (write a >>= rest a))) w in
        Gated out.1 × Grows w.issued out.1.issued
  refused_or_written w a true y cx dy b g k = rw cx (g, λ id h. h)
  refused_or_written w a false true cx dy b g k = rw (cx, dy) (g, λ id h. h)
  refused_or_written w a false false cx dy b g k =
      rw (cx, dy)
        (continue-Keeps (rest a) (λ r. Keeps-quiet (rest a r) (b a r)) w (write a w).0 (write a w).1
          k.0 k.1)

  -- The write is of what has been found.
  pub Keeps-found :
      ((w : World) → (find w).1 ≡ w)
      → ((a : A) (w : World)
          → (find w).0 ≡ ok a
          → Gated w
          → Gated (write a w).1 × Grows w.issued (write a w).1.issued)
      → ((a : A) (r : R) → IsQuiet (rest a r))
      → Keeps do a ← find; raise_if (c a) e; raise_if (d a) f; r ← write a; rest a r
  Keeps-found q k b = record { at = λ w g. go w g (find w).0 (find w).1 refl (q w) }
    where
      go :
          (w : World)
          → Gated w
          → (r : Result A) (v : World) → (find w).0 ≡ r
          → v ≡ w
          → let out : Result B × World = elim r [
            | ok a ↦ (raise_if (c a) e >> (raise_if (d a) f >> (write a >>= rest a))) v
            | raised e ↦ (raised e, v)
          ] in
            Gated out.1 × Grows w.issued out.1.issued
      go w g (ok a) v h s =
          subst
            (λ u.
              let out = (raise_if (c a) e >> (raise_if (d a) f >> (write a >>= rest a))) u in
              Gated out.1 × Grows w.issued out.1.issued)
            (sym s) (refused_or_written w a (c a) (d a) refl refl b g (k a w h g))
      go w g (raised x) v h s =
          subst (λ u. Gated u × Grows w.issued u.issued) (sym s) (g, λ id h. h)
