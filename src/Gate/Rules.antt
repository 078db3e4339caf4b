-- ===== src/Gate/Rules.antt =====
-- What keeps the gate, one rule for each way to build an action.
use interview_insights.Prelude.{ℕ, true, ◌≡◌, List, contains, All-mono, sym, subst}
use interview_insights.Schema.{Db}
use interview_insights.World.{World, Action, Result, ok, raised, transaction, ◌>>=◌}
use interview_insights.World.Quiet.{IsQuiet}
use interview_insights.World.Safe.{IsOk}
use interview_insights.Gate.{IsGated, Grows}

pub IsGated-Grows :
    (db : Db) (issued issued' : List ℕ)
    → Grows issued issued'
    → IsGated db issued
    → IsGated db issued'
IsGated-Grows db issued issued' m g = record {
  keyed = g.keyed;
  entries = All-mono (λ e. contains e.id issued ≡ true) db.queue (λ e h. m e.id h) g.entries;
  entities = λ t id h. m id (g.entities t id h);
  gate = g.gate;
  reviews = g.reviews;
  processes = g.processes;
}

-- The world is gated.
abbrev pub Gated : World → Type 0
Gated w = IsGated w.db w.issued

-- The gate is kept, whether or not the action succeeds.
pub record Keeps {A : Type 0} (m : Action A) : Type 0 where
  pub at : (w : World) → Gated w → Gated (m w).1 × Grows w.issued (m w).1.issued

-- The gate is kept where the action succeeds: it is a part of a transaction.
pub record Guards {A : Type 0} (m : Action A) : Type 0 where
  pub at : (w : World) → Gated w → (IsOk (m w).0 → Gated (m w).1) × Grows w.issued (m w).1.issued

module _ {A : Type 0} (m : Action A) where
  pub Keeps-quiet : IsQuiet m → Keeps m
  Keeps-quiet q = record {
    at = λ w g. subst (λ v. Gated v × Grows w.issued v.issued) (sym (q.at w)) (g, λ id h. h);
  }

  pub Guards-Keeps : Keeps m → Guards m
  Guards-Keeps k = record { at = λ w g. ((λ h. (k.at w g).0), (k.at w g).1) }

  committed_or_not :
      (w : World) (r : Result A) (v : World)
      → Gated w
      → (IsOk r → Gated v)
      → Grows w.issued v.issued
      → let out : Result A × World = elim r [
        | ok a ↦ (ok a, v)
        | raised e ↦ (raised e, record v { db = w.db })
      ] in
        Gated out.1 × Grows w.issued out.1.issued
  committed_or_not w (ok a) v g h m = (h tt, m)
  committed_or_not w (raised e) v g h m = (IsGated-Grows w.db w.issued v.issued m g, m)

  pub Keeps-transaction : Guards m → Keeps (transaction m)
  Keeps-transaction k = record {
    at = λ w g. committed_or_not w (m w).0 (m w).1 g (k.at w g).0 (k.at w g).1;
  }

module _ {A B : Type 0} (f : A → Action B) where
  pub continue-Keeps :
      ((a : A) → Keeps (f a))
      → (w : World) (r : Result A) (v : World) → Gated v
      → Grows w.issued v.issued
      → let out : Result B × World = elim r [ ok a ↦ f a v | raised e ↦ (raised e, v) ] in
        Gated out.1 × Grows w.issued out.1.issued
  continue-Keeps k w (ok a) v g m = (((k a).at v g).0, λ id h. ((k a).at v g).1 id (m id h))
  continue-Keeps k w (raised e) v g m = (g, m)

  pub Keeps-bind : ((a : A) → Keeps (f a)) → (m : Action A) → Keeps m → Keeps (m >>= f)
  Keeps-bind k m km = record {
    at = λ w g. continue-Keeps k w (m w).0 (m w).1 (km.at w g).0 (km.at w g).1;
  }

  continue-Guards :
      ((a : A) → Guards (f a))
      → (w : World) (r : Result A) (v : World) → (IsOk r → Gated v)
      → Grows w.issued v.issued
      → let out : Result B × World = elim r [ ok a ↦ f a v | raised e ↦ (raised e, v) ] in
        (IsOk out.0 → Gated out.1) × Grows w.issued out.1.issued
  continue-Guards k w (ok a) v g m = let at = (k a).at v (g tt) in (at.0, λ id h. at.1 id (m id h))
  continue-Guards k w (raised e) v g m = ((λ h. absurd h), m)

  pub Guards-bind : ((a : A) → Guards (f a)) → (m : Action A) → Guards m → Guards (m >>= f)
  Guards-bind k m km = record {
    at = λ w g. continue-Guards k w (m w).0 (m w).1 (km.at w g).0 (km.at w g).1;
  }
