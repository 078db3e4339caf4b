-- ===== src/World/Safe.antt =====
-- Actions that never raise, whatever the outside services answer.
use interview_insights.Prelude.{◌≡◌, refl, Bool, true, false}
use interview_insights.World.{World, Action, Result, ok, raised, pure, gets, when, catching, ◌>>=◌}

abbrev pub IsOk : {A : Type 0} → Result A → Type 0
IsOk (ok a) = Unit
IsOk (raised e) = ⊥

pub record IsSafe {A : Type 0} (m : Action A) : Type 0 where
  pub at : (w : World) → IsOk (m w).0

module _ {A : Type 0} where
  pub IsSafe-pure : (a : A) → IsSafe (pure a)
  IsSafe-pure a = record { at = λ w. tt }

  pub IsSafe-gets : (f : World → A) → IsSafe (gets f)
  IsSafe-gets f = record { at = λ w. tt }

pub IsSafe-catching : (m : Action Unit) → IsSafe (catching m)
IsSafe-catching m = record { at = λ w. tt }

pub IsSafe-when : (c : Bool) (m : Action Unit) → IsSafe m → IsSafe (when c m)
IsSafe-when true m s = record { at = s.at }
IsSafe-when false m s = record { at = λ w. tt }

module _ {A B : Type 0} (f : A → Action B) (kf : (a : A) → IsSafe (f a)) where
  continue_safe :
      (r : Result A) (w : World)
      → IsOk r
      → let out : Result B × World = elim r [ ok a ↦ f a w | raised e ↦ (raised e, w) ] in
        IsOk out.0
  continue_safe (ok a) w h = (kf a).at w
  continue_safe (raised e) w h = h

  pub IsSafe-bind : (m : Action A) → IsSafe m → IsSafe (m >>= f)
  IsSafe-bind m km = record { at = λ w. continue_safe (m w).0 (m w).1 (km.at w) }

pub ruleset safe_rules = (IsSafe-pure, IsSafe-gets, IsSafe-catching, IsSafe-when, IsSafe-bind)

pub ok_of_IsSafe : (m : Action Unit) (w : World) → IsSafe m → (m w).0 ≡ ok tt
ok_of_IsSafe m w s = only (m w).0 (s.at w)
  where
    only : (r : Result Unit) → IsOk r → r ≡ ok tt
    only (ok tt) h = refl
    only (raised e) h = absurd h
