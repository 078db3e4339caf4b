-- ===== src/World/Quiet.antt =====
-- Actions that change nothing but the requests that were sent, one rule for each way to build one.
use interview_insights.Prelude.{◌≡◌, refl, ap, ◌∙◌, Bool, true, false, Option, none, some, List}
use interview_insights.World.Calls.{Call}
use interview_insights.World.{
  World, Action, Failure, Result, ok, raised, pure, raise, raise_if, or_raise, gets, request, when,
  catching, ◌>>=◌,
}

abbrev pub with_calls : World → List Call → World
with_calls w cs = record w { calls = cs }

pub record IsQuiet {A : Type 0} (m : Action A) : Type 0 where
  pub at : (w : World) → (m w).1 ≡ with_calls w (m w).1.calls

module _ {A : Type 0} where
  pub IsQuiet-pure : (a : A) → IsQuiet (pure a)
  IsQuiet-pure a = record { at = λ w. refl }

  pub IsQuiet-raise : (e : Failure) → IsQuiet (raise {A = A} e)
  IsQuiet-raise e = record { at = λ w. refl }

  pub IsQuiet-or_raise : (o : Option A) (e : Failure) → IsQuiet (or_raise o e)
  IsQuiet-or_raise none e = record { at = λ w. refl }
  IsQuiet-or_raise (some a) e = record { at = λ w. refl }

  pub IsQuiet-gets : (f : World → A) → IsQuiet (gets f)
  IsQuiet-gets f = record { at = λ w. refl }

pub IsQuiet-raise_if : (c : Bool) (e : Failure) → IsQuiet (raise_if c e)
IsQuiet-raise_if c e = record { at = λ w. refl }

pub IsQuiet-request : (c : Call) → IsQuiet (request c)
IsQuiet-request c = record { at = λ w. refl }

pub IsQuiet-when : (c : Bool) (m : Action Unit) → IsQuiet m → IsQuiet (when c m)
IsQuiet-when true m q = record { at = q.at }
IsQuiet-when false m q = record { at = λ w. refl }

pub IsQuiet-catching : (m : Action Unit) → IsQuiet m → IsQuiet (catching m)
IsQuiet-catching m q = record { at = λ w. q.at w }

module _ {A B : Type 0} (f : A → Action B) (kf : (a : A) → IsQuiet (f a)) where
  continue_quiet :
      (r : Result A) (w w' : World)
      → w' ≡ with_calls w w'.calls
      → let out : Result B × World = elim r [ ok a ↦ f a w' | raised e ↦ (raised e, w') ] in
        out.1 ≡ with_calls w out.1.calls
  continue_quiet (ok a) w w' h = (kf a).at w' ∙ ap (λ v. with_calls v (f a w').1.calls) h
  continue_quiet (raised e) w w' h = h

  pub IsQuiet-bind : (m : Action A) → IsQuiet m → IsQuiet (m >>= f)
  IsQuiet-bind m km = record { at = λ w. continue_quiet (m w).0 w (m w).1 (km.at w) }

pub ruleset quiet_rules = (
  IsQuiet-pure, IsQuiet-raise, IsQuiet-or_raise, IsQuiet-gets, IsQuiet-raise_if, IsQuiet-request,
  IsQuiet-when, IsQuiet-catching, IsQuiet-bind,
)
