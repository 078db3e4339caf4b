-- ===== src/World.antt =====
-- What a service method runs in: the database, the clock, the requests to the outside services, and
-- exceptions. A request is recorded whether or not it succeeds; what a failed transaction wrote is
-- undone, and what was requested or written before any other raise stays.
pub mod Calls
pub mod Quiet
pub mod Safe
use interview_insights.Prelude.{
  ℕ, String, Bool, true, false, Option, none, some, List, [], ◌∷◌, ◌++◌, if◌then◌else◌,
}
use interview_insights.Prisma.{Prisma}
use interview_insights.Schema.{Db}
use Calls.{Call}

-- The exceptions that the services throw: Nest's, and those of the database client.
pub data Failure : Type 0 where
  bad_request conflict forbidden not_found unauthorized gone : String → Failure
  error : String → Failure
  record_not_found unique_violation foreign_key_violation outage : Failure

pub data Result (A : Type 0) : Type 0 where
  ok : A → Result A
  raised : Failure → Result A

-- MODERATION_SLA_HOURS, as the process finds it: not set, set to "", a text that is no positive
-- finite number, or a whole number of hours.
pub data SlaEnv : Type 0 where
  unset empty invalid : SlaEnv
  hours : ℕ → SlaEnv

pub record World : Type 0 where
  pub db : Db
  pub now : ℕ
  pub issued : List ℕ
  pub calls : List Call
  pub answers : Call → Bool
  pub connected : Bool
  -- Does the database take the stamp of an announced queue entry? Elsewhere it does not fail.
  pub takes_stamp : ℕ → Bool
  pub sla_env : SlaEnv

abbrev pub Action : Type 0 → Type 0
Action A = World → Result A × World

module _ {A : Type 0} where
  abbrev pub pure : A → Action A
  pure a w = (ok a, w)

  abbrev pub raise : Failure → Action A
  raise e w = (raised e, w)

  abbrev pub or_raise : Option A → Failure → Action A
  or_raise none e w = (raised e, w)
  or_raise (some a) e w = (ok a, w)

  abbrev pub gets : (World → A) → Action A
  gets f w = (ok (f w), w)

abbrev pub raise_if : Bool → Failure → Action Unit
raise_if c e w = (if c then raised e else ok tt, w)

infixl 5 ◌>>=◌ ◌>>◌
abbrev pub ◌>>=◌ : {A B : Type 0} → Action A → (A → Action B) → Action B
◌>>=◌ m f w = let (r, w') = m w in elim r [ ok a ↦ f a w' | raised e ↦ (raised e, w') ]

abbrev pub ◌>>◌ : {A B : Type 0} → Action A → Action B → Action B
m >> k = m >>= λ _. k

-- `if (c) await m;`
abbrev pub when : Bool → Action Unit → Action Unit
when c m w = if c then m w else (ok tt, w)

abbrev pub put_db : Db → Action Unit
put_db d w = (ok tt, record w { db = d })

-- `try { m } catch (err) { log }`
abbrev pub catching : Action Unit → Action Unit
catching m w = (ok tt, (m w).1)

-- `prisma.$transaction(m)`
abbrev pub transaction : {A : Type 0} → Action A → Action A
transaction m w =
    let (r, w') = m w in
    elim r [ ok a ↦ (ok a, w') | raised e ↦ (raised e, record w' { db = w.db }) ]

-- One request to an outside service, which answers or fails.
abbrev pub request : Call → Action Unit
request c w = (if w.answers c then ok tt else raised outage, record w { calls = w.calls ++ c ∷ [] })

module _ ⦃P : Prisma⦄ where
  -- `@default(uuid())`
  abbrev pub draw_id : Action ℕ
  draw_id w = let id = P.uuid w.issued in (ok id, record w { issued = id ∷ w.issued })
