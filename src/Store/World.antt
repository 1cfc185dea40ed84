-- ===== src/Store/World.antt =====
-- What a sequence of calls runs in: the tables, the messages published and the calls made to the
-- services outside, and the environment that decides which calls fail. A function of the program
-- that returns `(value, error)` is an action `M A`; what it wrote before an error stays written.
use microservice_diagnosis.Prelude.{ℕ, ◌+◌, String, Bool, not, ◌||◌, Option, List, if◌then◌else◌}
use microservice_diagnosis.Store.Rows.{
  Uuid, Time, Status, DiagnosticSession, FixAction, Approval, SessionEvent,
}

-- The errors that some caller tells apart by `errors.Is`; `driver` is any other.
pub data Error : Type 0 where
  not_found : Error
  no_rows : Error
  session_not_found : Error
  invalid_transition : Error
  driver : Error

pub data Result {ℓ} (A : Type ℓ) : Type ℓ where
  ok : A → Result A
  err : Error → Result A

-- bus.CommandMessage, as published on a command topic.
pub record CommandMessage : Type 0 where
  pub topic : String
  pub session_id : Uuid
  pub target_service : String
  pub command : String
  pub agent_kind : String

pub data EventType : Type 0 where
  approval_required fix_executed : EventType

-- notify.DiagnosticEvent, as handed to the webhook notifier.
pub record DiagnosticEvent : Type 0 where
  pub event_type : EventType
  pub session_id : Uuid
  pub status : Status
  pub service : String
  pub timestamp : Time

pub record World : Type 0 where
  pub tick : ℕ
  pub sessions : List DiagnosticSession
  pub fixes : List FixAction
  pub approvals : List Approval
  pub events : List SessionEvent
  pub published : List CommandMessage
  pub executed : List Uuid
  pub notified : List DiagnosticEvent

-- The `Status` field of executor.ExecutionResult.
pub data ExecOutcome : Type 0 where
  succeeded failed rolled_back : ExecOutcome
  other : String → ExecOutcome

-- PostgreSQL, Kafka, the clock, the random source, and the services behind the interfaces of the
-- program, at each of the world's ticks.
pub record Env : Type 0 where
  pub fault : ℕ → Bool
  pub locked : Uuid → ℕ → Bool
  pub clock : ℕ → Time
  pub new_uuid : ℕ → Uuid
  pub execute : FixAction → ℕ → Option ExecOutcome
  pub request_approval : FixAction → ℕ → Option String
  pub create_incident : FixAction → ℕ → Option String

abbrev pub M : Type 0 → Type 0
M A = World → Result A × World

module _ {A : Type 0} where
  abbrev pub pure : A → M A
  pure a w = (ok a, w)

  abbrev pub throw : Error → M A
  throw e w = (err e, w)

module _ {A B : Type 0} where
  abbrev pub continue : Result A → (A → M B) → M B
  continue (ok a) f w = f a w
  continue (err e) f w = (err e, w)

  infixl 5 ◌>>=◌ ◌>>◌
  abbrev pub ◌>>=◌ : M A → (A → M B) → M B
  ◌>>=◌ m f w = continue (m w).0 f (m w).1

  abbrev pub ◌>>◌ : M A → M B → M B
  m >> k = m >>= λ _. k

-- The error of a call whose result is discarded or only logged.
abbrev pub try : {A : Type 0} → M A → M (Result A)
try m w = (ok (m w).0, (m w).1)

abbrev pub advance : World → World
advance w = record w { tick = w.tick + 1 }

-- One call of the database or the broker that yields nothing: it fails when the environment says
-- so, and then changes nothing but the tick.
unfoldable pub call : Env → (World → World) → M Unit
call env f w = if env.fault w.tick then (err driver, advance w) else (ok tt, advance (f w))

-- One query.
unfoldable pub query : {A : Type 0} → Env → (World → A) → M A
query env f w = if env.fault w.tick then (err driver, advance w) else (ok (f w), advance w)

-- An INSERT: a row that breaks a constraint of the table is refused.
unfoldable pub insert : Env → (World → Bool) → (World → World) → M Unit
insert env allowed f w =
    if env.fault w.tick || not (allowed w) then (err driver, advance w) else (ok tt, advance (f w))
