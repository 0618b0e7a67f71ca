-- ===== src/Store.antt =====
-- The database as the services see it, what a request reads of its surroundings, and the two
-- writers that every service shares: `_emit` of apps/api/agent_control/control/commands.py and the
-- functions of apps/api/agent_control/operations/audit.py.
-- A service maps the committed store to what it returns or raises and the store that is committed
-- then: what it wrote before a raise and did not commit is not in that store. A row that is added
-- comes last in its table. `uuid4` takes the next of a supply of identifiers.
pub mod Keeps
use Prim.Native.String.{◌++◌ as str_append}
use mission_control_platform.Prelude.{
  ℕ, zero, suc, ◌+◌, ◌*◌, ◌/◌, ◌%◌, ◌^◌, String, Option, none, some, List, [], ◌∷◌, ◌++◌, ◌==◌,
  str_eq, if◌then◌else◌,
}
use mission_control_platform.Prelude.Int.{ℤ}
use mission_control_platform.Json.{Json, Fields, null, str}
use mission_control_platform.Redaction.{Unicode}
use mission_control_platform.Errors.{Result, Error, ok, err}
use mission_control_platform.Access.{HostContext}
use mission_control_platform.Rows.{
  Uuid, Time, Effect, AgentPolicy, ApprovalRequest, AgentCommand, Agent, AgentCredential, AgentRun,
  AgentRunStep, AgentEvent, AgentProjectAssignment, AgentUsageRecord, AgentBudget, AgentAlert,
  AuditLog, ActivityLog, OutboxEvent,
}

pub record Settings : Type 0 where
  pub mc_stale_seconds : ℕ
  pub mc_event_batch_max : ℕ
  pub mc_command_long_poll_seconds : ℕ
  pub mc_command_default_ttl_seconds : ℕ
  pub mc_approval_default_ttl_seconds : ℕ
  pub mc_policy_default_effect : Effect

-- The clock, which a request reads as one moment, the settings, and the functions of the language and
-- of its libraries that the services call: `str` and `int` of a value of a payload, where `none` is a
-- `ValueError` or a `TypeError`, `uuid.UUID` and `datetime.fromisoformat` of a text, in the same way,
-- and the milliseconds that the floats give for a number of microseconds.
pub record Env : Type 0 where
  pub now : Time
  pub settings : Settings
  pub unicode : Unicode
  pub sha256_hex : String → String
  pub show : Json → String
  pub int_of : Json → Option ℤ
  pub uuid_of : String → Option Uuid
  pub time_of : String → Option Time
  pub milliseconds : ℤ → ℤ

pub record Store : Type 0 where
  pub agents : List Agent
  pub credentials : List AgentCredential
  pub runs : List AgentRun
  pub steps : List AgentRunStep
  pub events : List AgentEvent
  pub assignments : List AgentProjectAssignment
  pub commands : List AgentCommand
  pub approvals : List ApprovalRequest
  pub policies : List AgentPolicy
  pub budgets : List AgentBudget
  pub usage : List AgentUsageRecord
  pub alerts : List AgentAlert
  pub audits : List AuditLog
  pub activity : List ActivityLog
  pub outbox : List OutboxEvent
  pub next_id : Uuid

-- A service: what it returns or raises, and the store that is committed.
abbrev pub Service : Type 0 → Type 0
Service A = Store → Result A × Store

-- Goes on with what was read; a raise commits nothing.
abbrev pub with_ok : {A B : Type 0} → Result A → Store → (A → Result B × Store) → Result B × Store
with_ok (ok a) s f = f a
with_ok (err e) s f = (err e, s)

abbrev pub or_not_found : {A : Type 0} → Option A → Result A
or_not_found none = err Error.resource_not_found
or_not_found (some a) = ok a

-- `timedelta(seconds=n)`.
abbrev pub seconds : ℕ → Time
seconds n = n * 1000000

-- An identifier as a request gives it: absent, the text of a UUID, or another text.
pub data RawId : Type 0 where
  absent malformed : RawId
  uuid : Uuid → RawId

abbrev pub as_uuid : RawId → Option Uuid
as_uuid RawId.absent = none
as_uuid RawId.malformed = none
as_uuid (RawId.uuid n) = some n

abbrev pub tenant : HostContext → Option Uuid
tenant ctx = ctx.installation.id

-- A text that Python takes for true, that is, one that is not empty.
abbrev pub truthy : Option String → Option String
truthy none = none
truthy (some t) = if str_eq t "" then none else some t

unfoldable pub hex_digit : ℕ → String
hex_digit zero = "0"
hex_digit (suc zero) = "1"
hex_digit (suc (suc zero)) = "2"
hex_digit (suc (suc (suc zero))) = "3"
hex_digit (suc (suc (suc (suc zero)))) = "4"
hex_digit (suc (suc (suc (suc (suc zero))))) = "5"
hex_digit (suc (suc (suc (suc (suc (suc zero)))))) = "6"
hex_digit (suc (suc (suc (suc (suc (suc (suc zero))))))) = "7"
hex_digit (suc (suc (suc (suc (suc (suc (suc (suc n)))))))) =
    if n == 0
    then "8"
    else if n == 1
    then "9"
    else if n == 2
    then "a"
    else if n == 3
    then "b"
    else if n == 4
    then "c"
    else if n == 5
    then "d"
    else if n == 6
    then "e"
    else "f"

-- The last digits of a number in base 16, as many as the first argument says.
unfoldable pub hex_text : ℕ → ℕ → String
unfolding hex_digit
hex_text zero n = ""
hex_text (suc k) n = str_append (hex_text k (n / 16)) (hex_digit (n % 16))

-- `str(uuid)`: 32 digits in groups of 8, 4, 4, 4 and 12.
unfoldable pub uuid_text : Uuid → String
unfolding hex_text
uuid_text n = str_append (hex_text 8 (n / 16 ^ 24)) (
    str_append "-" (
      str_append (hex_text 4 (n / 16 ^ 20)) (
        str_append "-" (
          str_append (hex_text 4 (n / 16 ^ 16)) (
            str_append "-"
              (str_append (hex_text 4 (n / 16 ^ 12)) (str_append "-" (hex_text 12 n))))))))

-- `str(value) if value else None`, in a payload.
abbrev pub id_or_null : Option Uuid → Json
id_or_null none = null
id_or_null (some n) = str (uuid_text n)

-- `_emit`: an event for the relay, written to the outbox.
unfoldable pub emit : Option Uuid → String → String → Fields → Store → Store
emit installation_id event_type topic payload s = record s {
  outbox =
      s.outbox
      ++ record {
        installation_id = installation_id;
        event_id = uuid_text s.next_id;
        event_type = event_type;
        topic = topic;
        sequence = none;
        payload = payload;
        status = "pending";
      }
        ∷ [];
  next_id = s.next_id + 1;
}
