-- ===== src/Commands/Delivery.antt =====
-- The agent's side of the queue, apps/api/agent_control/control/commands.py, with the context of a
-- credential and the test of its scopes from apps/api/agent_control/ingest/auth.py.
pub mod Handed
pub mod Poll
use Prim.Native.String.{◌++◌ as str_append}
use mission_control_platform.Prelude.{
  ℕ, ◌+◌, ◌<◌, min, max, String, Bool, true, false, not, ◌&&◌, ◌||◌, Option, none, some, List, [],
  ◌∷◌, ◌++◌, ◌==◌, ltb, leb, opt_eq, is_some, find_first, select, update_where, length, str_eq,
  text_in, sort_by, if◌then◌else◌,
}
use mission_control_platform.Json.{Json, Fields, str, end, field}
use mission_control_platform.Errors.{Result, Error, ok, err, ◌>>=◌, ◌>>◌}
use mission_control_platform.StateMachines.{CommandState}
use mission_control_platform.Rows.{
  Uuid, Time, Agent, AgentCommand, AgentCredential, is_queued, command_is_expired,
}
use mission_control_platform.Store.{
  Env, Store, Service, RawId, as_uuid, with_ok, or_not_found, truthy, uuid_text, emit,
}
use mission_control_platform.Commands.{
  command_topic, transition_command, put_command, command_payload,
}

pub record AgentCredentialContext : Type 0 where
  pub credential : AgentCredential
  pub agent : Agent
  pub scopes : List String

-- `require_scope`.
unfoldable pub require_scope : AgentCredentialContext → String → Result (Unit {0})
require_scope ctx scope = if text_in scope ctx.scopes then ok tt else err Error.permission_denied

-- `ORDER BY created_at, id`.
unfoldable pub created_before : AgentCommand → AgentCommand → Bool
created_before c d =
    ltb c.created_at d.created_at || ((c.created_at == d.created_at) && ltb c.id d.id)

-- The test of `_deliverable_query`.
unfoldable pub waits_for : Agent → AgentCommand → Bool
waits_for agent c =
    (c.agent_id == agent.id)
    && (opt_eq c.installation_id agent.installation_id
        && (is_queued c.status && is_some c.released_at))

unfoldable pub deliverable_query : Agent → Store → List AgentCommand
unfolding waits_for created_before
deliverable_query agent s = sort_by created_before (select (waits_for agent) s.commands)

abbrev pub may_expire : CommandState → Bool
may_expire CommandState.queued = true
may_expire CommandState.delivered = true
may_expire s = false

-- `_expire_if_needed`.
unfoldable pub expire_if_needed : Time → AgentCommand → Store → Result (Bool × Store)
unfolding command_is_expired
expire_if_needed now c s =
    if may_expire c.status && command_is_expired c now
    then transition_command c CommandState.expired now >>= (λ d. ok (
      true,
      emit d.installation_id "command.expired" (command_topic d) (command_payload d end)
          (put_command d s),
    ))
    else ok (false, s)

unfoldable pub deliver : Time → Agent → AgentCommand → Store → Result (AgentCommand × Store)
deliver now agent c s = transition_command c CommandState.delivered now >>= λ d. ok (
  d,
  emit d.installation_id "command.delivered" (command_topic d)
      (command_payload d (field "agent_id" (str (uuid_text agent.id)) end)) (put_command d s),
)

-- The loop of `_fetch_and_deliver`, with what it has delivered so far.
unfoldable pub deliver_each :
    Time
    → Agent
    → ℕ
    → List AgentCommand
    → List AgentCommand
    → Store
    → Result (List AgentCommand × Store)
deliver_each now agent limit [] delivered s = ok (delivered, s)
deliver_each now agent limit (c ∷ cs) delivered s = expire_if_needed now c s >>= λ (expired, t).
    elim expired [
      | true ↦ deliver_each now agent limit cs delivered t
      | false ↦ deliver now agent c t >>= λ (d, u).
          elim (leb limit (length (delivered ++ d ∷ []))) [
            | true ↦ ok (delivered ++ d ∷ [], u)
            | false ↦ deliver_each now agent limit cs (delivered ++ d ∷ []) u
          ]
    ]

-- `_fetch_and_deliver`.
unfoldable pub fetch_and_deliver : Time → Agent → ℕ → Service (List AgentCommand)
fetch_and_deliver now agent limit s =
    with_ok (deliver_each now agent limit (deliverable_query agent s) [] s) s
      λ (delivered, t). (ok delivered, t)

-- One more look of a long poll: what the others committed during the sleep, and the time then.
pub record Round : Type 0 where
  pub meanwhile : Store → Store
  pub woken_at : Time

-- The loop of the long poll, over the looks that the deadline leaves room for.
unfoldable pub wait_loop :
    Agent → ℕ → List Round → Result (List AgentCommand) × Store → Result (List AgentCommand) × Store
unfolding fetch_and_deliver
wait_loop agent limit (r ∷ rs) (ok [], s) =
    wait_loop agent limit rs (fetch_and_deliver r.woken_at agent limit (r.meanwhile s))
wait_loop agent limit rs outcome = outcome

-- `ctx.credential.last_used_at = …`.
unfoldable pub use_credential : AgentCredentialContext → Time → Store → Store
use_credential ctx now s = record s {
  credentials =
      update_where (λ k. k.id == ctx.credential.id) (λ k. record k { last_used_at = some now })
        s.credentials;
}

-- `max(1, min(limit, 100))`.
unfoldable pub poll_limit : ℕ → ℕ
poll_limit limit = max 1 (min limit 100)

abbrev pub finish_poll :
    AgentCredentialContext
    → Time
    → Result (List AgentCommand) × Store
    → Result (List AgentCommand) × Store
finish_poll ctx ended (ok delivered, s) = (ok delivered, use_credential ctx ended s)
finish_poll ctx ended (err e, s) = (err e, s)

-- `poll_commands`, which starts at a moment, looks again in each round and ends at another.
unfoldable pub poll_commands :
    AgentCredentialContext → Time → List Round → Time → ℕ → Service (List AgentCommand)
unfolding wait_loop poll_limit fetch_and_deliver
poll_commands ctx started rounds ended limit s = with_ok (require_scope ctx "commands") s λ u.
    finish_poll ctx ended (
      wait_loop ctx.agent (poll_limit limit) rounds
        (fetch_and_deliver started ctx.agent (poll_limit limit) s))

abbrev pub in_scope_by_id : Option Uuid → AgentCredentialContext → Store → Option AgentCommand
in_scope_by_id none ctx s = none
in_scope_by_id (some cid) ctx s =
    find_first
      (λ c.
        (c.id == cid)
        && ((c.agent_id == ctx.agent.id) && opt_eq c.installation_id ctx.agent.installation_id))
      s.commands

-- `_agent_command_in_scope`.
unfoldable pub agent_command_in_scope : AgentCredentialContext → RawId → Store → Result AgentCommand
agent_command_in_scope ctx command_id s = or_not_found (in_scope_by_id (as_uuid command_id) ctx s)

unfoldable pub ack_command : AgentCredentialContext → Time → RawId → Service AgentCommand
ack_command ctx now command_id s =
    with_ok (require_scope ctx "commands" >> agent_command_in_scope ctx command_id s) s λ c.
      with_ok (transition_command c CommandState.acknowledged now) s λ d. (
        ok d,
        use_credential ctx now (
            emit d.installation_id "command.acknowledged" (command_topic d) (command_payload d end)
              (put_command d s)),
      )

-- The result that an agent publishes.
pub record CommandResultIn : Type 0 where
  pub status : String
  pub result_payload : Fields
  pub error_message : Option String

-- The state that a reported status asks for.
unfoldable pub result_target : String → Result CommandState
result_target status =
    if str_eq status "success"
    then ok CommandState.succeeded
    else if str_eq status "failure"
    then ok CommandState.failed
    else err Error.validation_failed

unfoldable pub with_result : CommandResultIn → AgentCommand → AgentCommand
with_result body c = record c {
  result_status = some body.status;
  result_payload = body.result_payload;
  error_message = if str_eq body.status "failure" then truthy body.error_message else none;
}

abbrev result_event : CommandState → String
result_event CommandState.succeeded = "command.succeeded"
result_event s = "command.failed"

unfoldable pub submit_result :
    AgentCredentialContext → Time → RawId → CommandResultIn → Service AgentCommand
unfolding result_target with_result
submit_result ctx now command_id body s =
    with_ok (require_scope ctx "commands" >> result_target body.status) s λ target.
      with_ok (agent_command_in_scope ctx command_id s) s λ c.
        with_ok (transition_command c target now) s λ d. (
          ok (with_result body d),
          use_credential ctx now (
              emit d.installation_id (result_event target) (command_topic d)
                (command_payload d (field "result_status" (str body.status) end))
                (put_command (with_result body d) s)),
        )
