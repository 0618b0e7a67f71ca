-- ===== src/Listings.antt =====
-- The paginated lists of a tenant: `list_commands` of apps/api/agent_control/control/commands.py,
-- `list_approvals` of control/approvals.py, `list_policies` of control/policies.py, `list_runs` of
-- runs/service.py, `list_alerts` of operations/alerts.py, and `list_usage` and `aggregate` of
-- operations/usage.py.
use mission_control_platform.Prelude.{
  ℕ, String, Bool, true, ◌&&◌, Option, none, some, List, [], ◌∷◌, length, opt_eq, select, str_eq,
  take, sort_by, ltb, not, ◌||◌,
}
use mission_control_platform.Prelude.Int.{ℤ, pos, ◌+ℤ◌, ltb_ℤ}
use mission_control_platform.Errors.{Result}
use mission_control_platform.StateMachines.{RunState, CommandState, ApprovalState, AlertState}
use mission_control_platform.Access.{HostContext}
use mission_control_platform.Rows.{
  Uuid, Time, Amount, AgentCommand, ApprovalRequest, AgentRun, AgentUsageRecord, AgentAlert,
  AgentPolicy,
}
use mission_control_platform.Store.{Env, Store, RawId, tenant, truthy}
use mission_control_platform.Usage.{since_ok, sum_costs}
use mission_control_platform.Paging.{CursorCodec, Page, page, page_limit}

-- A filter on an identifier: one that is absent or malformed filters nothing.
abbrev pub wanted : RawId → Option Uuid → Bool
wanted (RawId.uuid i) value = opt_eq value (some i)
wanted raw value = true

-- A filter on a text: an empty one filters nothing.
abbrev pub has_text : Option String → String → Bool
has_text filter value = elim (truthy filter) [ some t ↦ str_eq value t | none ↦ true ]

unfoldable pub command_state_text : CommandState → String
command_state_text CommandState.queued = "queued"
command_state_text CommandState.delivered = "delivered"
command_state_text CommandState.acknowledged = "acknowledged"
command_state_text CommandState.succeeded = "succeeded"
command_state_text CommandState.failed = "failed"
command_state_text CommandState.expired = "expired"
command_state_text CommandState.cancelled = "cancelled"

-- `list_commands`.
unfoldable pub list_commands :
    Env
    → CursorCodec
    → HostContext
    → ℕ
    → Option String
    → RawId
    → RawId
    → Option String
    → Store
    → Result (Page AgentCommand)
unfolding page command_state_text
list_commands env codec ctx limit cursor run_id agent_id status s =
    page (λ c. c.created_at) (λ c. c.id) env codec limit cursor
      (select
        (λ c.
          opt_eq c.installation_id (tenant ctx)
          && (wanted run_id c.run_id
              && (wanted agent_id (some c.agent_id)
                  && has_text status (command_state_text c.status))))
        s.commands)

unfoldable pub approval_state_text : ApprovalState → String
approval_state_text ApprovalState.pending = "pending"
approval_state_text ApprovalState.approved = "approved"
approval_state_text ApprovalState.rejected = "rejected"
approval_state_text ApprovalState.expired = "expired"
approval_state_text ApprovalState.cancelled = "cancelled"

-- `list_approvals`.
unfoldable pub list_approvals :
    Env
    → CursorCodec
    → HostContext
    → ℕ
    → Option String
    → Option String
    → Store
    → Result (Page ApprovalRequest)
unfolding page approval_state_text
list_approvals env codec ctx limit cursor status s =
    page (λ a. a.created_at) (λ a. a.id) env codec limit cursor
      (select
        (λ a.
          opt_eq a.installation_id (tenant ctx) && has_text status (approval_state_text a.status))
        s.approvals)

unfoldable pub run_state_text : RunState → String
run_state_text RunState.queued = "queued"
run_state_text RunState.starting = "starting"
run_state_text RunState.running = "running"
run_state_text RunState.waiting_approval = "waiting_approval"
run_state_text RunState.blocked = "blocked"
run_state_text RunState.succeeded = "succeeded"
run_state_text RunState.failed = "failed"
run_state_text RunState.cancelled = "cancelled"
run_state_text RunState.timed_out = "timed_out"

-- `list_runs`.
unfoldable pub list_runs :
    Env
    → CursorCodec
    → HostContext
    → ℕ
    → Option String
    → RawId
    → RawId
    → Option String
    → Store
    → Result (Page AgentRun)
unfolding page run_state_text
list_runs env codec ctx limit cursor project_id agent_id state s =
    page (λ r. r.created_at) (λ r. r.id) env codec limit cursor
      (select
        (λ r.
          opt_eq r.installation_id (tenant ctx)
          && (wanted project_id r.project_id
              && (wanted agent_id (some r.agent_id) && has_text state (run_state_text r.state))))
        s.runs)

-- The conditions that the two readings of the consumption share.
abbrev pub of_usage : HostContext → RawId → RawId → AgentUsageRecord → Bool
of_usage ctx project_id agent_id r =
    opt_eq r.installation_id (tenant ctx)
    && (wanted project_id r.project_id && wanted agent_id (some r.agent_id))

-- `list_usage`.
unfoldable pub list_usage :
    Env
    → CursorCodec
    → HostContext
    → ℕ
    → Option String
    → RawId
    → RawId
    → Store
    → Result (Page AgentUsageRecord)
unfolding page
list_usage env codec ctx limit cursor project_id agent_id s =
    page (λ r. r.occurred_at) (λ r. r.id) env codec limit cursor
      (select (of_usage ctx project_id agent_id) s.usage)

pub record UsageAggregate : Type 0 where
  pub total_cost : Amount
  pub total_tokens : ℤ
  pub total_calls : ℤ
  pub currency : String
  pub record_count : ℕ

unfoldable pub sum_of : (AgentUsageRecord → ℤ) → List AgentUsageRecord → ℤ
unfolding ◌+ℤ◌
sum_of f [] = pos 0
sum_of f (r ∷ rs) = f r +ℤ sum_of f rs

-- `aggregate`.
unfoldable pub aggregate : HostContext → Option Time → RawId → RawId → Store → UsageAggregate
unfolding sum_costs sum_of
aggregate ctx since project_id agent_id s =
    let rows = select (λ r. of_usage ctx project_id agent_id r && since_ok since r) s.usage in
    record {
      total_cost = sum_costs rows;
      total_tokens = sum_of (λ r. r.total_tokens) rows;
      total_calls = sum_of (λ r. r.calls) rows;
      currency = "USD";
      record_count = length rows;
    }

unfoldable pub alert_state_text : AlertState → String
alert_state_text AlertState.opened = "open"
alert_state_text AlertState.acknowledged = "acknowledged"
alert_state_text AlertState.resolved = "resolved"

-- `list_alerts`.
unfoldable pub list_alerts :
    Env
    → CursorCodec
    → HostContext
    → ℕ
    → Option String
    → Option String
    → Option String
    → Store
    → Result (Page AgentAlert)
unfolding page alert_state_text
list_alerts env codec ctx limit cursor status severity s =
    page (λ a. a.opened_at) (λ a. a.id) env codec limit cursor
      (select
        (λ a.
          opt_eq a.installation_id (tenant ctx)
          && (has_text status (alert_state_text a.status) && has_text severity a.severity))
        s.alerts)

-- `list_policies`, by priority and then the latest first.
unfoldable pub list_policies : HostContext → ℕ → Store → List AgentPolicy
unfolding page_limit
list_policies ctx limit s = take (page_limit limit) (
    sort_by
      (λ a b.
        ltb_ℤ b.priority a.priority
        || (not (ltb_ℤ a.priority b.priority) && ltb b.created_at a.created_at))
      (select (λ p. opt_eq p.installation_id (tenant ctx)) s.policies))
