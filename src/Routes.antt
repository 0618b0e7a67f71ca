-- ===== src/Routes.antt =====
-- The table of routes of apps/api/integrations/permissions.py: what each route of the V1 contract
-- asks of its caller.
pub mod Writes
use mission_control_platform.Prelude.{
  ℕ, String, Bool, Option, none, some, List, [], ◌∷◌, ◌==◌, ◌&&◌, str_eq, if◌then◌else◌,
}
use mission_control_platform.Access.{
  Capability, view, operate, manage_agents, manage_projects, approve, view_costs, admin,
}

pub data Method : Type 0 where
  get post patch delete : Method

abbrev pub method_position : Method → ℕ
method_position get = 0
method_position post = 1
method_position patch = 2
method_position delete = 3

pub data RequiredAuth : Type 0 where
  capability : Capability → RequiredAuth
  agent_credential : RequiredAuth

pub record Route : Type 0 where
  pub method : Method
  pub path : String
  pub auth : RequiredAuth

abbrev route : Method → String → RequiredAuth → Route
route m p a = record { method = m; path = p; auth = a }

unfoldable pub route_capabilities : List Route
route_capabilities =
    route get "/agent-control/v1/context" (capability view)
    ∷ route get "/agent-control/v1/capabilities" (capability view)
    ∷ route get "/agent-control/v1/health" (capability view)
    ∷ route post "/agent-control/v1/installations/{id}/activate" (capability admin)
    ∷ route get "/agent-control/v1/agents" (capability view)
    ∷ route post "/agent-control/v1/agents" (capability manage_agents)
    ∷ route get "/agent-control/v1/agents/{id}" (capability view)
    ∷ route patch "/agent-control/v1/agents/{id}" (capability manage_agents)
    ∷ route get "/agent-control/v1/agents/{id}/health" (capability view)
    ∷ route post "/agent-control/v1/agents/{id}/credentials" (capability manage_agents)
    ∷ route post "/agent-control/v1/agents/{id}/credentials/{credential_id}/rotate"
        (capability manage_agents)
    ∷ route delete "/agent-control/v1/agents/{id}/credentials/{credential_id}"
        (capability manage_agents)
    ∷ route post "/agent-control/v1/agents/{id}/suspend" (capability manage_agents)
    ∷ route post "/agent-control/v1/agents/{id}/resume" (capability manage_agents)
    ∷ route post "/agent-control/v1/agents/{id}/archive" (capability manage_agents)
    ∷ route post "/agent-control/v1/ingest/events" agent_credential
    ∷ route post "/agent-control/v1/ingest/heartbeat" agent_credential
    ∷ route get "/agent-control/v1/agent/commands" agent_credential
    ∷ route post "/agent-control/v1/agent/commands/{id}/ack" agent_credential
    ∷ route post "/agent-control/v1/agent/commands/{id}/result" agent_credential
    ∷ route get "/agent-control/v1/projects" (capability view)
    ∷ route post "/agent-control/v1/projects" (capability manage_projects)
    ∷ route get "/agent-control/v1/projects/{id}" (capability view)
    ∷ route patch "/agent-control/v1/projects/{id}" (capability manage_projects)
    ∷ route delete "/agent-control/v1/projects/{id}" (capability manage_projects)
    ∷ route get "/agent-control/v1/projects/{id}/tasks" (capability view)
    ∷ route post "/agent-control/v1/projects/{id}/tasks" (capability manage_projects)
    ∷ route get "/agent-control/v1/tasks/{id}" (capability view)
    ∷ route patch "/agent-control/v1/tasks/{id}" (capability manage_projects)
    ∷ route post "/agent-control/v1/tasks/{id}/assign" (capability manage_projects)
    ∷ route get "/agent-control/v1/runs" (capability view)
    ∷ route get "/agent-control/v1/runs/{id}" (capability view)
    ∷ route get "/agent-control/v1/runs/{id}/timeline" (capability view)
    ∷ route post "/agent-control/v1/runs/{id}/commands" (capability operate)
    ∷ route get "/agent-control/v1/approvals" (capability view)
    ∷ route get "/agent-control/v1/approvals/{id}" (capability view)
    ∷ route post "/agent-control/v1/approvals/{id}/approve" (capability approve)
    ∷ route post "/agent-control/v1/approvals/{id}/reject" (capability approve)
    ∷ route get "/agent-control/v1/policies" (capability view)
    ∷ route post "/agent-control/v1/policies" (capability admin)
    ∷ route patch "/agent-control/v1/policies/{id}" (capability admin)
    ∷ route delete "/agent-control/v1/policies/{id}" (capability admin)
    ∷ route get "/agent-control/v1/alerts" (capability view)
    ∷ route post "/agent-control/v1/alerts/{id}/acknowledge" (capability operate)
    ∷ route post "/agent-control/v1/alerts/{id}/resolve" (capability operate)
    ∷ route get "/agent-control/v1/dashboard" (capability view)
    ∷ route get "/agent-control/v1/usage" (capability view_costs)
    ∷ route get "/agent-control/v1/budgets" (capability view_costs)
    ∷ route post "/agent-control/v1/budgets" (capability view_costs)
    ∷ route patch "/agent-control/v1/budgets/{id}" (capability view_costs)
    ∷ route get "/agent-control/v1/reports/export.csv" (capability view_costs)
    ∷ route get "/agent-control/v1/audit" (capability view)
    ∷ []

-- `ROUTE_CAPABILITIES.get("METHOD /path")`.
unfoldable pub required_auth : Method → String → List Route → Option RequiredAuth
required_auth m p [] = none
required_auth m p (r ∷ rs) =
    if (method_position r.method == method_position m) && str_eq r.path p
    then some r.auth
    else required_auth m p rs
