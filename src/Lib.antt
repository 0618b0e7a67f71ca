-- ===== src/Lib.antt =====
-- The control plane of the agents, apps/api/agent_control, with the contract that it stands on,
-- apps/api/integrations: operators submit commands to the runs of agents, policies and budgets
-- decide whether a command is refused, released or held for an approval, agents fetch what is
-- released, and all of it is audited, masked and announced through an outbox.
--
-- The parts. Each file opens with the path of the code that it is about.
-- * StateMachines, Errors, Access and Routes are the contract: the transition tables of
--   apps/api/integrations/state_machines.py, the errors and codes of
--   apps/api/integrations/errors.py and envelopes.py, the roles and capabilities of
--   apps/api/integrations/capabilities.py and apps/api/core/roles.py, and the matrix of
--   apps/api/integrations/permissions.py.
-- * Json, Rows and Store are the data: JSON values, the rows of apps/api/models, and the database
--   as a record of tables. A service maps the committed store to a result and the store that it
--   commits; a raise that commits nothing gives the store back. Rows that are added come last,
--   `select(…)` followed by `scalar` is `find_first`, and an UPDATE is `update_where`.
-- * Redaction, Audit, Outbox, Decimals and Pricing are
--   apps/api/agent_control/operations/redaction.py, audit.py, outbox.py and pricing.py. An amount
--   is a number of units of 10^-8, the scale of the columns; Decimals is the text that Python
--   gives to such a decimal.
-- * Policies (with Crud, the creation, change and disabling) is
--   apps/api/agent_control/control/policies.py; Usage, Calendar, Alerts and Budgets are
--   apps/api/agent_control/operations/usage.py, the dates that budgets use, alerts.py and
--   budgets.py. Budgets.Crud is the creation, change and list of budgets, with the rounding of a
--   limit by its column, apps/api/models/agent_control.py.
-- * Runs is apps/api/agent_control/runs/service.py: the reading of a run, which submissions use,
--   `transition_run`, and below it the projections of events on the runs (Runs.Projection) and on
--   their steps (Runs.Steps).
-- * Ingest is apps/api/agent_control/ingest/service.py: the batches of events (Ingest.Batch), which
--   are logged, written to the outbox and projected on runs and consumption in one transaction, and
--   the heartbeats (Ingest.Heartbeat). The other modules below Ingest are proofs.
-- * Security is the credentials of the agents, apps/api/core/security.py and
--   apps/api/agent_control/ingest/auth.py; Registry, which emits and withdraws them, is
--   apps/api/agent_control/registry/service.py.
-- * Commands (with Submit, `submit_command`, and Delivery, the agent's side) is
--   apps/api/agent_control/control/commands.py, with the long poll below Delivery; Approvals is
--   apps/api/agent_control/control/approvals.py. Submission calls Policies, Budgets and Audit; a
--   decision on an approval releases or cancels the command that is linked to it.
-- * Paging is the query that the paginated lists share, with their cursors, and Listings has
--   those of the commands, the approvals, the policies, the runs, the alerts and the
--   consumption, and `aggregate`.
-- * Control puts Commands and Approvals together as a step relation: each step is one transaction, and the steps
--   of all users and agents come in any order.
-- * Prelude holds the helpers that are shared, and Examples concrete runs.
--
-- Assumptions and limits. A request reads the clock once; a long poll reads it once in each of its
-- rounds, which are a list, so that no fuel is needed: every loop is recursion on a list.
-- Transactions are taken one after another. `uuid4` takes the next number of a supply. What the
-- interpreter's Unicode tables say of characters beyond ASCII, the hash function, the draws of
-- `secrets`, and what `str`, `int`, `uuid.UUID`, `datetime.fromisoformat` and the division of
-- floats give for the values of a payload are parameters. The columns that the database fills in on
-- an update, `updated_at`, are left out. A cursor is what an encoder makes of a time and an
-- identifier: base64 and `isoformat` are a record of two functions. A limit of a budget is a decimal
-- of any number of places, which the column rounds to eight, a half away from zero, as PostgreSQL
-- does. Costs are computed exactly, where `Decimal` keeps 28 digits, and the JSON column of the
-- thresholds holds integers, as the validation has it. A text column that the code
-- compares with literals is a data type with a constructor for each literal and one for any other
-- text; the details and texts of errors are left out, and so are the columns that no modelled
-- operation uses. An identifier in a request is absent, malformed or a UUID.
--
-- Not modelled: the lists of the audit log and of the agents, the timeline of a run, the CSV
-- export, the assignments of projects, the overview, the relay and the websockets, the adapters of
-- identities, the passwords and tokens of users, the HTTP routes, which only call the services, and
-- the parts outside apps/api.
pub mod Prelude
pub mod StateMachines
pub mod Errors
pub mod Access
pub mod Routes
pub mod Json
pub mod Redaction
pub mod Rows
pub mod Store
pub mod Audit
pub mod Policies
pub mod Pricing
pub mod Outbox
pub mod Decimals
pub mod Usage
pub mod Calendar
pub mod Alerts
pub mod Budgets
pub mod Runs
pub mod Commands
pub mod Ingest
pub mod Security
pub mod Registry
pub mod Paging
pub mod Listings
pub mod Approvals
pub mod Control
pub mod Examples
