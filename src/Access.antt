-- ===== src/Access.antt =====
-- Roles and capabilities: apps/api/core/roles.py, apps/api/integrations/capabilities.py,
-- host_context.py and the check of apps/api/integrations/permissions.py.
pub mod Monotone
use mission_control_platform.Prelude.{
  ℕ, String, Bool, true, false, Option, none, some, List, [], ◌∷◌, ◌==◌, leb, str_eq, any_of,
  if◌then◌else◌,
}
use mission_control_platform.Errors.{Result, Error, ok, err}

pub data Capability : Type 0 where
  view operate manage_agents manage_projects approve view_costs admin : Capability

abbrev pub capability_position : Capability → ℕ
capability_position view = 0
capability_position operate = 1
capability_position manage_agents = 2
capability_position manage_projects = 3
capability_position approve = 4
capability_position view_costs = 5
capability_position admin = 6

-- `capability in capabilities`.
abbrev pub grants : List Capability → Capability → Bool
grants cs c = any_of (λ d. capability_position d == capability_position c) cs

abbrev pub all_capabilities : List Capability
all_capabilities =
    view ∷ operate ∷ manage_agents ∷ manage_projects ∷ approve ∷ view_costs ∷ admin ∷ []

pub data Role : Type 0 where
  viewer developer pm cto admin : Role

-- `Role(role)`: `none` is its `ValueError`. The keys of `ROLE_CAPABILITIES` are the same names.
abbrev pub role_of : String → Option Role
role_of name =
    if str_eq name "viewer"
    then some Role.viewer
    else if str_eq name "developer"
    then some Role.developer
    else if str_eq name "pm"
    then some Role.pm
    else if str_eq name "cto"
    then some Role.cto
    else if str_eq name "admin"
    then some Role.admin
    else none

unfoldable pub role_capabilities : Role → List Capability
role_capabilities Role.viewer = view ∷ []
role_capabilities Role.developer = view ∷ operate ∷ []
role_capabilities Role.pm = view ∷ operate ∷ manage_projects ∷ approve ∷ view_costs ∷ []
role_capabilities Role.cto =
    view ∷ operate ∷ manage_projects ∷ manage_agents ∷ approve ∷ view_costs ∷ []
role_capabilities Role.admin = all_capabilities

abbrev capabilities_of : Option Role → List Capability
capabilities_of none = []
capabilities_of (some r) = role_capabilities r

-- The empty name is no key of the table either, so `not role` needs no test of its own.
unfoldable pub capabilities_for_role : Option String → List Capability
unfolding role_capabilities
capabilities_for_role none = []
capabilities_for_role (some name) = capabilities_of (role_of name)

unfoldable pub level : Role → ℕ
level Role.viewer = 0
level Role.developer = 1
level Role.pm = 2
level Role.cto = 3
level Role.admin = 4

-- `level_of(role) >= LEVEL[minimum]`, where the level of an unknown role is -1.
abbrev at_least : Option Role → ℕ → Bool
at_least none n = false
at_least (some r) n = leb n (level r)

unfoldable pub has_at_least : String → Role → Bool
unfolding level
has_at_least role minimum = at_least (role_of role) (level minimum)

pub record InstallationRef : Type 0 where
  pub id : Option ℕ
  pub installation_key : String
  pub external_tenant_id : String
  pub status : String

pub record UserRef : Type 0 where
  pub external_user_id : String
  pub local_user_id : Option ℕ
  pub email : Option String
  pub display_name : Option String
  pub status : String

-- The tenant's name, its flags, the locale and the time zone are read by no modelled operation.
pub record HostContext : Type 0 where
  pub request_id : String
  pub installation : InstallationRef
  pub user : UserRef
  pub capabilities : List Capability

unfoldable pub has : HostContext → Capability → Bool
has ctx c = grants ctx.capabilities c

unfoldable pub require_capability : HostContext → Capability → Result (Unit {0})
require_capability ctx c = if grants ctx.capabilities c then ok tt else err Error.permission_denied
