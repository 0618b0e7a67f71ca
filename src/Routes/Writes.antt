-- ===== src/Routes/Writes.antt =====
-- Which callers the table of routes of apps/api/integrations/permissions.py lets write.
use mission_control_platform.Prelude.{
  String, Bool, true, false, some, List, [], ◌∷◌, ◌≡◌, refl, ◌==◌, ◌&&◌, ◌≢◌, arith,
}
use mission_control_platform.Access.{Capability, Role, view, grants, role_capabilities}
use mission_control_platform.Routes.{
  Method, get, RequiredAuth, capability, agent_credential, Route, method_position, required_auth,
  route_capabilities,
}

-- A route is read only, or a viewer's capabilities do not open it.
abbrev pub viewer_safe : Method → RequiredAuth → Bool
viewer_safe get auth = true
viewer_safe m agent_credential = true
viewer_safe m (capability view) = false
viewer_safe m (capability c) = true

all_safe : List Route → Bool
all_safe [] = true
all_safe (r ∷ rs) = viewer_safe r.method r.auth && all_safe rs

table_safe : all_safe route_capabilities ≡ true
unfolding all_safe route_capabilities
table_safe = refl

method_eq : (a b : Method) → (method_position a == method_position b) ≡ true → a ≡ b
method_eq a b h = ground arith

required_safe :
    (m : Method) (p : String) (rs : List Route) (a : RequiredAuth)
    → all_safe rs ≡ true
    → required_auth m p rs ≡ some a
    → viewer_safe m a ≡ true
unfolding all_safe required_auth
required_safe m p [] a h e = cc
required_safe m p (r ∷ rs) a h e = ground (arith, method_eq r.method m, required_safe m p rs a)

-- No route of the table that writes is opened by what a viewer is granted: a method that is not GET
-- asks for the agent credential or for a capability that the viewer role lacks.
pub writes_need_more :
    (m : Method) (p : String) (c : Capability)
    → m ≢ get
    → required_auth m p route_capabilities ≡ some (capability c)
    → grants (role_capabilities Role.viewer) c ≡ false
unfolding role_capabilities
writes_need_more m p c n e =
    safe m c n (required_safe m p route_capabilities (capability c) table_safe e)
  where
    safe :
        (k : Method) (d : Capability)
        → k ≢ get
        → viewer_safe k (capability d) ≡ true
        → grants (role_capabilities Role.viewer) d ≡ false
    safe k d q h = ground arith
