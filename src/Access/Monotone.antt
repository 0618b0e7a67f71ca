-- ===== src/Access/Monotone.antt =====
-- The mapping from roles to capabilities follows the hierarchy of roles.
use mission_control_platform.Prelude.{String, ◌≡◌, true, some, none, arith, Option}
use mission_control_platform.Access.{
  Capability, Role, role_of, grants, capabilities_for_role, capabilities_of, has_at_least, at_least,
  level, role_capabilities,
}

monotone :
    (r q : Role) (c : Capability)
    → at_least (some r) (level q) ≡ true
    → grants (role_capabilities q) c ≡ true
    → grants (role_capabilities r) c ≡ true
unfolding level role_capabilities
monotone r q c h g = ground arith

monotone_of :
    (o : Option Role) (q : Role) (c : Capability)
    → at_least o (level q) ≡ true
    → grants (role_capabilities q) c ≡ true
    → grants (capabilities_of o) c ≡ true
monotone_of none q c h g = ground arith
monotone_of (some r) q c h g = monotone r q c h g

-- A user whose role is at least a given one has every capability of the given role; a role name
-- that is not in the hierarchy is at least none.
pub capabilities_monotone :
    (name : String) (minimum : Role) (c : Capability)
    → has_at_least name minimum ≡ true
    → grants (role_capabilities minimum) c ≡ true
    → grants (capabilities_for_role (some name)) c ≡ true
unfolding has_at_least capabilities_for_role
capabilities_monotone name q c h g = monotone_of (role_of name) q c h g
