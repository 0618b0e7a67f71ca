-- ===== src/Registry/Isolation.antt =====
-- The tenant of a request to apps/api/agent_control/registry/service.py and the agents of others.
use mission_control_platform.Prelude.{
  ℕ, ◌≡◌, refl, ap, ◌∙◌, inl, inr, String, Bool, true, false, not, Option, none, some, List, [],
  ◌∷◌, ◌++◌, ◌==◌, &&_both, All, IdsDistinct, found_alone, find_first_test, All-map, Bool-cases,
  find_first, select, opt_eq, update_where, arith,
}
use mission_control_platform.Errors.{Result, ok, err, ◌>>=◌}
use mission_control_platform.Access.{HostContext}
use mission_control_platform.Rows.{Uuid, Agent, RegistryStatus}
use mission_control_platform.Store.{Env, Store, RawId, as_uuid, tenant}
use mission_control_platform.Store.Keeps.{with_ok-keeps, or_not_found-eq-ok, ok_inj}
use mission_control_platform.Registry.{
  AgentCreate, AgentUpdate, is_agent_of, agent_by_id, key_taken, agent_key_of, parse_local_key,
  valid_status, registry_status, get_agent, put_agent, new_agent, changed, with_status,
  register_agent, update_agent, set_status,
}

abbrev pub is_outside : HostContext → Agent → Bool
is_outside ctx a = not (opt_eq a.installation_id (tenant ctx))

-- The agents of the other tenants are as they were.
abbrev pub IsIsolated : HostContext → Store → Store → Type 0
IsIsolated ctx s t = select (is_outside ctx) t.agents ≡ select (is_outside ctx) s.agents

opt_eq_refl : (o : Option ℕ) → opt_eq o o ≡ true
opt_eq_refl none = refl
opt_eq_refl (some n) = ground arith

select-append_out :
    (q : Agent → Bool) (xs : List Agent) (a : Agent)
    → q a ≡ false
    → select q (xs ++ a ∷ []) ≡ select q xs
select-append_out q [] a h = rw h refl
select-append_out q (b ∷ bs) a h = ground (arith, select-append_out q bs a)

-- An update of rows that are not selected, before and after.
select-update_out :
    (q p : Agent → Bool) (f : Agent → Agent) (xs : List Agent)
    → All (λ b. p b ≡ true → (q b ≡ false) × (q (f b) ≡ false)) xs
    → select q (update_where p f xs) ≡ select q xs
select-update_out q p f [] h = refl
select-update_out q p f (b ∷ bs) h = elim (Bool-cases (p b)) [
  | inl e ↦ rw (e, (h.0 e).0, (h.0 e).1) (select-update_out q p f bs h.1)
  | inr e ↦ elim (Bool-cases (q b)) [
    | inl g ↦ rw (e, g, select-update_out q p f bs h.1) refl
    | inr g ↦ rw (e, g) (select-update_out q p f bs h.1)
  ]
]

-- The rows with the identifier of an agent of the tenant are of the tenant.
same_id_inside :
    (ctx : HostContext) (aid : Uuid) (xs : List Agent) (a : Agent)
    → IdsDistinct (λ b. b.id) xs
    → find_first (is_agent_of aid ctx) xs ≡ some a
    → All (λ b. (b.id == a.id) ≡ true → is_outside ctx b ≡ false) xs
same_id_inside ctx aid xs a h e =
    All-map _ (λ b. (b.id == a.id) ≡ true → is_outside ctx b ≡ false) xs
      (found_alone (λ b. b.id) (is_agent_of aid ctx) xs a h e)
      λ b alone g. ap (is_outside ctx) (alone g) ∙ inside
  where
    inside : is_outside ctx a ≡ false
    inside =
        rw
          (&&_both (a.id == aid) (opt_eq a.installation_id (tenant ctx))
            (find_first_test (is_agent_of aid ctx) xs a e)).1
          refl

update-IsIsolated :
    (ctx : HostContext) (i : RawId) (f : Agent → Agent) (s : Store) (a : Agent)
    → ((b : Agent) → (f b).installation_id ≡ b.installation_id)
    → IdsDistinct (λ b. b.id) s.agents
    → get_agent ctx i s ≡ ok a
    → IsIsolated ctx s (put_agent a f s)
unfolding get_agent
update-IsIsolated ctx i f s a keep h e =
    select-update_out (is_outside ctx) (λ b. b.id == a.id) f s.agents
      (All-map _
        (λ b. (b.id == a.id) ≡ true → (is_outside ctx b ≡ false) × (is_outside ctx (f b) ≡ false))
        s.agents (by_id (as_uuid i) (or_not_found-eq-ok _ a e))
        λ b k g. (k g, ap (λ o. not (opt_eq o (tenant ctx))) (keep b) ∙ k g))
  where
    by_id :
        (o : Option Uuid)
        → agent_by_id o ctx s ≡ some a
        → All (λ b. (b.id == a.id) ≡ true → is_outside ctx b ≡ false) s.agents
    by_id none g = cc
    by_id (some aid) g = same_id_inside ctx aid s.agents a h g

-- Registering, changing and giving a status to an agent leave the agents of the other tenants as they were, if identifiers are distinct.
pub registry-IsIsolated :
    (env : Env) (ctx : HostContext) (i : RawId) (s : Store)
    → IdsDistinct (λ b. b.id) s.agents
    → ((body : AgentCreate) → IsIsolated ctx s (register_agent env ctx body s).1)
      × ((body : AgentUpdate) → IsIsolated ctx s (update_agent ctx i body s).1)
      × ((status : String) → IsIsolated ctx s (set_status env ctx i status s).1)
unfolding register_agent new_agent update_agent changed set_status with_status
registry-IsIsolated env ctx i s h = (registers, updates, sets)
  where
    second :
        (m : Result RegistryStatus) (n : Result Agent) (new : RegistryStatus) (a : Agent)
        → (m >>= λ x. n >>= λ b. let r : Result (RegistryStatus × Agent) = ok (x, b) in r)
          ≡ ok (new, a)
        → n ≡ ok a
    second (ok x) (ok b) new a e =
        ap (λ (z : Agent). ok z) (ap (λ (z : RegistryStatus × Agent). z.1) (ok_inj e))
    second (ok x) (err y) new a e = cc
    second (err x) n new a e = cc

    registers : (body : AgentCreate) → IsIsolated ctx s (register_agent env ctx body s).1
    registers body =
        with_ok-keeps (IsIsolated ctx s) (parse_local_key body.local_key) s _ refl λ key e.
          elim (Bool-cases (key_taken (agent_key_of ctx key) s.agents)) [
            | inl f ↦ rw f refl
            | inr f ↦
                rw f (
                  select-append_out (is_outside ctx) s.agents _
                    (rw (opt_eq_refl (tenant ctx)) refl))
          ]

    updates : (body : AgentUpdate) → IsIsolated ctx s (update_agent ctx i body s).1
    updates body =
        with_ok-keeps (IsIsolated ctx s) (get_agent ctx i s) s _ refl
          λ a e. update-IsIsolated ctx i (changed body) s a (λ b. refl) h e

    sets : (status : String) → IsIsolated ctx s (set_status env ctx i status s).1
    sets status =
        with_ok-keeps (IsIsolated ctx s)
          (valid_status (registry_status status) >>= λ new. get_agent ctx i s >>= λ a. ok (new, a))
          s _ refl
          λ (new, a) e.
            update-IsIsolated ctx i (with_status new env.now) s a (λ b. refl) h
              (second (valid_status (registry_status status)) (get_agent ctx i s) new a e)
