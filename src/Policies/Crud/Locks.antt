-- ===== src/Policies/Crud/Locks.antt =====
-- The optimistic lock of the policies in apps/api/agent_control/control/policies.py, what disabling
-- a policy does to the decisions, and a change that the validation lets through.
use mathlib.Core.Option
use mission_control_platform.Prelude.{
  ◌≡◌, ◌≢◌, refl, sym, ap, ◌∙◌, inl, inr, false, ◌&&◌, Option, none, some, List, [], ◌∷◌, ◌==◌,
  ==_iff, String, subst, some_inj, All, All-member, find_first, find_first_test,
  find_first-update_where, update_where, if◌then◌else◌, Bool-cases, opt_eq, arith,
}
use mission_control_platform.Errors.{Result, Error, ok, err}
use mission_control_platform.Access.{HostContext}
use mission_control_platform.Rows.{Uuid, Effect, AgentPolicy, Agent, is_active}
use mission_control_platform.Store.{Store, RawId, tenant, as_uuid}
use mission_control_platform.Store.Keeps.{ok_inj, with_ok-eq-ok, or_not_found-eq-ok}
use mission_control_platform.Policies.{PolicyDecision, decide}
use mission_control_platform.Policies.Evaluation.{
  applies, Decides, by_default, by_policy, decide-Decides,
}
use mission_control_platform.Policies.Crud.{
  PolicyUpdate, update_policy, disable_policy, get_policy_in_scope, get_by_id, check_update,
  apply_update, disabled, put_policy,
}

-- The policy that is found again after its row was changed, if the change keeps its identity.
get_by_id-put_policy :
    (o : Option Uuid) (ctx : HostContext) (f : AgentPolicy → AgentPolicy) (s : Store)
    (p : AgentPolicy)
    → ((q : AgentPolicy) → (f q).id ≡ q.id)
    → ((q : AgentPolicy) → (f q).installation_id ≡ q.installation_id)
    → get_by_id o ctx s ≡ some p
    → get_by_id o ctx (put_policy p.id f s) ≡ some (f p)
get_by_id-put_policy none ctx f s p ids insts h = cc
get_by_id-put_policy (some pid) ctx f s p ids insts h =
    find_first-update_where (λ q. (q.id == pid) && opt_eq q.installation_id (tenant ctx))
      (λ q. q.id == p.id) f s.policies (λ q. rw (ids q, insts q))
      (λ q t. ground (
        arith,
        find_first_test
            (λ (q : AgentPolicy). (q.id == pid) && opt_eq q.installation_id (tenant ctx)) s.policies
            p h,
      ))
    ∙ ap (Option.map f) h

version_of :
    (body : PolicyUpdate) (p : AgentPolicy) (a : Unit {0})
    → check_update body p ≡ ok a
    → p.version ≡ body.version
unfolding check_update
version_of body p a h = elim (Bool-cases (p.version == body.version)) [
  | inl e ↦ (==_iff p.version body.version).0 e
  | inr e ↦ cc (rw e at h)
]

-- A successful change names the version of the row that it changes, and leaves the row with the
-- next version.
update-eq-ok :
    (ctx : HostContext) (id : RawId) (body : PolicyUpdate) (s t : Store) (q : AgentPolicy)
    → update_policy ctx id body s ≡ (ok q, t)
    → (p : AgentPolicy) × (get_by_id (as_uuid id) ctx s ≡ some p)
      × (p.version ≡ body.version)
      × (q ≡ apply_update body p)
      × (t ≡ put_policy p.id (apply_update body) s)
unfolding update_policy
update-eq-ok ctx id body s t q h =
    let (p, found, rest) = with_ok-eq-ok (get_policy_in_scope ctx id s) s _ q t h in
    let (a, checked, done) = with_ok-eq-ok (check_update body p) s _ q t rest in
    (
      p,
      or_not_found-eq-ok (get_by_id (as_uuid id) ctx s) p found,
      version_of body p a checked,
      sym (ok_inj (ap (λ (r : Result AgentPolicy × Store). r.0) done)),
      sym (ap (λ (r : Result AgentPolicy × Store). r.1) done),
    )

check_stale :
    (body : PolicyUpdate) (p : AgentPolicy)
    → p.version ≢ body.version
    → check_update body p ≡ err Error.state_conflict
unfolding check_update
check_stale body p h = elim (Bool-cases (p.version == body.version)) [
  | inl e ↦ absurd (h ((==_iff p.version body.version).0 e))
  | inr e ↦ rw e
]

update_stale :
    (ctx : HostContext) (id : RawId) (body : PolicyUpdate) (s : Store) (p : AgentPolicy)
    → get_by_id (as_uuid id) ctx s ≡ some p
    → p.version ≢ body.version
    → update_policy ctx id body s ≡ (err Error.state_conflict, s)
unfolding update_policy
update_stale ctx id body s p found stale = rw (found, check_stale body p stale)

-- A policy is found by its identifier and the tenant, whoever asks.
get_by_id_of_tenant :
    (o : Option Uuid) (ctx other : HostContext) (s : Store)
    → tenant other ≡ tenant ctx
    → get_by_id o other s ≡ get_by_id o ctx s
get_by_id_of_tenant none ctx other s h = refl
get_by_id_of_tenant (some i) ctx other s h =
    ap (λ (n : Option Uuid). find_first (λ q. (q.id == i) && opt_eq q.installation_id n) s.policies)
      h

-- Of two changes of a policy that name one version, by whatever users of one tenant, once the first
-- has succeeded the second is refused with a state conflict and commits nothing.
pub second_update_refused :
    (ctx other : HostContext) (id : RawId) (first second : PolicyUpdate) (s t : Store)
    (q : AgentPolicy)
    → tenant other ≡ tenant ctx
    → update_policy ctx id first s ≡ (ok q, t)
    → second.version ≡ first.version
    → update_policy other id second t ≡ (err Error.state_conflict, t)
unfolding apply_update
second_update_refused ctx other id first second s t q team done same =
    let (p, found, version, changed, after) = update-eq-ok ctx id first s t q done in
    update_stale other id second t (apply_update first p)
      (get_by_id_of_tenant (as_uuid id) ctx other t team
        ∙ rw after (
            get_by_id-put_policy (as_uuid id) ctx (apply_update first) s p (λ r. refl) (λ r. refl)
              found))
      (λ e. omega arith)

-- The rows that an update by identifier has reached are disabled.
disabled_rows :
    (pid : Uuid) (xs : List AgentPolicy)
    → All
        (λ (q : AgentPolicy). q.id ≡ pid → is_active q.status ≡ false)
        (update_where (λ q. q.id == pid) disabled xs)
unfolding disabled
disabled_rows pid [] = tt
disabled_rows pid (x ∷ xs) = (head, disabled_rows pid xs)
  where
    head :
        (if x.id == pid then disabled x else x).id ≡ pid
        → is_active (if x.id == pid then disabled x else x).status ≡ false
    head = elim (Bool-cases (x.id == pid)) [
      | inl e ↦ rw e (λ _. refl)
      | inr e ↦ rw e (λ p. absurd (ground arith))
    ]

not_deciding :
    (default : Effect) (t : Option Uuid) (agent : Agent) (command_type : String)
    (project : Option Uuid) (rows : List AgentPolicy) (pid : Uuid) (d : PolicyDecision)
    → All (λ (q : AgentPolicy). q.id ≡ pid → is_active q.status ≡ false) rows
    → Decides default (applies t agent command_type project) rows d
    → (p : AgentPolicy) → d.policy ≡ some p
    → p.id ≢ pid
unfolding applies
not_deciding default t agent command_type project rows pid d h (by_default n e) p q r =
    cc (ap (λ (x : PolicyDecision). x.policy) e, q)
not_deciding default t agent command_type project rows pid d h (by_policy w m c l e) p q r =
    let same : w ≡ p = some_inj (sym (ap (λ (x : PolicyDecision). x.policy) e) ∙ q) in
    let off : is_active w.status ≡ false =
      All-member (λ (x : AgentPolicy). x.id ≡ pid → is_active x.status ≡ false) rows w h m
        (ap (λ (x : AgentPolicy). x.id) same ∙ r) in
    ground arith

-- Once a policy is disabled, it decides no action of any agent on any project: no decision over
-- the table that the disabling commits names its identifier.
pub disabled_never_decides :
    (ctx : HostContext) (id : RawId) (s t : Store) (default : Effect) (agent : Agent)
    (command_type : String) (project : Option Uuid)
    → disable_policy ctx id s ≡ (ok tt, t)
    → (p : AgentPolicy) × (get_by_id (as_uuid id) ctx s ≡ some p)
      × ((w : AgentPolicy)
          → (decide default (tenant ctx) agent command_type project t.policies).policy ≡ some w
          → w.id ≢ p.id)
unfolding disable_policy
disabled_never_decides ctx id s t default agent command_type project h =
    let (p, found, done) = with_ok-eq-ok (get_policy_in_scope ctx id s) s _ tt t h in
    (
      p,
      or_not_found-eq-ok (get_by_id (as_uuid id) ctx s) p found,
      not_deciding default (tenant ctx) agent command_type project t.policies p.id
          (decide default (tenant ctx) agent command_type project t.policies)
          (subst
            (λ (x : Store).
              All (λ (q : AgentPolicy). q.id ≡ p.id → is_active q.status ≡ false) x.policies)
            (ap (λ (r : Result (Unit {0}) × Store). r.1) done) (disabled_rows p.id s.policies))
          (decide-Decides default (tenant ctx) agent command_type project t.policies),
    )
