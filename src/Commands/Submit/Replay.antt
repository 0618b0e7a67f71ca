-- ===== src/Commands/Submit/Replay.antt =====
-- The key of idempotence of `submit_command` in apps/api/agent_control/control/commands.py.
use mission_control_platform.Prelude.{
  opt_eq_refl, ◌+◌, ◌≡◌, refl, ap, ◌∙◌, subst, inl, inr, Bool, true, false, ◌&&◌, String, Option,
  none, some, List, [], ◌∷◌, ◌++◌, ◌==◌, opt_eq, or_else, find_first, str_eq, str_eq_refl,
  Bool-cases, Option-cases,
}
use mission_control_platform.Errors.{Result, ok, err}
use mission_control_platform.Access.{HostContext}
use mission_control_platform.Rows.{Uuid, Effect, Agent, AgentRun, AgentCommand}
use mission_control_platform.Store.{
  Env, Store, RawId, as_uuid, tenant, truthy, uuid_text, or_not_found, emit,
}
use mission_control_platform.Store.Keeps.{with_ok-eq-ok, ok_inj}
use mission_control_platform.Audit.{audit_from_context}
use mission_control_platform.Json.{Fields}
use mission_control_platform.Commands.Submit.Outcome.{asked}
use mission_control_platform.Policies.{PolicyDecision, evaluate_policy, audit_decision}
use mission_control_platform.Budgets.{GateBehavior}
use mission_control_platform.Runs.{get_run, run_by_id}
use mission_control_platform.Commands.Submit.{
  CommandSubmit, SubmitResult, new_command, hold, release, audit_submission, enqueue, through_gate,
  after_policy, submit_new, by_key, replay_or, submit_command,
}

-- The test of `by_key`.
abbrev keyed : Option Uuid → String → AgentCommand → Bool
keyed inst idem c = opt_eq c.installation_id inst && str_eq c.idempotency_key idem

-- What a submission that queues a command has written, besides what it announces.
abbrev Filed : HostContext → String → Store → Result SubmitResult × Store → Type 0
Filed ctx idem s (err e, t) = Unit {0}
Filed ctx idem s (ok (c, created), t) =
    (keyed (tenant ctx) idem c ≡ true)
    × (t.commands ≡ s.commands ++ c ∷ [])
    × (t.runs ≡ s.runs)
    × (t.agents ≡ s.agents)

own_key : (o : Option Uuid) (k : String) → (opt_eq o o && str_eq k k) ≡ true
own_key o k = rw (opt_eq_refl o, str_eq_refl k) refl

Filed-moves :
    (ctx : HostContext) (idem : String) (s u : Store) (o : Result SubmitResult × Store)
    → (u.commands ≡ s.commands) × (u.runs ≡ s.runs) × (u.agents ≡ s.agents)
    → Filed ctx idem u o
    → Filed ctx idem s o
Filed-moves ctx idem s u (err e, t) m h = tt
Filed-moves ctx idem s u (ok (c, created), t) m h =
    (h.0, h.1 ∙ ap (λ cs. cs ++ c ∷ []) m.0, h.2 ∙ m.1, h.3 ∙ m.2)

asking :
    (env : Env) (ctx : HostContext) (agent : Agent) (command_type : String) (project : Option Uuid)
    (more : Option Fields) (s : Store)
    → ((evaluate_policy env ctx agent command_type project more s).1.commands ≡ s.commands)
      × ((evaluate_policy env ctx agent command_type project more s).1.runs ≡ s.runs)
      × ((evaluate_policy env ctx agent command_type project more s).1.agents ≡ s.agents)
unfolding evaluate_policy audit_decision audit_from_context
asking env ctx agent command_type project more s = (refl, refl, refl)

module _ (env : Env) (ctx : HostContext) (run : AgentRun) (agent : Agent) (idem : String)
    (body : CommandSubmit) where
  enqueue-Filed :
      (d : PolicyDecision) (g : GateBehavior) (e : Effect) (s : Store)
      → Filed ctx idem s (
        ok (enqueue env ctx run agent idem body d g e s).0,
        (enqueue env ctx run agent idem body d g e s).1,
      )
  unfolding enqueue hold release new_command audit_submission audit_from_context emit
  enqueue-Filed d g Effect.require_approval s = (own_key (tenant ctx) idem, refl, refl, refl)
  enqueue-Filed d g Effect.allow s = (own_key (tenant ctx) idem, refl, refl, refl)
  enqueue-Filed d g Effect.deny s = (own_key (tenant ctx) idem, refl, refl, refl)
  enqueue-Filed d g (Effect.other u) s = (own_key (tenant ctx) idem, refl, refl, refl)

  through_gate-Filed :
      (d : PolicyDecision) (g : GateBehavior) (s : Store)
      → Filed ctx idem s (through_gate env ctx run agent idem body d g s)
  unfolding through_gate
  through_gate-Filed d GateBehavior.block s = tt
  through_gate-Filed d GateBehavior.allow s = enqueue-Filed d GateBehavior.allow _ s
  through_gate-Filed d GateBehavior.require_approval s =
      enqueue-Filed d GateBehavior.require_approval _ s

  after_policy-Filed :
      (denied : Bool) (d : PolicyDecision) (s : Store)
      → Filed ctx idem s (after_policy denied env ctx run agent idem body d s)
  after_policy-Filed true d s = tt
  after_policy-Filed false d s = through_gate-Filed d _ s

  submit_new-Filed : (s : Store) → Filed ctx idem s (submit_new env ctx run agent idem body s)
  unfolding submit_new
  submit_new-Filed s =
      Filed-moves ctx idem s (asked env ctx run agent idem body s).1 _
        (asking env ctx agent body.command_type run.project_id _ s)
        (after_policy-Filed _ (asked env ctx run agent idem body s).0
          (asked env ctx run agent idem body s).1)

by_key-append :
    (inst : Option Uuid) (idem : String) (cs : List AgentCommand) (c : AgentCommand)
    → by_key inst idem cs ≡ none
    → keyed inst idem c ≡ true
    → by_key inst idem (cs ++ c ∷ []) ≡ some c
by_key-append inst idem [] c h k = rw k refl
by_key-append inst idem (d ∷ cs) c h k = elim (Bool-cases (keyed inst idem d)) [
  | inl e ↦ absurd (cc (rw e at h))
  | inr e ↦ rw e (by_key-append inst idem cs c (rw e at h) k)
]

-- What is known after a submission that succeeded: its command has the key, and the run and the
-- agent are found as before.
abbrev Kept : HostContext → String → Store → AgentCommand → Store → Type 0
Kept ctx idem s c t =
    (by_key (tenant ctx) idem t.commands ≡ some c) × (t.runs ≡ s.runs) × (t.agents ≡ s.agents)

replay_or-Kept :
    (env : Env) (ctx : HostContext) (run : AgentRun) (agent : Agent) (idem : String)
    (body : CommandSubmit) (s t : Store) (c : AgentCommand) (created : Bool)
    → replay_or
        (by_key (tenant ctx) idem s.commands)
        (λ u. submit_new env ctx run agent idem body (record u { next_id = u.next_id + 1 }))
        s
      ≡ (ok (c, created), t)
    → Kept ctx idem s c t
replay_or-Kept env ctx run agent idem body s t c created h =
    elim (Option-cases (by_key (tenant ctx) idem s.commands)) [
      | inl e ↦ fresh e (rw e at h)
      | inr (d, e) ↦ found d e (rw e at h)
    ]
  where
    found :
        (d : AgentCommand)
        → by_key (tenant ctx) idem s.commands ≡ some d
        → ◌≡◌ {A = Result SubmitResult × Store} (ok (d, false), s) (ok (c, created), t)
        → Kept ctx idem s c t
    found d e k =
        subst (λ (o : Result SubmitResult × Store). Kept ctx idem s c o.1) k
          (
            e
                ∙ ap (λ (r : SubmitResult). some r.0)
                    (ok_inj (ap (λ (o : Result SubmitResult × Store). o.0) k)),
            refl,
            refl,
          )

    kept_filed :
        by_key (tenant ctx) idem s.commands ≡ none
        → Filed ctx idem (record s { next_id = s.next_id + 1 }) (ok (c, created), t)
        → Kept ctx idem s c t
    kept_filed e (own, added, runs, agents) = (
      ap (by_key (tenant ctx) idem) added ∙ by_key-append (tenant ctx) idem s.commands c e own,
      runs,
      agents,
    )

    fresh :
        by_key (tenant ctx) idem s.commands ≡ none
        → submit_new env ctx run agent idem body (record s { next_id = s.next_id + 1 })
          ≡ (ok (c, created), t)
        → Kept ctx idem s c t
    fresh e k = kept_filed e (
        subst (Filed ctx idem (record s { next_id = s.next_id + 1 })) k
          (submit_new-Filed env ctx run agent idem body (record s { next_id = s.next_id + 1 })))

run_by_id-runs :
    (o : Option Uuid) (ctx : HostContext) (s t : Store)
    → t.runs ≡ s.runs
    → run_by_id o ctx t ≡ run_by_id o ctx s
run_by_id-runs none ctx s t h = refl
run_by_id-runs (some i) ctx s t h = rw h refl

replayed :
    (env : Env) (ctx : HostContext) (run_id : RawId) (body : CommandSubmit) (key : String)
    (t : Store) (run : AgentRun) (agent : Agent) (c : AgentCommand)
    → get_run ctx run_id t ≡ ok run
    → or_not_found (find_first (λ a. a.id == run.agent_id) t.agents) ≡ ok agent
    → truthy body.idempotency_key ≡ some key
    → by_key (tenant ctx) key t.commands ≡ some c
    → submit_command env ctx run_id body t ≡ (ok (c, false), t)
unfolding submit_command
replayed env ctx run_id body key t run agent c ran known same found =
    rw (ran, known, same, found) refl

-- A submission that succeeds under a key that the caller gave can be sent again, with the same key
-- and for the same run, at any later time and with any other content: the command of the first one is
-- returned, as not created, and nothing changes. So a repeated submission queues no second command.
pub submit_command-replay :
    (env later : Env) (ctx : HostContext) (run_id : RawId) (body again : CommandSubmit)
    (key : String) (s t : Store) (c : AgentCommand) (created : Bool)
    → truthy body.idempotency_key ≡ some key
    → truthy again.idempotency_key ≡ some key
    → submit_command env ctx run_id body s ≡ (ok (c, created), t)
    → submit_command later ctx run_id again t ≡ (ok (c, false), t)
unfolding submit_command get_run
submit_command-replay env later ctx run_id body again key s t c created own same h =
    let (run, ran, k) = with_ok-eq-ok (get_run ctx run_id s) s _ (c, created) t h in
    let (agent, known, l) =
      with_ok-eq-ok (or_not_found (find_first (λ a. a.id == run.agent_id) s.agents)) s _
        (c, created) t k in
    let (key_found, runs, agents) =
      replay_or-Kept env ctx run agent (or_else (truthy body.idempotency_key) (uuid_text s.next_id))
        body s t c created l in
    replayed later ctx run_id again key t run agent c
      (ap or_not_found (run_by_id-runs (as_uuid run_id) ctx s t runs) ∙ ran)
      (ap (λ rows. or_not_found (find_first (λ (a : Agent). a.id == run.agent_id) rows)) agents
        ∙ known)
      same
      (subst (λ k. by_key (tenant ctx) k t.commands ≡ some c)
        (ap (λ o. or_else o (uuid_text s.next_id)) own) key_found)
