-- ===== src/Control/Queue.antt =====
-- The cancellation, the delivery, the receipts and the results of
-- apps/api/agent_control/control/commands.py keep every command cleared.
use mission_control_platform.Prelude.{
  ℕ, ◌≡◌, refl, sym, subst, inl, inr, Bool, true, false, ◌&&◌, Option, none, some, List, [], ◌∷◌,
  ◌++◌, ◌==◌, is_some, opt_eq, select, All, All-sort_by, All-find_first, length, leb, Bool-cases,
  arith,
}
use mission_control_platform.Errors.{ok, ◌>>◌}
use mission_control_platform.Access.{HostContext}
use mission_control_platform.StateMachines.{CommandState}
use mission_control_platform.Rows.{
  Uuid, Time, Agent, command_is_expired, AgentCommand, ApprovalRequest,
}
use mission_control_platform.Store.{Env, Store, RawId, as_uuid, tenant, emit}
use mission_control_platform.Store.Keeps.{
  with_ok-keeps, or_not_found-eq-ok, >>-eq-ok, Ensures, Ensures->>=, with_ok-Ensures,
}
use mission_control_platform.Commands.{
  transition_command, put_command, get_command, command_by_id, cancel_command,
}
use mission_control_platform.Commands.Delivery.{
  AgentCredentialContext, CommandResultIn, require_scope, agent_command_in_scope, in_scope_by_id,
  ack_command, submit_result, result_target, with_result, use_credential, deliver, deliver_each,
  expire_if_needed, may_expire, fetch_and_deliver, deliverable_query, waits_for, created_before,
}
use mission_control_platform.Control.{Cleared, Gated}
use mission_control_platform.Control.Cleared.{transition-Cleared, transition-Ensures, put-Gated}

by_id-Cleared :
    (o : Option Uuid) (ctx : HostContext) (s : Store) (c : AgentCommand)
    → Gated s
    → command_by_id o ctx s ≡ some c
    → Cleared s.approvals c
by_id-Cleared none ctx s c g e = cc
by_id-Cleared (some i) ctx s c g e =
    All-find_first (Cleared s.approvals) (λ d. (d.id == i) && opt_eq d.installation_id (tenant ctx))
      s.commands c e g

in_scope-Cleared :
    (o : Option Uuid) (ctx : AgentCredentialContext) (s : Store) (c : AgentCommand)
    → Gated s
    → in_scope_by_id o ctx s ≡ some c
    → Cleared s.approvals c
in_scope-Cleared none ctx s c g e = cc
in_scope-Cleared (some i) ctx s c g e =
    All-find_first (Cleared s.approvals)
      (λ d.
        (d.id == i)
        && ((d.agent_id == ctx.agent.id) && opt_eq d.installation_id ctx.agent.installation_id))
      s.commands c e g

pub cancel_command-Gated :
    (env : Env) (ctx : HostContext) (i : RawId) (s : Store)
    → Gated s
    → Gated (cancel_command env ctx i s).1
unfolding cancel_command get_command emit
cancel_command-Gated env ctx i s g = with_ok-keeps Gated (get_command ctx i s) s _ g λ c e.
    with_ok-keeps Gated (transition_command c CommandState.cancelled env.now) s _ g λ d k.
      put-Gated d s
        (transition-Cleared s.approvals c d CommandState.cancelled env.now k (λ x. cc)
          (by_id-Cleared (as_uuid i) ctx s c g (or_not_found-eq-ok _ c e)))
        g

in_scope_ok :
    (ctx : AgentCredentialContext) (i : RawId) (s : Store) (c : AgentCommand)
    → Gated s
    → agent_command_in_scope ctx i s ≡ ok c
    → Cleared s.approvals c
unfolding agent_command_in_scope
in_scope_ok ctx i s c g e = in_scope-Cleared (as_uuid i) ctx s c g (or_not_found-eq-ok _ c e)

pub ack_command-Gated :
    (ctx : AgentCredentialContext) (now : Time) (i : RawId) (s : Store)
    → Gated s
    → Gated (ack_command ctx now i s).1
unfolding ack_command use_credential emit
ack_command-Gated ctx now i s g =
    with_ok-keeps Gated (require_scope ctx "commands" >> agent_command_in_scope ctx i s) s _ g
      λ c e. with_ok-keeps Gated (transition_command c CommandState.acknowledged now) s _ g λ d k.
        put-Gated d s
          (transition-Cleared s.approvals c d CommandState.acknowledged now k (λ x. cc)
            (in_scope_ok ctx i s c g
              (>>-eq-ok (require_scope ctx "commands") (agent_command_in_scope ctx i s) c e)))
          g

true-false : false ≡ true → ⊥
true-false h = cc

result_target_not_delivered :
    (status : _) (t : CommandState)
    → result_target status ≡ ok t
    → t ≡ CommandState.delivered
    → false ≡ true
unfolding result_target
result_target_not_delivered status t e d = ground arith

pub submit_result-Gated :
    (ctx : AgentCredentialContext) (now : Time) (i : RawId) (body : CommandResultIn) (s : Store)
    → Gated s
    → Gated (submit_result ctx now i body s).1
unfolding submit_result use_credential emit with_result
submit_result-Gated ctx now i body s g =
    with_ok-keeps Gated (require_scope ctx "commands" >> result_target body.status) s _ g λ t te.
      with_ok-keeps Gated (agent_command_in_scope ctx i s) s _ g λ c e.
        with_ok-keeps Gated (transition_command c t now) s _ g λ d k.
          put-Gated (with_result body d) s
            (transition-Cleared s.approvals c d t now k
              (λ x. absurd (
                true-false (
                  result_target_not_delivered body.status t
                    (>>-eq-ok (require_scope ctx "commands") (result_target body.status) t te) x)))
              (in_scope_ok ctx i s c g e))
            g

-- The loop of the delivery: its candidates are released and cleared, and it leaves the approvals.
OnPath : List ApprovalRequest → Store → Type 0
OnPath rows t = (t.approvals ≡ rows) × Gated t

put-OnPath :
    (rows : List ApprovalRequest) (d : AgentCommand) (s : Store)
    → Cleared rows d
    → OnPath rows s
    → OnPath rows (put_command d s)
unfolding OnPath put_command
put-OnPath rows d s h p = (p.0, put-Gated d s (subst (λ r. Cleared r d) (sym p.0) h) p.1)

expire_if_needed-OnPath :
    (rows : List ApprovalRequest) (now : Time) (c : AgentCommand) (s : Store)
    → Cleared rows c
    → OnPath rows s
    → Ensures (λ r. OnPath rows r.1) (expire_if_needed now c s)
unfolding expire_if_needed emit OnPath
expire_if_needed-OnPath rows now c s h p =
    elim (Bool-cases (may_expire c.status && command_is_expired c now)) [
      | inl e ↦ rw e (
          Ensures->>= (Cleared rows) (λ (r : Bool × Store). OnPath rows r.1)
            (transition_command c CommandState.expired now) _
            (transition-Ensures rows c CommandState.expired now (λ x. cc) h)
            (λ d k. put-OnPath rows d s k p))
      | inr e ↦ rw e p
    ]

deliver-OnPath :
    (rows : List ApprovalRequest) (now : Time) (agent : Agent) (c : AgentCommand) (s : Store)
    → Cleared rows c
    → is_some c.released_at ≡ true
    → OnPath rows s
    → Ensures (λ r. OnPath rows r.1) (deliver now agent c s)
unfolding deliver emit OnPath
deliver-OnPath rows now agent c s h r p =
    Ensures->>= (Cleared rows) (λ (r : AgentCommand × Store). OnPath rows r.1)
      (transition_command c CommandState.delivered now) _
      (transition-Ensures rows c CommandState.delivered now (λ x. r) h)
      (λ d k. put-OnPath rows d s k p)

deliver_each-OnPath :
    (rows : List ApprovalRequest) (now : Time) (agent : Agent) (limit : ℕ)
    (cs done : List AgentCommand) (s : Store)
    → All (λ c. Cleared rows c × is_some c.released_at ≡ true) cs
    → OnPath rows s
    → Ensures (λ r. OnPath rows r.1) (deliver_each now agent limit cs done s)
unfolding deliver_each
deliver_each-OnPath rows now agent limit [] done s h p = p
deliver_each-OnPath rows now agent limit (c ∷ cs) done s h p =
    Ensures->>= (λ (r : Bool × Store). OnPath rows r.1)
      (λ (r : List AgentCommand × Store). OnPath rows r.1) (expire_if_needed now c s) _
      (expire_if_needed-OnPath rows now c s h.0.0 p)
      (λ (b, t) q. elim (Bool-cases b) [
        | inl expired ↦ rw expired (deliver_each-OnPath rows now agent limit cs done t h.1 q)
        | inr current ↦ rw current (
            Ensures->>= (λ (r : AgentCommand × Store). OnPath rows r.1)
              (λ (r : List AgentCommand × Store). OnPath rows r.1) (deliver now agent c t) _
              (deliver-OnPath rows now agent c t h.0.0 h.0.1 q)
              (λ (d, u) k. elim (Bool-cases (leb limit (length (done ++ d ∷ [])))) [
                | inl e ↦ rw e k
                | inr e ↦
                    rw e (deliver_each-OnPath rows now agent limit cs (done ++ d ∷ []) u h.1 k)
              ]))
      ])

candidates-Cleared :
    (agent : Agent) (rows : List ApprovalRequest) (cs : List AgentCommand)
    → All (Cleared rows) cs
    → All (λ c. Cleared rows c × is_some c.released_at ≡ true) (select (waits_for agent) cs)
unfolding waits_for
candidates-Cleared agent rows [] h = tt
candidates-Cleared agent rows (c ∷ cs) h = elim (Bool-cases (waits_for agent c)) [
  | inl e ↦ rw e ((h.0, ground arith), candidates-Cleared agent rows cs h.1)
  | inr e ↦ rw e (candidates-Cleared agent rows cs h.1)
]

pub fetch_and_deliver-Gated :
    (now : Time) (agent : Agent) (limit : ℕ) (s : Store)
    → Gated s
    → Gated (fetch_and_deliver now agent limit s).1
unfolding fetch_and_deliver deliverable_query OnPath
fetch_and_deliver-Gated now agent limit s g =
    with_ok-Ensures (λ (r : List AgentCommand × Store). OnPath s.approvals r.1) Gated
      (deliver_each now agent limit (deliverable_query agent s) [] s) s _ g
      (deliver_each-OnPath s.approvals now agent limit (deliverable_query agent s) [] s
        (All-sort_by (λ c. Cleared s.approvals c × is_some c.released_at ≡ true) created_before
          (select (waits_for agent) s.commands) (candidates-Cleared agent s.approvals s.commands g))
        (refl, g))
      (λ r k. k.1)
