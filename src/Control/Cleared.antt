-- ===== src/Control/Cleared.antt =====
-- What keeps a command cleared: more approvals, a change of its state, and the decisions.
use mission_control_platform.Prelude.{
  ◌≡◌, refl, subst, inl, inr, ◌⊎◌, Bool, true, false, ◌||◌, Option, none, some, List, [], ◌∷◌, ◌++◌,
  ◌==◌, ◌+◌, is_some, any_of, All, update_where, All-update_where, Bool-cases, arith,
}
use mission_control_platform.Errors.{ok}
use mission_control_platform.Access.{HostContext}
use mission_control_platform.StateMachines.{
  CommandState, ApprovalState, command, can_transition, same,
}
use mission_control_platform.Rows.{Uuid, Time, AgentCommand, ApprovalRequest}
use mission_control_platform.Store.{Env, Store}
use mission_control_platform.Store.Keeps.{ok_inj, Ensures, ensures}
use mission_control_platform.Commands.{transition_command, put_command, stamp}
use mission_control_platform.Approvals.{
  ApprovalDecisionIn, decidable_row, decided, is_pending, approval,
}
use mission_control_platform.Control.{
  is_handed, is_approved, approved_by, link_cleared, Cleared, Gated,
}

any_of-append :
    {A : Type 0} (p : A → Bool) (xs ys : List A) → any_of p xs ≡ true → any_of p (xs ++ ys) ≡ true
any_of-append p [] ys h = cc
any_of-append p (x ∷ xs) ys h = ground (arith, any_of-append p xs ys)

pub link_cleared-append :
    (xs ys : List ApprovalRequest) (o : Option Uuid)
    → link_cleared xs o ≡ true
    → link_cleared (xs ++ ys) o ≡ true
link_cleared-append xs ys none h = refl
link_cleared-append xs ys (some i) h = any_of-append (approved_by i) xs ys h

not_both : (s : ApprovalState) → is_pending s ≡ true → is_approved s ≡ true → false ≡ true
not_both s h k = ground arith

-- An update of pending requests keeps what is approved.
pub link_cleared-update_where :
    (u : ApprovalRequest → Bool) (f : ApprovalRequest → ApprovalRequest) (xs : List ApprovalRequest)
    (o : Option Uuid)
    → ((x : ApprovalRequest) → u x ≡ true → is_pending x.status ≡ true)
    → link_cleared xs o ≡ true
    → link_cleared (update_where u f xs) o ≡ true
link_cleared-update_where u f xs none pend h = refl
link_cleared-update_where u f [] (some i) pend h = h
link_cleared-update_where u f (x ∷ xs) (some i) pend h =
    ground (arith, pend x, not_both x.status, link_cleared-update_where u f xs (some i) pend)

-- The conditional update of an approval leaves an approved request, if it found one.
pub decided_approves :
    (env : Env) (ctx : HostContext) (body : ApprovalDecisionIn) (i : Uuid)
    (xs : List ApprovalRequest)
    → any_of (decidable_row ctx i body) xs ≡ true
    → link_cleared
        (update_where (decidable_row ctx i body) (decided env ctx body approval) xs)
        (some i)
      ≡ true
unfolding decidable_row decided
decided_approves env ctx body i [] h = h
decided_approves env ctx body i (x ∷ xs) h = ground (arith, decided_approves env ctx body i xs)

-- More approvals keep every command cleared.
pub All-Cleared :
    (xs ys : List ApprovalRequest) (cs : List AgentCommand)
    → ((o : Option Uuid) → link_cleared xs o ≡ true → link_cleared ys o ≡ true)
    → All (Cleared xs) cs
    → All (Cleared ys) cs
All-Cleared xs ys [] more h = tt
All-Cleared xs ys (c ∷ cs) more h =
    ((h.0.0, (λ r. more c.approval_request_id (h.0.1 r)), h.0.2), All-Cleared xs ys cs more h.1)

-- A state that the agent reaches after the delivery is reached from one that it has got.
pub handed_before :
    (s t : CommandState)
    → (same command s t || can_transition command s t) ≡ true
    → is_handed t ≡ true
    → (t ≡ CommandState.delivered) ⊎ (is_handed s ≡ true)
unfolding can_transition
handed_before s t h k = ground arith

-- What only reads the columns that a stamp keeps.
stamp-Cleared :
    (rows : List ApprovalRequest) (s : CommandState) (at : Time) (c : AgentCommand)
    → Cleared rows c
    → Cleared rows (stamp s at c)
unfolding stamp
stamp-Cleared rows CommandState.queued at c h = h
stamp-Cleared rows CommandState.delivered at c h = h
stamp-Cleared rows CommandState.acknowledged at c h = h
stamp-Cleared rows CommandState.succeeded at c h = h
stamp-Cleared rows CommandState.failed at c h = h
stamp-Cleared rows CommandState.expired at c h = h
stamp-Cleared rows CommandState.cancelled at c h = h

released_first :
    (c : AgentCommand) (t : CommandState)
    → (same command c.status t || can_transition command c.status t) ≡ true
    → (t ≡ CommandState.delivered → is_some c.released_at ≡ true)
    → (is_handed c.status ≡ true → is_some c.released_at ≡ true)
    → is_handed t ≡ true
    → is_some c.released_at ≡ true
released_first c t step now before k = elim (handed_before c.status t step k) [
  | inl e ↦ now e
  | inr e ↦ before e
]

-- A transition keeps a command cleared, if the one to `delivered` has a release.
pub transition-Cleared :
    (rows : List ApprovalRequest) (c d : AgentCommand) (t : CommandState) (at : Time)
    → transition_command c t at ≡ ok d
    → (t ≡ CommandState.delivered → is_some c.released_at ≡ true)
    → Cleared rows c
    → Cleared rows d
unfolding transition_command
transition-Cleared rows c d t at e now h = elim (Bool-cases (same command c.status t)) [
  | inl s ↦ subst (Cleared rows) (ok_inj (rw s at e)) h
  | inr s ↦ elim (Bool-cases (can_transition command c.status t)) [
    | inl k ↦ subst (Cleared rows) (ok_inj (rw (s, k) at e)) (
        stamp-Cleared rows t at (record c { status = t; version = c.version + 1 })
          (released_first c t (ground (arith)) now h.0, h.1, h.2))
    | inr k ↦ cc (rw (s, k) at e)
  ]
]

-- A cleared row may be written for any row.
pub put-Gated :
    (c : AgentCommand) (s : Store) → Cleared s.approvals c → Gated s → Gated (put_command c s)
unfolding put_command
put-Gated c s h g =
    All-update_where (Cleared s.approvals) (λ d. d.id == c.id) (λ d. c) s.commands (λ x t k. h) g

pub transition-Ensures :
    (rows : List ApprovalRequest) (c : AgentCommand) (t : CommandState) (at : Time)
    → (t ≡ CommandState.delivered → is_some c.released_at ≡ true)
    → Cleared rows c
    → Ensures (Cleared rows) (transition_command c t at)
transition-Ensures rows c t at now h =
    ensures (Cleared rows) (transition_command c t at)
      λ d e. transition-Cleared rows c d t at e now h
