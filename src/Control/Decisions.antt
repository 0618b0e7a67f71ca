-- ===== src/Control/Decisions.antt =====
-- The decisions of apps/api/agent_control/control/approvals.py keep every command cleared: an
-- approval releases what it approves, and a rejection or an expiry cancels.
use mission_control_platform.Prelude.{
  ◌≡◌, refl, sym, ap, subst, inl, inr, String, Bool, true, ◌&&◌, Option, none, some, ◌==◌, ==_iff,
  opt_eq, any_of, All-find_first, find_first_test, update_where, Bool-cases, Option-cases, &&_both,
  arith,
}
use mission_control_platform.Access.{HostContext}
use mission_control_platform.StateMachines.{CommandState}
use mission_control_platform.Rows.{
  Uuid, Time, AgentCommand, ApprovalRequest, is_queued, approval_is_expired,
}
use mission_control_platform.Store.{Env, Store, RawId, emit}
use mission_control_platform.Store.Keeps.{with_ok-keeps, Ensures, Ensures->>=, with_ok-Ensures}
use mission_control_platform.Audit.{audit_from_context}
use mission_control_platform.Commands.{transition_command}
use mission_control_platform.Approvals.{
  ApprovalDecisionIn, Decision, approval, rejection, is_pending, get_approval, linked_command,
  release_linked, cancel_linked, expire, decidable_row, decided, settle, announce, decide_row,
  refuse_expired, decide, approve, reject,
}
use mission_control_platform.Control.{link_cleared, Cleared, Gated}
use mission_control_platform.Control.Cleared.{
  link_cleared-update_where, decided_approves, All-Cleared, transition-Ensures, put-Gated,
}

linked_to : (o : Option Uuid) (i : Uuid) → opt_eq o (some i) ≡ true → o ≡ some i
linked_to none i h = cc
linked_to (some j) i h = ap some ((==_iff j i).0 h)

-- The command that was found waits for this request.
linked_command_link :
    (a : ApprovalRequest) (s : Store) (c : AgentCommand)
    → linked_command a s ≡ some c
    → c.approval_request_id ≡ some a.id
unfolding linked_command
linked_command_link a s c e = linked_to c.approval_request_id a.id (
    find_first_test (λ (d : AgentCommand). opt_eq d.approval_request_id (some a.id)) s.commands c e)

linked_command-Cleared :
    (a : ApprovalRequest) (s : Store) (c : AgentCommand)
    → Gated s
    → linked_command a s ≡ some c
    → Cleared s.approvals c
unfolding linked_command
linked_command-Cleared a s c g e =
    All-find_first (Cleared s.approvals) (λ d. opt_eq d.approval_request_id (some a.id)) s.commands
      c e g

release_linked-Gated :
    (now : Time) (a : ApprovalRequest) (s : Store)
    → link_cleared s.approvals (some a.id) ≡ true
    → Gated s
    → Gated (release_linked now (linked_command a s) s)
unfolding release_linked emit
release_linked-Gated now a s h g = elim (Option-cases (linked_command a s)) [
  | inl e ↦ rw e g
  | inr (c, e) ↦ rw e elim (Bool-cases (is_queued c.status)) [
    | inl q ↦ rw q (
        put-Gated (record c { released_at = some now }) s
          (
            (λ k. refl),
            (λ k. rw (linked_command_link a s c e) h),
            (linked_command-Cleared a s c g e).2,
          )
          g)
    | inr q ↦ rw q g
  ]
]

cancel_linked-Gated :
    (now : Time) (reason : String) (a : ApprovalRequest) (s : Store)
    → Gated s
    → Ensures Gated (cancel_linked now reason (linked_command a s) s)
unfolding cancel_linked emit
cancel_linked-Gated now reason a s g = elim (Option-cases (linked_command a s)) [
  | inl e ↦ rw e g
  | inr (c, e) ↦ rw e elim (Bool-cases (is_queued c.status)) [
    | inl q ↦ rw q (
        Ensures->>= (Cleared s.approvals) Gated (transition_command c CommandState.cancelled now) _
          (transition-Ensures s.approvals c CommandState.cancelled now (λ x. cc)
            (linked_command-Cleared a s c g e))
          (λ d k. put-Gated d s k g))
    | inr q ↦ rw q g
  ]
]

-- An update of pending requests keeps every command cleared.
close-Gated :
    (u : ApprovalRequest → Bool) (f : ApprovalRequest → ApprovalRequest) (s : Store)
    → ((x : ApprovalRequest) → u x ≡ true → is_pending x.status ≡ true)
    → Gated s
    → Gated (record s { approvals = update_where u f s.approvals })
close-Gated u f s pend g =
    All-Cleared s.approvals (update_where u f s.approvals) s.commands
      (λ o. link_cleared-update_where u f s.approvals o pend) g

refuse_expired-Gated :
    (now : Time) (a : ApprovalRequest) (s : Store) → Gated s → Gated (refuse_expired now a s).1
unfolding refuse_expired expire linked_command
refuse_expired-Gated now a s g =
    with_ok-Ensures Gated Gated (expire now a s) s _ g
      (cancel_linked-Gated now "approval_expired" a _ (
        close-Gated (λ b. (b.id == a.id) && is_pending b.status) _ s
          (λ x k. (&&_both (x.id == a.id) (is_pending x.status) k).1) g))
      (λ t k. k)

decidable_pending :
    (ctx : HostContext) (i : Uuid) (body : ApprovalDecisionIn) (x : ApprovalRequest)
    → decidable_row ctx i body x ≡ true
    → is_pending x.status ≡ true
unfolding decidable_row
decidable_pending ctx i body x h = ground arith

settle-Gated :
    (env : Env) (d : Decision) (a : ApprovalRequest) (s : Store)
    → (d ≡ approval → link_cleared s.approvals (some a.id) ≡ true)
    → Gated s
    → Ensures Gated (settle env d a s)
unfolding settle
settle-Gated env approval a s h g = release_linked-Gated env.now a s (h refl) g
settle-Gated env rejection a s h g = cancel_linked-Gated env.now "approval_rejected" a s g

decide_row-Gated :
    (env : Env) (ctx : HostContext) (body : ApprovalDecisionIn) (d : Decision) (a : ApprovalRequest)
    (s : Store)
    → Gated s
    → Gated (decide_row env ctx body d a s).1
unfolding decide_row announce audit_from_context emit
decide_row-Gated env ctx body d a s g =
    elim (Bool-cases (any_of (decidable_row ctx a.id body) s.approvals)) [
      | inl e ↦ rw e (
          with_ok-Ensures Gated Gated
            (settle env d a (record s {
              approvals =
                  update_where (decidable_row ctx a.id body) (decided env ctx body d) s.approvals;
            }))
            s _ g
            (settle-Gated env d a _
              (λ k.
                subst
                  (λ b.
                    link_cleared
                      (update_where (decidable_row ctx a.id body) (decided env ctx body b)
                        s.approvals)
                      (some a.id)
                    ≡ true)
                  (sym k) (decided_approves env ctx body a.id s.approvals e))
              (close-Gated (decidable_row ctx a.id body) (decided env ctx body d) s
                (decidable_pending ctx a.id body) g))
            (λ t k. k))
      | inr e ↦ rw e g
    ]

decide-Gated :
    (env : Env) (ctx : HostContext) (i : RawId) (body : ApprovalDecisionIn) (d : Decision)
    (s : Store)
    → Gated s
    → Gated (decide env ctx i body d s).1
unfolding decide
decide-Gated env ctx i body d s g = with_ok-keeps Gated (get_approval ctx i s) s _ g λ a e.
    elim (Bool-cases (is_pending a.status)) [
      | inl p ↦ elim (Bool-cases (approval_is_expired a env.now)) [
        | inl x ↦ rw (p, x) (refuse_expired-Gated env.now a s g)
        | inr x ↦ rw (p, x) (decide_row-Gated env ctx body d a s g)
      ]
      | inr p ↦ rw p g
    ]

pub approve-Gated :
    (env : Env) (ctx : HostContext) (i : RawId) (body : ApprovalDecisionIn) (s : Store)
    → Gated s
    → Gated (approve env ctx i body s).1
unfolding approve
approve-Gated env ctx i body s g = decide-Gated env ctx i body approval s g

pub reject-Gated :
    (env : Env) (ctx : HostContext) (i : RawId) (body : ApprovalDecisionIn) (s : Store)
    → Gated s
    → Gated (reject env ctx i body s).1
unfolding reject
reject-Gated env ctx i body s g = decide-Gated env ctx i body rejection s g
