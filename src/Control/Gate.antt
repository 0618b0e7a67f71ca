-- ===== src/Control/Gate.antt =====
-- The gate of the control plane: whatever transactions are made, in whatever order, no command that
-- asks for an approval is handed to an agent without one.
use mission_control_platform.Prelude.{
  ◌≡◌, refl, sym, inl, inr, true, Option, none, some, List, [], ◌∷◌, ◌==◌, ==_iff, ap, is_some,
  any_of, All-member, Member, Bool-cases, &&_both,
}
use mission_control_platform.Rows.{Uuid, Effect, AgentCommand, ApprovalRequest}
use mission_control_platform.Store.{Store}
use mission_control_platform.Control.{
  Step, Steps, submitted, fetched, acked, reported, cancelled, approved, rejected, elsewhere, stay,
  then, is_handed, is_approved, approved_by, link_cleared, Cleared, Gated,
}
use mission_control_platform.Control.Queue.{
  cancel_command-Gated, ack_command-Gated, submit_result-Gated, fetch_and_deliver-Gated,
}
use mission_control_platform.Control.Decisions.{approve-Gated, reject-Gated}
use mission_control_platform.Control.Submission.{submit_command-Gated}

pub Step-Gated : (s t : Store) → Step s t → Gated s → Gated t
Step-Gated _ _ (submitted env ctx i body s) g = submit_command-Gated env ctx i body s g
Step-Gated _ _ (fetched now agent limit s) g = fetch_and_deliver-Gated now agent limit s g
Step-Gated _ _ (acked ctx now i s) g = ack_command-Gated ctx now i s g
Step-Gated _ _ (reported ctx now i body s) g = submit_result-Gated ctx now i body s g
Step-Gated _ _ (cancelled env ctx i s) g = cancel_command-Gated env ctx i s g
Step-Gated _ _ (approved env ctx i body s) g = approve-Gated env ctx i body s g
Step-Gated _ _ (rejected env ctx i body s) g = reject-Gated env ctx i body s g
Step-Gated _ _ (elsewhere s t c a) g = rw (c, a) g

-- Any sequence of transactions keeps every command cleared: one that the agent has got was
-- released, a released one that is linked to a request has that request approved, and one that asks
-- for an approval is linked to a request.
pub Steps-Gated : (s t : Store) → Steps s t → Gated s → Gated t
Steps-Gated _ _ (stay s) g = g
Steps-Gated _ _ (then s t u before last) g = Step-Gated t u last (Steps-Gated s t before g)

approved_row :
    (i : Uuid) (rows : List ApprovalRequest)
    → any_of (approved_by i) rows ≡ true
    → (a : ApprovalRequest) × Member a rows × (a.id ≡ i) × (is_approved a.status ≡ true)
approved_row i [] h = cc
approved_row i (a ∷ rows) h = elim (Bool-cases (approved_by i a)) [
  | inl e ↦ (
    a,
    inl refl,
    (==_iff a.id i).0 (&&_both (a.id == i) (is_approved a.status) e).0,
    (&&_both (a.id == i) (is_approved a.status) e).1,
  )
  | inr e ↦ let (b, m, j, k) = approved_row i rows (rw e at h) in (b, inr m, j, k)
]

cleared_approval :
    (o : Option Uuid) (rows : List ApprovalRequest)
    → is_some o ≡ true
    → link_cleared rows o ≡ true
    → (a : ApprovalRequest) × Member a rows × (o ≡ some a.id) × (is_approved a.status ≡ true)
cleared_approval none rows h k = cc
cleared_approval (some i) rows h k =
    let (a, m, e, q) = approved_row i rows k in (a, m, ap some (sym e), q)

-- From a store without commands, and after any sequence of transactions: a command that an agent has
-- got (delivered, acknowledged, succeeded or failed) and whose policy asks for an approval is linked
-- to a request that is there and that was approved.
pub handed_over_approved :
    (s t : Store)
    → s.commands ≡ []
    → Steps s t
    → (c : AgentCommand) → Member c t.commands
    → is_handed c.status ≡ true
    → c.policy_effect ≡ some Effect.require_approval
    → (a : ApprovalRequest) × Member a t.approvals
      × (c.approval_request_id ≡ some a.id)
      × (is_approved a.status ≡ true)
handed_over_approved s t none_yet steps c m handed effect =
    cleared_approval c.approval_request_id t.approvals (cleared.2 (rw effect refl))
      (cleared.1 (cleared.0 handed))
  where
    cleared : Cleared t.approvals c
    cleared =
        All-member (Cleared t.approvals) t.commands c (Steps-Gated s t steps (rw none_yet tt)) m
