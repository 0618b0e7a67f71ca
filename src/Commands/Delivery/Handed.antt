-- ===== src/Commands/Delivery/Handed.antt =====
-- What `_fetch_and_deliver` of apps/api/agent_control/control/commands.py hands to an agent.
use mission_control_platform.Prelude.{
  ℕ, ◌<◌, ◌≤◌, ◌≡◌, refl, sym, ◌∙◌, inl, inr, Bool, true, false, List, [], ◌∷◌, ◌++◌, ==_iff, leb,
  is_some, select, length, length-append, All, All-append, All-sort_by, Bool-cases, arith,
}
use mission_control_platform.Errors.{Result, ok, err}
use mission_control_platform.StateMachines.{CommandState, can_transition}
use mission_control_platform.Rows.{Time, Agent, AgentCommand, command_is_expired, is_queued}
use mission_control_platform.Store.{Store, with_ok}
use mission_control_platform.Store.Keeps.{Returns, Returns->>=}
use mission_control_platform.Commands.{transition_command, stamp}
use mission_control_platform.Commands.Delivery.{
  waits_for, created_before, deliverable_query, expire_if_needed, deliver, deliver_each,
  fetch_and_deliver,
}

-- A command as it is handed over: delivered now, of this agent, released and in time.
abbrev pub Handed : Time → Agent → AgentCommand → Type 0
Handed now agent d =
    (d.status ≡ CommandState.delivered)
    × (d.agent_id ≡ agent.id)
    × (is_some d.released_at ≡ true)
    × (command_is_expired d now ≡ false)

waiting_status : (s : CommandState) → is_queued s ≡ true → s ≡ CommandState.queued
waiting_status s h = ground arith

transition-Handed :
    (now : Time) (agent : Agent) (c : AgentCommand)
    → waits_for agent c ≡ true
    → command_is_expired c now ≡ false
    → Returns (Handed now agent) (transition_command c CommandState.delivered now)
unfolding transition_command stamp can_transition waits_for command_is_expired
transition-Handed now agent c w x =
    rw (waiting_status c.status (ground arith))
      (refl, (==_iff c.agent_id agent.id).0 (ground arith), ground arith, x)

-- What the loop has when it ends: handed over, and no more than the limit.
abbrev Within : Time → Agent → ℕ → List AgentCommand → Type 0
Within now agent limit ds = All (Handed now agent) ds × (length ds ≤ limit)

pub expire_if_needed_lem :
    (now : Time) (c : AgentCommand) (s : Store)
    → is_queued c.status ≡ true
    → Returns (λ r. r.0 ≡ command_is_expired c now) (expire_if_needed now c s)
unfolding expire_if_needed transition_command can_transition
expire_if_needed_lem now c s q = elim (Bool-cases (command_is_expired c now)) [
  | inl e ↦ rw (waiting_status c.status q, e) refl
  | inr e ↦ rw (waiting_status c.status q, e) refl
]

pub waits_queued :
    (agent : Agent) (c : AgentCommand) → waits_for agent c ≡ true → is_queued c.status ≡ true
unfolding waits_for
waits_queued agent c w = ground arith

deliver-Handed :
    (now : Time) (agent : Agent) (c : AgentCommand) (s : Store)
    → waits_for agent c ≡ true
    → command_is_expired c now ≡ false
    → Returns (λ r. Handed now agent r.0) (deliver now agent c s)
unfolding deliver
deliver-Handed now agent c s w x =
    Returns->>= (Handed now agent) (λ (r : AgentCommand × Store). Handed now agent r.0)
      (transition_command c CommandState.delivered now) _ (transition-Handed now agent c w x)
      (λ d k. k)

not_leb : (a b : ℕ) → leb a b ≡ false → b < a
not_leb a b h = ground arith

deliver_each-Within :
    (now : Time) (agent : Agent) (limit : ℕ) (cs done : List AgentCommand) (s : Store)
    → All (λ c. waits_for agent c ≡ true) cs
    → All (Handed now agent) done
    → length done < limit
    → Returns (λ r. Within now agent limit r.0) (deliver_each now agent limit cs done s)
unfolding deliver_each
deliver_each-Within now agent limit [] done s w h k = (h, omega arith)
deliver_each-Within now agent limit (c ∷ cs) done s w h k =
    Returns->>= (λ (r : Bool × Store). r.0 ≡ command_is_expired c now)
      (λ (r : List AgentCommand × Store). Within now agent limit r.0) (expire_if_needed now c s) _
      (expire_if_needed_lem now c s (waits_queued agent c w.0))
      (λ (b, t) q. elim (Bool-cases b) [
        | inl expired ↦ rw expired (deliver_each-Within now agent limit cs done t w.1 h k)
        | inr current ↦ rw current (
            Returns->>= (λ (r : AgentCommand × Store). Handed now agent r.0)
              (λ (r : List AgentCommand × Store). Within now agent limit r.0)
              (deliver now agent c t) _ (deliver-Handed now agent c t w.0 (sym q ∙ current))
              (λ (d, u) e. elim (Bool-cases (leb limit (length (done ++ d ∷ [])))) [
                | inl full ↦ rw full (
                  All-append (Handed now agent) done (d ∷ []) h (e, tt),
                  omega (arith, length-append done (d ∷ [])),
                )
                | inr room ↦ rw room (
                    deliver_each-Within now agent limit cs (done ++ d ∷ []) u w.1
                      (All-append (Handed now agent) done (d ∷ []) h (e, tt))
                      (not_leb limit (length (done ++ d ∷ [])) room))
              ]))
      ])

pub All-waiting :
    (agent : Agent) (cs : List AgentCommand)
    → All (λ c. waits_for agent c ≡ true) (select (waits_for agent) cs)
All-waiting agent [] = tt
All-waiting agent (c ∷ cs) = elim (Bool-cases (waits_for agent c)) [
  | inl e ↦ rw e (e, All-waiting agent cs)
  | inr e ↦ rw e (All-waiting agent cs)
]

-- With a limit of at least 1, a fetch returns, and it returns at most as many commands as the limit
-- says, each of them of the agent, now delivered, released and not past its expiry.
pub fetch_and_deliver-Handed :
    (now : Time) (agent : Agent) (limit : ℕ) (s : Store)
    → 0 < limit
    → Returns
        (λ ds. All (Handed now agent) ds × (length ds ≤ limit))
        (fetch_and_deliver now agent limit s).0
unfolding fetch_and_deliver deliverable_query
fetch_and_deliver-Handed now agent limit s h =
    returned (deliver_each now agent limit (deliverable_query agent s) [] s) (
      deliver_each-Within now agent limit (deliverable_query agent s) [] s
        (All-sort_by (λ c. waits_for agent c ≡ true) created_before _
          (All-waiting agent s.commands))
        tt h)
  where
    returned :
        (m : Result (List AgentCommand × Store))
        → Returns (λ r. Within now agent limit r.0) m
        → Returns (λ ds. Within now agent limit ds) (with_ok m s (λ r. (ok r.0, r.1))).0
    returned (ok r) k = k
    returned (err e) k = absurd k
