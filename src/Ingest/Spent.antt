-- ===== src/Ingest/Spent.antt =====
-- Why an event of a batch that was ingested, by apps/api/agent_control/ingest/service.py, is not
-- accepted again.
use mission_control_platform.Prelude.{
  ℕ, ◌≤◌, ◌≡◌, ◌⊎◌, refl, ◌∙◌, inl, inr, String, Bool, true, false, ◌&&◌, ◌||◌, Option, none, some,
  List, [], ◌∷◌, ◌++◌, ◌==◌, leb, leb→le, any_of, text_in, str_eq, Bool-cases, Option-cases, arith,
}
use mission_control_platform.Rows.{Time, Agent, AgentEvent}
use mission_control_platform.Store.{Env}
use mission_control_platform.Outbox.{event_types}
use mission_control_platform.Ingest.{EventEnvelope, parse_dt}
use mission_control_platform.Ingest.Batch.{Progress, Verdict, verdict, in_order}
use mission_control_platform.Ingest.Log.{Rises}

-- The log holds an event of the agent of that identifier.
abbrev pub in_log : Agent → String → List AgentEvent → Bool
in_log agent id = any_of (λ e. (e.agent_id == agent.id) && str_eq e.event_id id)

-- The reasons for which an event is not accepted, where the tests of identity are left open.
abbrev pub Refused : Env → Bool → ℕ → EventEnvelope → Type 0
Refused env twice n ev =
    (twice ≡ true)
    ⊎ ((text_in ev.event_type event_types ≡ false)
        ⊎ ((parse_dt env ev.occurred_at ≡ none) ⊎ (ev.sequence ≤ n)))

pub any_of-append {ℓ} :
    {A : Type ℓ} (p : A → Bool) (xs ys : List A)
    → any_of p (xs ++ ys) ≡ (any_of p xs || any_of p ys)
any_of-append p [] ys = refl
any_of-append p (x ∷ xs) ys = ground (arith, any_of-append p xs ys)

pub leb-true : (m n : ℕ) → m ≤ n → leb m n ≡ true
leb-true m n h = ground arith

pub or_true : (a b : Bool) → a ≡ true → (a || b) ≡ true
or_true a b h = ground arith

pub in_log-append :
    (agent : Agent) (id : String) (xs ys : List AgentEvent)
    → in_log agent id xs ≡ true
    → in_log agent id (xs ++ ys) ≡ true
in_log-append agent id xs ys h =
    any_of-append (λ (e : AgentEvent). (e.agent_id == agent.id) && str_eq e.event_id id) xs ys
    ∙ or_true _ _ h

pub Rises-le : (n m : ℕ) (news : List AgentEvent) → Rises n news m → n ≤ m
Rises-le n m [] h = omega (arith, h)
Rises-le n m (e ∷ es) h = omega (arith, h.0, Rises-le e.sequence m es h.1)

pub Refused-later :
    (env : Env) (a b : Bool) (n m : ℕ) (ev : EventEnvelope)
    → (a ≡ true → b ≡ true)
    → n ≤ m
    → Refused env a n ev
    → Refused env b m ev
Refused-later env a b n m ev f l r = elim r [
  | inl e ↦ inl (f e)
  | inr q ↦ inr (elim q [
    | inl e ↦ inl e
    | inr u ↦ inr (elim u [ inl e ↦ inl e | inr k ↦ inr (omega arith) ])
  ])
]

pub in_order-cases :
    (env : Env) (ev : EventEnvelope) (n : ℕ) (o : Option Time)
    → parse_dt env ev.occurred_at ≡ o
    → ((at : Time) × (in_order (leb ev.sequence n) o ≡ Verdict.acceptance at))
      ⊎ ((parse_dt env ev.occurred_at ≡ none) ⊎ (ev.sequence ≤ n))
in_order-cases env ev n none h = inr (inl h)
in_order-cases env ev n (some at) h = elim (Bool-cases (leb ev.sequence n)) [
  | inl e ↦ inr (inr (leb→le ev.sequence n e))
  | inr e ↦ inl (at, rw e refl)
]

-- An event is accepted, or there is a reason.
pub verdict-cases :
    (env : Env) (known : List String) (p : Progress) (ev : EventEnvelope)
    → ((at : Time) × (verdict env known p ev ≡ Verdict.acceptance at))
      ⊎ Refused env (text_in ev.event_id known || text_in ev.event_id p.seen) p.last_seq ev
unfolding verdict
verdict-cases env known p ev =
    elim (Bool-cases (text_in ev.event_id known || text_in ev.event_id p.seen)) [
      | inl e ↦ inr (inl e)
      | inr e ↦ elim (Bool-cases (text_in ev.event_type event_types)) [
        | inr f ↦ inr (inr (inl f))
        | inl f ↦
            rw (e, f)
              (elim (in_order-cases env ev p.last_seq (parse_dt env ev.occurred_at) refl) [
                | inl r ↦ inl r
                | inr u ↦ inr (inr (inr u))
              ])
      ]
    ]

pub in_order-refused :
    (env : Env) (ev : EventEnvelope) (n : ℕ)
    → (parse_dt env ev.occurred_at ≡ none) ⊎ (ev.sequence ≤ n)
    → in_order (leb ev.sequence n) (parse_dt env ev.occurred_at) ≡ Verdict.rejection
in_order-refused env ev n (inl e) = rw e refl
in_order-refused env ev n (inr l) = elim (Option-cases (parse_dt env ev.occurred_at)) [
  | inl e ↦ rw e refl
  | inr (at, e) ↦ rw (e, leb-true ev.sequence n l) refl
]

-- Where there is a reason, the event is not accepted.
pub verdict_with_reason :
    (env : Env) (known : List String) (p : Progress) (ev : EventEnvelope)
    → Refused env (text_in ev.event_id known || text_in ev.event_id p.seen) p.last_seq ev
    → (verdict env known p ev ≡ Verdict.duplicate) ⊎ (verdict env known p ev ≡ Verdict.rejection)
unfolding verdict
verdict_with_reason env known p ev r =
    elim (Bool-cases (text_in ev.event_id known || text_in ev.event_id p.seen)) [
      | inl e ↦ rw e (inl refl)
      | inr e ↦ elim (Bool-cases (text_in ev.event_type event_types)) [
        | inr f ↦ rw (e, f) (inr refl)
        | inl f ↦ rw (e, f) (inr (in_order-refused env ev p.last_seq (left r e f)))
      ]
    ]
  where
    left :
        Refused env (text_in ev.event_id known || text_in ev.event_id p.seen) p.last_seq ev
        → (text_in ev.event_id known || text_in ev.event_id p.seen) ≡ false
        → text_in ev.event_type event_types ≡ true
        → (parse_dt env ev.occurred_at ≡ none) ⊎ (ev.sequence ≤ p.last_seq)
    left (inl t) e f = cc
    left (inr (inl t)) e f = cc
    left (inr (inr u)) e f = u
