-- ===== src/Ingest/Known.antt =====
-- What the query for duplicates of `ingest_events`, apps/api/agent_control/ingest/service.py, finds
-- in the log.
use mission_control_platform.Prelude.{
  ◌≡◌, sym, ap, ◌∙◌, subst, inl, inr, String, true, false, ◌&&◌, List, [], ◌∷◌, ◌==◌, Member, map,
  select, text_in, str_eq, str_eq_iff, str_eq_refl, refl, Bool-cases, arith,
}
use mission_control_platform.Rows.{Agent, AgentEvent}
use mission_control_platform.Store.{Store}
use mission_control_platform.Ingest.{EventEnvelope}
use mission_control_platform.Ingest.Batch.{existing_ids}
use mission_control_platform.Ingest.Spent.{in_log}

-- An identifier that the query of a batch finds is in the log.
pub existing_ids-in_log :
    (agent : Agent) (events : List EventEnvelope) (id : String) (xs : List AgentEvent)
    → text_in id (
        map
          (λ e. e.event_id)
          (select
            (λ e. (e.agent_id == agent.id) && text_in e.event_id (map (λ ev. ev.event_id) events))
            xs))
      ≡ true
    → in_log agent id xs ≡ true
existing_ids-in_log agent events id [] h = h
existing_ids-in_log agent events id (x ∷ xs) h =
    ground (arith, existing_ids-in_log agent events id xs)

-- The query finds an identifier of the batch that is in the log.
pub in_log-existing_ids :
    (agent : Agent) (events : List EventEnvelope) (id : String) (xs : List AgentEvent)
    → text_in id (map (λ ev. ev.event_id) events) ≡ true
    → in_log agent id xs ≡ true
    → text_in id (
        map
          (λ e. e.event_id)
          (select
            (λ e. (e.agent_id == agent.id) && text_in e.event_id (map (λ ev. ev.event_id) events))
            xs))
      ≡ true
in_log-existing_ids agent events id [] m h = h
in_log-existing_ids agent events id (x ∷ xs) m h = elim (Bool-cases (str_eq x.event_id id)) [
  | inl e ↦ ground (
    arith,
    in_log-existing_ids agent events id xs m,
    subst (λ z. text_in z (map (λ ev. ev.event_id) events) ≡ true)
        (sym ((str_eq_iff x.event_id id).0 e)) m,
  )
  | inr e ↦ ground (arith, in_log-existing_ids agent events id xs m)
]

pub Member-text_in :
    (ev : EventEnvelope) (events : List EventEnvelope)
    → Member ev events
    → text_in ev.event_id (map (λ e. e.event_id) events) ≡ true
Member-text_in ev [] m = absurd m
Member-text_in ev (x ∷ xs) m = elim m [
  | inl e ↦
      rw (ap (λ (z : EventEnvelope). str_eq z.event_id ev.event_id) e ∙ str_eq_refl ev.event_id)
        refl
  | inr n ↦ ground (arith, Member-text_in ev xs n)
]

-- What the query for the identifiers of a batch does not find is new in the log.
pub unknown-in_log :
    (agent : Agent) (events : List EventEnvelope) (ev : EventEnvelope) (s : Store)
    → Member ev events
    → text_in ev.event_id (existing_ids agent events s) ≡ false
    → in_log agent ev.event_id s.events ≡ false
unfolding existing_ids
unknown-in_log agent events ev s m h = elim (Bool-cases (in_log agent ev.event_id s.events)) [
  | inr e ↦ e
  | inl e ↦
      absurd (
        cc
          (in_log-existing_ids agent events ev.event_id s.events (Member-text_in ev events m) e, h))
]
