-- ===== src/Ingest/Replay.antt =====
-- A batch sent again to `ingest_events` of apps/api/agent_control/ingest/service.py.
use mission_control_platform.Prelude.{
  ℕ, ◌+◌, ◌≡◌, refl, subst, inl, inr, String, List, [], ◌∷◌, All, Member, All-of_Member,
  All-sort_by, All-zip, text_in, arith,
}
use mission_control_platform.Errors.{Result, ok, ◌>>◌}
use mission_control_platform.Rows.{Time, Agent}
use mission_control_platform.Store.{Env, Store, with_ok}
use mission_control_platform.Store.Keeps.{Ensures-ok}
use mission_control_platform.Commands.Delivery.{
  AgentCredentialContext, require_scope, use_credential,
}
use mission_control_platform.Ingest.{EventEnvelope, parse_dt}
use mission_control_platform.Ingest.Batch.{
  IngestEventsResponse, Progress, existing_ids, check_batch, take_in, take_each, in_sequence, begin,
  response, put_sequence, finish_batch, ingest_events,
}
use mission_control_platform.Ingest.Appended.{committed}
use mission_control_platform.Ingest.Known.{existing_ids-in_log, in_log-existing_ids, Member-text_in}
use mission_control_platform.Ingest.SpentLoop.{take_each-Spent}
use mission_control_platform.Ingest.Spent.{
  in_log, Refused, Refused-later, or_true, verdict_with_reason,
}

-- The context of the next request of the agent.
abbrev pub next_context : AgentCredentialContext → IngestEventsResponse → AgentCredentialContext
next_context ctx r = record ctx { agent = record (ctx.agent) { last_sequence = r.last_sequence } }

-- Nothing is accepted of events for each of which there is a reason.
take_each-Refused :
    (env : Env) (ctx : AgentCredentialContext) (known : List String) (evs : List EventEnvelope)
    (p : Progress) (s : Store)
    → All (λ ev. Refused env (text_in ev.event_id known) p.last_seq ev) evs
    → (q : Progress) × (take_each env ctx known evs p s ≡ ok (q, s))
      × (q.accepted ≡ p.accepted)
      × (q.last_seq ≡ p.last_seq)
unfolding take_each take_in
take_each-Refused env ctx known [] p s h = (p, refl, refl, refl)
take_each-Refused env ctx known (ev ∷ evs) p s (h, hs) =
    elim (verdict_with_reason env known p ev
      (Refused-later env _ _ _ _ ev (or_true _ _) (omega arith) h)) [
        | inl e ↦
            rw e (
              take_each-Refused env ctx known evs (record p { duplicates = p.duplicates + 1 }) s hs)
        | inr e ↦
            rw e (take_each-Refused env ctx known evs (record p { rejected = p.rejected + 1 }) s hs)
      ]

-- What is left of a batch once it was ingested: a reason for each of its events.
abbrev Settled : Env → Agent → List EventEnvelope → ℕ → Store → Type 0
Settled env agent events n t =
    All (λ ev. Refused env (in_log agent ev.event_id t.events) n ev) (in_sequence events)

ingested-Settled :
    (env : Env) (ctx : AgentCredentialContext) (events : List EventEnvelope) (s : Store)
    (q : Progress × Store)
    → take_each env ctx (existing_ids ctx.agent events s) (in_sequence events) (begin ctx.agent) s
      ≡ ok q
    → Settled env ctx.agent events q.0.last_seq q.1
unfolding existing_ids
ingested-Settled env ctx events s q e =
    (Ensures-ok _ _ q e (
      take_each-Spent env ctx (existing_ids ctx.agent events s) (in_sequence events)
        (begin ctx.agent) s (λ id f. existing_ids-in_log ctx.agent events id s.events f)
        (λ id f. cc))).1

-- The reasons hold for what the query of the same batch finds.
Settled-Refused :
    (env : Env) (agent : Agent) (events : List EventEnvelope) (n : ℕ) (t : Store)
    → Settled env agent events n t
    → All
        (λ ev. Refused env (text_in ev.event_id (existing_ids agent events t)) n ev)
        (in_sequence events)
unfolding in_sequence existing_ids
Settled-Refused env agent events n t h =
    All-zip _ _ _ (in_sequence events) h
      (All-sort_by (λ ev. Member ev events) _ events (All-of_Member _ events (λ x m. m)))
      λ ev r m.
        Refused-later env _ _ n n ev
          (in_log-existing_ids agent events ev.event_id t.events (Member-text_in ev events m))
          (omega arith) r

answered :
    (env : Env) (ctx : AgentCredentialContext) (n : ℕ) (c : Result (Unit {0}))
    (m : Result (Progress × Store)) (p : Progress) (t : Store)
    → c ≡ ok tt
    → m ≡ ok (p, t)
    → p.last_seq ≡ n
    → with_ok (c >> m) t (λ (p, u). (ok (response p), finish_batch env ctx p u))
      ≡ (ok (response p), use_credential ctx env.now (put_sequence ctx.agent n t))
unfolding finish_batch
answered env ctx n c m p t h k l = rw (h, k, l) refl

-- A batch that was ingested, sent again at any later moment with the sequence that was returned, is answered with that sequence and accepts nothing: it commits the use of the credential and the same sequence of the agent alone.
pub ingest_events-replay :
    (env : Env) (ctx : AgentCredentialContext) (events : List EventEnvelope) (s : Store)
    (r : IngestEventsResponse) (t : Store) (now : Time)
    → ingest_events env ctx events s ≡ (ok r, t)
    → (again : IngestEventsResponse) × (ingest_events
          (record env { now = now })
          (next_context ctx r)
          events
          t
        ≡ (ok again, use_credential ctx now (put_sequence ctx.agent r.last_sequence t)))
      × (again.accepted ≡ 0)
      × (again.last_sequence ≡ r.last_sequence)
unfolding ingest_events finish_batch check_batch require_scope existing_ids parse_dt put_sequence
    use_credential
ingest_events-replay env ctx events s r t now h =
    let (q, passed, e, answer, written) =
      committed env ctx s (check_batch env ctx events) _ r t h in
    let env' : Env = record env { now = now } in
    let ctx' = next_context ctx r in
    let settled : Settled env ctx.agent events r.last_sequence t =
      subst (Settled env ctx.agent events r.last_sequence) written (
        subst (λ z. Settled env ctx.agent events z.last_sequence q.1) answer
          (ingested-Settled env ctx events s q e)) in
    let (p, f, none_taken, same) =
      take_each-Refused env' ctx' (existing_ids ctx'.agent events t) (in_sequence events)
        (begin ctx'.agent) t (Settled-Refused env ctx.agent events r.last_sequence t settled) in
    (
      response p,
      answered env' ctx' r.last_sequence (check_batch env' ctx' events) _ p t passed f same,
      none_taken,
      same,
    )
