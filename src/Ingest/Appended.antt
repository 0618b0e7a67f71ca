-- ===== src/Ingest/Appended.antt =====
-- What `ingest_events`, apps/api/agent_control/ingest/service.py, commits.
use mission_control_platform.Prelude.{
  ℕ, ◌+◌, ◌≡◌, refl, sym, ap, subst, String, false, text_in, Member, All-of_Member, All-sort_by,
  List, [], ◌∷◌, ◌++◌, ◌==◌, All, length, update_where, length-sort_by, arith,
}
use mission_control_platform.Errors.{Result, ok, err, ◌>>◌}
use mission_control_platform.Rows.{Agent, AgentEvent}
use mission_control_platform.Store.{Env, Store, with_ok}
use mission_control_platform.Store.Keeps.{Ensures-ok, ok_inj}
use mission_control_platform.Commands.Delivery.{AgentCredentialContext, use_credential}
use mission_control_platform.Ingest.{EventEnvelope}
use mission_control_platform.Ingest.Batch.{
  IngestEventsResponse, Progress, logged, existing_ids, check_batch, in_sequence, begin, response,
  put_sequence, finish_batch, ingest_events,
}
use mission_control_platform.Ingest.Spent.{in_log}
use mission_control_platform.Ingest.Known.{unknown-in_log}
use mission_control_platform.Ingest.Log.{FromBatch, Rises, Fresh, Grown, take_each-Grown}

-- The rows of the agents once the sequence of one of them is written.
abbrev pub with_sequence : Agent → ℕ → List Agent → List Agent
with_sequence agent n = update_where (λ a. a.id == agent.id) (λ a. record a { last_sequence = n })

-- What a batch of some number of events does to the log, to the agents and to nothing else of the
-- control plane.
abbrev pub Appended :
    Env
    → AgentCredentialContext
    → List EventEnvelope
    → Store
    → IngestEventsResponse
    → Store
    → Type 0
Appended env ctx events s r t =
    (news : List AgentEvent) × (t.events ≡ s.events ++ news)
    × Rises ctx.agent.last_sequence news r.last_sequence
    × Fresh (existing_ids ctx.agent events s) [] news
    × All (λ e. in_log ctx.agent e.event_id s.events ≡ false) news
    × All (λ e. e.agent_id ≡ ctx.agent.id) news
    × All (FromBatch env ctx events) news
    × (r.accepted ≡ length news)
    × (r.accepted + r.duplicates + r.rejected ≡ length events)
    × (t.agents ≡ with_sequence ctx.agent r.last_sequence s.agents)
    × (t.commands ≡ s.commands)
    × (t.approvals ≡ s.approvals)

-- The identifiers of the new events are not in the log.
news_in_log :
    (env : Env) (ctx : AgentCredentialContext) (events : List EventEnvelope) (s : Store)
    (seen : List String) (news : List AgentEvent)
    → Fresh (existing_ids ctx.agent events s) seen news
    → All (FromBatch env ctx events) news
    → All (λ e. in_log ctx.agent e.event_id s.events ≡ false) news
unfolding logged
news_in_log env ctx events s seen [] fresh from = tt
news_in_log env ctx events s seen (e ∷ es) fresh from =
    let (ev, at, m, parsed, typed, same) = from.0 in
    let id : e.event_id ≡ ev.event_id = ap (λ (x : AgentEvent). x.event_id) same in
    (
      subst (λ i. in_log ctx.agent i s.events ≡ false) (sym id)
          (unknown-in_log ctx.agent events ev s m
            (subst (λ i. text_in i (existing_ids ctx.agent events s) ≡ false) id fresh.0)),
      news_in_log env ctx events s (e.event_id ∷ seen) es fresh.2 from.1,
    )

finish_batch-Appended :
    (env : Env) (ctx : AgentCredentialContext) (events : List EventEnvelope) (s : Store)
    (q : Progress × Store)
    → Grown env ctx events (existing_ids ctx.agent events s) (begin ctx.agent) s (length events) q
    → Appended env ctx events s (response q.0) (finish_batch env ctx q.0 q.1)
unfolding finish_batch put_sequence use_credential
finish_batch-Appended env ctx events s q
      (news, logs, rises, fresh, mine, from, count, total, same) =
    (
      news,
      logs,
      rises,
      fresh,
      news_in_log env ctx events s [] news fresh from,
      mine,
      from,
      omega (arith, count),
      omega (arith, total),
      ap (with_sequence ctx.agent q.0.last_seq) same.0,
      same.1,
      same.2,
    )

-- What a batch that succeeded has come through.
pub committed :
    (env : Env) (ctx : AgentCredentialContext) (s : Store) (c : Result (Unit {0}))
    (m : Result (Progress × Store)) (r : IngestEventsResponse) (t : Store)
    → with_ok (c >> m) s (λ (p, u). (ok (response p), finish_batch env ctx p u)) ≡ (ok r, t)
    → (q : Progress × Store) × (c ≡ ok tt)
      × (m ≡ ok q)
      × (response q.0 ≡ r)
      × (finish_batch env ctx q.0 q.1 ≡ t)
committed env ctx s (ok a) (ok q) r t h = (
  q,
  refl,
  refl,
  ok_inj (ap (λ (z : Result IngestEventsResponse × Store). z.0) h),
  ap (λ (z : Result IngestEventsResponse × Store). z.1) h,
)
committed env ctx s (ok a) (err e) r t h =
    cc (ap (λ (z : Result IngestEventsResponse × Store). z.0) h)
committed env ctx s (err e) m r t h = cc (ap (λ (z : Result IngestEventsResponse × Store). z.0) h)

-- A batch that is accepted appends to the log lines of the agent alone, each of which is that of an
-- envelope of the batch with a type of the catalogue and a time that can be read. Their sequences rise
-- strictly from the last one of the agent to the one that is returned, and their identifiers are
-- distinct and are those of no event of the agent in the log before. The answer counts each envelope of
-- the batch once, and as accepted those that were appended; the last sequence is written into the row
-- of the agent, and commands and approvals are left as they are.
pub ingest_events-Appended :
    (env : Env) (ctx : AgentCredentialContext) (events : List EventEnvelope) (s : Store)
    (r : IngestEventsResponse) (t : Store)
    → ingest_events env ctx events s ≡ (ok r, t)
    → Appended env ctx events s r t
unfolding ingest_events in_sequence
ingest_events-Appended env ctx events s r t h =
    let (q, passed, e, answer, written) =
      committed env ctx s (check_batch env ctx events) _ r t h in
    subst (λ z. Appended env ctx events s z t) answer
      (subst (Appended env ctx events s (response q.0)) written (
        finish_batch-Appended env ctx events s q (
          subst
            (λ n. Grown env ctx events (existing_ids ctx.agent events s) (begin ctx.agent) s n q)
            (length-sort_by _ events)
            (Ensures-ok
              (Grown env ctx events (existing_ids ctx.agent events s) (begin ctx.agent) s
                (length (in_sequence events)))
              _ q e
              (take_each-Grown env ctx events (existing_ids ctx.agent events s) (in_sequence events)
                (begin ctx.agent) s
                (All-sort_by (λ ev. Member ev events) _ events
                  (All-of_Member _ events (λ x m. m))))))))
