-- ===== src/Ingest/SpentLoop.antt =====
-- After the loop of `ingest_events`, apps/api/agent_control/ingest/service.py, there is a reason
-- against each event of its batch.
use mission_control_platform.Prelude.{
  ◌≤◌, ◌<◌, ◌≡◌, ◌≢◌, refl, sym, ◌∙◌, subst, inl, inr, String, Bool, true, false, ◌&&◌, ◌||◌, List,
  [], ◌∷◌, ◌++◌, ◌==◌, All, ==_refl, text_in, str_eq, str_eq_refl, Bool-cases, arith,
}
use mission_control_platform.Errors.{Result, ◌>>=◌}
use mission_control_platform.Rows.{Time, AgentEvent}
use mission_control_platform.Store.{Env, Store}
use mission_control_platform.Store.Keeps.{Ensures, Ensures->>=, Ensures-weaken}
use mission_control_platform.Commands.Delivery.{AgentCredentialContext}
use mission_control_platform.Ingest.{EventEnvelope}
use mission_control_platform.Ingest.Batch.{
  Progress, Verdict, verdict, logged, accept, take_in, take_each,
}
use mission_control_platform.Ingest.Log.{SameRows, accept-logs, verdict-Admissible}
use mission_control_platform.Ingest.Spent.{
  in_log, Refused, any_of-append, in_log-append, Refused-later, verdict-cases,
}

module _ (env : Env) (ctx : AgentCredentialContext) (known : List String) where
  abbrev pub AllLogged : List String → Store → Type 0
  AllLogged ids s = (id : String) → text_in id ids ≡ true → in_log ctx.agent id s.events ≡ true

  -- The sequence and the log only grow.
  abbrev pub Later : Progress → Store → Progress × Store → Type 0
  Later p s r =
      (p.last_seq ≤ r.0.last_seq)
      × ((id : String)
          → in_log ctx.agent id s.events ≡ true
          → in_log ctx.agent id r.1.events ≡ true)

  abbrev pub Spent : Progress × Store → EventEnvelope → Type 0
  Spent r ev = Refused env (in_log ctx.agent ev.event_id r.1.events) r.0.last_seq ev

  in_log-new :
      (ev : EventEnvelope) (at : Time) (id : String) (xs : List AgentEvent)
      → str_eq ev.event_id id ≡ true
      → in_log ctx.agent id (xs ++ logged env ctx ev at ∷ []) ≡ true
  unfolding logged
  in_log-new ev at id xs h =
      any_of-append (λ (e : AgentEvent). (e.agent_id == ctx.agent.id) && str_eq e.event_id id) xs _
      ∙ last _ _ _ (==_refl ctx.agent.id) h
    where
      last : (a b c : Bool) → b ≡ true → c ≡ true → (a || ((b && c) || false)) ≡ true
      last a b c h k = ground arith

  -- An event of the batch, what follows it, and what is known of the log before it.
  module _ (ev : EventEnvelope) (evs : List EventEnvelope) (p : Progress) (s : Store)
      (k : Progress × Store → Result (Progress × Store)) (logs_known : AllLogged known s)
      (logs_seen : AllLogged p.seen s)
      (ih : (q : Progress) (t : Store)
        → AllLogged known t
        → AllLogged q.seen t
        → Ensures (λ r. Later q t r × All (Spent r) evs) (k (q, t))) where
    twice :
        (text_in ev.event_id known || text_in ev.event_id p.seen) ≡ true
        → in_log ctx.agent ev.event_id s.events ≡ true
    twice t = elim (Bool-cases (text_in ev.event_id known)) [
      | inl e ↦ logs_known ev.event_id e
      | inr e ↦ logs_seen ev.event_id (rw e at t)
    ]

    skip :
        (q : Progress)
        → q.last_seq ≡ p.last_seq
        → q.seen ≡ p.seen
        → Refused env (text_in ev.event_id known || text_in ev.event_id p.seen) p.last_seq ev
        → Ensures (λ r. Later p s r × All (Spent r) (ev ∷ evs)) (k (q, s))
    skip q l e f =
        Ensures-weaken (λ r. Later q s r × All (Spent r) evs)
          (λ r. Later p s r × All (Spent r) (ev ∷ evs)) (k (q, s))
          (ih q s logs_known (subst (λ z. AllLogged z s) (sym e) logs_seen))
          λ r (later, spent). (
            (omega (arith, l, later.0), later.1),
            (
              Refused-later env _ _ _ _ ev (λ t. later.1 ev.event_id (twice t))
                  (omega (arith, l, later.0)) f,
              spent,
            ),
          )

    abbrev Taken : Time → Progress × Store → Type 0
    Taken at r =
        (r.0.last_seq ≡ ev.sequence)
        × (r.0.seen ≡ ev.event_id ∷ p.seen)
        × (r.1.events ≡ s.events ++ logged env ctx ev at ∷ [])

    log_kept :
        (at : Time) (t : Store)
        → t.events ≡ s.events ++ logged env ctx ev at ∷ []
        → (id : String) → in_log ctx.agent id s.events ≡ true
        → in_log ctx.agent id t.events ≡ true
    log_kept at t e id f = rw e (in_log-append ctx.agent id s.events _ f)

    seen_kept :
        (at : Time) (t : Store)
        → t.events ≡ s.events ++ logged env ctx ev at ∷ []
        → AllLogged (ev.event_id ∷ p.seen) t
    seen_kept at t e id f = elim (Bool-cases (str_eq ev.event_id id)) [
      | inl g ↦ rw e (in_log-new ev at id s.events g)
      | inr g ↦ log_kept at t e id (logs_seen id (rw g at f))
    ]

    take :
        (at : Time)
        → p.last_seq < ev.sequence
        → Ensures
            (λ r. Later p s r × All (Spent r) (ev ∷ evs))
            (take_in env ctx ev (Verdict.acceptance at) p s >>= k)
    unfolding take_in
    take at l =
        Ensures->>= (Taken at) (λ r. Later p s r × All (Spent r) (ev ∷ evs)) _ k
          (Ensures->>=
            (λ (t : Store). (t.events ≡ s.events ++ logged env ctx ev at ∷ []) × SameRows s t)
            (Taken at) (accept env ctx ev at s) _ (accept-logs env ctx [] known ev at s)
            λ t g. (refl, refl, g.0))
          λ (q, t) (m, e, logs).
            Ensures-weaken (λ r. Later q t r × All (Spent r) evs)
              (λ r. Later p s r × All (Spent r) (ev ∷ evs)) (k (q, t))
              (ih q t (λ id f. log_kept at t logs id (logs_known id f))
                (subst (λ z. AllLogged z t) (sym e) (seen_kept at t logs)))
              λ r (later, spent). (
                (omega (arith, l, m, later.0), λ id f. later.1 id (log_kept at t logs id f)),
                (
                  inl (
                      later.1 ev.event_id (
                        rw logs (in_log-new ev at ev.event_id s.events (str_eq_refl ev.event_id)))),
                  spent,
                ),
              )

    reason :
        (v : Verdict)
        → verdict env known p ev ≡ v
        → ((at : Time) → v ≢ Verdict.acceptance at)
        → Refused env (text_in ev.event_id known || text_in ev.event_id p.seen) p.last_seq ev
    reason v e other = elim (verdict-cases env known p ev) [
      | inl (at, f) ↦ absurd (other at (sym e ∙ f))
      | inr f ↦ f
    ]

    then-Spent :
        (v : Verdict)
        → verdict env known p ev ≡ v
        → Ensures (λ r. Later p s r × All (Spent r) (ev ∷ evs)) (take_in env ctx ev v p s >>= k)
    unfolding take_in
    then-Spent Verdict.duplicate e = skip _ refl refl (reason _ e (λ at f. cc))
    then-Spent Verdict.rejection e = skip _ refl refl (reason _ e (λ at f. cc))
    then-Spent (Verdict.acceptance at) e = take at (verdict-Admissible env known p ev at e).2

  pub take_each-Spent :
      (evs : List EventEnvelope) (p : Progress) (s : Store)
      → AllLogged known s
      → AllLogged p.seen s
      → Ensures (λ r. Later p s r × All (Spent r) evs) (take_each env ctx known evs p s)
  unfolding take_each
  take_each-Spent [] p s logs_known logs_seen = ((omega arith, λ id f. f), tt)
  take_each-Spent (ev ∷ evs) p s logs_known logs_seen =
      then-Spent ev evs p s (λ (q, t). take_each env ctx known evs q t) logs_known logs_seen
        (λ q t. take_each-Spent evs q t) _ refl
