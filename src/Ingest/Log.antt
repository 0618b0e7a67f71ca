-- ===== src/Ingest/Log.antt =====
-- What the loop of `ingest_events`, apps/api/agent_control/ingest/service.py, adds to the log.
use mathlib.Core.List.{append_assoc, append-nil}
use mission_control_platform.Prelude.{
  ℕ, suc, ◌+◌, ◌<◌, ◌≡◌, refl, sym, ap, ◌∙◌, subst, inl, inr, String, Bool, true, false, ◌||◌,
  Option, none, some, List, [], ◌∷◌, ◌++◌, All, Member, length, leb, text_in, Bool-cases, arith,
}
use mission_control_platform.Errors.{Result, ok, ◌>>=◌}
use mission_control_platform.Rows.{Time, AgentEvent}
use mission_control_platform.Store.{Env, Store}
use mission_control_platform.Store.Keeps.{Ensures, Ensures->>=, Ensures-weaken}
use mission_control_platform.Outbox.{event_types}
use mission_control_platform.Commands.Delivery.{AgentCredentialContext}
use mission_control_platform.Ingest.{EventEnvelope, parse_dt}
use mission_control_platform.Ingest.Batch.{
  Progress, Verdict, verdict, in_order, logged, announced, accept, take_in, take_each,
}
use mission_control_platform.Ingest.Untouched.{Untouched, project_event-Untouched}

-- Sequences that rise strictly, from a number to another.
abbrev pub Rises : ℕ → List AgentEvent → ℕ → Type 0
Rises n [] m = n ≡ m
Rises n (e ∷ es) m = (n < e.sequence) × Rises e.sequence es m

-- Identifiers that no list of those known holds, nor an earlier event.
abbrev pub Fresh : List String → List String → List AgentEvent → Type 0
Fresh known seen [] = Unit
Fresh known seen (e ∷ es) =
    (text_in e.event_id known ≡ false)
    × (text_in e.event_id seen ≡ false)
    × Fresh known (e.event_id ∷ seen) es

abbrev pub handled : Progress → ℕ
handled p = p.accepted + p.duplicates + p.rejected

abbrev pub SameRows : Store → Store → Type 0
SameRows s t = (t.agents ≡ s.agents) × (t.commands ≡ s.commands) × (t.approvals ≡ s.approvals)

-- A line of the log that is that of an envelope of a batch, of a known type and with a time that can
-- be read.
abbrev pub FromBatch : Env → AgentCredentialContext → List EventEnvelope → AgentEvent → Type 0
FromBatch env ctx batch e =
    (ev : EventEnvelope) × (at : Time) × Member ev batch
    × (parse_dt env ev.occurred_at ≡ some at)
    × (text_in ev.event_type event_types ≡ true)
    × (e ≡ logged env ctx ev at)

-- The new events of a loop over some number of envelopes.
abbrev pub Grown :
    Env
    → AgentCredentialContext
    → List EventEnvelope
    → List String
    → Progress
    → Store
    → ℕ
    → Progress × Store
    → Type 0
Grown env ctx batch known p s n r =
    (news : List AgentEvent) × (r.1.events ≡ s.events ++ news)
    × Rises p.last_seq news r.0.last_seq
    × Fresh known p.seen news
    × All (λ e. e.agent_id ≡ ctx.agent.id) news
    × All (FromBatch env ctx batch) news
    × (r.0.accepted ≡ p.accepted + length news)
    × (handled r.0 ≡ handled p + n)
    × SameRows s r.1

-- What a verdict of acceptance has tested.
abbrev pub Admissible : Env → List String → Progress → EventEnvelope → Time → Type 0
Admissible env known p ev at =
    (text_in ev.event_id known ≡ false)
    × (text_in ev.event_id p.seen ≡ false)
    × (p.last_seq < ev.sequence)
    × (parse_dt env ev.occurred_at ≡ some at)
    × (text_in ev.event_type event_types ≡ true)

in_order-acceptance :
    (old : Bool) (o : Option Time) (at : Time)
    → in_order old o ≡ Verdict.acceptance at
    → (old ≡ false) × (o ≡ some at)
in_order-acceptance true none at h = cc
in_order-acceptance false none at h = cc
in_order-acceptance true (some u) at h = cc
in_order-acceptance false (some u) at h = (refl, cc)

leb-false : (m n : ℕ) → leb m n ≡ false → n < m
leb-false m n h = ground arith

neither : (a b : Bool) → (a || b) ≡ false → (a ≡ false) × (b ≡ false)
neither a b h = ground arith

pub verdict-Admissible :
    (env : Env) (known : List String) (p : Progress) (ev : EventEnvelope) (at : Time)
    → verdict env known p ev ≡ Verdict.acceptance at
    → Admissible env known p ev at
unfolding verdict
verdict-Admissible env known p ev at h =
    elim (Bool-cases (text_in ev.event_id known || text_in ev.event_id p.seen)) [
      | inl e ↦ cc (rw e at h)
      | inr e ↦ elim (Bool-cases (text_in ev.event_type event_types)) [
        | inl f ↦ admit (neither _ _ e) f (in_order-acceptance _ _ at (rw (e, f) at h))
        | inr f ↦ cc (rw (e, f) at h)
      ]
    ]
  where
    admit :
        (text_in ev.event_id known ≡ false) × (text_in ev.event_id p.seen ≡ false)
        → text_in ev.event_type event_types ≡ true
        → (leb ev.sequence p.last_seq ≡ false) × (parse_dt env ev.occurred_at ≡ some at)
        → Admissible env known p ev at
    admit u f l = (u.0, u.1, leb-false ev.sequence p.last_seq l.0, l.1, f)

module _ (env : Env) (ctx : AgentCredentialContext) (batch : List EventEnvelope)
    (known : List String) where
  -- One event more that is not taken in.
  Grown-skip :
      (p q : Progress) (s : Store) (n : ℕ) (r : Progress × Store)
      → q.last_seq ≡ p.last_seq
      → q.seen ≡ p.seen
      → q.accepted ≡ p.accepted
      → handled q ≡ handled p + 1
      → Grown env ctx batch known q s n r
      → Grown env ctx batch known p s (suc n) r
  Grown-skip p q s n r l e a h (news, logs, rises, fresh, mine, from, count, total, rest) = (
    news,
    logs,
    subst (λ m. Rises m news r.0.last_seq) l rises,
    subst (λ m. Fresh known m news) e fresh,
    mine,
    from,
    omega (arith, count, a),
    omega (arith, total, h),
    rest,
  )

  -- One event that is taken in.
  Grown-take :
      (ev : EventEnvelope) (at : Time) (p : Progress) (s t : Store) (n : ℕ) (r : Progress × Store)
      → Member ev batch
      → Admissible env known p ev at
      → t.events ≡ s.events ++ logged env ctx ev at ∷ []
      → SameRows s t
      → Grown env ctx batch known
          (record p {
            accepted = p.accepted + 1;
            seen = ev.event_id ∷ p.seen;
            last_seq = ev.sequence;
          })
          t
          n
          r
      → Grown env ctx batch known p s (suc n) r
  unfolding logged
  Grown-take ev at p s t n r m (k, u, l, parsed, typed) e same
        (news, logs, rises, fresh, mine, from, count, total, rest) =
      (
        logged env ctx ev at ∷ news,
        logs
            ∙ ap (λ (m : List AgentEvent). m ++ news) e
            ∙ append_assoc s.events (logged env ctx ev at ∷ []) news,
        (l, rises),
        (k, u, fresh),
        (refl, mine),
        ((ev, at, m, parsed, typed, refl), from),
        omega (arith, count),
        omega (arith, total),
        (rest.0 ∙ same.0, rest.1 ∙ same.1, rest.2 ∙ same.2),
      )

  pub accept-logs :
      (ev : EventEnvelope) (at : Time) (s : Store)
      → Ensures
          (λ t. (t.events ≡ s.events ++ logged env ctx ev at ∷ []) × SameRows s t)
          (accept env ctx ev at s)
  unfolding accept
  accept-logs ev at s =
      let written = record s {
        events = s.events ++ logged env ctx ev at ∷ [];
        outbox = s.outbox ++ announced ctx.agent ev ∷ [];
      } in
      Ensures-weaken (Untouched written)
        (λ (t : Store). (t.events ≡ s.events ++ logged env ctx ev at ∷ []) × SameRows s t) _
        (project_event-Untouched env ctx.agent ev at written) λ t h. (h.0, (h.1, h.2, h.3))

  -- One event, and what follows.
  then-Grown :
      (ev : EventEnvelope) (p : Progress) (s : Store) (n : ℕ)
      (k : Progress × Store → Result (Progress × Store)) (v : Verdict)
      → Member ev batch
      → verdict env known p ev ≡ v
      → ((q : Progress) (t : Store) → Ensures (λ r. Grown env ctx batch known q t n r) (k (q, t)))
      → Ensures (λ r. Grown env ctx batch known p s (suc n) r) (take_in env ctx ev v p s >>= k)
  unfolding take_in
  then-Grown ev p s n k Verdict.duplicate m h ih =
      Ensures-weaken
        (λ r. Grown env ctx batch known (record p { duplicates = p.duplicates + 1 }) s n r)
        (λ r. Grown env ctx batch known p s (suc n) r) _ (ih _ s)
        λ r g. Grown-skip p _ s n r refl refl refl (omega arith) g
  then-Grown ev p s n k Verdict.rejection m h ih =
      Ensures-weaken (λ r. Grown env ctx batch known (record p { rejected = p.rejected + 1 }) s n r)
        (λ r. Grown env ctx batch known p s (suc n) r) _ (ih _ s)
        λ r g. Grown-skip p _ s n r refl refl refl (omega arith) g
  then-Grown ev p s n k (Verdict.acceptance at) m h ih =
      let q : Progress = record p {
        accepted = p.accepted + 1;
        seen = ev.event_id ∷ p.seen;
        last_seq = ev.sequence;
      } in
      Ensures->>=
        (λ (r : Progress × Store).
          (r.0 ≡ q) × (r.1.events ≡ s.events ++ logged env ctx ev at ∷ []) × SameRows s r.1)
        (λ r. Grown env ctx batch known p s (suc n) r) _ k
        (Ensures->>=
          (λ (t : Store). (t.events ≡ s.events ++ logged env ctx ev at ∷ []) × SameRows s t)
          (λ (r : Progress × Store).
            (r.0 ≡ q) × (r.1.events ≡ s.events ++ logged env ctx ev at ∷ []) × SameRows s r.1)
          (accept env ctx ev at s) (λ t. ok (q, t)) (accept-logs ev at s) λ t g. (refl, g.0, g.1))
        λ (r, t) (e, logs, same).
          subst (λ z. Ensures (λ r. Grown env ctx batch known p s (suc n) r) (k (z, t))) (sym e)
            (Ensures-weaken (λ r. Grown env ctx batch known q t n r)
              (λ r. Grown env ctx batch known p s (suc n) r) _ (ih q t)
              λ r g.
                Grown-take ev at p s t n r m (verdict-Admissible env known p ev at h) logs same g)

  pub take_each-Grown :
      (evs : List EventEnvelope) (p : Progress) (s : Store)
      → All (λ ev. Member ev batch) evs
      → Ensures
          (λ r. Grown env ctx batch known p s (length evs) r)
          (take_each env ctx known evs p s)
  unfolding take_each
  take_each-Grown [] p s ms = (
    [],
    sym (append-nil s.events),
    refl,
    tt,
    tt,
    tt,
    omega arith,
    omega arith,
    (refl, refl, refl),
  )
  take_each-Grown (ev ∷ evs) p s (m, ms) =
      then-Grown ev p s (length evs) (λ (q, t). take_each env ctx known evs q t) _ m refl
        λ q t. take_each-Grown evs q t ms
