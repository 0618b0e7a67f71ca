-- ===== src/Ingest/Newest.antt =====
-- Heartbeats that arrive in any order, `ingest_heartbeat_v1` of
-- apps/api/agent_control/ingest/service.py.
use mission_control_platform.Prelude.{
  ℕ, ◌≤◌, ◌≡◌, ◌⊎◌, refl, sym, ap, ◌∙◌, subst, inl, inr, true, false, Option, none, some, List, [],
  ◌∷◌, ◌++◌, All, Bool-cases, or_else, arith,
}
use mission_control_platform.Rows.{Time, Agent, AgentState}
use mission_control_platform.Ingest.Heartbeat.{HeartbeatIn, beat, is_old, newer, or_keep}

-- A heartbeat, with the moment at which it is read and the state that its text names.
pub record Beat : Type 0 where
  pub moment : Time
  pub state : AgentState
  pub body : HeartbeatIn

abbrev pub one_beat : Beat → Agent → Agent
one_beat b = beat b.moment b.state b.body

abbrev pub all_beats : List Beat → Agent → Agent
all_beats [] a = a
all_beats (b ∷ bs) a = all_beats bs (one_beat b a)

-- A heartbeat's own sequence, if it gives one, is no later than another.
abbrev pub NoLater : ℕ → Beat → Type 0
NoLater m b = or_else b.body.sequence 0 ≤ m

-- Each of some heartbeats gives a sequence that is older than another.
abbrev pub AllOld : ℕ → List Beat → Type 0
AllOld m = All (λ b. is_old b.body.sequence m ≡ true)

-- All that a heartbeat may change but the time of the last one.
abbrev pub SameReport : Agent → Agent → Type 0
SameReport a z =
    (z.last_sequence ≡ a.last_sequence)
    × (z.state ≡ a.state)
    × (z.task ≡ a.task)
    × (z.progress ≡ a.progress)

-- What a heartbeat that is not old leaves in the row that it finds.
abbrev pub Reports : Beat → Agent → Agent → Type 0
Reports b y z =
    (is_old b.body.sequence y.last_sequence ≡ false)
    × (z.last_sequence ≡ or_else b.body.sequence y.last_sequence)
    × (z.state ≡ b.state)
    × (z.task ≡ or_keep b.body.task y.task)
    × (z.progress ≡ or_else b.body.progress y.progress)

-- Whose report the row has in the end: none was applied, or it is that of one that was not old when
-- it came, and all that came after it were older.
abbrev pub Newest : Agent → List Beat → Agent → Type 0
Newest a bs z =
    (AllOld a.last_sequence bs × SameReport a z)
    ⊎ ((xs : List Beat) × (b : Beat) × (ys : List Beat) × (bs ≡ xs ++ b ∷ ys)
        × Reports b (all_beats xs a) z
        × AllOld z.last_sequence ys)

abbrev pub last_moment : List Beat → Option Time → Option Time
last_moment [] before = before
last_moment (b ∷ bs) before = last_moment bs (some b.moment)

newer-applied : (o : Option ℕ) (last : ℕ) → is_old o last ≡ false → newer o last ≡ or_else o last
newer-applied none last h = refl
newer-applied (some n) last h = ground arith

old_below : (o : Option ℕ) (last : ℕ) → is_old o last ≡ true → or_else o 0 ≤ last
old_below none last h = cc
old_below (some n) last h = ground arith

applied_above :
    (o : Option ℕ) (last : ℕ)
    → is_old o last ≡ false
    → (last ≤ or_else o last) × (or_else o 0 ≤ or_else o last)
applied_above none last h = (omega arith, omega arith)
applied_above (some n) last h = (ground arith, omega arith)

-- A heartbeat is old and only shows that the agent lives, or its report is taken.
one_beat-cases :
    (b : Beat) (a : Agent)
    → ((one_beat b a).last_heartbeat ≡ some b.moment)
      × (((is_old b.body.sequence a.last_sequence ≡ true) × SameReport a (one_beat b a))
          ⊎ Reports b a (one_beat b a))
unfolding beat
one_beat-cases b a = elim (Bool-cases (is_old b.body.sequence a.last_sequence)) [
  | inl e ↦ rw e (refl, inl (refl, (refl, refl, refl, refl)))
  | inr e ↦
      rw e (refl, inr (refl, newer-applied b.body.sequence a.last_sequence e, refl, refl, refl))
]

one_beat-rises :
    (b : Beat) (a : Agent)
    → (a.last_sequence ≤ (one_beat b a).last_sequence) × NoLater (one_beat b a).last_sequence b
one_beat-rises b a = elim (one_beat-cases b a).1 [
  | inl (old, same) ↦
      let below = old_below b.body.sequence a.last_sequence old in
      (omega (arith, same.0), omega (arith, same.0, below))
  | inr (fresh, seq, state, task, progress) ↦
      let above = applied_above b.body.sequence a.last_sequence fresh in
      (omega (arith, seq, above.0), omega (arith, seq, above.1))
]

-- One heartbeat before others.
Newest-before :
    (b : Beat) (bs : List Beat) (a z : Agent) → Newest (one_beat b a) bs z → Newest a (b ∷ bs) z
Newest-before b bs a z (inr (xs, c, ys, split, report, old)) =
    inr (b ∷ xs, c, ys, ap (λ (l : List Beat). b ∷ l) split, report, old)
Newest-before b bs a z (inl (old, same)) = elim (one_beat-cases b a).1 [
  | inl (first, kept) ↦ inl (
    (first, subst (λ m. AllOld m bs) kept.0 old),
    (same.0 ∙ kept.0, same.1 ∙ kept.1, same.2 ∙ kept.2, same.3 ∙ kept.3),
  )
  | inr (fresh, seq, state, task, progress) ↦ inr (
    [],
    b,
    bs,
    refl,
    (fresh, same.0 ∙ seq, same.1 ∙ state, same.2 ∙ task, same.3 ∙ progress),
    subst (λ m. AllOld m bs) (sym same.0) old,
  )
]

-- After heartbeats in any order, with sequences or without, the agent's sequence is at least the one
-- it had and each of theirs, and the time of the last heartbeat is that of the last one to arrive.
-- Either each of them was older than the agent's sequence, and state, task, progress and sequence are
-- as they were; or these are the ones that the last heartbeat which was not old on arrival gave (with
-- the task, progress and sequence before it where it gives none), and every one after it was older
-- than the sequence in the end.
pub all_beats-Newest :
    (bs : List Beat) (a : Agent)
    → (a.last_sequence ≤ (all_beats bs a).last_sequence)
      × All (NoLater (all_beats bs a).last_sequence) bs
      × ((all_beats bs a).last_heartbeat ≡ last_moment bs a.last_heartbeat)
      × Newest a bs (all_beats bs a)
all_beats-Newest [] a = (omega arith, tt, refl, inl (tt, (refl, refl, refl, refl)))
all_beats-Newest (b ∷ bs) a =
    let (rises, bounds, seen, from) = all_beats-Newest bs (one_beat b a) in
    let (up, bound) = one_beat-rises b a in
    (
      omega arith,
      (omega arith, bounds),
      seen ∙ ap (last_moment bs) (one_beat-cases b a).0,
      Newest-before b bs a (all_beats bs (one_beat b a)) from,
    )
