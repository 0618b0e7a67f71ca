-- ===== src/Commands/Delivery/Poll.antt =====
-- What the long poll `poll_commands` of apps/api/agent_control/control/commands.py answers.
use mission_control_platform.Prelude.{
  min, ℕ, ◌<◌, ◌≤◌, ◌≡◌, ◌≢◌, refl, sym, ap, ◌∙◌, subst, inl, inr, Bool, true, List, [], ◌∷◌, ◌++◌,
  All, All-sort_by, length, leb, max, Bool-cases, arith,
}
use mission_control_platform.Errors.{Result, ok, err}
use mission_control_platform.Rows.{Time, Agent, AgentCommand, command_is_expired}
use mission_control_platform.Store.{Store, with_ok}
use mission_control_platform.Store.Keeps.{Returns, Ensures, Ensures->>=, Ensures-weaken, ensures}
use mission_control_platform.Commands.Delivery.{
  AgentCredentialContext, Round, created_before, require_scope, waits_for, deliverable_query,
  expire_if_needed, deliver, deliver_each, fetch_and_deliver, wait_loop, use_credential, poll_limit,
  finish_poll, poll_commands,
}
use mission_control_platform.Commands.Delivery.Handed.{
  Handed, All-waiting, waits_queued, expire_if_needed_lem, fetch_and_deliver-Handed,
}

-- No command that waits for the agent is in time.
abbrev pub NoneInTime : Time → Agent → Store → Type 0
NoneInTime now agent s = All (λ c. command_is_expired c now ≡ true) (deliverable_query agent s)

-- The looks of a poll that found nothing, from a moment and a store to another moment and store: each
-- saw no command in time, left what it committed, and was followed by a sleep.
pub data Quiet (agent : Agent) (limit : ℕ) : Time → Store → List Round → Time → Store → Type 0 where
  first : (now : Time) (s : Store) → Quiet agent limit now s [] now s
  slept :
      (now at : Time) (s t u : Store) (r : Round) (rs : List Round)
      → NoneInTime now agent s
      → fetch_and_deliver now agent limit s ≡ (ok [], t)
      → Quiet agent limit r.woken_at (r.meanwhile t) rs at u
      → Quiet agent limit now s (r ∷ rs) at u

-- The look that a poll ends with, after some quiet ones: it is the last one of all if it finds nothing
-- either.
abbrev pub Ended :
    Agent → ℕ → Time → List Round → Store → Result (List AgentCommand) × Store → Type 0
Ended agent limit now rounds s o =
    (before : List Round) × (after : List Round) × (rounds ≡ before ++ after)
    × (at : Time) × (u : Store) × Quiet agent limit now s before at u
    × (ds : List AgentCommand) × (v : Store) × (fetch_and_deliver at agent limit u ≡ (ok ds, v))
    × (o ≡ (ok ds, v))
    × All (Handed at agent) ds
    × (length ds ≤ limit)
    × (ds ≡ [] → (after ≡ []) × NoneInTime at agent u)

not_empty : (xs : List AgentCommand) (x : AgentCommand) → xs ++ x ∷ [] ≢ []
not_empty [] x h = cc
not_empty (y ∷ ys) x h = cc

-- Where the loop over the queue hands over nothing, nothing was before and all that waits is expired.
abbrev Exhausted : Time → List AgentCommand → List AgentCommand → List AgentCommand × Store → Type 0
Exhausted now cs done r = r.0 ≡ [] → (done ≡ []) × All (λ c. command_is_expired c now ≡ true) cs

deliver_each-Exhausted :
    (now : Time) (agent : Agent) (limit : ℕ) (cs done : List AgentCommand) (s : Store)
    → All (λ c. waits_for agent c ≡ true) cs
    → Ensures (Exhausted now cs done) (deliver_each now agent limit cs done s)
unfolding deliver_each
deliver_each-Exhausted now agent limit [] done s w = λ e. (e, tt)
deliver_each-Exhausted now agent limit (c ∷ cs) done s w =
    Ensures->>= (λ (r : Bool × Store). r.0 ≡ command_is_expired c now) (Exhausted now (c ∷ cs) done)
      (expire_if_needed now c s) _
      (Returns-Ensures _ (expire_if_needed now c s)
        (expire_if_needed_lem now c s (waits_queued agent c w.0)))
      (λ (b, t) q. elim (Bool-cases b) [
        | inl expired ↦ rw expired (
            Ensures-weaken (Exhausted now cs done) (Exhausted now (c ∷ cs) done)
              (deliver_each now agent limit cs done t)
              (deliver_each-Exhausted now agent limit cs done t w.1)
              λ r k e. ((k e).0, (sym q ∙ expired, (k e).1)))
        | inr current ↦ rw current (
            Ensures->>= (λ (r : AgentCommand × Store). Unit {0}) (Exhausted now (c ∷ cs) done)
              (deliver now agent c t) _ (ensures _ (deliver now agent c t) (λ r e. tt))
              (λ (d, u) e. elim (Bool-cases (leb limit (length (done ++ d ∷ [])))) [
                | inl full ↦ rw full (λ k. absurd (not_empty done d k))
                | inr room ↦ rw room (
                    Ensures-weaken (Exhausted now cs (done ++ d ∷ [])) (Exhausted now (c ∷ cs) done)
                      (deliver_each now agent limit cs (done ++ d ∷ []) u)
                      (deliver_each-Exhausted now agent limit cs (done ++ d ∷ []) u w.1)
                      λ r k e. absurd (not_empty done d (k e).0))
              ]))
      ])
  where
    Returns-Ensures : {A : Type 0} (P : A → Type 0) (m : Result A) → Returns P m → Ensures P m
    Returns-Ensures P (ok a) h = h
    Returns-Ensures P (err e) h = tt

-- One look: it returns what it hands over, and nothing only if no command that waits is in time.
abbrev Look : Time → Agent → ℕ → Store → Type 0
Look now agent limit s =
    (ds : List AgentCommand) × (v : Store) × (fetch_and_deliver now agent limit s ≡ (ok ds, v))
    × All (Handed now agent) ds
    × (length ds ≤ limit)
    × (ds ≡ [] → NoneInTime now agent s)

fetch_and_deliver-Look :
    (now : Time) (agent : Agent) (limit : ℕ) (s : Store) → 0 < limit → Look now agent limit s
unfolding fetch_and_deliver deliverable_query
fetch_and_deliver-Look now agent limit s h =
    looked (deliver_each now agent limit (deliverable_query agent s) [] s)
      (fetch_and_deliver-Handed now agent limit s h)
      (deliver_each-Exhausted now agent limit (deliverable_query agent s) [] s (
        All-sort_by (λ c. waits_for agent c ≡ true) created_before _
          (All-waiting agent s.commands)))
  where
    looked :
        (m : Result (List AgentCommand × Store))
        → Returns
            (λ ds. All (Handed now agent) ds × (length ds ≤ limit))
            (with_ok m s (λ r. (ok r.0, r.1))).0
        → Ensures (Exhausted now (deliverable_query agent s) []) m
        → (ds : List AgentCommand) × (v : Store) × (with_ok m s (λ r. (ok r.0, r.1)) ≡ (ok ds, v))
          × All (Handed now agent) ds
          × (length ds ≤ limit)
          × (ds ≡ [] → NoneInTime now agent s)
    looked (ok r) k e = (r.0, r.1, refl, k.0, k.1, λ q. (e q).1)
    looked (err x) k e = absurd k

-- What follows a look: a poll without rounds left, or one with at least one.
stopped :
    (agent : Agent) (limit : ℕ) (now : Time) (rs : List Round) (s : Store)
    (o : Result (List AgentCommand) × Store)
    → (look : Look now agent limit s) → o ≡ (ok look.0, look.1)
    → (look.0 ≡ [] → rs ≡ [])
    → Ended agent limit now rs s o
stopped agent limit now rs s o (ds, v, e, handed, few, none) same last =
    ([], rs, refl, now, s, first now s, ds, v, e, same, handed, few, λ q. (last q, none q))

went_on :
    (agent : Agent) (limit : ℕ) (now : Time) (r : Round) (rs : List Round) (s v : Store)
    (o : Result (List AgentCommand) × Store)
    → fetch_and_deliver now agent limit s ≡ (ok [], v)
    → NoneInTime now agent s
    → Ended agent limit r.woken_at rs (r.meanwhile v) o
    → Ended agent limit now (r ∷ rs) s o
went_on agent limit now r rs s v o e none
      (before, after, split, at, u, quiet, ds, t, last, same, handed, few, nothing) =
    (
      r ∷ before,
      after,
      ap (λ (l : List Round). r ∷ l) split,
      at,
      u,
      slept now at s v u r before none e quiet,
      ds,
      t,
      last,
      same,
      handed,
      few,
      nothing,
    )

stop_or_sleep :
    (agent : Agent) (limit : ℕ) (now : Time) (r : Round) (rs : List Round) (s : Store)
    → ((v : Store)
        → Ended agent limit r.woken_at rs
            (r.meanwhile v)
            (wait_loop agent limit rs (fetch_and_deliver r.woken_at agent limit (r.meanwhile v))))
    → (look : Look now agent limit s)
    → Ended agent limit now (r ∷ rs) s (wait_loop agent limit (r ∷ rs) (ok look.0, look.1))
unfolding wait_loop
stop_or_sleep agent limit now r rs s ih ([], v, e, handed, few, none) =
    went_on agent limit now r rs s v _ e (none refl) (ih v)
stop_or_sleep agent limit now r rs s ih (d ∷ ds, v, e, handed, few, none) =
    stopped agent limit now (r ∷ rs) s _ (d ∷ ds, v, e, handed, few, none) refl (λ q. cc)

wait_loop-Ended :
    (agent : Agent) (limit : ℕ) (now : Time) (rounds : List Round) (s : Store)
    → 0 < limit
    → Ended agent limit now rounds s
        (wait_loop agent limit rounds (fetch_and_deliver now agent limit s))
unfolding wait_loop
wait_loop-Ended agent limit now [] s h =
    let look = fetch_and_deliver-Look now agent limit s h in
    stopped agent limit now [] s _ look look.2 (λ q. refl)
wait_loop-Ended agent limit now (r ∷ rs) s h =
    let look = fetch_and_deliver-Look now agent limit s h in
    subst (λ o. Ended agent limit now (r ∷ rs) s (wait_loop agent limit (r ∷ rs) o)) (sym look.2)
      (stop_or_sleep agent limit now r rs s
        (λ v. wait_loop-Ended agent limit r.woken_at rs (r.meanwhile v) h) look)

-- What a poll answers and commits, from the look that it ends with.
abbrev pub Answered :
    AgentCredentialContext
    → Time
    → List Round
    → Time
    → ℕ
    → Store
    → Result (List AgentCommand) × Store
    → Type 0
Answered ctx started rounds ended limit s o =
    (before : List Round) × (after : List Round) × (rounds ≡ before ++ after)
    × (at : Time) × (u : Store) × Quiet ctx.agent (max 1 (min limit 100)) started s before at u
    × (ds : List AgentCommand) × (v : Store) × (fetch_and_deliver at ctx.agent
          (max 1 (min limit 100)) u
        ≡ (ok ds, v))
    × (o ≡ (ok ds, use_credential ctx ended v))
    × All (Handed at ctx.agent) ds
    × (length ds ≤ 100)
    × (length ds ≤ max 1 limit)
    × (ds ≡ [] → (after ≡ []) × NoneInTime at ctx.agent u)

clamped :
    (n : ℕ) → (0 < max 1 (min n 100)) × (max 1 (min n 100) ≤ 100) × (max 1 (min n 100) ≤ max 1 n)
clamped n = ground arith

finish_poll-Answered :
    (ctx : AgentCredentialContext) (started : Time) (rounds : List Round) (ended : Time) (limit : ℕ)
    (s : Store) (o : Result (List AgentCommand) × Store)
    → Ended ctx.agent (max 1 (min limit 100)) started rounds s o
    → Answered ctx started rounds ended limit s (finish_poll ctx ended o)
finish_poll-Answered ctx started rounds ended limit s o
      (before, after, split, at, u, quiet, ds, v, e, same, handed, few, none) =
    let (low, high, asked) = clamped limit in
    (
      before,
      after,
      split,
      at,
      u,
      quiet,
      ds,
      v,
      e,
      ap (finish_poll ctx ended) same,
      handed,
      omega arith,
      omega arith,
      none,
    )

-- A poll of an agent that may read commands returns, and it ends with the first look at the queue that
-- finds a command that waits and is in time. Each look has the limit asked for, brought between 1 and
-- 100; the answer is what the last look hands over, at most that many commands, each of the agent, now
-- delivered, released and not past its expiry. No look before it delivered anything, since all that
-- waited then was expired, and no look follows it, so no delivery is lost. The answer is empty only if
-- the looks of every round found nothing in time. What is committed is what the last look left and the
-- use of the credential.
pub poll_commands-Answered :
    (ctx : AgentCredentialContext) (started : Time) (rounds : List Round) (ended : Time) (limit : ℕ)
    (s : Store)
    → require_scope ctx "commands" ≡ ok tt
    → Answered ctx started rounds ended limit s (poll_commands ctx started rounds ended limit s)
unfolding poll_commands poll_limit
poll_commands-Answered ctx started rounds ended limit s allowed = rw allowed (
    finish_poll-Answered ctx started rounds ended limit s
      (wait_loop ctx.agent (max 1 (min limit 100)) rounds
        (fetch_and_deliver started ctx.agent (max 1 (min limit 100)) s))
      (wait_loop-Ended ctx.agent (max 1 (min limit 100)) started rounds s (clamped limit).0))
