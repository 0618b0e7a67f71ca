-- ===== src/Control/Poll.antt =====
-- The long poll of apps/api/agent_control/control/commands.py as a chain of transactions.
use mission_control_platform.Prelude.{ℕ, refl, inl, inr, List, [], ◌∷◌, Member}
use mission_control_platform.Errors.{Result, ok, err}
use mission_control_platform.Rows.{Time, Agent, AgentCommand}
use mission_control_platform.Store.{Store, with_ok}
use mission_control_platform.Commands.Delivery.{
  AgentCredentialContext, Round, require_scope, fetch_and_deliver, wait_loop, use_credential,
  poll_limit, finish_poll, poll_commands,
}
use mission_control_platform.Control.{Steps, fetched, elsewhere, stay, then}

Steps-trans : (s t u : Store) → Steps s t → Steps t u → Steps s u
Steps-trans s _ _ before (stay t) = before
Steps-trans s _ _ before (then t v u after last) = then s v u (Steps-trans s t v before after) last

wait_loop-Steps :
    (s : Store) (agent : Agent) (limit : ℕ) (rounds : List Round)
    (o : Result (List AgentCommand) × Store)
    → ((r : Round) → Member r rounds → (t : Store) → Steps t (r.meanwhile t))
    → Steps s o.1
    → Steps s (wait_loop agent limit rounds o).1
unfolding wait_loop
wait_loop-Steps s agent limit [] o others before = before
wait_loop-Steps s agent limit (r ∷ rs) (err e, t) others before = before
wait_loop-Steps s agent limit (r ∷ rs) (ok (c ∷ cs), t) others before = before
wait_loop-Steps s agent limit (r ∷ rs) (ok [], t) others before =
    wait_loop-Steps s agent limit rs (fetch_and_deliver r.woken_at agent limit (r.meanwhile t))
      (λ q m. others q (inr m))
      (then s (r.meanwhile t) (fetch_and_deliver r.woken_at agent limit (r.meanwhile t)).1
        (Steps-trans s t (r.meanwhile t) before (others r (inl refl) t))
        (fetched r.woken_at agent limit (r.meanwhile t)))

finish_poll-Steps :
    (ctx : AgentCredentialContext) (ended : Time) (s : Store)
    (o : Result (List AgentCommand) × Store)
    → Steps s o.1
    → Steps s (finish_poll ctx ended o).1
unfolding use_credential
finish_poll-Steps ctx ended s (err e, t) before = before
finish_poll-Steps ctx ended s (ok cs, t) before =
    then s t (use_credential ctx ended t) before
      (elsewhere t (use_credential ctx ended t) refl refl)

checked-Steps :
    (m : Result (Unit {0})) (s : Store) (f : Unit {0} → Result (List AgentCommand) × Store)
    → Steps s (f tt).1
    → Steps s (with_ok m s f).1
checked-Steps (err e) s f h = stay s
checked-Steps (ok u) s f h = h

-- If what the others commit while a poll sleeps is made of transactions of the control plane, the
-- whole poll is a sequence of such transactions: each look at the queue is one, and it changes
-- neither commands nor approvals in any other way.
poll_commands-Steps :
    (ctx : AgentCredentialContext) (started : Time) (rounds : List Round) (ended : Time) (limit : ℕ)
    (s : Store)
    → ((r : Round) → Member r rounds → (t : Store) → Steps t (r.meanwhile t))
    → Steps s (poll_commands ctx started rounds ended limit s).1
unfolding poll_commands
poll_commands-Steps ctx started rounds ended limit s others =
    checked-Steps (require_scope ctx "commands") s _ (
      finish_poll-Steps ctx ended s
        (wait_loop ctx.agent (poll_limit limit) rounds
          (fetch_and_deliver started ctx.agent (poll_limit limit) s))
        (wait_loop-Steps s ctx.agent (poll_limit limit) rounds
          (fetch_and_deliver started ctx.agent (poll_limit limit) s) others
          (then s s (fetch_and_deliver started ctx.agent (poll_limit limit) s).1 (stay s)
            (fetched started ctx.agent (poll_limit limit) s))))
