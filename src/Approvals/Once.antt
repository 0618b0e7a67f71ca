-- ===== src/Approvals/Once.antt =====
-- The optimistic lock of the decisions in apps/api/agent_control/control/approvals.py: a request is
-- decided once.
use mission_control_platform.Prelude.{
  ◌≡◌, refl, sym, ap, ◌∙◌, subst, inl, inr, Bool, true, false, ◌&&◌, Option, none, some, List, [],
  ◌∷◌, ◌==◌, ==_iff, some_inj, any_of, find_first, update_where, opt_eq, Member, Bool-cases, arith,
  String,
}
use mission_control_platform.Errors.{Result, Error, ok, err}
use mission_control_platform.Access.{HostContext}
use mission_control_platform.StateMachines.{CommandState, ApprovalState}
use mission_control_platform.Rows.{
  Uuid, AgentCommand, ApprovalRequest, is_queued, approval_is_expired,
}
use mission_control_platform.Store.{Env, Store, RawId, as_uuid, tenant, with_ok, or_not_found, emit}
use mission_control_platform.Store.Keeps.{
  with_ok-eq-ok, or_not_found-eq-ok, ok_inj, Ensures, Ensures->>=, ensures,
}
use mission_control_platform.Audit.{audit_from_context}
use mission_control_platform.Commands.{transition_command, put_command}
use mission_control_platform.Approvals.{
  ApprovalDecisionIn, Decision, approval, rejection, is_pending, approval_by_id, get_approval,
  linked_command, release_linked, cancel_linked, decidable_row, decided, settle, announce,
  decide_row, refuse_expired, decide,
}

-- The primary key: two requests with one identifier are one request.
abbrev pub Keyed : List ApprovalRequest → Type 0
Keyed rows = (x y : ApprovalRequest) → Member x rows → Member y rows → x.id ≡ y.id → x ≡ y

any_of-Member :
    (p : ApprovalRequest → Bool) (xs : List ApprovalRequest)
    → any_of p xs ≡ true
    → (x : ApprovalRequest) × Member x xs × (p x ≡ true)
any_of-Member p [] h = cc
any_of-Member p (x ∷ xs) h = elim (Bool-cases (p x)) [
  | inl e ↦ (x, inl refl, e)
  | inr e ↦ let (y, m, k) = any_of-Member p xs (rw e at h) in (y, inr m, k)
]

find_first-Member :
    (p : ApprovalRequest → Bool) (xs : List ApprovalRequest) (a : ApprovalRequest)
    → find_first p xs ≡ some a
    → Member a xs
find_first-Member p [] a h = cc
find_first-Member p (x ∷ xs) a h = elim (Bool-cases (p x)) [
  | inl e ↦ inl (some_inj (rw e at h))
  | inr e ↦ inr (find_first-Member p xs a (rw e at h))
]

-- The first row that passes a test is found again, updated.
find_first-updated :
    (p u : ApprovalRequest → Bool) (f : ApprovalRequest → ApprovalRequest)
    (xs : List ApprovalRequest) (a : ApprovalRequest)
    → ((x : ApprovalRequest) → p (f x) ≡ p x)
    → u a ≡ true
    → find_first p xs ≡ some a
    → find_first p (update_where u f xs) ≡ some (f a)
find_first-updated p u f [] a stable h e = cc
find_first-updated p u f (x ∷ xs) a stable h e = elim (Bool-cases (p x)) [
  | inl k ↦
      rw (subst (λ z. u z ≡ true) (sym (some_inj (rw k at e))) h, stable x, k)
        (ap (λ z. some (f z)) (some_inj (rw k at e)))
  | inr k ↦ elim (Bool-cases (u x)) [
    | inl j ↦ rw (j, stable x, k) (find_first-updated p u f xs a stable h (rw k at e))
    | inr j ↦ rw (j, k) (find_first-updated p u f xs a stable h (rw k at e))
  ]
]

release_linked-approvals :
    (env : Env) (o : Option AgentCommand) (s : Store)
    → (release_linked env.now o s).approvals ≡ s.approvals
unfolding release_linked put_command emit
release_linked-approvals env none s = refl
release_linked-approvals env (some c) s = elim (Bool-cases (is_queued c.status)) [
  | inl e ↦ rw e refl
  | inr e ↦ rw e refl
]

cancel_linked-approvals :
    (env : Env) (why : String) (o : Option AgentCommand) (s : Store)
    → Ensures (λ t. t.approvals ≡ s.approvals) (cancel_linked env.now why o s)
unfolding cancel_linked put_command emit
cancel_linked-approvals env why none s = refl
cancel_linked-approvals env why (some c) s = elim (Bool-cases (is_queued c.status)) [
  | inl e ↦ rw e (
      Ensures->>= (λ (d : AgentCommand). Unit {0}) (λ (t : Store). t.approvals ≡ s.approvals)
        (transition_command c CommandState.cancelled env.now) _
        (ensures (λ (d : AgentCommand). Unit {0})
          (transition_command c CommandState.cancelled env.now) (λ d k. tt))
        (λ d k. refl))
  | inr e ↦ rw e refl
]

settle-approvals :
    (env : Env) (d : Decision) (a : ApprovalRequest) (s : Store)
    → Ensures (λ t. t.approvals ≡ s.approvals) (settle env d a s)
unfolding settle
settle-approvals env approval a s = release_linked-approvals env (linked_command a s) s
settle-approvals env rejection a s =
    cancel_linked-approvals env "approval_rejected" (linked_command a s) s

refused_expired_err :
    (m : Result Store) (s t : Store) (b : ApprovalRequest)
    → with_ok {B = ApprovalRequest} m s (λ u. (err Error.state_conflict, u)) ≡ (ok b, t)
    → ⊥
refused_expired_err (ok u) s t b h = cc (ap (λ (r : Result ApprovalRequest × Store). r.0) h)
refused_expired_err (err e) s t b h = cc (ap (λ (r : Result ApprovalRequest × Store). r.0) h)

-- What a decision that succeeds has found and written.
abbrev Written :
    Env
    → HostContext
    → ApprovalDecisionIn
    → Decision
    → ApprovalRequest
    → Store
    → ApprovalRequest
    → Store
    → Type 0
Written env ctx body d a s b t =
    (any_of (decidable_row ctx a.id body) s.approvals ≡ true)
    × (b ≡ decided env ctx body d a)
    × (t.approvals
        ≡ update_where (decidable_row ctx a.id body) (decided env ctx body d) s.approvals)

settled :
    (env : Env) (ctx : HostContext) (body : ApprovalDecisionIn) (d : Decision) (a : ApprovalRequest)
    (m : Result Store) (s t : Store) (b : ApprovalRequest) (rows : List ApprovalRequest)
    → Ensures (λ u. u.approvals ≡ rows) m
    → with_ok m s (λ u. (ok (decided env ctx body d a), announce env ctx body d a u)) ≡ (ok b, t)
    → (b ≡ decided env ctx body d a) × (t.approvals ≡ rows)
unfolding announce audit_from_context emit
settled env ctx body d a (ok u) s t b rows k h = (
  sym (ok_inj (ap (λ (r : Result ApprovalRequest × Store). r.0) h)),
  sym (ap (λ (r : Result ApprovalRequest × Store). r.1.approvals) h) ∙ k,
)
settled env ctx body d a (err e) s t b rows k h =
    absurd (cc (ap (λ (r : Result ApprovalRequest × Store). r.0) h))

decide_row-eq-ok :
    (env : Env) (ctx : HostContext) (body : ApprovalDecisionIn) (d : Decision) (a : ApprovalRequest)
    (s t : Store) (b : ApprovalRequest)
    → decide_row env ctx body d a s ≡ (ok b, t)
    → Written env ctx body d a s b t
unfolding decide_row
decide_row-eq-ok env ctx body d a s t b h =
    elim (Bool-cases (any_of (decidable_row ctx a.id body) s.approvals)) [
      | inl e ↦
          let (q, r) =
            settled env ctx body d a _ s t b _ (settle-approvals env d a _) (rw e at h) in
          (e, q, r)
      | inr e ↦ absurd (cc (ap (λ (r : Result ApprovalRequest × Store). r.0) (rw e at h)))
    ]

decide-eq-ok :
    (env : Env) (ctx : HostContext) (i : RawId) (body : ApprovalDecisionIn) (d : Decision)
    (s t : Store) (b : ApprovalRequest)
    → decide env ctx i body d s ≡ (ok b, t)
    → (a : ApprovalRequest) × (get_approval ctx i s ≡ ok a) × Written env ctx body d a s b t
unfolding decide refuse_expired
decide-eq-ok env ctx i body d s t b h =
    let (a, found, k) = with_ok-eq-ok (get_approval ctx i s) s _ b t h in
    elim (Bool-cases (is_pending a.status)) [
      | inl p ↦ elim (Bool-cases (approval_is_expired a env.now)) [
        | inl x ↦ absurd (refused_expired_err _ s t b (rw (p, x) at k))
        | inr x ↦ (a, found, decide_row-eq-ok env ctx body d a s t b (rw (p, x) at k))
      ]
      | inr p ↦ absurd (cc (ap (λ (r : Result ApprovalRequest × Store). r.0) (rw p at k)))
    ]

decidable_parts :
    (ctx : HostContext) (i : Uuid) (body : ApprovalDecisionIn) (x : ApprovalRequest)
    → decidable_row ctx i body x ≡ true
    → (x.id ≡ i) × (is_pending x.status ≡ true) × (x.version ≡ body.version)
unfolding decidable_row
decidable_parts ctx i body x k = (
  (==_iff x.id i).0 (ground arith),
  ground arith,
  (==_iff x.version body.version).0 (ground arith),
)

pending_status : (s : ApprovalState) → is_pending s ≡ true → s ≡ ApprovalState.pending
pending_status s h = ground arith

-- The row that a decision found is the one that it wrote, since identifiers are unique.
found_decidable :
    (ctx : HostContext) (body : ApprovalDecisionIn) (a : ApprovalRequest)
    (rows : List ApprovalRequest)
    → Keyed rows
    → Member a rows
    → any_of (decidable_row ctx a.id body) rows ≡ true
    → decidable_row ctx a.id body a ≡ true
found_decidable ctx body a rows keyed m h =
    let (x, n, k) = any_of-Member (decidable_row ctx a.id body) rows h in
    subst (λ z. decidable_row ctx a.id body z ≡ true)
      (keyed x a n m (decidable_parts ctx a.id body x k).0) k

by_id-Member :
    (o : Option Uuid) (ctx : HostContext) (s : Store) (a : ApprovalRequest)
    → approval_by_id o ctx s ≡ some a
    → Member a s.approvals
by_id-Member none ctx s a e = cc
by_id-Member (some i) ctx s a e =
    find_first-Member (λ x. (x.id == i) && opt_eq x.installation_id (tenant ctx)) s.approvals a e

by_id-updated :
    (o : Option Uuid) (env : Env) (ctx : HostContext) (body : ApprovalDecisionIn) (d : Decision)
    (s t : Store) (a b : ApprovalRequest)
    → decidable_row ctx a.id body a ≡ true
    → approval_by_id o ctx s ≡ some a
    → Written env ctx body d a s b t
    → approval_by_id o ctx t ≡ some b
unfolding decided
by_id-updated none env ctx body d s t a b u e w = cc
by_id-updated (some i) env ctx body d s t a b u e (h, q, r) = rw r (
    find_first-updated (λ x. (x.id == i) && opt_eq x.installation_id (tenant ctx))
      (decidable_row ctx a.id body) (decided env ctx body d) s.approvals a (λ x. refl) u e
    ∙ ap some (sym q))

-- A decision that succeeds found the request pending, in the version that the caller named; the
-- request that is read afterwards is the one that was returned, in the next version, with the state
-- asked for and the one who decided. Identifiers of requests are unique.
pub decide-eq-decided :
    (env : Env) (ctx : HostContext) (i : RawId) (body : ApprovalDecisionIn) (d : Decision)
    (s t : Store) (b : ApprovalRequest)
    → Keyed s.approvals
    → decide env ctx i body d s ≡ (ok b, t)
    → (get_approval ctx i t ≡ ok b)
      × ((a : ApprovalRequest) × (get_approval ctx i s ≡ ok a)
          × (a.status ≡ ApprovalState.pending)
          × (a.version ≡ body.version)
          × (b ≡ decided env ctx body d a))
unfolding get_approval
decide-eq-decided env ctx i body d s t b keyed h =
    let (a, found, w) = decide-eq-ok env ctx i body d s t b h in
    let e = or_not_found-eq-ok (approval_by_id (as_uuid i) ctx s) a found in
    let u = found_decidable ctx body a s.approvals keyed (by_id-Member (as_uuid i) ctx s a e) w.0 in
    let parts = decidable_parts ctx a.id body a u in
    (
      ap or_not_found (by_id-updated (as_uuid i) env ctx body d s t a b u e w),
      (a, found, pending_status a.status parts.1, parts.2, w.1),
    )

decided_not_pending :
    (env : Env) (ctx : HostContext) (body : ApprovalDecisionIn) (d : Decision) (a : ApprovalRequest)
    → is_pending (decided env ctx body d a).status ≡ false
unfolding decided
decided_not_pending env ctx body approval a = refl
decided_not_pending env ctx body rejection a = refl

closed_refused :
    (env : Env) (ctx : HostContext) (i : RawId) (body : ApprovalDecisionIn) (d : Decision)
    (t : Store) (b : ApprovalRequest)
    → get_approval ctx i t ≡ ok b
    → is_pending b.status ≡ false
    → decide env ctx i body d t ≡ (err Error.state_conflict, t)
unfolding decide
closed_refused env ctx i body d t b e p = rw (e, p) refl

-- What a request is found by: its identifier and the tenant, whoever asks.
by_id_of_tenant :
    (o : Option Uuid) (ctx other : HostContext) (s : Store)
    → tenant other ≡ tenant ctx
    → approval_by_id o other s ≡ approval_by_id o ctx s
by_id_of_tenant none ctx other s h = refl
by_id_of_tenant (some i) ctx other s h =
    ap
      (λ (n : Option Uuid). find_first (λ x. (x.id == i) && opt_eq x.installation_id n) s.approvals)
      h

found_by_other :
    (ctx other : HostContext) (i : RawId) (t : Store) (b : ApprovalRequest)
    → tenant other ≡ tenant ctx
    → get_approval ctx i t ≡ ok b
    → get_approval other i t ≡ ok b
unfolding get_approval
found_by_other ctx other i t b same e =
    ap or_not_found (by_id_of_tenant (as_uuid i) ctx other t same) ∙ e

-- After a decision that succeeds, every further decision on the same request, by whatever user of
-- the same tenant, at whatever time, in whatever version and of either kind, is refused with a state
-- conflict and changes nothing. Identifiers of requests are unique.
pub no_second_decision :
    (env later : Env) (ctx other : HostContext) (i : RawId) (body again : ApprovalDecisionIn)
    (d e : Decision) (s t : Store) (b : ApprovalRequest)
    → Keyed s.approvals
    → tenant other ≡ tenant ctx
    → decide env ctx i body d s ≡ (ok b, t)
    → decide later other i again e t ≡ (err Error.state_conflict, t)
no_second_decision env later ctx other i body again d e s t b keyed same h =
    let (found, (a, was, pending, version, q)) = decide-eq-decided env ctx i body d s t b keyed h in
    closed_refused later other i again e t b (found_by_other ctx other i t b same found)
      (subst (λ z. is_pending z.status ≡ false) (sym q) (decided_not_pending env ctx body d a))
