-- ===== src/Policies/Evaluation.antt =====
-- What `evaluate_policy` of apps/api/agent_control/control/policies.py decides.
use mission_control_platform.Prelude.{
  ◌≡◌, refl, sym, ap, ◌∙◌, inl, inr, Bool, true, false, ◌&&◌, &&_both, Option, none, some, List, [],
  ◌∷◌, String, All, All-member, Member, Member-select, select-Member, select, Bool-cases, opt_eq,
  subst, ◌↔◌,
}
use mission_control_platform.Rows.{Uuid, Effect, AgentPolicy, Agent, is_active}
use mission_control_platform.Policies.{
  PolicyDecision, matches, resolution_key, key_before, insert_by_key, sort_by_key, active_policies,
  decision_of, decide,
}
use mission_control_platform.Policies.Order.{key_before_asymm, key_before_total, key_before_trans}

-- Whether a policy comes after another, or is as good.
abbrev pub NotBefore : AgentPolicy → AgentPolicy → Type 0
NotBefore w q = key_before (resolution_key q) (resolution_key w) ≡ false

-- The first of a sorted list is a least member of the list that was sorted.
abbrev Heads : List AgentPolicy → List AgentPolicy → Type 0
Heads xs [] = xs ≡ []
Heads xs (w ∷ rest) = All (NotBefore w) xs × Member w xs

irreflexive : (p : AgentPolicy) → NotBefore p p
irreflexive p = elim (Bool-cases (key_before (resolution_key p) (resolution_key p))) [
  | inl h ↦ key_before_asymm (resolution_key p) (resolution_key p) h
  | inr h ↦ h
]

All-trans :
    (p w : AgentPolicy) (xs : List AgentPolicy)
    → NotBefore p w
    → All (NotBefore w) xs
    → All (NotBefore p) xs
All-trans p w [] h a = tt
All-trans p w (x ∷ xs) h a = (
  key_before_trans (resolution_key p) (resolution_key w) (resolution_key x) h a.0,
  All-trans p w xs h a.1,
)

insert-Heads :
    (p : AgentPolicy) (ps r : List AgentPolicy) → Heads ps r → Heads (p ∷ ps) (insert_by_key p r)
unfolding insert_by_key
insert-Heads p ps [] h =
    (subst (λ xs. All (NotBefore p) (p ∷ xs)) (sym h) (irreflexive p, tt), inl refl)
insert-Heads p ps (w ∷ rest) h =
    elim (Bool-cases (key_before (resolution_key w) (resolution_key p))) [
      | inl b ↦ rw b ((key_before_asymm (resolution_key w) (resolution_key p) b, h.0), inr h.1)
      | inr b ↦ rw b ((irreflexive p, All-trans p w ps b h.0), inl refl)
    ]

heads : (xs : List AgentPolicy) → Heads xs (sort_by_key xs)
unfolding sort_by_key
heads [] = refl
heads (p ∷ ps) = insert-Heads p ps (sort_by_key ps) (heads ps)

-- A policy that counts for an action: the tenant's, active, and covering the action.
unfoldable pub applies : Option Uuid → Agent → String → Option Uuid → AgentPolicy → Bool
applies t agent command_type project p =
    (opt_eq p.installation_id t && is_active p.status) && matches p agent command_type project

module _ (t : Option Uuid) (agent : Agent) (command_type : String) (project : Option Uuid) where
  abbrev chosen : List AgentPolicy → List AgentPolicy
  chosen rows = select (λ p. matches p agent command_type project) (active_policies t rows)

  chosen-applies :
      (rows : List AgentPolicy) (q : AgentPolicy)
      → Member q (chosen rows)
      → (applies t agent command_type project q ≡ true) × Member q rows
  unfolding applies active_policies
  chosen-applies rows q m =
      let a : (matches q agent command_type project ≡ true) × Member q (active_policies t rows) =
        Member-select (λ p. matches p agent command_type project) (active_policies t rows) q m in
      let b : ((opt_eq q.installation_id t && is_active q.status) ≡ true) × Member q rows =
        Member-select (λ p. opt_eq p.installation_id t && is_active p.status) rows q a.1 in
      (rw (b.0, a.0) refl, b.1)

  applies-chosen :
      (rows : List AgentPolicy) (q : AgentPolicy)
      → applies t agent command_type project q ≡ true
      → Member q rows
      → Member q (chosen rows)
  unfolding applies active_policies
  applies-chosen rows q h m =
      let b : ((opt_eq q.installation_id t && is_active q.status) ≡ true)
          × (matches q agent command_type project ≡ true) =
        &&_both (opt_eq q.installation_id t && is_active q.status)
          (matches q agent command_type project) h in
      select-Member (λ p. matches p agent command_type project) (active_policies t rows) q b.1
        (select-Member (λ p. opt_eq p.installation_id t && is_active p.status) rows q b.0 m)

-- What a decision over the rows has to be: the default when no policy applies, and otherwise the
-- effect and the risk of a policy that applies and before which no other that applies comes.
pub data Decides (default : Effect) (counts : AgentPolicy → Bool) (rows : List AgentPolicy)
    (d : PolicyDecision) : Type 0 where
  by_default :
      ((q : AgentPolicy) → Member q rows → counts q ≡ false)
      → d ≡ record { effect = default; policy = none; risk_level = none }
      → Decides default counts rows d
  by_policy :
      (w : AgentPolicy)
      → Member w rows
      → counts w ≡ true
      → ((q : AgentPolicy) → Member q rows → counts q ≡ true → NotBefore w q)
      → d ≡ record { effect = w.effect; policy = some w; risk_level = w.risk_level }
      → Decides default counts rows d

empty_counts :
    (counts : AgentPolicy → Bool) (q : AgentPolicy) → (counts q ≡ true → ⊥) → counts q ≡ false
empty_counts counts q h = elim (Bool-cases (counts q)) [ inl e ↦ absurd (h e) | inr e ↦ e ]

Decides-of :
    (default : Effect) (counts : AgentPolicy → Bool) (rows xs sorted : List AgentPolicy)
    → ((q : AgentPolicy) → Member q xs → (counts q ≡ true) × Member q rows)
    → ((q : AgentPolicy) → counts q ≡ true → Member q rows → Member q xs)
    → Heads xs sorted
    → Decides default counts rows (decision_of default sorted)
Decides-of default counts rows xs [] into back h =
    by_default (λ q m. empty_counts counts q (λ e. subst (λ l. Member q l) h (back q e m))) refl
Decides-of default counts rows xs (w ∷ rest) into back h =
    by_policy w (into w h.1).1 (into w h.1).0
      (λ q m e. All-member (NotBefore w) xs q h.0 (back q e m)) refl

-- The decision is the default effect when no policy of the table applies to the action, and is
-- otherwise that of a policy that applies and before which, in the order of resolution, no other
-- applying policy comes.
pub decide-Decides :
    (default : Effect) (t : Option Uuid) (agent : Agent) (command_type : String)
    (project : Option Uuid) (rows : List AgentPolicy)
    → Decides default
        (applies t agent command_type project)
        rows
        (decide default t agent command_type project rows)
unfolding decide
decide-Decides default t agent command_type project rows =
    Decides-of default (applies t agent command_type project) rows
      (chosen t agent command_type project rows)
      (sort_by_key (chosen t agent command_type project rows))
      (chosen-applies t agent command_type project rows)
      (applies-chosen t agent command_type project rows)
      (heads (chosen t agent command_type project rows))

Decides-unique :
    (default : Effect) (counts : AgentPolicy → Bool) (xs ys : List AgentPolicy)
    (d e : PolicyDecision)
    → ((q : AgentPolicy) → Member q xs ↔ Member q ys)
    → ((p q : AgentPolicy) → Member p xs → Member q xs → p.id ≡ q.id → p ≡ q)
    → Decides default counts xs d
    → Decides default counts ys e
    → d ≡ e
unfolding resolution_key
Decides-unique default counts xs ys d e same ids (by_default n p) (by_default m q) = p ∙ sym q
Decides-unique default counts xs ys d e same ids (by_default n p) (by_policy w m c l q) =
    cc (n w ((same w).1 m), c)
Decides-unique default counts xs ys d e same ids (by_policy w m c l p) (by_default n q) =
    cc (n w ((same w).0 m), c)
Decides-unique default counts xs ys d e same ids (by_policy v m c l p) (by_policy w n k o q) =
    let r : v ≡ w = ids v w m ((same w).1 n) (
      key_before_total (resolution_key v) (resolution_key w) (o v ((same v).0 m) c)
        (l w ((same w).1 n) k)) in
    p ∙ ap (λ z. record { effect = z.effect; policy = some z; risk_level = z.risk_level }) r ∙ sym q

-- The decision does not depend on the order in which the rows are read: two tables with the same
-- rows, in which an identifier names one row, give one decision.
pub decide_unordered :
    (default : Effect) (t : Option Uuid) (agent : Agent) (command_type : String)
    (project : Option Uuid) (xs ys : List AgentPolicy)
    → ((q : AgentPolicy) → Member q xs ↔ Member q ys)
    → ((p q : AgentPolicy) → Member p xs → Member q xs → p.id ≡ q.id → p ≡ q)
    → decide default t agent command_type project xs
      ≡ decide default t agent command_type project ys
decide_unordered default t agent command_type project xs ys same ids =
    Decides-unique default (applies t agent command_type project) xs ys
      (decide default t agent command_type project xs)
      (decide default t agent command_type project ys) same ids
      (decide-Decides default t agent command_type project xs)
      (decide-Decides default t agent command_type project ys)
