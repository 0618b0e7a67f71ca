-- ===== src/Usage/Recorded.antt =====
-- Consumption is counted once and adds up, in apps/api/agent_control/operations/usage.py.
use mathlib.Core.List.{append-nil}
use mission_control_platform.Prelude.{
  find_first-append_none, opt_eq_refl, ◌≡◌, refl, sym, ap, ◌∙◌, String, Bool, true, false, not,
  is_some, ◌+◌, ◌&&◌, Option, some, List, [], ◌∷◌, ◌++◌, opt_eq, select, str_eq, str_eq_refl,
  Option-cases, inl, inr, if◌then◌else◌, arith,
}
use mission_control_platform.Prelude.Int.{pos, ◌+ℤ◌, int_laws}
use mission_control_platform.Json.{Fields, str}
use mission_control_platform.Redaction.{redacted, redact, redact_dict, key_is_sensitive}
use mission_control_platform.Errors.{ok}
use mission_control_platform.Rows.{Uuid, Time, ScopeType, AgentUsageRecord, Amount, OutboxEvent}
use mission_control_platform.Store.{Env, Store}
use mission_control_platform.Store.Keeps.{ok_inj}
use mission_control_platform.Outbox.{emit_outbox, run_topic, get_field}
use mission_control_platform.Usage.{
  UsageReport, recorded, new_record, record_usage, sum_costs, consumption_for, in_scope, since_ok,
  usage_payload,
}

-- The event of a record is in the catalogue, so its emission succeeds; it touches no record.
emit_usage :
    (env : Env) (inst : Option Uuid) (topic : String) (payload : Fields) (s : Store)
    → (t : Store) × (emit_outbox env inst "usage.recorded" topic payload s ≡ ok t)
      × (t.usage ≡ s.usage)
unfolding emit_outbox
emit_usage env inst topic payload s = (_, refl, refl)

-- A report succeeds. It returns the record of its event, which is then in the table; the record is
-- added exactly if there was none, and the other records stay as they are.
pub record_usage_cases :
    (env : Env) (inst : Option Uuid) (report : UsageReport) (s : Store)
    → (r : AgentUsageRecord) × (created : Bool) × (t : Store) × (record_usage env inst report s
        ≡ ok (r, created, t))
      × (recorded inst report.source_event_id t.usage ≡ some r)
      × (t.usage ≡ (if created then s.usage ++ r ∷ [] else s.usage))
      × (created ≡ not (is_some (recorded inst report.source_event_id s.usage)))
unfolding record_usage new_record
record_usage_cases env inst report s =
    elim (Option-cases (recorded inst report.source_event_id s.usage)) [
      | inl e ↦
          let r = new_record env inst report s.next_id in
          let (t, done, same) =
            emit_usage env inst (run_topic r.run_id r.agent_id) (usage_payload r)
              (record s { usage = s.usage ++ r ∷ []; next_id = s.next_id + 1 }) in
          (
            r,
            true,
            t,
            rw (e, done),
            rw same (
                find_first-append_none
                  (λ x.
                    opt_eq x.installation_id inst
                    && str_eq x.source_event_id report.source_event_id)
                  s.usage r e (rw (opt_eq_refl inst, str_eq_refl report.source_event_id))),
            same,
            rw e,
          )
      | inr (r, e) ↦ (r, false, s, rw e, e, refl, rw e)
    ]

replay :
    (env : Env) (inst : Option Uuid) (report : UsageReport) (s : Store) (r : AgentUsageRecord)
    → recorded inst report.source_event_id s.usage ≡ some r
    → record_usage env inst report s ≡ ok (r, false, s)
unfolding record_usage
replay env inst report s r h = rw h

-- A report of an event that has a record changes nothing: the record is returned, no second one
-- is added, and no event goes to the outbox. In particular a report that is sent again does not
-- count twice.
pub record_usage_idem :
    (env : Env) (inst : Option Uuid) (report again : UsageReport) (s t : Store)
    (r : AgentUsageRecord) (created : Bool)
    → record_usage env inst report s ≡ ok (r, created, t)
    → again.source_event_id ≡ report.source_event_id
    → record_usage env inst again t ≡ ok (r, false, t)
record_usage_idem env inst report again s t r created h same =
    let (q, c, u, done, found, rest, fresh) = record_usage_cases env inst report s in
    let p : ◌≡◌ {A = AgentUsageRecord × Bool × Store} (q, c, u) (r, created, t) =
      ok_inj (sym done ∙ h) in
    replay env inst again t r (
      ap (λ k. recorded inst k t.usage) same
      ∙ ap
          (λ (x : AgentUsageRecord × Bool × Store).
            recorded inst report.source_event_id (x.2).usage)
          (sym p)
      ∙ found
      ∙ ap (λ (x : AgentUsageRecord × Bool × Store). some (x.0)) p)

select-append {ℓ} :
    {A : Type ℓ} (p : A → Bool) (xs : List A) (x : A)
    → select p (xs ++ x ∷ []) ≡ select p xs ++ (if p x then x ∷ [] else [])
select-append p [] x = refl
select-append p (y ∷ ys) x = ground (arith, select-append p ys x)

sum_costs-append :
    (xs : List AgentUsageRecord) (x : AgentUsageRecord)
    → sum_costs (xs ++ x ∷ []) ≡ sum_costs xs +ℤ x.cost
unfolding sum_costs
sum_costs-append [] x = omega int_laws
sum_costs-append (y ∷ ys) x = rw (sum_costs-append ys x) (omega int_laws)

add_zero : (a : Amount) → a ≡ a +ℤ pos 0
add_zero a = omega int_laws

sum_costs-one :
    (b : Bool) (xs : List AgentUsageRecord) (x : AgentUsageRecord)
    → sum_costs (xs ++ (if b then x ∷ [] else [])) ≡ sum_costs xs +ℤ (if b then x.cost else pos 0)
sum_costs-one true xs x = sum_costs-append xs x
sum_costs-one false xs x = rw append-nil (add_zero (sum_costs xs))

grows_by :
    (p : AgentUsageRecord → Bool) (xs : List AgentUsageRecord) (r : AgentUsageRecord)
    (created : Bool)
    → sum_costs (select p (if created then xs ++ r ∷ [] else xs))
      ≡ sum_costs (select p xs) +ℤ (if created && p r then r.cost else pos 0)
grows_by p xs r true = ap sum_costs (select-append p xs r) ∙ sum_costs-one (p r) (select p xs) r
grows_by p xs r false = add_zero (sum_costs (select p xs))

usage_after :
    (env : Env) (inst : Option Uuid) (report : UsageReport) (s t : Store) (r : AgentUsageRecord)
    (created : Bool)
    → record_usage env inst report s ≡ ok (r, created, t)
    → t.usage ≡ (if created then s.usage ++ r ∷ [] else s.usage)
usage_after env inst report s t r created h =
    let (q, c, u, done, found, rest, fresh) = record_usage_cases env inst report s in
    let p : ◌≡◌ {A = AgentUsageRecord × Bool × Store} (q, c, u) (r, created, t) =
      ok_inj (sym done ∙ h) in
    ap (λ (x : AgentUsageRecord × Bool × Store). (x.2).usage) (sym p)
    ∙ rest
    ∙ ap (λ (x : AgentUsageRecord × Bool × Store). if x.1 then s.usage ++ x.0 ∷ [] else s.usage) p

-- What a report adds to the consumption of a scope and a window: the cost of its record if the
-- record is new and lies in both, and nothing otherwise.
pub consumption_grows :
    (env : Env) (inst tenant : Option Uuid) (report : UsageReport) (s t : Store)
    (r : AgentUsageRecord) (created : Bool) (scope_type : ScopeType) (scope_id : Option Uuid)
    (since : Option Time)
    → record_usage env inst report s ≡ ok (r, created, t)
    → consumption_for t.usage tenant scope_type scope_id since
      ≡ consumption_for s.usage tenant scope_type scope_id since
        +ℤ (if created
              && ((opt_eq r.installation_id tenant && in_scope scope_type scope_id r)
                  && since_ok since r)
            then r.cost
            else pos 0)
unfolding consumption_for
consumption_grows env inst tenant report s t r created scope_type scope_id since h =
    ap
      (λ us. sum_costs (
        select
          (λ x.
            (opt_eq x.installation_id tenant && in_scope scope_type scope_id x) && since_ok since x)
          us))
      (usage_after env inst report s t r created h)
    ∙ grows_by
        (λ x.
          (opt_eq x.installation_id tenant && in_scope scope_type scope_id x) && since_ok since x)
        s.usage r created

-- A report that makes a new record appends exactly one event to the outbox, of the type
-- `usage.recorded` and the tenant of the report, and its payload does not show the number of tokens:
-- the name of that field holds a marker of the masking, so every consumer reads the sentinel in its
-- place.
pub usage_event_hides_tokens :
    (env : Env) (inst : Option Uuid) (report : UsageReport) (s t : Store) (r : AgentUsageRecord)
    → record_usage env inst report s ≡ ok (r, true, t)
    → (o : OutboxEvent) × (t.outbox ≡ s.outbox ++ o ∷ [])
      × (o.event_type ≡ "usage.recorded")
      × (o.installation_id ≡ inst)
      × (get_field "total_tokens" o.payload ≡ some (str redacted))
unfolding record_usage emit_outbox redact_dict usage_payload redact key_is_sensitive
usage_event_hides_tokens env inst report s t r h =
    elim (Option-cases (recorded inst report.source_event_id s.usage)) [
      | inl e ↦ (
        _,
        sym (ap (λ (x : AgentUsageRecord × Bool × Store). (x.2).outbox) (ok_inj (rw e at h))),
        refl,
        refl,
        refl,
      )
      | inr (q, e) ↦ cc (ap (λ (x : AgentUsageRecord × Bool × Store). x.1) (ok_inj (rw e at h)))
    ]
