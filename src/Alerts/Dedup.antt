-- ===== src/Alerts/Dedup.antt =====
-- The deduplication of `open_alert` in apps/api/agent_control/operations/alerts.py.
use mission_control_platform.Prelude.{
  ◌≡◌, refl, sym, ap, ◌∙◌, inl, inr, String, Bool, true, false, Option, some, [], ◌∷◌, ◌++◌, ◌+◌,
  find_first-append_none, opt_eq_refl, str_eq_refl, Option-cases,
}
use mission_control_platform.Json.{Fields}
use mission_control_platform.Errors.{ok}
use mission_control_platform.Rows.{Uuid, AgentAlert}
use mission_control_platform.Store.{Env, Store}
use mission_control_platform.Store.Keeps.{ok_inj}
use mission_control_platform.Outbox.{emit_outbox}
use mission_control_platform.Alerts.{
  AlertRequest, stands_for, find_active_alert, new_alert, opened_payload, open_alert,
}

-- The event of an alert is in the catalogue, so its emission succeeds; it touches no alert.
emit_opened :
    (env : Env) (inst : Option Uuid) (payload : Fields) (s : Store)
    → (t : Store) × (emit_outbox env inst "alert.opened" "fleet" payload s ≡ ok t)
      × (t.alerts ≡ s.alerts)
unfolding emit_outbox
emit_opened env inst payload s = (_, refl, refl)

stands_for_new :
    (env : Env) (inst : Option Uuid) (a : AlertRequest) (id : Uuid)
    → stands_for inst a.dedup_key (new_alert env inst a id) ≡ true
unfolding new_alert
stands_for_new env inst a id = rw (opt_eq_refl inst, str_eq_refl a.dedup_key) refl

-- To open an alert succeeds, and the alert that it returns is the unresolved one that is found for its
-- condition afterwards.
open_alert_cases :
    (env : Env) (inst : Option Uuid) (a : AlertRequest) (s : Store)
    → (r : AgentAlert) × (created : Bool) × (t : Store) × (open_alert env inst a s
        ≡ ok (r, created, t))
      × (find_active_alert inst a.dedup_key t.alerts ≡ some r)
unfolding open_alert find_active_alert
open_alert_cases env inst a s = elim (Option-cases (find_active_alert inst a.dedup_key s.alerts)) [
  | inl e ↦
      let r = new_alert env inst a s.next_id in
      let (t, done, same) =
        emit_opened env inst (opened_payload r)
          (record s { alerts = s.alerts ++ r ∷ []; next_id = s.next_id + 1 }) in
      (
        r,
        true,
        t,
        rw (e, done) refl,
        ap (find_active_alert inst a.dedup_key) same
            ∙ find_first-append_none (stands_for inst a.dedup_key) s.alerts r e
                (stands_for_new env inst a s.next_id),
      )
  | inr (r, e) ↦ (r, false, s, rw e refl, e)
]

found_again :
    (env : Env) (inst : Option Uuid) (a : AlertRequest) (key : String) (t : Store) (r : AgentAlert)
    → a.dedup_key ≡ key
    → find_active_alert inst key t.alerts ≡ some r
    → open_alert env inst a t ≡ ok (r, false, t)
unfolding open_alert
found_again env inst a key t r h e = rw (h, e) refl

-- After an alert was opened, to open one for the same condition in the store that results, at whatever
-- time and with whatever severity and title, returns that alert and changes nothing: no second one is
-- added, and no event goes to the outbox.
pub open_alert_idem :
    (env later : Env) (inst : Option Uuid) (a again : AlertRequest) (s t : Store) (r : AgentAlert)
    (created : Bool)
    → open_alert env inst a s ≡ ok (r, created, t)
    → again.dedup_key ≡ a.dedup_key
    → open_alert later inst again t ≡ ok (r, false, t)
open_alert_idem env later inst a again s t r created h same =
    let (q, made, u, done, found) = open_alert_cases env inst a s in
    let both = ok_inj (sym done ∙ h) in
    found_again later inst again a.dedup_key t r same (
      ap (λ (x : AgentAlert × Bool × Store). find_active_alert inst a.dedup_key x.2.alerts)
        (sym both)
      ∙ found
      ∙ ap (λ (x : AgentAlert × Bool × Store). some x.0) both)
