-- ===== src/Registry/Keys.antt =====
-- The keys of the agents that apps/api/agent_control/registry/service.py registers.
use mission_control_platform.Prelude.{
  ◌≡◌, refl, sym, ◌∙◌, inl, inr, String, Bool, false, ◌||◌, List, [], ◌∷◌, ◌++◌, ◌==◌, Bool-cases,
  str_eq, str_eq_iff, update_where, arith, if◌then◌else◌,
}
use mission_control_platform.Errors.{Error, ok, err, ◌>>=◌}
use mission_control_platform.Rows.{Agent}
use mission_control_platform.Store.{Env, Store}
use mission_control_platform.Store.Keeps.{with_ok-keeps}
use mission_control_platform.Commands.Delivery.{use_credential}
use mission_control_platform.Registry.{
  key_taken, agent_key_of, parse_local_key, valid_status, registry_status, get_agent, new_agent,
  changed, with_status, register_agent, update_agent, set_status,
}
use mission_control_platform.Registry.Credentials.{
  get_both, new_credential, is_closed_agent, revoke_row, create_credential, rotate_credential,
  revoke_credential,
}
use mission_control_platform.Registry.Withdrawn.{Step, Steps}

-- No two agents have the same key.
abbrev pub KeysDistinct : List Agent → Type 0
KeysDistinct [] = Unit
KeysDistinct (a ∷ xs) = (key_taken a.agent_key xs ≡ false) × KeysDistinct xs

abbrev pub HasDistinctKeys : Store → Type 0
HasDistinctKeys s = KeysDistinct s.agents

other_way : (a b : String) → str_eq a b ≡ false → str_eq b a ≡ false
other_way a b h = elim (Bool-cases (str_eq b a)) [
  | inl e ↦ cc (sym ((str_eq_iff a b).1 (sym ((str_eq_iff b a).0 e))) ∙ h)
  | inr e ↦ e
]

key_taken-append :
    (key : String) (xs : List Agent) (a : Agent)
    → key_taken key xs ≡ false
    → str_eq a.agent_key key ≡ false
    → key_taken key (xs ++ a ∷ []) ≡ false
key_taken-append key [] a h e = ground arith
key_taken-append key (b ∷ bs) a h e = ground (arith, key_taken-append key bs a)

KeysDistinct-append :
    (xs : List Agent) (a : Agent)
    → key_taken a.agent_key xs ≡ false
    → KeysDistinct xs
    → KeysDistinct (xs ++ a ∷ [])
KeysDistinct-append [] a h hs = (refl, tt)
KeysDistinct-append (b ∷ bs) a h hs =
    let (e, f) = neither (str_eq b.agent_key a.agent_key) (key_taken a.agent_key bs) h in
    (
      key_taken-append b.agent_key bs a hs.0 (other_way b.agent_key a.agent_key e),
      KeysDistinct-append bs a f hs.1,
    )
  where
    neither : (x y : Bool) → (x || y) ≡ false → (x ≡ false) × (y ≡ false)
    neither x y k = ground arith

module _ (p : Agent → Bool) (f : Agent → Agent)
    (keep : (a : Agent) → (f a).agent_key ≡ a.agent_key) where
  key-kept : (a : Agent) → (if p a then f a else a).agent_key ≡ a.agent_key
  key-kept a = elim (Bool-cases (p a)) [ inl e ↦ rw e (keep a) | inr e ↦ rw e refl ]

  key_taken-update :
      (key : String) (xs : List Agent) → key_taken key (update_where p f xs) ≡ key_taken key xs
  key_taken-update key [] = refl
  key_taken-update key (a ∷ xs) = rw (key-kept a, key_taken-update key xs) refl

  KeysDistinct-update : (xs : List Agent) → KeysDistinct xs → KeysDistinct (update_where p f xs)
  KeysDistinct-update [] h = tt
  KeysDistinct-update (a ∷ xs) h =
      (rw (key-kept a) (key_taken-update a.agent_key xs ∙ h.0), KeysDistinct-update xs h.1)

Step-HasDistinctKeys :
    (env : Env) (s t : Store) → Step env s t → HasDistinctKeys s → HasDistinctKeys t
unfolding register_agent new_agent update_agent changed set_status with_status create_credential
    rotate_credential revoke_credential new_credential revoke_row use_credential
Step-HasDistinctKeys env _ _ (Step.registers ctx body s) h =
    with_ok-keeps HasDistinctKeys (parse_local_key body.local_key) s _ h λ key e.
      elim (Bool-cases (key_taken (agent_key_of ctx key) s.agents)) [
        | inl f ↦ rw f h
        | inr f ↦ rw f (KeysDistinct-append s.agents _ f h)
      ]
Step-HasDistinctKeys env _ _ (Step.updates ctx i body s) h =
    with_ok-keeps HasDistinctKeys (get_agent ctx i s) s _ h
      λ a e. KeysDistinct-update (λ b. b.id == a.id) (changed body) (λ b. refl) s.agents h
Step-HasDistinctKeys env _ _ (Step.sets_status ctx i status s) h =
    with_ok-keeps HasDistinctKeys
      (valid_status (registry_status status) >>= λ new. get_agent ctx i s >>= λ a. ok (new, a)) s _
      h
      λ (new, a) e.
        KeysDistinct-update (λ b. b.id == a.id) (with_status new env.now) (λ b. refl) s.agents h
Step-HasDistinctKeys env _ _ (Step.creates ctx d i body s) h =
    with_ok-keeps HasDistinctKeys
      (get_agent ctx i s >>= λ a. if is_closed_agent a.status then err Error.conflict else ok a) s _
      h λ a e. h
Step-HasDistinctKeys env _ _ (Step.rotates ctx d i j s) h =
    with_ok-keeps HasDistinctKeys (get_both ctx i j s) s _ h λ r e. h
Step-HasDistinctKeys env _ _ (Step.revokes ctx i j s) h =
    with_ok-keeps HasDistinctKeys (get_both ctx i j s) s _ h λ r e. h
Step-HasDistinctKeys env _ _ (Step.uses ctx s) h = h

-- If no two agents have the same key, none have after any sequence of requests to the registry.
pub Steps-HasDistinctKeys : (s t : Store) → Steps s t → HasDistinctKeys s → HasDistinctKeys t
Steps-HasDistinctKeys _ _ (Steps.none_left s) h = h
Steps-HasDistinctKeys _ _ (Steps.one_more env s t u step steps) h =
    Steps-HasDistinctKeys t u steps (Step-HasDistinctKeys env s t step h)
