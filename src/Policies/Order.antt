-- ===== src/Policies/Order.antt =====
-- The order by which apps/api/agent_control/control/policies.py resolves policies.
use mission_control_platform.Prelude.{ℕ, ◌≡◌, refl, true, false, arith, Bool, ltb, if◌then◌else◌}
use mission_control_platform.Prelude.Int.{ℤ, ltb_ℤ}
use mission_control_platform.Policies.{ResolutionKey, key_before}

-- No key is less than another that is less than it.
pub key_before_asymm : (a b : ResolutionKey) → key_before a b ≡ true → key_before b a ≡ false
unfolding key_before
key_before_asymm a b h = ground arith

-- Of two policies that neither comes before the other have one identifier.
pub key_before_total :
    (a b : ResolutionKey) → key_before a b ≡ false → key_before b a ≡ false → a.id ≡ b.id
unfolding key_before
key_before_total a b h k = ground arith

-- A lexicographic test on numbers keeps the transitivity of the test that follows it.
lex_trans :
    (x y z : ℕ) (r s t : Bool)
    → (r ≡ false → s ≡ false → t ≡ false)
    → (if ltb y x then true else if ltb x y then false else r) ≡ false
    → (if ltb z y then true else if ltb y z then false else s) ≡ false
    → (if ltb z x then true else if ltb x z then false else t) ≡ false
lex_trans x y z true s t k h g = ground arith
lex_trans x y z false true t k h g = ground arith
lex_trans x y z false false t k h g = rw (k refl refl) (ground arith)

lex_down :
    (x y z : ℕ) (r s t : Bool)
    → (r ≡ false → s ≡ false → t ≡ false)
    → (if ltb x y then true else if ltb y x then false else r) ≡ false
    → (if ltb y z then true else if ltb z y then false else s) ≡ false
    → (if ltb x z then true else if ltb z x then false else t) ≡ false
lex_down x y z true s t k h g = ground arith
lex_down x y z false true t k h g = ground arith
lex_down x y z false false t k h g = rw (k refl refl) (ground arith)

lex_ℤ :
    (x y z : ℤ) (r s t : Bool)
    → (r ≡ false → s ≡ false → t ≡ false)
    → (if ltb_ℤ x y then true else if ltb_ℤ y x then false else r) ≡ false
    → (if ltb_ℤ y z then true else if ltb_ℤ z y then false else s) ≡ false
    → (if ltb_ℤ x z then true else if ltb_ℤ z x then false else t) ≡ false
lex_ℤ x y z true s t k h g = ground arith
lex_ℤ x y z false true t k h g = ground arith
lex_ℤ x y z false false t k h g = rw (k refl refl) (ground arith)

ids_trans : (x y z : ℕ) → ltb y x ≡ false → ltb z y ≡ false → ltb z x ≡ false
ids_trans x y z h g = ground arith

-- "Does not come after" is transitive.
pub key_before_trans :
    (a b c : ResolutionKey)
    → key_before b a ≡ false
    → key_before c b ≡ false
    → key_before c a ≡ false
unfolding key_before
key_before_trans a b c = lex_ℤ a.priority b.priority c.priority _ _ _ (
    lex_down a.specificity b.specificity c.specificity _ _ _ (
      lex_down a.action b.action c.action _ _ _
        (lex_trans a.created_at b.created_at c.created_at _ _ _ (ids_trans a.id b.id c.id))))
