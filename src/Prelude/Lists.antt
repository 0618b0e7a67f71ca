-- ===== src/Prelude/Lists.antt =====
-- Lists as tables: selection, update in place, measures by native numbers.
use Prim.Native.Nat.{ℕ, zero, suc, ◌+◌}
use mathlib.Core.Path.{◌≡◌, refl, sym, ap, subst}
use mathlib.Core.Bool.{Bool, true, false, ◌||◌}
use mathlib.Core.Logic.{◌⊎◌, inl, inr}
use mathlib.Core.Option
use mathlib.Core.Option.{Option, none, some}
use mathlib.Core.List.{List, [], ◌∷◌, ◌++◌}
use native.Mathlib.Omega.{arith}
use mission_control_platform.Prelude.Tests.{if◌then◌else◌, Bool-cases}

module _ {ℓ} {A : Type ℓ} where
  abbrev pub length : List A → ℕ
  length [] = 0
  length (x ∷ xs) = suc (length xs)

  abbrev pub take : ℕ → List A → List A
  take zero xs = []
  take (suc n) [] = []
  take (suc n) (x ∷ xs) = x ∷ take n xs

  -- Whether some element passes the test.
  abbrev pub any_of : (A → Bool) → List A → Bool
  any_of p [] = false
  any_of p (x ∷ xs) = p x || any_of p xs

  -- `db.scalar(select(…).where(…))`: the first row that passes the test.
  abbrev pub find_first : (A → Bool) → List A → Option A
  find_first p [] = none
  find_first p (x ∷ xs) = if p x then some x else find_first p xs

  -- `db.scalars(select(…).where(…)).all()`: the rows that pass the test, in order.
  abbrev pub select : (A → Bool) → List A → List A
  select p [] = []
  select p (x ∷ xs) = if p x then x ∷ select p xs else select p xs

  -- An update of the rows that pass the test.
  abbrev pub update_where : (A → Bool) → (A → A) → List A → List A
  update_where p f [] = []
  update_where p f (x ∷ xs) = (if p x then f x else x) ∷ update_where p f xs

  -- Every element has the property.
  abbrev pub All {κ} : (A → Type κ) → List A → Type κ
  All P [] = Unit
  All P (x ∷ xs) = P x × All P xs

pub some_inj {ℓ} : {A : Type ℓ} {a b : A} → some a ≡ some b → a ≡ b
some_inj h = cc

module _ {ℓ κ} {A : Type ℓ} (P : A → Type κ) where
  pub All-append : (xs ys : List A) → All P xs → All P ys → All P (xs ++ ys)
  All-append [] ys hx hy = hy
  All-append (x ∷ xs) ys hx hy = (hx.0, All-append xs ys hx.1 hy)

  pub All-map {μ} : (Q : A → Type μ) (xs : List A) → All P xs → ((x : A) → P x → Q x) → All Q xs
  All-map Q [] h f = tt
  All-map Q (x ∷ xs) h f = (f x h.0, All-map Q xs h.1 f)

  pub All-zip {μ ν} :
      (Q : A → Type μ) (R : A → Type ν) (xs : List A)
      → All P xs
      → All Q xs
      → ((x : A) → P x → Q x → R x)
      → All R xs
  All-zip Q R [] h k f = tt
  All-zip Q R (x ∷ xs) h k f = (f x h.0 k.0, All-zip Q R xs h.1 k.1 f)

  -- A property that each updated row has again is kept by an update.
  pub All-update_where :
      (p : A → Bool) (f : A → A) (xs : List A)
      → ((x : A) → p x ≡ true → P x → P (f x))
      → All P xs
      → All P (update_where p f xs)
  All-update_where p f [] keep h = h
  All-update_where p f (x ∷ xs) keep h = elim (Bool-cases (p x)) [
    | inl e ↦ (rw e (keep x e h.0), All-update_where p f xs keep h.1)
    | inr e ↦ (rw e h.0, All-update_where p f xs keep h.1)
  ]

  pub All-find_first :
      (p : A → Bool) (xs : List A) (x : A) → find_first p xs ≡ some x → All P xs → P x
  All-find_first p [] x e h = cc
  All-find_first p (y ∷ xs) x e h = elim (Bool-cases (p y)) [
    | inl t ↦ subst P (some_inj (rw t at e)) h.0
    | inr t ↦ All-find_first p xs x (rw t at e) h.1
  ]

pub find_first_test {ℓ} :
    {A : Type ℓ} (p : A → Bool) (xs : List A) (x : A) → find_first p xs ≡ some x → p x ≡ true
find_first_test p [] x e = cc
find_first_test p (y ∷ xs) x e = ground (arith, find_first_test p xs x)

pub length-append {ℓ} : {A : Type ℓ} (xs ys : List A) → length (xs ++ ys) ≡ length xs + length ys
length-append [] ys = omega arith
length-append (x ∷ xs) ys = omega (arith, length-append xs ys)

-- Membership, with the place kept.
abbrev pub Member : {A : Type 0} → A → List A → Type 0
Member x [] = ⊥
Member x (y ∷ ys) = (y ≡ x) ⊎ Member x ys

module _ {A : Type 0} where
  pub All-member {κ} : (P : A → Type κ) (xs : List A) (x : A) → All P xs → Member x xs → P x
  All-member P [] x h m = absurd m
  All-member P (y ∷ ys) x h m = elim m [ inl e ↦ subst P e h.0 | inr n ↦ All-member P ys x h.1 n ]

  pub All-of_Member {κ} : (P : A → Type κ) (xs : List A) → ((x : A) → Member x xs → P x) → All P xs
  All-of_Member P [] h = tt
  All-of_Member P (y ∷ ys) h = (h y (inl refl), All-of_Member P ys (λ x m. h x (inr m)))

  pub Member-select :
      (p : A → Bool) (xs : List A) (x : A) → Member x (select p xs) → (p x ≡ true) × Member x xs
  Member-select p [] x m = absurd m
  Member-select p (y ∷ ys) x m = later (Member-select p ys x)
    where
      keep : (p x ≡ true) × Member x ys → (p x ≡ true) × ((y ≡ x) ⊎ Member x ys)
      keep r = (r.0, inr r.1)

      split :
          (Member x (select p ys) → (p x ≡ true) × Member x ys)
          → p y ≡ true
          → (y ≡ x) ⊎ Member x (select p ys)
          → (p x ≡ true) × ((y ≡ x) ⊎ Member x ys)
      split ih t n = elim n [ inl e ↦ (subst (λ z. p z ≡ true) e t, inl e) | inr k ↦ keep (ih k) ]

      later :
          (Member x (select p ys) → (p x ≡ true) × Member x ys)
          → (p x ≡ true) × ((y ≡ x) ⊎ Member x ys)
      later ih = elim (Bool-cases (p y)) [
        | inl t ↦ split ih t (rw t at m)
        | inr t ↦ keep (ih (rw t at m))
      ]

  pub select-Member :
      (p : A → Bool) (xs : List A) (x : A) → p x ≡ true → Member x xs → Member x (select p xs)
  select-Member p [] x t m = absurd m
  select-Member p (y ∷ ys) x t m = elim m [
    | inl e ↦ rw (subst (λ z. p z ≡ true) (sym e) t) (inl e)
    | inr n ↦ step (select-Member p ys x t n)
  ]
    where
      step : Member x (select p ys) → Member x (if p y then y ∷ select p ys else select p ys)
      step n = elim (Bool-cases (p y)) [ inl e ↦ rw e (inr n) | inr e ↦ rw e n ]

-- A row found by a test that an update keeps is found again, updated, if the update takes it in.
pub find_first-update_where {ℓ} :
    {A : Type ℓ} (p u : A → Bool) (f : A → A) (xs : List A)
    → ((x : A) → p (f x) ≡ p x)
    → ((x : A) → p x ≡ true → u x ≡ true)
    → find_first p (update_where u f xs) ≡ Option.map f (find_first p xs)
find_first-update_where p u f [] stable inside = refl
find_first-update_where p u f (x ∷ xs) stable inside =
    ground (arith, stable x, inside x, find_first-update_where p u f xs stable inside)

-- The same with an update that takes in some of the rows.
pub find_first-update_some {ℓ} :
    {A : Type ℓ} (p u : A → Bool) (f : A → A) (xs : List A)
    → ((x : A) → p (f x) ≡ p x)
    → find_first p (update_where u f xs)
      ≡ Option.map (λ x. if u x then f x else x) (find_first p xs)
find_first-update_some p u f [] stable = refl
find_first-update_some p u f (x ∷ xs) stable =
    ground (arith, stable x, find_first-update_some p u f xs stable)

-- A row that is found shows that another test which it passes finds one.
pub find_first-other {ℓ} :
    {A : Type ℓ} (p q : A → Bool) (xs : List A) (x : A)
    → find_first p xs ≡ some x
    → q x ≡ true
    → (y : A) × (find_first q xs ≡ some y)
find_first-other p q [] x h t = cc
find_first-other p q (y ∷ ys) x h t = elim (Bool-cases (q y)) [
  | inl e ↦ (y, rw e refl)
  | inr e ↦ elim (Bool-cases (p y)) [
    | inl f ↦ cc (ap q (some_inj (rw f at h)))
    | inr f ↦ rw e (find_first-other p q ys x (rw f at h) t)
  ]
]

pub find_first-append_none :
    {A : Type 0} (p : A → Bool) (xs : List A) (x : A)
    → find_first p xs ≡ none
    → p x ≡ true
    → find_first p (xs ++ x ∷ []) ≡ some x
find_first-append_none p [] x h t = rw t
find_first-append_none p (y ∷ ys) x h t = ground (arith, find_first-append_none p ys x)
