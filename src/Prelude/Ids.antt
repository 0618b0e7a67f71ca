-- ===== src/Prelude/Ids.antt =====
-- Tables whose identifiers are distinct, and the row that a lookup finds in them.
use Prim.Native.Nat.{ℕ}
use mathlib.Core.Path.{◌≡◌, refl, sym, ◌∙◌, subst}
use mathlib.Core.Bool.{Bool, true, false}
use mathlib.Core.Logic.{inl, inr}
use mathlib.Core.Option.{some}
use mathlib.Core.List.{List, [], ◌∷◌}
use native.Mathlib.Omega.{arith}
use mission_control_platform.Prelude.Tests.{◌==◌, Bool-cases}
use mission_control_platform.Prelude.Lists.{All, All-map, All-find_first, find_first, some_inj}

module _ {ℓ} {A : Type ℓ} (id : A → ℕ) where
  -- No two rows have the same identifier.
  abbrev pub IdsDistinct : List A → Type 0
  IdsDistinct [] = Unit
  IdsDistinct (x ∷ xs) = All (λ y. (id y == id x) ≡ false) xs × IdsDistinct xs

  -- Each row with the identifier of the row that was found is that row.
  pub found_alone :
      (p : A → Bool) (xs : List A) (x : A)
      → IdsDistinct xs
      → find_first p xs ≡ some x
      → All (λ y. (id y == id x) ≡ true → y ≡ x) xs
  found_alone p [] x h e = tt
  found_alone p (y ∷ ys) x h e = elim (Bool-cases (p y)) [
    | inl f ↦
        subst (λ z. All (λ w. (id w == id z) ≡ true → w ≡ z) (y ∷ ys)) (some_inj (rw f at e))
          ((λ g. refl), All-map _ (λ w. (id w == id y) ≡ true → w ≡ y) ys h.0 λ w k g. cc)
    | inr f ↦ (
      (λ g. cc (
          sym (swapped (id y) (id x) g)
          ∙ All-find_first (λ w. (id w == id y) ≡ false) _ ys x (rw f at e) h.0)),
      found_alone p ys x h.1 (rw f at e),
    )
  ]
    where
      swapped : (m n : ℕ) → (m == n) ≡ true → (n == m) ≡ true
      swapped m n g = ground arith
