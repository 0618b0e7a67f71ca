-- ===== src/Prelude/Sort.antt =====
-- A stable sort by insertion, the `ORDER BY` of the queries.
use Prim.Native.Nat.{suc}
use mathlib.Core.Path.{◌≡◌, refl}
use mathlib.Core.Bool.{Bool}
use mathlib.Core.Logic.{inl, inr}
use mathlib.Core.List.{List, [], ◌∷◌}
use mission_control_platform.Prelude.Tests.{if◌then◌else◌, Bool-cases}
use native.Mathlib.Omega.{arith}
use mission_control_platform.Prelude.Lists.{All, length}

unfoldable pub insert_by : {A : Type 0} → (A → A → Bool) → A → List A → List A
insert_by before a [] = a ∷ []
insert_by before a (b ∷ bs) =
    let rest = insert_by before a bs in if before b a then b ∷ rest else a ∷ b ∷ bs

unfoldable pub sort_by : {A : Type 0} → (A → A → Bool) → List A → List A
unfolding insert_by
sort_by before [] = []
sort_by before (a ∷ xs) = insert_by before a (sort_by before xs)

-- What holds of every element holds of every element of the sorted list.
pub All-insert_by {κ} :
    {A : Type 0} (P : A → Type κ) (before : A → A → Bool) (a : A) (xs : List A)
    → P a
    → All P xs
    → All P (insert_by before a xs)
unfolding insert_by
All-insert_by P before a [] h hs = (h, tt)
All-insert_by P before a (b ∷ bs) h hs = elim (Bool-cases (before b a)) [
  | inl e ↦ rw e (hs.0, All-insert_by P before a bs h hs.1)
  | inr e ↦ rw e (h, hs)
]

pub All-sort_by {κ} :
    {A : Type 0} (P : A → Type κ) (before : A → A → Bool) (xs : List A)
    → All P xs
    → All P (sort_by before xs)
unfolding sort_by
All-sort_by P before [] h = tt
All-sort_by P before (a ∷ xs) h =
    All-insert_by P before a (sort_by before xs) h.0 (All-sort_by P before xs h.1)

length-insert_by :
    {A : Type 0} (before : A → A → Bool) (a : A) (xs : List A)
    → length (insert_by before a xs) ≡ suc (length xs)
unfolding insert_by
length-insert_by before a [] = refl
length-insert_by before a (b ∷ bs) = ground (arith, length-insert_by before a bs)

pub length-sort_by :
    {A : Type 0} (before : A → A → Bool) (xs : List A) → length (sort_by before xs) ≡ length xs
unfolding sort_by
length-sort_by before [] = refl
length-sort_by before (a ∷ xs) =
    ground (arith, length-insert_by before a (sort_by before xs), length-sort_by before xs)
