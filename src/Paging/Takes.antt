-- ===== src/Paging/Takes.antt =====
-- The first rows of a list and those after them, for the pages of apps/api/agent_control.
use mission_control_platform.Prelude.{
  ℕ, zero, suc, ◌≤◌, ◌≡◌, refl, sym, ap, ◌∙◌, true, false, List, [], ◌∷◌, ◌++◌, length, ltb, take,
  arith,
}
use mission_control_platform.Paging.Cut.{drop}

pub take-drop {ℓ} : {A : Type ℓ} (n : ℕ) (xs : List A) → take n xs ++ drop n xs ≡ xs
take-drop zero xs = refl
take-drop (suc n) [] = refl
take-drop (suc n) (x ∷ xs) = ap (λ ys. x ∷ ys) (take-drop n xs)

pub take-take {ℓ} : {A : Type ℓ} (n : ℕ) (xs : List A) → take n (take (suc n) xs) ≡ take n xs
take-take zero xs = refl
take-take (suc n) [] = refl
take-take (suc n) (x ∷ xs) = ap (λ ys. x ∷ ys) (take-take n xs)

pub ltb-suc : (m n : ℕ) → ltb (suc m) (suc n) ≡ ltb m n
ltb-suc m n = ground arith

pub ltb-zero : (n : ℕ) → ltb 0 (suc n) ≡ true
ltb-zero n = ground arith

pub more-rows {ℓ} :
    {A : Type ℓ} (n : ℕ) (xs : List A) → ltb n (length (take (suc n) xs)) ≡ ltb n (length xs)
more-rows zero [] = refl
more-rows zero (x ∷ xs) = sym (ltb-zero (length xs))
more-rows (suc n) [] = refl
more-rows (suc n) (x ∷ xs) =
    ltb-suc n (length (take (suc n) xs)) ∙ more-rows n xs ∙ sym (ltb-suc n (length xs))

pub ltb-false : (m n : ℕ) → ltb m n ≡ false → n ≤ m
ltb-false m n h = ground arith

pub length-drop {ℓ} :
    {A : Type ℓ} (m : ℕ) (x : A) (xs : List A) → length (drop (suc m) (x ∷ xs)) ≤ length xs
length-drop zero x xs = omega arith
length-drop (suc m) x [] = omega arith
length-drop (suc m) x (y ∷ ys) = omega (arith, length-drop m y ys)

pub few-rows {ℓ} : {A : Type ℓ} (n : ℕ) (xs : List A) → length xs ≤ n → take n xs ≡ xs
few-rows zero [] h = refl
few-rows (suc n) [] h = refl
few-rows zero (x ∷ xs) h = let none_fit : ⊥ = omega arith in absurd none_fit
few-rows (suc n) (x ∷ xs) h = ap (λ ys. x ∷ ys) (few-rows n xs (omega arith))
