-- ===== src/Paging/Order.antt =====
-- The order of the rows of a page, `ORDER BY time DESC, id DESC`.
use mission_control_platform.Prelude.{
  ℕ, ◌≡◌, refl, inl, inr, Bool, true, false, List, [], ◌∷◌, ◌==◌, All, All-map, All-insert_by,
  All-sort_by, IdsDistinct, Bool-cases, select, insert_by, sort_by, arith,
}
use mission_control_platform.Rows.{Uuid, Time}
use mission_control_platform.Paging.{earlier, later}

pub earlier_trans :
    (t i u j v k : ℕ) → earlier t i u j ≡ true → earlier u j v k ≡ true → earlier t i v k ≡ true
unfolding earlier
earlier_trans t i u j v k h l = ground arith

pub earlier_irrefl : (t i : ℕ) → earlier t i t i ≡ false
unfolding earlier
earlier_irrefl t i = ground arith

pub earlier-total :
    (t i u j : ℕ) → (i == j) ≡ false → earlier t i u j ≡ false → earlier u j t i ≡ true
unfolding earlier
earlier-total t i u j d h = ground arith

pub earlier-asym : (t i u j : ℕ) → earlier t i u j ≡ true → earlier u j t i ≡ false
unfolding earlier
earlier-asym t i u j h = ground arith

pub All-select {κ} :
    {A : Type 0} (P : A → Type κ) (p : A → Bool) (xs : List A) → All P xs → All P (select p xs)
All-select P p [] h = tt
All-select P p (x ∷ xs) h = elim (Bool-cases (p x)) [
  | inl e ↦ rw e (h.0, All-select P p xs h.1)
  | inr e ↦ rw e (All-select P p xs h.1)
]

pub select-passes : {A : Type 0} (p : A → Bool) (xs : List A) → All (λ x. p x ≡ true) (select p xs)
select-passes p [] = tt
select-passes p (x ∷ xs) = elim (Bool-cases (p x)) [
  | inl e ↦ rw e (e, select-passes p xs)
  | inr e ↦ rw e (select-passes p xs)
]

pub IdsDistinct-select :
    {A : Type 0} (id : A → ℕ) (p : A → Bool) (xs : List A)
    → IdsDistinct id xs
    → IdsDistinct id (select p xs)
IdsDistinct-select id p [] d = tt
IdsDistinct-select id p (x ∷ xs) d = elim (Bool-cases (p x)) [
  | inl e ↦ rw e (All-select (λ y. (id y == id x) ≡ false) p xs d.0, IdsDistinct-select id p xs d.1)
  | inr e ↦ rw e (IdsDistinct-select id p xs d.1)
]

-- The rows that pass every test are all kept.
pub select-All :
    {A : Type 0} (p : A → Bool) (xs : List A) → All (λ x. p x ≡ true) xs → select p xs ≡ xs
select-All p [] h = refl
select-All p (x ∷ xs) h = rw (h.0, select-All p xs h.1) refl

pub select-select :
    {A : Type 0} (p q : A → Bool) (xs : List A)
    → ((x : A) → p x ≡ true → q x ≡ true)
    → select p (select q xs) ≡ select p xs
select-select p q [] h = refl
select-select p q (x ∷ xs) h = ground (arith, h x, select-select p q xs h)

pub select-insert_out :
    {A : Type 0} (before : A → A → Bool) (p : A → Bool) (a : A) (xs : List A)
    → p a ≡ false
    → select p (insert_by before a xs) ≡ select p xs
unfolding insert_by
select-insert_out before p a [] h = rw h refl
select-insert_out before p a (b ∷ bs) h = ground (arith, select-insert_out before p a bs h)

pub insert-front :
    {A : Type 0} (before : A → A → Bool) (a : A) (xs : List A)
    → All (λ x. before x a ≡ false) xs
    → insert_by before a xs ≡ a ∷ xs
unfolding insert_by
insert-front before a [] h = refl
insert-front before a (b ∷ bs) h = rw h.0 refl

module _ {A : Type 0} (time : A → Time) (id : A → Uuid) where
  -- Each row is later than those that follow.
  abbrev pub IsSorted : List A → Type 0
  IsSorted [] = Unit
  IsSorted (a ∷ xs) = All (λ b. later time id a b ≡ true) xs × IsSorted xs

  pub after_later :
      (a b : A) (xs : List A)
      → later time id a b ≡ true
      → All (λ c. later time id b c ≡ true) xs
      → All (λ c. later time id a c ≡ true) xs
  after_later a b xs h hs =
      All-map _ (λ c. later time id a c ≡ true) xs hs
        λ c k. earlier_trans (time c) (id c) (time b) (id b) (time a) (id a) k h

  pub insert_by-IsSorted :
      (a : A) (xs : List A)
      → All (λ b. (id b == id a) ≡ false) xs
      → IsSorted xs
      → IsSorted (insert_by (later time id) a xs)
  unfolding insert_by
  insert_by-IsSorted a [] d h = (tt, tt)
  insert_by-IsSorted a (b ∷ bs) d h = elim (Bool-cases (later time id b a)) [
    | inl e ↦ rw e (
      All-insert_by (λ c. later time id b c ≡ true) (later time id) a bs e h.0,
      insert_by-IsSorted a bs d.1 h.1,
    )
    | inr e ↦ rw e (let f = first b d.0 e in ((f, after_later a b bs f h.0), h))
  ]
    where
      first :
          (b : A) → (id b == id a) ≡ false → later time id b a ≡ false → later time id a b ≡ true
      first b d e = earlier-total (time a) (id a) (time b) (id b) (other (id b) (id a) d) e
        where
          other : (m n : ℕ) → (m == n) ≡ false → (n == m) ≡ false
          other m n g = ground arith

  pub sort_by-IsSorted : (xs : List A) → IdsDistinct id xs → IsSorted (sort_by (later time id) xs)
  unfolding sort_by
  sort_by-IsSorted [] d = tt
  sort_by-IsSorted (a ∷ xs) d =
      insert_by-IsSorted a (sort_by (later time id) xs)
        (All-sort_by (λ b. (id b == id a) ≡ false) (later time id) xs d.0) (sort_by-IsSorted xs d.1)
