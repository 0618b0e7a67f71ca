-- ===== src/Paging/Cut.antt =====
-- Where a page of apps/api/agent_control/control/commands.py and its like ends, and what its cursor
-- leaves: the rows that follow.
use mission_control_platform.Prelude.{
  ℕ, zero, suc, ◌<◌, ◌≡◌, refl, sym, ap, ◌∙◌, inl, inr, Bool, true, false, some, List, [], ◌∷◌,
  ◌==◌, All, All-map, IdsDistinct, All-sort_by, Bool-cases, length, take, select, insert_by,
  sort_by, arith,
}
use mission_control_platform.Rows.{Uuid, Time}
use mission_control_platform.Paging.{later, CursorCodec, last_cursor}
use mission_control_platform.Paging.Order.{
  earlier_irrefl, earlier-asym, earlier-total, All-select, select-All, select-insert_out,
  insert-front, IsSorted, after_later, sort_by-IsSorted,
}

abbrev pub drop {ℓ} : {A : Type ℓ} → ℕ → List A → List A
drop zero xs = xs
drop (suc n) [] = []
drop (suc n) (x ∷ xs) = drop n xs

module _ {A : Type 0} (time : A → Time) (id : A → Uuid) where
  select-insert_in :
      (p : A → Bool) (a : A) (xs : List A)
      → p a ≡ true
      → All (λ b. (id b == id a) ≡ false) xs
      → IsSorted time id xs
      → select p (insert_by (later time id) a xs) ≡ insert_by (later time id) a (select p xs)
  unfolding insert_by
  select-insert_in p a [] h d s = rw h refl
  select-insert_in p a (b ∷ bs) h d s = elim (Bool-cases (later time id b a)) [
    | inl e ↦ elim (Bool-cases (p b)) [
      | inl f ↦ rw (e, f, e, select-insert_in p a bs h d.1 s.1) refl
      | inr f ↦ rw (e, f) (select-insert_in p a bs h d.1 s.1)
    ]
    | inr e ↦
        rw (e, h)
          (sym (
            insert-front (later time id) a (select p (b ∷ bs))
              (All-select (λ z. later time id z a ≡ false) p (b ∷ bs) (e, behind (first e d.0)))))
  ]
    where
      other : (m n : ℕ) → (m == n) ≡ false → (n == m) ≡ false
      other m n g = ground arith

      first : later time id b a ≡ false → (id b == id a) ≡ false → later time id a b ≡ true
      first e g = earlier-total (time a) (id a) (time b) (id b) (other (id b) (id a) g) e

      behind : later time id a b ≡ true → All (λ z. later time id z a ≡ false) bs
      behind f =
          All-map _ (λ z. later time id z a ≡ false) bs (after_later time id a b bs f s.0)
            λ z k. earlier-asym (time z) (id z) (time a) (id a) k

  -- Selecting rows of a sorted table is sorting those that are selected.
  pub select-sort_by :
      (p : A → Bool) (xs : List A)
      → IdsDistinct id xs
      → select p (sort_by (later time id) xs) ≡ sort_by (later time id) (select p xs)
  unfolding sort_by
  select-sort_by p [] d = refl
  select-sort_by p (a ∷ xs) d = elim (Bool-cases (p a)) [
    | inl e ↦ rw e (
        select-insert_in p a (sort_by (later time id) xs) e
          (All-sort_by (λ b. (id b == id a) ≡ false) (later time id) xs d.0)
          (sort_by-IsSorted time id xs d.1)
        ∙ ap (insert_by (later time id) a) (select-sort_by p xs d.1))
    | inr e ↦ rw e (
        select-insert_out (later time id) p a (sort_by (later time id) xs) e
        ∙ select-sort_by p xs d.1)
  ]

  -- The last row of a page, of sorted rows: its cursor, and what it leaves.
  abbrev pub EndsAt : CursorCodec → ℕ → List A → A → Type 1
  EndsAt codec n xs x =
      (last_cursor time id codec (take n xs) ≡ some (codec.encode (time x) (id x)))
      × (select (λ b. later time id x b) xs ≡ drop n xs)
      × ((P : A → Type 0) → All P xs → P x)

  pub page-EndsAt :
      (codec : CursorCodec) (m : ℕ) (a : A) (xs : List A)
      → IsSorted time id (a ∷ xs)
      → m < length (a ∷ xs)
      → (x : A) × EndsAt codec (suc m) (a ∷ xs) x
  page-EndsAt codec zero a xs s l =
      (a, (refl, rw (earlier_irrefl (time a) (id a)) (select-All _ xs s.0), λ P h. h.0))
  page-EndsAt codec (suc k) a [] s l = let none_follows : ⊥ = omega arith in absurd none_follows
  page-EndsAt codec (suc k) a (b ∷ bs) s l =
      let (x, (e, f, g)) = page-EndsAt codec k b bs s.1 (omega arith) in
      (
        x,
        (
          e,
          rw (earlier-asym (time x) (id x) (time a) (id a) (g (λ c. later time id a c ≡ true) s.0))
              f,
          λ P h. g P h.1,
        ),
      )
