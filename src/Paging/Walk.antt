-- ===== src/Paging/Walk.antt =====
-- A client that follows the cursors of a list of apps/api/agent_control reads all of it.
use mission_control_platform.Prelude.{
  ℕ, zero, suc, ◌-◌, ◌≤◌, ◌<◌, ◌≡◌, ◌≢◌, ◌⊎◌, refl, sym, ap, ◌∙◌, subst, inl, inr, String, true,
  false, Option, none, some, List, [], ◌∷◌, ◌++◌, All, IdsDistinct, All-sort_by, Bool-cases, length,
  length-sort_by, ltb→lt, ltb, max, min, take, select, sort_by, arith,
}
use mission_control_platform.Errors.{Result, ok, ◌>>=◌}
use mission_control_platform.Rows.{Uuid, Time}
use mission_control_platform.Store.{Env}
use mission_control_platform.Paging.{
  earlier, later, CursorCodec, Place, read_cursor, from_place, last_cursor, cut, page_limit, page,
}
use mission_control_platform.Paging.Order.{
  earlier_trans, IdsDistinct-select, select-passes, select-select, IsSorted, sort_by-IsSorted,
}
use mission_control_platform.Paging.Cut.{drop, select-sort_by, EndsAt, page-EndsAt}
use mission_control_platform.Paging.Takes.{
  take-drop, take-take, more-rows, ltb-false, length-drop, few-rows,
}

-- What is encoded is read back.
abbrev pub IsFaithful : Env → CursorCodec → Type 0
IsFaithful env codec =
    (t : Time) (i : Uuid) → read_cursor env codec (some (codec.encode t i)) ≡ Place.below t i

module _ {A : Type 0} (time : A → Time) (id : A → Uuid) (env : Env) (codec : CursorCodec)
    (limit : ℕ) (rows : List A) where
  -- What is read after a page, if there is more.
  abbrev follow : (Option String → Result (List A)) → List A → Option String → Result (List A)
  follow go found none = ok found
  follow go found (some c) = go (some c) >>= λ rest. ok (found ++ rest)

  -- Reading page after page, with a number of requests that are left.
  abbrev pub walk : ℕ → Option String → Result (List A)
  walk zero cursor = ok []
  walk (suc f) cursor =
      page time id env codec limit cursor rows >>= λ p. follow (λ c. walk f c) p.rows p.next_cursor

  -- The page of a place that is no error, by the sorted rows that the place lets through.
  page-cut :
      (cursor : Option String) (place : Place)
      → read_cursor env codec cursor ≡ place
      → place ≢ Place.malformed
      → page time id env codec limit cursor rows
        ≡ ok (
            cut time id codec (page_limit limit) (
              take
                (suc (page_limit limit))
                (sort_by (later time id) (from_place time id place rows))))
  unfolding page
  page-cut cursor Place.start e ne = rw e refl
  page-cut cursor Place.malformed e ne = absurd (ne refl)
  page-cut cursor (Place.below t i) e ne = rw e refl

  abbrev seen_from : Place → List A
  seen_from place = sort_by (later time id) (from_place time id place rows)

  limit-suc : (m : ℕ) × (page_limit limit ≡ suc m)
  unfolding page_limit
  limit-suc = (max 1 (min limit 200) - 1, omega arith)

  -- The end of a page of sorted rows that leaves some.
  end_of :
      (xs : List A)
      → IsSorted time id xs
      → ltb (page_limit limit) (length xs) ≡ true
      → (x : A) × EndsAt time id codec (page_limit limit) xs x
        × (suc (length (drop (page_limit limit) xs)) ≤ length xs)
  end_of xs s l = by_rows (limit-suc.0) limit-suc.1 xs s (ltb→lt _ _ l)
    where
      by_rows :
          (m : ℕ)
          → page_limit limit ≡ suc m
          → (xs : List A) → IsSorted time id xs
          → page_limit limit < length xs
          → (x : A) × EndsAt time id codec (page_limit limit) xs x
            × (suc (length (drop (page_limit limit) xs)) ≤ length xs)
      by_rows m e [] s l = let nothing : ⊥ = omega arith in absurd nothing
      by_rows m e (a ∷ xs) s l =
          let (x, ends) = page-EndsAt time id codec m a xs s (omega arith) in
          rw e (x, ends, omega (arith, length-drop m a xs))

  from_place-distinct :
      (place : Place) → IdsDistinct id rows → IdsDistinct id (from_place time id place rows)
  unfolding from_place
  from_place-distinct Place.start d = d
  from_place-distinct Place.malformed d = d
  from_place-distinct (Place.below t i) d =
      IdsDistinct-select id (λ a. earlier (time a) (id a) t i) rows d

  -- The place after a row that was seen lets through, of the rows seen, those that follow it.
  seen-after :
      (place : Place) (x : A)
      → ((P : A → Type 0) → All P (seen_from place) → P x)
      → seen_from (Place.below (time x) (id x))
        ≡ sort_by (later time id) (select (λ b. later time id x b) (from_place time id place rows))
  unfolding from_place
  seen-after Place.start x g = refl
  seen-after Place.malformed x g = refl
  seen-after (Place.below t i) x g = ap (sort_by (later time id)) (
      sym (
        select-select (λ b. later time id x b) (λ a. earlier (time a) (id a) t i) rows
          λ b h. earlier_trans (time b) (id b) (time x) (id x) t i h (
            g (λ c. earlier (time c) (id c) t i ≡ true)
              (All-sort_by (λ c. earlier (time c) (id c) t i ≡ true) (later time id) _
                (select-passes (λ a. earlier (time a) (id a) t i) rows)))))

  -- What a page of sorted rows is followed by.
  page-follow :
      (go : Option String → Result (List A)) (xs : List A)
      → (ltb (page_limit limit) (length xs) ≡ false)
        ⊎ ((c : String) × (ltb (page_limit limit) (length xs) ≡ true)
            × (last_cursor time id codec (take (page_limit limit) xs) ≡ some c)
            × (go (some c) ≡ ok (drop (page_limit limit) xs)))
      → follow go
          (cut time id codec (page_limit limit) (take (suc (page_limit limit)) xs)).rows
          (cut time id codec (page_limit limit) (take (suc (page_limit limit)) xs)).next_cursor
        ≡ ok xs
  page-follow go xs (inl e) =
      rw
        (
          more-rows (page_limit limit) xs,
          e,
          take-take (page_limit limit) xs,
          few-rows (page_limit limit) xs (ltb-false _ _ e),
        )
        refl
  page-follow go xs (inr (c, e, f, h)) =
      rw
        (
          more-rows (page_limit limit) xs,
          e,
          take-take (page_limit limit) xs,
          f,
          h,
          take-drop (page_limit limit) xs,
        )
        refl

  -- A page is followed by the rest, if the pages of each later place are read with the requests left.
  later_pages :
      IsFaithful env codec
      → IdsDistinct id rows
      → (go : Option String → Result (List A)) (f : ℕ) (place : Place)
      → ((c : String) (p : Place)
          → read_cursor env codec (some c) ≡ p
          → p ≢ Place.malformed
          → suc (length (seen_from p)) ≤ f
          → go (some c) ≡ ok (seen_from p))
      → length (seen_from place) ≤ f
      → ltb (page_limit limit) (length (seen_from place)) ≡ true
      → (c : String) × (ltb (page_limit limit) (length (seen_from place)) ≡ true)
        × (last_cursor time id codec (take (page_limit limit) (seen_from place)) ≡ some c)
        × (go (some c) ≡ ok (drop (page_limit limit) (seen_from place)))
  later_pages faithful d go f place ih l more =
      let kept = from_place-distinct place d in
      let (x, (ends, left, holds), shorter) =
        end_of (seen_from place) (sort_by-IsSorted time id _ kept) more in
      let rest : seen_from (Place.below (time x) (id x))
          ≡ drop (page_limit limit) (seen_from place) =
        seen-after place x holds
        ∙ sym (select-sort_by time id (λ b. later time id x b) _ kept)
        ∙ left in
      (
        codec.encode (time x) (id x),
        more,
        ends,
        ih (codec.encode (time x) (id x)) (Place.below (time x) (id x)) (faithful (time x) (id x))
              (λ q. cc) (subst (λ ys. suc (length ys) ≤ f) (sym rest) (omega (arith, shorter, l)))
            ∙ ap (λ (ys : List A). ok ys) rest,
      )

  walk-from :
      IsFaithful env codec
      → IdsDistinct id rows
      → (f : ℕ) (cursor : Option String) (place : Place) → read_cursor env codec cursor ≡ place
      → place ≢ Place.malformed
      → length (seen_from place) ≤ f
      → walk (suc f) cursor ≡ ok (seen_from place)
  walk-from faithful d zero cursor place e ne l = rw (page-cut cursor place e ne) (
      page-follow (λ c. walk zero c) (seen_from place)
        (elim (Bool-cases (ltb (page_limit limit) (length (seen_from place)))) [
          | inr few ↦ inl few
          | inl more ↦ absurd (none_left (ltb→lt _ _ more) l)
        ]))
    where
      none_left : {m n : ℕ} → m < n → n ≤ 0 → ⊥
      none_left h k = omega arith
  walk-from faithful d (suc f) cursor place e ne l = rw (page-cut cursor place e ne) (
      page-follow (λ c. walk (suc f) c) (seen_from place)
        (elim (Bool-cases (ltb (page_limit limit) (length (seen_from place)))) [
          | inr few ↦ inl few
          | inl more ↦ inr (
              later_pages faithful d (λ c. walk (suc f) c) (suc f) place
                (λ c p g h k. walk-from faithful d f (some c) p g h (omega arith)) l more)
        ]))

  -- Reading a list page after page, with one request more than it has rows, gives every row of the query once, the latest first, if a cursor is read back as it was made and the identifiers are distinct.
  pub walk-all :
      IsFaithful env codec
      → IdsDistinct id rows
      → walk (suc (length rows)) none ≡ ok (sort_by (later time id) rows)
  unfolding read_cursor from_place
  walk-all faithful d =
      walk-from faithful d (length rows) none Place.start refl (λ q. cc)
        (omega (arith, length-sort_by (later time id) rows))
