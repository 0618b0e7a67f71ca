-- ===== src/Paging.antt =====
-- The pages of the lists of apps/api/agent_control: `_encode_cursor` and `_decode_cursor` of
-- control/commands.py and its like, and the query that each list makes with them. The rows come in
-- the order of a time and an identifier, the latest first.
pub mod Order
pub mod Cut
pub mod Takes
pub mod Walk
use mission_control_platform.Prelude.{
  ℕ, suc, ◌+◌, String, Bool, true, false, ◌&&◌, ◌||◌, Option, none, some, List, [], ◌∷◌, ◌==◌,
  length, ltb, max, min, select, sort_by, take, if◌then◌else◌,
}
use mission_control_platform.Errors.{Result, Error, ok, err}
use mission_control_platform.Rows.{Uuid, Time}
use mission_control_platform.Store.{Env, truthy}

-- What base64 and `isoformat` make of a time and an identifier, and the texts between the bars of
-- what is read back, `none` if nothing can be.
pub record CursorCodec : Type 0 where
  pub encode : Time → Uuid → String
  pub parts : String → Option (List String)

-- What is read of a cursor: nothing, so that it is ignored, a date that raises, or a place.
pub data Place : Type 0 where
  start malformed : Place
  below : Time → Uuid → Place

abbrev place_of : Option Time → Uuid → Place
place_of none i = Place.malformed
place_of (some t) i = Place.below t i

abbrev place_by_id : Option Uuid → Option Time → Place
place_by_id none t = Place.start
place_by_id (some i) t = place_of t i

abbrev two_parts : Env → Option (List String) → Place
two_parts env (some (t ∷ i ∷ [])) = place_by_id (env.uuid_of i) (env.time_of t)
two_parts env parts = Place.start

-- The reading of the cursor of a request.
unfoldable pub read_cursor : Env → CursorCodec → Option String → Place
read_cursor env codec cursor = elim (truthy cursor) [
  | some c ↦ two_parts env (codec.parts c)
  | none ↦ Place.start
]

-- `(time, id) < (other_time, other_id)`.
unfoldable pub earlier : Time → Uuid → Time → Uuid → Bool
earlier t i u j = ltb t u || ((t == u) && ltb i j)

pub record Page (A : Type 0) : Type 0 where
  pub rows : List A
  pub next_cursor : Option String
  pub has_more : Bool

-- `max(1, min(limit, 200))`: a limit below 1 counts as 1.
unfoldable pub page_limit : ℕ → ℕ
page_limit limit = max 1 (min limit 200)

module _ {A : Type 0} (time : A → Time) (id : A → Uuid) where
  -- Comes first in a list: is later.
  abbrev pub later : A → A → Bool
  later a b = earlier (time b) (id b) (time a) (id a)

  -- The rows that a place lets through.
  unfoldable pub from_place : Place → List A → List A
  from_place (Place.below t i) rows = select (λ a. earlier (time a) (id a) t i) rows
  from_place place rows = rows

  abbrev pub last_cursor : CursorCodec → List A → Option String
  last_cursor codec [] = none
  last_cursor codec (a ∷ []) = some (codec.encode (time a) (id a))
  last_cursor codec (a ∷ b ∷ rows) = last_cursor codec (b ∷ rows)

  -- What is made of the rows, of which one more than the limit was fetched.
  abbrev pub cut : CursorCodec → ℕ → List A → Page A
  cut codec limit fetched = record {
    rows = take limit fetched;
    next_cursor =
        if ltb limit (length fetched) then last_cursor codec (take limit fetched) else none;
    has_more = ltb limit (length fetched);
  }

  abbrev pub page_from : CursorCodec → ℕ → List A → Place → Result (Page A)
  page_from codec limit rows Place.malformed = err Error.malformed_cursor
  page_from codec limit rows place =
      ok (cut codec limit (take (suc limit) (sort_by later (from_place place rows))))

  -- The page of a query, of the rows that its other conditions select.
  unfoldable pub page : Env → CursorCodec → ℕ → Option String → List A → Result (Page A)
  unfolding read_cursor page_limit
  page env codec limit cursor rows =
      page_from codec (page_limit limit) rows (read_cursor env codec cursor)
