-- ===== src/Examples/Pages.antt =====
-- Examples of the lists and of the table of budgets.
use Prim.Native.Char.{code}
use Prim.Native.String.{String}
use mission_control_platform.Prelude.{
  arith, ℕ, zero, suc, ◌≡◌, ◌∙◌, refl, ap, inl, inr, Bool, true, false, Option, none, some, List,
  [], ◌∷◌, ◌==◌, IdsDistinct, Bool-cases, sort_by, insert_by, str_eq, str_eq_iff, if◌then◌else◌,
}
use mission_control_platform.Prelude.Int.{pos}
use mission_control_platform.Errors.{ok}
use mission_control_platform.Rows.{AgentRun, Period, OnExceed, ScopeType}
use mission_control_platform.Store.{Env, Store, RawId, truthy}
use mission_control_platform.Paging.{CursorCodec, Place, read_cursor, earlier}
use mission_control_platform.Paging.Walk.{IsFaithful, walk, walk-all}
use mission_control_platform.Errors.{ok}
use mission_control_platform.Budgets.Crud.{
  units, numeric_column, BudgetCreate, BudgetUpdate, create_budget, update_budget,
}
use mission_control_platform.Budgets.Crud.Valid.{AllValid, crud-AllValid}
use mission_control_platform.Examples.{env, ctx, run as row, start}

-- A codec that counts: as many letters as the time says, a bar, and as many as the identifier says.
abbrev unary : ℕ → String
unary zero = ""
unary (suc n) = String.◌∷◌ "a" (unary n)

abbrev encoded : ℕ → ℕ → String
encoded zero i = String.◌∷◌ "|" (unary i)
encoded (suc t) i = String.◌∷◌ "a" (encoded t i)

abbrev front : String → String
front String.[] = ""
front (String.◌∷◌ c s) = let rest = front s in if code c == 124 then "" else String.◌∷◌ c rest

abbrev back : String → String
back String.[] = ""
back (String.◌∷◌ c s) = let rest = back s in if code c == 124 then s else rest

abbrev size : String → ℕ
size String.[] = 0
size (String.◌∷◌ c s) = suc (size s)

abbrev counting : CursorCodec
counting = record { encode = encoded; parts = λ s. some (front s ∷ back s ∷ []) }

abbrev reading : Env
reading = record env { uuid_of = λ s. some (size s); time_of = λ s. some (size s) }

front-encoded : (t i : ℕ) → front (encoded t i) ≡ unary t
front-encoded zero i = refl
front-encoded (suc t) i = ap (λ s. String.◌∷◌ "a" s) (front-encoded t i)

back-encoded : (t i : ℕ) → back (encoded t i) ≡ unary i
back-encoded zero i = refl
back-encoded (suc t) i = back-encoded t i

size-unary : (n : ℕ) → size (unary n) ≡ n
size-unary zero = refl
size-unary (suc n) = ap suc (size-unary n)

encoded_nonempty : (t i : ℕ) → str_eq (encoded t i) "" ≡ false
encoded_nonempty t i = elim (Bool-cases (str_eq (encoded t i) "")) [
  | inl e ↦ clash t ((str_eq_iff _ _).0 e)
  | inr e ↦ e
]
  where
    clash : (t : ℕ) → encoded t i ≡ "" → str_eq (encoded t i) "" ≡ false
    clash zero h = cc
    clash (suc t) h = cc

truthy-encoded : (t i : ℕ) → truthy (some (encoded t i)) ≡ some (encoded t i)
truthy-encoded t i = kept (str_eq (encoded t i) "") (encoded_nonempty t i)
  where
    kept : (b : Bool) → b ≡ false → (if b then none else some (encoded t i)) ≡ some (encoded t i)
    kept true h = cc
    kept false h = refl

-- The place of what `truthy` leaves.
abbrev counted : Option String → Place
counted none = Place.start
counted (some s) = Place.below (size (front s)) (size (back s))

counting-IsFaithful : IsFaithful reading counting
unfolding read_cursor
counting-IsFaithful t i =
    ap counted (truthy-encoded t i)
    ∙ rw (front-encoded t i, back-encoded t i, size-unary t, size-unary i) refl

abbrev three_runs : List AgentRun
three_runs =
    row ∷ record row { id = 8; created_at = 300 } ∷ record row { id = 6; created_at = 400 } ∷ []

ids_distinct : IdsDistinct (λ r. r.id) three_runs
ids_distinct = ((refl, (refl, tt)), ((refl, tt), (tt, tt)))

-- Two pages of at most two runs.
walk-all_example :
    walk (λ r. r.created_at) (λ r. r.id) reading counting 2 three_runs 4 none
    ≡ ok (
        record row { id = 6; created_at = 400 }
        ∷ row
        ∷ record row { id = 8; created_at = 300 }
        ∷ [])
unfolding sort_by insert_by earlier
walk-all_example =
    walk-all (λ r. r.created_at) (λ r. r.id) reading counting 2 three_runs counting-IsFaithful
      ids_distinct

abbrev wanted_budget : BudgetCreate
wanted_budget = record {
  scope_type = ScopeType.installation;
  scope_id = none;
  period = Period.monthly;
  currency = "USD";
  amount_limit = record { coefficient = pos 1; places = 6; text = "0.000001" };
  thresholds = some (pos 80 ∷ pos 50 ∷ []);
  on_exceed = OnExceed.alert;
  description = none;
}

abbrev budget_change : BudgetUpdate
budget_change = record {
  version = 1;
  amount_limit = some (record { coefficient = pos 25; places = 1; text = "2.5" });
  thresholds = none;
  on_exceed = some OnExceed.block_new_runs;
  period = none;
  status = none;
  description = none;
}

abbrev budgeted : Store
budgeted = (create_budget env ctx wanted_budget none start).1

budgeted-AllValid : AllValid 1 budgeted
unfolding units
budgeted-AllValid =
    (crud-AllValid env ctx 1 (RawId.uuid 100) wanted_budget budget_change none start (omega arith)
      (omega arith) tt).0

crud-AllValid_example :
    AllValid 1 (create_budget env ctx wanted_budget none budgeted).1
    × AllValid 1 (update_budget env ctx (RawId.uuid 100) budget_change none budgeted).1
unfolding units
crud-AllValid_example =
    crud-AllValid env ctx 1 (RawId.uuid 100) wanted_budget budget_change none budgeted (omega arith)
      (omega arith) budgeted-AllValid

-- The column rounds: a positive limit of less than half a unit becomes 0.
rounding_tests :
    (numeric_column (record { coefficient = pos 1; places = 9; text = "1E-9" }) ≡ ok (pos 0))
    × (numeric_column (record { coefficient = pos 5; places = 9; text = "5E-9" }) ≡ ok (pos 1))
    × (numeric_column (record { coefficient = pos 25; places = 1; text = "2.5" })
        ≡ ok (pos 250000000))
unfolding numeric_column
rounding_tests = (refl, refl, refl)
