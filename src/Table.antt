-- ===== src/Table.antt =====
-- A table of the database with a text as its primary key: SELECT, INSERT and UPDATE by that key, as
-- the SQL statements of src/ep_governance/db/repositories.py use them.
pub mod Lookup
use ep_governance.Prelude.{
  String, Bool, true, false, Option, none, some, List, [], ◌∷◌, ◌++◌, str_eq, if◌then◌else◌, codes,
}
use ep_governance.Order.{text_ltb}
use ep_governance.Errors.{Result, ok, err, integrity_error}

module _ {R : Type 0} (key : R → String) where
  -- SELECT … WHERE id = :k
  unfoldable pub find : String → List R → Option R
  find k [] = none
  find k (r ∷ rs) = if str_eq (key r) k then some r else find k rs

  -- INSERT, where the key is new; else the primary key's constraint fails.
  unfoldable pub insert_row : R → List R → Result (List R)
  insert_row r rs = elim (find (key r) rs) [
    | none ↦ ok (rs ++ r ∷ [])
    | some _ ↦ err integrity_error
  ]

  -- Whether UPDATE … WHERE id = :k AND test affects a row.
  unfoldable pub affects : (R → Bool) → String → List R → Bool
  affects test k rs = elim (find k rs) [ none ↦ false | some r ↦ test r ]

  -- The rows after UPDATE … SET f WHERE id = :k AND test.
  unfoldable pub update_rows : (R → Bool) → (R → R) → String → List R → List R
  update_rows test f k [] = []
  update_rows test f k (r ∷ rs) =
      if str_eq (key r) k then (if test r then f r else r) ∷ rs else r ∷ update_rows test f k rs

module _ {R : Type 0} where
  -- SELECT … ORDER BY created_at DESC LIMIT 1, over the rows that pass the test: the latest, and
  -- the first of those that share its time.
  later : (R → String) → R → Option R → Option R
  later created r none = some r
  later created r (some s) =
      if text_ltb (codes (created r)) (codes (created s)) then some s else some r

  unfoldable pub latest : (R → Bool) → (R → String) → List R → Option R
  unfolding later
  latest test created [] = none
  latest test created (r ∷ rs) =
      let best = latest test created rs in if test r then later created r best else best
