-- ===== src/Table/Lookup.antt =====
-- What a lookup finds after an INSERT and an UPDATE.
use ep_governance.Prelude.{
  String, ◌≡◌, refl, Bool, Option, none, some, List, [], ◌∷◌, ◌++◌, arith, str_eq, str_eq_iff,
  if◌then◌else◌,
}
use ep_governance.Errors.{ok}
use ep_governance.Table.{find, insert_row, update_rows}

module _ {R : Type 0} (key : R → String) where
  -- The second lookup where the first finds nothing.
  abbrev pub or_else : Option R → Option R → Option R
  or_else (some r) o = some r
  or_else none o = o

  pub find-append :
      (j : String) (r : R) (rs : List R)
      → find key j (rs ++ r ∷ [])
        ≡ or_else (find key j rs) (if str_eq (key r) j then some r else none)
  unfolding find
  find-append j r [] = refl
  find-append j r (x ∷ rs) = ground (arith, find-append j r rs)

  pub find-key : (j : String) (r : R) (rs : List R) → find key j rs ≡ some r → key r ≡ j
  unfolding find
  find-key j r [] h = absurd (ground arith)
  find-key j r (x ∷ rs) h = ground (arith, find-key j r rs, str_eq_iff (key x) j)

  -- What an UPDATE makes of the row that it finds.
  abbrev pub changed : (R → Bool) → (R → R) → Option R → Option R
  changed test f none = none
  changed test f (some r) = some (if test r then f r else r)

  pub find-update_rows :
      (test : R → Bool) (f : R → R) (k j : String) (rs : List R)
      → ((r : R) → key (f r) ≡ key r)
      → find key j (update_rows key test f k rs)
        ≡ (if str_eq k j then changed test f (find key j rs) else find key j rs)
  unfolding find update_rows
  find-update_rows test f k j [] same = ground arith
  find-update_rows test f k j (x ∷ rs) same = ground (
    arith,
    find-update_rows test f k j rs same,
    same x,
    str_eq_iff (key x) k,
    str_eq_iff (key x) j,
    str_eq_iff k j,
    str_eq_iff (key (f x)) j,
  )

  pub find-insert_row :
      (r : R) (rs rs' : List R) (j : String)
      → insert_row key r rs ≡ ok rs'
      → find key j rs' ≡ (if str_eq (key r) j then some r else find key j rs)
  unfolding insert_row
  find-insert_row r rs rs' j h = ground (arith, find-append j r rs, str_eq_iff (key r) j)

  pub insert_row-fresh :
      (r : R) (rs rs' : List R) → insert_row key r rs ≡ ok rs' → find key (key r) rs ≡ none
  unfolding insert_row
  insert_row-fresh r rs rs' h = ground arith
