-- ===== src/Value.antt =====
-- The values that the program passes as dicts and stores as JSON (`dict[str, Any]`), Python's `==`
-- on them, and canonical JSON of src/ep_governance/canonical.py. Numbers are the non-negative
-- integers; floats and datetimes are left out.
pub mod Canonical
pub mod Equality
use ep_governance.Prelude.{
  ℕ, zero, suc, ◌+◌, String, Bool, true, false, ◌&&◌, Option, none, some, List, [], ◌∷◌, ◌==◌,
  str_eq, if◌then◌else◌,
}

mutual
  pub data Value : Type 0 where
    null : Value
    text : String → Value
    integer : ℕ → Value
    boolean : Bool → Value
    object : Fields → Value
    array : Items → Value

  -- The members of a dict, in its order.
  pub data Fields : Type 0 where
    end : Fields
    field : String → Value → Fields → Fields

  -- The elements of a list.
  pub data Items : Type 0 where
    nil : Items
    cons : Value → Items → Items

-- `d.get(key)`: `none` for a missing key.
unfoldable pub get_field : String → Fields → Option Value
get_field k end = none
get_field k (field j v fs) = if str_eq j k then some v else get_field k fs

-- `key in d`
unfoldable pub has_field : String → Fields → Bool
has_field k end = false
has_field k (field j v fs) = if str_eq j k then true else has_field k fs

count_fields : Fields → ℕ
count_fields end = 0
count_fields (field _ _ fs) = suc (count_fields fs)

-- In Python `True == 1` and `False == 0`.
number_of : Value → Option ℕ
number_of (boolean true) = some 1
number_of (boolean false) = some 0
number_of (integer n) = some n
number_of _ = none

same_number : Option ℕ → Option ℕ → Bool
same_number (some a) (some b) = a == b
same_number _ _ = false

-- Python's `a == b`. Dicts compare without regard to order.
unfoldable mutual
  unfolding get_field count_fields number_of same_number

  pub value_eq : Value → Value → Bool
  value_eq null b = elim b [ null ↦ true | _ ↦ false ]
  value_eq (boolean x) b = same_number (number_of (boolean x)) (number_of b)
  value_eq (integer n) b = same_number (some n) (number_of b)
  value_eq (text s) b = elim b [ text t ↦ str_eq s t | _ ↦ false ]
  value_eq (array xs) b = elim b [ array ys ↦ items_eq xs ys | _ ↦ false ]
  value_eq (object fs) b = elim b [
    | object gs ↦ (count_fields fs == count_fields gs) && fields_in fs gs
    | _ ↦ false
  ]

  pub items_eq : Items → Items → Bool
  items_eq nil ys = elim ys [ nil ↦ true | _ ↦ false ]
  items_eq (cons x xs) nil = false
  items_eq (cons x xs) (cons y ys) = value_eq x y && items_eq xs ys

  pub fields_in : Fields → Fields → Bool
  fields_in end gs = true
  fields_in (field k v fs) gs =
      (elim (get_field k gs) [ none ↦ false | some w ↦ value_eq v w ]) && fields_in fs gs
