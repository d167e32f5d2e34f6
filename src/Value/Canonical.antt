-- ===== src/Value/Canonical.antt =====
-- `canonical_json`: sorted keys, no white space, non-ASCII characters as they are.
use ep_governance.Prelude.{
  ℕ, zero, suc, ◌+◌, ◌-◌, ◌/◌, ◌%◌, String, true, false, List, [], ◌∷◌, ◌++◌, ltb, ◌==◌,
  if◌then◌else◌, codes, ◌≡◌, refl,
}
use ep_governance.Order.{text_ltb}
use ep_governance.Value.{
  Value, Items, Fields, null, boolean, integer, text, array, object, nil, cons, end, field,
}

-- Decimal digits; `n + 1` rounds are enough for `n`.
digits : ℕ → ℕ → List ℕ → List ℕ
digits zero n acc = acc
digits (suc fuel) n acc =
    let rest = digits fuel (n / 10) ((b'0' + n % 10) ∷ acc) in
    if ltb n 10 then (b'0' + n) ∷ acc else rest

pub print_nat : ℕ → List ℕ
unfolding digits
print_nat n = digits (suc n) n []

hex : ℕ → ℕ
hex n = if ltb n 10 then b'0' + n else b'a' + (n - 10)

-- `json.dumps` escapes quotes, backslashes and control characters.
escape : ℕ → List ℕ
unfolding hex
escape c =
    if c == 34
    then 92 ∷ 34 ∷ []
    else if c == 92
    then 92 ∷ 92 ∷ []
    else if c == 10
    then 92 ∷ b'n' ∷ []
    else if c == 13
    then 92 ∷ b'r' ∷ []
    else if c == 9
    then 92 ∷ b't' ∷ []
    else if c == 12
    then 92 ∷ b'f' ∷ []
    else if c == 8
    then 92 ∷ b'b' ∷ []
    else if ltb c 32
    then 92 ∷ b'u' ∷ b'0' ∷ b'0' ∷ (b'0' + c / 16) ∷ hex (c % 16) ∷ []
    else c ∷ []

escape_all : List ℕ → List ℕ
escape_all [] = []
escape_all (c ∷ s) = escape c ++ escape_all s

quoted : String → List ℕ
unfolding escape escape_all
quoted s = 34 ∷ (escape_all (codes s) ++ 34 ∷ [])

-- A member of an object: its key, and its printed value.
abbrev Member : Type 0
Member = List ℕ × List ℕ × List ℕ

insert_member : Member → List Member → List Member
insert_member m [] = m ∷ []
insert_member m (o ∷ rest) = if text_ltb o.0 m.0 then o ∷ insert_member m rest else m ∷ o ∷ rest

join_members : List Member → List ℕ
join_members [] = []
join_members (m ∷ []) = m.1 ++ (b':' ∷ m.2)
join_members (m ∷ o ∷ rest) = m.1 ++ (b':' ∷ (m.2 ++ (b',' ∷ join_members (o ∷ rest))))

unfoldable mutual
  unfolding print_nat quoted insert_member join_members text_ltb

  pub canonical_json : Value → List ℕ
  canonical_json null = codes "null"
  canonical_json (boolean true) = codes "true"
  canonical_json (boolean false) = codes "false"
  canonical_json (integer n) = print_nat n
  canonical_json (text s) = quoted s
  canonical_json (array xs) = b'[' ∷ (canonical_items xs ++ b']' ∷ [])
  canonical_json (object fs) = b'{' ∷ (join_members (sorted_members fs) ++ b'}' ∷ [])

  canonical_items : Items → List ℕ
  canonical_items nil = []
  canonical_items (cons x nil) = canonical_json x
  canonical_items (cons x (cons y ys)) = canonical_json x ++ (b',' ∷ canonical_items (cons y ys))

  sorted_members : Fields → List Member
  sorted_members end = []
  sorted_members (field k v fs) =
      insert_member (codes k, quoted k, canonical_json v) (sorted_members fs)

test_object :
    canonical_json
      (object (field "b" (integer 120) (field "a" (array (cons null (cons (text "x\"") nil))) end)))
    ≡ codes "{\"a\":[null,\"x\\\"\"],\"b\":120}"
unfolding canonical_json
test_object = refl
