-- ===== src/Xid/Text.antt =====
-- Printing an identifier and parsing the text.
use Prim.Native.Nat.{◌^◌}
use ep_governance.Prelude.{
  ℕ, zero, suc, ◌+◌, ◌*◌, ◌%◌, ◌<◌, ◌≡◌, refl, sym, ap, ◌∙◌, subst, Bool, true, false, ◌&&◌, none,
  some, List, [], ◌∷◌, length, arith, ◌==◌, All,
}
use ep_governance.Errors.{ok}
use ep_governance.Xid.{
  Xid, shr, shl, alphabet, char_at, index, regroup, pad, digits, chars, string, indices,
  from_string, xid,
}
use ep_governance.Xid.Number.{
  All-append, regroup_small, regroup_bits, length-regroup, regroup_value, regroup_digits,
}
use ep_governance.Xid.Shift.{extend, extend-append, length-append}

-- Twelve bytes.
abbrev pub IsXid : Xid → Type 0
IsXid x = (length x.bytes ≡ 12) × All (λ b. b < 256) x.bytes

shr-5 : (x : ℕ) → shr x 5 * 2 ^ 5 + x % 2 ^ 5 ≡ x
unfolding shr
shr-5 x = omega arith

shr-8 : (x : ℕ) → shr x 8 * 2 ^ 8 + x % 2 ^ 8 ≡ x
unfolding shr
shr-8 x = omega arith

shl-5 : (v : ℕ) → shl v 5 ≡ v * 2 ^ 5
unfolding shl
shl-5 v = omega arith

shl-8 : (v : ℕ) → shl v 8 ≡ v * 2 ^ 8
unfolding shl
shl-8 v = omega arith

shr-shl_5 : (v x : ℕ) → x < 2 ^ 5 → shr (shl v 5 + x) 5 ≡ v
unfolding shr shl
shr-shl_5 v x h = omega arith

shr-shl_8 : (v x : ℕ) → x < 2 ^ 8 → shr (shl v 8 + x) 8 ≡ v
unfolding shr shl
shr-shl_8 v x h = omega arith

pub row_below : (base a b x : ℕ) → x < base → a < b → a * base + x < b * base
row_below base a b x p h = grind arith

same_digit :
    (base a b x y : ℕ) → x < base → y < base → a * base + x ≡ b * base + y → (a ≡ b) × (x ≡ y)
same_digit base a b x y p q h = grind (arith, row_below base a b x p, row_below base b a y q)

-- Numbers of as many digits are the same only where the digits are.
pub extend-injective :
    (base a b : ℕ) (xs ys : List ℕ)
    → length xs ≡ length ys
    → All (λ d. d < base) xs
    → All (λ d. d < base) ys
    → extend base a xs ≡ extend base b ys
    → (a ≡ b) × (xs ≡ ys)
unfolding extend
extend-injective base a b [] [] len p q h = (h, refl)
extend-injective base a b [] (y ∷ ys) len p q h = absurd (omega arith)
extend-injective base a b (x ∷ xs) [] len p q h = absurd (omega arith)
extend-injective base a b (x ∷ xs) (y ∷ ys) len (p, ps) (q, qs) h =
    let (e, es) = extend-injective base (a * base + x) (b * base + y) xs ys (omega arith) ps qs h in
    let heads = same_digit base a b x y p q e in
    (heads.0, ap (λ d. d ∷ xs) heads.1 ∙ ap (λ l. y ∷ l) es)

shr-mul : (v : ℕ) → shr (v * 16) 4 ≡ v
unfolding shr
shr-mul v = omega arith

-- The characters of the alphabet and their indices.
indexed : ℕ → Bool
unfolding index char_at
indexed d = elim (index 0 alphabet (char_at alphabet d)) [ none ↦ false | some i ↦ i == d ]

-- A test of the numbers below a bound, one by one.
unfoldable pub each_below : (ℕ → Bool) → ℕ → Bool
each_below p zero = true
each_below p (suc n) = each_below p n && p n

pub each_below-at : (p : ℕ → Bool) (n d : ℕ) → each_below p n ≡ true → d < n → p d ≡ true
unfolding each_below
each_below-at p zero d h lt = absurd (omega arith)
each_below-at p (suc n) d h lt = ground (arith, each_below-at p n d)

indexed_table : each_below indexed 32 ≡ true
unfolding each_below indexed
indexed_table = refl

index-char_at : (d : ℕ) → d < 32 → index 0 alphabet (char_at alphabet d) ≡ some d
unfolding indexed
index-char_at d h = ground (arith, each_below-at indexed 32 d indexed_table h)

indices-chars : (ds : List ℕ) → All (λ d. d < 32) ds → indices (chars ds) ≡ ok ds
unfolding indices chars
indices-chars [] small = refl
indices-chars (d ∷ ds) (h, small) = rw (index-char_at d h, indices-chars ds small) refl

length-chars : (ds : List ℕ) → length (chars ds) ≡ length ds
unfolding chars
length-chars [] = refl
length-chars (d ∷ ds) = omega (arith, length-chars ds)

-- The digits after nineteen digits and one bit.
IsDigits : ℕ → List ℕ → Type 0
IsDigits n ds = (length ds ≡ 20) × All (λ d. d < 32) ds × (extend 32 0 ds ≡ n * 16)

pad-IsDigits :
    (out : List ℕ) (v : ℕ)
    → length out ≡ 19
    → All (λ d. d < 32) out
    → extend 32 0 out ≡ shr v 1
    → IsDigits v (pad out v 1)
unfolding pad shl shr extend IsDigits
pad-IsDigits out v nineteen small h =
    let last = shl v 4 % 32 in
    (
      omega (arith, length-append out (last ∷ [])),
      All-append (λ d. d < 32) out (last ∷ []) small (omega arith, tt),
      extend-append 32 0 out (last ∷ []) ∙ omega (arith, h),
    )

digits-IsDigits : (x : Xid) → IsXid x → IsDigits (extend 256 0 x.bytes) (digits x.bytes)
unfolding digits
digits-IsDigits x (twelve, small) =
    let r = regroup 8 5 x.bytes 0 0 in
    let bits : r.2 < 5 = regroup_bits 8 5 x.bytes 0 0 (omega arith) (omega arith) in
    let count : length r.0 * 5 + r.2 ≡ 0 + length x.bytes * 8 = length-regroup 8 5 x.bytes 0 0 in
    let one : r.2 ≡ 1 = omega arith in
    let number : extend 32 0 r.0 ≡ shr r.1 1 =
      regroup_digits 8 5 shr-5 shr-shl_8 x.bytes 0 0 small ∙ ap (shr r.1) one in
    subst (λ v. IsDigits v (digits x.bytes)) (regroup_value 8 5 shl-8 x.bytes 0 0)
      (subst (λ b. IsDigits r.1 (pad r.0 r.1 b)) (sym one)
        (pad-IsDigits r.0 r.1 (omega arith) (regroup_small 8 5 x.bytes 0 0 (λ n. omega arith))
          number))

pub digits_parts :
    (x : Xid)
    → IsXid x
    → (length (digits x.bytes) ≡ 20)
      × All (λ d. d < 32) (digits x.bytes)
      × (extend 32 0 (digits x.bytes) ≡ extend 256 0 x.bytes * 16)
unfolding IsDigits
digits_parts x h = digits-IsDigits x h

-- What `XID.from_string` makes of them.
bytes-digits :
    (x : Xid) (ds : List ℕ)
    → IsXid x
    → IsDigits (extend 256 0 x.bytes) ds
    → (regroup 5 8 ds 0 0).0 ≡ x.bytes
unfolding IsDigits shr
bytes-digits x ds (twelve, small) (twenty, low, number) =
    let r = regroup 5 8 ds 0 0 in
    let bits : r.2 < 8 = regroup_bits 5 8 ds 0 0 (omega arith) (omega arith) in
    let count : length r.0 * 8 + r.2 ≡ 0 + length ds * 5 = length-regroup 5 8 ds 0 0 in
    let four : r.2 ≡ 4 = omega arith in
    let value : r.1 ≡ extend 256 0 x.bytes * 16 = regroup_value 5 8 shl-5 ds 0 0 ∙ number in
    let same : extend 256 0 r.0 ≡ shr (extend 256 0 x.bytes * 16) 4 =
      regroup_digits 5 8 shr-8 shr-shl_5 ds 0 0 low ∙ ap (shr r.1) four ∙ ap (λ v. shr v 4) value in
    (extend-injective 256 0 0 r.0 x.bytes (omega arith)
      (regroup_small 5 8 ds 0 0 (λ n. omega arith)) small (same ∙ shr-mul (extend 256 0 x.bytes))).1

from_string-chars :
    (ds : List ℕ)
    → length ds ≡ 20
    → All (λ d. d < 32) ds
    → from_string (chars ds) ≡ xid (regroup 5 8 ds 0 0).0
unfolding from_string
from_string-chars ds twenty small = rw (length-chars ds, twenty, indices-chars ds small) refl

xid-ok : (raw : List ℕ) → length raw ≡ 12 → xid raw ≡ ok (record { bytes = raw })
unfolding xid
xid-ok raw twelve = rw (twelve) refl

-- Parsing the text that an identifier of twelve bytes prints gives the identifier.
pub from_string-string : (x : Xid) → IsXid x → from_string (string x) ≡ ok x
unfolding string
from_string-string x h =
    let is = digits-IsDigits x h in
    from_string-chars (digits x.bytes) (digits_parts x h).0 (digits_parts x h).1
    ∙ ap xid (bytes-digits x (digits x.bytes) h is)
    ∙ xid-ok x.bytes h.0
