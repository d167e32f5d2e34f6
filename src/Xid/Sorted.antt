-- ===== src/Xid/Sorted.antt =====
-- The order of the texts, the order of the bytes and the order of the times.
use ep_governance.Prelude.{
  ℕ, zero, suc, ◌+◌, ◌*◌, ◌<◌, ◌≡◌, refl, sym, ap, ◌∙◌, Bool, true, false, List, [], ◌∷◌, length,
  arith, ◌==◌, ltb, if◌then◌else◌, All, ==_iff, lt→ltb,
}
use ep_governance.Order.{text_ltb}
use ep_governance.Xid.{Xid, alphabet, char_at, digits, chars, string, timestamp, from_bytes, slice}
use ep_governance.Xid.Shift.{extend}
use ep_governance.Xid.Text.{IsXid, digits_parts, each_below, each_below-at, row_below}

extend-lt :
    (base a b : ℕ) (xs ys : List ℕ)
    → length xs ≡ length ys
    → All (λ d. d < base) xs
    → a < b
    → extend base a xs < extend base b ys
unfolding extend
extend-lt base a b [] [] len small h = h
extend-lt base a b [] (y ∷ ys) len small h = absurd (omega arith)
extend-lt base a b (x ∷ xs) [] len small h = absurd (omega arith)
extend-lt base a b (x ∷ xs) (y ∷ ys) len (p, small) h =
    extend-lt base (a * base + x) (b * base + y) xs ys (omega arith) small
      (omega (arith, row_below base a b x p h))

-- A comparison by the first digits and, where they are the same, by the others.
first_digit :
    (x y m n : ℕ) (rest : Bool)
    → (x < y → m < n)
    → (y < x → n < m)
    → (x ≡ y → rest ≡ ltb m n)
    → (if ltb x y then true else if x == y then rest else false) ≡ ltb m n
first_digit x y m n rest below above same = ground arith

-- Digits of the same number compare as their numbers do.
text_ltb-extend :
    (base a : ℕ) (xs ys : List ℕ)
    → length xs ≡ length ys
    → All (λ d. d < base) xs
    → All (λ d. d < base) ys
    → text_ltb xs ys ≡ ltb (extend base a xs) (extend base a ys)
unfolding extend text_ltb
text_ltb-extend base a [] [] len p q = ground arith
text_ltb-extend base a [] (y ∷ ys) len p q = absurd (omega arith)
text_ltb-extend base a (x ∷ xs) [] len p q = absurd (omega arith)
text_ltb-extend base a (x ∷ xs) (y ∷ ys) len (p, ps) (q, qs) =
    let m : ℕ = extend base (a * base + x) xs in
    let n : ℕ = extend base (a * base + y) ys in
    let below : x < y → m < n = λ h. extend-lt base _ _ xs ys (omega arith) ps (omega (arith, h)) in
    let above : y < x → n < m = λ h. extend-lt base _ _ ys xs (omega arith) qs (omega (arith, h)) in
    let rest : text_ltb xs ys ≡ ltb m (extend base (a * base + x) ys) =
      text_ltb-extend base (a * base + x) xs ys (omega arith) ps qs in
    let same : x ≡ y → extend base (a * base + x) ys ≡ n =
      λ e. ap (λ z. extend base (a * base + z) ys) e in
    first_digit x y m n (text_ltb xs ys) below above λ e. rest ∙ ap (ltb m) (same e)

-- The codes of the alphabet rise.
code_of : ℕ → ℕ
code_of d = if ltb d 10 then 48 + d else 87 + d

has_code : ℕ → Bool
unfolding code_of char_at
has_code d = char_at alphabet d == code_of d

has_code_table : each_below has_code 32 ≡ true
unfolding each_below has_code
has_code_table = refl

char_at-eq : (d : ℕ) → d < 32 → char_at alphabet d ≡ code_of d
unfolding has_code
char_at-eq d h = (==_iff _ _).0 (each_below-at has_code 32 d has_code_table h)

code_of-ltb : (c d : ℕ) → c < 32 → d < 32 → ltb (code_of c) (code_of d) ≡ ltb c d
unfolding code_of
code_of-ltb c d p q = ground arith

code_of-eq : (c d : ℕ) → c < 32 → d < 32 → (code_of c == code_of d) ≡ (c == d)
unfolding code_of
code_of-eq c d p q = ground arith

text_ltb-chars :
    (xs ys : List ℕ)
    → All (λ d. d < 32) xs
    → All (λ d. d < 32) ys
    → text_ltb (chars xs) (chars ys) ≡ text_ltb xs ys
unfolding text_ltb chars
text_ltb-chars [] [] p q = refl
text_ltb-chars [] (y ∷ ys) p q = refl
text_ltb-chars (x ∷ xs) [] p q = refl
text_ltb-chars (x ∷ xs) (y ∷ ys) (p, ps) (q, qs) =
    rw
      (
        char_at-eq x p,
        char_at-eq y q,
        code_of-ltb x y p q,
        code_of-eq x y p q,
        text_ltb-chars xs ys ps qs,
      )
      refl

ltb-scale : (m n : ℕ) → ltb (m * 16) (n * 16) ≡ ltb m n
ltb-scale m n = ground arith

-- Texts compare as the numbers that their bytes stand for.
text_ltb-string :
    (x y : Xid)
    → IsXid x
    → IsXid y
    → text_ltb (string x) (string y) ≡ ltb (extend 256 0 x.bytes) (extend 256 0 y.bytes)
unfolding string
text_ltb-string x y p q =
    let (l, low, m) = digits_parts x p in
    let (k, high, n) = digits_parts y q in
    text_ltb-chars (digits x.bytes) (digits y.bytes) low high
    ∙ text_ltb-extend 32 0 (digits x.bytes) (digits y.bytes) (l ∙ sym k) low high
    ∙ ap (λ v. ltb v (extend 32 0 (digits y.bytes))) m
    ∙ ap (ltb (extend 256 0 x.bytes * 16)) n
    ∙ ltb-scale (extend 256 0 x.bytes) (extend 256 0 y.bytes)

-- The texts of two identifiers compare as their bytes do.
pub string-sorted :
    (x y : Xid) → IsXid x → IsXid y → text_ltb (string x) (string y) ≡ text_ltb x.bytes y.bytes
string-sorted x y p q =
    text_ltb-string x y p q ∙ sym (text_ltb-extend 256 0 x.bytes y.bytes (p.0 ∙ sym q.0) p.1 q.1)

pub from_bytes-extend : (n : ℕ) (bs : List ℕ) → from_bytes n bs ≡ extend 256 n bs
unfolding from_bytes extend
from_bytes-extend n [] = refl
from_bytes-extend n (b ∷ bs) = from_bytes-extend (n * 256 + b) bs

length-slice :
    (n : ℕ) (xs ys : List ℕ) → length xs ≡ length ys → length (slice 0 n xs) ≡ length (slice 0 n ys)
unfolding slice
length-slice n [] [] h = refl
length-slice n [] (y ∷ ys) h = absurd (omega arith)
length-slice n (x ∷ xs) [] h = absurd (omega arith)
length-slice zero (x ∷ xs) (y ∷ ys) h = refl
length-slice (suc n) (x ∷ xs) (y ∷ ys) h = ap suc (length-slice n xs ys (omega arith))

All-slice : (P : ℕ → Type 0) (n : ℕ) (xs : List ℕ) → All P xs → All P (slice 0 n xs)
unfolding slice
All-slice P n [] h = tt
All-slice P zero (x ∷ xs) h = tt
All-slice P (suc n) (x ∷ xs) (h, hs) = (h, All-slice P n xs hs)

text_ltb-slice :
    (n : ℕ) (xs ys : List ℕ)
    → length xs ≡ length ys
    → text_ltb (slice 0 n xs) (slice 0 n ys) ≡ true
    → text_ltb xs ys ≡ true
unfolding slice text_ltb
text_ltb-slice n [] [] len h = h
text_ltb-slice n [] (y ∷ ys) len h = refl
text_ltb-slice n (x ∷ xs) [] len h = absurd (omega arith)
text_ltb-slice zero (x ∷ xs) (y ∷ ys) len h = absurd (ground arith)
text_ltb-slice (suc n) (x ∷ xs) (y ∷ ys) len h =
    let rest = text_ltb-slice n xs ys (omega arith) in ground (arith, rest)

-- Bytes of an earlier time come first.
bytes_ltb :
    (n : ℕ) (xs ys : List ℕ)
    → length xs ≡ length ys
    → All (λ d. d < 256) xs
    → All (λ d. d < 256) ys
    → from_bytes 0 (slice 0 n xs) < from_bytes 0 (slice 0 n ys)
    → text_ltb xs ys ≡ true
bytes_ltb n xs ys len p q h =
    let small = All-slice (λ d. d < 256) n in
    let less : extend 256 0 (slice 0 n xs) < extend 256 0 (slice 0 n ys) =
      omega (arith, from_bytes-extend 0 (slice 0 n xs), from_bytes-extend 0 (slice 0 n ys), h) in
    text_ltb-slice n xs ys len (
      text_ltb-extend 256 0 (slice 0 n xs) (slice 0 n ys) (length-slice n xs ys len) (small xs p)
        (small ys q)
      ∙ lt→ltb _ _ less)

-- The text of an identifier of an earlier second comes first.
pub string-timestamp :
    (x y : Xid)
    → IsXid x
    → IsXid y
    → timestamp x < timestamp y
    → text_ltb (string x) (string y) ≡ true
unfolding timestamp
string-timestamp x y p q h =
    string-sorted x y p q ∙ bytes_ltb 4 x.bytes y.bytes (p.0 ∙ sym q.0) p.1 q.1 h
