-- ===== src/Xid.antt =====
-- src/ep_governance/xid.py: identifiers of twelve bytes, printed as twenty base32hex characters, and
-- their generator. A text is given by its code points; a shift by `k` bits is `k` steps of `/ 2` and
-- `* 2`, and a mask of `k` ones is `% 2 ^ k`.
pub mod Shift
pub mod Number
pub mod Text
pub mod Sorted
pub mod Generator
pub mod Carries
pub mod Fresh
use Prim.Native.Nat.{◌^◌}
use ep_governance.Prelude.{
  ℕ, zero, suc, ◌+◌, ◌-◌, ◌*◌, ◌/◌, ◌%◌, Option, none, some, List, [], ◌∷◌, ◌++◌, length, codes,
  ltb, ◌==◌, if◌then◌else◌,
}
use ep_governance.Errors.{Error, Result, ok, err, require, guard, ◌>>=◌, ◌>>◌, xid_error}

pub record Xid : Type 0 where
  pub bytes : List ℕ

-- `XID.__init__`
unfoldable pub xid : List ℕ → Result Xid
xid raw = guard (length raw == 12) xid_error >> ok (record { bytes = raw })

-- `v >> k`
unfoldable pub shr : ℕ → ℕ → ℕ
shr v zero = v
shr v (suc k) = shr (v / 2) k

-- `v << k`
unfoldable pub shl : ℕ → ℕ → ℕ
shl v zero = v
shl v (suc k) = shl (v * 2) k

abbrev pub alphabet : List ℕ
alphabet = codes "0123456789abcdefghijklmnopqrstuv"

-- `alphabet[i]`; every index that the program takes is below 32.
unfoldable pub char_at : List ℕ → ℕ → ℕ
char_at [] i = 0
char_at (c ∷ s) zero = c
char_at (c ∷ s) (suc i) = char_at s i

-- `alphabet.index(c)`, counting from `i`.
unfoldable pub index : ℕ → List ℕ → ℕ → Option ℕ
index i [] c = none
index i (d ∷ s) c = let rest = index (suc i) s c in if d == c then some i else rest

-- `while bits >= width`: the digits of `width` bits that are complete, from the top, and the number
-- of bits that are left. Each round takes bits away, so `bits` rounds are enough.
unfoldable pub drain : ℕ → ℕ → ℕ → ℕ → List ℕ × ℕ
unfolding shr
drain zero width value bits = ([], bits)
drain (suc fuel) width value bits =
    let rest = drain fuel width value (bits - width) in
    if ltb bits width then ([], bits) else ((shr value (bits - width) % 2 ^ width) ∷ rest.0, rest.1)

-- The loop of both directions: digits of `from` bits are read and digits of `to` bits written. It
-- gives the digits, and the `value` and `bits` at the end.
unfoldable pub regroup : ℕ → ℕ → List ℕ → ℕ → ℕ → List ℕ × ℕ × ℕ
unfolding shl drain
regroup from to [] value bits = ([], value, bits)
regroup from to (x ∷ xs) value bits =
    let now = shl value from + x in
    let (out, left) = drain (bits + from) to now (bits + from) in
    let (rest, last, last_bits) = regroup from to xs now left in (out ++ rest, last, last_bits)

-- `if bits > 0`: the last digit is padded with zeros.
unfoldable pub pad : List ℕ → ℕ → ℕ → List ℕ
unfolding shl
pad out value bits = if ltb 0 bits then out ++ (shl value (5 - bits) % 2 ^ 5) ∷ [] else out

-- The digits of `XID.string`.
unfoldable pub digits : List ℕ → List ℕ
unfolding regroup pad
digits bytes = let (out, value, bits) = regroup 8 5 bytes 0 0 in pad out value bits

unfoldable pub chars : List ℕ → List ℕ
unfolding char_at
chars [] = []
chars (d ∷ ds) = char_at alphabet d ∷ chars ds

-- `XID.string`
unfoldable pub string : Xid → List ℕ
unfolding digits chars
string x = chars (digits x.bytes)

-- The index of each character; one that is not of the alphabet ends the parse.
unfoldable pub indices : List ℕ → Result (List ℕ)
unfolding index
indices [] = ok []
indices (c ∷ s) =
    require (index 0 alphabet c) xid_error >>= λ i. indices s >>= λ rest. ok (i ∷ rest)

-- `XID.from_string`
unfoldable pub from_string : List ℕ → Result Xid
unfolding indices regroup xid
from_string s =
    guard (length s == 20) xid_error >> indices s >>= λ values. xid (regroup 5 8 values 0 0).0

-- `int.from_bytes(raw, "big")`
unfoldable pub from_bytes : ℕ → List ℕ → ℕ
from_bytes n [] = n
from_bytes n (b ∷ bs) = from_bytes (n * 256 + b) bs

-- A slice of the bytes: the first `n` after `k`.
unfoldable pub slice : ℕ → ℕ → List ℕ → List ℕ
slice k n [] = []
slice zero zero (b ∷ bs) = []
slice zero (suc n) (b ∷ bs) = b ∷ slice zero n bs
slice (suc k) n (b ∷ bs) = slice k n bs

unfoldable pub timestamp : Xid → ℕ
unfolding from_bytes slice
timestamp x = from_bytes 0 (slice 0 4 x.bytes)

unfoldable pub machine : Xid → List ℕ
unfolding slice
machine x = slice 4 3 x.bytes

unfoldable pub pid : Xid → ℕ
unfolding from_bytes slice
pid x = from_bytes 0 (slice 7 2 x.bytes)

unfoldable pub counter : Xid → ℕ
unfolding from_bytes slice
counter x = from_bytes 0 (slice 9 3 x.bytes)
