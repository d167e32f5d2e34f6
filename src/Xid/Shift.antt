-- ===== src/Xid/Shift.antt =====
-- What a shift does to a number of two parts, and the loop that takes digits from the top.
use Prim.Native.Nat.{◌^◌}
use ep_governance.Prelude.{
  ℕ, zero, suc, ◌+◌, ◌-◌, ◌*◌, ◌/◌, ◌%◌, ◌≤◌, ◌<◌, ◌≡◌, refl, ap, ◌∙◌, true, false, List, [], ◌∷◌,
  ◌++◌, length, arith, ltb, if◌then◌else◌, Bool,
}
use ep_governance.Xid.{shr, drain}

pub shr-add : (v a b c : ℕ) → a + b ≡ c → shr v c ≡ shr (shr v a) b
unfolding shr
shr-add v zero b c h = ap (shr v) {x = c} {y = b} (omega arith)
shr-add v (suc a) b zero h = absurd (omega arith)
shr-add v (suc a) b (suc c) h = shr-add (v / 2) a b c (omega arith)

-- The number that the digits stand for, after `acc`.
unfoldable pub extend : ℕ → ℕ → List ℕ → ℕ
extend base acc [] = acc
extend base acc (d ∷ ds) = extend base (acc * base + d) ds

pub extend-append :
    (base acc : ℕ) (ds es : List ℕ)
    → extend base acc (ds ++ es) ≡ extend base (extend base acc ds) es
unfolding extend
extend-append base acc [] es = refl
extend-append base acc (d ∷ ds) es = extend-append base (acc * base + d) ds es

pub length-append : (xs ys : List ℕ) → length (xs ++ ys) ≡ length xs + length ys
length-append [] ys = omega arith
length-append (x ∷ xs) ys = omega (arith, length-append xs ys)

-- One round of the loop, before the others.
unfoldable pub round : ℕ → ℕ → ℕ → Bool → List ℕ × ℕ → List ℕ × ℕ
round to v b done rest = if done then ([], b) else ((shr v (b - to) % 2 ^ to) ∷ rest.0, rest.1)

round-length :
    (to v b : ℕ) (done : Bool) (rest : List ℕ × ℕ)
    → ltb b to ≡ done
    → length rest.0 * to + rest.1 ≡ b - to
    → length (round to v b done rest).0 * to + (round to v b done rest).1 ≡ b
unfolding round
round-length to v b true rest e h = omega arith
round-length to v b false rest e h = let le : to ≤ b = ground (arith, e) in omega (arith, le, h)

-- Digits of `to` bits, at a width where a shift is a division.
module _ (to : ℕ) (split : (x : ℕ) → shr x to * 2 ^ to + x % 2 ^ to ≡ x) where
  round_digits :
      (v b : ℕ) (done : Bool) (rest : List ℕ × ℕ)
      → ltb b to ≡ done
      → extend (2 ^ to) (shr v (b - to)) rest.0 ≡ shr v rest.1
      → extend (2 ^ to) (shr v b) (round to v b done rest).0 ≡ shr v (round to v b done rest).1
  unfolding round extend
  round_digits v b true rest e h = refl
  round_digits v b false rest e h =
      ap (λ x. extend (2 ^ to) x rest.0)
        (ap (λ x. x * 2 ^ to + shr v (b - to) % 2 ^ to)
            (shr-add v (b - to) to b (ground (arith, e)))
          ∙ split (shr v (b - to)))
      ∙ h

  pub drain_digits :
      (n v b : ℕ) → extend (2 ^ to) (shr v b) (drain n to v b).0 ≡ shr v (drain n to v b).1
  unfolding drain extend round
  drain_digits zero v b = refl
  drain_digits (suc n) v b =
      round_digits v b (ltb b to) (drain n to v (b - to)) refl (drain_digits n v (b - to))

pub drain_bits : (to n v b : ℕ) → 0 < to → b ≤ n → (drain n to v b).1 < to
unfolding drain
drain_bits to zero v b h le = omega arith
drain_bits to (suc n) v b h le = ground (arith, drain_bits to n v (b - to))

pub length-drain : (to n v b : ℕ) → length (drain n to v b).0 * to + (drain n to v b).1 ≡ b
unfolding drain round
length-drain to zero v b = omega arith
length-drain to (suc n) v b =
    round-length to v b (ltb b to) (drain n to v (b - to)) refl (length-drain to n v (b - to))
