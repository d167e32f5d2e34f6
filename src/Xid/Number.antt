-- ===== src/Xid/Number.antt =====
-- The loop of `XID.string` and `XID.from_string` keeps the number that the digits stand for, and the
-- bits that are not written yet.
use Prim.Native.Nat.{◌^◌}
use ep_governance.Prelude.{
  ℕ, zero, suc, ◌+◌, ◌-◌, ◌*◌, ◌%◌, ◌<◌, ◌≡◌, refl, sym, ap, ◌∙◌, true, false, List, [], ◌∷◌, ◌++◌,
  length, arith, ltb, Bool, All,
}
use ep_governance.Xid.{shr, shl, drain, regroup}
use ep_governance.Xid.Shift.{
  round, shr-add, extend, extend-append, length-append, drain_digits, drain_bits, length-drain,
}

pub All-append : (P : ℕ → Type 0) (xs ys : List ℕ) → All P xs → All P ys → All P (xs ++ ys)
All-append P [] ys p q = q
All-append P (x ∷ xs) ys (h, p) q = (h, All-append P xs ys p q)

round_small :
    (to v b : ℕ) (done : Bool) (rest : List ℕ × ℕ)
    → ((x : ℕ) → x % 2 ^ to < 2 ^ to)
    → All (λ d. d < 2 ^ to) rest.0
    → All (λ d. d < 2 ^ to) (round to v b done rest).0
unfolding round
round_small to v b true rest h k = tt
round_small to v b false rest h k = (h _, k)

drain_small :
    (to n v b : ℕ) → ((x : ℕ) → x % 2 ^ to < 2 ^ to) → All (λ d. d < 2 ^ to) (drain n to v b).0
unfolding drain round
drain_small to zero v b h = tt
drain_small to (suc n) v b h =
    round_small to v b (ltb b to) (drain n to v (b - to)) h (drain_small to n v (b - to) h)

pub regroup_small :
    (from to : ℕ) (xs : List ℕ) (v b : ℕ)
    → ((x : ℕ) → x % 2 ^ to < 2 ^ to)
    → All (λ d. d < 2 ^ to) (regroup from to xs v b).0
unfolding regroup
regroup_small from to [] v b h = tt
regroup_small from to (x ∷ xs) v b h =
    All-append _ _ _ (drain_small to (b + from) _ (b + from) h) (regroup_small from to xs _ _ h)

pub regroup_bits :
    (from to : ℕ) (xs : List ℕ) (v b : ℕ) → 0 < to → b < to → (regroup from to xs v b).2 < to
unfolding regroup
regroup_bits from to [] v b h lt = lt
regroup_bits from to (x ∷ xs) v b h lt =
    regroup_bits from to xs _ _ h (drain_bits to (b + from) _ (b + from) h (omega arith))

pub length-regroup :
    (from to : ℕ) (xs : List ℕ) (v b : ℕ)
    → length (regroup from to xs v b).0 * to + (regroup from to xs v b).2 ≡ b + length xs * from
unfolding regroup
length-regroup from to [] v b = omega arith
length-regroup from to (x ∷ xs) v b =
    let now = shl v from + x in
    let step = drain (b + from) to now (b + from) in
    grind (
      arith,
      length-append step.0 (regroup from to xs now step.1).0,
      length-drain to (b + from) now (b + from),
      length-regroup from to xs now step.1,
    )

pub regroup_value :
    (from to : ℕ)
    → ((v : ℕ) → shl v from ≡ v * 2 ^ from)
    → (xs : List ℕ) (v b : ℕ) → (regroup from to xs v b).1 ≡ extend (2 ^ from) v xs
unfolding regroup extend
regroup_value from to shifts [] v b = refl
regroup_value from to shifts (x ∷ xs) v b =
    regroup_value from to shifts xs _ _ ∙ ap (λ n. extend (2 ^ from) (n + x) xs) (shifts v)

module _ (from to : ℕ) (split : (x : ℕ) → shr x to * 2 ^ to + x % 2 ^ to ≡ x)
    (reads : (v x : ℕ) → x < 2 ^ from → shr (shl v from + x) from ≡ v) where
  pub regroup_digits :
      (xs : List ℕ) (v b : ℕ)
      → All (λ x. x < 2 ^ from) xs
      → extend (2 ^ to) (shr v b) (regroup from to xs v b).0
        ≡ shr (regroup from to xs v b).1 (regroup from to xs v b).2
  unfolding regroup
  regroup_digits [] v b small = unfold extend in refl
  regroup_digits (x ∷ xs) v b (h, small) =
      let now = shl v from + x in
      let step = drain (b + from) to now (b + from) in
      let before : shr v b ≡ shr now (b + from) =
        ap (λ y. shr y b) (sym (reads v x h)) ∙ sym (shr-add now from b (b + from) (omega arith)) in
      extend-append (2 ^ to) (shr v b) step.0 (regroup from to xs now step.1).0
      ∙ ap (λ y. extend (2 ^ to) (extend (2 ^ to) y step.0) (regroup from to xs now step.1).0)
          before
      ∙ ap (λ y. extend (2 ^ to) y (regroup from to xs now step.1).0)
          (drain_digits to split (b + from) now (b + from))
      ∙ regroup_digits xs now step.1 small
