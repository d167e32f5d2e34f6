-- ===== src/Prelude/Members.antt =====
-- Membership by recursion, and what searching, filtering and joining do to it.
use mathlib.Core.Path.{◌≡◌, refl, ap, ◌∙◌}
use mathlib.Core.Logic.{◌⊎◌, inl, inr}
use mathlib.Core.Bool.{Bool, true}
use mathlib.Core.List.{List, [], ◌∷◌, ◌++◌}
use native.Mathlib.Omega.{arith}
use ep_governance.Prelude.Lists.{any, filter}
use ep_governance.Prelude.Tests.{Bool-cases}

-- `a` stands in the list.
abbrev pub In : {A : Type 0} → A → List A → Type 0
In a [] = ⊥
In a (x ∷ xs) = (a ≡ x) ⊎ In a xs

-- Every element satisfies the predicate.
abbrev pub All {κ} : {A : Type 0} → (A → Type κ) → List A → Type κ
All P [] = Unit
All P (x ∷ xs) = P x × All P xs

module _ {A : Type 0} where
  pub In-append : (a : A) (xs ys : List A) → In a (xs ++ ys) → In a xs ⊎ In a ys
  In-append a [] ys m = inr m
  In-append a (x ∷ xs) ys (inl e) = inl (inl e)
  In-append a (x ∷ xs) ys (inr m) = elim (In-append a xs ys m) [
    | inl l ↦ inl (inr l)
    | inr r ↦ inr r
  ]

  pub In-append_left : (a : A) (xs ys : List A) → In a xs → In a (xs ++ ys)
  In-append_left a [] ys m = absurd m
  In-append_left a (x ∷ xs) ys (inl e) = inl e
  In-append_left a (x ∷ xs) ys (inr m) = inr (In-append_left a xs ys m)

  pub In-append_right : (a : A) (xs ys : List A) → In a ys → In a (xs ++ ys)
  In-append_right a [] ys m = m
  In-append_right a (x ∷ xs) ys m = inr (In-append_right a xs ys m)

  pub any-In : (p : A → Bool) (xs : List A) → any p xs ≡ true → (a : A) × In a xs × (p a ≡ true)
  unfolding any
  any-In p [] h = absurd (ground arith)
  any-In p (x ∷ xs) h = elim (Bool-cases (p x)) [
    | inl e ↦ (x, inl refl, e)
    | inr e ↦ let (a, m, q) = any-In p xs (ground arith) in (a, inr m, q)
  ]

  pub In-any : (p : A → Bool) (a : A) (xs : List A) → In a xs → p a ≡ true → any p xs ≡ true
  unfolding any
  In-any p a [] m h = absurd m
  In-any p a (x ∷ xs) (inl e) h = ground (arith, ap p e)
  In-any p a (x ∷ xs) (inr m) h = ground (arith, In-any p a xs m h)

  pub In-filter : (p : A → Bool) (a : A) (xs : List A) → In a xs → p a ≡ true → In a (filter p xs)
  unfolding filter
  In-filter p a [] m h = absurd m
  In-filter p a (x ∷ xs) m h = elim (Bool-cases (p x)) [
    | inl e ↦ rw (e, filter) (elim m [ inl q ↦ inl q | inr r ↦ inr (In-filter p a xs r h) ])
    | inr e ↦
        rw (e, filter)
          (elim m [ inl q ↦ absurd (ground (arith, ap p q)) | inr r ↦ In-filter p a xs r h ])
  ]

  pub filter-In : (p : A → Bool) (a : A) (xs : List A) → In a (filter p xs) → In a xs × (p a ≡ true)
  unfolding filter
  filter-In p a [] m = absurd m
  filter-In p a (x ∷ xs) m = elim (Bool-cases (p x)) [
    | inl e ↦ (elim (rw (e, filter) at m) [
      | inl q ↦ (inl q, ap p q ∙ e)
      | inr r ↦ let (n, h) = filter-In p a xs r in (inr n, h)
    ])
    | inr e ↦ let (n, h) = filter-In p a xs (rw (e, filter) at m) in (inr n, h)
  ]
