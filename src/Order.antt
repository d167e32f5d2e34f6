-- ===== src/Order.antt =====
-- Python's `<` and `<=` on texts (by code points), and `rstrip("Z")`: how the program compares ISO
-- timestamps in src/ep_governance/policies.py, risk.py and in SQL's `expires_at > :now`.
use ep_governance.Prelude.{
  ℕ, ◌≡◌, refl, Bool, true, false, not, List, [], ◌∷◌, String, arith, ltb, ◌==◌, if◌then◌else◌,
  codes,
}

-- a < b
unfoldable pub text_ltb : List ℕ → List ℕ → Bool
text_ltb [] [] = false
text_ltb [] (d ∷ t) = true
text_ltb (c ∷ s) [] = false
text_ltb (c ∷ s) (d ∷ t) = if ltb c d then true else if c == d then text_ltb s t else false

-- a <= b
unfoldable pub text_leb : List ℕ → List ℕ → Bool
unfolding text_ltb
text_leb a b = not (text_ltb b a)

-- The trailing `Z`s are dropped: a suffix goes if it is all `Z`.
unfoldable pub rstrip_z : List ℕ → List ℕ
rstrip_z [] = []
rstrip_z (c ∷ s) = elim (rstrip_z s) [ [] ↦ if c == b'Z' then [] else c ∷ [] | d ∷ r ↦ c ∷ d ∷ r ]

unfoldable pub stamp : String → List ℕ
unfolding rstrip_z
stamp t = rstrip_z (codes t)

pub text_ltb_irrefl : (a : List ℕ) → text_ltb a a ≡ false
unfolding text_ltb
text_ltb_irrefl [] = refl
text_ltb_irrefl (c ∷ s) = ground (arith, text_ltb_irrefl s)

pub text_ltb_trans :
    (a b c : List ℕ) → text_ltb a b ≡ true → text_ltb b c ≡ true → text_ltb a c ≡ true
unfolding text_ltb
text_ltb_trans [] [] c h k = ground arith
text_ltb_trans [] (y ∷ b) [] h k = ground arith
text_ltb_trans [] (y ∷ b) (z ∷ c) h k = refl
text_ltb_trans (x ∷ a) [] c h k = ground arith
text_ltb_trans (x ∷ a) (y ∷ b) [] h k = ground arith
text_ltb_trans (x ∷ a) (y ∷ b) (z ∷ c) h k = ground (arith, text_ltb_trans a b c)
