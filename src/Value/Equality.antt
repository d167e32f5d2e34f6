-- ===== src/Value/Equality.antt =====
-- What the equality of JSON values shows.
use ep_governance.Prelude.{String, ◌≡◌, sym, ap, true, arith, str_eq_iff}
use ep_governance.Value.{Value, null, boolean, integer, array, object, text, value_eq}

-- A value that the equality finds equal to a text is that text.
pub text_value : (s : String) (v : Value) → value_eq (text s) v ≡ true → v ≡ text s
unfolding value_eq
text_value s (text r) h = ap text (sym ((str_eq_iff s r).0 h))
text_value s null h = absurd (ground (arith, h))
text_value s (boolean b) h = absurd (ground (arith, h))
text_value s (integer n) h = absurd (ground (arith, h))
text_value s (array xs) h = absurd (ground (arith, h))
text_value s (object fs) h = absurd (ground (arith, h))

pub value_text : (s : String) (v : Value) → value_eq v (text s) ≡ true → v ≡ text s
unfolding value_eq
value_text s (text r) h = ap text ((str_eq_iff r s).0 h)
value_text s null h = absurd (ground (arith, h))
value_text s (boolean b) h = absurd (ground (arith, h))
value_text s (integer n) h = absurd (ground (arith, h))
value_text s (array xs) h = absurd (ground (arith, h))
value_text s (object fs) h = absurd (ground (arith, h))
