-- ===== src/Examples/Identifiers.antt =====
-- Witnesses for the theorems on identifiers.
use ep_governance.Prelude.{◌≡◌, ◌≤◌, ◌≢◌, refl, true, [], ◌∷◌, arith}
use ep_governance.Errors.{ok}
use ep_governance.Order.{text_ltb}
use ep_governance.Xid.{Xid, string, from_string, timestamp, from_bytes, slice}
use ep_governance.Xid.Carries.{Carries, IsSeeded, new-Carries}
use ep_governance.Xid.Fresh.{new-after}
use ep_governance.Xid.Generator.{Generator, new, after}
use ep_governance.Xid.Sorted.{string-timestamp}
use ep_governance.Xid.Text.{IsXid, from_string-string}

abbrev generator : Generator
generator = record {
  machine_id = 17 ∷ 34 ∷ 51 ∷ [];
  pid_bytes = 4 ∷ 210 ∷ [];
  count = 16777215;
  last_timestamp = 0;
}

-- The first identifier, whose counter wraps, and the second, after the clock has gone back.
abbrev first : Xid
first = record { bytes = 0 ∷ 0 ∷ 3 ∷ 232 ∷ 17 ∷ 34 ∷ 51 ∷ 4 ∷ 210 ∷ 0 ∷ 0 ∷ 0 ∷ [] }

abbrev second : Xid
second = record { bytes = 0 ∷ 0 ∷ 3 ∷ 233 ∷ 17 ∷ 34 ∷ 51 ∷ 4 ∷ 210 ∷ 0 ∷ 0 ∷ 1 ∷ [] }

seeded : IsSeeded generator
seeded =
    (refl, (omega arith, (omega arith, (omega arith, tt))), refl, (omega arith, (omega arith, tt)))

makes_first : (new generator 1000).0 ≡ ok first
unfolding new
makes_first = refl

makes_second : (new (after (new generator 1000).1 []) 900).0 ≡ ok second
unfolding new after
makes_second = refl

new-Carries_example : Carries first (new generator 1000).1
new-Carries_example = new-Carries generator 1000 first seeded makes_first

new-after_example : (timestamp first ≤ timestamp second) × (string first ≢ string second)
new-after_example =
    new-after generator 1000 [] 900 first second seeded (omega arith) makes_first makes_second

first-IsXid : IsXid first
first-IsXid = (new-Carries generator 1000 first seeded makes_first).0

second-IsXid : IsXid second
second-IsXid =
    (new-Carries (after (new generator 1000).1 []) 900 second (unfold new after in seeded)
      makes_second).0

from_string-string_example : from_string (string first) ≡ ok first
from_string-string_example = from_string-string first first-IsXid

string-timestamp_example : text_ltb (string first) (string second) ≡ true
string-timestamp_example =
    string-timestamp first second first-IsXid second-IsXid
      (unfold timestamp from_bytes slice in omega arith)
