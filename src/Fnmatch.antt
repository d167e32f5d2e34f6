-- ===== src/Fnmatch.antt =====
-- Python's `fnmatch.fnmatchcase`, which src/ep_governance/policy_engine.py and resources.py call:
-- `*`, `?`, `[seq]` and `[!seq]` over code points, matched against the whole text.
pub mod Laws
use ep_governance.Prelude.{
  ℕ, String, ◌≡◌, Bool, true, false, not, ◌&&◌, ◌||◌, Option, none, some, List, [], ◌∷◌, leb, ◌==◌,
  if◌then◌else◌, codes,
}

-- The members of a bracket: ranges from a low to a high code point.
pub data Tok : Type 0 where
  star : Tok
  single : Tok
  literal : ℕ → Tok
  seq : Bool → List (ℕ × ℕ) → Tok

-- The text up to the first `]` and what follows it.
split_close : List ℕ → Option (List ℕ × List ℕ)
split_close [] = none
split_close (c ∷ rest) =
    if c == b']'
    then some ([], rest)
    else (elim (split_close rest) [ none ↦ none | some (s, r) ↦ some (c ∷ s, r) ])

-- A `]` directly after the opening belongs to the set.
split_seq : List ℕ → Option (List ℕ × List ℕ)
unfolding split_close
split_seq [] = none
split_seq (c ∷ rest) = elim (split_close rest) [
  | none ↦ none
  | some (s, r) ↦ if c == b']' then some (c ∷ s, r) else split_close (c ∷ rest)
]

-- `x-y` is a range; a `-` at either end stands for itself.
ranges : List ℕ → List (ℕ × ℕ)
ranges (c ∷ d ∷ e ∷ rest) =
    let ranged = (c, e) ∷ ranges rest in
    let plain = (c, c) ∷ ranges (d ∷ e ∷ rest) in if d == b'-' then ranged else plain
ranges (c ∷ rest) = (c, c) ∷ ranges rest
ranges [] = []

-- The token for a bracket's content.
bracket : Bool → Option (List ℕ × List ℕ) → Option (Tok × List ℕ)
unfolding ranges
bracket negated none = none
bracket negated (some (s, rest)) = some (seq negated (ranges s), rest)

open_bracket : List ℕ → Option (Tok × List ℕ)
unfolding split_seq bracket
open_bracket [] = none
open_bracket (c ∷ rest) =
    if c == b'!' then bracket true (split_seq rest) else bracket false (split_seq (c ∷ rest))

-- The pattern's tokens; each round reads one, so the pattern's length is fuel enough.
tokens : ℕ → List ℕ → List Tok
unfolding open_bracket
tokens ℕ.zero p = []
tokens (ℕ.suc fuel) [] = []
tokens (ℕ.suc fuel) (c ∷ rest) =
    let plain = tokens fuel rest in
    if c == b'*'
    then star ∷ plain
    else if c == b'?'
    then single ∷ plain
    else if c == b'['
    then (elim (open_bracket rest) [
      | none ↦ literal c ∷ tokens fuel rest
      | some (t, r) ↦ t ∷ tokens fuel r
    ])
    else literal c ∷ plain

in_ranges : List (ℕ × ℕ) → ℕ → Bool
in_ranges [] c = false
in_ranges ((lo, hi) ∷ rs) c = (leb lo c && leb c hi) || in_ranges rs c

-- Some suffix of the text passes the test.
some_suffix : (List ℕ → Bool) → List ℕ → Bool
some_suffix k [] = k []
some_suffix k (c ∷ s) = k (c ∷ s) || some_suffix k s

one_char : (ℕ → Bool) → (List ℕ → Bool) → List ℕ → Bool
one_char fits k [] = false
one_char fits k (c ∷ s) = fits c && k s

match_tokens : List Tok → List ℕ → Bool
unfolding in_ranges some_suffix one_char
match_tokens [] s = (elim s [ [] ↦ true | _ ∷ _ ↦ false ])
match_tokens (star ∷ p) s = some_suffix (match_tokens p) s
match_tokens (single ∷ p) s = one_char (λ _. true) (match_tokens p) s
match_tokens (literal c ∷ p) s = one_char (λ d. d == c) (match_tokens p) s
match_tokens (seq negated rs ∷ p) s =
    one_char (λ d. if negated then not (in_ranges rs d) else in_ranges rs d) (match_tokens p) s

length : List ℕ → ℕ
length [] = 0
length (_ ∷ s) = ℕ.suc (length s)

unfoldable pub fnmatchcase : String → String → Bool
unfolding tokens match_tokens length
fnmatchcase name pattern = let p = codes pattern in match_tokens (tokens (length p) p) (codes name)
