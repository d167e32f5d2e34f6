-- ===== src/Fnmatch/Laws.antt =====
-- The matcher at the patterns that policies use most.
use ep_governance.Prelude.{ℕ, ◌≡◌, refl, true, List, [], ◌∷◌, String, codes, false}
use ep_governance.Fnmatch.{fnmatchcase, some_suffix, match_tokens}

suffix_end : (s : List ℕ) → some_suffix (match_tokens []) s ≡ true
unfolding some_suffix match_tokens
suffix_end [] = refl
suffix_end (c ∷ s) = suffix_end s

-- The pattern `*` fits every text.
pub fnmatchcase-star : (name : String) → fnmatchcase name "*" ≡ true
unfolding fnmatchcase
fnmatchcase-star name = suffix_end (codes name)

test_prefix : fnmatchcase "postgres.execute.select" "postgres.*" ≡ true
unfolding fnmatchcase
test_prefix = refl

test_other : fnmatchcase "shell.exec" "postgres.*" ≡ false
unfolding fnmatchcase
test_other = refl

test_set : fnmatchcase "git.c" "git.[!d-z]" ≡ true
unfolding fnmatchcase
test_set = refl

test_open : fnmatchcase "a[b" "a[b" ≡ true
unfolding fnmatchcase
test_open = refl

test_close : fnmatchcase "]-" "[]a][a-]" ≡ true
unfolding fnmatchcase
test_close = refl
