-- ===== src/Xid/Fresh.antt =====
-- Identifiers of one generator differ, and their times do not fall.
use Prim.Native.Nat.{◌^◌}
use ep_governance.Prelude.{
  ℕ, ◌+◌, ◌%◌, ◌≤◌, ◌<◌, ◌≡◌, ◌≢◌, refl, sym, ap, ◌∙◌, subst, List, [], ◌∷◌, length, arith, All,
}
use ep_governance.Errors.{ok}
use ep_governance.Xid.{Xid, string, from_string, timestamp, counter}
use ep_governance.Xid.Carries.{IsSeeded, new-Carries}
use ep_governance.Xid.Generator.{Generator, new, after, advanced, next_time}
use ep_governance.Xid.Text.{IsXid, from_string-string}

after-machine :
    (g : Generator) (times : List ℕ)
    → ((after g times).machine_id ≡ g.machine_id) × ((after g times).pid_bytes ≡ g.pid_bytes)
unfolding after new advanced next_time
after-machine g [] = (refl, refl)
after-machine g (time ∷ times) = after-machine (new g time).1 times

after-last : (g : Generator) (times : List ℕ) → g.last_timestamp ≤ (after g times).last_timestamp
unfolding after new advanced next_time
after-last g [] = omega arith
after-last g (time ∷ times) = ground (arith, after-last (new g time).1 times)

after-count :
    (g : Generator) (times : List ℕ)
    → (after g times).count % 2 ^ 24 ≡ (g.count + length times) % 2 ^ 24
unfolding after new advanced next_time
after-count g [] = omega arith
after-count g (time ∷ times) = omega (arith, after-count (new g time).1 times)

after-IsSeeded : (g : Generator) (times : List ℕ) → IsSeeded g → IsSeeded (after g times)
after-IsSeeded g times seeded =
    let (m, p) = after-machine g times in
    subst
      (λ ms.
        (length ms ≡ 3)
        × All (λ b. b < 256) ms
        × (length (after g times).pid_bytes ≡ 2)
        × All (λ b. b < 256) (after g times).pid_bytes)
      (sym m)
      (subst
        (λ ps.
          (length g.machine_id ≡ 3)
          × All (λ b. b < 256) g.machine_id
          × (length ps ≡ 2)
          × All (λ b. b < 256) ps)
        (sym p) seeded)

new-last : (g : Generator) (time : ℕ) → g.last_timestamp ≤ (new g time).1.last_timestamp
unfolding new advanced next_time
new-last g time = ground arith

new-count : (g : Generator) (time : ℕ) → (new g time).1.count ≡ (g.count + 1) % 2 ^ 24
unfolding new advanced next_time
new-count g time = refl

ok-injective : {x y : Xid} → ok x ≡ ok y → x ≡ y
ok-injective h = cc

string-injective : (x y : Xid) → IsXid x → IsXid y → string x ≡ string y → ok x ≡ ok y
string-injective x y p q e =
    sym (from_string-string x p) ∙ ap from_string e ∙ from_string-string y q

-- The counts of two calls that are fewer than 2^24 apart differ.
apart :
    (a n b : ℕ) → a < 2 ^ 24 → n + 1 < 2 ^ 24 → b % 2 ^ 24 ≡ (a + n) % 2 ^ 24 → (b + 1) % 2 ^ 24 ≢ a
apart a n b ha hn h e = omega arith

-- Two identifiers that one generator makes, with fewer than 2^24 calls from the first to the
-- second: the second is of no earlier second, whatever the clock says, and its text is another.
pub new-after :
    (g : Generator) (time : ℕ) (times : List ℕ) (time' : ℕ) (x y : Xid)
    → IsSeeded g
    → length times + 1 < 2 ^ 24
    → (new g time).0 ≡ ok x
    → (new (after (new g time).1 times) time').0 ≡ ok y
    → (timestamp x ≤ timestamp y) × (string x ≢ string y)
unfolding after
new-after g time times time' x y seeded few made made' =
    let first : Generator = after g (time ∷ []) in
    let seeded' : IsSeeded first = after-IsSeeded g (time ∷ []) seeded in
    let (px, tx, _, _, cx) = new-Carries g time x seeded made in
    let (py, ty, _, _, cy) =
      new-Carries (after first times) time' y (after-IsSeeded first times seeded') made' in
    (
      omega (arith, after-last first times, new-last (after first times) time', tx, ty),
      λ e.
          apart first.count (length times) (after first times).count
            (omega (arith, new-count g time)) few (after-count first times)
            (sym (new-count (after first times) time')
              ∙ sym cy
              ∙ ap counter (ok-injective (string-injective y x py px (sym e)))
              ∙ cx),
    )
