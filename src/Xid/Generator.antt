-- ===== src/Xid/Generator.antt =====
-- `XID.new`: an identifier of the clock's second, the machine, the process and a counter, and what
-- becomes of the module's state.
use Prim.Native.Nat.{◌^◌}
use ep_governance.Prelude.{ℕ, ◌+◌, ◌/◌, ◌%◌, List, [], ◌∷◌, ◌++◌, ltb, if◌then◌else◌}
use ep_governance.Errors.{Result, ok, guard, ◌>>=◌, ◌>>◌, overflow_error}
use ep_governance.Xid.{Xid, xid, from_bytes}

-- `n.to_bytes(4, "big")` and `n.to_bytes(3, "big")`
unfoldable pub four_bytes : ℕ → Result (List ℕ)
four_bytes n =
    guard (ltb n (2 ^ 32)) overflow_error
    >> ok (n / 2 ^ 24 ∷ n / 2 ^ 16 % 256 ∷ n / 2 ^ 8 % 256 ∷ n % 256 ∷ [])

unfoldable pub three_bytes : ℕ → Result (List ℕ)
three_bytes n =
    guard (ltb n (2 ^ 24)) overflow_error >> ok (n / 2 ^ 16 ∷ n / 2 ^ 8 % 256 ∷ n % 256 ∷ [])

-- The module's variables. `machine_id` and `pid_bytes` are seeded from the host and the process.
pub record Generator : Type 0 where
  pub machine_id : List ℕ
  pub pid_bytes : List ℕ
  pub count : ℕ
  pub last_timestamp : ℕ

-- The clock may have gone back.
unfoldable pub next_time : Generator → ℕ → ℕ
next_time g time = if ltb time g.last_timestamp then g.last_timestamp + 1 else time

unfoldable pub advanced : Generator → ℕ → Generator
unfolding next_time
advanced g time = record g { last_timestamp = next_time g time; count = (g.count + 1) % 2 ^ 24 }

-- The identifier that the variables stand for.
unfoldable pub current : Generator → Result Xid
unfolding four_bytes three_bytes xid
current g = four_bytes g.last_timestamp >>= λ t.
    three_bytes g.count >>= λ c. xid (t ++ g.machine_id ++ g.pid_bytes ++ c)

-- `time` is `int(time.time())`. The variables are set before the bytes are made.
unfoldable pub new : Generator → ℕ → Result Xid × Generator
unfolding advanced current
new g time = (current (advanced g time), advanced g time)

-- The variables after more calls.
unfoldable pub after : Generator → List ℕ → Generator
unfolding new
after g [] = g
after g (time ∷ times) = after (new g time).1 times

-- `fork_safe_reseed`, with what the process and the system's entropy give.
unfoldable pub fork_safe_reseed : Generator → List ℕ → List ℕ → Generator
unfolding from_bytes
fork_safe_reseed g pid_bytes entropy = record g {
  pid_bytes = pid_bytes;
  count = from_bytes 0 entropy;
}
