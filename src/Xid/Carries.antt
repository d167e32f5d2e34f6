-- ===== src/Xid/Carries.antt =====
-- What the identifiers that `XID.new` makes carry.
use Prim.Native.Nat.{◌^◌}
use ep_governance.Prelude.{
  ℕ, ◌/◌, ◌%◌, ◌<◌, ◌≡◌, refl, sym, subst, List, [], ◌∷◌, ◌++◌, length, arith, ◌==◌, lt→ltb, ltb→lt,
  Bool-cases, inl, inr, ltb, All,
}
use ep_governance.Errors.{ok}
use ep_governance.Xid.{Xid, xid, timestamp, machine, pid, counter, from_bytes, slice}
use ep_governance.Xid.Generator.{
  Generator, four_bytes, three_bytes, current, new, advanced, next_time,
}
use ep_governance.Xid.Text.{IsXid}

-- Three bytes of the machine and two of the process.
abbrev pub IsSeeded : Generator → Type 0
IsSeeded g =
    (length g.machine_id ≡ 3)
    × All (λ b. b < 256) g.machine_id
    × (length g.pid_bytes ≡ 2)
    × All (λ b. b < 256) g.pid_bytes

-- The identifier has twelve bytes and carries what it was made of.
abbrev pub Carries : Xid → Generator → Type 0
Carries x g =
    IsXid x
    × (timestamp x ≡ g.last_timestamp)
    × (machine x ≡ g.machine_id)
    × (pid x ≡ from_bytes 0 g.pid_bytes)
    × (counter x ≡ g.count)

xid-bytes : (raw : List ℕ) (x : Xid) → xid raw ≡ ok x → (length raw ≡ 12) × (x.bytes ≡ raw)
unfolding xid
xid-bytes raw x made = elim (Bool-cases (length raw == 12)) [
  | inl e ↦ (ground (arith, e), ground (arith, e))
  | inr e ↦ absurd (ground (arith, e))
]

-- The bytes of a time and a count, around five others.
made_bytes : ℕ → List ℕ → List ℕ → ℕ → List ℕ
made_bytes t ms ps c =
    (t / 2 ^ 24 ∷ t / 2 ^ 16 % 256 ∷ t / 2 ^ 8 % 256 ∷ t % 256 ∷ [])
    ++ ms
    ++ ps
    ++ (c / 2 ^ 16 ∷ c / 2 ^ 8 % 256 ∷ c % 256 ∷ [])

-- What the identifier of these bytes carries.
CarriesBytes : ℕ → ℕ → List ℕ → List ℕ → Xid → Type 0
CarriesBytes t c ms ps x =
    IsXid x × (timestamp x ≡ t) × (machine x ≡ ms) × (pid x ≡ from_bytes 0 ps) × (counter x ≡ c)

made_fixed :
    (t c m0 m1 m2 p0 p1 : ℕ)
    → t < 2 ^ 32
    → c < 2 ^ 24
    → All (λ b. b < 256) (m0 ∷ m1 ∷ m2 ∷ p0 ∷ p1 ∷ [])
    → CarriesBytes t c
        (m0 ∷ m1 ∷ m2 ∷ [])
        (p0 ∷ p1 ∷ [])
        (record { bytes = made_bytes t (m0 ∷ m1 ∷ m2 ∷ []) (p0 ∷ p1 ∷ []) c })
unfolding CarriesBytes made_bytes timestamp machine pid counter from_bytes slice
made_fixed t c m0 m1 m2 p0 p1 ht hc (a0, (a1, (a2, (b0, (b1, _))))) = (
  (
    refl,
    (
      omega arith,
      (
        omega arith,
        (
          omega arith,
          (
            omega arith,
            (a0, (a1, (a2, (b0, (b1, (omega arith, (omega arith, (omega arith, tt)))))))),
          ),
        ),
      ),
    ),
  ),
  omega arith,
  refl,
  refl,
  omega arith,
)

three : (xs : List ℕ) → length xs ≡ 3 → (a b c : ℕ) × (xs ≡ a ∷ b ∷ c ∷ [])
three (a ∷ b ∷ c ∷ []) h = (a, b, c, refl)
three [] h = absurd (omega arith)
three (a ∷ []) h = absurd (omega arith)
three (a ∷ b ∷ []) h = absurd (omega arith)
three (a ∷ b ∷ c ∷ d ∷ xs) h = absurd (omega arith)

two : (xs : List ℕ) → length xs ≡ 2 → (a b : ℕ) × (xs ≡ a ∷ b ∷ [])
two (a ∷ b ∷ []) h = (a, b, refl)
two [] h = absurd (omega arith)
two (a ∷ []) h = absurd (omega arith)
two (a ∷ b ∷ c ∷ xs) h = absurd (omega arith)

made_carries :
    (t c : ℕ) (ms ps : List ℕ)
    → t < 2 ^ 32
    → c < 2 ^ 24
    → length ms ≡ 3
    → All (λ b. b < 256) ms
    → length ps ≡ 2
    → All (λ b. b < 256) ps
    → CarriesBytes t c ms ps (record { bytes = made_bytes t ms ps c })
made_carries t c ms ps ht hc l3 am l2 aps =
    let (m0, m1, m2, e) = three ms l3 in
    let (p0, p1, k) = two ps l2 in
    let am' : All (λ b. b < 256) (m0 ∷ m1 ∷ m2 ∷ []) = subst (All (λ b. b < 256)) e am in
    let ap' : All (λ b. b < 256) (p0 ∷ p1 ∷ []) = subst (All (λ b. b < 256)) k aps in
    subst (λ ns. CarriesBytes t c ns ps (record { bytes = made_bytes t ns ps c })) (sym e)
      (subst
        (λ ns.
          CarriesBytes t c (m0 ∷ m1 ∷ m2 ∷ []) ns
            (record { bytes = made_bytes t (m0 ∷ m1 ∷ m2 ∷ []) ns c }))
        (sym k) (made_fixed t c m0 m1 m2 p0 p1 ht hc (am'.0, (am'.1.0, (am'.1.1.0, ap')))))

current-ok :
    (g : Generator) (x : Xid)
    → g.count < 2 ^ 24
    → current g ≡ ok x
    → (g.last_timestamp < 2 ^ 32)
      × (xid (made_bytes g.last_timestamp g.machine_id g.pid_bytes g.count) ≡ ok x)
unfolding current four_bytes three_bytes made_bytes xid
current-ok g x hc made =
    let counted = lt→ltb g.count (2 ^ 24) hc in
    elim (Bool-cases (ltb g.last_timestamp (2 ^ 32))) [
      | inl e ↦ (ltb→lt _ _ e, rw (e, counted) at made)
      | inr e ↦ absurd (ground (arith, (rw (e) at made)))
    ]

-- What an identifier that was made carries.
current-Carries :
    (g : Generator) (x : Xid) → IsSeeded g → g.count < 2 ^ 24 → current g ≡ ok x → Carries x g
unfolding CarriesBytes
current-Carries g x (l3, am, l2, aps) hc made =
    let (ht, made') = current-ok g x hc made in
    let (_, e) = xid-bytes _ x made' in
    subst
      (λ bs. CarriesBytes g.last_timestamp g.count g.machine_id g.pid_bytes (record { bytes = bs }))
      (sym e) (made_carries g.last_timestamp g.count g.machine_id g.pid_bytes ht hc l3 am l2 aps)

-- Each identifier that `new` makes has twelve bytes and carries the generator's second, machine,
-- process and counter.
pub new-Carries :
    (g : Generator) (time : ℕ) (x : Xid)
    → IsSeeded g
    → (new g time).0 ≡ ok x
    → Carries x (new g time).1
unfolding new advanced next_time
new-Carries g time x seeded made = current-Carries (new g time).1 x seeded (omega arith) made
