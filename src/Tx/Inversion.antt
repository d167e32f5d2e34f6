-- ===== src/Tx/Inversion.antt =====
-- What a successful transaction did: its parts succeeded, one after another.
use ep_governance.Prelude.{
  ◌≡◌, refl, Bool, true, false, Option, none, some, arith, ◌⊎◌, inl, inr, if◌then◌else◌,
}
use ep_governance.Db.{Db}
use ep_governance.Errors.{Error, Result, ok, err}
use ep_governance.Tx.{Tx, pure, require, guard, gets, transaction, ◌>>=◌, continue}

pub bind-ok :
    {A B : Type 0} (m : Tx A) (f : A → Tx B) (db : Db) (b : B) (db' : Db)
    → (m >>= f) db ≡ ok (b, db')
    → (a : A) × (mid : Db) × (m db ≡ ok (a, mid)) × (f a mid ≡ ok (b, db'))
unfolding ◌>>=◌
bind-ok {A} {B} m f db b db' ran = go (m db) refl ran
  where
    go :
        (r : Result (A × Db))
        → m db ≡ r
        → continue r f ≡ ok (b, db')
        → (a : A) × (mid : Db) × (m db ≡ ok (a, mid)) × (f a mid ≡ ok (b, db'))
    go (ok (a, mid)) e h = (a, mid, e, h)
    go (err x) e h = absurd (cc)

-- A check passed and changed nothing.
pub guard-ok :
    {B : Type 0} (test : Bool) (e : Error) (f : Unit {0} → Tx B) (db : Db) (b : B) (db' : Db)
    → (guard test e >>= f) db ≡ ok (b, db')
    → (test ≡ true) × (f tt db ≡ ok (b, db'))
unfolding ◌>>=◌
guard-ok true e f db b db' ran = (refl, ran)
guard-ok false e f db b db' ran = absurd (cc)

-- What was demanded is there.
pub require-ok :
    {A B : Type 0} (o : Option A) (e : Error) (f : A → Tx B) (db : Db) (b : B) (db' : Db)
    → (require o e >>= f) db ≡ ok (b, db')
    → (a : A) × (o ≡ some a) × (f a db ≡ ok (b, db'))
unfolding ◌>>=◌
require-ok (some a) e f db b db' ran = (a, refl, ran)
require-ok none e f db b db' ran = absurd (cc)

-- A query answered and changed nothing.
pub gets-ok :
    {A B : Type 0} (q : Db → A) (f : A → Tx B) (db : Db) (b : B) (db' : Db)
    → (gets q >>= f) db ≡ ok (b, db')
    → f (q db) db ≡ ok (b, db')
unfolding ◌>>=◌
gets-ok q f db b db' ran = ran

-- A transaction that reports success committed what its code did.
pub transaction-ok :
    {A : Type 0} (m : Tx A) (db : Db) (a : A) (db' : Db)
    → transaction m db ≡ (ok a, db')
    → m db ≡ ok (a, db')
unfolding transaction
transaction-ok {A} m db a db' ran = go (m db) refl
  where
    go : (r : Result (A × Db)) → m db ≡ r → m db ≡ ok (a, db')
    go (ok (x, mid)) e = ground (arith, e)
    go (err x) e = absurd (ground (arith, e))

pub pure-ok :
    {A : Type 0} (a : A) (db : Db) (b : A) (db' : Db)
    → pure a db ≡ ok (b, db')
    → (a ≡ b) × (db ≡ db')
unfolding pure
pure-ok a db b db' ran = (cc, cc)

pub if-ok :
    {A : Type 0} (test : Bool) (m n : Tx A) (db : Db) (b : A) (db' : Db)
    → (if test then m else n) db ≡ ok (b, db')
    → ((test ≡ true) × (m db ≡ ok (b, db'))) ⊎ ((test ≡ false) × (n db ≡ ok (b, db')))
if-ok true m n db b db' ran = inl (refl, ran)
if-ok false m n db b db' ran = inr (refl, ran)
