-- ===== src/Tx/Along.antt =====
-- A successful transaction takes the database along a preorder `R`: one rule for each way to
-- build a transaction.
use ep_governance.Prelude.{◌≡◌, refl, subst, Bool, true, false, Option, none, some, if◌then◌else◌}
use ep_governance.Db.{Db}
use ep_governance.Errors.{Error, Result, ok, err}
use ep_governance.Tx.{Tx, pure, raise, lift, require, guard, gets, ◌>>=◌, continue, transaction}

pub record Along {A : Type 0} (R : Db → Db → Type 0) (m : Tx A) : Type 0 where
  pub at : (db : Db) (a : A) (db' : Db) → m db ≡ ok (a, db') → R db db'

pub record Preorder (R : Db → Db → Type 0) : Type 0 where
  pub reflexive : (db : Db) → R db db
  pub transitive : (a b c : Db) → R a b → R b c → R a c

module _ {R : Db → Db → Type 0} (P : Preorder R) {A : Type 0} where
  pub unchanged :
      (db db' : Db) (a a' : A) → ◌≡◌ {A = Result (A × Db)} (ok (a, db)) (ok (a', db')) → R db db'
  unchanged db db' a a' h = let e : db ≡ db' = cc in subst (R db) e (P.reflexive db)

  pub Along-pure : (a : A) → Along R (pure a)
  unfolding pure
  Along-pure a = record { at = λ db b db' h. unchanged db db' a b h }

  pub Along-raise : (e : Error) → Along R (raise {A = A} e)
  unfolding raise
  Along-raise e = record { at = λ db b db' h. absurd (cc) }

  pub Along-lift : (r : Result A) → Along R (lift r)
  unfolding lift
  Along-lift (ok a) = record { at = λ db b db' h. unchanged db db' a b h }
  Along-lift (err e) = record { at = λ db b db' h. absurd (cc) }

  pub Along-require : (o : Option A) (e : Error) → Along R (require o e)
  unfolding require
  Along-require (some a) e = record { at = λ db b db' h. unchanged db db' a b h }
  Along-require none e = record { at = λ db b db' h. absurd (cc) }

  pub Along-gets : (f : Db → A) → Along R (gets f)
  unfolding gets
  Along-gets f = record { at = λ db b db' h. unchanged db db' (f db) b h }

  pub Along-if : (b : Bool) (m n : Tx A) → Along R m → Along R n → Along R (if b then m else n)
  Along-if true m n km kn = km
  Along-if false m n km kn = kn

module _ {R : Db → Db → Type 0} (P : Preorder R) where
  pub Along-guard : (b : Bool) (e : Error) → Along R (guard b e)
  unfolding guard
  Along-guard true e = record { at = λ db b db' h. unchanged P db db' tt b h }
  Along-guard false e = record { at = λ db b db' h. absurd (cc) }

  pub Along-bind :
      {A B : Type 0} (m : Tx A) (f : A → Tx B)
      → Along R m
      → ((a : A) → Along R (f a))
      → Along R (m >>= f)
  unfolding ◌>>=◌
  Along-bind {A} {B} m f km kf = record { at = λ db b db' h. go db b db' (m db) refl h }
    where
      go :
          (db : Db) (b : B) (db' : Db) (r : Result (A × Db))
          → m db ≡ r
          → continue r f ≡ ok (b, db')
          → R db db'
      go db b db' (ok (a, mid)) e h =
          P.transitive db mid db' (km.at db a mid e) ((kf a).at mid b db' h)
      go db b db' (err x) e h = absurd (cc)

-- A transaction that moves along `R` moves along every coarser relation.
pub Along-mono :
    {A : Type 0} {R S : Db → Db → Type 0} (m : Tx A)
    → ((db db' : Db) → R db db' → S db db')
    → Along R m
    → Along S m
Along-mono m weaken km = record { at = λ db a db' ran. weaken db db' (km.at db a db' ran) }

module _ {R : Db → Db → Type 0} (P : Preorder R) {B : Type 0} where
  -- What follows a guard may use that it passed.
  pub Along-checked :
      (b : Bool) (e : Error) (f : Unit {0} → Tx B)
      → (b ≡ true → (u : Unit {0}) → Along R (f u))
      → Along R (guard b e >>= f)
  Along-checked true e f kf = Along-bind P (guard true e) f (Along-guard P true e) (kf refl)
  Along-checked false e f kf = record { at = λ db a db' ran. absurd (unfold ◌>>=◌ in cc ran) }

-- Whether it commits or rolls back, a transaction takes the database along the preorder.
pub transaction-Along :
    {R : Db → Db → Type 0} {A : Type 0} (P : Preorder R) (m : Tx A) (db : Db)
    → Along R m
    → R db (transaction m db).1
unfolding transaction
transaction-Along {R} {A} P m db km = go (m db) refl
  where
    go : (r : Result (A × Db)) → m db ≡ r → R db (transaction m db).1
    go (ok (a, db')) e = rw (e, transaction) (km.at db a db' e)
    go (err x) e = rw (e, transaction) (P.reflexive db)
