-- ===== src/Tx.antt =====
-- Code that runs in one database transaction (src/ep_governance/db/transactions.py `transaction`,
-- or a connection that is committed at the end): an exception undoes all its writes.
pub mod Along
pub mod Inversion
use ep_governance.Prelude.{Bool, true, false, Option, none, some}
use ep_governance.Db.{Db}
use ep_governance.Errors.{Error, Result, ok, err}

abbrev pub Tx : Type 0 → Type 0
Tx A = Db → Result (A × Db)

unfoldable pub pure : {A : Type 0} → A → Tx A
pure a db = ok (a, db)

unfoldable pub raise : {A : Type 0} → Error → Tx A
raise e db = err e

unfoldable pub lift : {A : Type 0} → Result A → Tx A
lift (ok a) db = ok (a, db)
lift (err e) db = err e

-- `if x is None: raise e`
unfoldable pub require : {A : Type 0} → Option A → Error → Tx A
require none e db = err e
require (some a) e db = ok (a, db)

-- `if not b: raise e`
unfoldable pub guard : Bool → Error → Tx (Unit {0})
guard true e db = ok (tt, db)
guard false e db = err e

-- A query.
unfoldable pub gets : {A : Type 0} → (Db → A) → Tx A
gets f db = ok (f db, db)

abbrev pub continue : {A B : Type 0} → Result (A × Db) → (A → Tx B) → Result (B × Db)
continue (ok (a, db)) f = f a db
continue (err e) f = err e

infixl 5 ◌>>=◌ ◌>>◌
-- Opening this opens the primitives too.
unfoldable pub ◌>>=◌ : {A B : Type 0} → Tx A → (A → Tx B) → Tx B
unfolding pure raise lift require guard gets
◌>>=◌ m f db = continue (m db) f

abbrev pub ◌>>◌ : {A B : Type 0} → Tx A → Tx B → Tx B
m >> n = m >>= λ _. n

-- `with transaction(conn)`: commit on success, roll back on an exception.
unfoldable pub transaction : {A : Type 0} → Tx A → Db → Result A × Db
transaction m db = elim (m db) [ ok (a, db') ↦ (ok a, db') | err e ↦ (err e, db) ]
