-- ===== src/WorkClaims.antt =====
-- `WorkClaimRepository` of src/ep_governance/db/repositories.py on ep_work_claims, with the unique
-- index of each database: migrations/postgres/001_init.sql has it on the active rows of a branch and
-- a region, migrations/sqlite/001_init.sql on all of them.
pub mod Exclusive
use ep_governance.Prelude.{
  String, Bool, true, false, ◌&&◌, ◌||◌, Option, none, some, List, [], ◌∷◌, ◌++◌, any, filter,
  str_eq, if◌then◌else◌, codes,
}
use ep_governance.Errors.{Result, ok, err, integrity_error}
use ep_governance.Order.{text_ltb}
use ep_governance.Table.{affects, update_rows}

pub data Dialect : Type 0 where
  sqlite postgres : Dialect

pub data ClaimStatus : Type 0 where
  active completed released : ClaimStatus

pub record WorkClaim : Type 0 where
  pub id : String
  pub agent_id : String
  pub branch_id : String
  pub region : String
  pub status : ClaimStatus
  pub claimed_at : String
  pub released_at : Option String

abbrev pub claim_key : WorkClaim → String
claim_key c = c.id

unfoldable pub is_active : WorkClaim → Bool
is_active c = elim c.status [ active ↦ true | completed ↦ false | released ↦ false ]

unfoldable pub same_region : String → String → WorkClaim → Bool
same_region branch_id region c = str_eq c.branch_id branch_id && str_eq c.region region

-- A row that the unique index sets against a new active one.
unfoldable pub conflicts : Dialect → String → String → WorkClaim → Bool
unfolding same_region is_active
conflicts sqlite branch_id region c = same_region branch_id region c
conflicts postgres branch_id region c = same_region branch_id region c && is_active c

unfoldable pub new_claim : String → String → String → String → String → WorkClaim
new_claim id now agent_id branch_id region = record {
  id = id;
  agent_id = agent_id;
  branch_id = branch_id;
  region = region;
  status = active;
  claimed_at = now;
  released_at = none;
}

-- An identifier that is taken: SQLite's INSERT OR IGNORE ignores it too, and PostgreSQL's
-- ON CONFLICT names the index only.
unfoldable pub taken : Dialect → Result (Option WorkClaim)
taken sqlite = ok none
taken postgres = err integrity_error

-- `none` where the region is claimed.
unfoldable pub claim :
    Dialect
    → String
    → String
    → String
    → String
    → String
    → List WorkClaim
    → Result (Option WorkClaim) × List WorkClaim
unfolding conflicts new_claim taken
claim dialect id now agent_id branch_id region rows =
    let c = new_claim id now agent_id branch_id region in
    if any (conflicts dialect branch_id region) rows
    then (ok none, rows)
    else if any (λ r. str_eq r.id id) rows
    then (taken dialect, rows)
    else (ok (some c), rows ++ c ∷ [])

unfoldable pub set_released : String → WorkClaim → WorkClaim
set_released now c = record c { status = released; released_at = some now }

-- Whether a row was affected, and the rows.
unfoldable pub release : String → String → List WorkClaim → Bool × List WorkClaim
unfolding is_active set_released
release claim_id now rows = (
  affects claim_key is_active claim_id rows,
  update_rows claim_key is_active (set_released now) claim_id rows,
)

insert_claimed : WorkClaim → List WorkClaim → List WorkClaim
insert_claimed c [] = c ∷ []
insert_claimed c (d ∷ rest) =
    if text_ltb (codes d.claimed_at) (codes c.claimed_at)
    then d ∷ insert_claimed c rest
    else c ∷ d ∷ rest

by_claim_time : List WorkClaim → List WorkClaim
unfolding insert_claimed
by_claim_time [] = []
by_claim_time (c ∷ rest) = insert_claimed c (by_claim_time rest)

unfoldable pub list_active : String → List WorkClaim → List WorkClaim
unfolding is_active by_claim_time
list_active branch_id rows =
    by_claim_time (filter (λ c. str_eq c.branch_id branch_id && is_active c) rows)

-- The operations on the table, one after another.
pub data Claims (dialect : Dialect) (rows : List WorkClaim) : List WorkClaim → Type 0 where
  begin : Claims dialect rows rows
  claims :
      {mid : List WorkClaim} (id now agent_id branch_id region : String)
      → Claims dialect rows mid
      → Claims dialect rows (claim dialect id now agent_id branch_id region mid).1
  releases :
      {mid : List WorkClaim} (id now : String)
      → Claims dialect rows mid
      → Claims dialect rows (release id now mid).1
