-- ===== src/Repositories/Authorizations.antt =====
-- `AuthorizationRepository` of repositories.py.
use ep_governance.Prelude.{
  String, Bool, true, not, ◌&&◌, Option, none, some, str_eq, codes, if◌then◌else◌,
}
use ep_governance.Db.{Db, Authorization}
use ep_governance.Order.{text_ltb}
use ep_governance.Table.{find, insert_row, affects, update_rows}
use ep_governance.Tx.{Tx, pure, lift, gets, ◌>>=◌, ◌>>◌}

abbrev pub authorization_key : Authorization → String
authorization_key a = a.id

unfoldable pub get_authorization : String → Db → Option Authorization
get_authorization id db = find authorization_key id db.authorizations

unfoldable pub insert_authorization : Authorization → Tx (Unit {0})
insert_authorization a = do
  rows ← gets (λ db. db.authorizations)
  authorizations ← lift (insert_row authorization_key a rows)
  λ db. pure tt (record db { authorizations = authorizations })

-- used = FALSE AND expires_at > :now AND token_hash = :token_hash, the last where one is given.
unfoldable pub claimable : Option String → String → Authorization → Bool
claimable token_hash now a =
    not a.used
    && text_ltb (codes now) (codes a.expires_at)
    && (elim token_hash [ none ↦ true | some h ↦ str_eq a.token_hash h ])

abbrev pub set_used : String → Authorization → Authorization
set_used now a = record a { used = true; used_at = some now }

-- UPDATE … RETURNING: the row, or `none` where no row fits. The proxy's principal is not stored.
unfoldable pub claim_authorization :
    String → String → Option String → String → Tx (Option Authorization)
unfolding get_authorization
claim_authorization id proxy_principal_id token_hash now = do
  claimed ← gets (λ db. affects authorization_key (claimable token_hash now) id db.authorizations)
  if claimed
      then (do
        λ db. pure tt (record db {
          authorizations =
              update_rows authorization_key (claimable token_hash now) (set_used now) id
                db.authorizations;
        })
        gets (get_authorization id))
      else pure none

abbrev pub any_row : Authorization → Bool
any_row _ = true

abbrev pub set_attempt : String → Authorization → Authorization
set_attempt attempt a = record a { execution_attempt_id = some attempt }

unfoldable pub update_execution_attempt_id : String → String → Tx Bool
update_execution_attempt_id id attempt = do
  updated ← gets (λ db. affects authorization_key any_row id db.authorizations)
  λ db. pure updated (record db {
    authorizations =
        update_rows authorization_key any_row (set_attempt attempt) id db.authorizations;
  })
