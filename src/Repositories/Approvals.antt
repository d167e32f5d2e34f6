-- ===== src/Repositories/Approvals.antt =====
-- `ApprovalRepository` of repositories.py.
use ep_governance.Prelude.{
  String, Bool, true, false, ◌&&◌, Option, none, some, List, [], ◌∷◌, ◌++◌, any, str_eq,
  if◌then◌else◌,
}
use ep_governance.Db.{Db, ApprovalRequest, RequestStatus, pending, approved, denied}
use ep_governance.Table.{find, insert_row, affects, update_rows, latest}
use ep_governance.Tx.{Tx, pure, lift, gets, ◌>>=◌, ◌>>◌}

abbrev pub request_key : ApprovalRequest → String
request_key r = r.id

abbrev pub is_pending : ApprovalRequest → Bool
is_pending r = elim r.status [ pending ↦ true | approved ↦ false | denied ↦ false ]

unfoldable pub create_request :
    String → String → String → String → String → Option String → Tx ApprovalRequest
create_request id now transition_id requested_by justification policy_id = do
  let request : ApprovalRequest = record {
    id = id;
    transition_id = transition_id;
    policy_id = policy_id;
    requested_by = requested_by;
    justification = justification;
    status = pending;
    decided_by = none;
    decided_at = none;
    decision = none;
    reason = none;
    created_at = now;
    updated_at = now;
  }
  rows ← gets (λ db. db.approval_requests)
  requests ← lift (insert_row request_key request rows)
  λ db. pure request (record db { approval_requests = requests })

unfoldable pub get_request : String → Db → Option ApprovalRequest
get_request id db = find request_key id db.approval_requests

unfoldable pub find_pending_by_transition : String → Db → Option ApprovalRequest
find_pending_by_transition transition_id db =
    latest (λ r. str_eq r.transition_id transition_id && is_pending r) (λ r. r.created_at)
      db.approval_requests

-- `decision` is 'approved' or 'denied'.
abbrev decision_status : String → RequestStatus
decision_status decision = if str_eq decision "approved" then approved else denied

abbrev pub set_decision : String → String → String → String → ApprovalRequest → ApprovalRequest
set_decision decided_by decision reason now r = record r {
  decided_by = some decided_by;
  decided_at = some now;
  decision = some decision;
  reason = some reason;
  status = decision_status decision;
  updated_at = now;
}

-- Only a pending request is decided; `none` where another approver was first.
unfoldable pub decide : String → String → String → String → String → Tx (Option ApprovalRequest)
unfolding get_request
decide request_id decided_by decision reason now = do
  updated ← gets (λ db. affects request_key is_pending request_id db.approval_requests)
  if updated
      then (do
        λ db. pure tt (record db {
          approval_requests =
              update_rows request_key is_pending (set_decision decided_by decision reason now)
                request_id db.approval_requests;
        })
        gets (get_request request_id))
      else pure none

-- INSERT OR IGNORE of each pair.
add_pair : String → String → List (String × String) → List (String × String)
add_pair request_id policy_id pairs =
    if any (λ p. str_eq p.0 request_id && str_eq p.1 policy_id) pairs
    then pairs
    else pairs ++ (request_id, policy_id) ∷ []

add_pairs : String → List String → List (String × String) → List (String × String)
unfolding add_pair
add_pairs request_id [] pairs = pairs
add_pairs request_id (p ∷ ps) pairs = add_pairs request_id ps (add_pair request_id p pairs)

unfoldable pub add_policies : String → List String → Tx (Unit {0})
unfolding add_pairs
add_policies request_id policy_ids = λ db.
    pure tt (record db { approval_policies = add_pairs request_id policy_ids db.approval_policies })
