-- ===== src/Audit.antt =====
-- src/ep_governance/audit.py: the hash chain of each lattice, its writer and its verifier.
pub mod Chain
pub mod Tampering
use ep_governance.Prelude.{
  ℕ, suc, ◌+◌, String, Bool, true, false, not, ◌&&◌, ◌||◌, Option, none, some, List, [], ◌∷◌, ◌++◌,
  any, filter, str_eq, ◌==◌, leb, if◌then◌else◌,
}
use ep_governance.Db.{Db, AuditHead, AuditEvent}
use ep_governance.Errors.{audit_write_error, integrity_error}
use ep_governance.Service.{Service}
use ep_governance.Table.{find, update_rows}
use ep_governance.Tx.{Tx, pure, require, guard, gets, ◌>>=◌, ◌>>◌}
use ep_governance.Value.{Value, integer, text, object, field, end}
use ep_governance.Value.Canonical.{canonical_json}

-- '0' * 64
abbrev pub genesis_hash : String
genesis_hash = "0000000000000000000000000000000000000000000000000000000000000000"

-- The envelope has every field of the event but its hash.
unfoldable pub to_envelope : AuditEvent → Value
to_envelope e = object (
    field "sequence" (integer e.sequence) (
      field "event_id" (text e.id) (
        field "lattice_id" (text e.lattice_id) (
          field "event_type" (text e.event_type) (
            field "event_data" e.event_data (
              field "actor_principal_id" (text e.actor_principal_id) (
                field "authenticated_caller_id" (text e.authenticated_caller_id) (
                  field "event_writer_id" (text e.event_writer_id) (
                    field "created_at" (text e.created_at)
                      (field "previous_hash" (text e.previous_hash) end))))))))))

unfoldable pub recompute_hash : Service → AuditEvent → String
recompute_hash svc e = svc.sha256 (canonical_json (to_envelope e))

abbrev pub head_key : AuditHead → String
head_key h = h.lattice_id

abbrev pub any_head : AuditHead → Bool
any_head _ = true

abbrev pub advance_head : ℕ → String → AuditHead → AuditHead
advance_head sequence hash h = record h { last_sequence = sequence; last_hash = hash }

-- The primary key of ep_events, and its unique index on (lattice_id, sequence).
abbrev pub clashes : AuditEvent → AuditEvent → Bool
clashes e f = str_eq f.id e.id || (str_eq f.lattice_id e.lattice_id && (f.sequence == e.sequence))

-- The event that follows the head `h`, sealed by its hash.
unfoldable pub next_event :
    Service → String → String → AuditHead → String → Value → String → String → AuditEvent
next_event svc event_id created_at h event_type event_data actor caller =
    let e : AuditEvent = record {
      id = event_id;
      lattice_id = h.lattice_id;
      sequence = h.last_sequence + 1;
      event_type = event_type;
      event_data = event_data;
      previous_hash = h.last_hash;
      event_hash = "";
      actor_principal_id = actor;
      authenticated_caller_id = caller;
      event_writer_id = svc.ep_service_principal_id;
      created_at = created_at;
    } in
    record e { event_hash = recompute_hash svc e }

-- The INSERT into ep_events and the UPDATE of ep_audit_heads.
unfoldable pub append_event : AuditEvent → Tx (Unit {0})
append_event e = do
  events ← gets (λ db. db.events)
  guard (not (any (clashes e) events)) integrity_error
  λ db. pure tt (record db {
    events = events ++ e ∷ [];
    audit_heads =
        update_rows head_key any_head (advance_head e.sequence e.event_hash) e.lattice_id
          db.audit_heads;
  })

-- Inside the caller's transaction; the row lock on the head is the transaction's.
unfoldable pub write_event_in_transaction :
    Service → String → String → String → String → Value → String → String → Tx AuditEvent
unfolding next_event append_event
write_event_in_transaction svc event_id created_at lattice_id event_type event_data actor caller =
    do
      found ← gets (λ db. find head_key lattice_id db.audit_heads)
      head ← require found audit_write_error
      let e = next_event svc event_id created_at head event_type event_data actor caller
      append_event e
      pure e

-- `AuditVerifier.verify`: the loop over a lattice's rows, in the order of their sequence.
unfoldable pub verify_rows : Service → String → List AuditEvent → Bool
verify_rows svc expected [] = true
verify_rows svc expected (e ∷ rows) =
    if not (str_eq (recompute_hash svc e) e.event_hash)
    then false
    else if not (str_eq e.previous_hash expected)
    then false
    else verify_rows svc e.event_hash rows

abbrev pub of_lattice : String → AuditEvent → Bool
of_lattice lattice_id e = str_eq e.lattice_id lattice_id

-- ORDER BY sequence
insert_row_by_sequence : AuditEvent → List AuditEvent → List AuditEvent
insert_row_by_sequence e [] = e ∷ []
insert_row_by_sequence e (f ∷ rows) =
    if leb e.sequence f.sequence then e ∷ f ∷ rows else f ∷ insert_row_by_sequence e rows

unfoldable pub by_sequence : List AuditEvent → List AuditEvent
unfolding insert_row_by_sequence
by_sequence [] = []
by_sequence (e ∷ rows) = insert_row_by_sequence e (by_sequence rows)

-- The rows that the verifier reads.
unfoldable pub lattice_rows : String → Db → List AuditEvent
unfolding by_sequence
lattice_rows lattice_id db = by_sequence (filter (of_lattice lattice_id) db.events)

unfoldable pub verify : Service → String → Db → Bool
unfolding verify_rows lattice_rows
verify svc lattice_id db = verify_rows svc genesis_hash (lattice_rows lattice_id db)
