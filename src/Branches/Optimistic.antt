-- ===== src/Branches/Optimistic.antt =====
-- What a commit that succeeds has found and done, and why no two of them share a version.
use ep_governance.Prelude.{
  ℕ, ◌+◌, String, ◌≡◌, refl, sym, ap, ◌∙◌, Bool, true, Option, some, arith, ◌==◌, str_eq_refl,
  Option-cases, inl, inr,
}
use ep_governance.Branches.{
  CommitRequest, commit, committable, head_matches, finish_commit, realise,
}
use ep_governance.Db.{Db, Transition, Stage, succeeded}
use ep_governance.Errors.{ok}
use ep_governance.Frames.{write_event-beside, update_result-beside, update_stage-beside}
use ep_governance.History.{stage_at, stage_of, stage_at-update_stage}
use ep_governance.Repositories.Branches.{
  branch_key, get_branch, get_head, update_head, at_version, set_head,
}
use ep_governance.Repositories.Transitions.{get_transition, transition_key, update_stage}
use ep_governance.Service.{Service, Env}
use ep_governance.Stages.{is_in}
use ep_governance.Table.{find, affects}
use ep_governance.Table.Lookup.{find-update_rows}
use ep_governance.Tx.{◌>>=◌}
use ep_governance.Tx.Inversion.{bind-ok, guard-ok, require-ok, gets-ok, pure-ok}
use ep_governance.Walk.Run.{Run}
use ep_governance.Walk.Versions.{version_at, Run-Rises}

==-eq : (a b : ℕ) → (a == b) ≡ true → a ≡ b
==-eq a b h = ground arith

head-version : (b : String) (db : Db) → (get_head b db).1 ≡ version_at b db
unfolding get_head get_branch
head-version b db = ground arith

-- What the update of the head did.
update_head-moved :
    (k node : String) (v : ℕ) (db : Db) (updated : Bool) (db' : Db)
    → update_head k node v db ≡ ok (updated, db')
    → updated ≡ true
    → get_head k db' ≡ (some node, v + 1)
unfolding update_head get_head get_branch affects ◌>>=◌
update_head-moved k node v db updated db' ran t = ground (
  arith,
  str_eq_refl k,
  find-update_rows branch_key (at_version v) (set_head node) k k db.branches (λ r. refl),
)

-- A guarded update that affected a row moved it.
update_stage-moved :
    (k : String) (to s : Stage) (now : String) (db : Db) (updated : Bool) (db' : Db)
    → update_stage k to (some s) now db ≡ ok (updated, db')
    → updated ≡ true
    → stage_at k db' ≡ some to
update_stage-moved k to s now db updated db' ran t =
    stage_at-update_stage k to (some s) now db updated db' k ran
    ∙ elim (Option-cases (find transition_key k db.transitions)) [
      | inl e ↦ absurd (unfold update_stage affects ◌>>=◌ in ground (arith, e))
      | inr (x, e) ↦ unfold update_stage affects ◌>>=◌ in ground (arith, e, str_eq_refl k)
    ]

heads_of_same :
    (k : String) (db db' : Db) → db'.branches ≡ db.branches → get_head k db' ≡ get_head k db
unfolding get_head get_branch
heads_of_same k db db' same = rw same refl

finish_commit-finishes :
    (svc : Service) (env : Env) (r : CommitRequest) (stage : Stage) (head : Option String) (db : Db)
    (n : String) (v : ℕ) (db' : Db)
    → finish_commit svc env r stage head db ≡ ok ((n, v), db')
    → (env.xid 0 ≡ n)
      × (r.expected_version + 1 ≡ v)
      × (db'.branches ≡ db.branches)
      × (stage_at r.transition_id db' ≡ some succeeded)
unfolding finish_commit
finish_commit-finishes svc env r stage head db n v db' ran =
    let (u, d1, stored, r1) = bind-ok _ _ db (n, v) db' ran in
    let (advanced, d2, staged, r2) = bind-ok _ _ d1 (n, v) db' r1 in
    let (went, r3) = guard-ok _ _ _ d2 (n, v) db' r2 in
    let (e, d3, event, r4) = bind-ok _ _ d2 (n, v) db' r3 in
    let (same, same_db) = pure-ok _ d3 (n, v) db' r4 in
    let logged = (write_event-beside svc _ _ _ _ _ _ _).at d2 e d3 event in
    let b1 = ((update_result-beside _ _ _ _ _).at db u d1 stored).2 in
    let b2 = ((update_stage-beside _ _ _ _).at d1 advanced d2 staged).2 in
    (
      ap (λ p. p.0) same,
      ap (λ p. p.1) same,
      ap (λ d. d.branches) (sym same_db) ∙ logged.2 ∙ b2 ∙ b1,
      ap (stage_at r.transition_id) (sym same_db)
          ∙ ap (λ rows. stage_of (find transition_key r.transition_id rows)) logged.0
          ∙ update_stage-moved r.transition_id succeeded stage (env.now 3) d1 advanced d2 staged
              went,
    )

realise-advances :
    (svc : Service) (env : Env) (r : CommitRequest) (stage : Stage) (head : Option String) (db : Db)
    (n : String) (v : ℕ) (db' : Db)
    → realise svc env r stage head db ≡ ok ((n, v), db')
    → (r.expected_version + 1 ≡ v)
      × (get_head r.branch_id db' ≡ (some n, v))
      × (stage_at r.transition_id db' ≡ some succeeded)
unfolding realise
realise-advances svc env r stage head db n v db' ran =
    let (u1, d1, made, r1) = bind-ok _ _ db (n, v) db' ran in
    let (u2, d2, linked, r2) = bind-ok _ _ d1 (n, v) db' r1 in
    let (updated, d3, moved, r3) = bind-ok _ _ d2 (n, v) db' r2 in
    let (fresh, r4) = guard-ok _ _ _ d3 (n, v) db' r3 in
    let (node, version, branches, stage_now) =
      finish_commit-finishes svc env r stage head d3 n v db' r4 in
    let head_now : get_head r.branch_id d3 ≡ (some (env.xid 0), r.expected_version + 1) =
      update_head-moved r.branch_id (env.xid 0) r.expected_version d2 updated d3 moved fresh in
    (
      version,
      heads_of_same r.branch_id d3 db' branches
          ∙ head_now
          ∙ ap (λ m. (some m, r.expected_version + 1)) node
          ∙ ap (λ w. (some n, w)) version,
      stage_now,
    )

-- A commit that succeeds started from a transition that was executing or uncertain and from the
-- expected head and version of the branch; the branch's head is the new node then, its version is
-- one higher, and the transition has succeeded.
pub commit-advances :
    (svc : Service) (env : Env) (r : CommitRequest) (db : Db) (n : String) (v : ℕ) (db' : Db)
    → commit svc env r db ≡ ok ((n, v), db')
    → (t : Transition) × (get_transition r.transition_id db ≡ some t)
      × (is_in t.stage committable ≡ true)
      × (head_matches r.expected_head_id (get_head r.branch_id db).0 ≡ true)
      × (version_at r.branch_id db ≡ r.expected_version)
      × (v ≡ r.expected_version + 1)
      × (get_head r.branch_id db' ≡ (some n, v))
      × (stage_at r.transition_id db' ≡ some succeeded)
unfolding commit
commit-advances svc env r db n v db' ran =
    let (t, found, r1) = require-ok _ _ _ db (n, v) db' (gets-ok _ _ db (n, v) db' ran) in
    let (ready, r2) = guard-ok _ _ _ db (n, v) db' r1 in
    let (head, r3) = guard-ok _ _ _ db (n, v) db' (gets-ok _ _ db (n, v) db' r2) in
    let (version, r4) = guard-ok _ _ _ db (n, v) db' r3 in
    let (risen, head_now, done) =
      realise-advances svc env r t.stage (get_head r.branch_id db).0 db n v db' r4 in
    (
      t,
      found,
      ready,
      head,
      sym (head-version r.branch_id db) ∙ ==-eq _ r.expected_version version,
      sym risen,
      head_now,
      done,
    )

-- Of the commits to a branch, at most one succeeds for an expected version: after a commit that
-- succeeded and any run, no commit to the branch that expects this version succeeds.
pub commit-once :
    (svc : Service) (env : Env) (r : CommitRequest) (db : Db) (n : String) (v : ℕ) (db' later : Db)
    → commit svc env r db ≡ ok ((n, v), db')
    → Run svc db' later
    → (env' : Env) (r' : CommitRequest) (n' : String) (v' : ℕ) (end : Db)
    → r'.branch_id ≡ r.branch_id
    → r'.expected_version ≡ r.expected_version
    → ¬ (commit svc env' r' later ≡ ok ((n', v'), end))
commit-once svc env r db n v db' later first run env' r' n' v' end branch version second =
    let (_, _, _, _, _, risen, head_now, _) = commit-advances svc env r db n v db' first in
    let (_, _, _, _, expected, _, _, _) = commit-advances svc env' r' later n' v' end second in
    let rises = Run-Rises svc r.branch_id run in
    let at_v : version_at r.branch_id db' ≡ v =
      sym (head-version r.branch_id db') ∙ ap (λ h. h.1) head_now in
    let at_later : version_at r.branch_id later ≡ r'.expected_version =
      ap (λ b. version_at b later) (sym branch) ∙ expected in
    absurd (omega (arith, rises, at_v, at_later, risen, version))
