-- ===== src/Catalog/History/Reborn.antt =====
-- A session on a retired name brings it back.
use forgefs.Base.{
  Bool, true, ◌≡◌, ◌≢◌, refl, sym, ap, ◌∙◌, subst, Option, none, some, List, [], ◌∷◌, ◌++◌, arith,
  nat_eq, list_eq, Str, bytes,
}
use forgefs.Types.{ObjectId, ok}
use forgefs.Catalog.{
  Catalog, RefRow, ReflogRow, find_ref, last_row, get_ref, ref_retired, retired_by,
}
use forgefs.Catalog.Refs.{plain_row}
use forgefs.Catalog.Sessions.{create_session}
use forgefs.Catalog.Audit.{
  FindingCode, chain_finding, chain_findings, audit_reflog, audit_references,
}
use forgefs.Catalog.Audit.Rows.{find_first}
use forgefs.Catalog.Audit.Statements.{create_lem}
use forgefs.Catalog.Audit.Checkins.{insert_namespace-IsFramed, create_session_lem}

right_none : (xs ys : List FindingCode) → xs ++ ys ≡ [] → ys ≡ []
right_none [] ys h = h
right_none (x ∷ xs) ys h = cc

left_none : (xs ys : List FindingCode) → xs ++ ys ≡ [] → xs ≡ []
left_none [] ys h = refl
left_none (x ∷ xs) ys h = cc

-- An entry without an old commit does not continue a log.
broken_chain :
    (l : Option ReflogRow) (e : ReflogRow)
    → retired_by l ≡ true
    → e.old_oid ≡ none
    → chain_finding l e ≢ []
unfolding chain_finding
broken_chain none e h o = cc
broken_chain (some r) e h o = ground arith

-- Where a session is opened on a retired name, this name has a reference again, the session's, and the
-- audit of the references has a finding.
pub create_session_retired :
    (c d : Catalog) (id agent_id : Str) (pinned : ObjectId) (live_ref : Str) (mount_main : Bool)
    → ref_retired c live_ref ≡ true
    → create_session c id agent_id pinned live_ref mount_main ≡ ok d
    → (get_ref d live_ref ≡ some (plain_row live_ref pinned (bytes "commit")))
      × (audit_references d ≢ [])
unfolding get_ref ref_retired audit_references audit_reflog chain_findings
create_session_retired c d id agent_id pinned live_ref mount_main gone h =
    let (c1, c2, p, q, (rows, entries)) =
      create_session_lem c d id agent_id pinned live_ref mount_main h in
    let (_, kept) = insert_namespace-IsFramed c c1 id agent_id pinned live_ref p in
    let (_, e) = create_lem c1 c2 row none agent_id (bytes "session") q in
    let gone1 : retired_by (last_row c1.reflog live_ref) ≡ true =
      subst (λ l. retired_by (last_row l live_ref) ≡ true) (sym kept) gone in
    let log_of : d.reflog ≡ entry ∷ c1.reflog = entries ∙ ap (λ x. x.reflog) e in
    (
      ap (λ l. find_ref l live_ref) (rows ∙ ap (λ x. x.refs) e) ∙ find_first row c1.refs,
      λ clean.
          let tail = right_none _ _ clean in
          let chain : chain_findings d.reflog ≡ [] = left_none _ _ (left_none _ _ tail) in
          broken_chain (last_row c1.reflog live_ref) entry gone1 refl (
            right_none (chain_findings c1.reflog) _
              (subst (λ l. chain_findings l ≡ []) log_of chain)),
    )
  where
    row : RefRow
    row = plain_row live_ref pinned (bytes "commit")

    entry : ReflogRow
    entry = record {
      name = live_ref;
      old_oid = none;
      new_oid = pinned;
      agent_id = agent_id;
      reason = bytes "session";
    }
