-- ===== src/Tests/Catalog.antt =====
-- A session that loses a checkin, a seal and an abandoned fork, on concrete catalogs.
use forgefs.Base.{
  ◌≡◌, ◌≢◌, refl, true, false, none, some, [], ◌∷◌, bytes, Str, starts_with, strip_prefix,
  strip_suffix_char, split,
}
use forgefs.Types.{ok}
use forgefs.Catalog.{
  Catalog, RefRow, ReflogRow, MountRow, empty, get_ref, ref_exists, ref_retired, deny_retired,
  insert_row, update_row, delete_row, insert_intros,
}
use forgefs.Catalog.Names.{
  validate_ref_kind, validate_ref_name, validate_inbox_ref, has_forbidden, expected_kind,
  sanitize_agent, sanitize_chars, session_fork_name, fork_name, is_fork_ref,
}
use forgefs.Catalog.Refs.{
  CasResult, updated, forked, plain_row, move_entry, create, create_fork, cas_ref, cas_row,
}
use forgefs.Catalog.Sessions.{
  create_session, insert_namespace, insert_mount_row, mount_main_row, cas_ref_session, session_swap,
  session_fork, found, complete_noop_session, repin_mount, pin_root, overlay_clear, forget_mount,
}
use forgefs.Catalog.Seals.{commit_seal, insert_seal_row, landmark, check_head}
use forgefs.Catalog.Retire.{abandon_ref, present, check_unused, retire}
use forgefs.Catalog.Names.Scope.{agent_scope, session_fork_name_lem}
use forgefs.Catalog.Refs.Swaps.{Outcome, cas_ref_lem, cas_ref_progress}
use forgefs.Catalog.Sessions.Isolation.{observed_on, IsOther, cas_ref_session_isolated}
use forgefs.Catalog.Overlay.{overlay_list}
use forgefs.Catalog.Mounts.{get_mount}
use forgefs.Catalog.Audit.{
  audit_reflog, audit_references, reflog_chain, chain_findings, chain_finding, terminal_findings,
  terminal_finding, orphan_findings,
}
use forgefs.Catalog.Audit.Consistent.{IsConsistent, Later, unborn, live}
use forgefs.Catalog.Steps.{Reach, here, next, opens, checks_in, swaps, abandons, seals}
use forgefs.Catalog.History.{
  Reach-Evolves, empty-IsConsistent, audit_references_lem, Reach-Later, commit_seal_stays,
}
use forgefs.Catalog.History.Retired.{get_ref_retired}
use forgefs.Catalog.History.Reborn.{create_session_retired}
use forgefs.Cap.{ref_matches}

abbrev head : Str
head = bytes "heads/agents/a/u"

abbrev fork : Str
fork = bytes "heads/agents/a/forks/heads/agents/a/u/w"

abbrev opening : ReflogRow
opening = record {
  name = head;
  old_oid = none;
  new_oid = 1 ∷ [];
  agent_id = bytes "a";
  reason = bytes "session";
}

-- A session of agent `a` on commit 1.
abbrev opened : Catalog
opened = record empty {
  refs = plain_row head (1 ∷ []) (bytes "commit") ∷ [];
  reflog = opening ∷ [];
  namespaces =
      record {
        id = bytes "s";
        agent_id = bytes "a";
        pinned_oid = some (1 ∷ []);
        live_ref = some head;
      }
      ∷ [];
  mounts =
      record {
        ns_id = bytes "s";
        path = bytes "/";
        spec = bytes "ref:heads/agents/a/u";
        mode = bytes "rw";
        base_oid = some (1 ∷ []);
      }
      ∷ [];
}

opened_ok : create_session empty (bytes "s") (bytes "a") (1 ∷ []) head false ≡ ok opened
unfolding create_session validate_ref_kind validate_ref_name validate_inbox_ref has_forbidden
    expected_kind insert_namespace insert_mount_row mount_main_row create insert_row ref_exists
    starts_with strip_prefix strip_suffix_char split
opened_ok = refl

-- Its checkin of commit 2 expects commit 9, and becomes a fork.
abbrev lost : Catalog
lost = record empty {
  refs = plain_row fork (2 ∷ []) (bytes "commit") ∷ opened.refs;
  reflog = move_entry fork (1 ∷ []) (2 ∷ []) (bytes "a") (bytes "fork") ∷ opened.reflog;
  namespaces =
      record {
        id = bytes "s";
        agent_id = bytes "a";
        pinned_oid = some (2 ∷ []);
        live_ref = some head;
      }
      ∷ [];
  mounts =
      record {
        ns_id = bytes "s";
        path = bytes "/";
        spec = bytes "ref:heads/agents/a/forks/heads/agents/a/u/w";
        mode = bytes "rw";
        base_oid = some (2 ∷ []);
      }
      ∷ [];
}

lost_ok :
    cas_ref_session opened head
      (9 ∷ [])
      (2 ∷ [])
      (bytes "a")
      (bytes "a")
      (bytes "w")
      (bytes "s")
      (bytes "/")
      []
    ≡ ok (forked head fork (2 ∷ []) (1 ∷ []), lost)
unfolding cas_ref_session validate_ref_kind validate_ref_name validate_inbox_ref has_forbidden
    expected_kind found session_swap session_fork create_fork create insert_row ref_exists
    session_fork_name sanitize_agent sanitize_chars complete_noop_session repin_mount pin_root
    overlay_clear forget_mount insert_intros starts_with strip_prefix strip_suffix_char split
lost_ok = refl

-- A tag for the session's head, which still holds commit 1.
abbrev tagged : Catalog
tagged = record lost {
  refs =
      record {
        name = bytes "tags/v1";
        oid = 5 ∷ [];
        kind = bytes "snapshot";
        protected = true;
        sealed = true;
      }
      ∷ lost.refs;
  reflog =
      record {
        name = bytes "tags/v1";
        old_oid = none;
        new_oid = 5 ∷ [];
        agent_id = bytes "a";
        reason = bytes "seal";
      }
      ∷ lost.reflog;
  seals =
      record { tag = bytes "v1"; snap_oid = 5 ∷ []; commit_oid = 1 ∷ []; tree_oid = 6 ∷ [] } ∷ [];
  landmarks =
      record { oid = 1 ∷ []; kind = bytes "commit"; reason = bytes "seal" }
      ∷ record { oid = 5 ∷ []; kind = bytes "snapshot"; reason = bytes "seal" }
      ∷ [];
}

tagged_ok :
    commit_seal lost (bytes "v1") (5 ∷ []) (1 ∷ []) (6 ∷ []) (bytes "a") (some (head, 1 ∷ []))
    ≡ ok tagged
unfolding commit_seal validate_ref_kind validate_ref_name validate_inbox_ref has_forbidden
    expected_kind found check_head create insert_row ref_exists insert_seal_row landmark starts_with
    strip_prefix strip_suffix_char split
tagged_ok = refl

opens_lost : Reach empty lost
unfolding ref_retired session_fork_name sanitize_agent sanitize_chars
opens_lost = next (next here (opens (bytes "s") (bytes "a") (1 ∷ []) head false refl opened_ok)) (
    checks_in head (9 ∷ []) (2 ∷ []) (bytes "a") (bytes "a") (bytes "w") (bytes "s") (bytes "/") []
      (forked head fork (2 ∷ []) (1 ∷ [])) refl lost_ok)

opens_tagged : Reach empty tagged
unfolding ref_retired
opens_tagged =
    next opens_lost (
      seals (bytes "v1") (5 ∷ []) (1 ∷ []) (6 ∷ []) (bytes "a") (some (head, 1 ∷ [])) refl
        tagged_ok)

lost-IsConsistent : IsConsistent lost
lost-IsConsistent = (Reach-Evolves opens_lost empty-IsConsistent).0

audit_references_lem_example : audit_references tagged ≡ []
audit_references_lem_example = audit_references_lem tagged opens_tagged

Reach-Later_example : Later unborn (live (plain_row head (1 ∷ []) (bytes "commit")))
Reach-Later_example = Reach-Later empty lost head empty-IsConsistent opens_lost

cas_ref_session_isolated_example :
    (overlay_list lost (bytes "s") (bytes "/") ≡ [])
    × (observed_on lost (bytes "s") (bytes "/") ≡ [])
    × ((m : MountRow) × (get_mount lost (bytes "s") (bytes "/") ≡ some m)
        × (m.base_oid ≡ some (2 ∷ [])))
    × ((ns : Str) (mount : Str)
        → IsOther (bytes "s") (bytes "/") ns mount
        → (overlay_list lost ns mount ≡ overlay_list opened ns mount)
          × (observed_on lost ns mount ≡ observed_on opened ns mount)
          × (get_mount lost ns mount ≡ get_mount opened ns mount))
cas_ref_session_isolated_example =
    cas_ref_session_isolated opened lost head (9 ∷ []) (2 ∷ []) (bytes "a") (bytes "a") (bytes "w")
      (bytes "s") (bytes "/") [] (forked head fork (2 ∷ []) (1 ∷ [])) lost_ok

commit_seal_stays_example :
    ((r : RefRow) × (get_ref lost head ≡ some r) × (r.oid ≡ 1 ∷ []))
    × (get_ref tagged (bytes "tags/v1")
        ≡ some (record {
          name = bytes "tags/v1";
          oid = 5 ∷ [];
          kind = bytes "snapshot";
          protected = true;
          sealed = true;
        }))
unfolding ref_retired
commit_seal_stays_example =
    commit_seal_stays lost tagged tagged (bytes "v1") (5 ∷ []) (1 ∷ []) (6 ∷ []) (bytes "a") head
      (1 ∷ []) lost-IsConsistent refl tagged_ok here

-- A fork under `forks/`, made and abandoned.
abbrev main_fork : Str
main_fork = bytes "forks/x/a/w"

abbrev forked_main : Catalog
forked_main = record empty {
  refs =
      plain_row main_fork (2 ∷ []) (bytes "commit")
      ∷ plain_row (bytes "x") (1 ∷ []) (bytes "commit")
      ∷ [];
  reflog =
      move_entry main_fork (1 ∷ []) (2 ∷ []) (bytes "a") (bytes "fork")
      ∷ record {
        name = bytes "x";
        old_oid = none;
        new_oid = 1 ∷ [];
        agent_id = bytes "a";
        reason = bytes "cas";
      }
      ∷ [];
}

abbrev one_ref : Catalog
one_ref = record empty {
  refs = plain_row (bytes "x") (1 ∷ []) (bytes "commit") ∷ [];
  reflog =
      record {
        name = bytes "x";
        old_oid = none;
        new_oid = 1 ∷ [];
        agent_id = bytes "a";
        reason = bytes "cas";
      }
      ∷ [];
}

one_ref_ok :
    cas_ref empty
      (bytes "x")
      (9 ∷ [])
      (1 ∷ [])
      (bytes "commit")
      (bytes "a")
      (bytes "a")
      (bytes "w")
      false
    ≡ ok (updated (bytes "x") (1 ∷ []), one_ref)
unfolding cas_ref cas_row validate_ref_kind validate_ref_name validate_inbox_ref has_forbidden
    expected_kind deny_retired ref_retired create insert_row ref_exists starts_with strip_prefix
    strip_suffix_char split
one_ref_ok = refl

forked_main_ok :
    cas_ref one_ref
      (bytes "x")
      (9 ∷ [])
      (2 ∷ [])
      (bytes "commit")
      (bytes "a")
      (bytes "a")
      (bytes "w")
      false
    ≡ ok (forked (bytes "x") main_fork (2 ∷ []) (1 ∷ []), forked_main)
unfolding cas_ref cas_row validate_ref_kind validate_ref_name validate_inbox_ref has_forbidden
    expected_kind deny_retired ref_retired create insert_row ref_exists starts_with strip_prefix
    strip_suffix_char split update_row create_fork fork_name sanitize_agent sanitize_chars
forked_main_ok = refl

cas_ref_lem_example :
    Outcome one_ref forked_main
      (bytes "x")
      (fork_name (bytes "x") (bytes "a") (bytes "w"))
      (9 ∷ [])
      (2 ∷ [])
      (bytes "commit")
      (forked (bytes "x") main_fork (2 ∷ []) (1 ∷ []))
cas_ref_lem_example =
    cas_ref_lem one_ref forked_main (bytes "x") (9 ∷ []) (2 ∷ []) (bytes "commit") (bytes "a")
      (bytes "a") (bytes "w") false (forked (bytes "x") main_fork (2 ∷ []) (1 ∷ [])) forked_main_ok

cas_ref_progress_example :
    (result : CasResult) × (c' : Catalog) × (cas_ref one_ref
        (bytes "x")
        (9 ∷ [])
        (2 ∷ [])
        (bytes "commit")
        (bytes "a")
        (bytes "a")
        (bytes "w")
        false
      ≡ ok (result, c'))
unfolding get_ref validate_ref_kind validate_ref_name validate_inbox_ref has_forbidden expected_kind
    starts_with strip_prefix strip_suffix_char split fork_name sanitize_agent sanitize_chars
cas_ref_progress_example =
    cas_ref_progress one_ref (plain_row (bytes "x") (1 ∷ []) (bytes "commit")) (bytes "x") (9 ∷ [])
      (2 ∷ []) (bytes "commit") (bytes "a") (bytes "a") (bytes "w") false refl refl refl refl refl
      refl refl refl refl

abbrev abandoned : Catalog
abandoned = record empty {
  refs = plain_row (bytes "x") (1 ∷ []) (bytes "commit") ∷ [];
  reflog =
      move_entry main_fork (2 ∷ []) (2 ∷ []) (bytes "b") (bytes "abandon") ∷ forked_main.reflog;
}

abandoned_ok :
    abandon_ref forked_main main_fork (bytes "b") 7
    ≡ ok (
      record {
        name = main_fork;
        oid = 2 ∷ [];
        kind = bytes "commit";
        agent_id = bytes "b";
        ts_ms = 7;
      },
      abandoned,
    )
unfolding abandon_ref validate_ref_name has_forbidden is_fork_ref present check_unused retire
    delete_row ref_exists starts_with strip_suffix_char split
abandoned_ok = refl

abandons_fork : Reach empty abandoned
unfolding ref_retired fork_name sanitize_agent sanitize_chars
abandons_fork =
    next
      (next
        (next here (
          swaps (bytes "x") (9 ∷ []) (1 ∷ []) (bytes "commit") (bytes "a") (bytes "a") (bytes "w")
            false (updated (bytes "x") (1 ∷ [])) refl one_ref_ok))
        (swaps (bytes "x") (9 ∷ []) (2 ∷ []) (bytes "commit") (bytes "a") (bytes "a") (bytes "w")
          false (forked (bytes "x") main_fork (2 ∷ []) (1 ∷ [])) refl forked_main_ok))
      (abandons main_fork (bytes "b") 7
        (record {
          name = main_fork;
          oid = 2 ∷ [];
          kind = bytes "commit";
          agent_id = bytes "b";
          ts_ms = 7;
        })
        abandoned_ok)

-- Another session, after the fork is abandoned.
abbrev later : Catalog
later = record abandoned {
  refs = plain_row head (3 ∷ []) (bytes "commit") ∷ abandoned.refs;
  reflog =
      record {
        name = head;
        old_oid = none;
        new_oid = 3 ∷ [];
        agent_id = bytes "a";
        reason = bytes "session";
      }
      ∷ abandoned.reflog;
  namespaces =
      record {
        id = bytes "s";
        agent_id = bytes "a";
        pinned_oid = some (3 ∷ []);
        live_ref = some head;
      }
      ∷ [];
  mounts =
      record {
        ns_id = bytes "s";
        path = bytes "/";
        spec = bytes "ref:heads/agents/a/u";
        mode = bytes "rw";
        base_oid = some (3 ∷ []);
      }
      ∷ [];
}

later_ok : create_session abandoned (bytes "s") (bytes "a") (3 ∷ []) head false ≡ ok later
unfolding create_session validate_ref_kind validate_ref_name validate_inbox_ref has_forbidden
    expected_kind insert_namespace insert_mount_row mount_main_row create insert_row ref_exists
    starts_with strip_prefix strip_suffix_char split
later_ok = refl

get_ref_retired_example : (get_ref later main_fork ≡ none) × (ref_retired later main_fork ≡ true)
unfolding get_ref ref_retired
get_ref_retired_example =
    get_ref_retired abandoned later main_fork refl refl
      (next here (opens (bytes "s") (bytes "a") (3 ∷ []) head false refl later_ok))

session_fork_name_lem_example :
    (ref_matches (agent_scope (bytes "a/b")) (session_fork_name head (bytes "a/b") (bytes "w"))
      ≡ true)
    × (is_fork_ref (session_fork_name head (bytes "a/b") (bytes "w")) ≡ true)
session_fork_name_lem_example = session_fork_name_lem head (bytes "a/b") (bytes "w")

-- A session on the name of an abandoned fork, and what the audit says of it.
abbrev again : Catalog
again = record empty {
  refs = plain_row main_fork (3 ∷ []) (bytes "commit") ∷ abandoned.refs;
  reflog =
      record {
        name = main_fork;
        old_oid = none;
        new_oid = 3 ∷ [];
        agent_id = bytes "a";
        reason = bytes "session";
      }
      ∷ abandoned.reflog;
  namespaces =
      record {
        id = bytes "s";
        agent_id = bytes "a";
        pinned_oid = some (3 ∷ []);
        live_ref = some main_fork;
      }
      ∷ [];
  mounts =
      record {
        ns_id = bytes "s";
        path = bytes "/";
        spec = bytes "ref:forks/x/a/w";
        mode = bytes "rw";
        base_oid = some (3 ∷ []);
      }
      ∷ [];
}

again_ok : create_session abandoned (bytes "s") (bytes "a") (3 ∷ []) main_fork false ≡ ok again
unfolding create_session validate_ref_kind validate_ref_name validate_inbox_ref has_forbidden
    expected_kind insert_namespace insert_mount_row mount_main_row create insert_row ref_exists
    starts_with strip_prefix strip_suffix_char split
again_ok = refl

create_session_retired_example :
    (get_ref again main_fork ≡ some (plain_row main_fork (3 ∷ []) (bytes "commit")))
    × (audit_references again ≢ [])
unfolding ref_retired
create_session_retired_example =
    create_session_retired abandoned again (bytes "s") (bytes "a") (3 ∷ []) main_fork false refl
      again_ok

resurrected : audit_reflog again ≡ reflog_chain ∷ []
unfolding ref_exists audit_reflog chain_findings chain_finding terminal_findings terminal_finding
    orphan_findings
resurrected = refl
