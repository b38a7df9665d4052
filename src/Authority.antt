-- ===== src/Authority.antt =====
-- forge-api: what a verb asks of a credential (crates/forge-api/src/authority.rs). The daemon's key is
-- `key`, and the time `now_ms()` is an argument. `hmac` stands for HMAC-SHA-256.
pub mod Grants
use forgefs.Base.{
  ℕ, Bool, true, false, Option, none, some, List, if◌then◌else◌, ◌==◌, nat_eq, list_eq, Bytes, Str,
  trim,
}
use forgefs.Types.{Result, Checked, ok, err, ◌>>=◌, ◌>>◌, guard, denied}
use forgefs.Cap.{Op, Cap, allows, agent_id, has_unrestricted_ref_scope}
use forgefs.Cap.Chain.{verify, attenuate}
use forgefs.Cap.Token.{from_token}
use forgefs.Namespace.{Spec, parse_spec}
use forgefs.Catalog.{Catalog, NsRow}
use forgefs.Catalog.Mounts.{get_namespace}

unfoldable pub require_ns : Catalog → Cap → Str → Result NsRow
require_ns c cap ns = do
  row ← get_namespace c ns
  guard (row.agent_id == agent_id cap) (denied "namespace {ns} is owned by {}, not {}")
  ok row

module _ (hmac : Bytes → Bytes → Bytes) (key : Bytes) where
  unfoldable pub load_cap : Str → Result Cap
  load_cap token = do cap ← from_token (trim token); verify hmac key cap; ok cap

  unfoldable pub check : Cap → Op → Option Str → ℕ → Checked
  check cap op ref_name now_ms = verify hmac key cap >> allows cap op ref_name now_ms

  unfoldable pub check_spec_read : Cap → Str → ℕ → Checked
  check_spec_read cap spec now_ms = parse_spec spec >>= λ parsed. elim parsed [
    | Spec.ref n ↦ check cap Op.read (some n) now_ms
    | Spec.oid id ↦
        if has_unrestricted_ref_scope cap
        then check cap Op.read none now_ms
        else err (denied "ref-scoped caps cannot address raw object ids")
  ]

  unfoldable pub grant : Cap → List Str → ℕ → Result Cap
  grant cap extra now_ms = do check cap Op.grant none now_ms; attenuate hmac key cap extra
