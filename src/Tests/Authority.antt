-- ===== src/Tests/Authority.antt =====
-- A credential that another one grants.
use forgefs.Base.{
  ℕ, ◌%◌, ◌≡◌, refl, false, Option, none, [], ◌∷◌, length, replicate, Bytes, Str, bytes,
  strip_prefix, split, trim, to_be_bytes, from_be_bytes, is_utf8,
}
use forgefs.Types.{ok}
use forgefs.Types.Hex.{hex_encode, hex_decode}
use forgefs.Cap.{Op, eq_op, parse, Cap, allows, allows_parsed}
use forgefs.Cap.Parse.{parse_caveats, cap_from_parts, parse_ops}
use forgefs.Cap.Chain.{
  prefix_bytes, append_caveat_bytes, caveat_mac_input, split_last, finalize_mac, extend,
  final_chain_mac, verify, attenuate, attenuate_loop, attenuate_holder,
}
use forgefs.Cap.Token.{field, caveat_loop, decode_cap, encode, to_token, from_token}
use forgefs.Authority.{load_cap, check, check_spec_read, grant}
use forgefs.Authority.Grants.{grant_lem}

-- A function of the types of HMAC: 32 bytes that depend on the lengths.
abbrev toy_hmac : Bytes → Bytes → Bytes
toy_hmac key input = replicate 32 (length input % 256)

abbrev daemon_key : Bytes
daemon_key = replicate 32 7

abbrev granting : Cap
granting = record {
  loc = bytes "forge";
  id = bytes "a";
  caveats = bytes "ops=read,grant" ∷ [];
  sig = replicate 32 16;
  parsed = record {
    ops = Op.read ∷ Op.grant ∷ [];
    ref_sets = [];
    op_ref_sets = [];
    ref_not = [];
    time_le = none;
    agent = none;
    agent_conflict = false;
  };
}

abbrev granted : Cap
granted = record {
  loc = bytes "forge";
  id = bytes "a";
  caveats = bytes "ops=read,grant" ∷ bytes "ops=read" ∷ [];
  sig = replicate 32 10;
  parsed = record {
    ops = Op.read ∷ [];
    ref_sets = [];
    op_ref_sets = [];
    ref_not = [];
    time_le = none;
    agent = none;
    agent_conflict = false;
  };
}

loaded : load_cap toy_hmac daemon_key (to_token granting) ≡ ok granting
unfolding load_cap from_token to_token decode_cap caveat_loop field encode hex_encode hex_decode
    parse_caveats cap_from_parts parse_ops parse eq_op trim split strip_prefix verify finalize_mac
    final_chain_mac split_last extend caveat_mac_input append_caveat_bytes prefix_bytes to_be_bytes
    from_be_bytes is_utf8
loaded = refl

given : grant toy_hmac daemon_key granting (bytes "ops=read" ∷ []) 5 ≡ ok granted
unfolding grant check allows allows_parsed attenuate attenuate_holder attenuate_loop parse_caveats
    cap_from_parts parse_ops parse eq_op trim split strip_prefix verify finalize_mac final_chain_mac
    split_last extend caveat_mac_input append_caveat_bytes prefix_bytes to_be_bytes
given = refl

grant_lem_example :
    (verify toy_hmac daemon_key granted ≡ ok tt)
    × ((op : Op) (ref_name : Option Str) (time : ℕ)
        → check toy_hmac daemon_key granted op ref_name time ≡ ok tt
        → check toy_hmac daemon_key granting op ref_name time ≡ ok tt)
    × ((spec : Str) (time : ℕ)
        → check_spec_read toy_hmac daemon_key granted spec time ≡ ok tt
        → check_spec_read toy_hmac daemon_key granting spec time ≡ ok tt)
grant_lem_example =
    grant_lem toy_hmac daemon_key (to_token granting) granting granted (bytes "ops=read" ∷ []) 5
      loaded given
