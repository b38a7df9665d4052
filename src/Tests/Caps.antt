-- ===== src/Tests/Caps.antt =====
-- Credentials: a concrete chain of HMACs, minting, attenuating and reading back.
use forgefs.Base.{
  ◌%◌, ◌≡◌, ◌≢◌, refl, Option, none, some, List, [], ◌∷◌, ◌++◌, length, replicate, Bytes, Str,
  bytes, strip_prefix, split, trim, to_be_bytes, is_utf8, strip_suffix_char, starts_with, arith,
  false,
}
use forgefs.Types.{err, internal, ok}
use forgefs.Cap.{
  Op, read, write, eq_op, ParsedCaveats, Cap, allows, allows_parsed, allows_ref, all_match,
  matches_any, ref_matches, agent_id, parse,
}
use forgefs.Cap.Parse.{parse_caveats, cap_from_parts, parse_ops, parse_ref_set}
use forgefs.Cap.Chain.{
  prefix_bytes, append_caveat_bytes, caveat_mac_input, split_last, finalize_mac, extend,
  final_chain_mac, sign_chain, verify, mint, attenuate_loop, attenuate_holder,
}
use forgefs.Cap.Chain.Verify.{mint-verify, attenuate_holder-verify}
use forgefs.Cap.Chain.Monotone.{
  allows-attenuate_holder, agent-attenuate_holder, attenuate_holder-widens,
}
use forgefs.Cap.Token.{caveat_loop, encode, to_token, from_token}
use forgefs.Cap.Token.Total.{caveat_loop-ends}
use forgefs.Cap.Token.Roundtrip.{IsEncodable, from_token-to_token}

-- A function of the types of HMAC: 32 bytes that depend on the lengths.
abbrev toy_hmac : Bytes → Bytes → Bytes
toy_hmac key input = replicate 32 (length input % 256)

abbrev nothing_parsed : ParsedCaveats
nothing_parsed = record {
  ops = [];
  ref_sets = [];
  op_ref_sets = [];
  ref_not = [];
  time_le = none;
  agent = none;
  agent_conflict = false;
}

abbrev root : Bytes
root = replicate 32 7

abbrev agent_caveats : List Str
agent_caveats = bytes "ops=read,write" ∷ bytes "agent=bob" ∷ []

-- Minted for an agent, to read and write.
abbrev agent_cap : Cap
agent_cap = record {
  loc = bytes "forge";
  id = bytes "a1";
  caveats = agent_caveats;
  sig = replicate 32 11;
  parsed = record nothing_parsed { ops = read ∷ write ∷ []; agent = some (bytes "bob") };
}

abbrev narrowing : List Str
narrowing = bytes "ops=read" ∷ bytes "ref=heads/*" ∷ []

abbrev narrowed_cap : Cap
narrowed_cap = record {
  loc = bytes "forge";
  id = bytes "a1";
  caveats = agent_caveats ++ narrowing;
  sig = replicate 32 13;
  parsed = record nothing_parsed {
    ops = read ∷ [];
    ref_sets = (bytes "heads/*" ∷ []) ∷ [];
    agent = some (bytes "bob");
  };
}

minted : mint toy_hmac root (bytes "forge") (bytes "a1") agent_caveats ≡ ok agent_cap
unfolding mint eq_op parse_caveats parse_ops parse trim split strip_prefix cap_from_parts sign_chain
    final_chain_mac finalize_mac split_last extend caveat_mac_input append_caveat_bytes prefix_bytes
    to_be_bytes
minted = refl

narrowed : attenuate_holder toy_hmac agent_cap narrowing ≡ ok narrowed_cap
unfolding attenuate_holder attenuate_loop eq_op parse_caveats parse_ops parse parse_ref_set trim
    split strip_prefix cap_from_parts caveat_mac_input append_caveat_bytes to_be_bytes
narrowed = refl

agent_parsed : parse_caveats agent_caveats ≡ ok agent_cap.parsed
unfolding parse_caveats parse_ops parse trim split strip_prefix eq_op
agent_parsed = refl

allows-attenuate_holder_example : allows agent_cap read (some (bytes "heads/x")) 5 ≡ ok tt
unfolding allows allows_parsed allows_ref all_match matches_any ref_matches eq_op strip_suffix_char
    starts_with strip_prefix
allows-attenuate_holder_example =
    allows-attenuate_holder toy_hmac agent_cap narrowed_cap narrowing read (some (bytes "heads/x"))
      5 agent_parsed refl narrowed refl

agent-attenuate_holder_example :
    (narrowed_cap.agent ≡ some (bytes "bob")) × (agent_id narrowed_cap ≡ agent_id agent_cap)
agent-attenuate_holder_example =
    agent-attenuate_holder toy_hmac agent_cap narrowed_cap narrowing (bytes "bob") agent_parsed refl
      narrowed

mint-verify_example : verify toy_hmac root agent_cap ≡ ok tt
mint-verify_example =
    mint-verify toy_hmac root (bytes "forge") (bytes "a1") agent_caveats agent_cap minted

attenuate_holder-verify_example : verify toy_hmac root narrowed_cap ≡ ok tt
attenuate_holder-verify_example =
    attenuate_holder-verify toy_hmac root agent_cap narrowed_cap narrowing mint-verify_example
      narrowed

-- A credential without caveats.
abbrev bare_cap : Cap
bare_cap = record {
  loc = bytes "forge";
  id = bytes "a2";
  caveats = [];
  sig = replicate 32 9;
  parsed = nothing_parsed;
}

abbrev reading_cap : Cap
reading_cap = record {
  loc = bytes "forge";
  id = bytes "a2";
  caveats = bytes "ops=read" ∷ [];
  sig = replicate 32 10;
  parsed = record nothing_parsed { ops = read ∷ [] };
}

widened : attenuate_holder toy_hmac bare_cap (bytes "ops=read" ∷ []) ≡ ok reading_cap
unfolding attenuate_holder attenuate_loop eq_op parse_caveats parse_ops parse trim split
    strip_prefix cap_from_parts caveat_mac_input append_caveat_bytes to_be_bytes
widened = refl

attenuate_holder-widens_example :
    ((op : Op) (ref_name : Option Str) → allows bare_cap op ref_name 0 ≢ ok tt)
    × (allows reading_cap read none 0 ≡ ok tt)
unfolding parse_caveats
attenuate_holder-widens_example =
    attenuate_holder-widens toy_hmac bare_cap reading_cap 0 refl refl widened refl refl

agent-IsEncodable : IsEncodable agent_cap
unfolding is_utf8 encode prefix_bytes append_caveat_bytes to_be_bytes
agent-IsEncodable = record {
  loc_fits = (omega arith, refl);
  id_fits = (omega arith, refl);
  caveats_fit = ((omega arith, refl), ((omega arith, refl), tt));
  few = omega arith;
  sig_fits = refl;
  small = omega arith;
}

from_token-to_token_example : from_token (to_token agent_cap) ≡ ok agent_cap
unfolding encode prefix_bytes append_caveat_bytes to_be_bytes
from_token-to_token_example =
    from_token-to_token agent_cap agent-IsEncodable (search arith) agent_parsed

caveat_loop-ends_example : caveat_loop 40 [] (replicate 40 1) ≢ err (internal "out of fuel")
caveat_loop-ends_example = caveat_loop-ends 40 [] (replicate 40 1) "out of fuel" (omega arith)
