-- ===== src/Cap/Token.antt =====
-- forge-cap: the bytes and the text of a credential.
-- The index `i` of `decode_cap` is the list of the bytes from `i` on.
pub mod Roundtrip
pub mod Total
use forgefs.Base.{
  ℕ, zero, suc, ◌+◌, ◌*◌, ◌-◌, ◌%◌, ◌≡◌, Bool, true, false, not, ◌&&◌, ◌||◌, Option, none, some,
  List, [], ◌∷◌, ◌++◌, ltb, leb, eqb, if◌then◌else◌, length, take, drop, get_elem?, ◌==◌, list_eq,
  nat_eq, Bytes, Str, bytes, to_be_bytes, from_be_bytes, is_utf8, strip_prefix,
}
use forgefs.Types.{Result, Checked, ok, err, ◌>>=◌, ◌>>◌, guard, cap_error, internal}
use forgefs.Types.Hex.{hex_encode, hex_decode}
use forgefs.Cap.{Cap, max_caveats, max_token_bytes}
use forgefs.Cap.Parse.{cap_from_parts}
use forgefs.Cap.Chain.{prefix_bytes, append_caveat_bytes}

abbrev pub append_caveats : Bytes → List Str → Bytes
append_caveats v [] = v
append_caveats v (c ∷ cs) = append_caveats (append_caveat_bytes v c) cs

unfoldable pub encode : Cap → Bytes
encode cap = append_caveats (prefix_bytes cap.loc cap.id) cap.caveats ++ cap.sig

unfoldable pub to_token : Cap → Str
to_token cap = bytes "fmac1_" ++ hex_encode (encode cap)

-- `String::from_utf8(raw[i..i + n].to_vec())`, and the bytes after it.
abbrev pub text : ℕ → Bytes → Result (Str × Bytes)
text n raw = do guard (is_utf8 (take n raw)) (cap_error "utf8"); ok (take n raw, drop n raw)

-- A length of two bytes and then the text, when `after` bytes are to follow it.
unfoldable pub field : ℕ → Bytes → Result (Str × Bytes)
field after raw =
    let n = from_be_bytes (take 2 raw) in
    let rest = drop 2 raw in
    do guard (leb (n + after) (length rest)) (cap_error "cap {field}"); text n rest

-- The loop `while i + 32 < raw.len()`; a round takes two bytes or more.
unfoldable pub caveat_loop : ℕ → List Str → Bytes → Result (List Str × Bytes)
caveat_loop zero caveats raw =
    if ltb 32 (length raw) then err (internal "out of fuel") else ok (caveats, raw)
caveat_loop (suc fuel) caveats raw =
    if ltb 32 (length raw)
    then (do
      guard (ltb (length caveats) max_caveats && leb 34 (length raw))
          (cap_error "bad caveat framing")
      (c, rest) ← field 32 raw
      caveat_loop fuel (caveats ++ c ∷ []) rest)
    else ok (caveats, raw)

unfoldable pub decode_cap : Bytes → Result Cap
decode_cap raw = do
  guard (leb (length raw) max_token_bytes) (cap_error "cap too large")
  guard (leb 41 (length raw)) (cap_error "cap truncated")
  guard (take 5 raw == bytes "FMAC" ++ 1 ∷ []) (cap_error "bad cap header")
  (loc, r1) ← field 34 (drop 5 raw)
  (id, r2) ← field 32 r1
  (caveats, r3) ← caveat_loop (length r2) [] r2
  guard (eqb (length r3) 32) (cap_error "cap trailing")
  cap_from_parts loc id caveats r3

unfoldable pub from_token : Str → Result Cap
from_token s =
    let raw_hex : Str = elim (strip_prefix s (bytes "fmac1_")) [ some rest ↦ rest | none ↦ s ] in
    do
      guard (leb (length raw_hex) (max_token_bytes * 2)) (cap_error "cap too large")
      raw ← hex_decode raw_hex
      decode_cap raw
