-- ===== src/Authority/Grants.antt =====
-- What a credential that is granted may do.
use forgefs.Base.{
  true, ℕ, ◌≡◌, sym, subst, Option, none, some, List, [], arith, inl, inr, Option-cases, Bytes, Str,
  length, drop, strip_prefix, bytes, trim,
}
use forgefs.Types.{ok, Result-cases}
use forgefs.Types.Hex.{hex_decode}
use forgefs.Cap.{Op, Cap, allows, has_unrestricted_ref_scope}
use forgefs.Cap.Parse.{cap_from_parts, cap_from_parts_lem, parse_caveats}
use forgefs.Cap.Chain.{verify, attenuate, attenuate_holder}
use forgefs.Cap.Chain.Verify.{attenuate_holder-verify}
use forgefs.Cap.Chain.Monotone.{
  IsParsed, allows-attenuate_holder, given_ops, unrestricted-attenuate_holder,
}
use forgefs.Cap.Token.{field, caveat_loop, decode_cap, from_token}
use forgefs.Namespace.{Spec, parse_spec}
use forgefs.Authority.{load_cap, check, check_spec_read, grant}

IsParsed-cap_from_parts :
    (loc id : Str) (caveats : List Str) (sig : Bytes) (cap : Cap)
    → cap_from_parts loc id caveats sig ≡ ok cap
    → IsParsed cap
IsParsed-cap_from_parts loc id caveats sig cap h =
    let k = cap_from_parts_lem loc id caveats sig cap h in
    subst (λ cs. parse_caveats cs ≡ ok cap.parsed) (sym k.2) k.4

IsParsed-decode_cap : (raw : Bytes) (cap : Cap) → decode_cap raw ≡ ok cap → IsParsed cap
unfolding decode_cap
IsParsed-decode_cap raw cap h = elim (Result-cases (field 34 (drop 5 raw))) [
  | inr (x, p) ↦ ground arith
  | inl ((loc, r1), p) ↦ elim (Result-cases (field 32 r1)) [
    | inr (x, q) ↦ ground arith
    | inl ((id, r2), q) ↦ elim (Result-cases (caveat_loop (length r2) [] r2)) [
      | inr (x, r) ↦ ground arith
      | inl ((caveats, r3), r) ↦ IsParsed-cap_from_parts loc id caveats r3 cap (ground arith)
    ]
  ]
]

IsParsed-from_token : (token : Str) (cap : Cap) → from_token token ≡ ok cap → IsParsed cap
unfolding from_token
IsParsed-from_token token cap h = elim (Option-cases (strip_prefix token (bytes "fmac1_"))) [
  | inl p ↦ elim (Result-cases (hex_decode token)) [
    | inr (x, q) ↦ ground arith
    | inl (raw, q) ↦ IsParsed-decode_cap raw cap (ground arith)
  ]
  | inr (rest, p) ↦ elim (Result-cases (hex_decode rest)) [
    | inr (x, q) ↦ ground arith
    | inl (raw, q) ↦ IsParsed-decode_cap raw cap (ground arith)
  ]
]

module _ (hmac : Bytes → Bytes → Bytes) (key : Bytes) where
  load_cap_lem :
      (token : Str) (cap : Cap)
      → load_cap hmac key token ≡ ok cap
      → IsParsed cap × (verify hmac key cap ≡ ok tt)
  unfolding load_cap
  load_cap_lem token cap h = elim (Result-cases (from_token (trim token))) [
    | inr (x, p) ↦ ground arith
    | inl (c, p) ↦
        let (same, v) : (c ≡ cap) × (verify hmac key c ≡ ok tt) = ground arith in
        (
          subst IsParsed same (IsParsed-from_token (trim token) c p),
          subst (λ x. verify hmac key x ≡ ok tt) same v,
        )
  ]

  grant_inv :
      (cap cap' : Cap) (extra : List Str) (now_ms : ℕ)
      → grant hmac key cap extra now_ms ≡ ok cap'
      → (allows cap Op.grant none now_ms ≡ ok tt) × (attenuate_holder hmac cap extra ≡ ok cap')
  unfolding grant check attenuate
  grant_inv cap cap' extra now_ms h = ground arith

  check_spec_read-narrows :
      (cap cap' : Cap) (spec : Str) (now_ms : ℕ)
      → ((op : Op) (ref_name : Option Str)
          → check hmac key cap' op ref_name now_ms ≡ ok tt
          → check hmac key cap op ref_name now_ms ≡ ok tt)
      → (has_unrestricted_ref_scope cap' ≡ true → has_unrestricted_ref_scope cap ≡ true)
      → check_spec_read hmac key cap' spec now_ms ≡ ok tt
      → check_spec_read hmac key cap spec now_ms ≡ ok tt
  unfolding check_spec_read
  check_spec_read-narrows cap cap' spec now_ms narrow scope h =
      elim (Result-cases (parse_spec spec)) [
        | inr (x, p) ↦ ground arith
        | inl (Spec.ref n, p) ↦
            let own : check hmac key cap Op.read (some n) now_ms ≡ ok tt =
              narrow Op.read (some n) (ground arith) in
            ground arith
        | inl (Spec.oid id, p) ↦
            let unscoped : has_unrestricted_ref_scope cap ≡ true = scope (ground arith) in
            let own : check hmac key cap Op.read none now_ms ≡ ok tt =
              narrow Op.read none (ground arith) in
            ground arith
      ]

  -- Of a token that the daemon loads: the credential that it is granted passes verification, and
  -- whatever a check lets the granted one do, a check lets the credential of the token do, for every
  -- operation, reference and time, and for every spec of a reference or of a raw object to read.
  pub grant_lem :
      (token : Str) (cap cap' : Cap) (extra : List Str) (now_ms : ℕ)
      → load_cap hmac key token ≡ ok cap
      → grant hmac key cap extra now_ms ≡ ok cap'
      → (verify hmac key cap' ≡ ok tt)
        × ((op : Op) (ref_name : Option Str) (time : ℕ)
            → check hmac key cap' op ref_name time ≡ ok tt
            → check hmac key cap op ref_name time ≡ ok tt)
        × ((spec : Str) (time : ℕ)
            → check_spec_read hmac key cap' spec time ≡ ok tt
            → check_spec_read hmac key cap spec time ≡ ok tt)
  unfolding check
  grant_lem token cap cap' extra now_ms loaded granted =
      let (parsed, v) = load_cap_lem token cap loaded in
      let (a, h) = grant_inv cap cap' extra now_ms granted in
      let given = given_ops cap Op.grant none now_ms parsed a in
      let narrow : (op : Op) (ref_name : Option Str) (time : ℕ)
          → check hmac key cap' op ref_name time ≡ ok tt
          → check hmac key cap op ref_name time ≡ ok tt =
        λ op ref_name time p.
          let own : allows cap op ref_name time ≡ ok tt =
            allows-attenuate_holder hmac cap cap' extra op ref_name time parsed given h
              (ground arith) in
          ground arith in
      (
        attenuate_holder-verify hmac key cap cap' extra v h,
        narrow,
        λ spec time.
            check_spec_read-narrows cap cap' spec time (λ op ref_name. narrow op ref_name time)
              (unrestricted-attenuate_holder hmac cap cap' extra parsed h),
      )
