-- ===== src/Cap/Chain/Monotone.antt =====
-- Attenuation never widens what a credential allows, once it has an `ops=` caveat.
use forgefs.Base.{
  bytes, ◌≢◌, subst, ℕ, ◌≡◌, ap, ◌∙◌, sym, Bool, ◌&&◌, true, false, Option, none, some, List, [],
  ◌∷◌, ◌++◌, arith, any, Bytes, Str, Option-cases, Bool-cases, inl, inr,
}
use forgefs.Types.{denied, ok, ok-injective, ◌>>=◌}
use forgefs.Cap.{
  Op, read, eq_op, Cap, ParsedCaveats, allows_ref, allows_parsed, allows, agent_id, not_expired,
  is_empty, has_unrestricted_ref_scope, op_eq,
}
use forgefs.Cap.Parse.{
  Scan, start, finish, scan_caveats, parse_caveats, parse_caveats_lem, cap_from_parts_lem,
}
use forgefs.Cap.Parse.Narrow.{Narrower}
use forgefs.Cap.Parse.Steps.{scan_caveats-Narrower, scan_caveats-append}
use forgefs.Cap.Parse.Ops.{
  is_ops, is_set, scan_caveats-is_set, ops-scan_caveats, scan_caveats-ops_read,
}
use forgefs.Cap.Chain.{extend, attenuate_holder}
use forgefs.Cap.Chain.Verify.{attenuate_holder_lem}

-- The fields that `allows` reads are those that the caveats parse to.
abbrev pub IsParsed : Cap → Type 0
IsParsed cap = parse_caveats cap.caveats ≡ ok cap.parsed

abbrev is_unrestricted : ParsedCaveats → Bool
is_unrestricted p = is_empty p.ref_sets && is_empty p.op_ref_sets && is_empty p.ref_not

module _ (s t : Scan) (n : Narrower t s) where
  allows_ref-Narrower :
      (op : Op) (name : Str)
      → allows_ref (finish t) op name ≡ ok tt
      → allows_ref (finish s) op name ≡ ok tt
  unfolding allows_ref
  allows_ref-Narrower op name h = ground (
    arith,
    n.excluded name,
    n.refs name (denied "cap does not cover ref {name}"),
    n.scoped op name (denied "cap does not allow {} on ref {name}"),
  )

  allows_parsed-Narrower :
      (op : Op) (ref_name : Option Str) (now_ms : ℕ)
      → is_set s.ops ≡ true
      → allows_parsed (finish t) op ref_name now_ms ≡ ok tt
      → allows_parsed (finish s) op ref_name now_ms ≡ ok tt
  unfolding allows_parsed
  allows_parsed-Narrower op none now_ms k h = elim (Option-cases s.ops) [
    | inl e ↦ cc (rw e at k)
    | inr (set, e) ↦
        let (set', e', le) = n.ops_kept set e in ground (arith, le op, n.time now_ms, n.conflict)
  ]
  allows_parsed-Narrower op (some name) now_ms k h = elim (Option-cases s.ops) [
    | inl e ↦ cc (rw e at k)
    | inr (set, e) ↦
        let (set', e', le) = n.ops_kept set e in
        ground (arith, le op, n.time now_ms, n.conflict, allows_ref-Narrower op name)
  ]

-- The loop over the extended caveats goes on from the scan of the first ones, and narrows it.
attenuated_scan :
    (cs extra : List Str) (p q : ParsedCaveats)
    → parse_caveats cs ≡ ok p
    → parse_caveats (cs ++ extra) ≡ ok q
    → (s : Scan) × (t : Scan) × (scan_caveats start cs ≡ ok s)
      × (finish s ≡ p)
      × (finish t ≡ q)
      × Narrower t s
attenuated_scan cs extra p q hp hq =
    let (s, es, fs) = parse_caveats_lem cs p hp in
    let (t, et, ft) = parse_caveats_lem (cs ++ extra) q hq in
    let more : scan_caveats s extra ≡ ok t =
      ap (λ r. r >>= λ u. scan_caveats u extra) (sym es)
      ∙ sym (scan_caveats-append start cs extra)
      ∙ et in
    (s, t, es, fs, ft, scan_caveats-Narrower s t extra more)

module _ (hmac : Bytes → Bytes → Bytes) (cap cap' : Cap) (extra : List Str) where
  -- Of a credential whose fields are those that its caveats parse to and that has an `ops=` caveat:
  -- whatever its holder's attenuation allows, it allows itself, for every operation, reference and
  -- time.
  pub allows-attenuate_holder :
      (op : Op) (ref_name : Option Str) (now_ms : ℕ)
      → IsParsed cap
      → any is_ops cap.caveats ≡ true
      → attenuate_holder hmac cap extra ≡ ok cap'
      → allows cap' op ref_name now_ms ≡ ok tt
      → allows cap op ref_name now_ms ≡ ok tt
  unfolding allows
  allows-attenuate_holder op ref_name now_ms parsed given h a =
      let k =
        cap_from_parts_lem cap.loc cap.id (cap.caveats ++ extra) (extend hmac cap.sig extra) cap'
          (attenuate_holder_lem hmac cap cap' extra h) in
      let (s, t, es, fs, ft, n) =
        attenuated_scan cap.caveats extra cap.parsed cap'.parsed parsed k.4 in
      subst (λ p. allows_parsed p op ref_name now_ms ≡ ok tt) fs
        (allows_parsed-Narrower s t n op ref_name now_ms
          (scan_caveats-is_set start s cap.caveats es given)
          (subst (λ p. allows_parsed p op ref_name now_ms ≡ ok tt) (sym ft) a))

  pub unrestricted-attenuate_holder :
      IsParsed cap
      → attenuate_holder hmac cap extra ≡ ok cap'
      → has_unrestricted_ref_scope cap' ≡ true
      → has_unrestricted_ref_scope cap ≡ true
  unfolding has_unrestricted_ref_scope
  unrestricted-attenuate_holder parsed h open_ref =
      let k =
        cap_from_parts_lem cap.loc cap.id (cap.caveats ++ extra) (extend hmac cap.sig extra) cap'
          (attenuate_holder_lem hmac cap cap' extra h) in
      let (s, t, es, fs, ft, n) =
        attenuated_scan cap.caveats extra cap.parsed cap'.parsed parsed k.4 in
      subst (λ p. is_unrestricted p ≡ true) fs
        (n.unscoped (subst (λ p. is_unrestricted p ≡ true) (sym ft) open_ref))

  -- An attenuation cannot take another agent's name: it keeps the name that a parsed credential has.
  pub agent-attenuate_holder :
      (a : Str)
      → IsParsed cap
      → cap.agent ≡ some a
      → attenuate_holder hmac cap extra ≡ ok cap'
      → (cap'.agent ≡ some a) × (agent_id cap' ≡ agent_id cap)
  unfolding agent_id
  agent-attenuate_holder a parsed e h =
      let k =
        cap_from_parts_lem cap.loc cap.id (cap.caveats ++ extra) (extend hmac cap.sig extra) cap'
          (attenuate_holder_lem hmac cap cap' extra h) in
      let (s, t, es, fs, ft, n) =
        attenuated_scan cap.caveats extra cap.parsed cap'.parsed parsed k.4 in
      let kept : cap'.agent ≡ some a =
        ap (λ (p : ParsedCaveats). p.agent) (sym ft)
        ∙ n.agent_kept a (ap (λ (p : ParsedCaveats). p.agent) fs ∙ e) in
      (kept, rw (kept, e))

module _ (s : Scan) (absent : s.ops ≡ none) (now_ms : ℕ) where
  unset_denies :
      (op : Op) (ref_name : Option Str) → allows_parsed (finish s) op ref_name now_ms ≢ ok tt
  unfolding allows_parsed
  unset_denies op ref_name = ground arith

  set_allows :
      s.agent_conflict ≡ false
      → not_expired s.time_le now_ms ≡ true
      → allows_parsed (finish (record s { ops = some (read ∷ []) })) read none now_ms ≡ ok tt
  unfolding allows_parsed eq_op
  set_allows calm fresh = rw (calm, fresh)

-- A parsed credential that allows anything has an `ops=` caveat.
pub given_ops :
    (cap : Cap) (op : Op) (ref_name : Option Str) (now_ms : ℕ)
    → IsParsed cap
    → allows cap op ref_name now_ms ≡ ok tt
    → any is_ops cap.caveats ≡ true
unfolding allows
given_ops cap op ref_name now_ms parsed a = elim (Bool-cases (any is_ops cap.caveats)) [
  | inl given ↦ given
  | inr absent ↦
      let (s, es, fs) = parse_caveats_lem cap.caveats cap.parsed parsed in
      let unset : s.ops ≡ none = ops-scan_caveats start s cap.caveats es absent in
      absurd (
        unset_denies s unset now_ms op ref_name
          (subst (λ p. allows_parsed p op ref_name now_ms ≡ ok tt) (sym fs) a))
]

-- A credential with no `ops=` caveat allows nothing, and yet its holder can attenuate it by the
-- caveat `ops=read` to one that allows reading, unless it has expired or its agents conflict.
pub attenuate_holder-widens :
    (hmac : Bytes → Bytes → Bytes) (cap cap' : Cap) (now_ms : ℕ)
    → IsParsed cap
    → any is_ops cap.caveats ≡ false
    → attenuate_holder hmac cap (bytes "ops=read" ∷ []) ≡ ok cap'
    → cap.agent_conflict ≡ false
    → not_expired cap.time_le now_ms ≡ true
    → ((op : Op) (ref_name : Option Str) → allows cap op ref_name now_ms ≢ ok tt)
      × (allows cap' read none now_ms ≡ ok tt)
unfolding allows
attenuate_holder-widens hmac cap cap' now_ms parsed absent h calm fresh =
    let extra : List Str = bytes "ops=read" ∷ [] in
    let k =
      cap_from_parts_lem cap.loc cap.id (cap.caveats ++ extra) (extend hmac cap.sig extra) cap'
        (attenuate_holder_lem hmac cap cap' extra h) in
    let (s, es, fs) = parse_caveats_lem cap.caveats cap.parsed parsed in
    let (t, et, ft) = parse_caveats_lem (cap.caveats ++ extra) cap'.parsed k.4 in
    let unset : s.ops ≡ none = ops-scan_caveats start s cap.caveats es absent in
    let read_set : record s { ops = some (read ∷ []) } ≡ t = ok-injective (
      sym (scan_caveats-ops_read s unset)
      ∙ ap (λ r. r >>= λ u. scan_caveats u extra) (sym es)
      ∙ sym (scan_caveats-append start cap.caveats extra)
      ∙ et) in
    (
      λ op ref_name a.
          unset_denies s unset now_ms op ref_name
            (subst (λ p. allows_parsed p op ref_name now_ms ≡ ok tt) (sym fs) a),
      subst (λ p. allows_parsed p read none now_ms ≡ ok tt) (ap finish read_set ∙ ft)
          (set_allows s unset now_ms (ap (λ (p : ParsedCaveats). p.agent_conflict) fs ∙ calm)
            (subst (λ p. not_expired p.time_le now_ms ≡ true) (sym fs) fresh)),
    )
