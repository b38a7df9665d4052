-- ===== src/Cap/Chain.antt =====
-- forge-cap: the chain of HMACs, `mint`, `verify` and `attenuate_holder`.
-- `hmac` stands for HMAC-SHA-256 of the `hmac` and `sha2` crates.
pub mod Verify
pub mod Monotone
use forgefs.Base.{
  ℕ, ◌+◌, ◌%◌, ◌≡◌, refl, ap, ◌∙◌, sym, Bool, true, false, Option, none, some, List, [], ◌∷◌, ◌++◌,
  arith, leb, length, Eq, ◌==◌, same_refl, list_eq, nat_eq, Bytes, Str, bytes, to_be_bytes,
  append_assoc,
}
use forgefs.Types.{Result, Checked, ok, err, ◌>>=◌, ◌>>◌, guard, cap_error, ok-injective}
use forgefs.Cap.{Cap, max_caveats}
use forgefs.Cap.Parse.{checked_u16_len, parse_caveats, cap_from_parts}

unfoldable pub prefix_bytes : Str → Str → Bytes
prefix_bytes loc id =
    bytes "FMAC"
    ++ (1
        ∷ (to_be_bytes 2 (length loc % 65536)
            ++ (loc ++ (to_be_bytes 2 (length id % 65536) ++ id))))

unfoldable pub append_caveat_bytes : Bytes → Str → Bytes
append_caveat_bytes v c = v ++ (to_be_bytes 2 (length c % 65536) ++ c)

unfoldable pub caveat_mac_input : Str → Bytes
unfolding append_caveat_bytes
caveat_mac_input c = append_caveat_bytes [] c

-- `slice::split_last`
unfoldable pub split_last : List Str → Option (Str × List Str)
split_last [] = none
split_last (c ∷ cs) = elim (split_last cs) [
  | none ↦ some (c, [])
  | some (last, prior) ↦ some (last, c ∷ prior)
]

-- An HMAC that has read its input and is not finalized.
pub record Mac : Type 0 where
  pub key : Bytes
  pub input : Bytes

module _ (hmac : Bytes → Bytes → Bytes) where
  unfoldable pub finalize_mac : Mac → Bytes
  finalize_mac m = hmac m.key m.input

  -- The loop over the prior caveats.
  unfoldable pub extend : Bytes → List Str → Bytes
  extend sig [] = sig
  extend sig (c ∷ cs) = extend (hmac sig (caveat_mac_input c)) cs

  unfoldable pub final_chain_mac : Bytes → Str → Str → List Str → Mac
  final_chain_mac root loc id caveats = elim (split_last caveats) [
    | none ↦ record { key = root; input = prefix_bytes loc id }
    | some (last, prior) ↦ record {
      key = extend (hmac root (prefix_bytes loc id)) prior;
      input = caveat_mac_input last;
    }
  ]

  unfoldable pub sign_chain : Bytes → Str → Str → List Str → Bytes
  sign_chain root loc id caveats = finalize_mac (final_chain_mac root loc id caveats)

  unfoldable pub verify : Bytes → Cap → Checked
  verify root cap =
      guard (finalize_mac (final_chain_mac root cap.loc cap.id cap.caveats) == cap.sig)
        (cap_error "bad signature")

  unfoldable pub mint : Bytes → Str → Str → List Str → Result Cap
  mint root loc id caveats = do
    _ ← checked_u16_len loc
    _ ← checked_u16_len id
    _ ← parse_caveats caveats
    cap_from_parts loc id caveats (sign_chain root loc id caveats)

  -- The loop over the extra caveats.
  unfoldable pub attenuate_loop : List Str → Bytes → List Str → Result (List Str × Bytes)
  attenuate_loop caveats sig [] = ok (caveats, sig)
  attenuate_loop caveats sig (c ∷ extra) = do
    _ ← checked_u16_len c
    attenuate_loop (caveats ++ c ∷ []) (hmac sig (caveat_mac_input c)) extra

  unfoldable pub attenuate_holder : Cap → List Str → Result Cap
  attenuate_holder cap extra = do
    guard (leb (length cap.caveats + length extra) max_caveats) (cap_error "too many caveats")
    (caveats, sig) ← attenuate_loop cap.caveats cap.sig extra
    cap_from_parts cap.loc cap.id caveats sig

  -- The root secret is not used.
  unfoldable pub attenuate : Bytes → Cap → List Str → Result Cap
  attenuate root cap extra = attenuate_holder cap extra

  unfoldable pub mint_root : Bytes → Result Cap
  mint_root root =
      mint root (bytes "forge") (bytes "root") (bytes "ops=read,write,branch,merge,grant,seal" ∷ [])

  unfoldable pub mint_integrator : Bytes → Result Cap
  mint_integrator root = mint root (bytes "forge") (bytes "integrator") (
      bytes "ops=read,merge,seal,grant"
      ∷ bytes "allow=read:main,heads/agents/*,forks/*,tags/*,conflicts/*"
      ∷ bytes "allow=merge:main"
      ∷ bytes "allow=seal:main,tags/*"
      ∷ [])
