-- ===== src/Cap/Chain/Verify.antt =====
-- A credential that was minted, or attenuated from one that verifies, verifies.
use forgefs.Base.{
  ◌↔◌, eq_list_iff, ◌≡◌, refl, ap, ◌∙◌, sym, Option, none, some, List, [], ◌∷◌, ◌++◌, arith,
  list_eq, nat_eq, Bytes, Str, append_assoc, append-nil,
}
use forgefs.Types.{ok, ok-injective}
use forgefs.Cap.{Cap}
use forgefs.Cap.Parse.{checked_u16_len, cap_from_parts, cap_from_parts_lem}
use forgefs.Cap.Chain.{
  prefix_bytes, caveat_mac_input, split_last, extend, final_chain_mac, sign_chain, finalize_mac,
  verify, mint, attenuate_loop, attenuate_holder,
}

module _ (hmac : Bytes → Bytes → Bytes) where
  abbrev last_mac : Bytes → Bytes → Option (Str × List Str) → Bytes
  last_mac sig first none = first
  last_mac sig first (some (last, prior)) = hmac (extend hmac sig prior) (caveat_mac_input last)

  last_mac-split_last :
      (sig : Bytes) (cs : List Str) → last_mac sig sig (split_last cs) ≡ extend hmac sig cs
  unfolding split_last extend
  last_mac-split_last sig [] = refl
  last_mac-split_last sig (c ∷ []) = refl
  last_mac-split_last sig (c ∷ d ∷ cs) =
      ground (arith, last_mac-split_last (hmac sig (caveat_mac_input c)) (d ∷ cs))

  -- Signing is one HMAC for the prefix and then one for each caveat, in order.
  pub sign_chain-extend :
      (root : Bytes) (loc id : Str) (cs : List Str)
      → sign_chain hmac root loc id cs ≡ extend hmac (hmac root (prefix_bytes loc id)) cs
  unfolding sign_chain finalize_mac final_chain_mac
  sign_chain-extend root loc id cs =
      ground (arith, last_mac-split_last (hmac root (prefix_bytes loc id)) cs)

  extend-append :
      (sig : Bytes) (xs ys : List Str)
      → extend hmac sig (xs ++ ys) ≡ extend hmac (extend hmac sig xs) ys
  unfolding extend
  extend-append sig [] ys = refl
  extend-append sig (x ∷ xs) ys = extend-append (hmac sig (caveat_mac_input x)) xs ys

  attenuate_loop_lem :
      (caveats : List Str) (sig : Bytes) (extra : List Str) (out : List Str × Bytes)
      → attenuate_loop hmac caveats sig extra ≡ ok out
      → out ≡ (caveats ++ extra, extend hmac sig extra)
  unfolding attenuate_loop extend checked_u16_len
  attenuate_loop_lem caveats sig [] out h = sym (ok-injective h) ∙ rw append-nil
  attenuate_loop_lem caveats sig (c ∷ extra) out h = ground (
    arith,
    attenuate_loop_lem (caveats ++ c ∷ []) (hmac sig (caveat_mac_input c)) extra out,
    append_assoc caveats (c ∷ []) extra,
  )

  verify_iff :
      (root : Bytes) (cap : Cap)
      → (verify hmac root cap ≡ ok tt) ↔ (sign_chain hmac root cap.loc cap.id cap.caveats ≡ cap.sig)
  unfolding verify sign_chain
  verify_iff root cap = ground (
    arith,
    eq_list_iff (finalize_mac hmac (final_chain_mac hmac root cap.loc cap.id cap.caveats)) cap.sig,
  )

  pub mint_lem :
      (root : Bytes) (loc id : Str) (caveats : List Str) (cap : Cap)
      → mint hmac root loc id caveats ≡ ok cap
      → cap_from_parts loc id caveats (sign_chain hmac root loc id caveats) ≡ ok cap
  unfolding mint checked_u16_len
  mint_lem root loc id caveats cap h = ground arith

  -- Whatever `mint` returns verifies against the secret that minted it.
  pub mint-verify :
      (root : Bytes) (loc id : Str) (caveats : List Str) (cap : Cap)
      → mint hmac root loc id caveats ≡ ok cap
      → verify hmac root cap ≡ ok tt
  mint-verify root loc id caveats cap h =
      let k =
        cap_from_parts_lem loc id caveats (sign_chain hmac root loc id caveats) cap
          (mint_lem root loc id caveats cap h) in
      (verify_iff root cap).1 (rw (k.0, k.1, k.2) (sym k.3))

  -- What `attenuate_holder` appends to the caveats and how it extends the signature.
  pub attenuate_holder_lem :
      (cap cap' : Cap) (extra : List Str)
      → attenuate_holder hmac cap extra ≡ ok cap'
      → cap_from_parts cap.loc cap.id (cap.caveats ++ extra) (extend hmac cap.sig extra) ≡ ok cap'
  unfolding attenuate_holder
  attenuate_holder_lem cap cap' extra h = grind (arith, attenuate_loop_lem)

  -- A credential that verifies still verifies after its holder attenuates it, without the secret.
  pub attenuate_holder-verify :
      (root : Bytes) (cap cap' : Cap) (extra : List Str)
      → verify hmac root cap ≡ ok tt
      → attenuate_holder hmac cap extra ≡ ok cap'
      → verify hmac root cap' ≡ ok tt
  attenuate_holder-verify root cap cap' extra v h =
      let k =
        cap_from_parts_lem cap.loc cap.id (cap.caveats ++ extra) (extend hmac cap.sig extra) cap'
          (attenuate_holder_lem cap cap' extra h) in
      (verify_iff root cap').1 (
        rw (k.0, k.1, k.2)
          (sign_chain-extend root cap.loc cap.id (cap.caveats ++ extra)
            ∙ extend-append (hmac root (prefix_bytes cap.loc cap.id)) cap.caveats extra
            ∙ ap (λ s. extend hmac s extra)
                (sym (sign_chain-extend root cap.loc cap.id cap.caveats)
                  ∙ (verify_iff root cap).0 v)
            ∙ sym k.3))
