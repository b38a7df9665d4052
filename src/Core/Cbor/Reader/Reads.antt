-- ===== src/Core/Cbor/Reader/Reads.antt =====
-- Reading back what a writer wrote: a rule for each way to build a read.
use forgefs.Base.{
  ℕ, ◌+◌, ◌≤◌, ◌≡◌, ap, ◌∙◌, sym, subst, Bool, true, [], ◌++◌, arith, le→ltb, length, take, drop,
  length-append, length-drop, drop-append, take_front, drop-drop, append_assoc, append-nil, Bytes,
}
use forgefs.Types.{Error, ok}
use forgefs.Core.Cbor.Reader.{
  Reader, Read, ◌>>=◌, ◌>>◌, pure, check, remaining, usize_max, take_bytes, bounded_len,
}

-- The cursor stands in the buffer, whose length is a `usize`.
pub record IsReader (r : Reader) : Type 0 where
  pub inside : r.pos ≤ length r.buf
  pub sized : length r.buf ≤ usize_max

abbrev pub advance : Reader → ℕ → Reader
advance r n = record r { pos = r.pos + n }

-- At a cursor before `s` and then `rest`, the read takes `s` and returns `v`.
pub record Reads {ℓ} {A : Type ℓ} (m : Read A) (s rest : Bytes) (v : A) : Type ℓ where
  pub run :
      (r : Reader) → IsReader r → drop r.pos r.buf ≡ s ++ rest → m r ≡ ok (v, advance r (length s))

module _ (r : Reader) (w : IsReader r) (s rest : Bytes) (h : drop r.pos r.buf ≡ s ++ rest) where
  room : r.pos + length s + length rest ≡ length r.buf
  room = omega (arith, length-drop r.pos r.buf, ap length h, length-append s rest, w.inside)

  pub advance-IsReader : IsReader (advance r (length s))
  advance-IsReader = record { inside = omega (arith, room); sized = w.sized }

  pub drop-advance : drop (r.pos + length s) r.buf ≡ rest
  drop-advance =
      sym (drop-drop r.pos (length s) r.buf) ∙ ap (drop (length s)) h ∙ drop-append s rest

advance-advance : (r : Reader) (n m : ℕ) → advance (advance r n) m ≡ advance r (n + m)
advance-advance r n m = ap (λ (i : ℕ). record r { pos = i }) assoc
  where
    assoc : r.pos + n + m ≡ r.pos + (n + m)
    assoc = omega arith

pub advance_zero : (r : Reader) → advance r 0 ≡ r
advance_zero r = ap (λ (i : ℕ). record r { pos = i }) nothing
  where
    nothing : r.pos + 0 ≡ r.pos
    nothing = omega arith

module _ {ℓ} {A : Type ℓ} where
  pub Reads-pure : (a : A) (rest : Bytes) → Reads (pure a) [] rest a
  Reads-pure a rest = record {
    run = λ r w h. ap (λ (q : Reader). ok (a, q)) (sym (advance_zero r));
  }

module _ {ℓ κ} {A : Type ℓ} {B : Type κ} where
  pub Reads-bind :
      (m : Read A) (f : A → Read B) (s t rest : Bytes) (a : A) (b : B)
      → Reads m s (t ++ rest) a
      → Reads (f a) t rest b
      → Reads (m >>= f) (s ++ t) rest b
  Reads-bind m f s t rest a b first second = record {
    run = λ r w h.
        let h' : drop r.pos r.buf ≡ s ++ (t ++ rest) = h ∙ append_assoc s t rest in
        rw (first.run r w h', ◌>>=◌)
          (second.run (advance r (length s)) (advance-IsReader r w s (t ++ rest) h')
              (drop-advance r w s (t ++ rest) h')
            ∙ ap (λ (q : Reader). ok (b, q))
                (advance-advance r (length s) (length t)
                  ∙ ap (advance r) (sym (length-append s t))));
  }

  -- A step that reads nothing.
  pub Reads-then :
      (m : Read A) (f : A → Read B) (t rest : Bytes) (a : A) (b : B)
      → Reads m [] (t ++ rest) a
      → Reads (f a) t rest b
      → Reads (m >>= f) t rest b
  Reads-then m f t rest a b first second = Reads-bind m f [] t rest a b first second

  -- A step after which nothing is read.
  pub Reads-last :
      (m : Read A) (f : A → Read B) (s rest : Bytes) (a : A) (b : B)
      → Reads m s rest a
      → Reads (f a) [] rest b
      → Reads (m >>= f) s rest b
  Reads-last m f s rest a b first second =
      subst (λ x. Reads (m >>= f) x rest b) (append-nil s)
        (Reads-bind m f s [] rest a b first second)

pub Reads-check : (b : Bool) (e : Error) (rest : Bytes) → b ≡ true → Reads (check b e) [] rest tt
Reads-check b e rest h = rw h (Reads-pure tt rest)

pub Reads-guard {ℓ} :
    {A : Type ℓ} (b : Bool) (e : Error) (m : Read A) (s rest : Bytes) (v : A)
    → b ≡ true
    → Reads m s rest v
    → Reads (check b e >> m) s rest v
Reads-guard b e m s rest v h k =
    Reads-then (check b e) (λ _. m) s rest tt v (Reads-check b e (s ++ rest) h) k

-- `take_bytes` at the length of what follows.
pub Reads-take_bytes : (n : ℕ) (s rest : Bytes) → length s ≡ n → Reads (take_bytes n) s rest s
unfolding take_bytes
Reads-take_bytes n s rest len = record {
  run =
      λ r w h. ground (arith, room r w s rest h, w.sized, ap (take n) h ∙ take_front n s rest len);
}

-- A read that looks at what remains: `n` is at most its length.
pub Reads-bounded_len : (n : ℕ) (rest : Bytes) → n ≤ length rest → Reads (bounded_len n) [] rest n
unfolding bounded_len remaining
Reads-bounded_len n rest fits = record {
  run = λ r w h.
      rw (h, le→ltb (length rest) n fits) (ap (λ (q : Reader). ok (n, q)) (sym (advance_zero r)));
}
