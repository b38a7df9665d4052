-- ===== src/Core/Cbor/Fields/Loops.antt =====
-- The loops over a map and over an array read back what was written.
use forgefs.Base.{
  ℕ, ◌+◌, ◌-◌, ◌*◌, ◌/◌, ◌^◌, ◌≤◌, ◌<◌, ◌≡◌, ap, ◌∙◌, sym, subst, true, Option, none, some, List,
  [], ◌∷◌, ◌++◌, arith, leb, length, take, drop, take-append, All, Bytes, Str, length-append,
}
use forgefs.Types.{Error, ok}
use forgefs.Core.Cbor.{
  encode_bytes, concat_map, encode_text, encode_array_header, encode_map_header, push_uint,
}
use forgefs.Core.Cbor.Reader.{
  Reader, Read, ◌>>=◌, pure, above, text, bstr32, text_map_key, text_map_key_bounded, array,
  map_header, typed, remaining, usize_max,
}
use forgefs.Core.Cbor.Reader.Reads.{
  advance_zero, Reads, Reads-pure, Reads-bind, Reads-last, Reads-guard,
}
use forgefs.Core.Cbor.Uint.{IsU64, Reads-typed, Reads-text_bounded, Reads-bstr32}
use forgefs.Core.Cbor.Fields.{fields, repeat, read_map, read_array, IsText, concat_fields}
use forgefs.Core.Cbor.Fields.Sizes.{
  IsFilled, length-concat_fields, length-concat_map, bytes-IsFilled,
}

pub Reads-text : (s rest : Bytes) → IsText s → Reads text (encode_text s) rest s
unfolding text
Reads-text s rest (h, utf8) = Reads-text_bounded s rest usize_max h (omega arith) utf8

pub Reads-text_map_key :
    (last : Option Bytes) (k rest : Bytes)
    → IsText k
    → above last (encode_text k) ≡ true
    → Reads (text_map_key last) (encode_text k) rest (k, encode_text k)
unfolding text_map_key text_map_key_bounded
Reads-text_map_key last k rest (h, utf8) up = record {
  run = λ r w d.
      let e = encode_text k in
      let here : take (r.pos + length e - r.pos) (drop r.pos r.buf) ≡ e =
        ap (λ i. take i (drop r.pos r.buf)) (cancel r.pos (length e))
        ∙ ap (take (length e)) d
        ∙ take-append e rest in
      rw (
        (Reads-text_bounded k rest usize_max h (omega arith) utf8).run r w d,
        ◌>>=◌,
        here,
        up,
        here,
      );
}
  where
    cancel : (p n : ℕ) → p + n - p ≡ n
    cancel p n = omega arith

module _ (n : ℕ) (rest : Bytes) (h : IsU64 n) where
  pub Reads-array : n ≤ length rest → Reads array (encode_array_header n) rest n
  unfolding array encode_array_header remaining
  Reads-array fits =
      Reads-last (typed 4 _) _ (push_uint 4 n) rest n n
        (Reads-typed n rest 4 _ (omega arith) (omega arith) h)
        (record {
          run = λ r w d.
              rw (d, ◌>>=◌, enough) (ap (λ (q : Reader). ok (n, q)) (sym (advance_zero r)));
        })
    where
      enough : leb n (length rest) ≡ true
      enough = ground arith

  pub Reads-map_header : 2 * n ≤ length rest → Reads map_header (encode_map_header n) rest n
  unfolding map_header encode_map_header remaining
  Reads-map_header fits =
      Reads-last (typed 5 _) _ (push_uint 5 n) rest n n
        (Reads-typed n rest 5 _ (omega arith) (omega arith) h)
        (record {
          run = λ r w d.
              rw (d, ◌>>=◌, enough) (ap (λ (q : Reader). ok (n, q)) (sym (advance_zero r)));
        })
    where
      enough : leb n (length rest / 2) ≡ true
      enough = ground arith

-- A value that a step reads and keeps.
pub Reads-keep {ℓ κ} :
    {A : Type ℓ} {S : Type κ} (m : Read A) (f : A → S) (v rest : Bytes) (a : A)
    → Reads m v rest a
    → Reads (m >>= λ x. pure (f x)) v rest (f a)
Reads-keep m f v rest a h = Reads-last m _ v rest a (f a) h (Reads-pure (f a) rest)

module _ {ℓ} {S : Type ℓ} (step : S → Str → Read S) where
  -- Keys in order and values, and the states that `step` passes through from `s` to `t`.
  abbrev pub Run : Option Bytes → S → List (Str × Bytes) → Bytes → S → Type ℓ
  Run last s [] rest t = s ≡ t
  Run last s ((k, v) ∷ kvs) rest t =
      (s' : S) × IsText k
      × (above last (encode_text k) ≡ true)
      × Reads (step s k) v (concat_fields kvs ++ rest) s'
      × Run (some (encode_text k)) s' kvs rest t

  Reads-fields :
      (last : Option Bytes) (s : S) (kvs : List (Str × Bytes)) (rest : Bytes) (t : S)
      → Run last s kvs rest t
      → Reads (fields step (length kvs) last s) (concat_fields kvs) rest t
  unfolding fields
  Reads-fields last s [] rest t e = subst (λ x. Reads (pure s) [] rest x) e (Reads-pure s rest)
  Reads-fields last s ((k, v) ∷ kvs) rest t (s', key, up, one, more) =
      Reads-bind (text_map_key last) _ (encode_text k) (v ++ concat_fields kvs) rest
        (k, encode_text k) t (Reads-text_map_key last k _ key up)
        (Reads-bind (step s k) _ v (concat_fields kvs) rest s' t one
          (Reads-fields (some (encode_text k)) s' kvs rest t more))

  -- A map reads back: its header, then the keys and values.
  pub Reads-map :
      (kvs : List (Str × Bytes)) (s : S) (rest : Bytes) (t : S)
      → IsU64 (length kvs)
      → All (λ (kv : Str × Bytes). IsFilled kv.1) kvs
      → Run none s kvs rest t
      → Reads (read_map step s) (encode_map_header (length kvs) ++ concat_fields kvs) rest t
  Reads-map kvs s rest t h filled run =
      Reads-bind map_header _ (encode_map_header (length kvs)) (concat_fields kvs) rest (length kvs)
        t
        (Reads-map_header (length kvs) (concat_fields kvs ++ rest) h
          (omega (arith, length-append (concat_fields kvs) rest, length-concat_fields kvs filled)))
        (Reads-fields none s kvs rest t run)

module _ {ℓ} {A : Type ℓ} (m : Read A) (enc : A → Bytes) where
  Reads-repeat :
      (xs : List A) (rest : Bytes)
      → All (λ a. (after : Bytes) → Reads m (enc a) after a) xs
      → Reads (repeat (length xs) m) (concat_map enc xs) rest xs
  unfolding repeat
  Reads-repeat [] rest h = Reads-pure [] rest
  Reads-repeat (a ∷ xs) rest (one, more) =
      Reads-bind m _ (enc a) (concat_map enc xs) rest a (a ∷ xs) (one (concat_map enc xs ++ rest)) (
        Reads-last (repeat (length xs) m) _ (concat_map enc xs) rest xs (a ∷ xs)
          (Reads-repeat xs rest more) (Reads-pure (a ∷ xs) rest))

  -- An array reads back: its header, the test against a limit, then the items.
  pub Reads-array_of :
      (limit : ℕ) (e : Error) (xs : List A) (rest : Bytes)
      → IsU64 (length xs)
      → length xs ≤ limit
      → ((a : A) → IsFilled (enc a))
      → All (λ a. (after : Bytes) → Reads m (enc a) after a) xs
      → Reads (read_array limit e m) (encode_array_header (length xs) ++ concat_map enc xs) rest xs
  Reads-array_of limit e xs rest h few filled all =
      Reads-bind array _ (encode_array_header (length xs)) (concat_map enc xs) rest (length xs) xs
        (Reads-array (length xs) (concat_map enc xs ++ rest) h
          (omega (arith, length-append (concat_map enc xs) rest, length-concat_map enc filled xs)))
        (Reads-guard (leb (length xs) limit) e (repeat (length xs) m) (concat_map enc xs) rest xs
          (ground arith) (Reads-repeat xs rest all))

bstr32s :
    (ids : List Bytes)
    → All (λ (id : Bytes). length id ≡ 32) ids
    → All (λ (id : Bytes). (after : Bytes) → Reads bstr32 (encode_bytes id) after id) ids
bstr32s [] sizes = tt
bstr32s (id ∷ ids) (one, more) = (λ after. Reads-bstr32 id after one, bstr32s ids more)

-- An array of ids reads back.
pub Reads-ids :
    (limit : ℕ) (e : Error) (ids : List Bytes) (rest : Bytes)
    → limit < 2 ^ 64
    → length ids ≤ limit
    → All (λ (id : Bytes). length id ≡ 32) ids
    → Reads
        (read_array limit e bstr32)
        (encode_array_header (length ids) ++ concat_map encode_bytes ids)
        rest
        ids
Reads-ids limit e ids rest h few sizes =
    Reads-array_of bstr32 encode_bytes limit e ids rest (omega arith) few (bytes-IsFilled 0)
      (bstr32s ids sizes)
