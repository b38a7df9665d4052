-- ===== src/Core/Cbor/Uint.antt =====
-- Headers with their integers, and the strings behind them, read back.
use forgefs.Base.{
  ℕ, ◌+◌, ◌*◌, ◌/◌, ◌%◌, ◌^◌, ◌≤◌, ◌<◌, ◌≡◌, ◌≢◌, refl, subst, Bool, true, false, not, [], ◌∷◌,
  ◌++◌, arith, ltb, lt→ltb, leb, eqb, length, bit_or, Bytes, join_major, low_five, to_be_bytes,
  from_be_bytes, length-to_be_bytes, from_be_bytes-to_be_bytes, ◌⊎◌, inl, inr, is_utf8,
  length-append,
}
use forgefs.Types.{Error}
use forgefs.Core.Cbor.{
  u8_len, tail_of, push_uint, encode_u64, encode_bool, encode_bytes, encode_text,
}
use forgefs.Core.Cbor.Reader.{
  pure, take_bytes, take_wide, take_uint, header, typed, u64, bool, byte_string, bstr32,
  bounded_len, text_bounded,
}
use forgefs.Core.Cbor.Reader.Reads.{
  Reads, Reads-pure, Reads-bind, Reads-then, Reads-last, Reads-guard, Reads-take_bytes,
  Reads-bounded_len,
}

abbrev pub IsU64 : ℕ → Type 0
IsU64 n = n < 2 ^ 64

u8_len-lt : (n : ℕ) → u8_len n < 28
unfolding u8_len
u8_len-lt n = ground arith

first_byte :
    (major ai : ℕ)
    → major < 8
    → ai < 32
    → (bit_or (major * 32 % 256) ai ≡ major * 32 + ai) × (major * 32 + ai < 256)
first_byte major ai hm ha = (
  let q : (major * 32 + ai) / 32 ≡ major = omega arith in
      let r : (major * 32 + ai) % 32 ≡ ai = omega arith in
      subst (λ x. bit_or (x * 32 % 256) ai ≡ major * 32 + ai) q
        (subst (λ x. bit_or ((major * 32 + ai) / 32 * 32 % 256) x ≡ major * 32 + ai) r
          (join_major (major * 32 + ai) (omega arith))),
  omega arith,
)

one_byte : (b : ℕ) → from_be_bytes (b ∷ []) ≡ b
unfolding from_be_bytes
one_byte b = omega arith

Reads-header :
    (b : ℕ) (rest : Bytes) → b < 256 → b / 32 ≢ 6 → Reads header (b ∷ []) rest (b / 32, b % 32)
unfolding header
Reads-header b rest hb tag =
    Reads-last (take_bytes 1) _ (b ∷ []) rest (b ∷ []) _ (Reads-take_bytes 1 (b ∷ []) rest refl) (
      rw (one_byte b) (
        Reads-guard (not (eqb (b / 32) 6)) _ _ [] rest _ (ground arith)
          (rw (low_five b hb) (Reads-pure (b / 32, b % 32) rest))))

Reads-header_parts :
    (major ai : ℕ) (rest : Bytes)
    → major * 32 + ai < 256
    → ai < 32
    → major ≢ 6
    → Reads header ((major * 32 + ai) ∷ []) rest (major, ai)
Reads-header_parts major ai rest hb ha tag =
    subst (λ p. Reads header ((major * 32 + ai) ∷ []) rest p) (ground arith)
      (Reads-header (major * 32 + ai) rest hb (omega arith))

Reads-take_wide :
    (k floor n : ℕ) (rest : Bytes)
    → n < 256 ^ k
    → floor < n
    → Reads (take_wide k floor) (to_be_bytes k n) rest n
unfolding take_wide
Reads-take_wide k floor n rest fits over =
    Reads-last (take_bytes k) _ (to_be_bytes k n) rest (to_be_bytes k n) n
      (Reads-take_bytes k (to_be_bytes k n) rest (length-to_be_bytes k n))
      (rw (from_be_bytes-to_be_bytes k n fits)
        (Reads-guard (ltb floor n) _ _ [] rest n (lt→ltb floor n over) (Reads-pure n rest)))

module _ (n : ℕ) (rest : Bytes) where
  -- One rule for each of the five forms.
  take_uint_1 : n < 24 → Reads (take_uint (u8_len n)) (tail_of (u8_len n) n) rest n
  unfolding take_uint
  take_uint_1 h = rw (tiny, no_tail, small) (Reads-pure n rest)
    where
      tiny : u8_len n ≡ n
      tiny = unfold u8_len in ground arith

      no_tail : tail_of n n ≡ []
      no_tail = ground arith

      small : leb n 23 ≡ true
      small = ground arith

  take_uint_2 : 24 ≤ n → n < 256 → Reads (take_uint (u8_len n)) (tail_of (u8_len n) n) rest n
  unfolding take_uint
  take_uint_2 l h = rw (form, low) (Reads-take_wide 1 23 n rest h l)
    where
      form : u8_len n ≡ 24
      form = unfold u8_len in ground arith

      low : n % 256 ≡ n
      low = omega arith

  take_uint_3 : 256 ≤ n → n < 65536 → Reads (take_uint (u8_len n)) (tail_of (u8_len n) n) rest n
  unfolding take_uint
  take_uint_3 l h = rw (form, low) (Reads-take_wide 2 0xff n rest h l)
    where
      form : u8_len n ≡ 25
      form = unfold u8_len in ground arith

      low : n % 65536 ≡ n
      low = omega arith

  take_uint_4 : 65536 ≤ n → n < 2 ^ 32 → Reads (take_uint (u8_len n)) (tail_of (u8_len n) n) rest n
  unfolding take_uint
  take_uint_4 l h = rw (form, low) (Reads-take_wide 4 0xffff n rest h l)
    where
      form : u8_len n ≡ 26
      form = unfold u8_len in ground arith

      low : n % 2 ^ 32 ≡ n
      low = omega arith

  take_uint_5 : 2 ^ 32 ≤ n → n < 2 ^ 64 → Reads (take_uint (u8_len n)) (tail_of (u8_len n) n) rest n
  unfolding take_uint
  take_uint_5 l h = rw form (Reads-take_wide 8 0xffff_ffff n rest h l)
    where
      form : u8_len n ≡ 27
      form = unfold u8_len in ground arith

  Reads-take_uint : IsU64 n → Reads (take_uint (u8_len n)) (tail_of (u8_len n) n) rest n
  Reads-take_uint h = elim sizes [
    | inl a ↦ take_uint_1 a
    | inr (inl (l, a)) ↦ take_uint_2 l a
    | inr (inr (inl (l, a))) ↦ take_uint_3 l a
    | inr (inr (inr (inl (l, a)))) ↦ take_uint_4 l a
    | inr (inr (inr (inr (l, a)))) ↦ take_uint_5 l a
  ]
    where
      sizes :
          (n < 24)
          ⊎ (((24 ≤ n) × (n < 256))
              ⊎ (((256 ≤ n) × (n < 65536))
                  ⊎ (((65536 ≤ n) × (n < 2 ^ 32)) ⊎ ((2 ^ 32 ≤ n) × (n < 2 ^ 64)))))
      sizes = omega arith

  -- A header of any major type but the tags', with its integer, reads back.
  pub Reads-typed :
      (major : ℕ) (e : Error)
      → major < 8
      → major ≢ 6
      → IsU64 n
      → Reads (typed major e) (push_uint major n) rest n
  unfolding typed push_uint
  Reads-typed major e hm tag h =
      let ai = u8_len n in
      let (split, byte) = first_byte major ai hm (omega (arith, u8_len-lt n)) in
      rw split (
        Reads-bind header _ ((major * 32 + ai) ∷ []) (tail_of ai n) rest (major, ai) n
          (Reads-header_parts major ai (tail_of ai n ++ rest) byte (omega (arith, u8_len-lt n)) tag)
          (Reads-guard (eqb major major) e (take_uint ai) (tail_of ai n) rest n (ground arith)
            (Reads-take_uint h)))

length-tail_of : (ai n : ℕ) → length (tail_of ai n) ≤ 8
length-tail_of ai n = ground (
  arith,
  length-to_be_bytes 1 (n % 256),
  length-to_be_bytes 2 (n % 65536),
  length-to_be_bytes 4 (n % 2 ^ 32),
  length-to_be_bytes 8 n,
)

pub length-push_uint : (major n : ℕ) → length (push_uint major n) ≤ 9
unfolding push_uint
length-push_uint major n = omega (arith, length-tail_of (u8_len n) n)

pub length-encode_u64 : (n : ℕ) → length (encode_u64 n) ≤ 9
unfolding encode_u64
length-encode_u64 n = length-push_uint 0 n

-- `encode_u64` reads back.
pub Reads-u64 : (n : ℕ) (rest : Bytes) → IsU64 n → Reads u64 (encode_u64 n) rest n
unfolding u64 encode_u64
Reads-u64 n rest h = Reads-typed n rest 0 _ (omega arith) (omega arith) h

pub Reads-bool : (v : Bool) (rest : Bytes) → Reads bool (encode_bool v) rest v
unfolding bool encode_bool from_be_bytes
Reads-bool true rest =
    Reads-last (take_bytes 1) _ (0xf5 ∷ []) rest (0xf5 ∷ []) true
      (Reads-take_bytes 1 (0xf5 ∷ []) rest refl) (Reads-pure true rest)
Reads-bool false rest =
    Reads-last (take_bytes 1) _ (0xf4 ∷ []) rest (0xf4 ∷ []) false
      (Reads-take_bytes 1 (0xf4 ∷ []) rest refl) (Reads-pure false rest)

pub Reads-byte_string :
    (b rest : Bytes) → IsU64 (length b) → Reads byte_string (encode_bytes b) rest b
unfolding byte_string encode_bytes
Reads-byte_string b rest h =
    Reads-bind (typed 2 _) _ (push_uint 2 (length b)) b rest (length b) b
      (Reads-typed (length b) (b ++ rest) 2 _ (omega arith) (omega arith) h)
      (Reads-then (bounded_len (length b)) take_bytes b rest (length b) b
        (Reads-bounded_len (length b) (b ++ rest) (omega (arith, length-append b rest)))
        (Reads-take_bytes (length b) b rest refl))

pub Reads-bstr32 : (b rest : Bytes) → length b ≡ 32 → Reads bstr32 (encode_bytes b) rest b
unfolding bstr32
Reads-bstr32 b rest h =
    Reads-last byte_string _ (encode_bytes b) rest b b (Reads-byte_string b rest (omega arith))
      (Reads-guard (eqb (length b) 32) _ (pure b) [] rest b (ground arith) (Reads-pure b rest))

pub Reads-text_bounded :
    (s rest : Bytes) (max_bytes : ℕ)
    → IsU64 (length s)
    → length s ≤ max_bytes
    → is_utf8 s ≡ true
    → Reads (text_bounded max_bytes) (encode_text s) rest s
unfolding text_bounded encode_text
Reads-text_bounded s rest max_bytes h fits utf8 =
    Reads-bind (typed 3 _) _ (push_uint 3 (length s)) s rest (length s) s
      (Reads-typed (length s) (s ++ rest) 3 _ (omega arith) (omega arith) h)
      (Reads-then (bounded_len (length s)) _ s rest (length s) s
        (Reads-bounded_len (length s) (s ++ rest) (omega (arith, length-append s rest)))
        (Reads-guard (leb (length s) max_bytes) _ _ s rest s (ground arith) (
          Reads-last (take_bytes (length s)) _ s rest s s (Reads-take_bytes (length s) s rest refl)
            (Reads-guard (is_utf8 s) _ (pure s) [] rest s utf8 (Reads-pure s rest)))))
