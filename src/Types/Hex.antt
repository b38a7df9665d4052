-- ===== src/Types/Hex.antt =====
-- Hexadecimal text of object ids.
use forgefs.Base.{
  ℕ, ◌+◌, ◌-◌, ◌*◌, ◌/◌, ◌%◌, ◌<◌, ◌≡◌, refl, Bool, true, false, none, some, [], ◌∷◌, arith, leb,
  eqb, if◌then◌else◌, length, get_elem?, take, drop, All, ◌&&◌, bit_and, bit_or, Bytes, Str, IsByte,
  bytes, low_nibble, join_nibbles, trim, trim-graphic, IsGraphic, holds_below, below_holds,
}
use forgefs.Types.{ObjectId, IsObjectId, invalid, Result, ok, err, ◌>>=◌, guard, ◌>>◌}

-- `HEX[i]`
abbrev hex_digit : ℕ → ℕ
hex_digit i = elim (get_elem? (bytes "0123456789abcdef") i) [ none ↦ 0 | some c ↦ c ]

unfoldable pub hex_encode : Bytes → Str
hex_encode [] = []
hex_encode (b ∷ bs) = hex_digit (b / 16) ∷ hex_digit (bit_and b 0xf) ∷ hex_encode bs

hex_val : ℕ → Result ℕ
hex_val c =
    if leb b'0' c && leb c b'9'
    then ok (c - b'0')
    else if leb b'a' c && leb c b'f'
    then ok (c - b'a' + 10)
    else if leb b'A' c && leb c b'F'
    then ok (c - b'A' + 10)
    else err (invalid "invalid hex digit")

-- The loop over the pairs, after the test for an even length.
hex_pairs : Bytes → Result Bytes
unfolding hex_val
hex_pairs [] = ok []
hex_pairs (c ∷ []) = ok []
hex_pairs (c ∷ d ∷ s) = do
  hi ← hex_val c
  lo ← hex_val d
  rest ← hex_pairs s
  ok (bit_or (hi * 16 % 256) lo ∷ rest)

unfoldable pub hex_decode : Str → Result Bytes
unfolding hex_pairs
hex_decode s = do guard (eqb (length s % 2) 0) (invalid "odd hex length"); hex_pairs s

unfoldable pub from_hex : Str → Result ObjectId
from_hex s = do
  raw ← hex_decode (trim s)
  guard (eqb (length raw) 32) (invalid "object id hex must be 64 chars, got {}")
  ok raw

unfoldable pub shard_dirs : ObjectId → Str × Str
shard_dirs id = let h = hex_encode id in (take 2 h, take 2 (drop 2 h))

reads_back : ℕ → Bool
reads_back i = elim (hex_val (hex_digit i)) [ ok v ↦ eqb v i | err e ↦ false ]

reads_back_table : holds_below 16 reads_back ≡ true
unfolding holds_below reads_back hex_val
reads_back_table = refl

reads_back_sound :
    (i : ℕ) (r : Result ℕ) → elim r [ ok v ↦ eqb v i | err e ↦ false ] ≡ true → r ≡ ok i
reads_back_sound i (ok v) h = ground arith
reads_back_sound i (err e) h = cc

hex_val-hex_digit : (i : ℕ) → i < 16 → hex_val (hex_digit i) ≡ ok i
unfolding reads_back
hex_val-hex_digit i h =
    reads_back_sound i (hex_val (hex_digit i)) (below_holds 16 reads_back i reads_back_table h)

graphic : ℕ → Bool
graphic i = leb 33 (hex_digit i) && leb (hex_digit i) 127

graphic_table : holds_below 16 graphic ≡ true
unfolding holds_below graphic
graphic_table = refl

leb_both : (a : ℕ) → (leb 33 a && leb a 127) ≡ true → IsGraphic a
leb_both a h = ground arith

hex_digit-IsGraphic : (i : ℕ) → i < 16 → IsGraphic (hex_digit i)
unfolding graphic
hex_digit-IsGraphic i h = leb_both (hex_digit i) (below_holds 16 graphic i graphic_table h)

hex_encode-IsGraphic : (bs : Bytes) → All IsByte bs → All IsGraphic (hex_encode bs)
unfolding hex_encode
hex_encode-IsGraphic [] h = tt
hex_encode-IsGraphic (b ∷ bs) (hb, hbs) = (
  hex_digit-IsGraphic (b / 16) (omega arith),
  (rw (low_nibble b hb) (hex_digit-IsGraphic (b % 16) (omega arith)), hex_encode-IsGraphic bs hbs),
)

pub length-hex_encode : (bs : Bytes) → length (hex_encode bs) ≡ 2 * length bs
unfolding hex_encode
length-hex_encode [] = refl
length-hex_encode (b ∷ bs) = omega (arith, length-hex_encode bs)

hex_pairs-hex_encode : (bs : Bytes) → All IsByte bs → hex_pairs (hex_encode bs) ≡ ok bs
unfolding hex_encode hex_pairs
hex_pairs-hex_encode [] h = refl
hex_pairs-hex_encode (b ∷ bs) (hb, hbs) = rw (
  low_nibble b hb,
  hex_val-hex_digit (b / 16) (omega arith),
  hex_val-hex_digit (b % 16) (omega arith),
  hex_pairs-hex_encode bs hbs,
  join_nibbles b hb,
)

even_length : (bs : Bytes) → eqb (length (hex_encode bs) % 2) 0 ≡ true
even_length bs = ground (arith, length-hex_encode bs)

-- Decoding the hexadecimal text of any bytes gives those bytes back.
pub hex_decode-hex_encode : (bs : Bytes) → All IsByte bs → hex_decode (hex_encode bs) ≡ ok bs
unfolding hex_decode
hex_decode-hex_encode bs h = rw (even_length bs) (hex_pairs-hex_encode bs h)

-- The text of an object id is 64 characters, and parses to that id.
pub from_hex-hex_encode :
    (id : ObjectId)
    → IsObjectId id
    → (length (hex_encode id) ≡ 64) × (from_hex (hex_encode id) ≡ ok id)
unfolding from_hex
from_hex-hex_encode id (len, h) = (
  omega (arith, length-hex_encode id),
  rw (trim-graphic (hex_encode id) (hex_encode-IsGraphic id h), hex_decode-hex_encode id h, len),
)
