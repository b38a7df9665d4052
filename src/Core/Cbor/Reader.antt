-- ===== src/Core/Cbor/Reader.antt =====
-- forge-core/cbor.rs, `Reader`: a cursor in a buffer. `usize` has 64 bits.
pub mod Reads
use forgefs.Base.{
  ℕ, suc, ◌+◌, ◌-◌, ◌*◌, ◌/◌, ◌^◌, ◌≤◌, ◌<◌, Bool, true, false, not, ◌&&◌, Option, none, some, List,
  [], ◌∷◌, ◌++◌, ltb, leb, eqb, if◌then◌else◌, length, take, drop, bit_and, lt_bytes, Bytes, Str,
  from_be_bytes, is_utf8,
}
use forgefs.Types.{Error, corrupt, Result, ok, err}

pub record Reader : Type 0 where
  pub buf : Bytes
  pub pos : ℕ

abbrev pub new : Bytes → Reader
new buf = record { buf = buf; pos = 0 }

-- A method that advances the cursor and may fail.
abbrev pub Read {ℓ} : Type ℓ → Type ℓ
Read A = Reader → Result (A × Reader)

infixl 5 ◌>>=◌ ◌>>◌
abbrev pub ◌>>=◌ {ℓ κ} : {A : Type ℓ} {B : Type κ} → Read A → (A → Read B) → Read B
◌>>=◌ m f r = elim (m r) [ ok (a, r') ↦ f a r' | err e ↦ err e ]

abbrev pub ◌>>◌ {ℓ} : {B : Type ℓ} → Read (Unit {0}) → Read B → Read B
m >> k = m >>= λ _. k

abbrev pub pure {ℓ} : {A : Type ℓ} → A → Read A
pure a r = ok (a, r)

abbrev pub fail {ℓ} : {A : Type ℓ} → Error → Read A
fail e r = err e

-- `if !b { return Err(e) }`
abbrev pub check : Bool → Error → Read (Unit {0})
check true e = pure tt
check false e = fail e

abbrev pub lift {ℓ} : {A : Type ℓ} → Result A → Read A
lift (ok a) = pure a
lift (err e) = fail e

unfoldable pub remaining : Reader → Bytes
remaining r = drop r.pos r.buf

unfoldable pub at_end : Reader → Bool
at_end r = eqb r.pos (length r.buf)

abbrev pub usize_max : ℕ
usize_max = 2 ^ 64 - 1

-- `Reader::take`
unfoldable pub take_bytes : ℕ → Read Bytes
take_bytes n r =
    if ltb usize_max (r.pos + n)
    then err (corrupt "cbor length overflow")
    else if ltb (length r.buf) (r.pos + n)
    then err (corrupt "cbor truncated")
    else ok (take n (drop r.pos r.buf), record r { pos = r.pos + n })

-- `n` bytes as an integer that is above `floor`, the shorter form's largest.
unfoldable pub take_wide : ℕ → ℕ → Read ℕ
take_wide n floor = do
  b ← take_bytes n
  check (ltb floor (from_be_bytes b)) (corrupt "non-canonical uint")
  pure (from_be_bytes b)

unfoldable pub take_uint : ℕ → Read ℕ
take_uint ai =
    if leb ai 23
    then pure ai
    else if eqb ai 24
    then take_wide 1 23
    else if eqb ai 25
    then take_wide 2 0xff
    else if eqb ai 26
    then take_wide 4 0xffff
    else if eqb ai 27
    then take_wide 8 0xffff_ffff
    else if eqb ai 31
    then fail (corrupt "indefinite cbor is not canonical")
    else fail (corrupt "cbor additional info")

unfoldable pub header : Read (ℕ × ℕ)
header = do
  b ← take_bytes 1
  let first = from_be_bytes b
  check (not (eqb (first / 32) 6)) (corrupt "cbor tags are not canonical here")
  pure (first / 32, bit_and first 0x1f)

-- `usize::try_from` of a `u64` does not fail at 64 bits.
unfoldable pub bounded_len : ℕ → Read ℕ
bounded_len n r =
    if ltb (length (remaining r)) n then err (corrupt "{what} length exceeds input") else ok (n, r)

-- A header of one major type, and its argument.
unfoldable pub typed : ℕ → Error → Read ℕ
typed major e = do (m, ai) ← header; check (eqb m major) e; take_uint ai

-- `Reader::u64`
unfoldable pub u64 : Read ℕ
u64 = typed 0 (corrupt "expected uint")

-- `Reader::bool`
unfoldable pub bool : Read Bool
bool = do
  b ← take_bytes 1
  let first = from_be_bytes b
  if eqb first 0xf4
      then pure false
      else if eqb first 0xf5
      then pure true
      else fail (corrupt "expected bool")

unfoldable pub null_or {ℓ} : {A : Type ℓ} → Read A → Read (Option A)
null_or read r = elim (drop r.pos r.buf) [
  | [] ↦ (read >>= λ a. pure (some a)) r
  | b ∷ _ ↦
      if eqb b 0xf6
      then ok (none, record r { pos = r.pos + 1 })
      else (read >>= λ a. pure (some a)) r
]

-- `Reader::bytes`
unfoldable pub byte_string : Read Bytes
byte_string = do raw ← typed 2 (corrupt "expected bytes"); n ← bounded_len raw; take_bytes n

unfoldable pub bstr32 : Read Bytes
bstr32 = do
  b ← byte_string
  check (eqb (length b) 32) (corrupt "expected 32-byte bstr, got {}")
  pure b

unfoldable pub text_bounded : ℕ → Read Str
text_bounded max_bytes = do
  raw ← typed 3 (corrupt "expected text")
  n ← bounded_len raw
  check (leb n max_bytes) (corrupt "{what} exceeds byte limit")
  s ← take_bytes n
  check (is_utf8 s) (corrupt "utf8")
  pure s

unfoldable pub text : Read Str
text = text_bounded usize_max

-- Without a key before, or above it.
abbrev pub above : Option Bytes → Bytes → Bool
above none encoded = true
above (some prev) encoded = lt_bytes prev encoded

-- Returns the key, and its encoding, which is the next call's `last`.
unfoldable pub text_map_key_bounded : Option Bytes → ℕ → Read (Str × Bytes)
text_map_key_bounded last max_bytes start =
    (do
      k ← text_bounded max_bytes
      encoded ← λ r. ok (take (r.pos - start.pos) (drop start.pos start.buf), r)
      check (above last encoded) (corrupt "cbor map keys not strictly sorted")
      pure (k, encoded))
      start

unfoldable pub text_map_key : Option Bytes → Read (Str × Bytes)
text_map_key last = text_map_key_bounded last usize_max

-- `Reader::array`
unfoldable pub array : Read ℕ
array = do
  n ← typed 4 (corrupt "expected array")
  _ ← λ r. check (leb n (length (remaining r))) (corrupt "array count exceeds input") r
  pure n

-- `Reader::map`
unfoldable pub map_header : Read ℕ
map_header = do
  n ← typed 5 (corrupt "expected map")
  _ ← λ r. check (leb n (length (remaining r) / 2)) (corrupt "map count exceeds input") r
  pure n
