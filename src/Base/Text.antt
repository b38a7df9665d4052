-- ===== src/Base/Text.antt =====
-- What the code uses of `str`: UTF-8 validity, prefixes, splitting, trimming, `parse::<u64>`.
use Prim.Native.Nat.{ℕ, zero, suc, ◌+◌, ◌-◌, ◌*◌, ◌^◌, ◌≤◌}
use mathlib.Core.Path.{◌≡◌, refl}
use mathlib.Core.Bool.{Bool, true, false, ◌&&◌, ◌||◌}
use mathlib.Core.Option.{Option, none, some}
use mathlib.Core.List.{List, [], ◌∷◌, reverse, reverse-append, reverse-reverse}
use native.Mathlib.Omega.{arith}
use forgefs.Base.Tests.{ltb, leb, eqb, if◌then◌else◌}
use forgefs.Base.Lists.{All, All-append}
use forgefs.Base.Byte.{Bytes, Str}

abbrev between : ℕ → ℕ → ℕ → Bool
between lo hi b = leb lo b && leb b hi

-- For a lead byte: how many bytes follow, and the range of the next one.
lead : ℕ → Option (ℕ × ℕ × ℕ)
lead b =
    if leb b 0x7f
    then some (0, 0x80, 0xbf)
    else if between 0xc2 0xdf b
    then some (1, 0x80, 0xbf)
    else if eqb b 0xe0
    then some (2, 0xa0, 0xbf)
    else if eqb b 0xed
    then some (2, 0x80, 0x9f)
    else if between 0xe1 0xef b
    then some (2, 0x80, 0xbf)
    else if eqb b 0xf0
    then some (3, 0x90, 0xbf)
    else if between 0xf1 0xf3 b
    then some (3, 0x80, 0xbf)
    else if eqb b 0xf4
    then some (3, 0x80, 0x8f)
    else none

utf8_from : ℕ → ℕ → ℕ → Bytes → Bool
utf8_from zero lo hi [] = true
utf8_from zero lo hi (b ∷ bs) = elim (lead b) [ none ↦ false | some (n, l, h) ↦ utf8_from n l h bs ]
utf8_from (suc n) lo hi [] = false
utf8_from (suc n) lo hi (b ∷ bs) =
    let rest = utf8_from n 0x80 0xbf bs in if between lo hi b then rest else false

-- `String::from_utf8` accepts exactly these bytes.
unfoldable pub is_utf8 : Bytes → Bool
unfolding utf8_from lead
is_utf8 bs = utf8_from 0 0x80 0xbf bs

unfoldable pub strip_prefix : Str → Str → Option Str
strip_prefix s [] = some s
strip_prefix [] (p ∷ ps) = none
strip_prefix (c ∷ s) (p ∷ ps) = let rest = strip_prefix s ps in if eqb c p then rest else none

unfoldable pub starts_with : Str → Str → Bool
starts_with s [] = true
starts_with [] (p ∷ ps) = false
starts_with (c ∷ s) (p ∷ ps) = eqb c p && starts_with s ps

-- `strip_suffix` of one ASCII character.
unfoldable pub strip_suffix_char : Str → ℕ → Option Str
strip_suffix_char [] d = none
strip_suffix_char (c ∷ []) d = if eqb c d then some [] else none
strip_suffix_char (c ∷ e ∷ s) d = elim (strip_suffix_char (e ∷ s) d) [
  | none ↦ none
  | some t ↦ some (c ∷ t)
]

-- Puts a byte in front of the first piece.
abbrev grow : ℕ → List Str → List Str
grow c [] = (c ∷ []) ∷ []
grow c (p ∷ ps) = (c ∷ p) ∷ ps

-- `split` at one ASCII character: one piece more than there are separators.
unfoldable pub split : Str → ℕ → List Str
split [] d = [] ∷ []
split (c ∷ s) d = let rest = split s d in if eqb c d then [] ∷ rest else grow c rest

-- `split_once` at one ASCII character.
unfoldable pub split_once : Str → ℕ → Option (Str × Str)
split_once [] d = none
split_once (c ∷ s) d =
    let rest = split_once s d in
    if eqb c d then some ([], s) else elim rest [ none ↦ none | some (a, b) ↦ some (c ∷ a, b) ]

-- `char::is_whitespace` for the characters of one, two and three bytes.
white1 : ℕ → Bool
white1 a = between 9 13 a || eqb a 32

white2 : ℕ → ℕ → Bool
white2 a b = eqb a 0xc2 && (eqb b 0x85 || eqb b 0xa0)

white3 : ℕ → ℕ → ℕ → Bool
white3 a b c =
    (eqb a 0xe1 && eqb b 0x9a && eqb c 0x80)
    || (eqb a 0xe2
        && ((eqb b 0x80 && (between 0x80 0x8a c || between 0xa8 0xa9 c || eqb c 0xaf))
            || (eqb b 0x81 && eqb c 0x9f)))
    || (eqb a 0xe3 && eqb b 0x80 && eqb c 0x80)

module _ (two : ℕ → ℕ → Bool) (three : ℕ → ℕ → ℕ → Bool) where
  trim_by : Str → Str
  trim_by [] = []
  trim_by (a ∷ []) = if white1 a then [] else a ∷ []
  trim_by (a ∷ b ∷ []) =
      let next = trim_by (b ∷ []) in if white1 a then next else if two a b then [] else a ∷ b ∷ []
  trim_by (a ∷ b ∷ c ∷ s) =
      let after1 = trim_by (b ∷ c ∷ s) in
      let after2 = trim_by (c ∷ s) in
      let after3 = trim_by s in
      if white1 a
      then after1
      else if two a b
      then after2
      else if three a b c
      then after3
      else a ∷ b ∷ c ∷ s

trim_start_white : Str → Str
unfolding trim_by white1 white2 white3
trim_start_white s = trim_by white2 white3 s

-- The end is trimmed on the reversed bytes, where a lead byte comes last.
unfoldable pub trim : Str → Str
unfolding trim_start_white
trim s =
    reverse (trim_by (λ a b. white2 b a) (λ a b c. white3 c b a) (reverse (trim_start_white s)))

-- Visible ASCII.
abbrev pub IsGraphic : ℕ → Type 0
IsGraphic b = (33 ≤ b) × (b ≤ 127)

trim_by-graphic :
    (two : ℕ → ℕ → Bool) (three : ℕ → ℕ → ℕ → Bool) (s : Str)
    → ((a b : ℕ) → IsGraphic a → two a b ≡ false)
    → ((a b c : ℕ) → IsGraphic a → three a b c ≡ false)
    → All IsGraphic s
    → trim_by two three s ≡ s
unfolding trim_by white1
trim_by-graphic two three [] t2 t3 h = refl
trim_by-graphic two three (a ∷ []) t2 t3 h = ground arith
trim_by-graphic two three (a ∷ b ∷ []) t2 t3 h = ground (arith, t2 a b h.0)
trim_by-graphic two three (a ∷ b ∷ c ∷ s) t2 t3 h = ground (arith, t2 a b h.0, t3 a b c h.0)

All-reverse : (s : Str) → All IsGraphic s → All IsGraphic (reverse s)
All-reverse [] h = tt
All-reverse (a ∷ s) h =
    rw (reverse-append (a ∷ []) s)
      (All-append IsGraphic (reverse s) (a ∷ []) (All-reverse s h.1) (h.0, tt))

-- Text with no white space and no character past ASCII is left as it is.
pub trim-graphic : (s : Str) → All IsGraphic s → trim s ≡ s
unfolding trim white2 white3
trim-graphic s h =
    rw
      (
        trim_by-graphic white2 white3 s (λ a b g. ground arith) (λ a b c g. ground arith) h,
        trim_by-graphic (λ a b. white2 b a) (λ a b c. white3 c b a) (reverse s)
            (λ a b g. ground arith) (λ a b c g. ground arith) (All-reverse s h),
      )
      (reverse-reverse s)

digits_u64 : ℕ → Str → Option ℕ
digits_u64 n [] = some n
digits_u64 n (c ∷ s) =
    let next = n * 10 + (c - 48) in
    let rest = digits_u64 next s in if between 48 57 c && ltb next (2 ^ 64) then rest else none

-- `parse::<u64>`: one leading `+` is allowed, and an overflow is refused.
unfoldable pub parse_u64 : Str → Option ℕ
unfolding digits_u64
parse_u64 [] = none
parse_u64 (c ∷ []) = if eqb c b'+' then none else digits_u64 0 (c ∷ [])
parse_u64 (c ∷ d ∷ s) = if eqb c b'+' then digits_u64 0 (d ∷ s) else digits_u64 0 (c ∷ d ∷ s)
