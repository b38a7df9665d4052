-- ===== src/Base/Byte.antt =====
-- Bytes as numbers below 256: bit operations, `to_be_bytes` and `from_be_bytes`, text as bytes.
use Prim.Native.Nat.{ℕ, zero, suc, ◌+◌, ◌*◌, ◌/◌, ◌%◌, ◌^◌, ◌<◌, bit_and, bit_or}
use Prim.Native.Char.{code}
use Prim.Native.String.{String}
use mathlib.Core.Path.{◌≡◌, refl, ap, ◌∙◌}
use mathlib.Core.Bool.{Bool, true, ◌&&◌}
use mathlib.Core.List.{List, [], ◌∷◌, ◌++◌, append_assoc, append-nil}
use native.Mathlib.Omega.{arith}
use native.Mathlib.Nat.{pow-suc}
use forgefs.Base.Tests.{eqb}
use forgefs.Base.Equality.{eqb_iff}
use forgefs.Base.Lists.{length, length-append, All, All-append}

abbrev pub Bytes : Type 0
Bytes = List ℕ

-- A `String` is its UTF-8 bytes.
abbrev pub Str : Type 0
Str = List ℕ

abbrev pub IsByte : ℕ → Type 0
IsByte b = b < 256

-- The bytes of an ASCII literal.
abbrev pub bytes : String → Bytes
bytes String.[] = []
bytes (String.◌∷◌ c s) = code c ∷ bytes s

-- A test of every byte is one computation.
unfoldable pub holds_below : ℕ → (ℕ → Bool) → Bool
holds_below zero test = true
holds_below (suc n) test = holds_below n test && test n

pub below_holds :
    (n : ℕ) (test : ℕ → Bool) (i : ℕ) → holds_below n test ≡ true → i < n → test i ≡ true
unfolding holds_below
below_holds zero test i all small = absurd (omega arith)
below_holds (suc n) test i all small = ground (arith, below_holds n test i)

low_nibble_table : holds_below 256 (λ x. eqb (bit_and x 0xf) (x % 16)) ≡ true
unfolding holds_below
low_nibble_table = refl

pub low_nibble : (x : ℕ) → x < 256 → bit_and x 0xf ≡ x % 16
low_nibble x h = (eqb_iff _ _).0 (below_holds 256 _ x low_nibble_table h)

low_five_table : holds_below 256 (λ x. eqb (bit_and x 0x1f) (x % 32)) ≡ true
unfolding holds_below
low_five_table = refl

pub low_five : (x : ℕ) → x < 256 → bit_and x 0x1f ≡ x % 32
low_five x h = (eqb_iff _ _).0 (below_holds 256 _ x low_five_table h)

nibbles_table : holds_below 256 (λ x. eqb (bit_or (x / 16 * 16 % 256) (x % 16)) x) ≡ true
unfolding holds_below
nibbles_table = refl

pub join_nibbles : (x : ℕ) → x < 256 → bit_or (x / 16 * 16 % 256) (x % 16) ≡ x
join_nibbles x h = (eqb_iff _ _).0 (below_holds 256 _ x nibbles_table h)

major_table : holds_below 256 (λ x. eqb (bit_or (x / 32 * 32 % 256) (x % 32)) x) ≡ true
unfolding holds_below
major_table = refl

pub join_major : (x : ℕ) → x < 256 → bit_or (x / 32 * 32 % 256) (x % 32) ≡ x
join_major x h = (eqb_iff _ _).0 (below_holds 256 _ x major_table h)

-- The low `k` bytes of `n`, the most significant first.
unfoldable pub to_be_bytes : ℕ → ℕ → Bytes
to_be_bytes zero n = []
to_be_bytes (suc k) n = to_be_bytes k (n / 256) ++ (n % 256) ∷ []

unfoldable pub from_be_acc : ℕ → Bytes → ℕ
from_be_acc acc [] = acc
from_be_acc acc (b ∷ bs) = from_be_acc (acc * 256 + b) bs

unfoldable pub from_be_bytes : Bytes → ℕ
unfolding from_be_acc
from_be_bytes bs = from_be_acc 0 bs

from_be_acc-append :
    (acc : ℕ) (xs ys : Bytes) → from_be_acc acc (xs ++ ys) ≡ from_be_acc (from_be_acc acc xs) ys
unfolding from_be_acc
from_be_acc-append acc [] ys = refl
from_be_acc-append acc (x ∷ xs) ys = from_be_acc-append (acc * 256 + x) xs ys

div_256 : (k n : ℕ) → n < 256 ^ suc k → n / 256 < 256 ^ k
div_256 k n h = let e : n < 256 ^ k * 256 = rw pow-suc at h in omega arith

pub length-to_be_bytes : (k n : ℕ) → length (to_be_bytes k n) ≡ k
unfolding to_be_bytes
length-to_be_bytes zero n = refl
length-to_be_bytes (suc k) n = omega (
  arith,
  length-append (to_be_bytes k (n / 256)) ((n % 256) ∷ []),
  length-to_be_bytes k (n / 256),
)

pub to_be_bytes-IsByte : (k n : ℕ) → All IsByte (to_be_bytes k n)
unfolding to_be_bytes
to_be_bytes-IsByte zero n = tt
to_be_bytes-IsByte (suc k) n =
    All-append IsByte _ _ (to_be_bytes-IsByte k (n / 256)) (omega arith, tt)

from_be_acc-to_be_bytes : (k n : ℕ) → n < 256 ^ k → from_be_acc 0 (to_be_bytes k n) ≡ n
unfolding to_be_bytes
from_be_acc-to_be_bytes zero n h = unfold from_be_acc in omega arith
from_be_acc-to_be_bytes (suc k) n h =
    from_be_acc-append 0 (to_be_bytes k (n / 256)) ((n % 256) ∷ [])
    ∙ rw (from_be_acc-to_be_bytes k (n / 256) (div_256 k n h)) (unfold from_be_acc in omega arith)

pub from_be_bytes-to_be_bytes : (k n : ℕ) → n < 256 ^ k → from_be_bytes (to_be_bytes k n) ≡ n
unfolding from_be_bytes
from_be_bytes-to_be_bytes k n h = from_be_acc-to_be_bytes k n h

to_be_bytes-from_be_acc :
    (bs : Bytes) (j acc : ℕ)
    → All IsByte bs
    → to_be_bytes (length bs + j) (from_be_acc acc bs) ≡ to_be_bytes j acc ++ bs
unfolding from_be_acc
to_be_bytes-from_be_acc [] j acc h = rw (zero_add, append-nil)
  where
    zero_add : zero + j ≡ j
    zero_add = omega arith
to_be_bytes-from_be_acc (b ∷ bs) j acc (hb, hbs) =
    ap (λ i. to_be_bytes i (from_be_acc (acc * 256 + b) bs)) index
    ∙ to_be_bytes-from_be_acc bs (suc j) (acc * 256 + b) hbs
    ∙ unfold to_be_bytes in rw (quotient, remainder, append_assoc)
  where
    index : suc (length bs) + j ≡ length bs + suc j
    index = omega arith

    quotient : (acc * 256 + b) / 256 ≡ acc
    quotient = omega arith

    remainder : (acc * 256 + b) % 256 ≡ b
    remainder = omega arith

pub to_be_bytes-from_be_bytes :
    (bs : Bytes) → All IsByte bs → to_be_bytes (length bs) (from_be_bytes bs) ≡ bs
unfolding from_be_bytes
to_be_bytes-from_be_bytes bs h =
    ap (λ i. to_be_bytes i (from_be_acc 0 bs)) index
    ∙ to_be_bytes-from_be_acc bs 0 0 h
    ∙ unfold to_be_bytes in refl
  where
    index : length bs ≡ length bs + 0
    index = omega arith
