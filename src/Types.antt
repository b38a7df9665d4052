-- ===== src/Types.antt =====
-- forge-types: errors with their exit codes, object types, entry kinds, object ids.
pub mod Hex
pub mod Codes
use forgefs.Base.{
  refl, ℕ, String, Bytes, ◌≡◌, Bool, true, false, length, All, IsByte, eqb, if◌then◌else◌,
}
use forgefs.Base.{bytes, Eq, ◌↔◌, ◌⊎◌, inl, inr, arith, suc, zero}

-- The 32 bytes of a BLAKE3 digest.
abbrev pub ObjectId : Type 0
ObjectId = Bytes

abbrev pub IsObjectId : ObjectId → Type 0
IsObjectId id = (length id ≡ 32) × All IsByte id

-- A formatted message is the format string of the source, with its braces.
pub data Error : Type 0 where
  denied : String → Error
  not_found : String → Error
  sealed : String → Error
  invalid : String → Error
  corrupt : String → Error
  busy : String → Error
  merge_conflict : ObjectId → Error
  stale_observation : Bytes → Bytes → Bytes → Error
  invalid_base : Error
  io : String → Error
  sqlite : String → Error
  cap_error : String → Error
  internal : String → Error

pub data Result {ℓ} (T : Type ℓ) : Type ℓ where
  ok : T → Result T
  err : Error → Result T

pub ok-injective {ℓ} : {T : Type ℓ} {x y : T} → ok x ≡ ok y → x ≡ y
ok-injective h = cc

-- `Result<()>`
abbrev pub Checked : Type 0
Checked = Result (Unit {0})

-- `if !test { return Err(e) }`
abbrev pub guard : Bool → Error → Checked
guard test e = elim test [ true ↦ ok tt | false ↦ err e ]

-- `?`
infixl 5 ◌>>=◌
abbrev pub ◌>>=◌ {ℓ κ} : {T : Type ℓ} {U : Type κ} → Result T → (T → Result U) → Result U
r >>= next = elim r [ ok x ↦ next x | err e ↦ err e ]

infixl 5 ◌>>◌
abbrev pub ◌>>◌ {ℓ} : {U : Type ℓ} → Checked → Result U → Result U
check >> next = check >>= λ _. next

pub Result-cases {ℓ} :
    {T : Type ℓ} (r : Result T) → ((x : T) × (r ≡ ok x)) ⊎ ((e : Error) × (r ≡ err e))
Result-cases (ok x) = inl (x, refl)
Result-cases (err e) = inr (e, refl)

pub data ObjectType : Type 0 where
  blob tree commit conflict snapshot contribution : ObjectType

abbrev pub to_u8 : ObjectType → ℕ
to_u8 ObjectType.blob = 1
to_u8 ObjectType.tree = 2
to_u8 ObjectType.commit = 3
to_u8 ObjectType.conflict = 4
to_u8 ObjectType.snapshot = 5
to_u8 ObjectType.contribution = 6

unfoldable pub from_u8 : ℕ → Result ObjectType
from_u8 v =
    if eqb v 1
    then ok ObjectType.blob
    else if eqb v 2
    then ok ObjectType.tree
    else if eqb v 3
    then ok ObjectType.commit
    else if eqb v 4
    then ok ObjectType.conflict
    else if eqb v 5
    then ok ObjectType.snapshot
    else if eqb v 6
    then ok ObjectType.contribution
    else err (corrupt "unknown object type 0x{other:02x}")

-- `ObjectType::as_str`
abbrev pub type_name : ObjectType → Bytes
type_name ObjectType.blob = bytes "blob"
type_name ObjectType.tree = bytes "tree"
type_name ObjectType.commit = bytes "commit"
type_name ObjectType.conflict = bytes "conflict"
type_name ObjectType.snapshot = bytes "snapshot"
type_name ObjectType.contribution = bytes "contribution"

abbrev pub eq_type : ObjectType → ObjectType → Bool
eq_type a b = eqb (to_u8 a) (to_u8 b)

pub data EntryKind : Type 0 where
  blob tree : EntryKind

abbrev pub kind_u8 : EntryKind → ℕ
kind_u8 EntryKind.blob = 1
kind_u8 EntryKind.tree = 2

unfoldable pub kind_from_u8 : ℕ → Result EntryKind
kind_from_u8 v =
    if eqb v 1
    then ok EntryKind.blob
    else if eqb v 2
    then ok EntryKind.tree
    else err (invalid "unknown tree entry kind {other}")

abbrev pub eq_kind : EntryKind → EntryKind → Bool
eq_kind EntryKind.blob EntryKind.blob = true
eq_kind EntryKind.tree EntryKind.tree = true
eq_kind _ _ = false

pub eq_kind_iff : (a b : EntryKind) → (eq_kind a b ≡ true) ↔ (a ≡ b)
eq_kind_iff EntryKind.blob b = ground arith
eq_kind_iff EntryKind.tree b = ground arith

instance abbrev pub kind_eq : Eq EntryKind
kind_eq = record { same = eq_kind; same_iff = eq_kind_iff }

-- `Error::exit_code`
unfoldable pub exit_code : Error → ℕ
exit_code (denied m) = 1
exit_code (cap_error m) = 1
exit_code (invalid m) = 1
exit_code invalid_base = 1
exit_code (not_found m) = 1
exit_code (corrupt m) = 2
exit_code (sealed m) = 2
exit_code (busy m) = 3
exit_code (stale_observation path expected found) = 4
exit_code (merge_conflict id) = 4
exit_code (io m) = 5
exit_code (sqlite m) = 5
exit_code (internal m) = 5

-- `Error::code`
unfoldable pub code : Error → String
code (denied m) = "denied"
code (not_found m) = "not_found"
code (sealed m) = "sealed"
code (invalid m) = "invalid"
code (corrupt m) = "corrupt"
code (busy m) = "busy"
code (merge_conflict id) = "conflict"
code (stale_observation path expected found) = "stale_observation"
code invalid_base = "invalid_base"
code (io m) = "internal"
code (sqlite m) = "internal"
code (cap_error m) = "denied"
code (internal m) = "internal"
