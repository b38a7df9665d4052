-- ===== src/Tests/Mounts.antt =====
-- Paths and mounts on concrete inputs.
use forgefs.Base.{
  ◌≡◌, refl, ◌++◌, List, [], ◌∷◌, none, All, bytes, ◌⊎◌, starts_with, strip_prefix, split, is_utf8,
  ℕ, some,
}
use forgefs.Types.{ok}
use forgefs.Core.Tree.{split_path, validate_name}
use forgefs.Namespace.{Mount, ro, normalize_abs, mount_loop, longest_mount, under, rel_of}
use forgefs.Namespace.Paths.{rel_of_lem}
use forgefs.Namespace.Mounts.{IsFound, IsWithin, longest_mount_lem}

normalized : normalize_abs (bytes "w/src//") ≡ ok (bytes "/w/src")
unfolding normalize_abs starts_with split_path split validate_name is_utf8
normalized = refl

abbrev root_mount : Mount
root_mount = record { path = bytes "/"; spec = bytes "ref:main"; mode = ro; base_oid = none }

abbrev w_mount : Mount
w_mount = record { path = bytes "/w"; spec = bytes "ref:heads/w"; mode = ro; base_oid = none }

abbrev mounts : List Mount
mounts = w_mount ∷ root_mount ∷ []

covering : longest_mount mounts (bytes "w/src//") ≡ ok w_mount
unfolding longest_mount mount_loop normalize_abs starts_with split_path split validate_name is_utf8
covering = refl

abbrev IsReadOnly : Mount → Type 0
IsReadOnly m = m.mode ≡ ro

longest_mount_lem_example :
    (len : ℕ) × IsFound IsReadOnly (bytes "/w/src") (some w_mount) len
    × All (IsWithin IsReadOnly (bytes "/w/src") len) mounts
longest_mount_lem_example =
    longest_mount_lem IsReadOnly mounts (bytes "w/src//") (bytes "/w/src") w_mount
      (refl, (refl, tt)) normalized covering

rel_of_lem_example :
    ((bytes "/w/src" ≡ bytes "/w") × (bytes "src" ≡ []))
    ⊎ (bytes "/w/src" ≡ (bytes "/w" ++ bytes "/") ++ bytes "src")
unfolding rel_of under normalize_abs starts_with split_path split validate_name is_utf8 strip_prefix
rel_of_lem_example =
    rel_of_lem (bytes "/w/") (bytes "w/src//") (bytes "/w") (bytes "/w/src") (bytes "src") refl
      normalized (λ h. cc) refl
