-- ===== src/Types/Codes.antt =====
-- The CLI's exit code and the daemon's code string are one classification.
use text.Mathlib.Text.{◌==◌ as str_eq}
use forgefs.Base.{ℕ, String, ◌≡◌, refl, sym, ap, ◌∙◌, if◌then◌else◌}
use forgefs.Types.{Error, exit_code, code}
use forgefs.Types.{
  denied, not_found, sealed, invalid, corrupt, busy, merge_conflict, stale_observation,
  invalid_base, io, sqlite, cap_error, internal,
}

-- The exit code that a code string stands for.
class_of : String → ℕ
class_of s =
    if str_eq s "corrupt"
    then 2
    else if str_eq s "sealed"
    then 2
    else if str_eq s "busy"
    then 3
    else if str_eq s "conflict"
    then 4
    else if str_eq s "stale_observation"
    then 4
    else if str_eq s "internal"
    then 5
    else 1

exit_code-class_of : (e : Error) → exit_code e ≡ class_of (code e)
unfolding exit_code code class_of
exit_code-class_of (denied m) = refl
exit_code-class_of (not_found m) = refl
exit_code-class_of (sealed m) = refl
exit_code-class_of (invalid m) = refl
exit_code-class_of (corrupt m) = refl
exit_code-class_of (busy m) = refl
exit_code-class_of (merge_conflict id) = refl
exit_code-class_of (stale_observation p x f) = refl
exit_code-class_of invalid_base = refl
exit_code-class_of (io m) = refl
exit_code-class_of (sqlite m) = refl
exit_code-class_of (cap_error m) = refl
exit_code-class_of (internal m) = refl

-- Two errors that the daemon reports under one code string leave the CLI with one exit code.
pub exit_code_of_code : (e f : Error) → code e ≡ code f → exit_code e ≡ exit_code f
exit_code_of_code e f h = exit_code-class_of e ∙ ap class_of h ∙ sym (exit_code-class_of f)
