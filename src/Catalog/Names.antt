-- ===== src/Catalog/Names.antt =====
-- forge-store: the grammar of the names of references and the shapes that name an owner.
pub mod Scope
use forgefs.Base.{
  ℕ, Bool, true, false, not, ◌&&◌, ◌||◌, Option, none, some, List, [], ◌∷◌, ◌++◌, any, ltb, leb,
  eqb, if◌then◌else◌, length, ◌==◌, nat_eq, list_eq, Str, bytes, starts_with, strip_prefix,
  strip_suffix_char, split, split_once,
}
use forgefs.Types.{Checked, Result, ok, err, guard, ◌>>=◌, ◌>>◌, invalid}

-- `c.is_control() || c == '\\' || c == ':'` at the start of a text: the control characters are
-- U+0000 to U+001F, U+007F, and U+0080 to U+009F, which have two bytes.
abbrev forbidden_at : ℕ → Str → Bool
forbidden_at a s =
    ltb a 32
    || (eqb a 127
        || (eqb a b'\\'
            || (eqb a b':'
                || (eqb a 0xc2 && elim s [ [] ↦ false | b ∷ t ↦ leb 0x80 b && leb b 0x9f ]))))

unfoldable pub has_forbidden : Str → Bool
has_forbidden [] = false
has_forbidden (a ∷ s) = forbidden_at a s || has_forbidden s

abbrev ends_with_slash : Str → Bool
ends_with_slash s = elim (strip_suffix_char s b'/') [ none ↦ false | some t ↦ true ]

abbrev is_bad_part : Str → Bool
is_bad_part part = part == [] || (part == bytes "." || part == bytes "..")

unfoldable pub validate_ref_name : Str → Checked
validate_ref_name name =
    if name == []
      || (ltb 512 (length name) || (starts_with name (bytes "/") || ends_with_slash name))
    then err (invalid "invalid ref name {name:?}")
    else if has_forbidden name
    then err (invalid "invalid ref name {name:?}")
    else if any is_bad_part (split name b'/')
    then err (invalid "invalid ref name {name:?}")
    else ok tt

abbrev is_kept : ℕ → Bool
is_kept c =
    (leb b'a' c && leb c b'z')
    || ((leb b'A' c && leb c b'Z')
        || ((leb b'0' c && leb c b'9') || (eqb c b'-' || (eqb c b'_' || eqb c b'.'))))

-- Each character is kept or becomes `_`. A character past ASCII has one lead byte, which becomes the
-- `_`, and bytes from 0x80 to 0xbf that follow it.
unfoldable pub sanitize_chars : Str → Str
sanitize_chars [] = []
sanitize_chars (c ∷ s) =
    let t = sanitize_chars s in
    if is_kept c then c ∷ t else if leb 0x80 c && ltb c 0xc0 then t else b'_' ∷ t

unfoldable pub sanitize_agent : Str → Str
sanitize_agent s = let t = sanitize_chars s in if t == [] then bytes "anon" else t

unfoldable pub validate_inbox_task : Str → Result Str
validate_inbox_task task =
    if task == [] || ltb 64 (length task)
    then err (invalid "invalid inbox task {task:?}")
    else if not (sanitize_agent task == task) || task == bytes "anon"
    then err (invalid "invalid inbox task {task:?}")
    else ok task

abbrev is_err : Result Str → Bool
is_err (ok x) = false
is_err (err e) = true

-- `agent` and `id` are the first two pieces, or empty, and a third piece is refused.
abbrev inbox_parts : List Str → Bool
inbox_parts [] = false
inbox_parts (agent ∷ []) = false
inbox_parts (agent ∷ id ∷ []) =
    not (agent == [] || (not (sanitize_agent agent == agent) || is_err (validate_inbox_task id)))
inbox_parts (agent ∷ id ∷ more ∷ rest) = false

unfoldable pub validate_inbox_ref : Str → Checked
validate_inbox_ref name = elim (strip_prefix name (bytes "inbox/")) [
  | none ↦ ok tt
  | some rest ↦ guard (inbox_parts (split rest b'/')) (invalid "invalid inbox ref {name:?}")
]

unfoldable pub expected_kind : Str → Option Str
expected_kind name =
    if name == bytes "main" || starts_with name (bytes "heads/")
    then some (bytes "commit")
    else if starts_with name (bytes "forks/inbox/")
    then some (bytes "snapshot")
    else if starts_with name (bytes "forks/")
    then some (bytes "commit")
    else if starts_with name (bytes "conflicts/")
    then some (bytes "conflict")
    else if starts_with name (bytes "resolutions/")
    then some (bytes "commit")
    else if starts_with name (bytes "tags/") || starts_with name (bytes "inbox/")
    then some (bytes "snapshot")
    else none

unfoldable pub validate_ref_kind : Str → Str → Checked
validate_ref_kind name kind =
    validate_ref_name name >> validate_inbox_ref name >> elim (expected_kind name) [
      | none ↦ ok tt
      | some expected ↦
          guard (kind == expected) (invalid "ref {name} requires kind {expected}, got {kind}")
    ]

-- `heads/agents/<agent>/forks/<ref>/<ulid>`, at the identifier that `Ulid::new` returns.
unfoldable pub session_fork_name : Str → Str → Str → Str
session_fork_name ref_name fork_agent ulid =
    bytes "heads/agents/"
    ++ sanitize_agent fork_agent
    ++ bytes "/"
    ++ bytes "forks/"
    ++ ref_name
    ++ bytes "/"
    ++ ulid

-- `forks/<ref>/<agent>/<ulid>`
unfoldable pub fork_name : Str → Str → Str → Str
fork_name name fork_agent ulid =
    bytes "forks/" ++ name ++ bytes "/" ++ sanitize_agent fork_agent ++ bytes "/" ++ ulid

-- The tail of a name under `heads/agents/<agent>/`.
abbrev is_fork_tail : Str → Bool
is_fork_tail tail = starts_with tail (bytes "forks/") && ltb (length (bytes "forks/")) (length tail)

unfoldable pub is_fork_ref : Str → Bool
is_fork_ref name =
    if starts_with name (bytes "forks/")
    then true
    else elim (strip_prefix name (bytes "heads/agents/")) [
      | none ↦ false
      | some rest ↦ elim (split_once rest b'/') [
        | none ↦ false
        | some (agent, tail) ↦ is_fork_tail tail
      ]
    ]
