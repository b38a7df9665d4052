-- ===== src/Catalog/Names/Scope.antt =====
-- Where a lost swap puts the new commit: in a fork, inside the agent's own subtree for a session.
use forgefs.Base.{
  ℕ, true, false, ◌≡◌, refl, sym, ap, ◌∙◌, subst, some, [], ◌∷◌, ◌++◌, append_assoc, arith, All,
  eqb, if◌then◌else◌, length-append, ◌==◌, nat_eq, list_eq, Str, bytes, starts_with, strip_prefix,
  strip_suffix_char, split_once,
}
use forgefs.Cap.{ref_matches}
use forgefs.Catalog.Names.{
  sanitize_chars, sanitize_agent, session_fork_name, is_fork_ref, is_fork_tail,
}

-- No slash in it.
abbrev pub IsSlashless : Str → Type 0
IsSlashless s = All (λ c. eqb c b'/' ≡ false) s

sanitize_chars-IsSlashless : (s : Str) → IsSlashless (sanitize_chars s)
unfolding sanitize_chars
sanitize_chars-IsSlashless [] = tt
sanitize_chars-IsSlashless (c ∷ s) = ground (arith, sanitize_chars-IsSlashless s)

pub sanitize_agent-IsSlashless : (s : Str) → IsSlashless (sanitize_agent s)
unfolding sanitize_agent
sanitize_agent-IsSlashless s = go (sanitize_chars s) (sanitize_chars-IsSlashless s)
  where
    go : (t : Str) → IsSlashless t → IsSlashless (if t == [] then bytes "anon" else t)
    go [] h = (refl, (refl, (refl, (refl, tt))))
    go (c ∷ t) h = h

sanitize_chars_twice : (s : Str) → sanitize_chars (sanitize_chars s) ≡ sanitize_chars s
unfolding sanitize_chars
sanitize_chars_twice [] = refl
sanitize_chars_twice (c ∷ s) = ground (arith, sanitize_chars_twice s)

starts_with-append : (p s : Str) → starts_with (p ++ s) p ≡ true
unfolding starts_with
starts_with-append [] s = refl
starts_with-append (c ∷ p) s = ground (arith, starts_with-append p s)

strip_prefix-append : (p s : Str) → strip_prefix (p ++ s) p ≡ some s
unfolding strip_prefix
strip_prefix-append [] s = refl
strip_prefix-append (c ∷ p) s = ground (arith, strip_prefix-append p s)

split_once-append : (a s : Str) → IsSlashless a → split_once (a ++ b'/' ∷ s) b'/' ≡ some (a, s)
unfolding split_once
split_once-append [] s h = refl
split_once-append (c ∷ a) s h = ground (arith, split_once-append a s h.1)

strip_suffix_char-append : (s : Str) (d : ℕ) → strip_suffix_char (s ++ d ∷ []) d ≡ some s
unfolding strip_suffix_char
strip_suffix_char-append [] d = ground arith
strip_suffix_char-append (c ∷ []) d = ground arith
strip_suffix_char-append (c ∷ e ∷ s) d = ground (arith, strip_suffix_char-append (e ∷ s) d)

-- The subtree of an agent, which the capability of a session is written with.
abbrev pub agent_scope : Str → Str
agent_scope agent = bytes "heads/agents/" ++ sanitize_agent agent ++ bytes "/*"

-- What follows the slash after the agent.
abbrev tail_of : Str → Str → Str
tail_of ref_name ulid = bytes "forks/" ++ ref_name ++ bytes "/" ++ ulid

regroup : (p f r s u : Str) → p ++ f ++ r ++ s ++ u ≡ p ++ (f ++ r ++ s ++ u)
regroup p f r s u =
    rw (append_assoc p f r, append_assoc p (f ++ r) s, append_assoc p (f ++ r ++ s) u) refl

ref_matches_front : (p t : Str) → ref_matches (p ++ b'*' ∷ []) (p ++ t) ≡ true
unfolding ref_matches
ref_matches_front p t = ground (arith, strip_suffix_char-append p b'*', starts_with-append p t)

fork_tail : (ref_name ulid : Str) → is_fork_tail (tail_of ref_name ulid) ≡ true
unfolding starts_with
fork_tail ref_name ulid =
    ground (arith, length-append (ref_name ++ bytes "/") ulid, length-append ref_name (bytes "/"))

is_fork_ref_tail :
    (agent tail : Str)
    → IsSlashless agent
    → is_fork_tail tail ≡ true
    → is_fork_ref (bytes "heads/agents/" ++ (agent ++ b'/' ∷ tail)) ≡ true
unfolding is_fork_ref starts_with strip_prefix
is_fork_ref_tail agent tail h t = ground (arith, split_once-append agent tail h)

-- The fork of a lost checkin is inside the subtree that the agent's own capability covers, whatever the
-- agent calls itself, and it is a fork that can be abandoned.
pub session_fork_name_lem :
    (ref_name fork_agent ulid : Str)
    → (ref_matches (agent_scope fork_agent) (session_fork_name ref_name fork_agent ulid) ≡ true)
      × (is_fork_ref (session_fork_name ref_name fork_agent ulid) ≡ true)
unfolding session_fork_name
session_fork_name_lem ref_name fork_agent ulid = (
  subst (λ g. ref_matches g (session_fork_name ref_name fork_agent ulid) ≡ true)
      (append_assoc (bytes "heads/agents/" ++ sanitize_agent fork_agent) (bytes "/") (bytes "*"))
      (subst (λ n. ref_matches (front ++ b'*' ∷ []) n ≡ true) (sym split)
        (ref_matches_front front (tail_of ref_name ulid))),
  subst (λ n. is_fork_ref n ≡ true) (sym (split ∙ joined))
      (is_fork_ref_tail (sanitize_agent fork_agent) (tail_of ref_name ulid)
        (sanitize_agent-IsSlashless fork_agent) (fork_tail ref_name ulid)),
)
  where
    front : Str
    front = bytes "heads/agents/" ++ sanitize_agent fork_agent ++ bytes "/"

    split : session_fork_name ref_name fork_agent ulid ≡ front ++ tail_of ref_name ulid
    split = regroup front (bytes "forks/") ref_name (bytes "/") ulid

    joined :
        front ++ tail_of ref_name ulid
        ≡ bytes "heads/agents/" ++ (sanitize_agent fork_agent ++ b'/' ∷ tail_of ref_name ulid)
    joined =
        ap (λ x. bytes "heads/agents/" ++ x)
          (append_assoc (sanitize_agent fork_agent) (bytes "/") (tail_of ref_name ulid))
