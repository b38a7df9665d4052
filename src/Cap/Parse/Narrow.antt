-- ===== src/Cap/Parse/Narrow.antt =====
-- Each caveat narrows what the caveats before it allow.
use forgefs.Base.{
  ℕ, ◌≡◌, refl, Bool, true, false, ◌&&◌, Option, none, some, List, [], ◌∷◌, ◌++◌, arith, any,
  contains, Str, min,
}
use forgefs.Types.{Error, Checked, ok}
use forgefs.Cap.{Op, RefSet, OpRefSets, ref_matches, all_match, get, not_expired, op_eq, is_empty}
use forgefs.Cap.Parse.{Scan, intersection, push_set}

abbrev pub scoped_match : OpRefSets → Op → Str → Error → Checked
scoped_match m op name e = elim (get m op) [ none ↦ ok tt | some sets ↦ all_match sets name e ]

abbrev is_unscoped : Scan → Bool
is_unscoped s = is_empty s.ref_sets && is_empty s.op_ref_sets && is_empty s.ref_not

-- `t` allows at most what `s` does, once `s` has seen an `ops=` caveat.
pub record Narrower (t s : Scan) : Type 0 where
  pub ops_kept :
      (set : List Op)
      → s.ops ≡ some set
      → (set' : List Op) × (t.ops ≡ some set')
        × ((op : Op) → contains set' op ≡ true → contains set op ≡ true)
  pub refs :
      (name : Str) (e : Error)
      → all_match t.ref_sets name e ≡ ok tt
      → all_match s.ref_sets name e ≡ ok tt
  pub scoped :
      (op : Op) (name : Str) (e : Error)
      → scoped_match t.op_ref_sets op name e ≡ ok tt
      → scoped_match s.op_ref_sets op name e ≡ ok tt
  pub excluded :
      (name : Str)
      → any (λ n. ref_matches n name) s.ref_not ≡ true
      → any (λ n. ref_matches n name) t.ref_not ≡ true
  pub time : (now : ℕ) → not_expired t.time_le now ≡ true → not_expired s.time_le now ≡ true
  pub conflict : s.agent_conflict ≡ true → t.agent_conflict ≡ true
  pub agent_kept : (a : Str) → s.agent ≡ some a → t.agent ≡ some a
  pub unscoped : is_unscoped t ≡ true → is_unscoped s ≡ true

pub Narrower-refl : (s : Scan) → Narrower s s
Narrower-refl s = record {
  ops_kept = λ set h. (set, h, λ op k. k);
  refs = λ name e h. h;
  scoped = λ op name e h. h;
  excluded = λ name h. h;
  time = λ now h. h;
  conflict = λ h. h;
  agent_kept = λ a h. h;
  unscoped = λ h. h;
}

pub Narrower-trans : {u t s : Scan} → Narrower u t → Narrower t s → Narrower u s
Narrower-trans n m = record {
  ops_kept = λ set h.
      let (set', h', le) = m.ops_kept set h in
      let (set'', h'', le') = n.ops_kept set' h' in (set'', h'', λ op k. le op (le' op k));
  refs = λ name e h. m.refs name e (n.refs name e h);
  scoped = λ op name e h. m.scoped op name e (n.scoped op name e h);
  excluded = λ name h. n.excluded name (m.excluded name h);
  time = λ now h. m.time now (n.time now h);
  conflict = λ h. n.conflict (m.conflict h);
  agent_kept = λ a h. n.agent_kept a (m.agent_kept a h);
  unscoped = λ h. m.unscoped (n.unscoped h);
}

contains-intersection :
    (prev set : List Op) (op : Op)
    → contains (intersection prev set) op ≡ true
    → contains prev op ≡ true
contains-intersection [] set op h = h
contains-intersection (o ∷ prev) set op h = ground (arith, contains-intersection prev set op)

all_match-append :
    (xs ys : List RefSet) (name : Str) (e : Error)
    → all_match (xs ++ ys) name e ≡ ok tt
    → all_match xs name e ≡ ok tt
unfolding all_match
all_match-append [] ys name e h = refl
all_match-append (x ∷ xs) ys name e h = ground (arith, all_match-append xs ys name e)

scoped_match-push_set :
    (m : OpRefSets) (op : Op) (set : RefSet) (o : Op) (name : Str) (e : Error)
    → scoped_match (push_set m op set) o name e ≡ ok tt
    → scoped_match m o name e ≡ ok tt
scoped_match-push_set [] op set o name e h = refl
scoped_match-push_set ((p, sets) ∷ m) op set o name e h =
    ground (arith, all_match-append sets (set ∷ []) name e, scoped_match-push_set m op set o name e)

any-append : (p : Str → Bool) (xs ys : List Str) → any p xs ≡ true → any p (xs ++ ys) ≡ true
any-append p [] ys h = cc
any-append p (x ∷ xs) ys h = ground (arith, any-append p xs ys)

is_empty-append {ℓ} :
    {A : Type ℓ} (xs ys : List A) → is_empty (xs ++ ys) ≡ true → is_empty xs ≡ true
is_empty-append [] ys h = refl
is_empty-append (x ∷ xs) ys h = cc

is_empty-push_set : (m : OpRefSets) (op : Op) (set : RefSet) → is_empty (push_set m op set) ≡ false
is_empty-push_set [] op set = refl
is_empty-push_set ((o, sets) ∷ m) op set = ground arith

-- The record that each kind of caveat makes of `s`.
module _ (s : Scan) where
  pub narrow_ops :
      (set : List Op)
      → Narrower
          (record s {
            ops = elim s.ops [ none ↦ some set | some prev ↦ some (intersection prev set) ];
          })
          s
  narrow_ops set = record {
    ops_kept = λ prev h. (intersection prev set, rw h, contains-intersection prev set);
    refs = λ name e h. h;
    scoped = λ op name e h. h;
    excluded = λ name h. h;
    time = λ now h. h;
    conflict = λ h. h;
    agent_kept = λ a h. h;
    unscoped = λ h. h;
  }

  pub narrow_allow :
      (op : Op) (set : RefSet)
      → Narrower (record s { op_ref_sets = push_set s.op_ref_sets op set }) s
  narrow_allow op set = record {
    ops_kept = λ prev h. (prev, h, λ o k. k);
    refs = λ name e h. h;
    scoped = λ o name e h. scoped_match-push_set s.op_ref_sets op set o name e h;
    excluded = λ name h. h;
    time = λ now h. h;
    conflict = λ h. h;
    agent_kept = λ a h. h;
    unscoped = λ h. ground (arith, is_empty-push_set s.op_ref_sets op set);
  }

  pub narrow_ref_not : (set : List Str) → Narrower (record s { ref_not = s.ref_not ++ set }) s
  narrow_ref_not set = record {
    ops_kept = λ prev h. (prev, h, λ o k. k);
    refs = λ name e h. h;
    scoped = λ o name e h. h;
    excluded = λ name h. any-append (λ n. ref_matches n name) s.ref_not set h;
    time = λ now h. h;
    conflict = λ h. h;
    agent_kept = λ a h. h;
    unscoped = λ h. ground (arith, is_empty-append s.ref_not set);
  }

  pub narrow_ref : (set : RefSet) → Narrower (record s { ref_sets = s.ref_sets ++ set ∷ [] }) s
  narrow_ref set = record {
    ops_kept = λ prev h. (prev, h, λ o k. k);
    refs = λ name e h. all_match-append s.ref_sets (set ∷ []) name e h;
    scoped = λ o name e h. h;
    excluded = λ name h. h;
    time = λ now h. h;
    conflict = λ h. h;
    agent_kept = λ a h. h;
    unscoped = λ h. ground (arith, is_empty-append s.ref_sets (set ∷ []));
  }

  sooner :
      (o : Option ℕ) (n now : ℕ)
      → not_expired (elim o [ none ↦ some n | some prev ↦ some (min prev n) ]) now ≡ true
      → not_expired o now ≡ true
  sooner none n now h = refl
  sooner (some prev) n now h = ground arith

  pub narrow_time :
      (n : ℕ)
      → Narrower
          (record s { time_le = elim s.time_le [ none ↦ some n | some prev ↦ some (min prev n) ] })
          s
  narrow_time n = record {
    ops_kept = λ prev h. (prev, h, λ o k. k);
    refs = λ name e h. h;
    scoped = λ o name e h. h;
    excluded = λ name h. h;
    time = λ now h. sooner s.time_le n now h;
    conflict = λ h. h;
    agent_kept = λ a h. h;
    unscoped = λ h. h;
  }

  pub narrow_agent : (rest : Str) → s.agent ≡ none → Narrower (record s { agent = some rest }) s
  narrow_agent rest absent = record {
    ops_kept = λ prev h. (prev, h, λ o k. k);
    refs = λ name e h. h;
    scoped = λ o name e h. h;
    excluded = λ name h. h;
    time = λ now h. h;
    conflict = λ h. h;
    agent_kept = λ a h. cc (absent, h);
    unscoped = λ h. h;
  }

  pub narrow_conflict : Narrower (record s { agent_conflict = true }) s
  narrow_conflict = record {
    ops_kept = λ prev h. (prev, h, λ o k. k);
    refs = λ name e h. h;
    scoped = λ o name e h. h;
    excluded = λ name h. h;
    time = λ now h. h;
    conflict = λ h. refl;
    agent_kept = λ a h. h;
    unscoped = λ h. h;
  }
