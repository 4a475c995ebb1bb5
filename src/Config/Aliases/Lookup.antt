-- ===== src/Config/Aliases/Lookup.antt =====
-- An aliased load is a search among the paths that may hold the value, and warns once of each old key.
use mitools.Prelude.{
  inl, inr, sym, ap, ◌≡◌, refl, ◌∙◌, Bool, true, false, Bool-cases, Option, none, some, List, [],
  ◌∷◌, ◌++◌, map, Text, same, any, Distinct, Result, ok, err,
}
use mitools.Config.{ConfigPath, Provider}
use mitools.Config.Aliases.{
  behind_prefix, OldKey, AliasEntry, alias_entry, AliasState, warn_of, Answer, old_answer, try_olds,
  try_entry, try_entries, or_aliases, with_aliases,
}

-- The old paths of the entries whose prefix the path has, in their order.
abbrev pub old_paths : ConfigPath → List OldKey → List ConfigPath
old_paths rest [] = []
old_paths rest (o ∷ olds) = (o.segments ++ rest) ∷ old_paths rest olds

abbrev pub entry_paths : AliasEntry → Option ConfigPath → List ConfigPath
entry_paths entry none = []
entry_paths entry (some rest) = old_paths rest entry.olds

abbrev pub alias_paths : List AliasEntry → ConfigPath → List ConfigPath
alias_paths [] path = []
alias_paths (entry ∷ entries) path =
    entry_paths entry (behind_prefix entry.segments path) ++ alias_paths entries path

-- The first node at one of the paths; a failure ends the search.
abbrev pub or_next :
    {Failure Node : Type 0}
    → Result Failure (Option Node)
    → Result Failure (Option Node)
    → Result Failure (Option Node)
or_next (ok none) next = next
or_next (ok (some node)) next = ok (some node)
or_next (err failure) next = err failure

abbrev pub first_node :
    {Failure Node : Type 0} → Provider Failure Node → List ConfigPath → Result Failure (Option Node)
first_node load [] = ok none
first_node load (path ∷ paths) = or_next (load path) (first_node load paths)

-- The old keys of the warnings, the last one first.
abbrev pub warned_by : List (Text × Text) → List Text → List Text
warned_by [] earlier = earlier
warned_by ((old, current) ∷ warnings) earlier = warned_by warnings (old ∷ earlier)

warned_by-append :
    (xs ys : List (Text × Text)) (earlier : List Text)
    → warned_by (xs ++ ys) earlier ≡ warned_by ys (warned_by xs earlier)
warned_by-append [] ys earlier = refl
warned_by-append ((old, current) ∷ xs) ys earlier = warned_by-append xs ys (old ∷ earlier)

-- The warnings are those remembered, and none is made twice.
record IsWarned (s : AliasState) : Type 0 where
  remembered : warned_by s.warnings [] ≡ s.warned
  distinct : Distinct s.warned

warn_of-IsWarned :
    (warn : Bool) (old current : Text) (s : AliasState)
    → IsWarned s
    → IsWarned (warn_of warn old current s)
unfolding warn_of
warn_of-IsWarned false old current s h = h
warn_of-IsWarned true old current s h = elim (Bool-cases (any (same old) s.warned)) [
  | inl e ↦ rw e h
  | inr e ↦ rw e (record {
    remembered = warned_by-append s.warnings ((old, current) ∷ []) [] ∙ ap (◌∷◌ old) h.remembered;
    distinct = (e, h.distinct);
  })
]

module _ {Failure Node : Type 0} (load : Provider Failure Node) (warn : Bool) where
  -- The answer is that of the search, and the warnings stay so.
  abbrev IsSearch : Result Failure (Option Node) → Answer load warn → Type 0
  IsSearch found answer = (answer.0 ≡ found) × IsWarned answer.1

  old_answer-IsSearch :
      (old current : Text) (s : AliasState) (next : Answer load warn)
      (r later : Result Failure (Option Node))
      → IsWarned s
      → IsSearch later next
      → IsSearch (or_next r later) (old_answer load warn old current s next r)
  old_answer-IsSearch old current s next (err failure) later w h = (refl, w)
  old_answer-IsSearch old current s next (ok none) later w h = h
  old_answer-IsSearch old current s next (ok (some node)) later w h =
      (refl, warn_of-IsWarned warn old current s w)

  or_next_assoc :
      (a b c : Result Failure (Option Node)) → or_next (or_next a b) c ≡ or_next a (or_next b c)
  or_next_assoc (ok none) b c = refl
  or_next_assoc (ok (some node)) b c = refl
  or_next_assoc (err failure) b c = refl

  first_node-append :
      (xs ys : List ConfigPath)
      → first_node load (xs ++ ys) ≡ or_next (first_node load xs) (first_node load ys)
  first_node-append [] ys = refl
  first_node-append (x ∷ xs) ys =
      ap (or_next (load x)) (first_node-append xs ys)
      ∙ sym (or_next_assoc (load x) (first_node load xs) (first_node load ys))

  try_olds-IsSearch :
      (current : Text) (rest : ConfigPath) (olds : List OldKey) (s : AliasState)
      (after : Answer load warn) (later : Result Failure (Option Node))
      → IsWarned s
      → IsSearch later after
      → IsSearch
          (or_next (first_node load (old_paths rest olds)) later)
          (try_olds load warn current rest olds s after)
  unfolding try_olds
  try_olds-IsSearch current rest [] s after later w h = h
  try_olds-IsSearch current rest (o ∷ olds) s after later w h =
      let found = load (o.segments ++ rest) in
      rw (or_next_assoc found (first_node load (old_paths rest olds)) later) (
        old_answer-IsSearch o.old current s (try_olds load warn current rest olds s after) found
          (or_next (first_node load (old_paths rest olds)) later) w
          (try_olds-IsSearch current rest olds s after later w h))

  try_entry-IsSearch :
      (entry : AliasEntry) (rest : Option ConfigPath) (s : AliasState) (after : Answer load warn)
      (later : Result Failure (Option Node))
      → IsWarned s
      → IsSearch later after
      → IsSearch
          (or_next (first_node load (entry_paths entry rest)) later)
          (try_entry load warn entry rest s after)
  try_entry-IsSearch entry none s after later w h = h
  try_entry-IsSearch entry (some rest) s after later w h =
      try_olds-IsSearch entry.current rest entry.olds s after later w h

  try_entries-IsSearch :
      (entries : List AliasEntry) (path : ConfigPath) (s : AliasState)
      → IsWarned s
      → IsSearch (first_node load (alias_paths entries path)) (try_entries load warn entries path s)
  unfolding try_entries
  try_entries-IsSearch [] path s w = (refl, w)
  try_entries-IsSearch (entry ∷ entries) path s w =
      let rest = behind_prefix entry.segments path in
      rw (first_node-append (entry_paths entry rest) (alias_paths entries path)) (
        try_entry-IsSearch entry rest s (try_entries load warn entries path s)
          (first_node load (alias_paths entries path)) w (try_entries-IsSearch entries path s w))

  module _ (aliases : List (Text × List Text)) where
    -- The paths that may hold the value: the one that was asked for comes first.
    abbrev pub candidates : ConfigPath → List ConfigPath
    candidates path = path ∷ alias_paths (map alias_entry aliases) path

    with_aliases-IsSearch :
        (path : ConfigPath) (s : AliasState)
        → IsWarned s
        → IsSearch (first_node load (candidates path)) (with_aliases load warn aliases path s)
    unfolding with_aliases
    with_aliases-IsSearch path s w =
        go (load path) (try_entries-IsSearch (map alias_entry aliases) path s w)
      where
        go :
            (r : Result Failure (Option Node)) {later : Result Failure (Option Node)}
            → IsSearch later (try_entries load warn (map alias_entry aliases) path s)
            → IsSearch (or_next r later) (or_aliases load warn (map alias_entry aliases) path s r)
        go (ok none) h = h
        go (ok (some node)) h = (refl, w)
        go (err failure) h = (refl, w)

    -- One load after the other through the same wrapper.
    abbrev pub load_all :
        List ConfigPath → AliasState → List (Result Failure (Option Node)) × AliasState
    load_all [] s = ([], s)
    load_all (path ∷ paths) s =
        let one = with_aliases load warn aliases path s in
        let rest = load_all paths one.1 in (one.0 ∷ rest.0, rest.1)

    load_all-IsSearch :
        (paths : List ConfigPath) (s : AliasState)
        → IsWarned s
        → ((load_all paths s).0 ≡ map (λ p. first_node load (candidates p)) paths)
          × IsWarned (load_all paths s).1
    load_all-IsSearch [] s w = (refl, w)
    load_all-IsSearch (path ∷ paths) s w =
        let one = with_aliases-IsSearch path s w in
        let rest = load_all-IsSearch paths (with_aliases load warn aliases path s).1 one.1 in
        (cc (one.0, rest.0), rest.1)

    -- Every load through a fresh wrapper gives the first node among the path itself and then its
    -- old paths, in the order of the aliases and of their old keys, and a failure of the source ends
    -- the search; so the old keys never hide the current one. Over all these loads no old key is
    -- warned of twice.
    pub with_aliases-first_node :
        (paths : List ConfigPath)
        → let after = load_all paths (record { warned = []; warnings = [] }) in
          (after.0 ≡ map (λ p. first_node load (candidates p)) paths)
          × Distinct (warned_by after.1.warnings [])
    with_aliases-first_node paths =
        let h =
          load_all-IsSearch paths (record { warned = []; warnings = [] })
            (record { remembered = refl; distinct = tt }) in
        (h.0, rw h.1.remembered h.1.distinct)
