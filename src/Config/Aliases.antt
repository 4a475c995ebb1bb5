-- ===== src/Config/Aliases.antt =====
-- config/aliases.ts: withAliases, the wrapper of a provider that answers a renamed key from its old
-- names. Its state is the old keys that it has warned of, and what it has logged.
pub mod Lookup
use mitools.Prelude.{
  Bool, true, false, not, Option, none, some, List, [], ◌∷◌, ◌++◌, map, Text, codes, same, any,
  ◌&&◌, if◌then◌else◌, Result, ok, err,
}
use mitools.Config.{Segment, ConfigPath, Provider, segment_text, split_at, numeric_segment}

unfoldable pub split_key : Text → ConfigPath
unfolding split_at numeric_segment
split_key key = map numeric_segment (split_at b'.' key)

-- The rest of the path behind the prefix: `startsWith(path, prefix)`, and `path.slice(prefix.length)`.
unfoldable pub behind_prefix : ConfigPath → ConfigPath → Option ConfigPath
unfolding segment_text
behind_prefix [] path = some path
behind_prefix (p ∷ prefix) [] = none
behind_prefix (p ∷ prefix) (s ∷ path) =
    let rest = behind_prefix prefix path in
    if same (segment_text s) (segment_text p) then rest else none

pub record OldKey : Type 0 where
  pub old : Text
  pub segments : ConfigPath

pub record AliasEntry : Type 0 where
  pub current : Text
  pub segments : ConfigPath
  pub olds : List OldKey

unfoldable pub alias_entry : Text × List Text → AliasEntry
unfolding split_key
alias_entry (current, olds) = record {
  current = current;
  segments = split_key current;
  olds = map (λ old. record { old = old; segments = split_key old }) olds;
}

-- A warning names the old key and the current one.
pub record AliasState : Type 0 where
  pub warned : List Text
  pub warnings : List (Text × Text)

unfoldable pub deprecation : Text × Text → Text
deprecation (old, current) =
    codes "Config key \""
    ++ old
    ++ codes "\" is deprecated; rename it to \""
    ++ current
    ++ codes "\""

unfoldable pub warn_of : Bool → Text → Text → AliasState → AliasState
warn_of warn old current s =
    if warn && not (any (same old) s.warned)
    then record { warned = old ∷ s.warned; warnings = s.warnings ++ (old, current) ∷ [] }
    else s

module _ {Failure Node : Type 0} (load : Provider Failure Node) (warn : Bool) where
  abbrev pub Answer : Type 0
  Answer = Result Failure (Option Node) × AliasState

  -- a node is the answer, with its warning; none goes on
  abbrev pub old_answer : Text → Text → AliasState → Answer → Result Failure (Option Node) → Answer
  old_answer old current s next (err failure) = (err failure, s)
  old_answer old current s next (ok none) = next
  old_answer old current s next (ok (some node)) = (ok (some node), warn_of warn old current s)

  -- the loop over the old keys of one entry, before what comes after it
  unfoldable pub try_olds : Text → ConfigPath → List OldKey → AliasState → Answer → Answer
  unfolding warn_of
  try_olds current rest [] s after = after
  try_olds current rest (o ∷ olds) s after =
      old_answer o.old current s (try_olds current rest olds s after) (load (o.segments ++ rest))

  abbrev pub try_entry : AliasEntry → Option ConfigPath → AliasState → Answer → Answer
  try_entry entry none s after = after
  try_entry entry (some rest) s after = try_olds entry.current rest entry.olds s after

  unfoldable pub try_entries : List AliasEntry → ConfigPath → AliasState → Answer
  unfolding try_olds behind_prefix
  try_entries [] path s = (ok none, s)
  try_entries (entry ∷ entries) path s =
      try_entry entry (behind_prefix entry.segments path) s (try_entries entries path s)

  abbrev pub or_aliases :
      List AliasEntry → ConfigPath → AliasState → Result Failure (Option Node) → Answer
  or_aliases entries path s (err failure) = (err failure, s)
  or_aliases entries path s (ok none) = try_entries entries path s
  or_aliases entries path s (ok (some node)) = (ok (some node), s)

  unfoldable pub with_aliases : List (Text × List Text) → ConfigPath → AliasState → Answer
  unfolding try_entries alias_entry
  with_aliases aliases path s = or_aliases (map alias_entry aliases) path s (load path)
