-- ===== src/Config.antt =====
-- config: the paths of the effect library's configuration and the keys that name them, and what a
-- provider answers at a path: a failure of its source, no node, or a node.
pub mod Redaction
pub mod Aliases
pub mod Errors
pub mod Toml
pub mod Paths
use mitools.Prelude.{
  ℕ, Bool, true, false, not, Option, none, some, List, [], ◌∷◌, ◌++◌, map, Text, same, leb, ◌==◌,
  ◌&&◌, if◌then◌else◌, Result, ok, err,
}
use mitools.Prelude.Decimal.{decimal, value}

-- A segment of a path: a key, or an index, in the range where JavaScript counts exactly.
pub data Segment : Type 0 where
  key : Text → Segment
  index : ℕ → Segment

abbrev pub ConfigPath : Type 0
ConfigPath = List Segment

-- `provider.load`
abbrev pub Provider : Type 0 → Type 0 → Type 0
Provider Failure Node = ConfigPath → Result Failure (Option Node)

-- `String(segment)`
unfoldable pub segment_text : Segment → Text
segment_text (key k) = k
segment_text (index n) = decimal n

abbrev pub onto_first : ℕ → List Text → List Text
onto_first c [] = (c ∷ []) ∷ []
onto_first c (t ∷ ts) = (c ∷ t) ∷ ts

-- `text.split(separator)` for one character
unfoldable pub split_at : ℕ → Text → List Text
split_at separator [] = [] ∷ []
split_at separator (c ∷ text) =
    let rest = split_at separator text in if c == separator then [] ∷ rest else onto_first c rest

-- `texts.join(separator)`
unfoldable pub join_with : Text → List Text → Text
join_with separator [] = []
join_with separator (t ∷ []) = t
join_with separator (t ∷ u ∷ ts) = t ++ separator ++ join_with separator (u ∷ ts)

unfoldable pub all_digits : Text → Bool
all_digits [] = true
all_digits (c ∷ text) = (leb b'0' c && leb c b'9') && all_digits text

-- `/^\d+$/.test(part)`
unfoldable pub is_index : Text → Bool
unfolding all_digits
is_index [] = false
is_index (c ∷ text) = all_digits (c ∷ text)

-- `/^\d+$/.test(part) ? Number(part) : part`
unfoldable pub numeric_segment : Text → Segment
unfolding is_index
numeric_segment part = if is_index part then index (value 0 part) else key part
