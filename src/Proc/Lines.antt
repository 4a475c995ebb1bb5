-- ===== src/Proc/Lines.antt =====
-- `sanitizeLine` of proc/index.ts.
pub mod Clean
use mitools.Prelude.{
  ℕ, zero, suc, ◌+◌, Bool, true, false, not, ◌&&◌, ◌||◌, Option, none, some, List, [], ◌∷◌, ◌++◌,
  Text, ltb, leb, ◌==◌, if◌then◌else◌, keep, map,
}

abbrev pub esc : ℕ
esc = 0x1b

-- one more than a length, if there is one
abbrev one_more : Option ℕ → Option ℕ
one_more none = none
one_more (some n) = some (suc n)

-- the class `[0-9;?]`
unfoldable pub is_parameter : ℕ → Bool
is_parameter c = (leb b'0' c && leb c b'9') || (c == b';' || c == b'?')

-- How much of the text `[ -/]*[@-~]` matches.
unfoldable pub intermediates : Text → Option ℕ
intermediates [] = none
intermediates (c ∷ s) =
    let rest = intermediates s in
    if leb 32 c && leb c 47 then one_more rest else if leb 64 c && leb c 126 then some 1 else none

-- How much of the text `[0-9;?]*[ -/]*[@-~]` matches; the classes have no character in common.
unfoldable pub parameters : Text → Option ℕ
unfolding is_parameter intermediates
parameters [] = none
parameters (c ∷ s) =
    let rest = parameters s in if is_parameter c then one_more rest else intermediates (c ∷ s)

abbrev terminator : Text → Option ℕ
terminator [] = none
terminator (c ∷ s) = if c == b'\\' then some 2 else none

-- How much of the text `[^\x07\x1b]*(?:\x07|\x1b\\)` matches.
unfoldable pub osc : Text → Option ℕ
osc [] = none
osc (c ∷ s) =
    let rest = osc s in if c == 7 then some 1 else if c == esc then terminator s else one_more rest

-- the class `[@-Z\\-_]`
unfoldable pub is_short : ℕ → Bool
is_short c = (leb 64 c && leb c 90) || (leb 92 c && leb c 95)

abbrev or_short : ℕ → Option ℕ → Option ℕ
or_short c (some n) = some (suc n)
or_short c none = if is_short c then some 1 else none

-- How much of the text after an escape ANSI_RE matches: the alternatives in their order.
unfoldable pub sequence : Text → Option ℕ
unfolding parameters osc is_short
sequence [] = none
sequence (c ∷ s) =
    or_short c (if c == b'[' then parameters s else if c == b']' then osc s else none)

-- `line.replace(ANSI_RE, "")`: the number is what is left to skip of a match.
unfoldable pub strip_ansi : ℕ → Text → Text
unfolding sequence
strip_ansi n [] = []
strip_ansi (suc n) (c ∷ s) = strip_ansi n s
strip_ansi zero (c ∷ s) =
    if c == esc
    then elim (sequence s) [ none ↦ c ∷ strip_ansi 0 s | some n ↦ strip_ansi n s ]
    else c ∷ strip_ansi 0 s

abbrev has_return : Text → Bool
has_return [] = false
has_return (c ∷ s) = c == 13 || has_return s

-- `value.slice(value.lastIndexOf("\r") + 1)`, and the value itself when it has none
unfoldable pub after_return : Text → Text
after_return [] = []
after_return (c ∷ s) =
    let rest = after_return s in if has_return s then rest else if c == 13 then s else c ∷ s

-- the class `[\x00-\x08\x0b\x0c\x0e-\x1f\x7f]`
unfoldable pub is_control : ℕ → Bool
is_control c = leb c 8 || (c == 11 || (c == 12 || ((leb 14 c && leb c 31) || c == 127)))

abbrev tab_to_space : ℕ → ℕ
tab_to_space c = if c == 9 then 32 else c

unfoldable pub sanitize_line : Text → Text
unfolding strip_ansi after_return is_control
sanitize_line line =
    keep (λ c. not (is_control c)) (map tab_to_space (after_return (strip_ansi 0 line)))
