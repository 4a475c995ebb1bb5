-- ===== src/Locks/Display.antt =====
-- locks/index.ts: `humanAge`, `lockAge` and `lockLabel`.
use mitools.Prelude.{
  ℕ, ◌+◌, ◌-◌, ◌/◌, Bool, true, false, not, ◌&&◌, Option, none, some, [], ◌∷◌, ◌++◌, Text, codes,
  same, ltb, if◌then◌else◌,
}
use mitools.Prelude.Decimal.{decimal}
use mitools.Errors.{or_text}
use mitools.Locks.{PartialMeta, or_default}

-- The text for whole seconds; a fraction of a second changes no digit of it.
unfoldable pub human_age : ℕ → Text
human_age seconds =
    if ltb seconds 60
    then decimal seconds ++ codes "s"
    else if ltb seconds 3600
    then decimal (seconds / 60) ++ codes "m"
    else if ltb seconds 86400
    then decimal (seconds / 3600) ++ codes "h"
    else decimal (seconds / 86400) ++ codes "d"

-- The text for a time that lies so many milliseconds ahead: the floor of a negative number of seconds.
unfoldable pub human_age_before : ℕ → Text
human_age_before ahead = b'-' ∷ (decimal ((ahead + 999) / 1000) ++ codes "s")

abbrev or_phase : Option Text → Option Text → Option Text
or_phase none started = started
or_phase (some phase) started = some phase

abbrev age_since : ℕ → Option ℕ → Option Text
age_since now none = none
age_since now (some parsed) =
    if ltb now parsed
    then some (human_age_before (parsed - now))
    else some (human_age ((now - parsed) / 1000))

abbrev age_of : (Text → Option ℕ) → ℕ → Option Text → Option Text
age_of parse_date now none = none
age_of parse_date now (some []) = none
age_of parse_date now (some (c ∷ started)) = age_since now (parse_date (c ∷ started))

-- `Date.parse` is a parameter; none is NaN.
unfoldable pub lock_age : (Text → Option ℕ) → PartialMeta → ℕ → Option Text
unfolding human_age human_age_before
lock_age parse_date meta now = age_of parse_date now (or_phase meta.phase_started meta.started_at)

abbrev non_empty : Text → Bool
non_empty [] = false
non_empty (c ∷ s) = true

unfoldable pub lock_label : PartialMeta → Text
lock_label meta =
    let phase = or_default meta.phase [] in
    let op = or_default meta.op [] in
    if non_empty phase && (non_empty op && not (same phase op))
    then op ++ (codes ": " ++ phase)
    else or_text phase (or_text op (codes "busy"))
