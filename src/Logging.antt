-- ===== src/Logging.antt =====
-- logging/types.ts and logging/Logger.ts: levels, items, arguments, named loggers, notifications, and
-- the items of Effect's own logger. Texts that JavaScript makes of a value come with the value.
pub mod Sinks
pub mod Service
pub mod Flush
pub mod Feeds
pub mod Order
pub mod DailyFile
use Prim.Native.String.{String}
use mitools.Prelude.{
  ℕ, ◌+◌, Bool, true, false, Option, none, some, List, [], ◌∷◌, ◌++◌, map, Text, codes, same, leb,
  if◌then◌else◌,
}
use mitools.Errors.{Cause}

pub data LogLevel : Type 0 where
  debug : LogLevel
  info : LogLevel
  warn : LogLevel
  error : LogLevel

unfoldable pub ordinal : LogLevel → ℕ
ordinal debug = 10
ordinal info = 20
ordinal warn = 30
ordinal error = 40

-- `LOG_LEVEL_ORDINAL[level] >= threshold`
unfoldable pub reaches : LogLevel → LogLevel → Bool
unfolding ordinal
reaches threshold level = leb (ordinal threshold) (ordinal level)

-- What `JSON.stringify` does on a value.
pub data Json : Type 0 where
  throws : Json
  undefined : Json
  text : Text → Json

-- A value that is no string: an `Error` with its stack, name and message, or another one, with what
-- `JSON.stringify` and `String` make of it.
pub data Value : Type 0 where
  thrown : Option Text → Text → Text → Value
  other : Json → Text → Value

-- An argument of a log call.
pub data Argument : Type 0 where
  string : Text → Argument
  value : Value → Argument

pub record LogItem : Type 0 where
  pub timestamp : ℕ
  pub level : LogLevel
  pub logger_name : Text
  pub message : Text
  pub args : List Argument
  pub formatted_args : Option Text
  pub channel : Option Text

pub record LogNotification : Type 0 where
  pub level : LogLevel
  pub logger_name : Text
  pub title : Text
  pub body : Text

unfoldable pub safe_stringify : Value → Text
safe_stringify (thrown (some stack) name message) = stack
safe_stringify (thrown none name message) = name ++ codes ": " ++ message
safe_stringify (other throws printed) = printed
safe_stringify (other undefined printed) = printed
safe_stringify (other (text json) printed) = json

abbrev argument_text : Argument → Text
argument_text (string s) = s
argument_text (value v) = safe_stringify v

-- `parts.join(" ")`
unfoldable pub join_space : List Text → Text
join_space [] = []
join_space (p ∷ []) = p
join_space (p ∷ q ∷ ps) = p ++ b' ' ∷ join_space (q ∷ ps)

unfoldable pub format_args : List Argument → Text
unfolding safe_stringify join_space
format_args args = join_space (map argument_text args)

-- `args.length > 0 ? formatArgs(args) : undefined`
unfoldable pub formatted : List Argument → Option Text
unfolding format_args
formatted [] = none
formatted (a ∷ args) = some (format_args (a ∷ args))

pub record NamedLogger : Type 0 where
  pub name : Text
  pub channel_name : Option Text

unfoldable pub named : Text → NamedLogger
named name = record { name = name; channel_name = none }

-- `child ? ... : name`: the empty name is no name.
unfoldable pub child_name : Text → Option Text → Text
child_name name none = name
child_name name (some []) = name
child_name name (some (c ∷ child)) = name ++ b':' ∷ c ∷ child

unfoldable pub extend : Option Text → NamedLogger → NamedLogger
unfolding child_name
extend child logger = record {
  name = child_name logger.name child;
  channel_name = logger.channel_name;
}

unfoldable pub channel : Option Text → NamedLogger → NamedLogger
channel c logger = record { name = logger.name; channel_name = c }

-- The item of a log call at a time.
unfoldable pub log_item : NamedLogger → ℕ → LogLevel → Text → List Argument → LogItem
unfolding formatted
log_item logger now level message args = record {
  timestamp = now;
  level = level;
  logger_name = logger.name;
  message = message;
  args = args;
  formatted_args = formatted args;
  channel = logger.channel_name;
}

abbrev body_of : Option Text → Text → Text
body_of none message = message
body_of (some args) message = args

unfoldable pub to_notification : LogItem → LogNotification
to_notification item = record {
  level = item.level;
  logger_name = item.logger_name;
  title = item.message;
  body = body_of item.formatted_args item.message;
}

-- The levels of the effect library.
pub data EffectLevel : Type 0 where
  all : EffectLevel
  trace : EffectLevel
  effect_debug : EffectLevel
  effect_info : EffectLevel
  effect_warn : EffectLevel
  effect_error : EffectLevel
  fatal : EffectLevel
  off : EffectLevel

unfoldable pub effect_level : EffectLevel → LogLevel
effect_level all = debug
effect_level trace = debug
effect_level effect_debug = debug
effect_level effect_info = info
effect_level effect_warn = warn
effect_level effect_error = error
effect_level fatal = error
effect_level off = debug

-- A log call of the effect library; `cause` is what `Cause.pretty` gives for one with reasons.
pub record EffectCall : Type 0 where
  pub date : ℕ
  pub level : EffectLevel
  pub parts : List Argument
  pub annotations : List (Text × Argument)
  pub cause : Option Text

-- `const { [LOGGER_ANNOTATION]: loggerName, ...rest } = annotations`
unfoldable pub annotated_name : List (Text × Argument) → Option Argument
annotated_name [] = none
annotated_name ((k, a) ∷ rest) =
    let later = annotated_name rest in if same k (codes "logger") then some a else later

unfoldable pub other_annotations : List (Text × Argument) → List (Text × Argument)
other_annotations [] = []
other_annotations ((k, a) ∷ rest) =
    let later = other_annotations rest in if same k (codes "logger") then later else (k, a) ∷ later

abbrev name_text : Option Argument → Text
name_text (some (string name)) = name
name_text a = codes "effect"

-- The first part is the message, a missing one is undefined.
abbrev first_text : List Argument → Text
first_text [] = codes "undefined"
first_text (string s ∷ others) = s
first_text (a ∷ others) = format_args (a ∷ [])

abbrev others_of : List Argument → List Argument
others_of [] = []
others_of (first ∷ others) = others

-- `object` makes one argument of the annotations that are left.
module _ (object : List (Text × Argument) → Argument) where
  abbrev annotation_args : List (Text × Argument) → List Argument
  annotation_args [] = []
  annotation_args (a ∷ rest) = object (a ∷ rest) ∷ []

  abbrev cause_args : Option Text → List Argument
  cause_args none = []
  cause_args (some pretty) = string pretty ∷ []

  unfoldable pub to_log_item : EffectCall → LogItem
  unfolding formatted effect_level annotated_name other_annotations
  to_log_item call =
      let args =
        others_of call.parts
        ++ annotation_args (other_annotations call.annotations)
        ++ cause_args call.cause in
      record {
        timestamp = call.date;
        level = effect_level call.level;
        logger_name = name_text (annotated_name call.annotations);
        message = first_text call.parts;
        args = args;
        formatted_args = formatted args;
        channel = none;
      }
