-- ===== src/Logging/Sinks.antt =====
-- logging/sinks.ts: the sinks that only use the item, and the line of a log file.
use mitools.Prelude.{
  ℕ, zero, suc, ◌-◌, Bool, false, Option, none, some, List, [], ◌∷◌, ◌++◌, map, Text, codes, same,
  leb, ◌==◌, ◌||◌, ◌&&◌, if◌then◌else◌, length,
}
use mitools.Errors.{Cause}
use mitools.Logging.{LogLevel, debug, info, warn, error, reaches, LogItem}

-- A sink over its own state: what a write does, a failure included, and its flush.
pub record LogSink (S : Type 0) : Type 0 where
  pub write : LogItem → S → Option Cause × S
  pub flush : Option (S → S)

-- `captureSink`: the state is the list that it records.
unfoldable pub capture_sink : LogSink (List LogItem)
capture_sink = record { write = λ item items. (none, items ++ item ∷ []); flush = none }

unfoldable pub filter_sink : {S : Type 0} → LogSink S → (LogItem → Bool) → LogSink S
filter_sink sink predicate = record {
  write = λ item s. if predicate item then sink.write item s else (none, s);
  flush = sink.flush;
}

unfoldable pub on_channel : Text → Option Text → Bool
on_channel wanted none = false
on_channel wanted (some c) = same c wanted

unfoldable pub channel_sink : {S : Type 0} → LogSink S → Text → LogSink S
unfolding filter_sink on_channel
channel_sink sink wanted = filter_sink sink (λ item. on_channel wanted item.channel)

unfoldable pub level_sink : {S : Type 0} → LogSink S → LogLevel → LogSink S
unfolding filter_sink
level_sink sink level = filter_sink sink (λ item. reaches level item.level)

-- `[\0-\x08\x0B-\x1F\x7F]`
unfoldable pub is_control_byte : ℕ → Bool
is_control_byte c = leb c 8 || ((leb 0xb c && leb c 0x1f) || c == 0x7f)

unfoldable pub sanitize_control : Text → Text
unfolding is_control_byte
sanitize_control = map (λ c. if is_control_byte c then 0xfffd else c)

-- `text.slice(first, last)`
unfoldable pub slice : ℕ → ℕ → Text → Text
slice first last [] = []
slice (suc first) last (c ∷ text) = slice first (last - 1) text
slice zero zero (c ∷ text) = []
slice zero (suc last) (c ∷ text) = c ∷ slice 0 last text

-- `text.padEnd(width)`
unfoldable pub spaces : ℕ → Text
spaces zero = []
spaces (suc n) = b' ' ∷ spaces n

unfoldable pub pad_end : Text → ℕ → Text
unfolding spaces
pad_end text width = text ++ spaces (width - length text)

-- `text.replaceAll("\n", "\n        ")`, which changes nothing in a text without a line feed
unfoldable pub indent : Text → Text
indent [] = []
indent (c ∷ text) =
    let rest = indent text in if c == 0xa then c ∷ codes "        " ++ rest else c ∷ rest

unfoldable pub level_text : LogLevel → Text
level_text debug = codes "DEBUG"
level_text info = codes "INFO"
level_text warn = codes "WARN"
level_text error = codes "ERROR"

unfoldable pub log_prefix : LogLevel → Text
log_prefix debug = codes "[DEBUG]"
log_prefix info = codes " [INFO]"
log_prefix warn = codes " [WARN]"
log_prefix error = codes "[ERROR]"

-- The empty channel is no channel.
abbrev pub channel_part : Text → Text → Option Text → Text
channel_part before after none = []
channel_part before after (some []) = []
channel_part before after (some (c ∷ name)) = before ++ c ∷ name ++ after

abbrev pub item_text : LogItem → Option Text → Text
item_text item none = item.message
item_text item (some args) = item.message ++ b' ' ∷ args

-- `iso` is the runtime's `toISOString`.
module _ (iso : ℕ → Text) where
  unfoldable pub format_console_line : LogItem → Text
  unfolding log_prefix slice
  format_console_line item =
      slice 11 23 (iso item.timestamp)
      ++ b' ' ∷ log_prefix item.level
      ++ codes " <"
      ++ item.logger_name
      ++ codes ">"
      ++ channel_part (codes " (") (codes ")") item.channel
      ++ b' ' ∷ item.message

  unfoldable pub file_body : LogItem → Text
  unfolding sanitize_control indent
  file_body item = indent (sanitize_control (item_text item item.formatted_args))

  unfoldable pub format_file_line : LogItem → Text
  unfolding file_body pad_end level_text
  format_file_line item =
      iso item.timestamp
      ++ b' ' ∷ pad_end (level_text item.level) 5
      ++ b' ' ∷ channel_part [] (codes " ") item.channel
      ++ pad_end item.logger_name 16
      ++ b' ' ∷ file_body item
