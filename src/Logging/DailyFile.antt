-- ===== src/Logging/DailyFile.antt =====
-- logging/sinks.ts: dailyFileSink. The writer fiber takes commands from a queue; each carries what the
-- file system does at it. The trace holds what the sink has done, in order.
pub mod Writer
pub mod Start
pub mod Order
use mitools.Prelude.{
  ℕ, suc, ◌+◌, ◌*◌, Bool, true, false, not, Option, none, some, List, [], ◌∷◌, ◌++◌, Text, codes,
  same, starts_with, any, ltb, ◌&&◌, if◌then◌else◌, length, Result, ok, err,
}
use mitools.Prelude.Decimal.{decimal}
use mitools.Errors.{Cause}
use mitools.Logging.{LogItem}
use mitools.Logging.Sinks.{format_file_line}

pub record DailyFileSinkOptions : Type 0 where
  pub directory : Text
  pub prefix : Text
  pub retain_days : Option ℕ
  pub format : Option (LogItem → Text)

-- A flush waits for the deferred of its number.
pub data FileCommand : Type 0 where
  write : Text → Text → FileCommand
  flush : ℕ → FileCommand

-- `appended` and `unlinked` are calls with what they threw, if they did.
pub data FileEffect : Type 0 where
  made : FileEffect
  listed : FileEffect
  unlinked : Text → Option Cause → FileEffect
  appended : Text → Text → Option Cause → FileEffect
  answered : ℕ → FileEffect
  reported : Text → FileEffect

-- An entry of the directory: its name, its time of change or what `stat` throws, and what `unlink`
-- throws.
pub record Entry : Type 0 where
  pub name : Text
  pub mtime : Result Cause ℕ
  pub unlinking : Option Cause

pub record Disk : Type 0 where
  pub now : ℕ
  pub making : Option Cause
  pub entries : Result Cause (List Entry)
  pub appending : Option Cause

pub record FileWriter : Type 0 where
  pub queue : List FileCommand
  pub initialized : Bool
  pub reported_paths : List Text
  pub deferreds : ℕ
  pub trace : List FileEffect

unfoldable pub new_writer : FileWriter
new_writer = record {
  queue = [];
  initialized = false;
  reported_paths = [];
  deferreds = 0;
  trace = [];
}

unfoldable pub did : FileEffect → FileWriter → FileWriter
did e w = record w { trace = w.trace ++ e ∷ [] }

unfoldable pub report : Text → FileWriter → FileWriter
report what w = if any (same what) w.reported_paths then w else record w {
  reported_paths = what ∷ w.reported_paths;
  trace = w.trace ++ reported what ∷ [];
}

-- `String(n).padStart(2, "0")`
unfoldable pub two_digits : ℕ → Text
two_digits n = let d = decimal n in if ltb (length d) 2 then b'0' ∷ d else d

-- `name.endsWith(suffix)`
unfoldable pub ends_with : Text → Text → Bool
unfolding same
ends_with suffix [] = same suffix []
ends_with suffix (c ∷ name) =
    let rest = ends_with suffix name in if same suffix (c ∷ name) then true else rest

unfoldable pub offer : FileCommand → FileWriter → FileWriter
offer command w = record w { queue = w.queue ++ command ∷ [] }

-- The offer of a flush, with the number of the deferred that the caller awaits.
unfoldable pub start_flush : FileWriter → ℕ × FileWriter
unfolding offer
start_flush w = (w.deferreds, offer (flush w.deferreds) (record w { deferreds = suc w.deferreds }))

abbrev pub retained : Option ℕ → ℕ
retained none = 14
retained (some days) = days

-- `local` is the year, month and day of a time where the process runs, `join` puts a name in a
-- directory.
module _ (iso : ℕ → Text) (local : ℕ → ℕ × ℕ × ℕ) (join : Text → Text → Text)
    (options : DailyFileSinkOptions) where
  abbrev date_text : ℕ × ℕ × ℕ → Text
  date_text (y, m, d) = decimal y ++ b'-' ∷ two_digits m ++ b'-' ∷ two_digits d

  unfoldable pub local_date : ℕ → Text
  unfolding two_digits
  local_date timestamp = date_text (local timestamp)

  abbrev format_of : Option (LogItem → Text) → LogItem → Text
  format_of none = format_file_line iso
  format_of (some format) = format

  unfoldable pub is_log_name : Text → Bool
  unfolding ends_with
  is_log_name name = starts_with (options.prefix ++ codes "-") name && ends_with (codes ".log") name

  -- `s.mtimeMs < cutoff`, with the days on the other side
  unfoldable pub is_old : ℕ → ℕ → Bool
  is_old now mtime = ltb (mtime + retained options.retain_days * 24 * 60 * 60 * 1000) now

  abbrev sweep_stat : ℕ → Entry → Result Cause ℕ → FileWriter → FileWriter
  sweep_stat now e (err cause) w = w
  sweep_stat now e (ok mtime) w =
      if is_old now mtime then did (unlinked (join options.directory e.name) e.unlinking) w else w

  unfoldable pub sweep_entries : ℕ → List Entry → FileWriter → FileWriter
  unfolding is_log_name is_old did
  sweep_entries now [] w = w
  sweep_entries now (e ∷ es) w =
      let swept = sweep_stat now e e.mtime w in
      sweep_entries now es (if is_log_name e.name then swept else w)

  abbrev sweep_names : ℕ → Result Cause (List Entry) → FileWriter → FileWriter
  sweep_names now (err cause) w = report (codes "sweep " ++ options.directory) w
  sweep_names now (ok entries) w = sweep_entries now entries (did listed w)

  unfoldable pub sweep_old : Disk → FileWriter → FileWriter
  unfolding sweep_entries report did
  sweep_old disk w = sweep_names disk.now disk.entries w

  abbrev after_made : Disk → Option Cause → FileWriter → FileWriter
  after_made disk (some cause) w = report (codes "mkdir " ++ options.directory) w
  after_made disk none w =
      let done = did made w in
      if ltb 0 (retained options.retain_days) then sweep_old disk done else done

  unfoldable pub init : Disk → FileWriter → FileWriter
  unfolding sweep_old report did
  init disk w =
      let first = after_made disk disk.making (record w { initialized = true }) in
      if w.initialized then w else first

  abbrev report_failure : Text → Option Cause → FileWriter → FileWriter
  report_failure path none w = w
  report_failure path (some cause) w = report (codes "append " ++ path) w

  unfoldable pub handle : Disk → FileCommand → FileWriter → FileWriter
  unfolding init report did
  handle disk (flush id) w = did (answered id) w
  handle disk (write path line) w =
      let ready = init disk w in
      report_failure path disk.appending (did (appended path line disk.appending) ready)

  -- `Effect.forever(Effect.flatMap(Queue.take(queue), handle))`, one command
  unfoldable pub take_next : Disk → List FileCommand → FileWriter → FileWriter
  unfolding handle
  take_next disk [] w = w
  take_next disk (command ∷ rest) w = handle disk command (record w { queue = rest })

  abbrev pub log_path : LogItem → Text
  log_path item =
      join options.directory
        (options.prefix ++ codes "-" ++ local_date item.timestamp ++ codes ".log")

  unfoldable pub write_command : LogItem → FileCommand
  unfolding local_date
  write_command item = write (log_path item) (format_of options.format item)

  unfoldable pub write_item : LogItem → FileWriter → FileWriter
  unfolding write_command offer
  write_item item w = offer (write_command item) w
