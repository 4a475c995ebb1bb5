-- ===== src/Tests/Logs.antt =====
-- A logger at the level warn, with a tap that logs, a hook that logs an error, a sink that records,
-- and one that fails; and a daily file on a disk that refuses the first append.
use mitools.Prelude.{
  Distinct, ℕ, ◌≤◌, arith, ◌≡◌, false, none, some, List, [], ◌∷◌, ◌++◌, map, Text, codes, ok,
}
use mitools.Prelude.Decimal.{decimal}
use mitools.Errors.{Cause}
use mitools.Logging.{LogLevel, debug, info, warn, error, LogItem, named, extend, log_item}
use mitools.Logging.Sinks.{LogSink, capture_sink}
use mitools.Logging.Service.{
  done, fails, logs, LoggerOptions, LoggerService, flush, flush_sinks, await_empty,
}
use mitools.Logging.Flush.{work, flush-answers}
use mitools.Logging.Feeds.{feed, shown}
use mitools.Logging.Order.{
  LoggerEvent, emits, emits_unsafe, runs, closes, logger_run, items_of, logger_run-feed,
}
use mitools.Logging.DailyFile.{DailyFileSinkOptions, Disk, new_writer}
use mitools.Logging.DailyFile.Writer.{commands, reports, makings}
use mitools.Logging.DailyFile.Order.{
  FileEvent, writes, flushes, takes, file_run, offered, daily_file-in_order,
}

abbrev broken : Cause
broken = Cause.string (codes "ENOSPC")

abbrev item : LogLevel → LogItem
item level =
    log_item (extend (some (codes "Scheduler")) (named (codes "Main"))) 7 level (codes "stopped") []

abbrev options : LoggerOptions
options = record {
  level = some warn;
  on_error = some (λ n. logs (item error) (logs (item debug) done));
  on_warn = none;
  on_log = some (λ i. logs (item warn) (fails broken));
}

abbrev failing_sink : LogSink (List LogItem)
failing_sink = record { write = λ i items. (some broken, i ∷ items); flush = some (λ items. []) }

abbrev two_sinks : LoggerService (List LogItem)
two_sinks = record {
  sinks =
      record { sink = failing_sink; state = [] } ∷ record { sink = capture_sink; state = [] } ∷ [];
  hooks = [];
  reports = [];
  closed = false;
  printed = [];
}

abbrev iso : ℕ → Text
iso = decimal

abbrev events : List LoggerEvent
events = emits false (item error) ∷ runs 3 ∷ emits_unsafe false (item debug) ∷ closes ∷ []

logger_run-feed_example :
    (logger_run iso options events two_sinks).sinks
    ≡ map (feed (shown options (items_of iso options events two_sinks))) two_sinks.sinks
logger_run-feed_example = logger_run-feed iso options events two_sinks

abbrev with_hook : LoggerService (List LogItem)
with_hook = record two_sinks {
  hooks =
      record { what = codes "onError hook"; program = logs (item error) (logs (item debug) done) }
      ∷ record { what = codes "onError hook"; program = fails broken }
      ∷ [];
}

flush-answers_example :
    flush options (1 ∷ 0 ∷ 5 ∷ 0 ∷ []) with_hook
      ≡ some (record (await_empty options (1 ∷ 0 ∷ 5 ∷ 0 ∷ []) with_hook) {
        sinks = flush_sinks (await_empty options (1 ∷ 0 ∷ 5 ∷ 0 ∷ []) with_hook).sinks;
      })
    × (work (await_empty options (1 ∷ 0 ∷ 5 ∷ 0 ∷ []) with_hook).hooks ≡ 0)
flush-answers_example = flush-answers options (1 ∷ 0 ∷ 5 ∷ 0 ∷ []) with_hook (omega arith)

abbrev file_options : DailyFileSinkOptions
file_options = record {
  directory = codes "/var/log/app";
  prefix = codes "app";
  retain_days = none;
  format = some (λ i. i.message);
}

abbrev local : ℕ → ℕ × ℕ × ℕ
local t = (2026, 11, 5)

abbrev join : Text → Text → Text
join directory name = directory ++ b'/' ∷ name

abbrev disk : Disk
disk = record {
  now = 20000000000;
  making = none;
  entries = ok (record { name = codes "app-2026-01-01.log"; mtime = ok 3; unlinking = none } ∷ []);
  appending = some broken;
}

abbrev file_events : List FileEvent
file_events =
    writes (item warn)
    ∷ writes (item error)
    ∷ flushes
    ∷ takes disk
    ∷ takes disk
    ∷ writes (item info)
    ∷ takes disk
    ∷ []

daily_file-in_order_example :
    let after = file_run iso local join file_options file_events new_writer in
    (commands after.trace ++ after.queue ≡ offered iso local join file_options file_events 0)
    × (Distinct (reports after.trace []))
    × (makings after.trace ≤ 1)
daily_file-in_order_example = daily_file-in_order iso local join file_options file_events
