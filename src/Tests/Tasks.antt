-- ===== src/Tests/Tasks.antt =====
-- A scheduler with one task that is running when the shutdown comes, a log file whose first write
-- cannot open it, and a table of an older version.
use mitools.Prelude.{
  ℕ, ◌≡◌, refl, true, false, Option, none, some, List, [], ◌∷◌, ◌++◌, All, Text, codes, Result, ok,
  err,
}
use mitools.Errors.{Cause}
use mitools.Scheduler.{ScheduledTask, fires, jitter_ends, run_ends, empty_scheduler, shutdown}
use mitools.Scheduler.Loops.{IsEnded}
use mitools.Scheduler.Stopped.{
  SchedulerEvent, registers, starts, loops, scheduler_run, shutdown-IsEnded,
}
use mitools.LogFile.{overwrite, opening, writing, section, next_write_flag, section_text}
use mitools.LogFile.Sections.{Write, sections, written, kept, sections-written}
use mitools.Docstore.Schema.{
  Meeting, IsMild, Has, any-append, added_columns, create_table, initialize_schema,
  initialize_schema-Has,
}

abbrev parse : Text → Result Cause ℕ
parse [] = err (Cause.string (codes "empty"))
parse (c ∷ schedule) = ok c

abbrev next : ℕ → ℕ → Option Cause
next cron now = none

abbrev task : ScheduledTask
task = record {
  name = codes "sync";
  schedule = codes "0 0 * * * *";
  jitter_ms = some 500;
  run_on_startup = some true;
}

abbrev history : List SchedulerEvent
history = registers task 10 ∷ starts ∷ loops 0 jitter_ends ∷ []

abbrev later : List SchedulerEvent
later = loops 0 fires ∷ starts ∷ loops 0 run_ends ∷ loops 0 fires ∷ []

shutdown-IsEnded_example :
    let s = scheduler_run parse next history empty_scheduler in
    IsEnded s.loops (scheduler_run parse next later (shutdown s)).loops
shutdown-IsEnded_example = shutdown-IsEnded parse next history later

-- The errors that the first write and the second one meet.
abbrev refused : Cause
refused = Cause.string (codes "EACCES")

abbrev full : Cause
full = Cause.string (codes "ENOSPC")

abbrev writes : List Write
writes =
    record { heading = codes "Run"; content = codes "started"; fault = some (opening refused) }
    ∷ record {
      heading = codes "Step";
      content = codes "one";
      fault = some (writing full (codes "## "));
    }
    ∷ record { heading = codes "End"; content = codes "done"; fault = none }
    ∷ []

sections-written_example :
    (sections writes (
      record { file_path = codes "run.log"; mode = overwrite; has_truncated = false },
      codes "old",
    )).1
    ≡ kept overwrite writes (codes "old") ++ written writes
sections-written_example = sections-written (codes "run.log") overwrite writes (codes "old")

old_text_kept :
    (sections writes (
      record { file_path = codes "run.log"; mode = overwrite; has_truncated = false },
      codes "old",
    )).1
    ≡ codes "old## ## End\n\ndone\n\n"
unfolding section next_write_flag section_text
old_text_kept = refl

-- The disk is full after the first write has opened and emptied the file.
old_text_lost :
    (sections
      (record {
        heading = codes "Run";
        content = codes "started";
        fault = some (writing full (codes "## R"));
      }
        ∷ [])
      (
        record { file_path = codes "run.log"; mode = overwrite; has_truncated = false },
        codes "old",
      )).1
    ≡ codes "## R"
unfolding section next_write_flag section_text
old_text_lost = refl

-- Another process adds the column `version` before each statement.
abbrev busy : Text → Meeting
busy name = record { before = λ columns. columns ++ codes "version" ∷ []; fault = none }

busy-IsMild : (name : Text) → IsMild (busy name)
busy-IsMild name = (λ columns n h. any-append _ columns (codes "version" ∷ []) h, refl)

abbrev first_columns : Option (List Text)
first_columns = some (codes "pk" ∷ codes "data" ∷ [])

initialize_schema-Has_example :
    (more : List Text) × (initialize_schema busy first_columns ≡ ok more)
    × All (λ n. Has n more) added_columns
    × ((name : Text) → Has name (create_table first_columns) → Has name more)
initialize_schema-Has_example = initialize_schema-Has busy first_columns busy-IsMild
