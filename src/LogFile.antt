-- ===== src/LogFile.antt =====
-- services/logfile.ts: the file of `##` sections. A write appends or truncates; it is serialized by
-- the lock, so a section is one step. The file system's failure comes with each write: at the open of
-- the file, or later, with what has reached the file by then.
pub mod Sections
use mitools.Prelude.{
  ℕ, Bool, true, false, Option, none, some, List, [], ◌∷◌, ◌++◌, map, Text, codes, ◌==◌, leb, ◌&&◌,
  if◌then◌else◌, Result, ok, err,
}
use mitools.Errors.{Cause, OperationError, wrap}
use mitools.Logging.{LogLevel, LogItem, NamedLogger, log_item}

pub data Mode : Type 0 where
  overwrite : Mode
  append : Mode

pub record LogFile : Type 0 where
  pub file_path : Text
  pub mode : Mode
  pub has_truncated : Bool

-- `LogFile.make`: `fault` is what `mkdir` throws, if it does, and `directory` what `dirname` gives.
unfoldable pub make : Text → Text → Mode → Option Cause → Result OperationError LogFile
make directory file_path mode (some cause) =
    err (wrap (codes "logfile") (codes "mkdir " ++ directory) cause)
make directory file_path mode none =
    ok (record { file_path = file_path; mode = mode; has_truncated = false })

-- `/\d+Z$/` behind a point: digits, at least one, and a final Z
unfoldable pub is_fraction : Bool → Text → Bool
is_fraction some_digit [] = false
is_fraction some_digit (c ∷ []) = some_digit && c == b'Z'
is_fraction some_digit (c ∷ d ∷ text) =
    let later = is_fraction true (d ∷ text) in if leb b'0' c && leb c b'9' then later else false

-- `.replace(/\.\d+Z$/, "")`
unfoldable pub drop_fraction : Text → Text
unfolding is_fraction
drop_fraction [] = []
drop_fraction (c ∷ text) =
    let rest = drop_fraction text in if (c == b'.') && is_fraction false text then [] else c ∷ rest

-- the path of `LogFile.timestamped` for an ISO time
unfoldable pub timestamped_path : Text → Text → Text
unfolding drop_fraction
timestamped_path directory iso =
    directory
    ++ codes "/"
    ++ drop_fraction (map (λ c. if c == b':' then b'-' else c) iso)
    ++ codes ".log"

-- `nextWriteFlag`: whether the write truncates, and the handle after it.
unfoldable pub next_write_flag : Mode → LogFile → Bool × LogFile
next_write_flag append file = (false, file)
next_write_flag overwrite file =
    if file.has_truncated then (false, file) else (true, record file { has_truncated = true })

unfoldable pub section_text : Text → Text → Text
section_text heading content = codes "## " ++ heading ++ codes "\n\n" ++ content ++ codes "\n\n"

-- What `writeFile` throws: at the open of the file, or after it, when a part of the text, as it reads
-- back, has been written. An aborted write is one of these failures.
pub data WriteFault : Type 0 where
  opening : Cause → WriteFault
  writing : Cause → Text → WriteFault

-- `writeFile` with flag `w` or `a`: the text of the file after it. Flag `w` truncates at the open.
abbrev pub write_file : Option WriteFault → Bool → Text → Text → Text
write_file (some (opening cause)) truncates new old = old
write_file (some (writing cause part)) true new old = part
write_file (some (writing cause part)) false new old = old ++ part
write_file none true new old = new
write_file none false new old = old ++ new

abbrev write_failed : Text → Cause → Result OperationError (Unit {0})
write_failed path cause = err (wrap (codes "logfile") (codes "write " ++ path) cause)

abbrev write_result : Text → Option WriteFault → Result OperationError (Unit {0})
write_result path (some (opening cause)) = write_failed path cause
write_result path (some (writing cause part)) = write_failed path cause
write_result path none = ok tt

-- `section`, on the handle and the text of the file
unfoldable pub section :
    Text
    → Text
    → Option WriteFault
    → LogFile × Text
    → Result OperationError (Unit {0}) × LogFile × Text
unfolding next_write_flag section_text
section heading content fault (file, text) =
    let next = next_write_flag file.mode file in
    (
      write_result file.file_path fault,
      next.1,
      write_file fault next.0 (section_text heading content) text,
    )

abbrev or_content : Option Text → Text → Text
or_content none content = content
or_content (some summary) content = summary

abbrev logged :
    LogItem
    → Result OperationError (Unit {0}) × LogFile × Text
    → Result OperationError LogItem × LogFile × Text
logged item (ok u, file, text) = (ok item, file, text)
logged item (err e, file, text) = (err e, file, text)

-- `log`: the section, and the item that is logged when it has been written
unfoldable pub log :
    NamedLogger
    → ℕ
    → LogLevel
    → Text
    → Text
    → Option Text
    → Option WriteFault
    → LogFile × Text
    → Result OperationError LogItem × LogFile × Text
unfolding section log_item
log logger now level heading content console_summary fault state =
    logged (log_item logger now level (or_content console_summary content) [])
      (section heading content fault state)
