-- ===== src/Proc.antt =====
-- proc/index.ts: what a captured command gives its caller, the errors, and the lines of its output.
-- Spawning, signals and the clock are not in it: the result of a run is an argument.
pub mod Lines
pub mod Drain
pub mod Watch
pub mod Run
use mitools.Prelude.{
  ℕ, zero, suc, ◌+◌, Bool, true, false, Option, none, some, List, [], ◌∷◌, ◌++◌, Text, codes,
  is_space, is_blank, ◌==◌, if◌then◌else◌, Result, ok, err, ◌>>=◌,
}
use mitools.Prelude.Decimal.{decimal}
use mitools.Errors.{Cause, cause_message, or_text}

-- An exit code; -1 stands for an exit that has none.
pub data ExitCode : Type 0 where
  minus_one : ExitCode
  exit : ℕ → ExitCode

pub record RunResult : Type 0 where
  pub stdout : Text
  pub stderr : Text
  pub exit_code : ExitCode
  pub timed_out : Bool

pub data Stream : Type 0 where
  stdout stderr stdin : Stream

pub data ProcError : Type 0 where
  spawn_failed : List Text → Cause → ProcError
  read_failed : List Text → Stream → Cause → ProcError
  non_zero : List Text → RunResult → ProcError
  timeout : List Text → ℕ → RunResult → ProcError
  interrupted : List Text → ProcError

-- `argv.join(" ")`
unfoldable pub join_space : List Text → Text
join_space [] = []
join_space (a ∷ []) = a
join_space (a ∷ b ∷ rest) = a ++ (32 ∷ join_space (b ∷ rest))

-- `s.trimEnd()`
unfoldable pub trim_end : Text → Text
unfolding is_blank
trim_end [] = []
trim_end (c ∷ s) = if is_blank (c ∷ s) then [] else c ∷ trim_end s

-- `s.trim()`
unfoldable pub trim : Text → Text
unfolding trim_end is_space
trim [] = []
trim (c ∷ s) = let rest = trim s in if is_space c then rest else trim_end (c ∷ s)

abbrev stream_name : Stream → Text
stream_name stdout = codes "stdout"
stream_name stderr = codes "stderr"
stream_name stdin = codes "stdin"

abbrev print_exit : ExitCode → Text
print_exit minus_one = codes "-1"
print_exit (exit n) = decimal n

unfoldable pub proc_message : ProcError → Text
unfolding join_space trim
proc_message (spawn_failed argv cause) = join_space argv ++ (codes ": " ++ cause_message cause)
proc_message (read_failed argv stream cause) =
    join_space argv ++ (codes " (" ++ (stream_name stream ++ (codes "): " ++ cause_message cause)))
proc_message (non_zero argv result) =
    join_space argv
    ++ (codes ": "
        ++ or_text (trim result.stderr)
            (or_text (trim result.stdout) (codes "exit " ++ print_exit result.exit_code)))
proc_message (timeout argv ms result) =
    join_space argv ++ (codes ": timed out after " ++ (decimal ms ++ codes "ms"))
proc_message (interrupted argv) = join_space argv ++ codes ": aborted"

-- A code, else the shell's number for a signal, where the platform has a number for it.
unfoldable pub exit_code_of : (Text → Option ℕ) → Option ℕ → Option Text → ExitCode
exit_code_of signals (some code) signal = exit code
exit_code_of signals none none = minus_one
exit_code_of signals none (some signal) = elim (signals signal) [
  | none ↦ minus_one
  | some n ↦ exit (128 + n)
]

abbrev is_zero : ExitCode → Bool
is_zero minus_one = false
is_zero (exit n) = n == 0

-- `runOk` of what `run` gave.
unfoldable pub run_ok : List Text → Option ℕ → Result ProcError RunResult → Result ProcError Text
unfolding trim_end
run_ok argv timeout_ms (err e) = err e
run_ok argv timeout_ms (ok result) =
    if result.timed_out
    then err (timeout argv (elim timeout_ms [ none ↦ 0 | some ms ↦ ms ]) result)
    else if is_zero result.exit_code
    then ok (trim_end result.stdout)
    else err (non_zero argv result)

-- `runQuiet` of what `run` gave.
unfoldable pub run_quiet : Result ProcError RunResult → Result ProcError Bool
run_quiet (err e) = err e
run_quiet (ok result) = ok (is_zero result.exit_code)
