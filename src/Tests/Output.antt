-- ===== src/Tests/Output.antt =====
-- Output of child processes: a drain in uneven chunks, a line with an escape sequence, and a scan.
use mitools.Prelude.{
  ℕ, ◌≡◌, ◌↔◌, ◌⊎◌, refl, true, false, Option, none, some, [], ◌∷◌, Text, codes, All, Lacks, same,
  starts_with, arith, ok,
}
use mitools.Proc.{RunResult, exit, Stream}
use mitools.Proc.Lines.{sanitize_line}
use mitools.Proc.Lines.Clean.{IsPrintable, sanitize_line-IsPrintable}
use mitools.Proc.Drain.{
  Decoder, string, bytes, data_event, end_event, OnLine, Drain, split_lines, drain_lines, started,
}
use mitools.Proc.Drain.Whole.{drain_lines-whole}
use mitools.Probes.{
  trim_slash, parse_listeners, is_under_path, listening_processes, lsof_scan, attempt_scan,
}
use mitools.Probes.{timed_out, connected, refused, probe_port_once, probe_port, port_in_use}
use mitools.Probes.Answers.{
  IsRefused, port_in_use-IsRefused, Finished, listening_processes-Finished, IsBase, IsUnder,
  is_under_path_iff,
}
use mitools.Probes.Distinct.{AreListeners, parse_listeners-AreListeners}

-- A decoder of ASCII bytes.
abbrev ascii : Decoder Unit
ascii = record { fresh = tt; decode = λ st b. (b, st); finish = λ st. [] }

abbrev never_throws : OnLine
never_throws seen line = none

abbrev drained : Drain Unit
drained =
    drain_lines ascii [] Stream.stdout never_throws
      (data_event (string (codes "ab")) ∷ data_event (bytes (99 ∷ 10 ∷ 100 ∷ [])) ∷ end_event ∷ [])
      (started ascii)

drain_lines-whole_example :
    (drained.lines ≡ sanitize_line (codes "abc") ∷ sanitize_line (codes "d") ∷ [])
    × (drained.outcome ≡ some (ok tt))
unfolding split_lines
drain_lines-whole_example =
    drain_lines-whole ascii [] Stream.stdout never_throws (λ seen line. refl) (λ st. tt)
      (string (codes "ab") ∷ bytes (99 ∷ 10 ∷ 100 ∷ []) ∷ [])

abbrev ended : Drain Unit
ended = record (started ascii) { outcome = some (ok tt) }

-- A colour, a carriage return and a tab.
abbrev coloured : Text
coloured = 27 ∷ b'[' ∷ b'3' ∷ b'1' ∷ b'm' ∷ b'a' ∷ 13 ∷ b'b' ∷ 9 ∷ b'c' ∷ []

coloured-Lacks : Lacks 10 coloured
coloured-Lacks = (
  λ e. omega arith,
  (
    λ e. omega arith,
    (
      λ e. omega arith,
      (
        λ e. omega arith,
        (
          λ e. omega arith,
          (
            λ e. omega arith,
            (λ e. omega arith, (λ e. omega arith, (λ e. omega arith, (λ e. omega arith, tt)))),
          ),
        ),
      ),
    ),
  ),
)

sanitize_line-IsPrintable_example : All IsPrintable (sanitize_line coloured)
sanitize_line-IsPrintable_example = sanitize_line-IsPrintable coloured coloured-Lacks

-- a `Number` that knows two texts
abbrev number : Text → Option ℕ
number (b ∷ []) = some b
number s = none

abbrev output : Text
output =
    b'p' ∷ 41 ∷ 10 ∷ b'c' ∷ b'x' ∷ 10 ∷ b'n' ∷ b'*' ∷ b':' ∷ 80 ∷ 10 ∷ b'n' ∷ b':' ∷ 80 ∷ 10 ∷ []

parse_listeners-AreListeners_example : AreListeners (parse_listeners number output)
parse_listeners-AreListeners_example = parse_listeners-AreListeners number output

abbrev finished : RunResult
finished = record { stdout = output; stderr = []; exit_code = exit 1; timed_out = false }

abbrev killed : RunResult
killed = record { stdout = []; stderr = []; exit_code = exit 137; timed_out = true }

scanned :
    listening_processes number (ok killed) (ok finished) ≡ some (parse_listeners number output)
unfolding listening_processes lsof_scan attempt_scan
scanned = refl

listening_processes-Finished_example :
    (result : RunResult) × (Finished (ok killed) result ⊎ Finished (ok finished) result)
    × (parse_listeners number output ≡ parse_listeners number result.stdout)
listening_processes-Finished_example =
    listening_processes-Finished number (ok killed) (ok finished) (parse_listeners number output)
      scanned

is_under_path_iff_example :
    (is_under_path (codes "/wt/foobar") (codes "/wt/foo/") ≡ true)
    ↔ ((base : Text) × IsBase (codes "/wt/foo/") base × IsUnder (codes "/wt/foobar") base)
is_under_path_iff_example = is_under_path_iff (codes "/wt/foobar") (codes "/wt/foo/")

not_under : is_under_path (codes "/wt/foobar") (codes "/wt/foo/") ≡ false
unfolding is_under_path trim_slash same starts_with
not_under = refl

under : is_under_path (codes "/wt/foo/bar") (codes "/wt/foo/") ≡ true
unfolding is_under_path trim_slash same starts_with
under = refl

-- The first socket meets its deadline, and the second one is refused.
refused_second : port_in_use (timed_out ∷ connected ∷ []) (refused ∷ []) ≡ some false
unfolding port_in_use probe_port probe_port_once
refused_second = refl

port_in_use-IsRefused_example : IsRefused (timed_out ∷ connected ∷ []) ⊎ IsRefused (refused ∷ [])
port_in_use-IsRefused_example =
    port_in_use-IsRefused (timed_out ∷ connected ∷ []) (refused ∷ []) refused_second
