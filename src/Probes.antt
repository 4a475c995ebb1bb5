-- ===== src/Probes.antt =====
-- probes/index.ts: port probes and `lsof` scans with three answers. A socket's events and what `run`
-- gives at each attempt are arguments, and so is JavaScript's `Number` on a text, cut down to the
-- positive integers that the parsers keep.
pub mod Answers
pub mod Distinct
use mitools.Prelude.{
  ℕ, Bool, true, false, not, ◌&&◌, ◌||◌, Option, none, some, List, [], ◌∷◌, ◌++◌, Text, codes, same,
  starts_with, any, ◌==◌, if◌then◌else◌, Result, ok, err,
}
use mitools.Proc.{RunResult, ProcError}

pub data PortProbe : Type 0 where
  listening free unknown : PortProbe

-- What a socket reports; an error is a refused connection or another one.
pub data SocketEvent : Type 0 where
  timed_out connected refused broken : SocketEvent

abbrev answer : SocketEvent → PortProbe
answer timed_out = unknown
answer connected = listening
answer refused = free
answer broken = unknown

-- `done`: only the first event settles the probe.
abbrev pub done : Option PortProbe → SocketEvent → Option PortProbe
done none event = some (answer event)
done (some result) event = some result

-- The events of one socket in their order; none is a probe that has not resumed.
unfoldable pub probe_port_once : Option PortProbe → List SocketEvent → Option PortProbe
probe_port_once settled [] = settled
probe_port_once settled (event ∷ events) = probe_port_once (done settled event) events

abbrev pub or_second : Option PortProbe → Option PortProbe → Option PortProbe
or_second none second = none
or_second (some unknown) second = second
or_second (some listening) second = some listening
or_second (some free) second = some free

unfoldable pub probe_port : List SocketEvent → List SocketEvent → Option PortProbe
unfolding probe_port_once
probe_port first second = or_second (probe_port_once none first) (probe_port_once none second)

abbrev pub not_free : PortProbe → Bool
not_free free = false
not_free listening = true
not_free unknown = true

abbrev pub in_use : Option PortProbe → Option Bool
in_use none = none
in_use (some p) = some (not_free p)

unfoldable pub port_in_use : List SocketEvent → List SocketEvent → Option Bool
unfolding probe_port
port_in_use first second = in_use (probe_port first second)

pub record ListeningProcess : Type 0 where
  pub pid : ℕ
  pub command : Text
  pub ports : List ℕ

abbrev pub push_char : ℕ → List Text → List Text
push_char c [] = (c ∷ []) ∷ []
push_char c (line ∷ lines) = (c ∷ line) ∷ lines

-- `out.split("\n")`
unfoldable pub lines_of : Text → List Text
lines_of [] = [] ∷ []
lines_of (c ∷ s) = let rest = lines_of s in if c == 10 then [] ∷ rest else push_char c rest

-- `rest.slice(rest.lastIndexOf(":") + 1)`
unfoldable pub after_colon : Text → Text
after_colon [] = []
after_colon (c ∷ s) =
    let rest = after_colon s in
    if any (λ a. a == b':') s then rest else if c == b':' then s else c ∷ s

-- The process of a pid, changed.
unfoldable pub change :
    ℕ → (ListeningProcess → ListeningProcess) → List ListeningProcess → List ListeningProcess
change pid f [] = []
change pid f (p ∷ ps) = if p.pid == pid then f p ∷ ps else p ∷ change pid f ps

-- `byPid.get(pid) ?? {...}` and `byPid.set`
unfoldable pub enter : ℕ → List ListeningProcess → List ListeningProcess
enter pid ps =
    if any (λ p. p.pid == pid) ps
    then ps
    else ps ++ record { pid = pid; command = []; ports = [] } ∷ []

abbrev pub add_port : ℕ → ListeningProcess → ListeningProcess
add_port port p =
    if any (λ q. q == port) p.ports then p else record p { ports = p.ports ++ port ∷ [] }

-- The variables of the loop: the values of the map, and the pid of the current one.
pub record Listing : Type 0 where
  pub by_pid : List ListeningProcess
  pub current : Option ℕ

module _ (number : Text → Option ℕ) where
  abbrev pub start_process : Option ℕ → Listing → Listing
  start_process none l = record l { current = none }
  start_process (some pid) l = record { by_pid = enter pid l.by_pid; current = some pid }

  abbrev pub name_process : Text → Option ℕ → Listing → Listing
  name_process name none l = l
  name_process name (some pid) l = record l {
    by_pid = change pid (λ p. record p { command = name }) l.by_pid;
  }

  abbrev pub listen_on : Option ℕ → Option ℕ → Listing → Listing
  listen_on port none l = l
  listen_on none (some pid) l = l
  listen_on (some port) (some pid) l = record l { by_pid = change pid (add_port port) l.by_pid }

  unfoldable pub listener_line : Text → Listing → Listing
  unfolding enter change after_colon
  listener_line [] l = l
  listener_line (tag ∷ rest) l =
      if tag == b'p'
      then start_process (number rest) l
      else if tag == b'c'
      then name_process rest l.current l
      else if tag == b'n'
      then listen_on (number (after_colon rest)) l.current l
      else l

  unfoldable pub listener_lines : List Text → Listing → Listing
  listener_lines [] l = l
  listener_lines (line ∷ lines) l = listener_lines lines (listener_line line l)

  unfoldable pub parse_listeners : Text → List ListeningProcess
  unfolding listener_lines lines_of
  parse_listeners out =
      (listener_lines (lines_of out) (record { by_pid = []; current = none })).by_pid

  -- `map.set(pid, cwd)`
  unfoldable pub set_cwd : ℕ → Text → List (ℕ × Text) → List (ℕ × Text)
  set_cwd pid cwd [] = (pid, cwd) ∷ []
  set_cwd pid cwd ((p, c) ∷ rest) =
      if p == pid then (p, cwd) ∷ rest else (p, c) ∷ set_cwd pid cwd rest

  abbrev set_current : Option ℕ → Text → List (ℕ × Text) → List (ℕ × Text)
  set_current none cwd cwds = cwds
  set_current (some pid) cwd cwds = set_cwd pid cwd cwds

  unfoldable pub cwd_lines : List Text → Option ℕ → List (ℕ × Text) → List (ℕ × Text)
  unfolding set_cwd
  cwd_lines [] pid cwds = cwds
  cwd_lines ([] ∷ lines) pid cwds = cwd_lines lines pid cwds
  cwd_lines ((tag ∷ rest) ∷ lines) pid cwds =
      if tag == b'p'
      then cwd_lines lines (number rest) cwds
      else if tag == b'n'
      then cwd_lines lines pid (set_current pid rest cwds)
      else cwd_lines lines pid cwds

  unfoldable pub parse_cwd_map : Text → List (ℕ × Text)
  unfolding cwd_lines lines_of
  parse_cwd_map out = cwd_lines (lines_of out) none []

-- `root.endsWith("/") ? root.slice(0, -1) : root`
unfoldable pub trim_slash : Text → Text
trim_slash [] = []
trim_slash (c ∷ []) = if c == b'/' then [] else c ∷ []
trim_slash (c ∷ d ∷ s) = c ∷ trim_slash (d ∷ s)

unfoldable pub is_under_path : Text → Text → Bool
unfolding trim_slash
is_under_path cwd root =
    same cwd (trim_slash root) || starts_with (trim_slash root ++ b'/' ∷ []) cwd

pub record LsofScan : Type 0 where
  pub out : Text
  pub complete : Bool

-- What one attempt gives; none is a failure, a blown budget or an error of the command.
unfoldable pub attempt_scan : Result ProcError RunResult → Option LsofScan
attempt_scan (err e) = none
attempt_scan (ok result) =
    if result.timed_out then none else some (record { out = result.stdout; complete = true })

abbrev or_unknown : Option LsofScan → LsofScan
or_unknown none = record { out = []; complete = false }
or_unknown (some scan) = scan

abbrev or_retry : Option LsofScan → Option LsofScan → Option LsofScan
or_retry none second = second
or_retry (some scan) second = some scan

-- The scan with one retry; it never fails.
unfoldable pub lsof_scan : Result ProcError RunResult → Result ProcError RunResult → LsofScan
unfolding attempt_scan
lsof_scan first second = or_unknown (or_retry (attempt_scan first) (attempt_scan second))

abbrev if_complete : {A : Type 0} → LsofScan → (Text → A) → Option A
if_complete scan parse = if scan.complete then some (parse scan.out) else none

unfoldable pub listening_processes :
    (Text → Option ℕ)
    → Result ProcError RunResult
    → Result ProcError RunResult
    → Option (List ListeningProcess)
unfolding lsof_scan
listening_processes number first second =
    if_complete (lsof_scan first second) (parse_listeners number)

unfoldable pub process_cwds :
    (Text → Option ℕ)
    → List ℕ
    → Result ProcError RunResult
    → Result ProcError RunResult
    → Option (List (ℕ × Text))
unfolding lsof_scan
process_cwds number [] first second = some []
process_cwds number (pid ∷ pids) first second =
    if_complete (lsof_scan first second) (parse_cwd_map number)
