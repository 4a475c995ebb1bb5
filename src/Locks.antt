-- ===== src/Locks.antt =====
-- locks/index.ts: a cross-process lock as one file. The file at the lock's path is the state; an
-- operation takes the file, or none, and returns what it leaves. The file system's failures, the
-- clock and the host are parameters.
pub mod Display
pub mod Release
pub mod Acquire
use mitools.Prelude.{
  ℕ, zero, suc, ◌+◌, ◌-◌, ◌*◌, ◌<◌, ◌≡◌, Bool, true, false, not, ◌&&◌, ◌||◌, Option, none, some,
  List, [], ◌∷◌, Text, codes, same, is_blank, ltb, leb, ◌==◌, if◌then◌else◌, Result, ok, err,
}
use mitools.Errors.{Cause}

abbrev pub default_stale_ms : ℕ
default_stale_ms = 15 * 60_000

abbrev pub unreadable_stale_ms : ℕ
unreadable_stale_ms = 60_000

pub record LockMeta : Type 0 where
  pub op : Text
  pub phase : Text
  pub pid : ℕ
  pub host : Text
  pub started_at : Text
  pub phase_started : Text

-- `Partial<LockMeta>`; a pid that is no number is none, and 0 stands for every pid that is not
-- positive and finite.
pub record PartialMeta : Type 0 where
  pub op : Option Text
  pub phase : Option Text
  pub pid : Option ℕ
  pub host : Option Text
  pub started_at : Option Text
  pub phase_started : Option Text

abbrev pub no_meta : PartialMeta
no_meta = record {
  op = none;
  phase = none;
  pid = none;
  host = none;
  started_at = none;
  phase_started = none;
}

abbrev pub partial : LockMeta → PartialMeta
partial m = record {
  op = some m.op;
  phase = some m.phase;
  pid = some m.pid;
  host = some m.host;
  started_at = some m.started_at;
  phase_started = some m.phase_started;
}

pub data LockOperation : Type 0 where
  acquire wait release : LockOperation

-- An errno, as `isErrno` tells them apart.
pub data Errno : Type 0 where
  eexist : Errno
  eperm : Errno
  errno : Cause → Errno

pub record LockError : Type 0 where
  pub operation : LockOperation
  pub cause : Option Errno

-- What `JSON.parse` does: it throws, or returns an object or something else.
pub data Json : Type 0 where
  throws : Json
  no_object : Json
  object : PartialMeta → Json

-- `process.kill(pid, 0)`
pub data Kill : Type 0 where
  delivered : Kill
  refused : Errno → Kill

-- The process and its machine.
pub record Host : Type 0 where
  pub pid : ℕ
  pub hostname : Text
  pub kill : ℕ → Kill
  pub iso : ℕ → Text
  pub stringify : LockMeta → Text
  pub parse_json : Text → Json

-- JSON reads back what it wrote.
pub record IsHost (h : Host) : Type 0 where
  pub parse_stringify : (m : LockMeta) → h.parse_json (h.stringify m) ≡ object (partial m)
  pub stringify_blank : (m : LockMeta) → is_blank (h.stringify m) ≡ false

pub record File : Type 0 where
  pub raw : Text
  pub mtime : ℕ

-- The file at the path of the lock.
abbrev pub LockPath : Type 0
LockPath = Option File

pub record Handle : Type 0 where
  pub current : LockMeta
  pub released : Bool

pub record AcquireOptions : Type 0 where
  pub op : Text
  pub phase : Option Text
  pub stale_ms : Option ℕ

-- What mkdir, open and write of one creation throw, if they do.
pub record CreateFaults : Type 0 where
  pub making : Option Errno
  pub opening : Option Errno
  pub writing : Option Errno

abbrev pub no_faults : CreateFaults
no_faults = record { making = none; opening = none; writing = none }

abbrev pub or_default : {A : Type 0} → Option A → A → A
or_default none a = a
or_default (some b) a = b

module _ (h : Host) where
  -- `none` is a throw.
  unfoldable pub parse_meta : Text → Option PartialMeta
  parse_meta raw =
      if is_blank raw
      then some no_meta
      else elim (h.parse_json raw) [ throws ↦ none | no_object ↦ some no_meta | object m ↦ some m ]

  unfoldable pub read_lock_meta : LockPath → PartialMeta
  unfolding parse_meta
  read_lock_meta none = no_meta
  read_lock_meta (some f) = or_default (parse_meta f.raw) no_meta

  unfoldable pub pid_is_alive : ℕ → Bool
  pid_is_alive pid =
      if pid == 0
      then false
      else elim (h.kill pid) [ delivered ↦ true | refused e ↦ elim e [ eperm ↦ true | _ ↦ false ] ]

  -- the age of the file is over the limit; a file that cannot be read has no age
  unfoldable pub is_older : LockPath → ℕ → ℕ → Bool
  is_older none limit now = false
  is_older (some f) limit now = ltb (f.mtime + limit) now

  abbrev same_host : PartialMeta → Bool
  same_host meta = elim meta.host [ none ↦ true | some name ↦ same name h.hostname ]

  abbrev stale_by : PartialMeta → Option ℕ → LockPath → ℕ → ℕ → Bool
  stale_by meta none file stale_ms now = is_older file unreadable_stale_ms now
  stale_by meta (some pid) file stale_ms now =
      if same_host meta && not (pid_is_alive pid) then true else is_older file stale_ms now

  unfoldable pub is_stale : LockPath → ℕ → ℕ → Bool
  unfolding read_lock_meta pid_is_alive is_older
  is_stale file stale_ms now =
      let meta = read_lock_meta file in stale_by meta meta.pid file stale_ms now

  -- `unlinkSync`, its failure ignored.
  unfoldable pub remove_lock : Option Errno → LockPath → LockPath
  remove_lock none file = none
  remove_lock (some e) file = file

  abbrev pub create_failed : Errno → Result LockError Bool
  create_failed eexist = ok false
  create_failed e = err (record { operation = acquire; cause = some e })

  abbrev write_new : Option Errno → LockMeta → ℕ → Result LockError Bool × LockPath
  write_new none meta now = (ok true, some (record { raw = h.stringify meta; mtime = now }))
  write_new (some e) meta now = (create_failed e, some (record { raw = []; mtime = now }))

  abbrev open_new :
      Option Errno → Option Errno → LockMeta → ℕ → LockPath → Result LockError Bool × LockPath
  open_new opening writing meta now (some f) = (create_failed eexist, some f)
  open_new (some e) writing meta now none = (create_failed e, none)
  open_new none writing meta now none = write_new writing meta now

  abbrev make_dir :
      Option Errno → CreateFaults → LockMeta → ℕ → LockPath → Result LockError Bool × LockPath
  make_dir (some e) faults meta now file = (create_failed e, file)
  make_dir none faults meta now file = open_new faults.opening faults.writing meta now file

  unfoldable pub create_lock :
      CreateFaults → LockMeta → ℕ → LockPath → Result LockError Bool × LockPath
  create_lock faults meta now file = make_dir faults.making faults meta now file
