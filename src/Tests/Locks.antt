-- ===== src/Tests/Locks.antt =====
-- One lock: a free path, the lock of a live process, and a lock file that is too old.
use mitools.Prelude.{
  ℕ, ◌≡◌, ◌↔◌, ◌⊎◌, refl, Bool, true, false, Option, none, some, [], codes, same, is_blank, Result,
  ok,
}
use mitools.Prelude.Decimal.{decimal}
use mitools.Locks.{
  default_stale_ms, LockMeta, Errno, LockError, Host, File, LockPath, Handle, AcquireOptions,
  parse_meta, read_lock_meta, is_stale, is_older, pid_is_alive, remove_lock, create_lock,
}
use mitools.Locks.Release.{no_write_faults, phase, release, release-phase, IsOwn, release_iff, owns}
use mitools.Locks.Acquire.{
  quiet, last, next, new_meta, make_handle, acquire_once, wait_for_lock, with_lock, release_if,
  lock_status, contended, reclaim,
}
use mitools.Locks.Acquire.Attempts.{Holds, acquire_once-Holds}
use mitools.Locks.Acquire.Uses.{
  wait_for_lock-Holds, acquire_once-lock_status, acquire_once-takes, with_lock-left_by,
}
use mitools.Tests.Machine.{machine, machine-IsHost}

abbrev options : AcquireOptions
options = record { op = codes "update"; phase = none; stale_ms = none }

abbrev own_meta : LockMeta
own_meta = record {
  op = codes "update";
  phase = [];
  pid = 41;
  host = codes "alpha";
  started_at = codes "1000";
  phase_started = codes "1000";
}

abbrev other_meta : LockMeta
other_meta = record own_meta { pid = 42; started_at = codes "900" }

abbrev own_handle : Handle
own_handle = record { current = own_meta; released = false }

-- the file of another process, written at the time 900
abbrev other_file : File
other_file = record { raw = machine.stringify other_meta; mtime = 900 }

release-phase_example :
    let after = phase machine no_write_faults (codes "push") 1200 own_handle (some other_file) in
    (release machine none after.1 after.0.1).0 ≡ none
release-phase_example =
    release-phase machine machine-IsHost (codes "push") 1200 own_handle (some other_file) refl

-- the file of a process with the same pid that started at another time
abbrev reused_file : File
reused_file = record {
  raw = machine.stringify (record own_meta { started_at = codes "900" });
  mtime = 900;
}

release_iff_example :
    let left = (release machine none own_handle (some reused_file)).0 in
    ((left ≡ none) ↔ (
      (◌≡◌ {A = Option Errno} none none)
      × (◌≡◌ {A = Bool} false false)
      × IsOwn machine own_meta reused_file))
    × ((left ≡ none) ⊎ (left ≡ some reused_file))
release_iff_example = release_iff machine none own_handle reused_file

reused_kept : (release machine none own_handle (some reused_file)).0 ≡ some reused_file
unfolding release parse_meta owns is_blank same
reused_kept = refl

taken_free : (acquire_once machine options (quiet 1000) none).0 ≡ ok (some own_handle)
unfolding acquire_once create_lock new_meta decimal
taken_free = refl

acquire_once-Holds_example :
    (own_handle ≡ make_handle machine (new_meta machine options 1000))
    × Holds machine own_handle (acquire_once machine options (quiet 1000) none).1
acquire_once-Holds_example =
    acquire_once-Holds machine options (quiet 1000) none own_handle taken_free

-- The first attempt meets a live lock, the second one meets it too old.
waited :
    (wait_for_lock machine options (next (quiet 900) (last (quiet 901_000))) (some other_file)).0
    ≡ ok (make_handle machine (new_meta machine options 901_000))
unfolding wait_for_lock acquire_once create_lock contended reclaim remove_lock is_stale
    read_lock_meta parse_meta is_blank same pid_is_alive is_older new_meta decimal
waited = refl

wait_for_lock-Holds_example :
    Holds machine
      (make_handle machine (new_meta machine options 901_000))
      (wait_for_lock machine options (next (quiet 900) (last (quiet 901_000))) (some other_file)).1
wait_for_lock-Holds_example =
    wait_for_lock-Holds machine options (next (quiet 900) (last (quiet 901_000))) (some other_file)
      (make_handle machine (new_meta machine options 901_000)) waited

acquire_once-lock_status_example :
    acquire_once machine options (quiet 1000) (some other_file) ≡ (ok none, some other_file)
unfolding lock_status is_stale read_lock_meta parse_meta is_blank same pid_is_alive is_older
acquire_once-lock_status_example = acquire_once-lock_status machine options 1000 (some other_file)

other_is_stale : is_stale machine (some other_file) default_stale_ms 901_000 ≡ true
unfolding is_stale read_lock_meta parse_meta is_blank same pid_is_alive is_older
other_is_stale = refl

abbrev other_machine : Host
other_machine = record machine { pid = 43 }

-- Between the check and the removal another process has taken the stale lock over, and lives.
acquire_once-takes_example :
    acquire_once machine options
      (record (quiet 901_000) {
        before_remove = λ file. (acquire_once other_machine options (quiet 901_000) file).1;
      })
      (some other_file)
    ≡ (
      ok (some (make_handle machine (new_meta machine options 901_000))),
      some (record { raw = machine.stringify (new_meta machine options 901_000); mtime = 901_000 }),
    )
acquire_once-takes_example =
    acquire_once-takes machine options other_file 901_000 901_000 901_000
      (λ file. (acquire_once other_machine options (quiet 901_000) file).1) other_is_stale

waited_free : (wait_for_lock machine options (last (quiet 1000)) none).0 ≡ ok own_handle
unfolding wait_for_lock acquire_once create_lock new_meta decimal
waited_free = refl

abbrev effect : LockPath → Result LockError ℕ × LockPath
effect file = (ok 3, file)

with_lock-left_by_example :
    with_lock machine (λ e. e) options (last (quiet 1000)) none effect none ≡ (ok 3, none)
with_lock-left_by_example =
    with_lock-left_by machine machine-IsHost (λ e. e) options (last (quiet 1000)) none effect none
      own_handle waited_free refl

-- A release that may not delete the file.
file_left :
    with_lock machine (λ e. e) options (last (quiet 1000)) (some Errno.eperm) effect none
    ≡ (ok 3, some (record { raw = machine.stringify own_meta; mtime = 1000 }))
unfolding with_lock wait_for_lock acquire_once create_lock new_meta decimal release_if release
    parse_meta owns is_blank same
file_left = refl
