-- ===== src/Locks/Acquire/Uses.antt =====
-- What a wait, a status and a use of the lock give, and what a reclaim of a stale lock can meet.
use mitools.Prelude.{
  ℕ, ◌≡◌, refl, sym, ap, subst, inl, inr, true, Option, none, some, Bool-cases, Result, ok, err,
}
use mitools.Locks.{
  default_stale_ms, LockOperation, Errno, LockError, Host, IsHost, File, LockPath, Handle,
  AcquireOptions, no_faults, or_default, is_stale, create_lock, remove_lock,
}
use mitools.Locks.Release.{release, parse_meta-stringify, owns_own}
use mitools.Locks.Acquire.{
  Attempt, quiet, Schedule, last, next, new_meta, make_handle, reclaim, contended, acquire_once,
  retry_on, or_retry, last_outcome, use_lock, wait_for_lock, release_if, with_lock, lock_status,
}
use mitools.Locks.Acquire.Attempts.{Holds, acquire_once-Holds}

module _ (h : Host) where
  last_outcome-Holds :
      (out : Result LockError (Option Handle) × LockPath)
      → ((handle : Handle) → out.0 ≡ ok (some handle) → Holds h handle out.1)
      → (handle : Handle) → (last_outcome h out).0 ≡ ok handle
      → Holds h handle (last_outcome h out).1
  last_outcome-Holds (ok (some x), file) held handle e = held handle (cc e)
  last_outcome-Holds (ok none, file) held handle e = cc
  last_outcome-Holds (err x, file) held handle e = cc

  retry_on-Holds :
      (again : LockPath → Result LockError Handle × LockPath) (e : LockError)
      (operation : LockOperation) (file : LockPath)
      → ((handle : Handle) → (again file).0 ≡ ok handle → Holds h handle (again file).1)
      → (handle : Handle) → (retry_on h again e operation file).0 ≡ ok handle
      → Holds h handle (retry_on h again e operation file).1
  retry_on-Holds again x LockOperation.acquire file rest handle e = cc
  retry_on-Holds again x LockOperation.wait file rest handle e = rest handle e
  retry_on-Holds again x LockOperation.release file rest handle e = cc

  or_retry-Holds :
      (again : LockPath → Result LockError Handle × LockPath)
      → ((file : LockPath) (handle : Handle)
          → (again file).0 ≡ ok handle
          → Holds h handle (again file).1)
      → (out : Result LockError (Option Handle) × LockPath)
      → ((handle : Handle) → out.0 ≡ ok (some handle) → Holds h handle out.1)
      → (handle : Handle) → (or_retry h again out).0 ≡ ok handle
      → Holds h handle (or_retry h again out).1
  or_retry-Holds again rest (ok (some x), file) held handle e = held handle (cc e)
  or_retry-Holds again rest (ok none, file) held handle e = rest file handle e
  or_retry-Holds again rest (err x, file) held handle e =
      retry_on-Holds again x x.operation file (rest file) handle e

  -- However often the schedule recurs, whatever fails and whatever other processes do between the
  -- steps: when a wait returns a handle, the handle is not released and the file at the path is the
  -- one that it wrote.
  pub wait_for_lock-Holds :
      (options : AcquireOptions) (schedule : Schedule) (file : LockPath) (handle : Handle)
      → (wait_for_lock h options schedule file).0 ≡ ok handle
      → Holds h handle (wait_for_lock h options schedule file).1
  unfolding wait_for_lock
  wait_for_lock-Holds options (last a) file =
      last_outcome-Holds _ (λ handle e. (acquire_once-Holds h options a file handle e).1)
  wait_for_lock-Holds options (next a rest) file =
      or_retry-Holds _ (wait_for_lock-Holds options rest) _
        (λ handle e. (acquire_once-Holds h options a file handle e).1)

  -- An attempt at the time of a status, in which nothing fails and no other process acts: when the
  -- status shows a holder, the attempt takes nothing and leaves the file, and when it shows none,
  -- the attempt takes the lock and the file is its own.
  pub acquire_once-lock_status :
      (options : AcquireOptions) (now : ℕ) (file : LockPath)
      → let meta = new_meta h options now in
        acquire_once h options (quiet now) file ≡ elim (lock_status h options.stale_ms now file) [
          | none ↦ (
            ok (some (make_handle h meta)),
            some (record { raw = h.stringify meta; mtime = now }),
          )
          | some held ↦ (ok none, file)
        ]
  unfolding acquire_once contended reclaim create_lock lock_status remove_lock
  acquire_once-lock_status options now none = refl
  acquire_once-lock_status options now (some f) =
      elim (Bool-cases (is_stale h (some f) (or_default options.stale_ms default_stale_ms) now)) [
        | inl stale ↦ rw stale
        | inr fresh ↦ rw fresh
      ]

  -- When the file is stale at the check of an attempt and nothing fails, the attempt takes the lock,
  -- whatever another process has put at the path between the check and the removal, also a lock that
  -- it has just acquired itself.
  pub acquire_once-takes :
      (options : AcquireOptions) (f : File) (now checked_at retried_at : ℕ)
      (others : LockPath → LockPath)
      → is_stale h (some f) (or_default options.stale_ms default_stale_ms) checked_at ≡ true
      → let meta = new_meta h options now in
        let a : Attempt = record {
          now = now;
          checked_at = checked_at;
          retried_at = retried_at;
          first = no_faults;
          unlinking = none;
          second = no_faults;
          before_check = λ file. file;
          before_remove = others;
          before_create = λ file. file;
        } in
        acquire_once h options a (some f) ≡ (
          ok (some (make_handle h meta)),
          some (record { raw = h.stringify meta; mtime = retried_at }),
        )
  unfolding acquire_once contended reclaim create_lock remove_lock
  acquire_once-takes options f now checked_at retried_at others stale = rw stale

-- What a release of the holder of a file leaves: nothing, or the file when the release fails.
abbrev pub left_by : Option Errno → LockPath → LockPath
left_by none file = none
left_by (some e) file = file

module _ (h : Host) (laws : IsHost h) where
  release-Holds :
      (fault : Option Errno) (handle : Handle) (file : LockPath)
      → Holds h handle file
      → (release h fault handle file).0 ≡ left_by fault file
  unfolding release
  release-Holds none handle file (live, (t, e)) =
      rw (e, live, parse_meta-stringify h laws handle.current, owns_own h laws handle.current)
  release-Holds (some x) handle file (live, (t, e)) =
      rw (e, live, parse_meta-stringify h laws handle.current, owns_own h laws handle.current)

  use_lock-left_by :
      {E A : Type 0} (inject : LockError → E) (fault : Option Errno)
      (effect : LockPath → Result E A × LockPath) (taken : Result LockError Handle × LockPath)
      (handle : Handle)
      → taken.0 ≡ ok handle
      → Holds h handle taken.1
      → (effect taken.1).1 ≡ taken.1
      → use_lock h inject fault effect taken ≡ ((effect taken.1).0, left_by fault taken.1)
  unfolding release_if
  use_lock-left_by inject fault effect (ok x, file) handle e held keeps =
      let q : handle ≡ x = cc e in
      ap (λ p. ((effect file).0, p))
        (subst (λ p. (release h fault x p).0 ≡ left_by fault file) (sym keeps)
          (release-Holds fault x file (subst (λ y. Holds h y file) q held)))
  use_lock-left_by inject fault effect (err x, file) handle e held keeps = cc

  -- With JSON that reads back what it writes: when the wait returns a handle, and the effect leaves
  -- the path as it finds it, the use of the lock has the outcome of the effect, a success or a
  -- failure, whether the release can delete the file or not. It leaves the path free when the
  -- release meets no failure of the file system, and the holder's file there when it meets one.
  pub with_lock-left_by :
      {E A : Type 0} (inject : LockError → E) (options : AcquireOptions) (schedule : Schedule)
      (fault : Option Errno) (effect : LockPath → Result E A × LockPath) (file : LockPath)
      (handle : Handle)
      → let taken = wait_for_lock h options schedule file in
        taken.0 ≡ ok handle
        → (effect taken.1).1 ≡ taken.1
        → with_lock h inject options schedule fault effect file
          ≡ ((effect taken.1).0, left_by fault taken.1)
  unfolding with_lock
  with_lock-left_by inject options schedule fault effect file handle e keeps =
      use_lock-left_by inject fault effect (wait_for_lock h options schedule file) handle e
        (wait_for_lock-Holds h options schedule file handle e) keeps
