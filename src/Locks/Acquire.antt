-- ===== src/Locks/Acquire.antt =====
-- locks/index.ts: one attempt to take the lock, the wait for it, and its status. An attempt carries
-- what it meets: the times it reads, the failures of the file system, and what other processes do
-- to the path between its steps.
pub mod Attempts
pub mod Uses
use mitools.Prelude.{
  ℕ, ◌≡◌, refl, Bool, true, false, Option, none, some, List, [], ◌∷◌, Text, if◌then◌else◌, Result,
  ok, err, ◌>>=◌,
}
use mitools.Locks.{
  default_stale_ms, LockMeta, PartialMeta, LockOperation, Errno, LockError, Host, File, LockPath,
  Handle, AcquireOptions, CreateFaults, no_faults, or_default, read_lock_meta, is_stale,
  remove_lock, create_lock,
}
use mitools.Locks.Release.{release}

pub record Attempt : Type 0 where
  pub now : ℕ
  pub checked_at : ℕ
  pub retried_at : ℕ
  pub first : CreateFaults
  pub unlinking : Option Errno
  pub second : CreateFaults
  pub before_check : LockPath → LockPath
  pub before_remove : LockPath → LockPath
  pub before_create : LockPath → LockPath

-- An attempt with no failure, in which no other process acts.
abbrev pub quiet : ℕ → Attempt
quiet now = record {
  now = now;
  checked_at = now;
  retried_at = now;
  first = no_faults;
  unlinking = none;
  second = no_faults;
  before_check = λ file. file;
  before_remove = λ file. file;
  before_create = λ file. file;
}

-- `Effect.retry` and the schedule of `lockContention`: the first attempt, and one more for each time
-- that the schedule recurs.
pub data Schedule : Type 0 where
  last : Attempt → Schedule
  next : Attempt → Schedule → Schedule

module _ (h : Host) where
  unfoldable pub new_meta : AcquireOptions → ℕ → LockMeta
  new_meta options now = record {
    op = options.op;
    phase = or_default options.phase [];
    pid = h.pid;
    host = h.hostname;
    started_at = h.iso now;
    phase_started = h.iso now;
  }

  abbrev pub make_handle : LockMeta → Handle
  make_handle meta = record { current = meta; released = false }

  -- the handle when the file was created
  abbrev pub handle_if : LockMeta → Bool → Option Handle
  handle_if meta true = some (make_handle meta)
  handle_if meta false = none

  abbrev pub second_create :
      LockMeta → Result LockError Bool × LockPath → Result LockError (Option Handle) × LockPath
  second_create meta (ok made, file) = (ok (handle_if meta made), file)
  second_create meta (err e, file) = (err e, file)

  -- the reclaim of a stale lock: the removal, and one more creation
  unfoldable pub reclaim :
      Attempt → LockMeta → LockPath → Result LockError (Option Handle) × LockPath
  reclaim a meta file =
      second_create meta (
        create_lock h a.second meta a.retried_at (a.before_create (remove_lock h a.unlinking file)))

  unfoldable pub contended :
      AcquireOptions → Attempt → LockMeta → LockPath → Result LockError (Option Handle) × LockPath
  unfolding reclaim
  contended options a meta file =
      if is_stale h file (or_default options.stale_ms default_stale_ms) a.checked_at
      then reclaim a meta (a.before_remove file)
      else (ok none, file)

  abbrev pub first_create :
      AcquireOptions
      → Attempt
      → LockMeta
      → Result LockError Bool × LockPath
      → Result LockError (Option Handle) × LockPath
  first_create options a meta (ok true, file) = (ok (some (make_handle meta)), file)
  first_create options a meta (ok false, file) = contended options a meta (a.before_check file)
  first_create options a meta (err e, file) = (err e, file)

  unfoldable pub acquire_once :
      AcquireOptions → Attempt → LockPath → Result LockError (Option Handle) × LockPath
  unfolding new_meta contended
  acquire_once options a file =
      let meta = new_meta options a.now in
      first_create options a meta (create_lock h a.first meta a.now file)

  abbrev wait_error : LockError
  wait_error = record { operation = LockOperation.wait; cause = none }

  abbrev pub last_outcome :
      Result LockError (Option Handle) × LockPath → Result LockError Handle × LockPath
  last_outcome (ok (some handle), file) = (ok handle, file)
  last_outcome (ok none, file) = (err wait_error, file)
  last_outcome (err e, file) = (err e, file)

  -- only an error of the operation `wait` is retried
  abbrev pub retry_on :
      (LockPath → Result LockError Handle × LockPath)
      → LockError
      → LockOperation
      → LockPath
      → Result LockError Handle × LockPath
  retry_on again e LockOperation.acquire file = (err e, file)
  retry_on again e LockOperation.wait file = again file
  retry_on again e LockOperation.release file = (err e, file)

  abbrev pub or_retry :
      (LockPath → Result LockError Handle × LockPath)
      → Result LockError (Option Handle) × LockPath
      → Result LockError Handle × LockPath
  or_retry again (ok (some handle), file) = (ok handle, file)
  or_retry again (ok none, file) = again file
  or_retry again (err e, file) = retry_on again e e.operation file

  unfoldable pub wait_for_lock :
      AcquireOptions → Schedule → LockPath → Result LockError Handle × LockPath
  wait_for_lock options (last a) file = last_outcome (acquire_once options a file)
  wait_for_lock options (next a rest) file =
      or_retry (wait_for_lock options rest) (acquire_once options a file)

  -- The handle that a scope closes over: its release, when there is one.
  unfoldable pub release_if : Option Errno → Option Handle → LockPath → LockPath
  release_if fault none file = file
  release_if fault (some handle) file = (release h fault handle file).0

  abbrev used :
      {E A : Type 0} → Option Errno → Handle → Result E A × LockPath → Result E A × LockPath
  used fault handle (r, file) = (r, release_if fault (some handle) file)

  abbrev pub use_lock :
      {E A : Type 0}
      → (LockError → E)
      → Option Errno
      → (LockPath → Result E A × LockPath)
      → Result LockError Handle × LockPath
      → Result E A × LockPath
  use_lock inject fault effect (err e, file) = (err (inject e), file)
  use_lock inject fault effect (ok handle, file) = used fault handle (effect file)

  -- The effect takes the path as the acquire left it and leaves it changed; an interruption is one of
  -- its failures.
  unfoldable pub with_lock :
      {E A : Type 0}
      → (LockError → E)
      → AcquireOptions
      → Schedule
      → Option Errno
      → (LockPath → Result E A × LockPath)
      → LockPath
      → Result E A × LockPath
  unfolding wait_for_lock release_if
  with_lock inject options schedule fault effect file =
      use_lock inject fault effect (wait_for_lock options schedule file)

  abbrev closed :
      {E A : Type 0}
      → Option Errno
      → (Result E A × LockPath) × Option Handle
      → Result E A × LockPath
  closed fault ((r, file), handle) = (r, release_if fault handle file)

  abbrev use_handle :
      {E A : Type 0}
      → (LockError → E)
      → Option Errno
      → (Option Handle → LockPath → (Result E A × LockPath) × Option Handle)
      → Result LockError (Option Handle) × LockPath
      → Result E A × LockPath
  use_handle inject fault body (err e, file) = (err (inject e), file)
  use_handle inject fault body (ok handle, file) = closed fault (body handle file)

  -- A scope that starts with `tryAcquireLock`: its body has the handle, if there is one, and gives it
  -- back as its phases and releases leave it; the end of the scope releases it.
  unfoldable pub try_acquire_lock :
      {E A : Type 0}
      → (LockError → E)
      → AcquireOptions
      → Attempt
      → Option Errno
      → (Option Handle → LockPath → (Result E A × LockPath) × Option Handle)
      → LockPath
      → Result E A × LockPath
  unfolding acquire_once release_if
  try_acquire_lock inject options a fault body file =
      use_handle inject fault body (acquire_once options a file)

  abbrev pub found :
      Result LockError Handle × LockPath → Result LockError (Option Handle) × LockPath
  found (ok handle, file) = (ok (some handle), file)
  found (err e, file) = (err e, file)

  -- A scope that starts with `acquireLock`.
  unfoldable pub acquire_lock :
      {E A : Type 0}
      → (LockError → E)
      → AcquireOptions
      → Schedule
      → Option Errno
      → (Option Handle → LockPath → (Result E A × LockPath) × Option Handle)
      → LockPath
      → Result E A × LockPath
  unfolding wait_for_lock release_if
  acquire_lock inject options schedule fault body file =
      use_handle inject fault body (found (wait_for_lock options schedule file))

  unfoldable pub lock_status : Option ℕ → ℕ → LockPath → Option PartialMeta
  lock_status stale_ms now none = none
  lock_status stale_ms now (some f) =
      if is_stale h (some f) (or_default stale_ms default_stale_ms) now
      then none
      else some (read_lock_meta h (some f))
