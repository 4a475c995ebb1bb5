-- ===== src/Locks/Acquire/Attempts.antt =====
-- Which attempts take the lock, what they leave at the path, and what a use of the lock leaves.
use mitools.Prelude.{
  ℕ, ◌≡◌, refl, sym, ap, subst, inl, inr, Bool, true, false, Option, none, some, Bool-cases, Result,
  ok, err,
}
use mitools.Locks.{
  default_stale_ms, LockMeta, Errno, eexist, eperm, errno, create_failed, LockError, Host, LockPath,
  Handle, AcquireOptions, CreateFaults, or_default, is_stale, create_lock,
}
use mitools.Locks.Acquire.{
  Attempt, new_meta, make_handle, second_create, first_create, reclaim, contended, acquire_once,
}

module _ (h : Host) where
  -- The handle is not released, and the file at the path is the one it wrote.
  abbrev pub Holds : Handle → LockPath → Type 0
  Holds handle file =
      (handle.released ≡ false)
      × ((t : ℕ) × (file ≡ some (record { raw = h.stringify handle.current; mtime = t })))

  failed_true : (e : Errno) → create_failed h e ≡ ok true → ⊥
  failed_true eexist p = cc
  failed_true eperm p = cc
  failed_true (errno c) p = cc

  create_lock-cases :
      (making opening writing : Option Errno) (meta : LockMeta) (now : ℕ) (file after : LockPath)
      → create_lock h
          (record { making = making; opening = opening; writing = writing })
          meta
          now
          file
        ≡ (ok true, after)
      → Holds (make_handle h meta) after
  unfolding create_lock
  create_lock-cases (some x) opening writing meta now file after e =
      absurd (failed_true x (ap (λ p. p.0) e))
  create_lock-cases none opening writing meta now (some f) after e = cc
  create_lock-cases none (some x) writing meta now none after e =
      absurd (failed_true x (ap (λ p. p.0) e))
  create_lock-cases none none (some x) meta now none after e =
      absurd (failed_true x (ap (λ p. p.0) e))
  create_lock-cases none none none meta now none after e = (refl, (now, sym (ap (λ p. p.1) e)))

  create_lock-true :
      (faults : CreateFaults) (meta : LockMeta) (now : ℕ) (file after : LockPath)
      → create_lock h faults meta now file ≡ (ok true, after)
      → Holds (make_handle h meta) after
  create_lock-true faults = create_lock-cases faults.making faults.opening faults.writing

  -- What a step of an attempt gives: a handle only together with its file.
  abbrev Gives : LockMeta → Result LockError (Option Handle) × LockPath → Type 0
  Gives meta out =
      (handle : Handle)
      → out.0 ≡ ok (some handle)
      → (handle ≡ make_handle h meta) × Holds handle out.1

  second_create-Gives :
      (meta : LockMeta) (made : Result LockError Bool × LockPath)
      → ((after : LockPath) → made ≡ (ok true, after) → Holds (make_handle h meta) after)
      → Gives meta (second_create h meta made)
  second_create-Gives meta (ok true, after) held handle e =
      let q : handle ≡ make_handle h meta = cc e in
      (q, subst (λ x. Holds x after) (sym q) (held after refl))
  second_create-Gives meta (ok false, after) held handle e = cc
  second_create-Gives meta (err x, after) held handle e = cc

  reclaim-Gives :
      (a : Attempt) (meta : LockMeta) (file : LockPath) → Gives meta (reclaim h a meta file)
  unfolding reclaim
  reclaim-Gives a meta file =
      second_create-Gives meta _ (create_lock-true a.second meta a.retried_at _)

  contended-Gives :
      (options : AcquireOptions) (a : Attempt) (meta : LockMeta) (file : LockPath)
      → Gives meta (contended h options a meta file)
  unfolding contended
  contended-Gives options a meta file =
      elim (Bool-cases
        (is_stale h file (or_default options.stale_ms default_stale_ms) a.checked_at)) [
          | inl stale ↦ rw stale (reclaim-Gives a meta (a.before_remove file))
          | inr fresh ↦ rw fresh (λ handle e. cc)
        ]

  first_create-Gives :
      (options : AcquireOptions) (a : Attempt) (meta : LockMeta)
      (made : Result LockError Bool × LockPath)
      → ((after : LockPath) → made ≡ (ok true, after) → Holds (make_handle h meta) after)
      → Gives meta (first_create h options a meta made)
  first_create-Gives options a meta (ok true, after) held handle e =
      let q : handle ≡ make_handle h meta = cc e in
      (q, subst (λ x. Holds x after) (sym q) (held after refl))
  first_create-Gives options a meta (ok false, after) held handle e =
      contended-Gives options a meta (a.before_check after) handle e
  first_create-Gives options a meta (err x, after) held handle e = cc

  -- Whatever fails and whatever other processes do between the steps of an attempt: when it returns
  -- a handle, the handle records this process and this attempt, it is not released, and the file at
  -- the path is the one that it wrote.
  pub acquire_once-Holds :
      (options : AcquireOptions) (a : Attempt) (file : LockPath) (handle : Handle)
      → (acquire_once h options a file).0 ≡ ok (some handle)
      → (handle ≡ make_handle h (new_meta h options a.now))
        × Holds handle (acquire_once h options a file).1
  unfolding acquire_once
  acquire_once-Holds options a file =
      first_create-Gives options a (new_meta h options a.now) _
        (create_lock-true a.first _ a.now file)
