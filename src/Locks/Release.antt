-- ===== src/Locks/Release.antt =====
-- locks/index.ts: `makeHandle`, the phase and the release of an acquired lock.
use mitools.Prelude.{
  ℕ, ◌≡◌, ◌↔◌, ◌⊎◌, refl, sym, ap, inl, inr, is_blank, same_sound, Bool, true, false, ◌&&◌, Option,
  none, some, [], Text, same, same_refl, ◌==◌, if◌then◌else◌, arith, Bool-cases, Result, ok, err,
}
use mitools.Locks.{
  LockMeta, PartialMeta, no_meta, partial, LockOperation, Errno, LockError, Host, IsHost, File,
  LockPath, Handle, parse_meta, Json, throws, no_object, object,
}

-- What a `writeFileSync` of the path throws, if it does: before it empties the file, or after.
pub record WriteFaults : Type 0 where
  pub opening : Option Errno
  pub writing : Option Errno

abbrev pub no_write_faults : WriteFaults
no_write_faults = record { opening = none; writing = none }

module _ (h : Host) where
  abbrev failed_write : Errno → Result LockError Unit
  failed_write e = err (record { operation = LockOperation.acquire; cause = some e })

  abbrev write_file : Option Errno → LockMeta → ℕ → Result LockError Unit × LockPath
  write_file none next now = (ok tt, some (record { raw = h.stringify next; mtime = now }))
  write_file (some e) next now = (failed_write e, some (record { raw = []; mtime = now }))

  unfoldable pub rewrite_lock :
      WriteFaults → LockMeta → ℕ → LockPath → Result LockError Unit × LockPath
  rewrite_lock faults next now file = elim faults.opening [
    | none ↦ write_file faults.writing next now
    | some e ↦ (failed_write e, file)
  ]

  -- the metadata of the handle in its next phase
  unfoldable pub phase_meta : Text → ℕ → LockMeta → LockMeta
  phase_meta description now meta = if same description meta.phase then meta else record {
    op = meta.op;
    phase = description;
    pid = meta.pid;
    host = meta.host;
    started_at = meta.started_at;
    phase_started = h.iso now;
  }

  unfoldable pub phase :
      WriteFaults → Text → ℕ → Handle → LockPath → (Result LockError Unit × LockPath) × Handle
  unfolding rewrite_lock phase_meta
  phase faults description now self file =
      if self.released
      then ((ok tt, file), self)
      else let next = phase_meta description now self.current in
        (rewrite_lock faults next now file, record { current = next; released = false })

  unfoldable pub owns : LockMeta → PartialMeta → Bool
  owns current held =
      elim held.pid [ none ↦ false | some pid ↦ pid == current.pid ]
      && elim held.started_at [ none ↦ false | some started ↦ same started current.started_at ]

  -- A release that fails, whether at the read of the file or at the unlink, leaves the file.
  abbrev unlink : Option Errno → LockPath → LockPath
  unlink none file = none
  unlink (some e) file = file

  abbrev release_held : Option Errno → LockMeta → Option PartialMeta → LockPath → LockPath
  release_held fault current none file = file
  release_held fault current (some held) file =
      if owns current held then unlink fault file else file

  abbrev release_file : Option Errno → LockMeta → LockPath → LockPath
  release_file fault current none = none
  release_file fault current (some f) = release_held fault current (parse_meta h f.raw) (some f)

  unfoldable pub release : Option Errno → Handle → LockPath → LockPath × Handle
  unfolding parse_meta owns
  release fault self file = if self.released then (file, self) else (
    release_file fault self.current file,
    record { current = self.current; released = true },
  )

module _ (h : Host) (laws : IsHost h) where
  pub parse_meta-stringify : (m : LockMeta) → parse_meta h (h.stringify m) ≡ some (partial m)
  unfolding parse_meta
  parse_meta-stringify m = rw (laws.stringify_blank m, laws.parse_stringify m)

  pub owns_own : (m : LockMeta) → owns h m (partial m) ≡ true
  unfolding owns
  owns_own m = rw (same_refl m.started_at) (ground arith)

  -- A release of an unreleased handle whose own metadata is in the file frees the path.
  pub release-own :
      (m : LockMeta) (now : ℕ)
      → (release h none
          (record { current = m; released = false })
          (some (record { raw = h.stringify m; mtime = now }))).0
        ≡ none
  unfolding release
  release-own m now = rw (parse_meta-stringify m, owns_own m)

  -- With JSON that reads back what it writes, a phase of an unreleased handle and a release after
  -- it, both without failures, leave the path free, whatever file was there, also the file of
  -- another holder.
  pub release-phase :
      (description : Text) (now : ℕ) (self : Handle) (file : LockPath)
      → self.released ≡ false
      → let after = phase h no_write_faults description now self file in
        (release h none after.1 after.0.1).0 ≡ none
  unfolding phase rewrite_lock
  release-phase description now self file live =
      rw live (release-own (phase_meta h description now self.current) now)

-- `JSON.parse` reads in the file an object with the pid and the start time of the metadata.
abbrev pub IsOwn : Host → LockMeta → File → Type 0
IsOwn h current f =
    (is_blank f.raw ≡ false)
    × ((held : PartialMeta) × (h.parse_json f.raw ≡ object held)
        × (held.pid ≡ some current.pid)
        × (held.started_at ≡ some current.started_at))

never_true : false ≡ true → ⊥
never_true e = cc

never_freed : (f : File) → ◌≡◌ {A = LockPath} (some f) none → ⊥
never_freed f e = cc

unlinked :
    (h : Host) (fault : Option Errno) (f : File) → unlink h fault (some f) ≡ none → fault ≡ none
unlinked h none f e = refl
unlinked h (some x) f e = cc

pid_of : (o : Option ℕ) (n : ℕ) → (elim o [ none ↦ false | some m ↦ m == n ]) ≡ true → o ≡ some n
pid_of none n e = cc
pid_of (some m) n e = let q : m ≡ n = ground arith in ap some q

started_of :
    (o : Option Text) (s : Text) → (elim o [ none ↦ false | some t ↦ same t s ]) ≡ true → o ≡ some s
started_of none s e = cc
started_of (some t) s e = ap some (same_sound t s e)

owns_sound :
    (h : Host) (m : LockMeta) (held : PartialMeta)
    → owns h m held ≡ true
    → (held.pid ≡ some m.pid) × (held.started_at ≡ some m.started_at)
unfolding owns
owns_sound h m held e =
    (pid_of held.pid m.pid (ground arith), started_of held.started_at m.started_at (ground arith))

owns-IsOwn :
    (h : Host) (m : LockMeta) (held : PartialMeta)
    → held.pid ≡ some m.pid
    → held.started_at ≡ some m.started_at
    → owns h m held ≡ true
unfolding owns
owns-IsOwn h m held p q = rw (p, q, same_refl m.started_at) (ground arith)

-- Metadata with the pid and the start time of a handle was read as an object.
read_own :
    (h : Host) (m : LockMeta) (j : Json) (held : PartialMeta)
    → (elim j [ throws ↦ none | no_object ↦ some no_meta | object x ↦ some x ]) ≡ some held
    → owns h m held ≡ true
    → j ≡ object held
unfolding owns
read_own h m throws held e o = cc
read_own h m no_object held e o =
    let q : no_meta ≡ held = cc e in absurd (never_true (rw (← q) at o))
read_own h m (object x) held e o = cc e

IsOwn-of :
    (h : Host) (m : LockMeta) (f : File) (held : PartialMeta)
    → parse_meta h f.raw ≡ some held
    → owns h m held ≡ true
    → IsOwn h m f
unfolding parse_meta
IsOwn-of h m f held e o = elim (Bool-cases (is_blank f.raw)) [
  | inl b ↦
      (let q : no_meta ≡ held = cc (rw b at e) in
        absurd (never_true (unfold owns in rw (← q) at o)))
  | inr b ↦
      (let (p, q) = owns_sound h m held o in
        (b, (held, read_own h m (h.parse_json f.raw) held (rw b at e) o, p, q)))
]

-- A file is freed if the unlink of its own metadata does not fail.
freed :
    (h : Host) (fault : Option Errno) (m : LockMeta) (o : Option PartialMeta) (f : File)
    → release_held h fault m o (some f) ≡ none
    → (fault ≡ none) × ((held : PartialMeta) × (o ≡ some held) × (owns h m held ≡ true))
freed h fault m none f e = cc
freed h fault m (some held) f e = elim (Bool-cases (owns h m held)) [
  | inl o ↦ (unlinked h fault f (rw o at e), (held, refl, o))
  | inr o ↦ absurd (never_freed f (rw o at e))
]

held_or_freed :
    (h : Host) (fault : Option Errno) (m : LockMeta) (o : Option PartialMeta) (f : File)
    → (release_held h fault m o (some f) ≡ none) ⊎ (release_held h fault m o (some f) ≡ some f)
held_or_freed h fault m none f = inr refl
held_or_freed h none m (some held) f = elim (Bool-cases (owns h m held)) [
  | inl o ↦ inl (rw o)
  | inr o ↦ inr (rw o)
]
held_or_freed h (some x) m (some held) f = inr (ground arith)

release_held-own :
    (h : Host) (m : LockMeta) (f : File)
    → IsOwn h m f
    → release_held h none m (parse_meta h f.raw) (some f) ≡ none
unfolding parse_meta
release_held-own h m f (b, (held, e, p, q)) = rw (b, e, owns-IsOwn h m held p q)

-- A release of a path with a file frees it exactly when the handle is not yet released, nothing
-- fails, and `JSON.parse` reads in the file an object with both the pid and the start time of the
-- handle. In every other case the file stays as it is: a file of another holder, of a process with the
-- same pid that started at another time, an empty file, and one that is no JSON.
pub release_iff :
    (h : Host) (fault : Option Errno) (self : Handle) (f : File)
    → let left = (release h fault self (some f)).0 in
      ((left ≡ none) ↔ ((fault ≡ none) × (self.released ≡ false) × IsOwn h self.current f))
      × ((left ≡ none) ⊎ (left ≡ some f))
unfolding release
release_iff h fault self f = elim (Bool-cases self.released) [
  | inl r ↦ rw r ((λ e. absurd (never_freed f e), λ e. absurd (never_true (sym e.1))), inr refl)
  | inr r ↦ rw r (
    (
      λ e.
          (let (u, (held, p, o)) = freed h fault self.current (parse_meta h f.raw) f e in
            (u, refl, IsOwn-of h self.current f held p o)),
      λ e. rw (e.0) (release_held-own h self.current f e.2),
    ),
    held_or_freed h fault self.current (parse_meta h f.raw) f,
  )
]

-- After a release, failing or not, a second release and a phase change neither the file nor the
-- handle, and the phase succeeds.
pub release-idempotent :
    (h : Host) (fault again : Option Errno) (faults : WriteFaults) (description : Text) (now : ℕ)
    (self : Handle) (file : LockPath)
    → let after = release h fault self file in
      ((release h again after.1 after.0) ≡ after)
      × (phase h faults description now after.1 after.0 ≡ ((ok tt, after.0), after.1))
unfolding release phase
release-idempotent h fault again faults description now self file =
    elim (Bool-cases self.released) [ inl r ↦ rw r (refl, refl) | inr r ↦ rw r (refl, refl) ]
