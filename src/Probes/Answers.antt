-- ===== src/Probes/Answers.antt =====
-- The answers of probes and scans of probes/index.ts, and the paths under a root.
use mitools.Prelude.{
  ℕ, ◌≡◌, ◌↔◌, ◌⊎◌, inl, inr, refl, sym, true, false, Option, none, some, List, [], ◌∷◌, ◌++◌, ◌∙◌,
  ◌==◌, ap, subst, Text, same, same_iff, same_sound, starts_with, starts_with-append, if◌then◌else◌,
  Result, ok, err, arith, Bool-cases, Option-cases,
}
use mitools.Proc.{RunResult, ProcError}
use mitools.Probes.{
  LsofScan, PortProbe, listening, free, unknown, SocketEvent, timed_out, connected, refused, broken,
  probe_port_once, probe_port, or_second, not_free, in_use, port_in_use, ListeningProcess,
  parse_listeners, trim_slash, is_under_path, attempt_scan, lsof_scan, listening_processes,
}

never_some : {A : Type 0} (a : A) → ◌≡◌ {A = Option A} none (some a) → ⊥
never_some a h = cc

some-injective : {A : Type 0} {a b : A} → some a ≡ some b → a ≡ b
some-injective h = cc h

-- The run of an attempt finished in its budget.
abbrev pub Finished : Result ProcError RunResult → RunResult → Type 0
Finished run result = (run ≡ ok result) × (result.timed_out ≡ false)

abbrev scan_of : RunResult → LsofScan
scan_of result = record { out = result.stdout; complete = true }

attempt_scan-some :
    (run : Result ProcError RunResult) (scan : LsofScan)
    → attempt_scan run ≡ some scan
    → (result : RunResult) × Finished run result × (scan ≡ scan_of result)
unfolding attempt_scan
attempt_scan-some (err e) scan h = cc
attempt_scan-some (ok r) scan h = elim (Bool-cases r.timed_out) [
  | inl t ↦ absurd (never_some scan (rw t at h))
  | inr t ↦ (r, (refl, t), sym (some-injective (rw t at h)))
]

parsed :
    (number : Text → Option ℕ) (scan : LsofScan) (result : RunResult) (ps : List ListeningProcess)
    → scan ≡ scan_of result
    → (if scan.complete then some (parse_listeners number scan.out) else none) ≡ some ps
    → ps ≡ parse_listeners number result.stdout
parsed number scan result ps q h = sym (some-injective (rw q at h))

-- A list of listeners, also an empty one, is what the output of a run that finished in its budget
-- says, the first one or the retry.
pub listening_processes-Finished :
    (number : Text → Option ℕ) (first second : Result ProcError RunResult)
    (ps : List ListeningProcess)
    → listening_processes number first second ≡ some ps
    → (result : RunResult) × (Finished first result ⊎ Finished second result)
      × (ps ≡ parse_listeners number result.stdout)
unfolding listening_processes lsof_scan
listening_processes-Finished number first second ps h = elim (Option-cases (attempt_scan first)) [
  | inl none_first ↦ elim (Option-cases (attempt_scan second)) [
    | inl none_second ↦ absurd (never_some ps (rw (none_first, none_second) at h))
    | inr (scan, e) ↦
        (let (result, f, q) = attempt_scan-some second scan e in
          (result, inr f, parsed number scan result ps q (rw (none_first, e) at h)))
  ]
  | inr (scan, e) ↦
      (let (result, f, q) = attempt_scan-some first scan e in
        (result, inl f, parsed number scan result ps q (rw e at h)))
]

settled_stays :
    (r : PortProbe) (events : List SocketEvent) → probe_port_once (some r) events ≡ some r
unfolding probe_port_once
settled_stays r [] = refl
settled_stays r (e ∷ events) = settled_stays r events

-- The first thing that the socket reports is a refused connection.
abbrev pub IsRefused : List SocketEvent → Type 0
IsRefused [] = ⊥
IsRefused (refused ∷ events) = Unit
IsRefused (timed_out ∷ events) = ⊥
IsRefused (connected ∷ events) = ⊥
IsRefused (broken ∷ events) = ⊥

other_answer : {r : PortProbe} → not_free r ≡ true → some r ≡ some free → ⊥
other_answer {r = listening} n h = cc
other_answer {r = free} n h = cc
other_answer {r = unknown} n h = cc

once_free : (events : List SocketEvent) → probe_port_once none events ≡ some free → IsRefused events
unfolding probe_port_once
once_free [] h = cc
once_free (refused ∷ events) h = tt
once_free (timed_out ∷ events) h =
    absurd (other_answer refl (rw (settled_stays unknown events) at h))
once_free (connected ∷ events) h =
    absurd (other_answer refl (rw (settled_stays listening events) at h))
once_free (broken ∷ events) h = absurd (other_answer refl (rw (settled_stays unknown events) at h))

free_of :
    (a b : Option PortProbe)
    → in_use (or_second a b) ≡ some false
    → (a ≡ some free) ⊎ (b ≡ some free)
free_of none b h = cc
free_of (some listening) b h = cc
free_of (some free) b h = inl refl
free_of (some unknown) none h = cc
free_of (some unknown) (some listening) h = cc
free_of (some unknown) (some free) h = inr refl
free_of (some unknown) (some unknown) h = cc

-- A port is reported as free only if the first event of the first socket, or of the second one, is a
-- refused connection: a deadline, another error or silence never makes it free.
pub port_in_use-IsRefused :
    (first second : List SocketEvent)
    → port_in_use first second ≡ some false
    → IsRefused first ⊎ IsRefused second
unfolding port_in_use probe_port
port_in_use-IsRefused first second h =
    elim (free_of (probe_port_once none first) (probe_port_once none second) h) [
      | inl e ↦ inl (once_free first e)
      | inr e ↦ inr (once_free second e)
    ]

-- The prefix is there exactly when something follows it.
starts_with_iff : (p s : Text) → starts_with p s ≡ true → (rest : Text) × (s ≡ p ++ rest)
unfolding starts_with
starts_with_iff [] s h = (s, refl)
starts_with_iff (a ∷ p) [] h = cc
starts_with_iff (a ∷ p) (b ∷ s) h =
    let e : a ≡ b = ground arith in
    let (rest, q) = starts_with_iff p s (ground arith) in (rest, cc (e, q))

-- The text ends in a slash.
abbrev pub EndsInSlash : Text → Type 0
EndsInSlash root = (start : Text) × (root ≡ start ++ b'/' ∷ [])

-- The root without the slash at its end, if it has one.
abbrev pub IsBase : Text → Text → Type 0
IsBase root base = (root ≡ base ++ b'/' ∷ []) ⊎ ((EndsInSlash root → ⊥) × (root ≡ base))

trim_slash-append : (s : Text) → trim_slash (s ++ b'/' ∷ []) ≡ s
unfolding trim_slash
trim_slash-append [] = refl
trim_slash-append (c ∷ []) = refl
trim_slash-append (c ∷ d ∷ s) = ap (λ t. c ∷ t) (trim_slash-append (d ∷ s))

EndsInSlash-later : (c d : ℕ) (s : Text) → EndsInSlash (c ∷ d ∷ s) → EndsInSlash (d ∷ s)
EndsInSlash-later c d s ([], e) = cc
EndsInSlash-later c d s (a ∷ start, e) = (start, cc e)

EndsInSlash-nil : EndsInSlash [] → ⊥
EndsInSlash-nil ([], e) = cc
EndsInSlash-nil (a ∷ start, e) = cc

EndsInSlash-one : (c : ℕ) → EndsInSlash (c ∷ []) → c ≡ b'/'
EndsInSlash-one c ([], e) = cc e
EndsInSlash-one c (a ∷ [], e) = cc
EndsInSlash-one c (a ∷ b ∷ start, e) = cc

trim_slash-IsBase : (root : Text) → IsBase root (trim_slash root)
unfolding trim_slash
trim_slash-IsBase [] = inr (EndsInSlash-nil, refl)
trim_slash-IsBase (c ∷ []) = elim (Bool-cases (c == b'/')) [
  | inl e ↦ rw e (inl (let q : c ≡ b'/' = ground arith in ap (λ a. a ∷ []) q))
  | inr e ↦ rw e (inr (λ s. (let q = EndsInSlash-one c s in ground arith), refl))
]
trim_slash-IsBase (c ∷ d ∷ s) = elim (trim_slash-IsBase (d ∷ s)) [
  | inl e ↦ inl (ap (λ t. c ∷ t) e)
  | inr (n, e) ↦ inr (λ h. n (EndsInSlash-later c d s h), ap (λ t. c ∷ t) e)
]

IsBase-trim_slash : (root base : Text) → IsBase root base → base ≡ trim_slash root
IsBase-trim_slash root base (inl e) = rw e (sym (trim_slash-append base))
IsBase-trim_slash root base (inr (n, e)) = elim (trim_slash-IsBase root) [
  | inl q ↦ absurd (n (trim_slash root, q))
  | inr (m, q) ↦ sym e ∙ q
]

-- A path is the base, or the base, a slash and a rest.
abbrev pub IsUnder : Text → Text → Type 0
IsUnder cwd base = (cwd ≡ base) ⊎ ((rest : Text) × (cwd ≡ base ++ b'/' ∷ [] ++ rest))

IsUnder-trim_slash :
    (cwd root : Text) → (is_under_path cwd root ≡ true) ↔ IsUnder cwd (trim_slash root)
unfolding is_under_path
IsUnder-trim_slash cwd root = (
  λ h. elim (Bool-cases (same cwd (trim_slash root))) [
    | inl e ↦ inl (same_sound cwd (trim_slash root) e)
    | inr e ↦ inr (starts_with_iff (trim_slash root ++ b'/' ∷ []) cwd (ground arith))
  ],
  λ e. elim e [
    | inl q ↦
        (let t : same cwd (trim_slash root) ≡ true = (same_iff cwd (trim_slash root)).1 q in rw t)
    | inr (rest, q) ↦
        (let t : starts_with (trim_slash root ++ b'/' ∷ []) cwd ≡ true =
            rw q (starts_with-append (trim_slash root ++ b'/' ∷ []) rest) in
          ground (arith, t))
  ],
)

-- A path is under a root exactly when it is the root, or the root, a slash and a rest, where one slash
-- at the end of the root does not count. So a path that only goes on in the last name of the root is
-- not under it.
pub is_under_path_iff :
    (cwd root : Text)
    → (is_under_path cwd root ≡ true) ↔ ((base : Text) × IsBase root base × IsUnder cwd base)
is_under_path_iff cwd root = (
  λ h. (trim_slash root, trim_slash-IsBase root, (IsUnder-trim_slash cwd root).0 h),
  λ (base, b, u).
      (IsUnder-trim_slash cwd root).1 (subst (IsUnder cwd) (IsBase-trim_slash root base b) u),
)
