-- ===== src/Probes/Distinct.antt =====
-- The listeners that are parsed from the output of a scan.
use mitools.Prelude.{
  ℕ, ◌≡◌, refl, Bool, false, ◌||◌, Option, none, some, List, [], ◌∷◌, ◌++◌, Text, any, ◌==◌, arith,
  Bool-cases, inl, inr,
}
use mitools.Probes.{
  ListeningProcess, lines_of, after_colon, change, enter, add_port, Listing, start_process,
  name_process, listen_on, listener_line, listener_lines, parse_listeners,
}

abbrev has_port : ℕ → List ℕ → Bool
has_port port = any (λ q. q == port)

abbrev has_pid : ℕ → List ListeningProcess → Bool
has_pid pid = any (λ p. p.pid == pid)

-- Each port once.
abbrev pub ArePorts : List ℕ → Type 0
ArePorts [] = Unit
ArePorts (q ∷ qs) = (has_port q qs ≡ false) × ArePorts qs

-- Each process once, and each of its ports once.
abbrev pub AreListeners : List ListeningProcess → Type 0
AreListeners [] = Unit
AreListeners (p ∷ ps) = (has_pid p.pid ps ≡ false) × ArePorts p.ports × AreListeners ps

has_port-append :
    (q port : ℕ) (ports : List ℕ) → has_port q (ports ++ port ∷ []) ≡ has_port q ports || port == q
has_port-append q port [] = ground arith
has_port-append q port (r ∷ ports) = ground (arith, has_port-append q port ports)

ArePorts-append :
    (port : ℕ) (ports : List ℕ)
    → has_port port ports ≡ false
    → ArePorts ports
    → ArePorts (ports ++ port ∷ [])
ArePorts-append port [] n h = (refl, tt)
ArePorts-append port (q ∷ ports) n (fresh, h) = (
  rw (has_port-append q port ports, fresh) (ground arith),
  ArePorts-append port ports (ground arith) h,
)

add_port-ArePorts :
    (port : ℕ) (p : ListeningProcess) → ArePorts p.ports → ArePorts (add_port port p).ports
add_port-ArePorts port p h = elim (Bool-cases (has_port port p.ports)) [
  | inl e ↦ rw e h
  | inr e ↦ rw e (ArePorts-append port p.ports e h)
]

module _ (pid : ℕ) (f : ListeningProcess → ListeningProcess)
    (same_pid : (p : ListeningProcess) → (f p).pid ≡ p.pid)
    (ports : (p : ListeningProcess) → ArePorts p.ports → ArePorts (f p).ports) where
  has_pid-change : (q : ℕ) (ps : List ListeningProcess) → has_pid q (change pid f ps) ≡ has_pid q ps
  unfolding change
  has_pid-change q [] = refl
  has_pid-change q (p ∷ ps) = elim (Bool-cases (p.pid == pid)) [
    | inl e ↦ rw (e, same_pid p)
    | inr e ↦ rw (e, has_pid-change q ps)
  ]

  change-AreListeners :
      (ps : List ListeningProcess) → AreListeners ps → AreListeners (change pid f ps)
  unfolding change
  change-AreListeners [] h = tt
  change-AreListeners (p ∷ ps) (fresh, own, h) = elim (Bool-cases (p.pid == pid)) [
    | inl e ↦ rw (e, same_pid p) (fresh, ports p own, h)
    | inr e ↦ rw (e, has_pid-change p.pid ps) (fresh, own, change-AreListeners ps h)
  ]

has_pid-append :
    (q : ℕ) (new : ListeningProcess) (ps : List ListeningProcess)
    → has_pid q (ps ++ new ∷ []) ≡ has_pid q ps || new.pid == q
has_pid-append q new [] = ground arith
has_pid-append q new (p ∷ ps) = ground (arith, has_pid-append q new ps)

append-AreListeners :
    (new : ListeningProcess) (ps : List ListeningProcess)
    → has_pid new.pid ps ≡ false
    → ArePorts new.ports
    → AreListeners ps
    → AreListeners (ps ++ new ∷ [])
append-AreListeners new [] n own h = (refl, own, tt)
append-AreListeners new (p ∷ ps) n own (fresh, mine, h) = (
  rw (has_pid-append p.pid new ps, fresh) (ground arith),
  mine,
  append-AreListeners new ps (ground arith) own h,
)

enter-AreListeners :
    (pid : ℕ) (ps : List ListeningProcess) → AreListeners ps → AreListeners (enter pid ps)
unfolding enter
enter-AreListeners pid ps h = elim (Bool-cases (has_pid pid ps)) [
  | inl e ↦ rw e h
  | inr e ↦ rw e (append-AreListeners (record { pid = pid; command = []; ports = [] }) ps e tt h)
]

module _ (number : Text → Option ℕ) where
  start-AreListeners :
      (o : Option ℕ) (l : Listing)
      → AreListeners l.by_pid
      → AreListeners (start_process number o l).by_pid
  start-AreListeners none l h = h
  start-AreListeners (some pid) l h = enter-AreListeners pid l.by_pid h

  name-AreListeners :
      (name : Text) (o : Option ℕ) (l : Listing)
      → AreListeners l.by_pid
      → AreListeners (name_process number name o l).by_pid
  name-AreListeners name none l h = h
  name-AreListeners name (some pid) l h =
      change-AreListeners pid (λ p. record p { command = name }) (λ p. refl) (λ p ports. ports)
        l.by_pid h

  add_port-pid : (port : ℕ) (p : ListeningProcess) → (add_port port p).pid ≡ p.pid
  add_port-pid port p = elim (Bool-cases (has_port port p.ports)) [ inl e ↦ rw e | inr e ↦ rw e ]

  listen-AreListeners :
      (port current : Option ℕ) (l : Listing)
      → AreListeners l.by_pid
      → AreListeners (listen_on number port current l).by_pid
  listen-AreListeners port none l h = h
  listen-AreListeners none (some pid) l h = h
  listen-AreListeners (some port) (some pid) l h =
      change-AreListeners pid (add_port port) (add_port-pid port) (add_port-ArePorts port) l.by_pid
        h

  line-AreListeners :
      (line : Text) (l : Listing)
      → AreListeners l.by_pid
      → AreListeners (listener_line number line l).by_pid
  unfolding listener_line
  line-AreListeners [] l h = h
  line-AreListeners (tag ∷ rest) l h = elim (Bool-cases (tag == b'p')) [
    | inl p ↦ rw p (start-AreListeners (number rest) l h)
    | inr p ↦ elim (Bool-cases (tag == b'c')) [
      | inl c ↦ rw (p, c) (name-AreListeners rest l.current l h)
      | inr c ↦ elim (Bool-cases (tag == b'n')) [
        | inl n ↦ rw (p, c, n) (listen-AreListeners (number (after_colon rest)) l.current l h)
        | inr n ↦ rw (p, c, n) h
      ]
    ]
  ]

  lines-AreListeners :
      (lines : List Text) (l : Listing)
      → AreListeners l.by_pid
      → AreListeners (listener_lines number lines l).by_pid
  unfolding listener_lines
  lines-AreListeners [] l h = h
  lines-AreListeners (line ∷ lines) l h =
      lines-AreListeners lines (listener_line number line l) (line-AreListeners line l h)

  -- Whatever the output of a scan is, the listeners parsed from it have each process once, and each
  -- port of a process once.
  pub parse_listeners-AreListeners : (out : Text) → AreListeners (parse_listeners number out)
  unfolding parse_listeners
  parse_listeners-AreListeners out =
      lines-AreListeners (lines_of out) (record { by_pid = []; current = none }) tt
