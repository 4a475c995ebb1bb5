-- ===== src/Tests/Machine.antt =====
-- A host whose JSON is a list of lengths and texts.
use mitools.Prelude.{◌≡◌, refl, [], ◌∷◌, ◌++◌, Text, codes, length, is_blank}
use mitools.Prelude.Decimal.{decimal}
use mitools.Locks.{LockMeta, partial, Json, throws, object, delivered, Host, IsHost}
use mitools.Tests.Codec.{cut, cut_append}

abbrev framed : Text → Text → Text
framed s rest = length s ∷ s ++ rest

abbrev print : LockMeta → Text
print m =
    b'{'
    ∷ m.pid
    ∷ framed m.op (framed m.phase (framed m.host (framed m.started_at (framed m.phase_started []))))

-- The first framed text, and the rest.
abbrev unframe : Text → Text × Text
unframe [] = ([], [])
unframe (n ∷ s) = cut n s

abbrev parse : Text → Json
parse (_ ∷ pid ∷ s) =
    let (op, s1) = unframe s in
    let (phase, s2) = unframe s1 in
    let (host, s3) = unframe s2 in
    let (started, s4) = unframe s3 in
    let (phase_started, s5) = unframe s4 in
    object (
      partial (record {
        op = op;
        phase = phase;
        pid = pid;
        host = host;
        started_at = started;
        phase_started = phase_started;
      }))
parse _ = throws

-- Its processes are all alive.
abbrev pub machine : Host
machine = record {
  pid = 41;
  hostname = codes "alpha";
  kill = λ pid. delivered;
  iso = decimal;
  stringify = print;
  parse_json = parse;
}

unframe-framed : (s rest : Text) → unframe (framed s rest) ≡ (s, rest)
unframe-framed = cut_append

pub machine-IsHost : IsHost machine
unfolding is_blank
machine-IsHost = record {
  parse_stringify = λ m. rw (
    cut_append m.op,
    cut_append m.phase,
    cut_append m.host,
    cut_append m.started_at,
    cut_append m.phase_started,
  );
  stringify_blank = λ m. refl;
}
