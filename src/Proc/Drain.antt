-- ===== src/Proc/Drain.antt =====
-- `drainLines` and `streamLines` of proc/index.ts: the listeners of a stream as steps on the state
-- that they share. The decoder of the runtime and the caller's `onLine` are parameters.
pub mod Whole
use mitools.Prelude.{
  codes, ℕ, zero, suc, ◌+◌, Bool, true, false, Option, none, some, List, [], ◌∷◌, ◌++◌, Text, Bytes,
  codes, ◌==◌, if◌then◌else◌, Result, ok, err,
}
use mitools.Errors.{Cause}
use mitools.Proc.{Stream, ProcError, read_failed}
use mitools.Proc.Lines.{sanitize_line}

-- `TextDecoder`: what a chunk adds in streaming mode, and what is left at the end.
pub record Decoder (State : Type 0) : Type 0 where
  pub fresh : State
  pub decode : State → Bytes → Text × State
  pub finish : State → Text

pub data Chunk : Type 0 where
  string : Text → Chunk
  bytes : Bytes → Chunk

pub data Event : Type 0 where
  data_event : Chunk → Event
  end_event : Event
  error_event : Cause → Event

-- `onLine` may throw; it has seen the lines before.
abbrev pub OnLine : Type 0
OnLine = List Text → Text → Option Cause

-- The variables of the drain; `outcome` is what it resumed with, and it is settled when there is one.
pub record Drain (State : Type 0) : Type 0 where
  pub decoder : State
  pub buffer : Text
  pub lines : List Text
  pub outcome : Option (Result ProcError (Unit {0}))

abbrev pub push_front : ℕ → List Text × Text → List Text × Text
push_front c ([], rest) = ([], c ∷ rest)
push_front c (line ∷ lines, rest) = ((c ∷ line) ∷ lines, rest)

abbrev pub end_line : List Text × Text → List Text × Text
end_line (lines, rest) = ([] ∷ lines, rest)

-- The loop over `buffer.indexOf("\n")`: the lines that end with a line feed, and what follows the
-- last one.
unfoldable pub split_lines : Text → List Text × Text
split_lines [] = ([], [])
split_lines (c ∷ s) =
    let rest = split_lines s in if c == 10 then end_line rest else push_front c rest

module _ {State : Type 0} (decoder : Decoder State) (argv : List Text) (stream : Stream)
    (on_line : OnLine) where
  abbrev fail : Cause → Drain State → Drain State
  fail cause d = record d { outcome = some (err (read_failed argv stream cause)) }

  abbrev emitted : Option Cause → Text → Drain State → Drain State
  emitted none line d = record d { lines = d.lines ++ line ∷ [] }
  emitted (some cause) line d = fail cause (record d { lines = d.lines ++ line ∷ [] })

  unfoldable pub emit : Text → Drain State → Drain State
  emit line d = emitted (on_line d.lines (sanitize_line line)) (sanitize_line line) d

  abbrev pub unless_settled : (Drain State → Drain State) → Drain State → Drain State
  unless_settled f d = elim d.outcome [ none ↦ f d | some r ↦ d ]

  -- the lines of one chunk, until the callback throws
  unfoldable pub emit_all : List Text → Drain State → Drain State
  emit_all [] d = d
  emit_all (line ∷ lines) d = unless_settled (emit_all lines) (emit line d)

  abbrev decoded_chunk : Chunk → State → Text × State
  decoded_chunk (string t) st = (t, st)
  decoded_chunk (bytes b) st = decoder.decode st b

  abbrev with_text : Text × State → Drain State → Drain State
  with_text (t, st) d =
      let (lines, rest) = split_lines (d.buffer ++ t) in
      emit_all lines (record d { decoder = st; buffer = rest })

  unfoldable pub on_data : Chunk → Drain State → Drain State
  unfolding emit_all split_lines
  on_data chunk d = with_text (decoded_chunk chunk d.decoder) d

  abbrev succeed : Drain State → Drain State
  succeed d = elim d.outcome [ none ↦ record d { outcome = some (ok tt) } | some r ↦ d ]

  abbrev pub emit_tail : Text → Drain State → Drain State
  emit_tail [] d = succeed d
  emit_tail (c ∷ tail) d = succeed (emit (c ∷ tail) d)

  unfoldable pub on_end : Drain State → Drain State
  unfolding emit
  on_end d = emit_tail (d.buffer ++ decoder.finish d.decoder) d

  abbrev pub handle : Event → Drain State → Drain State
  handle (data_event chunk) d = on_data chunk d
  handle end_event d = on_end d
  handle (error_event cause) d = fail cause d

  -- A listener does nothing once the drain is settled.
  unfoldable pub on_event : Event → Drain State → Drain State
  unfolding on_data on_end
  on_event event d = unless_settled (handle event) d

  unfoldable pub drain_lines : List Event → Drain State → Drain State
  drain_lines [] d = d
  drain_lines (event ∷ events) d = drain_lines events (on_event event d)

abbrev pub started : {State : Type 0} → Decoder State → Drain State
started decoder = record { decoder = decoder.fresh; buffer = []; lines = []; outcome = none }

-- `streamLines`: the drain of a stream that belongs to no command.
unfoldable pub stream_lines : {State : Type 0} → Decoder State → OnLine → List Event → Drain State
unfolding drain_lines
stream_lines decoder on_line events =
    drain_lines decoder (codes "<stream>" ∷ []) Stream.stdout on_line events (started decoder)
