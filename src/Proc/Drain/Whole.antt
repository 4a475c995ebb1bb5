-- ===== src/Proc/Drain/Whole.antt =====
-- The drain of proc/index.ts against the lines of its whole text, and a drain that is settled.
use mathlib.Core.List.{append_assoc, append-nil}
use mitools.Prelude.{
  ℕ, ◌≡◌, ◌≢◌, refl, sym, ap, subst, ◌∙◌, false, none, some, List, [], ◌∷◌, ◌++◌, Text, Lacks,
  All-append, ◌==◌, Result, ok, arith, Bool-cases, inl, inr, map,
}
use mitools.Proc.{Stream, ProcError}
use mitools.Proc.Lines.{sanitize_line}
use mitools.Proc.Drain.{
  Decoder, Chunk, string, bytes, Event, data_event, end_event, OnLine, Drain, push_front,
  split_lines, unless_settled, emit, emit_all, emit_tail, handle, on_data, on_end, on_event,
  drain_lines, started,
}

-- The text of all chunks and of the end.
abbrev pub whole : {State : Type 0} → Decoder State → State → List Chunk → Text
whole decoder st [] = decoder.finish st
whole decoder st (string t ∷ chunks) = t ++ whole decoder st chunks
whole decoder st (bytes b ∷ chunks) =
    (decoder.decode st b).0 ++ whole decoder (decoder.decode st b).1 chunks

abbrev last_line : Text → List Text
last_line [] = []
last_line (c ∷ s) = (c ∷ s) ∷ []

-- The lines of a text, with a last one that no line feed ends, if there is any.
abbrev pub text_lines : Text → List Text
text_lines t = (split_lines t).0 ++ last_line (split_lines t).1

push_front-Lacks :
    (c : ℕ) (p : List Text × Text) → c ≢ 10 → Lacks 10 p.1 → Lacks 10 (push_front c p).1
push_front-Lacks c ([], rest) n h = (n, h)
push_front-Lacks c (line ∷ lines, rest) n h = h

split_lines-Lacks : (s : Text) → Lacks 10 (split_lines s).1
unfolding split_lines
split_lines-Lacks [] = tt
split_lines-Lacks (c ∷ s) = elim (Bool-cases (c == 10)) [
  | inl e ↦ rw e (split_lines-Lacks s)
  | inr e ↦ rw e (push_front-Lacks c (split_lines s) (λ q. ground arith) (split_lines-Lacks s))
]

-- the lines of `p`, and then those of its last part and `t`
abbrev continued : List Text × Text → Text → List Text × Text
continued p t = (p.0 ++ (split_lines (p.1 ++ t)).0, (split_lines (p.1 ++ t)).1)

push_front-continued :
    (c : ℕ) (p : List Text × Text) (t : Text)
    → c == 10 ≡ false
    → push_front c (continued p t) ≡ continued (push_front c p) t
unfolding split_lines
push_front-continued c ([], rest) t e = rw e
push_front-continued c (line ∷ lines, rest) t e = refl

split_lines-append : (s t : Text) → split_lines (s ++ t) ≡ continued (split_lines s) t
unfolding split_lines
split_lines-append [] t = refl
split_lines-append (c ∷ s) t = elim (Bool-cases (c == 10)) [
  | inl e ↦ rw (e, split_lines-append s t)
  | inr e ↦ rw (e, split_lines-append s t) (push_front-continued c (split_lines s) t e)
]

text_lines-append :
    (s t : Text) → text_lines (s ++ t) ≡ (split_lines s).0 ++ text_lines ((split_lines s).1 ++ t)
text_lines-append s t = rw (
  split_lines-append s t,
  append_assoc (split_lines s).0 (split_lines ((split_lines s).1 ++ t)).0
      (last_line (split_lines ((split_lines s).1 ++ t)).1),
)

split_lines_none : (s : Text) → Lacks 10 s → split_lines s ≡ ([], s)
unfolding split_lines
split_lines_none [] h = refl
split_lines_none (c ∷ s) h =
    let e : c == 10 ≡ false = ground (arith, h.0) in rw (e, split_lines_none s h.1)

module _ {State : Type 0} (decoder : Decoder State) (argv : List Text) (stream : Stream)
    (on_line : OnLine) (quiet : (seen : List Text) (line : Text) → on_line seen line ≡ none) where
  abbrev sanitized : List Text → List Text
  sanitized = map sanitize_line

  -- a drain that is not settled
  abbrev running : State → Text → List Text → Drain State
  running st buffer lines = record { decoder = st; buffer = buffer; lines = lines; outcome = none }

  emit_lem :
      (line : Text) (st : State) (buffer : Text) (seen : List Text)
      → emit decoder argv stream on_line line (running st buffer seen)
        ≡ running st buffer (seen ++ sanitize_line line ∷ [])
  unfolding emit
  emit_lem line st buffer seen = rw (quiet seen (sanitize_line line))

  emit_all_lem :
      (lines : List Text) (st : State) (buffer : Text) (seen : List Text)
      → emit_all decoder argv stream on_line lines (running st buffer seen)
        ≡ running st buffer (seen ++ sanitized lines)
  unfolding emit_all
  emit_all_lem [] st buffer seen = rw (append-nil seen)
  emit_all_lem (line ∷ lines) st buffer seen =
      ap (unless_settled decoder argv stream on_line (emit_all decoder argv stream on_line lines))
        (emit_lem line st buffer seen)
      ∙ (emit_all_lem lines st buffer (seen ++ sanitize_line line ∷ [])
          ∙ ap (running st buffer) (append_assoc seen (sanitize_line line ∷ []) (sanitized lines)))

  abbrev chunk_text : Chunk → State → Text × State
  chunk_text (string t) st = (t, st)
  chunk_text (bytes b) st = decoder.decode st b

  on_data_lem :
      (chunk : Chunk) (st : State) (buffer : Text) (seen : List Text)
      → let cut = split_lines (buffer ++ (chunk_text chunk st).0) in
        on_data decoder argv stream on_line chunk (running st buffer seen)
        ≡ running (chunk_text chunk st).1 cut.1 (seen ++ sanitized cut.0)
  unfolding on_data
  on_data_lem (string t) st buffer seen = emit_all_lem _ st _ seen
  on_data_lem (bytes b) st buffer seen = emit_all_lem _ (decoder.decode st b).1 _ seen

  -- the lines that a drain has given at its end, and that it succeeded
  abbrev Gave : Drain State → List Text → Type 0
  Gave d lines = (d.lines ≡ lines) × (d.outcome ≡ some (ok tt))

  tail_Gave :
      (tail : Text) (st : State) (buffer : Text) (seen : List Text)
      → Gave
          (emit_tail decoder argv stream on_line tail (running st buffer seen))
          (seen ++ sanitized (last_line tail))
  tail_Gave [] st buffer seen = (sym (append-nil seen), refl)
  tail_Gave (c ∷ tail) st buffer seen = rw (emit_lem (c ∷ tail) st buffer seen) (refl, refl)

  -- all events of the chunks and the end
  abbrev events : List Chunk → List Event
  events [] = end_event ∷ []
  events (chunk ∷ chunks) = data_event chunk ∷ events chunks

  sanitized-append : (xs ys : List Text) → sanitized (xs ++ ys) ≡ sanitized xs ++ sanitized ys
  sanitized-append [] ys = refl
  sanitized-append (x ∷ xs) ys = ap (λ l. sanitize_line x ∷ l) (sanitized-append xs ys)

  whole_cons :
      (chunk : Chunk) (st : State) (chunks : List Chunk)
      → (chunk_text chunk st).0 ++ whole decoder (chunk_text chunk st).1 chunks
        ≡ whole decoder st (chunk ∷ chunks)
  whole_cons (string t) st chunks = refl
  whole_cons (bytes b) st chunks = refl

  -- the lines seen, and those of the buffer and the text after it
  expected : Text → List Text → Text → List Text
  expected buffer seen text = seen ++ sanitized (text_lines (buffer ++ text))

  expected-step :
      (buffer t text : Text) (seen : List Text)
      → expected
          (split_lines (buffer ++ t)).1
          (seen ++ sanitized (split_lines (buffer ++ t)).0)
          text
        ≡ expected buffer seen (t ++ text)
  unfolding expected
  expected-step buffer t text seen =
      rw
        (
          sym (append_assoc buffer t text),
          text_lines-append (buffer ++ t) text,
          sanitized-append (split_lines (buffer ++ t)).0
              (text_lines ((split_lines (buffer ++ t)).1 ++ text)),
        )
        (append_assoc seen _ _)

  module _ (ends : (st : State) → Lacks 10 (decoder.finish st)) where
    drain_Gave :
        (chunks : List Chunk) (st : State) (buffer : Text) (seen : List Text)
        → Lacks 10 buffer
        → Gave
            (drain_lines decoder argv stream on_line (events chunks) (running st buffer seen))
            (expected buffer seen (whole decoder st chunks))
    unfolding drain_lines on_event on_end expected
    drain_Gave [] st buffer seen h =
        rw
          (split_lines_none (buffer ++ decoder.finish st)
            (All-append (λ a. a ≢ 10) buffer (decoder.finish st) h (ends st)))
          (tail_Gave (buffer ++ decoder.finish st) st buffer seen)
    drain_Gave (chunk ∷ chunks) st buffer seen h =
        let (t, st') = chunk_text chunk st in
        let cut = split_lines (buffer ++ t) in
        let rest = drain_lines decoder argv stream on_line (events chunks) in
        subst (λ d. Gave (rest d) (expected buffer seen (whole decoder st (chunk ∷ chunks))))
          (sym (on_data_lem chunk st buffer seen))
          (subst (Gave (rest (running st' cut.1 (seen ++ sanitized cut.0))))
            (expected-step buffer t (whole decoder st' chunks) seen
              ∙ ap (expected buffer seen) (whole_cons chunk st chunks))
            (drain_Gave chunks st' cut.1 (seen ++ sanitized cut.0)
              (split_lines-Lacks (buffer ++ t))))

    -- When no call of `onLine` throws and the decoder's last text has no line feed, a drain of any
    -- chunks that ends gives exactly the sanitized lines of their whole text, the last one also when
    -- no line feed ends it, and succeeds: it does not matter where the chunks are cut.
    pub drain_lines-whole :
        (chunks : List Chunk)
        → let d = drain_lines decoder argv stream on_line (events chunks) (started decoder) in
          (d.lines ≡ sanitized (text_lines (whole decoder decoder.fresh chunks)))
          × (d.outcome ≡ some (ok tt))
    unfolding expected
    drain_lines-whole chunks = drain_Gave chunks decoder.fresh [] [] tt

on_event_settled :
    {State : Type 0} (decoder : Decoder State) (argv : List Text) (stream : Stream)
    (on_line : OnLine) (event : Event) (d : Drain State) (r : Result ProcError Unit)
    → d.outcome ≡ some r
    → on_event decoder argv stream on_line event d ≡ d
unfolding on_event
on_event_settled decoder argv stream on_line event d r h =
    subst (λ o. elim o [ none ↦ handle decoder argv stream on_line event d | some r ↦ d ] ≡ d)
      (sym h) refl

-- Once a drain is settled, by an end, an error or a callback that threw, no later event changes it.
pub drain_lines_settled :
    {State : Type 0} (decoder : Decoder State) (argv : List Text) (stream : Stream)
    (on_line : OnLine) (later : List Event) (d : Drain State) (r : Result ProcError Unit)
    → d.outcome ≡ some r
    → drain_lines decoder argv stream on_line later d ≡ d
unfolding drain_lines
drain_lines_settled decoder argv stream on_line [] d r h = refl
drain_lines_settled decoder argv stream on_line (event ∷ later) d r h =
    ap (drain_lines decoder argv stream on_line later)
      (on_event_settled decoder argv stream on_line event d r h)
    ∙ drain_lines_settled decoder argv stream on_line later d r h
