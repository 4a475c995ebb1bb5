-- ===== src/Chunks/Kept.antt =====
-- No text is lost: the chunks and the parts keep every character that is no space, in its order.
use mitools.Prelude.{
  inl, inr, sym, ◌∙◌, ap, ℕ, ◌+◌, ◌-◌, ◌≡◌, refl, Bool, true, false, ◌&&◌, ◌||◌, Bool-cases, List,
  [], ◌∷◌, ◌++◌, append-nil, append_assoc, Text, is_space, leb, if◌then◌else◌, length,
}
use mitools.Chunks.{
  non_empty, split_into_sentences, to_paragraphs, Chunking, flush, separated, fits, extended,
  add_sentence, add_sentences, add_paragraph, add_paragraphs, split_text_into_chunks, Parting,
  join_sentences, is_some, all_sentences, total_length, pushed, closed_part, add_to_part,
  add_to_parts, last_part, split_text_into_equal_parts,
}
use mitools.Chunks.Ink.{
  ink, inks, ink-append, inks-append, inks-split_into_sentences, inks-to_paragraphs, ink-space,
  space,
}

-- The text that the loop has so far.
abbrev held : Chunking → Text
held s = inks s.chunks ++ ink s.current

inks-last : (ts : List Text) (t : Text) → inks (ts ++ t ∷ []) ≡ inks ts ++ ink t
inks-last ts t = inks-append ts (t ∷ []) ∙ ap (λ x. inks ts ++ x) (append-nil (ink t))

inks-flush : (s : Chunking) → inks (flush s) ≡ held s
inks-flush s = go s.current
  where
    go :
        (t : Text)
        → inks (if non_empty t then s.chunks ++ t ∷ [] else s.chunks) ≡ inks s.chunks ++ ink t
    go [] = sym (append-nil (inks s.chunks))
    go (c ∷ t) = inks-last s.chunks (c ∷ t)

-- A separator of spaces.
held-extended :
    (separator : Text) (s : Chunking) (piece : Text)
    → ink separator ≡ []
    → held (extended separator s piece) ≡ held s ++ ink piece
held-extended separator s piece h =
    ap (λ x. inks s.chunks ++ x)
      (ink-append s.current (separated separator s.current ++ piece)
        ∙ ap (λ x. ink s.current ++ x)
            (ink-append (separated separator s.current) piece
              ∙ ap (λ x. x ++ ink piece) (blank s.current)))
    ∙ sym (append_assoc (inks s.chunks) (ink s.current) (ink piece))
  where
    blank : (t : Text) → ink (separated separator t) ≡ []
    blank [] = refl
    blank (c ∷ t) = h

held-fresh : (s : Chunking) (piece : Text) → inks (flush s) ++ ink piece ≡ held s ++ ink piece
held-fresh s piece = ap (λ x. x ++ ink piece) (inks-flush s)

breaks : ink (10 ∷ 10 ∷ []) ≡ []
unfolding is_space
breaks = refl

module _ (max_length : ℕ) where
  held-add_sentence :
      (s : Chunking) (sentence : Text)
      → held (add_sentence max_length s sentence) ≡ held s ++ ink sentence
  unfolding add_sentence
  held-add_sentence s sentence = elim (Bool-cases (fits max_length (32 ∷ []) s.current sentence)) [
    | inl e ↦ rw e (held-extended (32 ∷ []) s sentence (ink-space 32 [] space))
    | inr e ↦ rw e (held-fresh s sentence)
  ]

  held-add_sentences :
      (s : Chunking) (sentences : List Text)
      → held (add_sentences max_length s sentences) ≡ held s ++ inks sentences
  unfolding add_sentences
  held-add_sentences s [] = sym (append-nil (held s))
  held-add_sentences s (t ∷ ts) =
      held-add_sentences (add_sentence max_length s t) ts
      ∙ ap (λ x. x ++ inks ts) (held-add_sentence s t)
      ∙ append_assoc (held s) (ink t) (inks ts)

  held-add_paragraph :
      (s : Chunking) (paragraph : Text)
      → held (add_paragraph max_length s paragraph) ≡ held s ++ ink paragraph
  unfolding add_paragraph
  held-add_paragraph s p = elim (Bool-cases (fits max_length (10 ∷ 10 ∷ []) s.current p)) [
    | inl e ↦ rw e (held-extended (10 ∷ 10 ∷ []) s p breaks)
    | inr e ↦ elim (Bool-cases (leb (length p) max_length)) [
      | inl f ↦ rw (e, f) (held-fresh s p)
      | inr f ↦
          rw (e, f)
            (held-add_sentences (record { chunks = flush s; current = [] }) (split_into_sentences p)
              ∙ ap (λ x. x ++ inks (split_into_sentences p))
                  (append-nil (inks (flush s)) ∙ inks-flush s)
              ∙ ap (λ x. held s ++ x) (inks-split_into_sentences p))
    ]
  ]

  held-add_paragraphs :
      (s : Chunking) (paragraphs : List Text)
      → held (add_paragraphs max_length s paragraphs) ≡ held s ++ inks paragraphs
  unfolding add_paragraphs
  held-add_paragraphs s [] = sym (append-nil (held s))
  held-add_paragraphs s (p ∷ ps) =
      held-add_paragraphs (add_paragraph max_length s p) ps
      ∙ ap (λ x. x ++ inks ps) (held-add_paragraph s p)
      ∙ append_assoc (held s) (ink p) (inks ps)

inks-split_text_into_chunks :
    (text : Text) (max_length : ℕ) → inks (split_text_into_chunks text max_length) ≡ ink text
unfolding split_text_into_chunks
inks-split_text_into_chunks text max_length =
    let empty : Chunking = record { chunks = []; current = [] } in
    inks-flush (add_paragraphs max_length empty (to_paragraphs text))
    ∙ held-add_paragraphs max_length empty (to_paragraphs text)
    ∙ inks-to_paragraphs text

-- The parts.
ink-join_sentences : (ss : List Text) → ink (join_sentences ss) ≡ inks ss
unfolding join_sentences
ink-join_sentences [] = refl
ink-join_sentences (s ∷ []) = sym (append-nil (ink s))
ink-join_sentences (s ∷ t ∷ ts) =
    ink-append s (32 ∷ join_sentences (t ∷ ts))
    ∙ ap (λ x. ink s ++ x)
        (ink-space 32 (join_sentences (t ∷ ts)) space ∙ ink-join_sentences (t ∷ ts))

inks-all_sentences : (ps : List Text) → inks (all_sentences ps) ≡ inks ps
unfolding all_sentences
inks-all_sentences [] = refl
inks-all_sentences (p ∷ ps) =
    inks-append (split_into_sentences p) (all_sentences ps)
    ∙ ap (λ x. x ++ inks (all_sentences ps)) (inks-split_into_sentences p)
    ∙ ap (λ x. ink p ++ x) (inks-all_sentences ps)

abbrev parted : Parting → Text
parted s = inks s.parts ++ inks s.current

module _ (exceeds : ℕ → ℕ → ℕ → Bool) (n total : ℕ) where
  parted-pushed : (s : Parting) (t : Text) → parted (pushed exceeds n total s t) ≡ parted s ++ ink t
  parted-pushed s t =
      ap (λ x. inks s.parts ++ x) (inks-last s.current t)
      ∙ sym (append_assoc (inks s.parts) (inks s.current) (ink t))

  parted-closed_part : (s : Parting) → parted (closed_part exceeds n total s) ≡ parted s
  parted-closed_part s =
      append-nil (inks (s.parts ++ join_sentences s.current ∷ []))
      ∙ inks-last s.parts (join_sentences s.current)
      ∙ ap (λ x. inks s.parts ++ x) (ink-join_sentences s.current)

  parted-add_to_part :
      (s : Parting) (t : Text) → parted (add_to_part exceeds n total s t) ≡ parted s ++ ink t
  unfolding add_to_part
  parted-add_to_part s t =
      go (exceeds n total (s.current_length + length t) && (is_some s.current && leb 1 s.left))
    where
      go :
          (b : Bool)
          → parted (
              if b
              then pushed exceeds n total (closed_part exceeds n total s) t
              else pushed exceeds n total s t)
            ≡ parted s ++ ink t
      go true =
          parted-pushed (closed_part exceeds n total s) t
          ∙ ap (λ x. x ++ ink t) (parted-closed_part s)
      go false = parted-pushed s t

  parted-add_to_parts :
      (s : Parting) (ts : List Text)
      → parted (add_to_parts exceeds n total s ts) ≡ parted s ++ inks ts
  unfolding add_to_parts
  parted-add_to_parts s [] = sym (append-nil (parted s))
  parted-add_to_parts s (t ∷ ts) =
      parted-add_to_parts (add_to_part exceeds n total s t) ts
      ∙ ap (λ x. x ++ inks ts) (parted-add_to_part s t)
      ∙ append_assoc (parted s) (ink t) (inks ts)

inks-last_part : (s : Parting) → inks (last_part s) ≡ parted s
inks-last_part s = go s.current
  where
    go :
        (ss : List Text)
        → inks (if is_some ss then s.parts ++ join_sentences ss ∷ [] else s.parts)
          ≡ inks s.parts ++ inks ss
    go [] = sym (append-nil (inks s.parts))
    go (t ∷ ts) =
        inks-last s.parts (join_sentences (t ∷ ts))
        ∙ ap (λ x. inks s.parts ++ x) (ink-join_sentences (t ∷ ts))

-- No text is lost or moved: the chunks of a text, and its parts whatever the test for a full part
-- answers, have together exactly the characters of the text that are no spaces, in their order.
pub split_text-ink :
    (exceeds : ℕ → ℕ → ℕ → Bool) (text : Text) (size : ℕ)
    → (inks (split_text_into_chunks text size) ≡ ink text)
      × (inks (split_text_into_equal_parts exceeds text size) ≡ ink text)
unfolding split_text_into_equal_parts
split_text-ink exceeds text size = (
  inks-split_text_into_chunks text size,
  go (leb size 1 || leb (length (all_sentences (to_paragraphs text))) 1),
)
  where
    start : Parting
    start = record { parts = []; current = []; current_length = 0; left = size - 1 }

    sentences : List Text
    sentences = all_sentences (to_paragraphs text)

    parts : Parting
    parts = add_to_parts exceeds size (total_length sentences) start sentences

    go : (b : Bool) → inks (if b then text ∷ [] else last_part parts) ≡ ink text
    go true = append-nil (ink text)
    go false =
        inks-last_part parts
        ∙ parted-add_to_parts exceeds size (total_length sentences) start sentences
        ∙ inks-all_sentences (to_paragraphs text)
        ∙ inks-to_paragraphs text
