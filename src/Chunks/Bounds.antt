-- ===== src/Chunks/Bounds.antt =====
-- How long the chunks of a text are.
use mitools.Prelude.{
  ℕ, ◌≤◌, ◌≡◌, ◌⊎◌, inl, inr, refl, true, List, [], ◌∷◌, ◌++◌, Text, leb, leb→le, length,
  length-append, All, All-append, arith, Bool-cases,
}
use mitools.Chunks.{
  non_empty, Chunking, flush, separated, fits, add_sentence, add_sentences, add_paragraph,
  add_paragraphs, to_paragraphs, split_into_sentences, split_text_into_chunks,
}

-- The text is in the list.
abbrev pub IsIn : Text → List Text → Type 0
IsIn x [] = ⊥
IsIn x (y ∷ ys) = (x ≡ y) ⊎ IsIn x ys

-- The text is a sentence of one of the paragraphs.
abbrev pub IsSentence : List Text → Text → Type 0
IsSentence [] x = ⊥
IsSentence (p ∷ ps) x = IsIn x (split_into_sentences p) ⊎ IsSentence ps x

module _ (max_length : ℕ) where
  fits-le :
      (separator current piece : Text)
      → fits max_length separator current piece ≡ true
      → length (current ++ (separated separator current ++ piece)) ≤ max_length
  fits-le separator current piece h =
      rw
        (
          length-append current (separated separator current ++ piece),
          length-append (separated separator current) piece,
        )
        (omega (arith, leb→le _ max_length h))

  module _ (IsSingle : Text → Type 0) where
    -- A chunk has room, or is a single piece.
    abbrev IsChunk : Text → Type 0
    IsChunk x = (length x ≤ max_length) ⊎ IsSingle x

    abbrev IsCut : Chunking → Type 0
    IsCut s = All IsChunk s.chunks × IsChunk s.current

    flush-IsChunk : (s : Chunking) → IsCut s → All IsChunk (flush s)
    flush-IsChunk s (done, now) = elim (Bool-cases (non_empty s.current)) [
      | inl e ↦ rw e (All-append IsChunk s.chunks (s.current ∷ []) done (now, tt))
      | inr e ↦ rw e done
    ]

    sentence-IsCut :
        (s : Chunking) (x : Text) → IsCut s → IsSingle x → IsCut (add_sentence max_length s x)
    unfolding add_sentence
    sentence-IsCut s x cut single = elim (Bool-cases (fits max_length (32 ∷ []) s.current x)) [
      | inl e ↦ rw e (cut.0, inl (fits-le (32 ∷ []) s.current x e))
      | inr e ↦ rw e (flush-IsChunk s cut, inr single)
    ]

    sentences-IsCut :
        (s : Chunking) (xs : List Text)
        → IsCut s
        → All IsSingle xs
        → IsCut (add_sentences max_length s xs)
    unfolding add_sentences
    sentences-IsCut s [] cut h = cut
    sentences-IsCut s (x ∷ xs) cut (single, h) =
        sentences-IsCut (add_sentence max_length s x) xs (sentence-IsCut s x cut single) h

    paragraph-IsCut :
        (s : Chunking) (p : Text)
        → IsCut s
        → All IsSingle (split_into_sentences p)
        → IsCut (add_paragraph max_length s p)
    unfolding add_paragraph
    paragraph-IsCut s p cut h = elim (Bool-cases (fits max_length (10 ∷ 10 ∷ []) s.current p)) [
      | inl e ↦ rw e (cut.0, inl (fits-le (10 ∷ 10 ∷ []) s.current p e))
      | inr e ↦ elim (Bool-cases (leb (length p) max_length)) [
        | inl f ↦ rw (e, f) (flush-IsChunk s cut, inl (leb→le (length p) max_length f))
        | inr f ↦
            rw (e, f)
              (sentences-IsCut (record { chunks = flush s; current = [] }) (split_into_sentences p)
                (flush-IsChunk s cut, inl (omega arith)) h)
      ]
    ]

    paragraphs-IsCut :
        (s : Chunking) (ps : List Text)
        → IsCut s
        → All (λ p. All IsSingle (split_into_sentences p)) ps
        → IsCut (add_paragraphs max_length s ps)
    unfolding add_paragraphs
    paragraphs-IsCut s [] cut h = cut
    paragraphs-IsCut s (p ∷ ps) cut (singles, h) =
        paragraphs-IsCut (add_paragraph max_length s p) ps (paragraph-IsCut s p cut singles) h

All-of_in : (P : Text → Type 0) (ys : List Text) → ((x : Text) → IsIn x ys → P x) → All P ys
All-of_in P [] f = tt
All-of_in P (y ∷ ys) f = (f y (inl refl), All-of_in P ys (λ x h. f x (inr h)))

All-of_sentences :
    (P : Text → Type 0) (ps : List Text)
    → ((x : Text) → IsSentence ps x → P x)
    → All (λ p. All P (split_into_sentences p)) ps
All-of_sentences P [] f = tt
All-of_sentences P (p ∷ ps) f = (
  All-of_in P (split_into_sentences p) (λ x h. f x (inl h)),
  All-of_sentences P ps (λ x h. f x (inr h)),
)

-- Every chunk of a text is no longer than the maximum, or it is one single sentence of one of the
-- paragraphs, which may be longer.
pub split_text_into_chunks-IsChunk :
    (text : Text) (max_length : ℕ)
    → All
        (λ chunk. (length chunk ≤ max_length) ⊎ IsSentence (to_paragraphs text) chunk)
        (split_text_into_chunks text max_length)
unfolding split_text_into_chunks
split_text_into_chunks-IsChunk text max_length =
    flush-IsChunk max_length (IsSentence (to_paragraphs text))
      (add_paragraphs max_length (record { chunks = []; current = [] }) (to_paragraphs text))
      (paragraphs-IsCut max_length (IsSentence (to_paragraphs text))
        (record { chunks = []; current = [] }) (to_paragraphs text) (tt, inl (omega arith))
        (All-of_sentences (IsSentence (to_paragraphs text)) (to_paragraphs text) (λ x h. h)))
