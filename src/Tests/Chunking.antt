-- ===== src/Tests/Chunking.antt =====
-- A text of two paragraphs in chunks.
use mathlib.Core.List.{reverse}
use mitools.Prelude.{
  ℕ, ◌*◌, Bool, ltb, ◌≡◌, ◌≤◌, ◌⊎◌, refl, [], ◌∷◌, ◌++◌, Text, codes, length, All, is_space,
  is_blank, starts_with,
}
use mitools.Chunks.{
  trim_right, trim_both, ends_sentence, before_capital, split_sentences, split_into_sentences,
  split_paragraphs, collapse, to_paragraphs, add_sentence, add_sentences, add_paragraph,
  add_paragraphs, split_text_into_chunks, split_text_into_equal_parts, add_to_parts, add_to_part,
  all_sentences, join_sentences,
}
use mitools.Chunks.Bounds.{IsSentence, split_text_into_chunks-IsChunk}
use mitools.Chunks.Ink.{ink, inks}
use mitools.Chunks.Kept.{split_text-ink}

abbrev text : Text
text = codes "Dr. Who came. He left.  Bye." ++ (10 ∷ 10 ∷ codes "A far too long one")

split_text_into_chunks_runs :
    split_text_into_chunks text 15
    ≡ codes "Dr. Who came." ∷ codes "He left. Bye." ∷ codes "A far too long one" ∷ []
unfolding split_text_into_chunks add_paragraphs add_paragraph add_sentences add_sentence
    to_paragraphs collapse split_paragraphs split_into_sentences split_sentences before_capital
    ends_sentence trim_both trim_right is_space is_blank starts_with reverse
split_text_into_chunks_runs = refl

split_text_into_chunks-IsChunk_example :
    All
      (λ chunk. (length chunk ≤ 15) ⊎ IsSentence (to_paragraphs text) chunk)
      (split_text_into_chunks text 15)
split_text_into_chunks-IsChunk_example = split_text_into_chunks-IsChunk text 15

-- More than a part's share and 15 percent, up to the rounding of JavaScript.
abbrev exceeds : ℕ → ℕ → ℕ → Bool
exceeds n total size = ltb (total * 115) (size * n * 100)

split_text_into_equal_parts_runs :
    split_text_into_equal_parts exceeds text 2
    ≡ codes "Dr. Who came. He left." ∷ codes "Bye. A far too long one" ∷ []
unfolding split_text_into_equal_parts add_to_parts add_to_part all_sentences join_sentences
    to_paragraphs collapse split_paragraphs split_into_sentences split_sentences before_capital
    ends_sentence trim_both trim_right is_space is_blank starts_with reverse
split_text_into_equal_parts_runs = refl

split_text-ink_example :
    (inks (split_text_into_chunks text 2) ≡ ink text)
    × (inks (split_text_into_equal_parts exceeds text 2) ≡ ink text)
split_text-ink_example = split_text-ink exceeds text 2
