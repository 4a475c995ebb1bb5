-- ===== src/Chunks.antt =====
-- text/index.ts: paragraphs, sentences, and the chunks that a text is cut into.
pub mod Bounds
pub mod Ink
pub mod Kept
use Prim.Native.String.{String}
use mathlib.Core.List.{reverse}
use mitools.Prelude.{
  ℕ, suc, ◌+◌, ◌-◌, ◌≤◌, Bool, true, false, not, ◌&&◌, ◌||◌, List, [], ◌∷◌, ◌++◌, Text, codes,
  is_space, is_blank, starts_with, leb, ◌==◌, if◌then◌else◌, length, keep, any, map,
}

-- `s.trimEnd()`
unfoldable pub trim_right : Text → Text
trim_right [] = []
trim_right (c ∷ s) = if is_blank (c ∷ s) then [] else c ∷ trim_right s

-- `s.trim()`
unfoldable pub trim_both : Text → Text
unfolding trim_right
trim_both [] = []
trim_both (c ∷ s) = let rest = trim_both s in if is_space c then rest else trim_right (c ∷ s)

-- the words of ABBREVIATION_RE, each with its last point
abbrev abbreviations : List Text
abbreviations = map codes (
    "Mr." ∷ "Ms." ∷ "Mrs." ∷ "Dr." ∷ "Prof." ∷ "Sr." ∷ "Jr." ∷ "Ph." ∷ "St." ∷ "Inc." ∷ "Corp."
    ∷ "Co." ∷ "Ltd." ∷ "U.S." ∷ "U.K." ∷ "i.e." ∷ "e.g." ∷ "etc." ∷ "vs." ∷ "Jan." ∷ "Feb." ∷ "Mar."
    ∷ "Apr." ∷ "Jun." ∷ "Jul." ∷ "Aug." ∷ "Sep." ∷ "Sept." ∷ "Oct." ∷ "Nov." ∷ "Dec." ∷ [])

-- `(?<=[.!?])` and the negative lookbehind, on the text before, last character first
unfoldable pub ends_sentence : Text → Bool
ends_sentence [] = false
ends_sentence (c ∷ before) =
    (c == b'.' || (c == b'!' || c == b'?'))
    && not (any (λ word. starts_with (reverse word) (c ∷ before)) abbreviations)

-- `\s+(?=[A-Z])`
unfoldable pub before_capital : Text → Bool
before_capital [] = false
before_capital (c ∷ s) = if is_space c then before_capital s else leb b'A' c && leb c b'Z'

abbrev pub onto_first : ℕ → List Text → List Text
onto_first c [] = (c ∷ []) ∷ []
onto_first c (piece ∷ pieces) = (c ∷ piece) ∷ pieces

-- `text.split(ABBREVIATION_RE)`: the flag says that a separator is being passed over.
unfoldable pub split_sentences : Bool → Text → Text → List Text
unfolding ends_sentence before_capital
split_sentences skipping before [] = [] ∷ []
split_sentences true before (c ∷ s) =
    if is_space c
    then split_sentences true (c ∷ before) s
    else onto_first c (split_sentences false (c ∷ before) s)
split_sentences false before (c ∷ s) =
    if ends_sentence before && (is_space c && before_capital (c ∷ s))
    then [] ∷ split_sentences true (c ∷ before) s
    else onto_first c (split_sentences false (c ∷ before) s)

abbrev pub non_empty : Text → Bool
non_empty [] = false
non_empty (c ∷ s) = true

unfoldable pub split_into_sentences : Text → List Text
unfolding split_sentences trim_both
split_into_sentences text = keep non_empty (map trim_both (split_sentences false [] text))

-- `text.split(/\n+/)`, up to the empty pieces that the filter drops
unfoldable pub split_paragraphs : Text → List Text
split_paragraphs [] = [] ∷ []
split_paragraphs (c ∷ s) =
    let rest = split_paragraphs s in if c == 10 then [] ∷ rest else onto_first c rest

-- `p.replace(/\s+/g, " ")`: the flag says that a run of spaces has begun.
unfoldable pub collapse : Bool → Text → Text
collapse run [] = []
collapse true (c ∷ s) = if is_space c then collapse true s else c ∷ collapse false s
collapse false (c ∷ s) = if is_space c then 32 ∷ collapse true s else c ∷ collapse false s

unfoldable pub to_paragraphs : Text → List Text
unfolding split_paragraphs collapse trim_both
to_paragraphs text =
    keep non_empty (map (λ p. collapse false (trim_both p)) (split_paragraphs text))

-- The variables of the loops.
pub record Chunking : Type 0 where
  pub chunks : List Text
  pub current : Text

-- `if (current) chunks.push(current)`
abbrev pub flush : Chunking → List Text
flush s = if non_empty s.current then s.chunks ++ s.current ∷ [] else s.chunks

abbrev pub separated : Text → Text → Text
separated separator current = if non_empty current then separator else []

-- the test for room, and the piece put behind the current chunk
abbrev pub fits : ℕ → Text → Text → Text → Bool
fits max_length separator current piece =
    leb (length current + length (separated separator current) + length piece) max_length

abbrev pub extended : Text → Chunking → Text → Chunking
extended separator s piece = record s {
  current = s.current ++ (separated separator s.current ++ piece);
}

module _ (max_length : ℕ) where
  unfoldable pub add_sentence : Chunking → Text → Chunking
  add_sentence s sentence =
      if fits max_length (32 ∷ []) s.current sentence
      then extended (32 ∷ []) s sentence
      else record { chunks = flush s; current = sentence }

  unfoldable pub add_sentences : Chunking → List Text → Chunking
  add_sentences s [] = s
  add_sentences s (sentence ∷ sentences) = add_sentences (add_sentence s sentence) sentences

  unfoldable pub add_paragraph : Chunking → Text → Chunking
  unfolding add_sentences
  add_paragraph s paragraph =
      if fits max_length (10 ∷ 10 ∷ []) s.current paragraph
      then extended (10 ∷ 10 ∷ []) s paragraph
      else if leb (length paragraph) max_length
      then record { chunks = flush s; current = paragraph }
      else add_sentences (record { chunks = flush s; current = [] })
          (split_into_sentences paragraph)

  unfoldable pub add_paragraphs : Chunking → List Text → Chunking
  unfolding add_paragraph
  add_paragraphs s [] = s
  add_paragraphs s (paragraph ∷ paragraphs) = add_paragraphs (add_paragraph s paragraph) paragraphs

unfoldable pub split_text_into_chunks : Text → ℕ → List Text
unfolding add_paragraphs to_paragraphs
split_text_into_chunks text max_length =
    flush (add_paragraphs max_length (record { chunks = []; current = [] }) (to_paragraphs text))

-- The variables of the loop over the sentences, for `parts` with `left` more to come at most.
pub record Parting : Type 0 where
  pub parts : List Text
  pub current : List Text
  pub current_length : ℕ
  pub left : ℕ

-- `current.join(" ")`
unfoldable pub join_sentences : List Text → Text
join_sentences [] = []
join_sentences (s ∷ []) = s
join_sentences (s ∷ t ∷ ts) = s ++ 32 ∷ join_sentences (t ∷ ts)

abbrev pub is_some : List Text → Bool
is_some [] = false
is_some (s ∷ ss) = true

unfoldable pub all_sentences : List Text → List Text
unfolding split_into_sentences
all_sentences [] = []
all_sentences (p ∷ ps) = split_into_sentences p ++ all_sentences ps

abbrev pub total_length : List Text → ℕ
total_length [] = 0
total_length (s ∷ ss) = length s + total_length ss

-- `exceeds n` is the comparison with `totalLen / n * 1.15` in JavaScript's numbers.
module _ (exceeds : ℕ → ℕ → ℕ → Bool) (n total : ℕ) where
  abbrev pub pushed : Parting → Text → Parting
  pushed s sentence = record s {
    current = s.current ++ sentence ∷ [];
    current_length = s.current_length + length sentence;
  }

  abbrev pub closed_part : Parting → Parting
  closed_part s = record {
    parts = s.parts ++ join_sentences s.current ∷ [];
    current = [];
    current_length = 0;
    left = s.left - 1;
  }

  -- `parts.length < n - 1` while there are parts left
  unfoldable pub add_to_part : Parting → Text → Parting
  unfolding join_sentences
  add_to_part s sentence =
      if exceeds n total (s.current_length + length sentence) && (is_some s.current && leb 1 s.left)
      then pushed (closed_part s) sentence
      else pushed s sentence

  unfoldable pub add_to_parts : Parting → List Text → Parting
  unfolding add_to_part
  add_to_parts s [] = s
  add_to_parts s (sentence ∷ sentences) = add_to_parts (add_to_part s sentence) sentences

abbrev pub last_part : Parting → List Text
last_part s = if is_some s.current then s.parts ++ join_sentences s.current ∷ [] else s.parts

unfoldable pub split_text_into_equal_parts : (ℕ → ℕ → ℕ → Bool) → Text → ℕ → List Text
unfolding add_to_parts all_sentences to_paragraphs join_sentences
split_text_into_equal_parts exceeds text n =
    let sentences = all_sentences (to_paragraphs text) in
    let start : Parting = record { parts = []; current = []; current_length = 0; left = n - 1 } in
    let parted = add_to_parts exceeds n (total_length sentences) start sentences in
    if leb n 1 || leb (length sentences) 1 then text ∷ [] else last_part parted
