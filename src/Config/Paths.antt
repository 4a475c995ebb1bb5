-- ===== src/Config/Paths.antt =====
-- The key that a remedy names is read as the path that failed.
use mitools.Prelude.{
  arith, ap, ◌≡◌, ◌≢◌, refl, ◌∙◌, ℕ, ◌==◌, true, false, List, [], ◌∷◌, ◌++◌, append-nil,
  append_assoc, map, Text, codes, any, All, Lacks,
}
use mitools.Prelude.Decimal.{decimal, value-decimal, IsDigit, decimal-IsDigit, decimal-nonempty}
use mitools.Config.{
  Segment, key, index, ConfigPath, segment_text, split_at, join_with, all_digits, is_index,
  numeric_segment,
}
use mitools.Config.Errors.{path_key}
use mitools.Config.Toml.{split_segment, split_path}

split_at-Lacks : (c : ℕ) (t : Text) → Lacks c t → split_at c t ≡ t ∷ []
unfolding split_at
split_at-Lacks c [] h = refl
split_at-Lacks c (a ∷ t) h = ground (arith, split_at-Lacks c t h.1, h.0)

split_at-append : (c : ℕ) (t s : Text) → Lacks c t → split_at c (t ++ c ∷ s) ≡ t ∷ split_at c s
unfolding split_at
split_at-append c [] s h = ground arith
split_at-append c (a ∷ t) s h = ground (arith, split_at-append c t s h.1, h.0)

split_at-join_with :
    (c : ℕ) (t : Text) (ts : List Text)
    → All (Lacks c) (t ∷ ts)
    → split_at c (join_with (c ∷ []) (t ∷ ts)) ≡ t ∷ ts
unfolding join_with
split_at-join_with c t [] h = split_at-Lacks c t h.0
split_at-join_with c t (u ∷ ts) h =
    ap (split_at c) (append_assoc t (c ∷ []) (join_with (c ∷ []) (u ∷ ts)))
    ∙ split_at-append c t (join_with (c ∷ []) (u ∷ ts)) h.0
    ∙ ap (◌∷◌ t) (split_at-join_with c u ts h.1)

all_digits-IsDigit : (t : Text) → All IsDigit t → all_digits t ≡ true
unfolding all_digits
all_digits-IsDigit [] h = refl
all_digits-IsDigit (c ∷ t) h = ground (arith, all_digits-IsDigit t h.1, h.0)

is_index-IsDigit : (t : Text) → t ≢ [] → All IsDigit t → is_index t ≡ true
unfolding is_index
is_index-IsDigit [] n h = absurd (n refl)
is_index-IsDigit (c ∷ t) n h = all_digits-IsDigit (c ∷ t) h

IsDigit-Lacks_dot : (t : Text) → All IsDigit t → Lacks b'.' t
IsDigit-Lacks_dot [] h = tt
IsDigit-Lacks_dot (c ∷ t) h = (λ e. omega (arith, h.0), IsDigit-Lacks_dot t h.1)

-- A key without a dot that is no number; an index is plain.
abbrev pub IsPlainKey : Text → Type 0
IsPlainKey k = Lacks b'.' k × (is_index k ≡ false)

abbrev pub IsPlainSegment : Segment → Type 0
IsPlainSegment (key k) = IsPlainKey k
IsPlainSegment (index n) = Unit

segment_text-Lacks : (s : Segment) → IsPlainSegment s → Lacks b'.' (segment_text s)
unfolding segment_text
segment_text-Lacks (key k) h = h.0
segment_text-Lacks (index n) h = IsDigit-Lacks_dot (decimal n) (decimal-IsDigit n)

numeric_segment-segment_text :
    (s : Segment) → IsPlainSegment s → numeric_segment (segment_text s) ≡ s
unfolding numeric_segment segment_text
numeric_segment-segment_text (key k) h = rw (h.1)
numeric_segment-segment_text (index n) h =
    rw (is_index-IsDigit (decimal n) (decimal-nonempty n) (decimal-IsDigit n), value-decimal n)

segment_texts-Lacks :
    (path : ConfigPath) → All IsPlainSegment path → All (Lacks b'.') (map segment_text path)
segment_texts-Lacks [] h = tt
segment_texts-Lacks (s ∷ path) h = (segment_text-Lacks s h.0, segment_texts-Lacks path h.1)

numeric_segments :
    (path : ConfigPath)
    → All IsPlainSegment path
    → map numeric_segment (map segment_text path) ≡ path
numeric_segments [] h = refl
numeric_segments (s ∷ path) h = cc (numeric_segment-segment_text s h.0, numeric_segments path h.1)

no_dot : (t : Text) → Lacks b'.' t → any (λ c. c == b'.') t ≡ false
no_dot [] h = refl
no_dot (c ∷ t) h = ground (arith, no_dot t h.1, h.0)

some_dot : (t s : Text) → any (λ c. c == b'.') (t ++ b'.' ∷ s) ≡ true
some_dot [] s = refl
some_dot (c ∷ t) s = ground (arith, some_dot t s)

-- The key that a remedy names for a failing path, when read by a provider of dotted paths, is that
-- path again: for a path that starts with a key, whose keys have no dot and are no numbers, and whose
-- other segments are indices. The digits of an index become an index again.
pub split_path-path_key :
    (k : Text) (rest : ConfigPath)
    → IsPlainKey k
    → All IsPlainSegment rest
    → split_path true (key (path_key (key k ∷ rest)) ∷ []) ≡ key k ∷ rest
unfolding split_path split_segment path_key join_with segment_text
split_path-path_key k [] h hs = rw (no_dot k h.0)
split_path-path_key k (s ∷ rest) h hs =
    let texts = segment_text s ∷ map segment_text rest in
    let tail = join_with (codes ".") texts in
    let dot = ap (any (λ c. c == b'.')) (append_assoc k (b'.' ∷ []) tail) ∙ some_dot k tail in
    let split = split_at-join_with b'.' k texts (h.0, segment_texts-Lacks (s ∷ rest) hs) in
    rw (dot, split)
      (append-nil (map numeric_segment (k ∷ texts)) ∙ numeric_segments (key k ∷ s ∷ rest) (h, hs))
