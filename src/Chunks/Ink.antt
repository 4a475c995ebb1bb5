-- ===== src/Chunks/Ink.antt =====
-- The characters that are no spaces, and that trims and splits keep them in their order.
use mitools.Prelude.{
  arith, inl, inr, sym, ◌∙◌, ap, subst, ℕ, ◌≡◌, refl, Bool, true, false, not, ◌&&◌, Bool-cases,
  List, [], ◌∷◌, ◌++◌, append_assoc, Text, is_space, is_blank, if◌then◌else◌, keep, keep-append,
  map, ◌==◌,
}
use mitools.Chunks.{
  trim_right, trim_both, ends_sentence, before_capital, onto_first, split_sentences, non_empty,
  split_into_sentences, split_paragraphs, collapse, to_paragraphs,
}

-- The characters that are no spaces, of a text and of pieces.
abbrev pub ink : Text → Text
ink = keep (λ c. not (is_space c))

abbrev pub inks : List Text → Text
inks [] = []
inks (t ∷ ts) = ink t ++ inks ts

pub ink-append : (s t : Text) → ink (s ++ t) ≡ ink s ++ ink t
ink-append s t = keep-append (λ c. not (is_space c)) s t

pub inks-append : (ss ts : List Text) → inks (ss ++ ts) ≡ inks ss ++ inks ts
inks-append [] ts = refl
inks-append (s ∷ ss) ts =
    ap (λ x. ink s ++ x) (inks-append ss ts) ∙ sym (append_assoc (ink s) (inks ss) (inks ts))

ink-blank : (s : Text) → is_blank s ≡ true → ink s ≡ []
unfolding is_blank
ink-blank [] h = refl
ink-blank (c ∷ s) h = ground (arith, ink-blank s)

ink-trim_right : (s : Text) → ink (trim_right s) ≡ ink s
unfolding trim_right
ink-trim_right [] = refl
ink-trim_right (c ∷ s) = elim (Bool-cases (is_blank (c ∷ s))) [
  | inl e ↦ rw e (sym (ink-blank (c ∷ s) e))
  | inr e ↦ rw e (ground (arith, ink-trim_right s))
]

ink-trim_both : (s : Text) → ink (trim_both s) ≡ ink s
unfolding trim_both
ink-trim_both [] = refl
ink-trim_both (c ∷ s) = elim (Bool-cases (is_space c)) [
  | inl e ↦ rw e (ink-trim_both s)
  | inr e ↦
      subst (λ b. ink (if b then trim_both s else trim_right (c ∷ s)) ≡ ink (c ∷ s)) (sym e)
        (ink-trim_right (c ∷ s))
]

pub space : is_space 32 ≡ true
unfolding is_space
space = refl

ink-collapse : (run : Bool) (s : Text) → ink (collapse run s) ≡ ink s
unfolding collapse
ink-collapse run [] = refl
ink-collapse true (c ∷ s) = ground (arith, ink-collapse true s, ink-collapse false s)
ink-collapse false (c ∷ s) = elim (Bool-cases (is_space c)) [
  | inl e ↦ rw (e, space) (ink-collapse true s)
  | inr e ↦ rw e (ground (arith, ink-collapse false s))
]

inks-keep : (ts : List Text) → inks (keep non_empty ts) ≡ inks ts
inks-keep [] = refl
inks-keep ([] ∷ ts) = inks-keep ts
inks-keep ((c ∷ t) ∷ ts) = ap (λ x. ink (c ∷ t) ++ x) (inks-keep ts)

inks-map :
    (f : Text → Text) (ts : List Text)
    → ((t : Text) → ink (f t) ≡ ink t)
    → inks (map f ts) ≡ inks ts
inks-map f [] h = refl
inks-map f (t ∷ ts) h = cc (h t, inks-map f ts h)

inks-onto_first : (c : ℕ) (ts : List Text) → inks (onto_first c ts) ≡ ink (c ∷ []) ++ inks ts
inks-onto_first c [] = refl
inks-onto_first c (t ∷ ts) =
    ap (λ x. x ++ inks ts) (ink-append (c ∷ []) t) ∙ append_assoc (ink (c ∷ [])) (ink t) (inks ts)

-- A character in front of pieces that keep a text.
onto_first-ink :
    (c : ℕ) (ts : List Text) (s : Text) → inks ts ≡ ink s → inks (onto_first c ts) ≡ ink (c ∷ s)
onto_first-ink c ts s h =
    inks-onto_first c ts ∙ ap (λ x. ink (c ∷ []) ++ x) h ∙ sym (ink-append (c ∷ []) s)

pub ink-space : (c : ℕ) (s : Text) → is_space c ≡ true → ink (c ∷ s) ≡ ink s
ink-space c s h = rw h

feed : is_space 10 ≡ true
unfolding is_space
feed = refl

line_feed : (c : ℕ) → (c == 10) ≡ true → is_space c ≡ true
line_feed c h = let e : c ≡ 10 = ground arith in rw e feed

inks-split_paragraphs : (s : Text) → inks (split_paragraphs s) ≡ ink s
unfolding split_paragraphs
inks-split_paragraphs [] = refl
inks-split_paragraphs (c ∷ s) = elim (Bool-cases (c == 10)) [
  | inl e ↦ rw e (inks-split_paragraphs s ∙ sym (ink-space c s (line_feed c e)))
  | inr e ↦ rw e (onto_first-ink c (split_paragraphs s) s (inks-split_paragraphs s))
]

inks-split_sentences :
    (skipping : Bool) (before s : Text) → inks (split_sentences skipping before s) ≡ ink s
unfolding split_sentences
inks-split_sentences true before [] = refl
inks-split_sentences false before [] = refl
inks-split_sentences true before (c ∷ s) = elim (Bool-cases (is_space c)) [
  | inl e ↦ rw e (inks-split_sentences true (c ∷ before) s)
  | inr e ↦
      subst
        (λ b.
          inks (
            if b
            then split_sentences true (c ∷ before) s
            else onto_first c (split_sentences false (c ∷ before) s))
          ≡ ink (c ∷ s))
        (sym e)
        (onto_first-ink c (split_sentences false (c ∷ before) s) s
          (inks-split_sentences false (c ∷ before) s))
]
inks-split_sentences false before (c ∷ s) =
    elim (Bool-cases (ends_sentence before && (is_space c && before_capital (c ∷ s)))) [
      | inl e ↦ rw e (
          inks-split_sentences true (c ∷ before) s
          ∙ sym
              (ink-space c s (cut (ends_sentence before) (is_space c) (before_capital (c ∷ s)) e)))
      | inr e ↦ rw e (
          onto_first-ink c (split_sentences false (c ∷ before) s) s
            (inks-split_sentences false (c ∷ before) s))
    ]
  where
    cut : (a b d : Bool) → (a && (b && d)) ≡ true → b ≡ true
    cut true true d h = refl
    cut true false d h = h
    cut false b d h = cc h

pub inks-split_into_sentences : (s : Text) → inks (split_into_sentences s) ≡ ink s
unfolding split_into_sentences
inks-split_into_sentences s =
    inks-keep (map trim_both (split_sentences false [] s))
    ∙ inks-map trim_both (split_sentences false [] s) ink-trim_both
    ∙ inks-split_sentences false [] s

pub inks-to_paragraphs : (s : Text) → inks (to_paragraphs s) ≡ ink s
unfolding to_paragraphs
inks-to_paragraphs s =
    inks-keep (map (λ p. collapse false (trim_both p)) (split_paragraphs s))
    ∙ inks-map (λ p. collapse false (trim_both p)) (split_paragraphs s)
        (λ p. ink-collapse false (trim_both p) ∙ ink-trim_both p)
    ∙ inks-split_paragraphs s
