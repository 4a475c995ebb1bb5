-- ===== src/Tests/Matcher.antt =====
-- A LIKE operator with ESCAPE '\'.
use mitools.Prelude.{
  ℕ, ◌≡◌, refl, Bool, true, false, ◌&&◌, ◌||◌, [], ◌∷◌, Text, ◌==◌, if◌then◌else◌, arith,
}
use mitools.Docstore.{LikeOperator, backslash}
use mitools.Docstore.Like.{IsLike, IsPlain, fold}

pub data Kind : Type 0 where
  percent underscore escape plain : Kind

abbrev pub kind : ℕ → Kind
kind c =
    if c == b'%'
    then percent
    else if c == b'_'
    then underscore
    else if c == backslash
    then escape
    else plain

abbrev pub any_suffix : (Text → Bool) → Text → Bool
any_suffix test [] = test []
any_suffix test (a ∷ s) = test (a ∷ s) || any_suffix test s

abbrev pub one : (ℕ → Bool) → (Text → Bool) → Text → Bool
one test rest [] = false
one test rest (a ∷ s) = test a && rest s

abbrev pub same_letter : ℕ → ℕ → Bool
same_letter c a = fold c == fold a

abbrev pub matches : LikeOperator
matches [] [] = true
matches [] (a ∷ s) = false
matches (c ∷ []) s = elim (kind c) [
  | percent ↦ any_suffix (matches []) s
  | underscore ↦ one (λ a. true) (matches []) s
  | escape ↦ false
  | plain ↦ one (same_letter c) (matches []) s
]
matches (c ∷ d ∷ p) s = elim (kind c) [
  | percent ↦ any_suffix (matches (d ∷ p)) s
  | underscore ↦ one (λ a. true) (matches (d ∷ p)) s
  | escape ↦ one (same_letter d) (matches p) s
  | plain ↦ one (same_letter c) (matches (d ∷ p)) s
]

every_end : (s : Text) → any_suffix (matches []) s ≡ true
every_end [] = refl
every_end (a ∷ s) = every_end s

kind_plain : (c : ℕ) → IsPlain c → kind c ≡ plain
kind_plain c h = ground (arith, h.0, h.1, h.2)

plain_nil_lem : (c : ℕ) (p : Text) → IsPlain c → matches (c ∷ p) [] ≡ false
plain_nil_lem c [] h = rw (matches, kind_plain c h)
plain_nil_lem c (d ∷ p) h = rw (matches, kind_plain c h)

plain_lem :
    (c : ℕ) (p : Text) (a : ℕ) (s : Text)
    → IsPlain c
    → matches (c ∷ p) (a ∷ s) ≡ fold c == fold a && matches p s
plain_lem c [] a s h = rw (matches, kind_plain c h)
plain_lem c (d ∷ p) a s h = rw (matches, kind_plain c h)

pub matches-IsLike : IsLike matches
matches-IsLike = record {
  percent_end = every_end;
  escaped_nil = λ c p. refl;
  escaped = λ c p a s. refl;
  plain_nil = plain_nil_lem;
  plain = plain_lem;
}
