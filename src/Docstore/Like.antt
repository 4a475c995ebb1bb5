-- ===== src/Docstore/Like.antt =====
-- What the pattern of `likePrefix` matches, from the documented clauses of SQLite's LIKE.
use mitools.Prelude.{
  ℕ, ◌+◌, ◌≡◌, ◌≢◌, refl, inl, inr, Bool, true, false, ◌&&◌, [], ◌∷◌, ◌++◌, Text, leb, ◌==◌,
  if◌then◌else◌, arith, Bool-cases, starts_with,
}
use mitools.Docstore.{LikeOperator, backslash, is_wildcard, escape_wildcards, like_prefix}

-- LIKE folds the case of the ASCII letters.
unfoldable pub fold : ℕ → ℕ
fold c = if leb b'A' c && leb c b'Z' then c + 32 else c

-- A character that is neither a wildcard of LIKE nor its escape character.
abbrev pub IsPlain : ℕ → Type 0
IsPlain c = (c ≢ b'%') × (c ≢ b'_') × (c ≢ backslash)

-- The clauses of `pk LIKE pattern ESCAPE '\'` that a prefix pattern meets: `%` at the end matches
-- every text, an escaped character and a plain one match one character up to case.
pub record IsLike (like : LikeOperator) : Type 0 where
  pub percent_end : (s : Text) → like (b'%' ∷ []) s ≡ true
  pub escaped_nil : (c : ℕ) (p : Text) → like (backslash ∷ c ∷ p) [] ≡ false
  pub escaped :
      (c : ℕ) (p : Text) (a : ℕ) (s : Text)
      → like (backslash ∷ c ∷ p) (a ∷ s) ≡ fold c == fold a && like p s
  pub plain_nil : (c : ℕ) (p : Text) → IsPlain c → like (c ∷ p) [] ≡ false
  pub plain :
      (c : ℕ) (p : Text) (a : ℕ) (s : Text)
      → IsPlain c
      → like (c ∷ p) (a ∷ s) ≡ fold c == fold a && like p s

-- The text starts with the prefix, up to the case of ASCII letters.
unfoldable pub starts_with_fold : Text → Text → Bool
starts_with_fold [] s = true
starts_with_fold (c ∷ p) [] = false
starts_with_fold (c ∷ p) (a ∷ s) = fold c == fold a && starts_with_fold p s

IsPlain-of : (c : ℕ) → is_wildcard c ≡ false → IsPlain c
unfolding is_wildcard
IsPlain-of c w = (λ e. ground arith, λ e. ground arith, λ e. ground arith)

module _ (like : LikeOperator) (laws : IsLike like) where
  like-escape : (p s : Text) → like (escape_wildcards p ++ b'%' ∷ []) s ≡ starts_with_fold p s
  unfolding escape_wildcards starts_with_fold
  like-escape [] s = laws.percent_end s
  like-escape (c ∷ p) [] = elim (Bool-cases (is_wildcard c)) [
    | inl w ↦ rw w (laws.escaped_nil c _)
    | inr w ↦ rw w (laws.plain_nil c _ (IsPlain-of c w))
  ]
  like-escape (c ∷ p) (a ∷ s) = elim (Bool-cases (is_wildcard c)) [
    | inl w ↦ rw (w, laws.escaped c _ a s, like-escape p s)
    | inr w ↦ rw (w, laws.plain c _ a s (IsPlain-of c w), like-escape p s)
  ]

  -- Under the documented clauses of LIKE, the pattern of a prefix matches exactly the keys that
  -- start with the prefix up to the case of ASCII letters: a wildcard or an escape character in the
  -- prefix stands for itself.
  pub like-like_prefix :
      (prefix pk : Text) → like (like_prefix prefix) pk ≡ starts_with_fold prefix pk
  unfolding like_prefix
  like-like_prefix = like-escape

pub starts_with-fold : (p s : Text) → starts_with p s ≡ true → starts_with_fold p s ≡ true
unfolding starts_with starts_with_fold
starts_with-fold [] s h = refl
starts_with-fold (c ∷ p) [] h = cc
starts_with-fold (c ∷ p) (a ∷ s) h = ground (arith, starts_with-fold p s)
