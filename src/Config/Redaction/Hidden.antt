-- ===== src/Config/Redaction/Hidden.antt =====
-- No value of a sensitive key can be read in the copy.
use mitools.Prelude.{
  map, arith, ap, ◌≡◌, refl, Bool, true, false, List, [], ◌∷◌, ◌++◌, Text, starts_with,
  starts_with-append, any, same, All, if◌then◌else◌, ◌||◌,
}
use mitools.Config.Redaction.{
  fold_case, spellings, contains, test, sensitive_key_patterns, is_sensitive_key, Shown, stars,
  shown, is_hidden, redact_config,
}

-- The part stands somewhere in the text.
abbrev pub Occurs : Text → Text → Type 0
Occurs part text = (before : Text) × (after : Text) × (text ≡ before ++ part ++ after)

-- No spelling of a sensitive pattern stands in the key, whatever its case.
abbrev pub IsPublicKey : Text → Type 0
IsPublicKey key =
    All (λ p. All (λ s. ¬ (Occurs s (fold_case key))) (spellings p)) sensitive_key_patterns

abbrev pub IsReadable : {Value : Type 0} → (Value → Bool) → List Text → Text × Shown Value → Type 0
IsReadable is_redacted extra (key, stars) = Unit
IsReadable is_redacted extra (key, shown value) =
    IsPublicKey key × (any (same key) extra ≡ false) × (is_redacted value ≡ false)

contains-starts_with : (part text : Text) → starts_with part text ≡ true → contains part text ≡ true
unfolding contains
contains-starts_with part [] h = h
contains-starts_with part (c ∷ text) h = rw h

contains-append : (before part after : Text) → contains part (before ++ part ++ after) ≡ true
unfolding contains
contains-append [] part after =
    contains-starts_with part (part ++ after) (starts_with-append part after)
contains-append (c ∷ before) part after = ground (arith, contains-append before part after)

-- What a failed test of a list says of each member.
any-All : {A : Type 0} (p : A → Bool) (xs : List A) → any p xs ≡ false → All (λ x. p x ≡ false) xs
any-All p [] h = tt
any-All p (x ∷ xs) h = (ground arith, any-All p xs (ground arith))

All-map :
    {A : Type 0} (P Q : A → Type 0) (xs : List A) → ((x : A) → P x → Q x) → All P xs → All Q xs
All-map P Q [] f h = tt
All-map P Q (x ∷ xs) f h = (f x h.0, All-map P Q xs f h.1)

contains-false : (s key : Text) → contains s key ≡ false → ¬ (Occurs s key)
contains-false s key h o =
    let hit = contains-append o.0 s o.1 in
    let miss : contains s (o.0 ++ s ++ o.1) ≡ false = rw (o.2) at h in cc (hit, miss)

is_sensitive_key-false : (key : Text) → is_sensitive_key key ≡ false → IsPublicKey key
unfolding is_sensitive_key test
is_sensitive_key-false key h =
    All-map (λ p. test key p ≡ false) (λ p. All (λ s. ¬ (Occurs s (fold_case key))) (spellings p))
      sensitive_key_patterns
      (λ p t.
        All-map (λ s. contains s (fold_case key) ≡ false) (λ s. ¬ (Occurs s (fold_case key)))
          (spellings p) (λ s c. contains-false s (fold_case key) c)
          (any-All (λ s. contains s (fold_case key)) (spellings p) t))
      (any-All (test key) sensitive_key_patterns h)

entry-IsReadable :
    {Value : Type 0} (is_redacted : Value → Bool) (extra : List Text) (key : Text) (value : Value)
    → IsReadable is_redacted extra
        (key, if is_hidden is_redacted extra key value then stars else shown value)
unfolding is_hidden
entry-IsReadable is_redacted extra key value =
    go (any (same key) extra) (is_sensitive_key key) (is_redacted value) refl refl refl
  where
    go :
        (a b c : Bool)
        → any (same key) extra ≡ a
        → is_sensitive_key key ≡ b
        → is_redacted value ≡ c
        → IsReadable is_redacted extra (key, if a || (b || c) then stars else shown value)
    go true b c x y z = tt
    go false true c x y z = tt
    go false false true x y z = tt
    go false false false x y z = (is_sensitive_key-false key y, x, z)

-- The copy has the keys of the configuration in their order. Each value that it shows is no
-- `Redacted` one, and its key is none of the explicit ones and contains no spelling of a sensitive
-- pattern, in upper or lower case.
pub redact_config-IsReadable :
    {Value : Type 0} (is_redacted : Value → Bool) (config : List (Text × Value)) (extra : List Text)
    → (map (λ e. e.0) (redact_config is_redacted config extra) ≡ map (λ e. e.0) config)
      × All (IsReadable is_redacted extra) (redact_config is_redacted config extra)
unfolding redact_config
redact_config-IsReadable is_redacted [] extra = (refl, tt)
redact_config-IsReadable is_redacted ((key, value) ∷ config) extra =
    let rest = redact_config-IsReadable is_redacted config extra in
    (ap (◌∷◌ key) rest.0, (entry-IsReadable is_redacted extra key value, rest.1))
