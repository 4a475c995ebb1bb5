-- ===== src/Config/Redaction.antt =====
-- config/base.ts: which keys are sensitive, and the copy of a configuration that can be shown.
pub mod Hidden
use Prim.Native.String.{String}
use mitools.Prelude.{
  ℕ, ◌+◌, Bool, true, false, Option, none, some, List, [], ◌∷◌, ◌++◌, map, Text, codes, same,
  starts_with, any, leb, ◌&&◌, ◌||◌, if◌then◌else◌,
}

-- `/i` on ASCII letters; no other character folds to one of them.
unfoldable pub fold_case : Text → Text
fold_case = map (λ c. if leb b'A' c && leb c b'Z' then c + 32 else c)

unfoldable pub string_boolean : Text → Bool
unfolding fold_case
string_boolean value = same (fold_case value) (codes "true")

-- `/word/i`, or `/first[_-]?second/i`
pub data Pattern : Type 0 where
  word : String → Pattern
  joined : String → String → Pattern

unfoldable pub spellings : Pattern → List Text
spellings (word w) = codes w ∷ []
spellings (joined first second) =
    (codes first ++ codes second)
    ∷ (codes first ++ b'_' ∷ codes second)
    ∷ (codes first ++ b'-' ∷ codes second)
    ∷ []

unfoldable pub contains : Text → Text → Bool
contains part [] = starts_with part []
contains part (c ∷ text) = starts_with part (c ∷ text) || contains part text

-- `pattern.test(key)`
unfoldable pub test : Text → Pattern → Bool
unfolding spellings contains fold_case
test key pattern = any (λ s. contains s (fold_case key)) (spellings pattern)

abbrev pub sensitive_key_patterns : List Pattern
sensitive_key_patterns =
    joined "api" "key"
    ∷ word "secret"
    ∷ word "token"
    ∷ word "password"
    ∷ word "passwd"
    ∷ word "credential"
    ∷ joined "private" "key"
    ∷ joined "auth" "key"
    ∷ joined "access" "key"
    ∷ joined "client" "secret"
    ∷ joined "signing" "key"
    ∷ joined "encryption" "key"
    ∷ word "bearer"
    ∷ word "jwt"
    ∷ joined "ssh" "key"
    ∷ word "pgp"
    ∷ word "gpg"
    ∷ joined "webhook" "secret"
    ∷ joined "api" "secret"
    ∷ joined "app" "secret"
    ∷ word "hmac"
    ∷ word "salt"
    ∷ word "pin"
    ∷ word "otp"
    ∷ word "mfa"
    ∷ word "2fa"
    ∷ word "totp"
    ∷ joined "recovery" "code"
    ∷ joined "backup" "code"
    ∷ []

unfoldable pub is_sensitive_key : Text → Bool
unfolding test
is_sensitive_key key = any (test key) sensitive_key_patterns

-- What the copy has in place of a value: the value, or "***".
pub data Shown (Value : Type 0) : Type 0 where
  stars : Shown Value
  shown : Value → Shown Value

-- `is_redacted` is the effect library's test for a `Redacted` value.
module _ {Value : Type 0} (is_redacted : Value → Bool) where
  unfoldable pub is_hidden : List Text → Text → Value → Bool
  unfolding is_sensitive_key
  is_hidden extra key value = any (same key) extra || (is_sensitive_key key || is_redacted value)

  unfoldable pub redact_config : List (Text × Value) → List Text → List (Text × Shown Value)
  unfolding is_hidden
  redact_config [] extra = []
  redact_config ((key, value) ∷ config) extra =
      (key, if is_hidden extra key value then stars else shown value) ∷ redact_config config extra
