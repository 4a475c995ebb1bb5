-- ===== src/Docstore.antt =====
-- persistence/docstore.ts: the rows of the `blobs` table, the statements of `makeSync`, and the
-- codec. The table is the list of its rows, and a WHERE clause is a test on a row. What is foreign
-- is a parameter: the CBOR codec, SQLite's LIKE operator, and the failures of the driver.
pub mod Sync
pub mod Service
pub mod Like
pub mod Lookup
pub mod Prefixes
pub mod Keys
pub mod Expiry
pub mod Reads
pub mod Calls
pub mod Schema
use mathlib.Core.List.{flatten}
use mathlib.Core.Option.{get_or}
use mitools.Prelude.{
  ℕ, zero, suc, ◌+◌, ◌<◌, ◌≡◌, Bool, true, false, not, ◌&&◌, ◌||◌, Option, none, some, List, [],
  ◌∷◌, ◌++◌, Text, Bytes, codes, same, ltb, leb, ◌==◌, if◌then◌else◌, length, keep, find?, Result,
  ok, err, ◌>>=◌, attempt,
}
use mitools.Errors.{Cause}

pub record DocMeta : Type 0 where
  pub entity : Option Text
  pub version : Option ℕ
  pub expires_at : Option ℕ
  pub updated_at : Option ℕ

pub record RawRow : Type 0 where
  pub pk : Text
  pub entity : Option Text
  pub version : ℕ
  pub expires_at : Option ℕ
  pub updated_at : ℕ
  pub payload : Bytes

-- The table `blobs`.
abbrev pub Blobs : Type 0
Blobs = List RawRow

-- The `cbor` package: an encoder emits chunks or throws, a decoder returns a value or throws.
pub record Cbor (Value : Type 0) : Type 0 where
  pub chunks : Value → Result Cause (List Bytes)
  pub decode_first : Bytes → Result Cause Value

-- What the code relies on: a decoder reads back what all the chunks of an encoder spell.
pub record IsCodec {Value : Type 0} (cbor : Cbor Value) : Type 0 where
  pub decode_chunks :
      (v : Value) (cs : List Bytes) → cbor.chunks v ≡ ok cs → cbor.decode_first (flatten cs) ≡ ok v

-- `pk LIKE pattern ESCAPE '\'`: the pattern first, then the key.
abbrev pub LikeOperator : Type 0
LikeOperator = Text → Text → Bool

-- NOT_EXPIRED: `expires_at IS NULL OR expires_at > @now`
abbrev pub alive : Option ℕ → ℕ → Bool
alive none now = true
alive (some t) now = ltb now t

unfoldable pub not_expired : ℕ → RawRow → Bool
not_expired now row = alive row.expires_at now

abbrev pub backslash : ℕ
backslash = b'\\'

-- the characters of the class `[\\%_]`
unfoldable pub is_wildcard : ℕ → Bool
is_wildcard c = c == backslash || (c == b'%' || c == b'_')

unfoldable pub escape_wildcards : Text → Text
unfolding is_wildcard
escape_wildcards [] = []
escape_wildcards (c ∷ s) =
    let rest = escape_wildcards s in if is_wildcard c then backslash ∷ c ∷ rest else c ∷ rest

unfoldable pub like_prefix : Text → Text
unfolding escape_wildcards
like_prefix prefix = escape_wildcards prefix ++ b'%' ∷ []

unfoldable pub has_pk : Text → RawRow → Bool
has_pk pk row = same row.pk pk

unfoldable pub has_entity : Text → RawRow → Bool
has_entity entity row = elim row.entity [ none ↦ false | some name ↦ same name entity ]

-- INSERT ... ON CONFLICT(pk) DO UPDATE SET: every other column is taken from the new row.
unfoldable pub put : RawRow → Blobs → Blobs
unfolding has_pk
put row [] = row ∷ []
put row (r ∷ rest) = if has_pk row.pk r then row ∷ rest else r ∷ put row rest

-- DELETE ... WHERE: the number of changes, and what stays.
unfoldable pub delete_where : (RawRow → Bool) → Blobs → ℕ × Blobs
delete_where test db = (length (keep test db), keep (λ r. not (test r)) db)

module _ {Value : Type 0} (cbor : Cbor Value) where
  unfoldable pub encode_doc : Value → Result Cause Bytes
  encode_doc v = do cs ← cbor.chunks v; ok (flatten cs)

  unfoldable pub decode_doc : Bytes → Result Cause Value
  decode_doc payload = cbor.decode_first payload

-- The row that `upsertDoc` writes, with the defaults of its columns.
unfoldable pub row_of : Text → Bytes → DocMeta → ℕ → RawRow
row_of pk encoded meta now = record {
  pk = pk;
  entity = meta.entity;
  version = elim meta.version [ none ↦ 0 | some v ↦ v ];
  expires_at = meta.expires_at;
  updated_at = elim meta.updated_at [ none ↦ now | some t ↦ t ];
  payload = encoded;
}

-- A statement inside a transaction: it throws or returns, and leaves a table.
abbrev pub Tx : Type 0 → Type 0
Tx A = Blobs → Result Cause A × Blobs
