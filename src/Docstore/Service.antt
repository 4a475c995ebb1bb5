-- ===== src/Docstore/Service.antt =====
-- `makeDocstore` of persistence/docstore.ts: the operations of the service. A read is a function of
-- the table; a write returns its result beside the table that it leaves. `now` is the clock's
-- answer. Debug logs are left out; the warnings are part of the results.
use Prim.Native.String.{String}
use mathlib.Core.List.{map}
use mitools.Prelude.{
  ℕ, ◌*◌, Bool, true, false, ◌&&◌, Option, none, some, List, [], ◌∷◌, ◌++◌, Text, codes, same, ltb,
  leb, if◌then◌else◌, length, keep, find?, any, take, Result, ok, err, ◌>>=◌, map_error, attempt,
}
use mitools.Errors.{Cause, OperationError, sync}
use mitools.Sqlite
use mitools.Docstore.{
  RawRow, Blobs, DocMeta, Cbor, LikeOperator, Tx, not_expired, has_pk, has_entity, delete_where,
  decode_doc, like_prefix,
}
use mitools.Docstore.Sync
use mitools.Docstore.Sync.{changed}

-- A point read met a row that cannot be decoded.
pub record CorruptRow : Type 0 where
  pub pk : Text
  pub cause : Cause

pub data ReadError : Type 0 where
  failed : OperationError → ReadError
  corrupt : CorruptRow → ReadError

-- LARGE_DOC_WARN_BYTES
abbrev pub large_doc_warn_bytes : ℕ
large_doc_warn_bytes = 256 * 1024

abbrev pub docstore : Text
docstore = codes "docstore"

abbrev pub in_sync : {A : Type 0} → String → Text → Result Cause A → Result OperationError A
in_sync label key = sync docstore (codes label ++ key)

-- `io.sync` of a write
abbrev pub sync_write :
    {A : Type 0} → Text → Result Cause A × Blobs → Result OperationError A × Blobs
sync_write label (r, db) = (sync docstore label r, db)

-- the tests of the WHERE clauses
unfoldable pub live_pk : Text → ℕ → RawRow → Bool
live_pk pk now r = has_pk pk r && not_expired now r

module _ (like : LikeOperator) where
  unfoldable pub with_prefix : Text → RawRow → Bool
  with_prefix prefix r = like (like_prefix prefix) r.pk

  unfoldable pub live_prefix : Text → ℕ → RawRow → Bool
  live_prefix prefix now r = with_prefix prefix r && not_expired now r

unfoldable pub live_entity : Text → ℕ → RawRow → Bool
live_entity entity now r = has_entity entity r && not_expired now r

unfoldable pub is_expired : ℕ → RawRow → Bool
is_expired now r = elim r.expires_at [ none ↦ false | some t ↦ leb t now ]

module _ {Value : Type 0} (cbor : Cbor Value) where
  -- One row of `decodeRows`: a value is pushed, a corrupt row is warned about and skipped.
  abbrev push_decoded :
      RawRow → Result Cause Value → List Value × List CorruptRow → List Value × List CorruptRow
  push_decoded row (ok v) (out, warned) = (v ∷ out, warned)
  push_decoded row (err cause) (out, warned) = (out, record { pk = row.pk; cause = cause } ∷ warned)

  unfoldable pub decode_rows : List RawRow → List Value × List CorruptRow
  decode_rows [] = ([], [])
  decode_rows (row ∷ rows) = push_decoded row (decode_doc cbor row.payload) (decode_rows rows)

  unfoldable pub decode_point : Text → Option RawRow → Result ReadError (Option Value)
  decode_point pk none = ok none
  decode_point pk (some row) =
      map_error (λ cause. corrupt (record { pk = pk; cause = cause }))
        (do v ← decode_doc cbor row.payload; ok (some v))

  unfoldable pub get_doc : Option Cause → ℕ → Text → Blobs → Result ReadError (Option Value)
  unfolding decode_point
  get_doc fault now pk db = do
    row ← map_error failed (in_sync "getDoc " pk (attempt fault (find? (live_pk pk now) db)))
    decode_point pk row

  unfoldable pub get_docs_by_prefix :
      LikeOperator
      → Option Cause
      → ℕ
      → Text
      → Blobs
      → Result OperationError (List Value × List CorruptRow)
  get_docs_by_prefix like fault now prefix db = do
    rows ← in_sync "getDocsByPrefix " prefix (attempt fault (keep (live_prefix like prefix now) db))
    ok (decode_rows rows)

  unfoldable pub get_docs_by_entity :
      Option Cause → ℕ → Text → Blobs → Result OperationError (List Value × List CorruptRow)
  get_docs_by_entity fault now entity db = do
    rows ← in_sync "getDocsByEntity " entity (attempt fault (keep (live_entity entity now) db))
    ok (decode_rows rows)

  -- Whether the payload was large enough for a warning.
  unfoldable pub upsert_doc :
      Option Cause → ℕ → Text → Value → DocMeta → Blobs → Result OperationError Bool × Blobs
  upsert_doc fault now pk v meta db =
      let (r, db') =
        sync_write (codes "upsertDoc " ++ pk) (Sync.upsert_doc cbor fault pk v meta now db) in
      ((do bytes ← r; ok (ltb large_doc_warn_bytes bytes)), db')

-- UPDATE ... SET expires_at, updated_at: the number of changes, and the rows.
abbrev pub touched : (RawRow → Bool) → Option ℕ → ℕ → Blobs → Blobs
touched test expires_at now [] = []
touched test expires_at now (r ∷ rest) =
    (if test r then record r { expires_at = expires_at; updated_at = now } else r)
    ∷ touched test expires_at now rest

unfoldable pub touch_doc :
    Option Cause → ℕ → Text → Option ℕ → Blobs → Result OperationError Bool × Blobs
touch_doc fault now pk expires_at db = sync_write (codes "touchDoc " ++ pk) (
    changed fault (λ n. ltb 0 n)
      (length (keep (live_pk pk now) db), touched (live_pk pk now) expires_at now db) db)

unfoldable pub delete_doc : Option Cause → Text → Blobs → Result OperationError Bool × Blobs
delete_doc fault pk db = sync_write (codes "deleteDoc " ++ pk) (Sync.delete_doc fault pk db)

unfoldable pub delete_docs_by_prefix :
    LikeOperator → Option Cause → Text → Blobs → Result OperationError ℕ × Blobs
delete_docs_by_prefix like fault prefix db =
    sync_write (codes "deleteDocsByPrefix " ++ prefix)
      (changed fault (λ n. n) (delete_where (with_prefix like prefix) db) db)

unfoldable pub delete_docs_by_entity : Option Cause → Text → Blobs → Result OperationError ℕ × Blobs
delete_docs_by_entity fault entity db =
    sync_write (codes "deleteDocsByEntity " ++ entity)
      (changed fault (λ n. n) (delete_where (has_entity entity) db) db)

abbrev pub is_found : Option RawRow → Bool
is_found none = false
is_found (some r) = true

unfoldable pub has_doc : Option Cause → ℕ → Text → Blobs → Result OperationError Bool
has_doc fault now pk db = do
  row ← in_sync "hasDoc " pk (attempt fault (find? (live_pk pk now) db))
  ok (is_found row)

unfoldable pub count_by_prefix :
    LikeOperator → Option Cause → ℕ → Text → Blobs → Result OperationError ℕ
count_by_prefix like fault now prefix db =
    in_sync "countByPrefix " prefix (attempt fault (length (keep (live_prefix like prefix now) db)))

unfoldable pub count_by_entity : Option Cause → ℕ → Text → Blobs → Result OperationError ℕ
count_by_entity fault now entity db =
    in_sync "countByEntity " entity (attempt fault (length (keep (live_entity entity now) db)))

unfoldable pub get_keys_by_prefix :
    LikeOperator → Option Cause → ℕ → Text → Blobs → Result OperationError (List Text)
get_keys_by_prefix like fault now prefix db = do
  rows ← in_sync "getKeysByPrefix " prefix (attempt fault (keep (live_prefix like prefix now) db))
  ok (map (λ r. r.pk) rows)

-- SELECT pk ... WHERE expires_at <= @now LIMIT @limit
unfoldable pub expired_keys : ℕ → ℕ → Blobs → List Text
expired_keys now limit db = take limit (map (λ r. r.pk) (keep (is_expired now) db))

unfoldable pub cleanup_expired : Option Cause → ℕ → ℕ → Blobs → Result OperationError ℕ × Blobs
cleanup_expired fault now limit db =
    sync_write (codes "cleanupExpired") (
      changed fault (λ n. n) (delete_where (λ r. any (same r.pk) (expired_keys now limit db)) db)
        db)

unfoldable pub get_raw_row : Option Cause → ℕ → Text → Blobs → Result OperationError (Option RawRow)
get_raw_row fault now pk db = in_sync "getRawRow " pk (Sync.get_raw_row fault pk now db)

unfoldable pub get_raw_rows_by_prefix :
    LikeOperator → Option Cause → Text → Blobs → Result OperationError (List RawRow)
get_raw_rows_by_prefix like fault prefix db =
    in_sync "getRawRowsByPrefix " prefix (Sync.get_raw_rows_by_prefix like fault prefix db)

unfoldable pub clear : Option Cause → Blobs → Result OperationError (Unit {0}) × Blobs
clear fault db =
    sync_write (codes "clear") (changed fault (λ n. tt) (delete_where (λ r. true) db) db)

-- The shared connection's transaction, its error under this module's name.
abbrev from_docstore : OperationError → OperationError
from_docstore e = record e { source = docstore }

unfoldable pub transaction :
    {A : Type 0} → Option Cause → Text → Tx A → Blobs → Result OperationError A × Blobs
unfolding Sqlite.transaction
transaction fault label fn db =
    let (r, db') = Sqlite.transaction fault label fn db in (map_error from_docstore r, db')
