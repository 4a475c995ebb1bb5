-- ===== src/Docstore/Sync.antt =====
-- `makeSync` of persistence/docstore.ts: the statements that `Entity` composes in one transaction.
-- `fault` is what the driver throws, if it does; a statement that throws changes nothing.
use mitools.Prelude.{
  ℕ, Bool, ◌&&◌, Option, none, some, List, Text, Bytes, ltb, length, keep, find?, Result, ok, err,
  attempt,
}
use mitools.Errors.{Cause}
use mitools.Docstore.{
  RawRow, Blobs, DocMeta, Cbor, LikeOperator, Tx, not_expired, has_pk, put, delete_where, row_of,
  encode_doc, like_prefix,
}

unfoldable pub get_raw_row : Option Cause → Text → ℕ → Blobs → Result Cause (Option RawRow)
get_raw_row fault pk now db = attempt fault (find? (λ r. has_pk pk r && not_expired now r) db)

abbrev written : Option Cause → Bytes → RawRow → Tx ℕ
written none encoded row db = (ok (length encoded), put row db)
written (some cause) encoded row db = (err cause, db)

abbrev pub write_encoded : Option Cause → Text → Result Cause Bytes → DocMeta → ℕ → Tx ℕ
write_encoded fault pk (err cause) meta now db = (err cause, db)
write_encoded fault pk (ok encoded) meta now db =
    written fault encoded (row_of pk encoded meta now) db

-- The number of bytes written.
unfoldable pub upsert_doc :
    {Value : Type 0} → Cbor Value → Option Cause → Text → Value → DocMeta → ℕ → Tx ℕ
upsert_doc cbor fault pk v meta now db = write_encoded fault pk (encode_doc cbor v) meta now db

abbrev pub changed : {A : Type 0} → Option Cause → (ℕ → A) → ℕ × Blobs → Tx A
changed none result (n, db') db = (ok (result n), db')
changed (some cause) result (n, db') db = (err cause, db)

unfoldable pub delete_doc : Option Cause → Text → Tx Bool
delete_doc fault pk db = changed fault (λ n. ltb 0 n) (delete_where (has_pk pk) db) db

unfoldable pub get_raw_rows_by_prefix :
    LikeOperator → Option Cause → Text → Blobs → Result Cause (List RawRow)
get_raw_rows_by_prefix like fault prefix db =
    attempt fault (keep (λ r. like (like_prefix prefix) r.pk) db)
