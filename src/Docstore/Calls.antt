-- ===== src/Docstore/Calls.antt =====
-- Every write of the service, as a call: what it keeps, and what a failure leaves.
use mitools.Prelude.{ℕ, ◌≡◌, refl, true, not, Option, none, some, Text, Bytes, Result, ok, err}
use mitools.Errors.{Cause}
use mitools.Docstore.{Blobs, DocMeta, Cbor, LikeOperator, encode_doc, row_of, delete_where}
use mitools.Docstore.Sync
use mitools.Docstore.Service.{
  upsert_doc, touch_doc, delete_doc, delete_docs_by_prefix, delete_docs_by_entity, cleanup_expired,
  clear, live_pk,
}
use mitools.Docstore.Keys.{IsKeyed, put-IsKeyed, keep-IsKeyed, touched-IsKeyed}

pub data Call (Value : Type 0) : Type 0 where
  upserts : Text → Value → DocMeta → Call Value
  touches : Text → Option ℕ → Call Value
  deletes deletes_prefix deletes_entity : Text → Call Value
  cleans_up : ℕ → Call Value
  clears : Call Value

write_fault :
    (cause : Cause) (pk : Text) (r : Result Cause Bytes) (meta : DocMeta) (now : ℕ) (db : Blobs)
    → (Sync.write_encoded (some cause) pk r meta now db).1 ≡ db
write_fault cause pk (ok encoded) meta now db = refl
write_fault cause pk (err c) meta now db = refl

write-IsKeyed :
    (pk : Text) (r : Result Cause Bytes) (meta : DocMeta) (now : ℕ) (db : Blobs)
    → IsKeyed db
    → IsKeyed (Sync.write_encoded none pk r meta now db).1
write-IsKeyed pk (ok encoded) meta now db k = put-IsKeyed (row_of pk encoded meta now) db k
write-IsKeyed pk (err c) meta now db k = k

module _ {Value : Type 0} (cbor : Cbor Value) (like : LikeOperator) where
  -- The table that a call leaves.
  unfoldable pub perform : Option Cause → ℕ → Call Value → Blobs → Blobs
  perform fault now (upserts pk v meta) db = (upsert_doc cbor fault now pk v meta db).1
  perform fault now (touches pk e) db = (touch_doc fault now pk e db).1
  perform fault now (deletes pk) db = (delete_doc fault pk db).1
  perform fault now (deletes_prefix prefix) db = (delete_docs_by_prefix like fault prefix db).1
  perform fault now (deletes_entity entity) db = (delete_docs_by_entity fault entity db).1
  perform fault now (cleans_up limit) db = (cleanup_expired fault now limit db).1
  perform fault now clears db = (clear fault db).1

  -- A writing call whose statement the driver refuses leaves the table as it was.
  perform_fault :
      (cause : Cause) (now : ℕ) (call : Call Value) (db : Blobs)
      → perform (some cause) now call db ≡ db
  unfolding perform upsert_doc Sync.upsert_doc touch_doc delete_doc Sync.delete_doc
      delete_docs_by_prefix delete_docs_by_entity cleanup_expired clear
  perform_fault cause now (upserts pk v meta) db =
      write_fault cause pk (encode_doc cbor v) meta now db
  perform_fault cause now _ db = refl

  perform_keeps :
      (now : ℕ) (call : Call Value) (db : Blobs) → IsKeyed db → IsKeyed (perform none now call db)
  unfolding perform upsert_doc Sync.upsert_doc touch_doc delete_doc Sync.delete_doc
      delete_docs_by_prefix delete_docs_by_entity cleanup_expired clear delete_where
  perform_keeps now (upserts pk v meta) db k = write-IsKeyed pk (encode_doc cbor v) meta now db k
  perform_keeps now (touches pk e) db k = touched-IsKeyed (live_pk pk now) e now db k
  perform_keeps now (deletes pk) db k = keep-IsKeyed _ db k
  perform_keeps now (deletes_prefix prefix) db k = keep-IsKeyed _ db k
  perform_keeps now (deletes_entity entity) db k = keep-IsKeyed _ db k
  perform_keeps now (cleans_up limit) db k = keep-IsKeyed _ db k
  perform_keeps now clears db k = keep-IsKeyed (λ r. not true) db k

  -- Every writing call of the service, failing or not, keeps one row for each key.
  pub perform-IsKeyed :
      (fault : Option Cause) (now : ℕ) (call : Call Value) (db : Blobs)
      → IsKeyed db
      → IsKeyed (perform fault now call db)
  perform-IsKeyed none now call db k = perform_keeps now call db k
  perform-IsKeyed (some cause) now call db k = rw (perform_fault cause now call db) k
