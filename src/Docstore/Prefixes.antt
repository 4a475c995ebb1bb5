-- ===== src/Docstore/Prefixes.antt =====
-- Deletes by a prefix and by an entity in persistence/docstore.ts: what a point read finds after them.
use mitools.Prelude.{
  ℕ, ◌≡◌, not, Option, none, some, Text, keep, if◌then◌else◌, Bool-cases, inl, inr, ok,
}
use mitools.Docstore.{RawRow, Blobs, Cbor, LikeOperator, not_expired, delete_where}
use mitools.Docstore.Service.{with_prefix, decode_point, get_doc, delete_docs_by_prefix}
use mitools.Docstore.Like.{IsLike, starts_with_fold, like-like_prefix}
use mitools.Docstore.Keys.{row_at, IsKeyed, only, row_at-keep, keep-IsKeyed}
use mitools.Docstore.Lookup.{get_doc-row_at, IsAtKey, row_at-IsAtKey}

module _ {Value : Type 0} (cbor : Cbor Value) (like : LikeOperator) (laws : IsLike like) where
  only_outside :
      (now : ℕ) (prefix j : Text) (o : Option RawRow)
      → IsAtKey j o
      → decode_point cbor j (only (not_expired now) (only (λ r. not (with_prefix like prefix r)) o))
        ≡ (if starts_with_fold prefix j
            then ok none
            else decode_point cbor j (only (not_expired now) o))
  unfolding decode_point with_prefix
  only_outside now prefix j none h = elim (Bool-cases (starts_with_fold prefix j)) [
    | inl e ↦ rw e
    | inr e ↦ rw e
  ]
  only_outside now prefix j (some r) h = elim (Bool-cases (starts_with_fold prefix j)) [
    | inl e ↦ rw (h, like-like_prefix like laws prefix j, e)
    | inr e ↦ rw (h, like-like_prefix like laws prefix j, e)
  ]

  -- On a table with one row for each key, and under the documented clauses of LIKE: after a delete
  -- by a prefix that the driver accepts, a read of a key that starts with the prefix, up to the case
  -- of ASCII letters, finds nothing, and a read of any other key is what it was before. So a wildcard
  -- in the prefix deletes no key but those that have this character there.
  pub get_doc-delete_docs_by_prefix :
      (now : ℕ) (prefix j : Text) (db : Blobs)
      → IsKeyed db
      → get_doc cbor none now j (delete_docs_by_prefix like none prefix db).1
        ≡ (if starts_with_fold prefix j then ok none else get_doc cbor none now j db)
  unfolding delete_docs_by_prefix delete_where
  get_doc-delete_docs_by_prefix now prefix j db k =
      rw
        (
          get_doc-row_at cbor now j (keep (λ r. not (with_prefix like prefix r)) db)
              (keep-IsKeyed _ db k),
          get_doc-row_at cbor now j db k,
          row_at-keep (λ r. not (with_prefix like prefix r)) j db k,
        )
        (only_outside now prefix j (row_at j db) (row_at-IsAtKey j db))
