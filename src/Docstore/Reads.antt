-- ===== src/Docstore/Reads.antt =====
-- The reads of persistence/docstore.ts against the rows that are live.
use mitools.Prelude.{
  ℕ, ◌+◌, ◌≡◌, refl, Bool, ◌&&◌, Option, none, List, [], ◌∷◌, Text, arith, keep, find?, length, ok,
  inl, inr, Result-cases,
}
use mitools.Errors.{Cause}
use mitools.Docstore.{
  RawRow, Blobs, Cbor, LikeOperator, not_expired, has_pk, has_entity, decode_doc,
}
use mitools.Docstore.Sync
use mitools.Docstore.Service.{
  CorruptRow, decode_rows, get_doc, get_docs_by_prefix, get_docs_by_entity, has_doc,
  count_by_prefix, count_by_entity, get_keys_by_prefix, get_raw_row, live_pk, live_prefix,
  live_entity, with_prefix,
}

-- The table without its expired rows.
abbrev pub visible : ℕ → Blobs → Blobs
visible now = keep (not_expired now)

module _ (test : RawRow → Bool) (now : ℕ) where
  keep-visible :
      (db : Blobs)
      → keep (λ r. test r && not_expired now r) (visible now db)
        ≡ keep (λ r. test r && not_expired now r) db
  keep-visible [] = refl
  keep-visible (r ∷ rest) = ground (arith, keep-visible rest)

  find-visible :
      (db : Blobs)
      → find? (λ r. test r && not_expired now r) (visible now db)
        ≡ find? (λ r. test r && not_expired now r) db
  find-visible [] = refl
  find-visible (r ∷ rest) = ground (arith, find-visible rest)

-- Every read of the service but the raw rows of a migration answers, failures of the driver
-- included, as if the expired rows were not in the table.
pub reads-visible :
    {Value : Type 0} (cbor : Cbor Value) (like : LikeOperator) (fault : Option Cause) (now : ℕ)
    (key : Text) (db : Blobs)
    → (get_doc cbor fault now key (visible now db) ≡ get_doc cbor fault now key db)
      × (get_docs_by_prefix cbor like fault now key (visible now db)
          ≡ get_docs_by_prefix cbor like fault now key db)
      × (get_docs_by_entity cbor fault now key (visible now db)
          ≡ get_docs_by_entity cbor fault now key db)
      × (has_doc fault now key (visible now db) ≡ has_doc fault now key db)
      × (count_by_prefix like fault now key (visible now db)
          ≡ count_by_prefix like fault now key db)
      × (count_by_entity fault now key (visible now db) ≡ count_by_entity fault now key db)
      × (get_keys_by_prefix like fault now key (visible now db)
          ≡ get_keys_by_prefix like fault now key db)
      × (get_raw_row fault now key (visible now db) ≡ get_raw_row fault now key db)
unfolding get_doc get_docs_by_prefix get_docs_by_entity has_doc count_by_prefix count_by_entity
    get_keys_by_prefix get_raw_row Sync.get_raw_row live_pk live_prefix live_entity
reads-visible cbor like fault now key db = (
  rw (find-visible (has_pk key) now db),
  rw (keep-visible (with_prefix like key) now db),
  rw (keep-visible (has_entity key) now db),
  rw (find-visible (has_pk key) now db),
  rw (keep-visible (with_prefix like key) now db),
  rw (keep-visible (has_entity key) now db),
  rw (keep-visible (with_prefix like key) now db),
  rw (find-visible (has_pk key) now db),
)

module _ {Value : Type 0} (cbor : Cbor Value) where
  length-decode_rows :
      (rows : List RawRow)
      → length (decode_rows cbor rows).0 + length (decode_rows cbor rows).1 ≡ length rows
  unfolding decode_rows
  length-decode_rows [] = omega arith
  length-decode_rows (row ∷ rows) = elim (Result-cases (decode_doc cbor row.payload)) [
    | inl (v, e) ↦ rw e (omega (arith, length-decode_rows rows))
    | inr (c, e) ↦ rw e (omega (arith, length-decode_rows rows))
  ]

  -- When a read of an entity's documents returns, the documents and the warnings together are as
  -- many as the count of the entity says.
  pub count-get_docs_by_entity :
      (now : ℕ) (entity : Text) (db : Blobs) (docs : List Value) (warned : List CorruptRow)
      → get_docs_by_entity cbor none now entity db ≡ ok (docs, warned)
      → count_by_entity none now entity db ≡ ok (length docs + length warned)
  unfolding get_docs_by_entity count_by_entity
  count-get_docs_by_entity now entity db docs warned h =
      ground (arith, length-decode_rows (keep (live_entity entity now) db))
