-- ===== src/Docstore/Lookup.antt =====
-- What a point read returns, and what it returns after each write.
use mathlib.Core.List.{flatten}
use mitools.Prelude.{
  ℕ, ◌≡◌, refl, not, Option, none, some, List, [], ◌∷◌, Text, Bytes, same, same_sound, same_refl,
  keep, ltb, if◌then◌else◌, arith, Bool-cases, inl, inr, ok, >>=-eq-ok, length,
}
use mitools.Docstore.{
  RawRow, Blobs, DocMeta, Cbor, IsCodec, alive, not_expired, has_pk, put, encode_doc, decode_doc,
  row_of, delete_where,
}
use mitools.Docstore.Sync
use mitools.Docstore.Service.{
  touched, live_pk, large_doc_warn_bytes, decode_point, get_doc, upsert_doc, touch_doc, delete_doc,
}
use mitools.Docstore.Keys.{
  row_at, IsKeyed, only, find-only, row_at-put, put-IsKeyed, row_at-keep, keep-IsKeyed, touch?,
  row_at-touched, touched-IsKeyed,
}

abbrev pub IsAtKey : Text → Option RawRow → Type 0
IsAtKey pk none = Unit
IsAtKey pk (some r) = r.pk ≡ pk

pub row_at-IsAtKey : (pk : Text) (db : Blobs) → IsAtKey pk (row_at pk db)
unfolding row_at has_pk
row_at-IsAtKey pk [] = tt
row_at-IsAtKey pk (r ∷ rest) = elim (Bool-cases (same r.pk pk)) [
  | inl e ↦ rw e (same_sound r.pk pk e)
  | inr e ↦ rw e (row_at-IsAtKey pk rest)
]

module _ {Value : Type 0} (cbor : Cbor Value) where
  -- A point read is the row of the key, if it has not expired, decoded.
  pub get_doc-row_at :
      (now : ℕ) (pk : Text) (db : Blobs)
      → IsKeyed db
      → get_doc cbor none now pk db ≡ decode_point cbor pk (only (not_expired now) (row_at pk db))
  unfolding get_doc live_pk
  get_doc-row_at now pk db k = rw (find-only (not_expired now) pk db k)

  upsert_doc_lem :
      (t : ℕ) (pk : Text) (v : Value) (meta : DocMeta) (db : Blobs) (cs : List Bytes)
      → cbor.chunks v ≡ ok cs
      → upsert_doc cbor none t pk v meta db ≡ (
        ok (ltb large_doc_warn_bytes (length (flatten cs))),
        put (row_of pk (flatten cs) meta t) db,
      )
  unfolding upsert_doc Sync.upsert_doc encode_doc
  upsert_doc_lem t pk v meta db cs e = rw e

  pub decode_doc-encode_doc :
      (codec : IsCodec cbor) (v : Value) (bytes : Bytes)
      → encode_doc cbor v ≡ ok bytes
      → decode_doc cbor bytes ≡ ok v
  unfolding encode_doc decode_doc
  decode_doc-encode_doc codec v bytes h =
      let (cs, hcs, e) = >>=-eq-ok (cbor.chunks v) _ h in
      let e' : flatten cs ≡ bytes = cc e in rw (← e') (codec.decode_chunks v cs hcs)

  decode_written :
      (codec : IsCodec cbor) (now t : ℕ) (pk j : Text) (v : Value) (meta : DocMeta)
      (cs : List Bytes)
      → cbor.chunks v ≡ ok cs
      → decode_point cbor j (only (not_expired now) (some (row_of pk (flatten cs) meta t)))
        ≡ ok (if alive meta.expires_at now then some v else none)
  unfolding decode_point decode_doc row_of not_expired
  decode_written codec now t pk j v meta cs e = elim (Bool-cases (alive meta.expires_at now)) [
    | inl live ↦ rw (live, codec.decode_chunks v cs e)
    | inr gone ↦ rw gone
  ]

  -- On a table with one row for each key: after an upsert that the encoder and the driver accept, a
  -- read of its key returns the value, or nothing once the expiry of the upsert has passed, and a
  -- read of any other key is what it was before.
  pub get_doc-upsert_doc :
      (codec : IsCodec cbor) (now t : ℕ) (pk j : Text) (v : Value) (meta : DocMeta) (db : Blobs)
      (cs : List Bytes)
      → IsKeyed db
      → cbor.chunks v ≡ ok cs
      → get_doc cbor none now j (upsert_doc cbor none t pk v meta db).1 ≡ (
          if same pk j
          then ok (if alive meta.expires_at now then some v else none)
          else get_doc cbor none now j db)
  unfolding row_of
  get_doc-upsert_doc codec now t pk j v meta db cs k e =
      rw
        (
          upsert_doc_lem t pk v meta db cs e,
          get_doc-row_at now j (put (row_of pk (flatten cs) meta t) db) (put-IsKeyed _ db k),
          get_doc-row_at now j db k,
          row_at-put,
        )
        (elim (Bool-cases (same pk j)) [
          | inl e' ↦ rw e' (decode_written codec now t pk j v meta cs e)
          | inr e' ↦ rw e'
        ])

  -- A read of the row that an upsert wrote.
  pub get_doc-put :
      (codec : IsCodec cbor) (now t : ℕ) (pk : Text) (v : Value) (bytes : Bytes) (meta : DocMeta)
      (db : Blobs)
      → IsKeyed db
      → encode_doc cbor v ≡ ok bytes
      → get_doc cbor none now pk (put (row_of pk bytes meta t) db)
        ≡ ok (if alive meta.expires_at now then some v else none)
  unfolding row_of decode_point not_expired
  get_doc-put codec now t pk v bytes meta db k e =
      rw
        (
          get_doc-row_at now pk (put (row_of pk bytes meta t) db) (put-IsKeyed _ db k),
          row_at-put,
          same_refl pk,
        )
        (elim (Bool-cases (alive meta.expires_at now)) [
          | inl live ↦ rw (live, decode_doc-encode_doc codec v bytes e)
          | inr gone ↦ rw gone
        ])

  decode_touched :
      (now t : ℕ) (pk j : Text) (e : Option ℕ) (o : Option RawRow)
      → decode_point cbor j (only (not_expired now) (touch? (live_pk pk t) e t o))
        ≡ decode_point cbor j
            (only (λ r. if live_pk pk t r then alive e now else not_expired now r) o)
  unfolding not_expired decode_point
  decode_touched now t pk j e none = refl
  decode_touched now t pk j e (some r) = elim (Bool-cases (live_pk pk t r)) [
    | inl hit ↦ elim (Bool-cases (alive e now)) [
      | inl live ↦ rw (hit, live)
      | inr gone ↦ rw (hit, gone)
    ]
    | inr miss ↦ rw miss
  ]

  -- On a table with one row for each key: after a touch that the driver accepts, a read of any key
  -- decodes the row that was there before, the touched row until its new expiry if it was live at
  -- the time of the touch, and every other row until its own.
  pub get_doc-touch_doc :
      (now t : ℕ) (pk j : Text) (e : Option ℕ) (db : Blobs)
      → IsKeyed db
      → get_doc cbor none now j (touch_doc none t pk e db).1
        ≡ decode_point cbor j
            (only (λ r. if live_pk pk t r then alive e now else not_expired now r) (row_at j db))
  unfolding touch_doc
  get_doc-touch_doc now t pk j e db k =
      rw
        (
          get_doc-row_at now j (touched (live_pk pk t) e t db) (touched-IsKeyed _ e t db k),
          row_at-touched (live_pk pk t) e t j db,
        )
        (decode_touched now t pk j e (row_at j db))

  only_other :
      (now : ℕ) (pk j : Text) (o : Option RawRow)
      → IsAtKey j o
      → decode_point cbor j (only (not_expired now) (only (λ r. not (has_pk pk r)) o))
        ≡ (if same j pk then ok none else decode_point cbor j (only (not_expired now) o))
  unfolding decode_point has_pk
  only_other now pk j none h = ground arith
  only_other now pk j (some r) h = elim (Bool-cases (same j pk)) [
    | inl e ↦ rw (h, e)
    | inr e ↦ rw (h, e)
  ]

  -- On a table with one row for each key: after a delete that the driver accepts, a read of its key
  -- finds nothing, and a read of any other key is what it was before.
  pub get_doc-delete_doc :
      (now : ℕ) (pk j : Text) (db : Blobs)
      → IsKeyed db
      → get_doc cbor none now j (delete_doc none pk db).1
        ≡ (if same j pk then ok none else get_doc cbor none now j db)
  unfolding delete_doc Sync.delete_doc delete_where
  get_doc-delete_doc now pk j db k =
      rw
        (
          get_doc-row_at now j (keep (λ r. not (has_pk pk r)) db) (keep-IsKeyed _ db k),
          get_doc-row_at now j db k,
          row_at-keep (λ r. not (has_pk pk r)) j db k,
        )
        (only_other now pk j (row_at j db) (row_at-IsAtKey j db))
