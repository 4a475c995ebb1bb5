-- ===== src/Entity/Migration/Documents.antt =====
-- The rows of the table under a migration of persistence/entities.ts.
use mitools.Prelude.{
  ℕ, ◌≡◌, refl, ◌∙◌, subst, true, false, not, ◌&&◌, Option, none, some, List, [], ◌∷◌, ◌++◌, Text,
  Bytes, same, same_sound, starts_with, starts_with-append, any, Bool-cases, inl, inr, length, map,
  Result, ok, err, >>=-eq-ok, map_error, map_error-eq-ok,
}
use mitools.Errors.{Cause, OperationError}
use mitools.Docstore.{RawRow, Blobs, Cbor, LikeOperator, row_of, encode_doc, delete_where}
use mitools.Docstore.Sync
use mitools.Docstore.Service
use mitools.Docstore.Like.{IsLike}
use mitools.Docstore.Keys.{IsKeyed}
use mitools.Entity.{Numbers, Document, Entity, get_pk, key_prefix, join_hash, encode_parts}
use mitools.Entity.Migration.{
  RowFaults, Caught, thrown, bad_key, Progress, upgraded, target, unchanged, row_meta,
  migrate_target, migrate_row, migrate_each, migrate_rows, migrate_found, migrate, delete_old,
}
use mitools.Entity.Migration.Start.{Pending-start}
use mitools.Entity.Migration.Rows.{Pending, Pending-drop, Pending-claim, Pending-put, Pending-move}

module _ {Number : Type 0} (numbers : Numbers Number) (self : Entity Number) where
  get_pk-prefix :
      (doc : Document Number) (k : Text)
      → get_pk numbers self doc ≡ ok k
      → starts_with (key_prefix self.name) k ≡ true
  unfolding get_pk
  get_pk-prefix doc k h =
      let (ps, _, e) = >>=-eq-ok (encode_parts numbers self.name self.pk_props doc) _ h in
      let e' : key_prefix self.name ++ join_hash ps ≡ k = cc e in
      subst (λ t. starts_with (key_prefix self.name) t ≡ true) e'
        (starts_with-append (key_prefix self.name) (join_hash ps))

module _ {Number : Type 0} (numbers : Numbers Number) (cbor : Cbor (Document Number))
    (self : Entity Number) (faults : RowFaults) (now : ℕ)
    (no_fault : (pk : Text) → faults.deleting pk ≡ none) where
  target-prefix :
      (row : RawRow) (doc : Document Number) (pk : Text)
      → target numbers cbor self faults now row ≡ ok (doc, pk)
      → starts_with (key_prefix self.name) pk ≡ true
  unfolding target
  target-prefix row doc pk h =
      let (d, _, h') =
        >>=-eq-ok (map_error thrown (upgraded numbers cbor self faults now row)) _ h in
      let (k, hk, e) = >>=-eq-ok (map_error bad_key (get_pk numbers self d)) _ h' in
      let e' : k ≡ pk = cc e in
      get_pk-prefix numbers self d pk
        (map_error-eq-ok bad_key (get_pk numbers self d) (rw e' at hk))

  -- The state of the loop keeps its promise for the rows that are left, and the size of the table.
  abbrev Keeps : List RawRow → Blobs → Progress Number × Blobs → Type 0
  Keeps rows db (p, db') =
      Pending (key_prefix self.name) p.claimed rows db' × (length db' ≡ length db)

  module _ (row : RawRow) (rows : List RawRow) (p : Progress Number) (db : Blobs) where
    rewrite-Keeps :
        (pk : Text) (doc : Document Number) (fault : Option Cause) (r : Result Cause Bytes)
        → Pending (key_prefix self.name) p.claimed (row ∷ rows) db
        → starts_with (key_prefix self.name) pk ≡ true
        → not (same pk row.pk) && any (same pk) p.claimed ≡ false
        → Keeps rows db (
            delete_old numbers cbor self faults now row pk
              (record p { claimed = pk ∷ p.claimed })
              (Sync.write_encoded fault pk r (row_meta numbers cbor self faults now row) now db))
    unfolding Sync.delete_doc row_of delete_where
    rewrite-Keeps pk doc none (ok bytes) pending pre free = elim (Bool-cases (same pk row.pk)) [
      | inl e ↦ rw e (
          Pending-put row (row_of pk bytes (row_meta numbers cbor self faults now row) now) pending
            (same_sound pk row.pk e))
      | inr e ↦
          rw (e, Sync.delete_doc, no_fault row.pk)
            (Pending-move row (row_of pk bytes (row_meta numbers cbor self faults now row) now)
              pending e (rw e at free) pre)
    ]
    rewrite-Keeps pk doc (some cause) (ok bytes) pending pre free =
        (Pending-claim pk (Pending-drop row pending), refl)
    rewrite-Keeps pk doc none (err cause) pending pre free =
        (Pending-claim pk (Pending-drop row pending), refl)
    rewrite-Keeps pk doc (some f) (err cause) pending pre free =
        (Pending-claim pk (Pending-drop row pending), refl)

    migrated-Keeps :
        (r : Result (Caught Number) (Document Number × Text))
        → target numbers cbor self faults now row ≡ r
        → Pending (key_prefix self.name) p.claimed (row ∷ rows) db
        → Keeps rows db (migrate_target numbers cbor self faults now row r p db)
    unfolding Sync.upsert_doc
    migrated-Keeps (err c) e pending = (Pending-drop row pending, refl)
    migrated-Keeps (ok (doc, pk)) e pending =
        elim (Bool-cases (unchanged numbers cbor self faults now row pk)) [
          | inl u ↦ rw u (Pending-drop row pending, refl)
          | inr u ↦ elim (Bool-cases (not (same pk row.pk) && any (same pk) p.claimed)) [
            | inl o ↦ rw (u, o) (Pending-drop row pending, refl)
            | inr o ↦
                rw (u, o)
                  (rewrite-Keeps pk doc (faults.writing pk) (encode_doc cbor doc) pending
                    (target-prefix row doc pk e) o)
          ]
        ]

  each-Keeps :
      (rows : List RawRow) (p : Progress Number) (db : Blobs)
      → Pending (key_prefix self.name) p.claimed rows db
      → Keeps [] db (migrate_each numbers cbor self faults now rows (p, db))
  unfolding migrate_each migrate_row
  each-Keeps [] p db pending = (pending, refl)
  each-Keeps (row ∷ rows) p db pending =
      let (after_row, one) =
        migrated-Keeps row rows p db (target numbers cbor self faults now row) refl pending in
      let s = migrate_row numbers cbor self faults now row (p, db) in
      let (after_all, rest) = each-Keeps rows s.0 s.1 after_row in (after_all, rest ∙ one)

  abbrev pub Kept : Blobs → Result OperationError (Progress Number) × Blobs → Type 0
  Kept db (ok p, db') = IsKeyed db' × (length db' ≡ length db)
  Kept db (err e, db') = db' ≡ db

  found-Kept :
      (committing : Option Cause) (rows : List RawRow) (db : Blobs)
      → Pending (key_prefix self.name) (map (λ r. r.pk) rows) rows db
      → Kept db (migrate_found numbers cbor self faults now committing (ok rows) db)
  unfolding migrate_rows Service.transaction
  found-Kept none rows db pending =
      let (pending', size) = each-Keeps rows _ db pending in (pending'.keyed, size)
  found-Kept (some cause) rows db pending = refl

  -- On a table with one row for each key, when no delete throws: a migration that succeeds leaves
  -- one row for each key and as many rows as there were, whichever rows cannot be decoded, upgraded,
  -- keyed or written, and where keys collide; one that fails leaves the table as it was.
  pub migrate-length :
      (like : LikeOperator) (laws : IsLike like) (reading committing : Option Cause) (db : Blobs)
      → IsKeyed db
      → Kept db (migrate numbers cbor self faults now like reading committing db)
  unfolding migrate Service.get_raw_rows_by_prefix Sync.get_raw_rows_by_prefix
  migrate-length like laws (some cause) committing db k = refl
  migrate-length like laws none committing db k =
      found-Kept committing _ db (Pending-start like laws (key_prefix self.name) db k)
