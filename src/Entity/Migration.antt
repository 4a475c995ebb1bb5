-- ===== src/Entity/Migration.antt =====
-- `migrate`, `migrateRows` and `migrateAll` of persistence/entities.ts: the loop over the rows of an
-- entity inside one transaction, each row under its own `try`.
pub mod Rows
pub mod Start
pub mod Documents
use mitools.Prelude.{
  ℕ, zero, suc, ◌+◌, ◌<◌, Bool, true, false, not, ◌&&◌, Option, none, some, List, [], ◌∷◌, ◌++◌,
  Text, codes, same, any, ltb, ◌==◌, if◌then◌else◌, map, Result, ok, err, ◌>>=◌, map_error,
}
use mitools.Errors.{Cause, OperationError}
use mitools.Docstore.{RawRow, Blobs, DocMeta, Cbor, LikeOperator, Tx, decode_doc}
use mitools.Docstore.Sync
use mitools.Docstore.Service
use mitools.Entity.{Numbers, Document, InvalidKey, Entity, get_pk, key_prefix}

-- What the driver throws when a row is written or deleted, by the key of the row.
pub record RowFaults : Type 0 where
  pub writing : Text → Option Cause
  pub deleting : Text → Option Cause

-- What a row's `try` catches: a thrown value, or the key builder's rejection.
pub data Caught (Number : Type 0) : Type 0 where
  thrown : Cause → Caught Number
  bad_key : InvalidKey Number → Caught Number

pub data Warning (Number : Type 0) : Type 0 where
  occupied : Text → Text → Warning Number
  failed : Text → Caught Number → Warning Number

-- The variables of the loop.
pub record Progress (Number : Type 0) : Type 0 where
  pub claimed : List Text
  pub migrated : ℕ
  pub skipped : ℕ
  pub warnings : List (Warning Number)

-- `row.updated_at || now`
abbrev updated_or : ℕ → ℕ → ℕ
updated_or t now = if t == 0 then now else t

abbrev named : Text → Option Text → Bool
named name none = false
named name (some entity) = same entity name

module _ {Number : Type 0} (numbers : Numbers Number) (cbor : Cbor (Document Number))
    (self : Entity Number) (faults : RowFaults) (now : ℕ) where
  -- the payload, upgraded if the row's version is older
  unfoldable pub upgraded : RawRow → Result Cause (Document Number)
  upgraded row = do
    doc ← decode_doc cbor row.payload
    elim self.migrate_fn [
      | none ↦ ok doc
      | some f ↦ if ltb row.version self.version then f doc row.version else ok doc
    ]

  -- the payload and its key in the current representation
  unfoldable pub target : RawRow → Result (Caught Number) (Document Number × Text)
  unfolding upgraded
  target row = do
    doc ← map_error thrown (upgraded row)
    new_pk ← map_error bad_key (get_pk numbers self doc)
    ok (doc, new_pk)

  unfoldable pub unchanged : RawRow → Text → Bool
  unchanged row new_pk =
      same new_pk row.pk && (named self.name row.entity && row.version == self.version)

  unfoldable pub row_meta : RawRow → DocMeta
  row_meta row = record {
    entity = some self.name;
    version = some self.version;
    expires_at = row.expires_at;
    updated_at = some (updated_or row.updated_at now);
  }

  abbrev skip : Progress Number → Warning Number → Progress Number
  skip p warning = record p { skipped = suc p.skipped; warnings = p.warnings ++ warning ∷ [] }

  -- the end of a row: a thrown value is warned about
  abbrev finish :
      {A : Type 0} → RawRow → Progress Number → Result Cause A × Blobs → Progress Number × Blobs
  finish row p (ok n, db) = (record p { migrated = suc p.migrated }, db)
  finish row p (err cause, db) = (skip p (failed row.pk (thrown cause)), db)

  -- `if (newPk !== row.pk) tx.deleteDoc(row.pk)`
  abbrev delete_old :
      {A : Type 0}
      → RawRow
      → Text
      → Progress Number
      → Result Cause A × Blobs
      → Progress Number × Blobs
  delete_old row new_pk p (err cause, db) = finish {A = Bool} row p (err cause, db)
  delete_old row new_pk p (ok n, db) =
      if same new_pk row.pk
      then finish row p (ok true, db)
      else finish row p (Sync.delete_doc (faults.deleting row.pk) row.pk db)

  abbrev rewrite :
      RawRow → Document Number → Text → Progress Number → Blobs → Progress Number × Blobs
  rewrite row doc new_pk p db =
      delete_old row new_pk (record p { claimed = new_pk ∷ p.claimed })
        (Sync.upsert_doc cbor (faults.writing new_pk) new_pk doc (row_meta row) now db)

  abbrev migrate_target :
      RawRow
      → Result (Caught Number) (Document Number × Text)
      → Progress Number
      → Blobs
      → Progress Number × Blobs
  migrate_target row (err caught) p db = (skip p (failed row.pk caught), db)
  migrate_target row (ok (doc, new_pk)) p db =
      if unchanged row new_pk
      then (p, db)
      else if not (same new_pk row.pk) && any (same new_pk) p.claimed
      then (skip p (occupied row.pk new_pk), db)
      else rewrite row doc new_pk p db

  unfoldable pub migrate_row : RawRow → Progress Number × Blobs → Progress Number × Blobs
  migrate_row row (p, db) = migrate_target row (target row) p db

  unfoldable pub migrate_each : List RawRow → Progress Number × Blobs → Progress Number × Blobs
  migrate_each [] s = s
  migrate_each (row ∷ rows) s = migrate_each rows (migrate_row row s)

  -- `migrateRows`: the keys that hold a row are claimed from the start.
  unfoldable pub migrate_rows : List RawRow → Tx (Progress Number)
  migrate_rows rows db =
      let (p, db') =
        migrate_each rows (
          record { claimed = map (λ r. r.pk) rows; migrated = 0; skipped = 0; warnings = [] },
          db,
        ) in
      (ok p, db')

  abbrev migrate_found :
      Option Cause
      → Result OperationError (List RawRow)
      → Blobs
      → Result OperationError (Progress Number) × Blobs
  migrate_found committing (err e) db = (err e, db)
  migrate_found committing (ok rows) db =
      Service.transaction committing (codes "Entity.migrate " ++ self.name) (migrate_rows rows) db

  unfoldable pub migrate :
      LikeOperator
      → Option Cause
      → Option Cause
      → Blobs
      → Result OperationError (Progress Number) × Blobs
  migrate like reading committing db =
      migrate_found committing
        (Service.get_raw_rows_by_prefix like reading (key_prefix self.name) db) db

module _ {Number : Type 0} (numbers : Numbers Number) (cbor : Cbor (Document Number))
    (like : LikeOperator) (faults : RowFaults) (now : ℕ) (reading committing : Option Cause) where
  abbrev total_of :
      Result OperationError (Progress Number) × Blobs → Result OperationError ℕ × Blobs
  total_of (ok p, db) = (ok p.migrated, db)
  total_of (err e, db) = (err e, db)

  abbrev next_entity :
      Result OperationError ℕ × Blobs
      → (ℕ → Blobs → Result OperationError ℕ × Blobs)
      → Result OperationError ℕ × Blobs
  next_entity (ok n, db) f = f n db
  next_entity (err e, db) f = (err e, db)

  -- `migrateAll` over the registry; a failing entity ends it, and what came before stays.
  unfoldable pub migrate_all : List (Entity Number) → ℕ → Blobs → Result OperationError ℕ × Blobs
  migrate_all [] total db = (ok total, db)
  migrate_all (self ∷ registry) total db =
      next_entity (total_of (migrate numbers cbor self faults now like reading committing db))
        (λ n db'. migrate_all registry (total + n) db')
