-- ===== src/Entity/Store.antt =====
-- The operations of an `Entity` over the docstore. An effect that needs the `Docstore` service is a
-- function of its table; one that writes returns the table that it leaves. `now` is the clock's
-- answer, and `faults` is what the driver throws at each statement, if it does.
pub mod Updates
use mitools.Prelude.{
  ℕ, Bool, Option, none, some, List, [], ◌∷◌, ◌++◌, Text, codes, Result, ok, err, ◌>>=◌, map_error,
  map,
}
use mitools.Errors.{Cause, OperationError}
use mitools.Docstore.{RawRow, Blobs, Cbor, Tx, decode_doc}
use mitools.Docstore.Sync
use mitools.Docstore.Service
use mitools.Docstore.Service.{ReadError, CorruptRow}
use mitools.Entity.{
  Numbers, Document, pick, spread, InvalidKey, UpsertOptions, Entity, get_pk, meta, resolve_expiry,
  next_expiry,
}

pub data EntityError (Number : Type 0) : Type 0 where
  failed : OperationError → EntityError Number
  corrupt_row : CorruptRow → EntityError Number
  invalid_key : InvalidKey Number → EntityError Number
  invalid_data : Text → Cause → EntityError Number

pub record Faults : Type 0 where
  pub reading : Option Cause
  pub writing : Option Cause
  pub committing : Option Cause

-- What the transaction of `update` carries out.
pub data Outcome (Number : Type 0) : Type 0 where
  missing : Outcome Number
  corrupt : Cause → Outcome Number
  invalid : Cause → Outcome Number
  updated : Document Number → Outcome Number

abbrev from_read : {Number : Type 0} → ReadError → EntityError Number
from_read (Service.failed e) = failed e
from_read (Service.corrupt r) = corrupt_row r

abbrev no_options : UpsertOptions
no_options = record { ttl_ms = none; expires_at = none }

module _ {Number : Type 0} (numbers : Numbers Number) (cbor : Cbor (Document Number))
    (self : Entity Number) where
  abbrev Answer : Type 0 → Type 0
  Answer A = Result (EntityError Number) A

  abbrev pk : Document Number → Answer Text
  pk arg = map_error invalid_key (get_pk numbers self arg)

  -- A write of the docstore, its error among the entity's.
  abbrev lifted : {A : Type 0} → Result OperationError A × Blobs → Answer A × Blobs
  lifted (r, db) = (map_error failed r, db)

  -- A write behind a key that may be invalid.
  abbrev at_pk : {A : Type 0} → Answer Text → (Text → Answer A × Blobs) → Blobs → Answer A × Blobs
  at_pk (ok k) f db = f k
  at_pk (err e) f db = (err e, db)

  unfoldable pub validate : Document Number → Answer (Document Number)
  validate doc = elim self.validate_fn [
    | none ↦ ok doc
    | some f ↦ map_error (invalid_data self.name) (f doc)
  ]

  unfoldable pub get : Faults → ℕ → Document Number → Blobs → Answer (Option (Document Number))
  get faults now arg db = do
    k ← pk arg
    map_error from_read (Service.get_doc cbor faults.reading now k db)

  unfoldable pub get_all : Faults → ℕ → Blobs → Answer (List (Document Number) × List CorruptRow)
  get_all faults now db =
      map_error failed (Service.get_docs_by_entity cbor faults.reading now self.name db)

  abbrev upsert_valid :
      Faults → ℕ → UpsertOptions → Answer (Document Number) → Blobs → Answer Bool × Blobs
  upsert_valid faults now options (err e) db = (err e, db)
  upsert_valid faults now options (ok doc) db =
      at_pk (pk doc)
        (λ k. lifted (
          Service.upsert_doc cbor faults.writing now k doc
            (meta self (resolve_expiry self.default_ttl_ms now options) now) db))
        db

  unfoldable pub upsert : Faults → ℕ → Document Number → UpsertOptions → Blobs → Answer Bool × Blobs
  unfolding validate
  upsert faults now doc options db = upsert_valid faults now options (validate doc) db

  unfoldable pub delete : Faults → Document Number → Blobs → Answer Bool × Blobs
  delete faults arg db = at_pk (pk arg) (λ k. lifted (Service.delete_doc faults.writing k db)) db

  unfoldable pub delete_all : Faults → Blobs → Answer ℕ × Blobs
  delete_all faults db = lifted (Service.delete_docs_by_entity faults.writing self.name db)

  unfoldable pub has : Faults → ℕ → Document Number → Blobs → Answer Bool
  has faults now arg db = do k ← pk arg; map_error failed (Service.has_doc faults.reading now k db)

  unfoldable pub count : Faults → ℕ → Blobs → Answer ℕ
  count faults now db = map_error failed (Service.count_by_entity faults.reading now self.name db)

  unfoldable pub touch : Faults → ℕ → Document Number → UpsertOptions → Blobs → Answer Bool × Blobs
  touch faults now arg options db =
      at_pk (pk arg)
        (λ k. lifted (
          Service.touch_doc faults.writing now k (resolve_expiry self.default_ttl_ms now options)
            db))
        db

  -- `if (self.validateFn) ...`: the key fields are put back after it too.
  abbrev validated :
      Option (Document Number → Result Cause (Document Number))
      → Document Number
      → Document Number
      → Result Cause (Document Number)
  validated none arg next = ok next
  validated (some f) arg next = do valid ← f next; ok (spread valid arg)

  -- A write whose result is the outcome `updated next`.
  abbrev as_updated :
      {A : Type 0}
      → Document Number
      → Result Cause A × Blobs
      → Result Cause (Outcome Number) × Blobs
  as_updated next (ok n, db) = (ok (updated next), db)
  as_updated next (err cause, db) = (err cause, db)

  abbrev write_next :
      Faults
      → ℕ
      → Text
      → UpsertOptions
      → Option ℕ
      → Result Cause (Document Number)
      → Tx (Outcome Number)
  write_next faults now k options expiry (err cause) db = (ok (invalid cause), db)
  write_next faults now k options expiry (ok next) db = as_updated next (
      Sync.upsert_doc cbor faults.writing k next (meta self (next_expiry expiry now options) now)
        now db)

  -- the callback throws, or gives the next value
  abbrev apply_fn :
      Faults
      → ℕ
      → Text
      → Document Number
      → UpsertOptions
      → Option ℕ
      → Result Cause (Document Number)
      → Tx (Outcome Number)
  apply_fn faults now k arg options expiry (err cause) db = (err cause, db)
  apply_fn faults now k arg options expiry (ok changed) db =
      write_next faults now k options expiry (validated self.validate_fn arg (spread changed arg))
        db

  abbrev update_decoded :
      Faults
      → ℕ
      → Text
      → Document Number
      → (Document Number → Result Cause (Document Number))
      → UpsertOptions
      → Option ℕ
      → Result Cause (Document Number)
      → Tx (Outcome Number)
  update_decoded faults now k arg fn options expiry (err cause) db = (ok (corrupt cause), db)
  update_decoded faults now k arg fn options expiry (ok current) db =
      apply_fn faults now k arg options expiry (fn current) db

  abbrev update_row :
      Faults
      → ℕ
      → Text
      → Document Number
      → (Document Number → Result Cause (Document Number))
      → UpsertOptions
      → Result Cause (Option RawRow)
      → Tx (Outcome Number)
  update_row faults now k arg fn options (err cause) db = (err cause, db)
  update_row faults now k arg fn options (ok none) db = (ok missing, db)
  update_row faults now k arg fn options (ok (some row)) db =
      update_decoded faults now k arg fn options row.expires_at (decode_doc cbor row.payload) db

  -- The transaction of `update`.
  unfoldable pub update_tx :
      Faults
      → ℕ
      → Text
      → Document Number
      → (Document Number → Result Cause (Document Number))
      → UpsertOptions
      → Tx (Outcome Number)
  update_tx faults now k arg fn options db =
      update_row faults now k arg fn options (Sync.get_raw_row faults.reading k now db) db

  -- The outcome raised as the caller sees it.
  abbrev raise_outcome :
      Text → Result OperationError (Outcome Number) → Answer (Option (Document Number))
  raise_outcome k (err e) = err (failed e)
  raise_outcome k (ok missing) = ok none
  raise_outcome k (ok (corrupt cause)) = err (corrupt_row (record { pk = k; cause = cause }))
  raise_outcome k (ok (invalid cause)) = err (invalid_data self.name cause)
  raise_outcome k (ok (updated next)) = ok (some next)

  abbrev raised :
      Text
      → Result OperationError (Outcome Number) × Blobs
      → Answer (Option (Document Number)) × Blobs
  raised k (r, db) = (raise_outcome k r, db)

  unfoldable pub update :
      Faults
      → ℕ
      → Document Number
      → (Document Number → Result Cause (Document Number))
      → UpsertOptions
      → Blobs
      → Answer (Option (Document Number)) × Blobs
  unfolding update_tx
  update faults now arg fn options db =
      at_pk (pk arg)
        (λ k. raised k (
          Service.transaction faults.committing (codes "Entity.update " ++ k)
            (update_tx faults now k arg fn options) db))
        db

  unfoldable pub patch :
      Faults
      → ℕ
      → Document Number
      → Document Number
      → UpsertOptions
      → Blobs
      → Answer (Option (Document Number)) × Blobs
  unfolding update
  patch faults now arg partial options db =
      update faults now arg (λ current. ok (spread current partial)) options db

  -- The key objects of all live entities.
  unfoldable pub keys : Faults → ℕ → Blobs → Answer (List (Document Number))
  unfolding get_all
  keys faults now db = do found ← get_all faults now db; ok (map (pick self.pk_props) found.0)
