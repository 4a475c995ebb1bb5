-- ===== src/Entity/Store/Updates.antt =====
-- `update` of persistence/entities.ts: what its transaction leaves.
use mitools.Prelude.{
  if◌then◌else◌, ℕ, ◌≡◌, refl, subst, Option, none, some, ◌++◌, Text, Bytes, codes, Result, ok, err,
  >>=-eq-ok, attempt, find?, ◌&&◌,
}
use mitools.Errors.{Cause}
use mitools.Docstore.{
  RawRow, Blobs, Cbor, IsCodec, alive, put, row_of, encode_doc, decode_doc, not_expired, has_pk,
}
use mitools.Docstore.Sync
use mitools.Docstore.Service
use mitools.Entity.{Numbers, Document, spread, UpsertOptions, Entity, get_pk, meta, next_expiry}
use mitools.Entity.Spread.{IsObject, get_pk-spread}
use mitools.Docstore.Keys.{IsKeyed}
use mitools.Docstore.Lookup.{get_doc-put}
use mitools.Entity.Store.{
  Faults, Outcome, missing, corrupt, invalid, updated, EntityError, update, update_tx, update_row,
  update_decoded, apply_fn, write_next, validated, raised, as_updated,
}

abbrev pub Fn : Type 0 → Type 0
Fn Number = Document Number → Result Cause (Document Number)

-- The live row of a key, and the expiry that a row has.
abbrev pub live_row : Text → ℕ → Blobs → Option RawRow
live_row k now db = find? (λ r. has_pk k r && not_expired now r) db

abbrev pub expiry_of : Option RawRow → Option ℕ
expiry_of none = none
expiry_of (some row) = row.expires_at

abbrev Ran : Type 0 → Type 0
Ran Number = Result Cause (Outcome Number) × Blobs

module _ {Number : Type 0} (numbers : Numbers Number) (cbor : Cbor (Document Number))
    (self : Entity Number) (faults : Faults) (now : ℕ) (k : Text) (arg : Document Number)
    (options : UpsertOptions) (db : Blobs) where
  -- The table after `next` was written with the expiry made from `expiry`.
  abbrev pub Wrote : Option ℕ → Document Number → Blobs → Type 0
  Wrote expiry next db' =
      (bytes : Bytes) × (encode_doc cbor next ≡ ok bytes)
      × (db' ≡ put (row_of k bytes (meta self (next_expiry expiry now options) now) now) db)

  -- What a run of the transaction leaves: the written value, with the key fields of `arg` on top,
  -- or the table as it was.
  abbrev Left : Option ℕ → Ran Number → Type 0
  Left expiry (ok (updated next), db') =
      Wrote expiry next db' × ((c : Document Number) × (next ≡ spread c arg))
  Left expiry (ok missing, db') = db' ≡ db
  Left expiry (ok (corrupt c), db') = db' ≡ db
  Left expiry (ok (invalid c), db') = db' ≡ db
  Left expiry (err c, db') = db' ≡ db

  written_Left :
      (expiry : Option ℕ) (next : Document Number) (fault : Option Cause) (r : Result Cause Bytes)
      → encode_doc cbor next ≡ r
      → ((c : Document Number) × (next ≡ spread c arg))
      → Left expiry (
          as_updated numbers cbor self next
            (Sync.write_encoded fault k r (meta self (next_expiry expiry now options) now) now db))
  written_Left expiry next none (ok bytes) e c = ((bytes, e, refl), c)
  written_Left expiry next (some cause) (ok bytes) e c = refl
  written_Left expiry next none (err cause) e c = refl
  written_Left expiry next (some f) (err cause) e c = refl

  next_Left :
      (expiry : Option ℕ) (r : Result Cause (Document Number))
      → ((next : Document Number) → r ≡ ok next → (c : Document Number) × (next ≡ spread c arg))
      → Left expiry (write_next numbers cbor self faults now k options expiry r db)
  unfolding Sync.upsert_doc
  next_Left expiry (ok next) h =
      written_Left expiry next faults.writing (encode_doc cbor next) refl (h next refl)
  next_Left expiry (err cause) h = refl

  validated_keys :
      (o : Option (Fn Number)) (changed next : Document Number)
      → validated numbers cbor self o arg (spread changed arg) ≡ ok next
      → (c : Document Number) × (next ≡ spread c arg)
  validated_keys none changed next h = (changed, cc h)
  validated_keys (some f) changed next h =
      let (valid, _, e) = >>=-eq-ok (f (spread changed arg)) _ h in (valid, cc e)

  apply_Left :
      (expiry : Option ℕ) (r : Result Cause (Document Number))
      → Left expiry (apply_fn numbers cbor self faults now k arg options expiry r db)
  apply_Left expiry (err cause) = refl
  apply_Left expiry (ok changed) =
      next_Left expiry _ (λ next e. validated_keys self.validate_fn changed next e)

  decoded_Left :
      (fn : Fn Number) (expiry : Option ℕ) (r : Result Cause (Document Number))
      → Left expiry (update_decoded numbers cbor self faults now k arg fn options expiry r db)
  decoded_Left fn expiry (err cause) = refl
  decoded_Left fn expiry (ok current) = apply_Left expiry (fn current)

  row_Left :
      (fn : Fn Number) (fault : Option Cause) (o : Option RawRow)
      → Left
          (expiry_of o)
          (update_row numbers cbor self faults now k arg fn options (attempt fault o) db)
  row_Left fn (some cause) o = refl
  row_Left fn none none = refl
  row_Left fn none (some row) = decoded_Left fn row.expires_at (decode_doc cbor row.payload)

  tx_Left :
      (fn : Fn Number)
      → Left
          (expiry_of (live_row k now db))
          (update_tx numbers cbor self faults now k arg fn options db)
  unfolding update_tx Sync.get_raw_row
  tx_Left fn = row_Left fn faults.reading (live_row k now db)

  -- What the caller of `update` has in hand: the new value and its table, or the old table.
  abbrev pub Returned :
      Option ℕ → Result (EntityError Number) (Option (Document Number)) × Blobs → Type 0
  Returned expiry (ok (some next), db') =
      Wrote expiry next db' × ((c : Document Number) × (next ≡ spread c arg))
  Returned expiry (ok none, db') = db' ≡ db
  Returned expiry (err e, db') = db' ≡ db

  committed :
      (expiry : Option ℕ) (fault : Option Cause) (label : Text) (ran : Ran Number)
      → Left expiry ran
      → Returned expiry (raised numbers cbor self k (Service.transaction fault label (λ _. ran) db))
  unfolding Service.transaction
  committed expiry none label (ok missing, db') h = h
  committed expiry none label (ok (corrupt c), db') h = h
  committed expiry none label (ok (invalid c), db') h = h
  committed expiry none label (ok (updated next), db') h = h
  committed expiry none label (err c, db') h = refl
  committed expiry (some f) label (ok missing, db') h = refl
  committed expiry (some f) label (ok (corrupt c), db') h = refl
  committed expiry (some f) label (ok (invalid c), db') h = refl
  committed expiry (some f) label (ok (updated next), db') h = refl
  committed expiry (some f) label (err c, db') h = refl

  -- An update with a valid key, whatever the callback, the validator and the driver do, either
  -- returns a value, and then the table has that value under the key, with the entity's name and
  -- version, the row's own expiry unless the options set one, and the key fields of `arg` on top; or
  -- it returns nothing or an error, and then the table is as it was.
  pub update_atomic :
      (fn : Fn Number)
      → get_pk numbers self arg ≡ ok k
      → Returned
          (expiry_of (live_row k now db))
          (update numbers cbor self faults now arg fn options db)
  unfolding update Service.transaction
  update_atomic fn h = rw h (
      unfold Service.transaction in
      committed (expiry_of (live_row k now db)) faults.committing (codes "Entity.update " ++ k)
        (update_tx numbers cbor self faults now k arg fn options db) (tx_Left fn))

module _ {Number : Type 0} (numbers : Numbers Number) (cbor : Cbor (Document Number))
    (self : Entity Number) where
  -- On a table with one row for each key, with a codec that reads back what it writes: when an
  -- update returns a value, the value has the storage key that was asked for, and a read of that key
  -- at any time returns it until the expiry that the row had, or that the options set.
  pub get-update :
      (codec : IsCodec cbor) (faults : Faults) (now t : ℕ) (k : Text) (arg next : Document Number)
      (fn : Fn Number) (options : UpsertOptions) (db db' : Blobs)
      → IsKeyed db
      → IsObject arg
      → get_pk numbers self arg ≡ ok k
      → update numbers cbor self faults now arg fn options db ≡ (ok (some next), db')
      → (get_pk numbers self next ≡ ok k)
        × (Service.get_doc cbor none t k db'
            ≡ ok (
                if alive (next_expiry (expiry_of (live_row k now db)) now options) t
                then some next
                else none))
  get-update codec faults now t k arg next fn options db db' keyed object hk hu =
      let returned = update_atomic numbers cbor self faults now k arg options db fn hk in
      let ((bytes, e, p), (c, q)) =
        subst
          (Returned numbers cbor self faults now k arg options db (expiry_of (live_row k now db)))
          hu returned in
      (
        rw q (get_pk-spread numbers self c arg k object hk),
        rw p (
            unfold meta in
            get_doc-put cbor codec t now k next bytes
              (meta self (next_expiry (expiry_of (live_row k now db)) now options) now) db keyed e),
      )
