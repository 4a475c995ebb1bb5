-- ===== src/Tests/Entity.antt =====
-- Two entities over the docstore's table, an update, and a migration in which two rows collide.
use mathlib.Core.List.{flatten}
use mitools.Prelude.{ℕ, ◌≡◌, ◌↔◌, refl, true, none, some, [], ◌∷◌, codes, same, ok}
use mitools.Prelude.Decimal.{decimal}
use mitools.Docstore.{Blobs, has_pk, not_expired, decode_doc, encode_doc, row_of, put}
use mitools.Docstore.Sync
use mitools.Docstore.Service
use mitools.Docstore.Keys.{row_at, IsKeyed}
use mitools.Entity.{
  string, number, Document, field, spread, assign, pick, Entity, UpsertOptions, meta, next_expiry,
  get_pk, valid_name, key_prefix, encode_parts, encode_key_part, join_hash,
}
use mitools.Entity.Keys.{get_pk-injective, get_pk_names}
use mitools.Entity.Spread.{IsObject}
use mitools.Entity.Store.{Faults, update, update_tx}
use mitools.Entity.Store.Updates.{Returned, update_atomic, get-update}
use mitools.Entity.Migration.{RowFaults, migrate}
use mitools.Entity.Migration.Documents.{Kept, migrate-length}
use mitools.Tests.Codec.{codec, codec-IsCodec, whole, whole-IsNumbers}
use mitools.Tests.Matcher.{matches, matches-IsLike}
use mitools.Tests.Docstore.{document, row, table, table-IsKeyed}

abbrev user : Entity ℕ
user = record {
  name = codes "User";
  pk_props = codes "id" ∷ [];
  version = 2;
  migrate_fn = some (λ doc version. ok doc);
  validate_fn = none;
  default_ttl_ms = some 30;
}

abbrev post : Entity ℕ
post = record user { name = codes "Post" }

user_1_pk : get_pk whole user (document 1) ≡ ok (codes "$User#n1")
unfolding get_pk encode_parts encode_key_part field same decimal key_prefix join_hash
user_1_pk = refl

post_1_pk : get_pk whole post (document 1) ≡ ok (codes "$Post#n1")
unfolding get_pk encode_parts encode_key_part field same decimal key_prefix join_hash
post_1_pk = refl

-- the text "1" beside the number 1
text_1_pk : get_pk whole user ((codes "id", string (codes "1")) ∷ []) ≡ ok (codes "$User#s1:1")
unfolding get_pk encode_parts encode_key_part field same decimal key_prefix join_hash
text_1_pk = refl

user-valid_name : valid_name (codes "User") ≡ true
unfolding valid_name
user-valid_name = refl

get_pk-injective_example :
    (codes "$User#n1" ≡ codes "$User#s1:1")
    ↔ (pick user.pk_props (document 1) ≡ pick user.pk_props ((codes "id", string (codes "1")) ∷ []))
get_pk-injective_example =
    get_pk-injective whole whole-IsNumbers user (document 1) ((codes "id", string (codes "1")) ∷ [])
      (codes "$User#n1") (codes "$User#s1:1") user-valid_name user_1_pk text_1_pk

user_3_pk : get_pk whole (record user { version = 3 }) (document 1) ≡ ok (codes "$User#n1")
unfolding get_pk encode_parts encode_key_part field same decimal key_prefix join_hash
user_3_pk = refl

get_pk_names_example : user.name ≡ (record user { version = 3 }).name
get_pk_names_example =
    get_pk_names whole whole-IsNumbers user (record user { version = 3 }) (document 1) (document 1)
      (codes "$User#n1") user-valid_name user-valid_name user_1_pk user_3_pk

document-IsObject : IsObject (document 1)
document-IsObject = (refl, tt)

abbrev quiet : Faults
quiet = record { reading = none; writing = none; committing = none }

abbrev for_five : UpsertOptions
for_five = record { ttl_ms = some 5; expires_at = none }

-- The callback adds a field and tries to change the key.
abbrev grown : Document ℕ
grown = (codes "id", number 7) ∷ (codes "age", number 41) ∷ []

abbrev grown_kept : Document ℕ
grown_kept = (codes "id", number 1) ∷ (codes "age", number 41) ∷ []

update_atomic_example :
    Returned whole codec user quiet 10
      (codes "$User#n1")
      (document 1)
      for_five
      table
      none
      (update whole codec user quiet 10 (document 1) (λ current. ok grown) for_five table)
unfolding has_pk not_expired same
update_atomic_example =
    update_atomic whole codec user quiet 10 (codes "$User#n1") (document 1) for_five table
      (λ current. ok grown) user_1_pk

abbrev table_after : Blobs
table_after =
    record {
      pk = codes "$User#n1";
      entity = some (codes "User");
      version = 2;
      expires_at = some 15;
      updated_at = 10;
      payload = 2 ∷ 2 ∷ 2 ∷ b'i' ∷ b'd' ∷ 1 ∷ 1 ∷ 3 ∷ 2 ∷ b'a' ∷ b'g' ∷ b'e' ∷ 1 ∷ 41 ∷ [];
    }
    ∷ row (codes "$User#n2") (codes "User") (some 100) 2
    ∷ row (codes "$Post#n1") (codes "Post") (some 50) 1
    ∷ []

update_lem :
    update whole codec user quiet 10 (document 1) (λ current. ok grown) for_five table
    ≡ (ok (some grown_kept), table_after)
unfolding update get_pk encode_parts encode_key_part field assign spread same decimal key_prefix
    join_hash Service.transaction update_tx Sync.get_raw_row Sync.upsert_doc has_pk not_expired
    decode_doc encode_doc row_of meta next_expiry put flatten
update_lem = refl

get-update_example :
    Service.get_doc codec none 14 (codes "$User#n1") table_after ≡ ok (some grown_kept)
unfolding has_pk same not_expired next_expiry
get-update_example =
    (get-update whole codec user codec-IsCodec quiet 10 14 (codes "$User#n1") (document 1)
      grown_kept (λ current. ok grown) for_five table table_after table-IsKeyed document-IsObject
      user_1_pk update_lem).1

abbrev no_row_faults : RowFaults
no_row_faults = record { writing = λ pk. none; deleting = λ pk. none }

-- A row of the older key format moves to a key that another row holds, and is skipped.
abbrev old_table : Blobs
old_table =
    row (codes "$User#1") (codes "User") none 1
    ∷ row (codes "$User#5") (codes "User") none 5
    ∷ table

old_table-IsKeyed : IsKeyed old_table
unfolding row_at has_pk same
old_table-IsKeyed = (refl, (refl, table-IsKeyed))

migrate-length_example :
    Kept whole codec user no_row_faults 20
      (λ pk. refl)
      old_table
      (migrate whole codec user no_row_faults 20 matches none none old_table)
migrate-length_example =
    migrate-length whole codec user no_row_faults 20 (λ pk. refl) matches matches-IsLike none none
      old_table old_table-IsKeyed
