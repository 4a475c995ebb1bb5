-- ===== src/Tests/Docstore.antt =====
-- The docstore on a table of three rows: one plain, one that expires, one of another entity.
use mitools.Prelude.{
  ℕ, ◌≡◌, refl, true, Option, none, some, [], ◌∷◌, Text, Bytes, codes, same, arith, ok,
}
use mitools.Docstore.{
  RawRow, Blobs, has_pk, has_entity, decode_doc, DocMeta, like_prefix, not_expired,
}
use mitools.Docstore.Service
use mitools.Docstore.Service.{
  live_pk, live_entity, decode_rows, is_expired, decode_point, delete_docs_by_prefix,
}
use mitools.Docstore.Keys.{row_at, IsKeyed}
use mitools.Docstore.Like.{like-like_prefix, starts_with_fold, fold}
use mitools.Docstore.Lookup.{get_doc-upsert_doc, get_doc-touch_doc, get_doc-delete_doc}
use mitools.Docstore.Expiry.{get_doc-cleanup_expired}
use mitools.Docstore.Reads.{visible, reads-visible}
use mitools.Docstore.Calls.{cleans_up, perform, perform-IsKeyed}
use mitools.Docstore.Prefixes.{get_doc-delete_docs_by_prefix}
use mitools.Entity.{number, Document}
use mitools.Tests.Codec.{codec, codec-IsCodec}
use mitools.Tests.Matcher.{matches, matches-IsLike}

abbrev pub document : ℕ → Document ℕ
document n = (codes "id", number n) ∷ []

-- what the codec writes for the document
abbrev pub payload_of : ℕ → Bytes
payload_of n = 1 ∷ 2 ∷ 2 ∷ b'i' ∷ b'd' ∷ 1 ∷ n ∷ []

abbrev pub row : Text → Text → Option ℕ → ℕ → RawRow
row pk entity expires_at n = record {
  pk = pk;
  entity = some entity;
  version = 1;
  expires_at = expires_at;
  updated_at = 5;
  payload = payload_of n;
}

abbrev pub table : Blobs
table =
    row (codes "$User#n1") (codes "User") none 1
    ∷ row (codes "$User#n2") (codes "User") (some 100) 2
    ∷ row (codes "$Post#n1") (codes "Post") (some 50) 1
    ∷ []

pub table-IsKeyed : IsKeyed table
unfolding row_at has_pk same
table-IsKeyed = (refl, (refl, (refl, tt)))

abbrev no_expiry : DocMeta
no_expiry = record {
  entity = some (codes "User");
  version = some 1;
  expires_at = some 70;
  updated_at = none;
}

payload_lem : codec.chunks (document 9) ≡ ok ((1 ∷ []) ∷ (2 ∷ 2 ∷ b'i' ∷ b'd' ∷ 1 ∷ 9 ∷ []) ∷ [])
payload_lem = refl

-- A replaced document, read before it expires.
get_doc-upsert_doc_example :
    Service.get_doc codec none 60
      (codes "$User#n2")
      (Service.upsert_doc codec none 20 (codes "$User#n2") (document 9) no_expiry table).1
    ≡ ok (some (document 9))
unfolding same
get_doc-upsert_doc_example =
    get_doc-upsert_doc codec codec-IsCodec 60 20 (codes "$User#n2") (codes "$User#n2") (document 9)
      no_expiry table ((1 ∷ []) ∷ (2 ∷ 2 ∷ b'i' ∷ b'd' ∷ 1 ∷ 9 ∷ []) ∷ []) table-IsKeyed refl

-- A key with a wildcard in the prefix.
like-like_prefix_example : matches (like_prefix (codes "$a_b#")) (codes "$A_b#s1:x") ≡ true
unfolding starts_with_fold fold
like-like_prefix_example =
    like-like_prefix matches matches-IsLike (codes "$a_b#") (codes "$A_b#s1:x")

get_doc-touch_doc_example :
    Service.get_doc codec none 60
      (codes "$User#n2")
      (Service.touch_doc none 20 (codes "$User#n2") (some 55) table).1
    ≡ ok none
unfolding decode_point row_at live_pk not_expired has_pk same
get_doc-touch_doc_example =
    get_doc-touch_doc codec 60 20 (codes "$User#n2") (codes "$User#n2") (some 55) table
      table-IsKeyed

get_doc-delete_doc_example :
    Service.get_doc codec none 10
      (codes "$User#n1")
      (Service.delete_doc none (codes "$User#n1") table).1
    ≡ ok none
unfolding same
get_doc-delete_doc_example =
    get_doc-delete_doc codec 10 (codes "$User#n1") (codes "$User#n1") table table-IsKeyed

get_doc-cleanup_expired_example :
    Service.get_doc codec none 120 (codes "$User#n1") (Service.cleanup_expired none 110 1 table).1
    ≡ Service.get_doc codec none 120 (codes "$User#n1") table
get_doc-cleanup_expired_example =
    get_doc-cleanup_expired codec 110 120 1 (codes "$User#n1") table table-IsKeyed (omega arith)

-- Two rows have expired, and the limit is five.
reads-visible_example :
    Service.get_docs_by_prefix codec matches none 60 (codes "$") (visible 60 table)
    ≡ Service.get_docs_by_prefix codec matches none 60 (codes "$") table
reads-visible_example = (reads-visible codec matches none 60 (codes "$") table).1

read_users :
    Service.get_docs_by_entity codec none 60 (codes "User") table
    ≡ ok (document 1 ∷ document 2 ∷ [], [])
unfolding Service.get_docs_by_entity live_entity has_entity not_expired same decode_rows decode_doc
read_users = refl

perform-IsKeyed_example : IsKeyed (perform codec matches none 110 (cleans_up 1) table)
perform-IsKeyed_example = perform-IsKeyed codec matches none 110 (cleans_up 1) table table-IsKeyed

-- A prefix in another case, of one of the two users.
get_doc-delete_docs_by_prefix_example :
    Service.get_doc codec none 10
      (codes "$User#n1")
      (Service.delete_docs_by_prefix matches none (codes "$user#n1") table).1
    ≡ ok none
unfolding starts_with_fold fold
get_doc-delete_docs_by_prefix_example =
    get_doc-delete_docs_by_prefix codec matches matches-IsLike 10 (codes "$user#n1")
      (codes "$User#n1") table table-IsKeyed
