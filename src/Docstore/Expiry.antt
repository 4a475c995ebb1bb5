-- ===== src/Docstore/Expiry.antt =====
-- `cleanupExpired` of persistence/docstore.ts: the rows it deletes, and their number.
use Prim.Native.Nat.{min}
use mitools.Prelude.{
  ℕ, zero, suc, ◌≤◌, ◌≡◌, refl, Bool, true, false, not, Option, none, some, List, [], ◌∷◌, Text,
  same, same_refl, same_iff, same_sound, arith, Bool-cases, inl, inr, length, keep, any, take, map,
  subst, ok, ap,
}
use mitools.Docstore.{RawRow, Blobs, Cbor, not_expired, has_pk, delete_where}
use mitools.Docstore.Service.{is_expired, expired_keys, cleanup_expired, get_doc}
use mitools.Docstore.Keys.{row_at, IsKeyed, only, row_at-keep, keep-IsKeyed}
use mitools.Docstore.Lookup.{get_doc-row_at, IsAtKey, row_at-IsAtKey}

abbrev pk_of : RawRow → Text
pk_of r = r.pk

any-take {ℓ} :
    {A : Type ℓ} (p : A → Bool) (n : ℕ) (xs : List A) → any p (take n xs) ≡ true → any p xs ≡ true
any-take p zero xs h = cc
any-take p (suc n) [] h = h
any-take p (suc n) (x ∷ xs) h = ground (arith, any-take p n xs)

abbrev IsListed : (RawRow → Bool) → Option RawRow → Type 0
IsListed test none = ⊥
IsListed test (some r) = test r ≡ true

not_listed_none : (test : RawRow → Bool) (o : Option RawRow) → o ≡ none → IsListed test o → ⊥
not_listed_none test o e h = subst (IsListed test) e h

-- The row behind a listed key.
listed :
    (test : RawRow → Bool) (j : Text) (db : Blobs)
    → IsKeyed db
    → any (same j) (map pk_of (keep test db)) ≡ true
    → IsListed test (row_at j db)
unfolding row_at has_pk
listed test j [] k h = cc
listed test j (r ∷ rest) (fresh, k) h = elim (Bool-cases (same r.pk j)) [
  | inl e ↦ elim (Bool-cases (test r)) [
    | inl t ↦ rw (e, t)
    | inr t ↦ absurd (
        not_listed_none test (row_at j rest)
          (subst (λ pk. row_at pk rest ≡ none) (same_sound r.pk j e) fresh)
          (listed test j rest k (rw t at h)))
  ]
  | inr e ↦ rw e (listed test j rest k (ground (arith, same_iff j r.pk, same_iff r.pk j)))
]

-- A row that cleanup selects has expired.
selected :
    (now limit : ℕ) (j : Text) (db : Blobs)
    → IsKeyed db
    → any (same j) (expired_keys now limit db) ≡ true
    → IsListed (is_expired now) (row_at j db)
unfolding expired_keys
selected now limit j db k h = listed (is_expired now) j db k (any-take (same j) limit _ h)

expired_later :
    (t now : ℕ) (r : RawRow) → t ≤ now → is_expired t r ≡ true → not_expired now r ≡ false
unfolding is_expired not_expired
expired_later t now r h e = ground arith

still_visible :
    (t now : ℕ) (j : Text) (ks : List Text) (o : Option RawRow)
    → t ≤ now
    → IsAtKey j o
    → (any (same j) ks ≡ true → IsListed (is_expired t) o)
    → only (not_expired now) (only (λ r. not (any (same r.pk) ks)) o) ≡ only (not_expired now) o
unfolding not_expired
still_visible t now j ks none h at sel = refl
still_visible t now j ks (some r) h at sel = elim (Bool-cases (any (same j) ks)) [
  | inl e ↦ rw (at, e) (rw (expired_later t now r h (sel e)))
  | inr e ↦ rw (at, e)
]

-- On a table with one row for each key: a cleanup at a time `t`, whatever its limit, changes no
-- answer of a point read at `t` or later.
pub get_doc-cleanup_expired :
    {Value : Type 0} (cbor : Cbor Value) (t now limit : ℕ) (j : Text) (db : Blobs)
    → IsKeyed db
    → t ≤ now
    → get_doc cbor none now j (cleanup_expired none t limit db).1 ≡ get_doc cbor none now j db
unfolding cleanup_expired delete_where
get_doc-cleanup_expired cbor t now limit j db k h =
    let gone : RawRow → Bool = λ r. any (same r.pk) (expired_keys t limit db) in
    rw (
      get_doc-row_at cbor now j (keep (λ r. not (gone r)) db) (keep-IsKeyed _ db k),
      get_doc-row_at cbor now j db k,
      row_at-keep (λ r. not (gone r)) j db k,
      still_visible t now j (expired_keys t limit db) (row_at j db) h (row_at-IsAtKey j db)
          (selected t limit j db k),
    )

abbrev listed_in : List Text → RawRow → Bool
listed_in ks r = any (same r.pk) ks

absent_key :
    (j : Text) (ks : List Text) (db : Blobs)
    → row_at j db ≡ none
    → keep (listed_in (j ∷ ks)) db ≡ keep (listed_in ks) db
unfolding row_at has_pk
absent_key j ks [] h = refl
absent_key j ks (r ∷ rest) h = ground (arith, absent_key j ks rest)

absent_any :
    (test : RawRow → Bool) (n : ℕ) (j : Text) (db : Blobs)
    → row_at j db ≡ none
    → any (same j) (take n (map pk_of (keep test db))) ≡ false
unfolding row_at has_pk
absent_any test zero j db h = refl
absent_any test (suc n) j [] h = refl
absent_any test (suc n) j (r ∷ rest) h = ground (
  arith,
  absent_any test (suc n) j rest,
  absent_any test n j rest,
  same_iff j r.pk,
  same_iff r.pk j,
)

deleted : List Text → Blobs → ℕ
deleted ks db = length (keep (listed_in ks) db)

deleted_nil : (db : Blobs) → deleted [] db ≡ 0
unfolding deleted
deleted_nil [] = refl
deleted_nil (r ∷ rest) = deleted_nil rest

keep_hit :
    (r : RawRow) (rest : Blobs) (ks : List Text)
    → row_at r.pk rest ≡ none
    → deleted (r.pk ∷ ks) (r ∷ rest) ≡ suc (deleted ks rest)
unfolding deleted
keep_hit r rest ks fresh = rw same_refl (ap (λ l. suc (length l)) (absent_key r.pk ks rest fresh))

keep_miss :
    (r : RawRow) (rest : Blobs) (ks : List Text)
    → any (same r.pk) ks ≡ false
    → deleted ks (r ∷ rest) ≡ deleted ks rest
unfolding deleted
keep_miss r rest ks e = rw e

first_keys : (RawRow → Bool) → ℕ → Blobs → List Text
first_keys test n db = take n (map pk_of (keep test db))

first_keys_hit :
    (test : RawRow → Bool) (n : ℕ) (r : RawRow) (rest : Blobs)
    → test r ≡ true
    → first_keys test (suc n) (r ∷ rest) ≡ r.pk ∷ first_keys test n rest
unfolding first_keys
first_keys_hit test n r rest t = rw t

first_keys_miss :
    (test : RawRow → Bool) (n : ℕ) (r : RawRow) (rest : Blobs)
    → test r ≡ false
    → first_keys test n (r ∷ rest) ≡ first_keys test n rest
unfolding first_keys
first_keys_miss test n r rest t = rw t

-- With one row for each key, as many rows are deleted as keys are selected.
deleted-min :
    (test : RawRow → Bool) (n : ℕ) (db : Blobs)
    → IsKeyed db
    → deleted (first_keys test n db) db ≡ min n (length (keep test db))
deleted-min test zero db k = unfold first_keys in omega (arith, deleted_nil db)
deleted-min test (suc n) [] k = unfold deleted in omega arith
deleted-min test (suc n) (r ∷ rest) (fresh, k) = elim (Bool-cases (test r)) [
  | inl t ↦
      rw (first_keys_hit test n r rest t, keep_hit r rest _ fresh, deleted-min test n rest k, t)
        (omega arith)
  | inr t ↦ rw (
    first_keys_miss test (suc n) r rest t,
    keep_miss r rest (first_keys test (suc n) rest)
        (unfold first_keys in absent_any test (suc n) r.pk rest fresh),
    deleted-min test (suc n) rest k,
    t,
  )
]

-- On a table with one row for each key: a cleanup that the driver accepts reports the number of
-- expired rows, or its limit if that is smaller.
pub cleanup_expired-count :
    (t limit : ℕ) (db : Blobs)
    → IsKeyed db
    → (cleanup_expired none t limit db).0 ≡ ok (min limit (length (keep (is_expired t) db)))
unfolding cleanup_expired delete_where expired_keys first_keys deleted
cleanup_expired-count t limit db k = ap ok (deleted-min (is_expired t) limit db k)
