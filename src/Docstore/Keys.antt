-- ===== src/Docstore/Keys.antt =====
-- The rows by key: one row for each key, and what each statement does to the row of a key.
use mitools.Prelude.{
  ℕ, ◌≡◌, refl, Bool, not, ◌&&◌, Option, none, some, [], ◌∷◌, Text, same, same_iff, same_sound,
  if◌then◌else◌, arith, find?, keep, Bool-cases, subst, inl, inr,
}
use mitools.Docstore.{RawRow, Blobs, has_pk, put}
use mitools.Docstore.Service.{touched}

-- The row under a key, live or not.
unfoldable pub row_at : Text → Blobs → Option RawRow
row_at pk db = find? (has_pk pk) db

-- PRIMARY KEY (pk)
abbrev pub IsKeyed : Blobs → Type 0
IsKeyed [] = Unit
IsKeyed (r ∷ rest) = (row_at r.pk rest ≡ none) × IsKeyed rest

abbrev pub only : (RawRow → Bool) → Option RawRow → Option RawRow
only test none = none
only test (some r) = if test r then some r else none

-- An upsert replaces the row of its key and no other.
pub row_at-put :
    (row : RawRow) (pk : Text) (db : Blobs)
    → row_at pk (put row db) ≡ (if same row.pk pk then some row else row_at pk db)
unfolding row_at put has_pk
row_at-put row pk [] = refl
row_at-put row pk (r ∷ rest) =
    ground
      (arith, row_at-put row pk rest, same_iff r.pk row.pk, same_iff row.pk pk, same_iff r.pk pk)

pub put-IsKeyed : (row : RawRow) (db : Blobs) → IsKeyed db → IsKeyed (put row db)
unfolding put has_pk
put-IsKeyed row [] k = (unfold row_at in refl, tt)
put-IsKeyed row (r ∷ rest) (fresh, k) = elim (Bool-cases (same r.pk row.pk)) [
  | inl e ↦ rw e (subst (λ pk. row_at pk rest ≡ none) (same_sound r.pk row.pk e) fresh, k)
  | inr e ↦ rw e (
    rw row_at-put (ground (arith, same_iff r.pk row.pk, same_iff row.pk r.pk)),
    put-IsKeyed row rest k,
  )
]

pub row_at-keep-none :
    (test : RawRow → Bool) (pk : Text) (db : Blobs)
    → row_at pk db ≡ none
    → row_at pk (keep test db) ≡ none
unfolding row_at has_pk
row_at-keep-none test pk [] h = refl
row_at-keep-none test pk (r ∷ rest) h = ground (arith, row_at-keep-none test pk rest)

-- Where keys are unique, a filter keeps the row of a key just if it passes.
pub row_at-keep :
    (test : RawRow → Bool) (pk : Text) (db : Blobs)
    → IsKeyed db
    → row_at pk (keep test db) ≡ only test (row_at pk db)
unfolding row_at has_pk
row_at-keep test pk [] k = refl
row_at-keep test pk (r ∷ rest) (fresh, k) =
    ground (arith, row_at-keep test pk rest k, row_at-keep-none test pk rest, same_iff r.pk pk)

pub keep-IsKeyed : (test : RawRow → Bool) (db : Blobs) → IsKeyed db → IsKeyed (keep test db)
keep-IsKeyed test [] k = tt
keep-IsKeyed test (r ∷ rest) (fresh, k) =
    ground (arith, keep-IsKeyed test rest k, row_at-keep-none test r.pk rest fresh)

-- A delete of one key.
pub row_at-delete :
    (old pk : Text) (db : Blobs)
    → row_at pk (keep (λ r. not (has_pk old r)) db) ≡ (if same old pk then none else row_at pk db)
unfolding row_at has_pk
row_at-delete old pk [] = ground arith
row_at-delete old pk (r ∷ rest) =
    ground (arith, row_at-delete old pk rest, same_iff r.pk old, same_iff r.pk pk, same_iff old pk)

find_none :
    (test : RawRow → Bool) (pk : Text) (db : Blobs)
    → row_at pk db ≡ none
    → find? (λ r. has_pk pk r && test r) db ≡ none
unfolding row_at
find_none test pk [] h = refl
find_none test pk (r ∷ rest) h = ground (arith, find_none test pk rest)

-- `WHERE pk = @pk AND ...` finds the row of the key just if the rest of the test holds.
pub find-only :
    (test : RawRow → Bool) (pk : Text) (db : Blobs)
    → IsKeyed db
    → find? (λ r. has_pk pk r && test r) db ≡ only test (row_at pk db)
unfolding row_at has_pk
find-only test pk [] k = refl
find-only test pk (r ∷ rest) (fresh, k) =
    ground (arith, find-only test pk rest k, find_none test pk rest, same_iff r.pk pk)

abbrev pub touch : (RawRow → Bool) → Option ℕ → ℕ → RawRow → RawRow
touch test expires_at now r =
    if test r then record r { expires_at = expires_at; updated_at = now } else r

abbrev pub touch? : (RawRow → Bool) → Option ℕ → ℕ → Option RawRow → Option RawRow
touch? test e now none = none
touch? test e now (some r) = some (touch test e now r)

pub row_at-touched :
    (test : RawRow → Bool) (e : Option ℕ) (now : ℕ) (pk : Text) (db : Blobs)
    → row_at pk (touched test e now db) ≡ touch? test e now (row_at pk db)
unfolding row_at has_pk
row_at-touched test e now pk [] = refl
row_at-touched test e now pk (r ∷ rest) = ground (arith, row_at-touched test e now pk rest)

pub touched-IsKeyed :
    (test : RawRow → Bool) (e : Option ℕ) (now : ℕ) (db : Blobs)
    → IsKeyed db
    → IsKeyed (touched test e now db)
touched-IsKeyed test e now [] k = tt
touched-IsKeyed test e now (r ∷ rest) (fresh, k) =
    ground (arith, touched-IsKeyed test e now rest k, row_at-touched test e now r.pk rest)
