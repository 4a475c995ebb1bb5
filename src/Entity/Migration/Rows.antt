-- ===== src/Entity/Migration/Rows.antt =====
-- The rows that the loop of a migration has yet to meet, and the keys that it has claimed.
use mitools.Prelude.{
  suc, ◌≡◌, refl, ap, ◌∙◌, subst, Bool, true, false, not, Option, none, some, List, [], ◌∷◌, Text,
  same, same_iff, same_sound, starts_with, any, if◌then◌else◌, arith, Bool-cases, inl, inr, length,
  keep, All,
}
use mitools.Docstore.{RawRow, Blobs, has_pk, put}
use mitools.Docstore.Keys.{row_at, IsKeyed, row_at-put, row_at-delete, put-IsKeyed, keep-IsKeyed}

pub length-put_new :
    (row : RawRow) (db : Blobs) → row_at row.pk db ≡ none → length (put row db) ≡ suc (length db)
unfolding row_at put
length-put_new row [] h = refl
length-put_new row (r ∷ rest) h = ground (arith, length-put_new row rest)

pub length-put_old :
    (row r : RawRow) (db : Blobs) → row_at row.pk db ≡ some r → length (put row db) ≡ length db
unfolding row_at put
length-put_old row r [] h = cc
length-put_old row r (x ∷ rest) h = ground (arith, length-put_old row r rest)

length-delete_none :
    (pk : Text) (db : Blobs)
    → row_at pk db ≡ none
    → length (keep (λ r. not (has_pk pk r)) db) ≡ length db
unfolding row_at
length-delete_none pk [] h = refl
length-delete_none pk (r ∷ rest) h = ground (arith, length-delete_none pk rest)

pub length-delete :
    (pk : Text) (r : RawRow) (db : Blobs)
    → IsKeyed db
    → row_at pk db ≡ some r
    → suc (length (keep (λ x. not (has_pk pk x)) db)) ≡ length db
unfolding row_at has_pk
length-delete pk r [] k h = cc
length-delete pk r (x ∷ rest) (fresh, k) h = elim (Bool-cases (same x.pk pk)) [
  | inl e ↦ rw e (
      ap suc (
        length-delete_none pk rest
          (subst (λ j. row_at j rest ≡ none) (same_sound x.pk pk e) fresh)))
  | inr e ↦ rw e (ap suc (length-delete pk r rest k (rw e at h)))
]

abbrev pub claims : List Text → Text → Bool
claims claimed pk = any (same pk) claimed

-- `prefix` is that of the entity's keys: a key with it that holds a row is claimed, and the rows yet
-- to come are in the table as they were read.
pub record Pending (prefix : Text) (claimed : List Text) (rows : List RawRow) (db : Blobs)
    : Type 0 where
  pub keyed : IsKeyed db
  pub distinct : IsKeyed rows
  pub present : All (λ r. row_at r.pk db ≡ some r) rows
  pub are_claimed : All (λ r. claims claimed r.pk ≡ true) rows
  pub covers :
      (pk : Text) → claims claimed pk ≡ false → starts_with prefix pk ≡ true → row_at pk db ≡ none

if_none : (b : Bool) → ◌≡◌ {A = Option RawRow} (if b then none else none) none
if_none true = refl
if_none false = refl

present_after :
    (db db' : Blobs) (rows : List RawRow) (row : RawRow) (claimed : List Text) (k : Text)
    → ((j : Text) → same row.pk j ≡ false → same k j ≡ false → row_at j db' ≡ row_at j db)
    → row_at row.pk rows ≡ none
    → ((j : Text) → same row.pk j ≡ false → claims claimed j ≡ true → same k j ≡ false)
    → All (λ r. row_at r.pk db ≡ some r) rows
    → All (λ r. claims claimed r.pk ≡ true) rows
    → All (λ r. row_at r.pk db' ≡ some r) rows
unfolding row_at has_pk
present_after db db' [] row claimed k same_rows fresh apart p c = tt
present_after db db' (r ∷ rows) row claimed k same_rows fresh apart (p, ps) (c, cs) =
    elim (Bool-cases (same r.pk row.pk)) [
      | inl e ↦ cc (rw e at fresh)
      | inr e ↦
          let e' : same row.pk r.pk ≡ false =
            ground (arith, same_iff r.pk row.pk, same_iff row.pk r.pk) in
          (
            same_rows r.pk e' (apart r.pk e' c) ∙ p,
            present_after db db' rows row claimed k same_rows (rw e at fresh) apart ps cs,
          )
    ]

unclaimed :
    (k pk : Text) (claimed : List Text)
    → claims (k ∷ claimed) pk ≡ false
    → (same k pk ≡ false) × (claims claimed pk ≡ false)
unclaimed k pk claimed h = ground (arith, same_iff k pk, same_iff pk k)

claimed_apart :
    (k j : Text) (claimed : List Text)
    → claims claimed k ≡ false
    → claims claimed j ≡ true
    → same k j ≡ false
claimed_apart k j claimed free h = elim (Bool-cases (same k j)) [
  | inl e ↦ cc (subst (λ t. claims claimed t ≡ false) (same_sound k j e) free)
  | inr e ↦ e
]

pub also_claimed :
    (k : Text) (claimed : List Text) (rows : List RawRow)
    → All (λ r. claims claimed r.pk ≡ true) rows
    → All (λ r. claims (k ∷ claimed) r.pk ≡ true) rows
also_claimed k claimed [] h = tt
also_claimed k claimed (r ∷ rows) (h, hs) = (ground arith, also_claimed k claimed rows hs)

module _ {prefix : Text} {claimed : List Text} {rows : List RawRow} {db : Blobs} where
  pub Pending-drop :
      (row : RawRow) → Pending prefix claimed (row ∷ rows) db → Pending prefix claimed rows db
  Pending-drop row p = record {
    keyed = p.keyed;
    distinct = p.distinct.1;
    present = p.present.1;
    are_claimed = p.are_claimed.1;
    covers = p.covers;
  }

  pub Pending-claim :
      (k : Text) → Pending prefix claimed rows db → Pending prefix (k ∷ claimed) rows db
  Pending-claim k p = record {
    keyed = p.keyed;
    distinct = p.distinct;
    present = p.present;
    are_claimed = also_claimed k claimed rows p.are_claimed;
    covers = λ pk c h. p.covers pk (ground arith) h;
  }

module _ {prefix : Text} {claimed : List Text} {rows : List RawRow} {db : Blobs}
    (row new_row : RawRow) (p : Pending prefix claimed (row ∷ rows) db) where
  -- A row that is written under its own key.
  pub Pending-put :
      new_row.pk ≡ row.pk
      → Pending prefix (new_row.pk ∷ claimed) rows (put new_row db)
        × (length (put new_row db) ≡ length db)
  Pending-put e = (
    record {
      keyed = put-IsKeyed new_row db p.keyed;
      distinct = p.distinct.1;
      present =
          present_after db (put new_row db) rows row claimed new_row.pk
            (λ j a b. rw (row_at-put, b)) p.distinct.0 (λ j a c. rw e a) p.present.1
            p.are_claimed.1;
      are_claimed = also_claimed new_row.pk claimed rows p.are_claimed.1;
      covers = λ pk c h.
          let (a, b) = unclaimed new_row.pk pk claimed c in rw (row_at-put, a) (p.covers pk b h);
    },
    length-put_old new_row row db (rw e p.present.0),
  )

  abbrev moved : Blobs
  moved = keep (λ r. not (has_pk row.pk r)) (put new_row db)

  -- A row that is written under a free key, and then deleted under its own.
  pub Pending-move :
      same new_row.pk row.pk ≡ false
      → claims claimed new_row.pk ≡ false
      → starts_with prefix new_row.pk ≡ true
      → Pending prefix (new_row.pk ∷ claimed) rows moved × (length moved ≡ length db)
  Pending-move ne free pre = (
    record {
      keyed = keep-IsKeyed _ _ (put-IsKeyed new_row db p.keyed);
      distinct = p.distinct.1;
      present =
          present_after db moved rows row claimed new_row.pk
            (λ j a b. rw (row_at-delete row.pk j (put new_row db), a, row_at-put, b)) p.distinct.0
            (λ j a c. claimed_apart new_row.pk j claimed free c) p.present.1 p.are_claimed.1;
      are_claimed = also_claimed new_row.pk claimed rows p.are_claimed.1;
      covers = λ pk c h.
          let (a, b) = unclaimed new_row.pk pk claimed c in
          rw (row_at-delete row.pk pk (put new_row db), row_at-put, a, p.covers pk b h)
            (if_none (same row.pk pk));
    },
    omega (
      arith,
      length-put_new new_row db (p.covers new_row.pk free pre),
      length-delete row.pk row (put new_row db) (put-IsKeyed new_row db p.keyed)
          (rw (row_at-put, ne) p.present.0),
    ),
  )
