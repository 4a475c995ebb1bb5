-- ===== src/Docstore/Schema.antt =====
-- persistence/docstore.ts: initializeSchema, on the columns of the table `blobs`. Another process may
-- change the table between the statements, and SQLite refuses a column that is there already.
use mitools.Prelude.{
  arith, inl, inr, ◌≡◌, refl, Bool, true, false, Bool-cases, Option, none, some, List, [], ◌∷◌,
  ◌++◌, Text, codes, same, same_refl, any, All, if◌then◌else◌, Result, ok, err, ◌>>=◌,
}
use mitools.Errors.{Cause}

-- The columns of the table, in order; none before it is created.
abbrev pub Columns : Type 0
Columns = Option (List Text)

abbrev pub blob_columns : List Text
blob_columns =
    codes "pk"
    ∷ codes "entity"
    ∷ codes "version"
    ∷ codes "expires_at"
    ∷ codes "updated_at"
    ∷ codes "data"
    ∷ []

abbrev pub added_columns : List Text
added_columns = codes "entity" ∷ codes "version" ∷ codes "expires_at" ∷ codes "updated_at" ∷ []

-- `CREATE TABLE IF NOT EXISTS`
unfoldable pub create_table : Columns → List Text
create_table none = blob_columns
create_table (some columns) = columns

-- `ALTER TABLE blobs ADD COLUMN`: whether SQLite says `duplicate column name`, and the table after it.
unfoldable pub alter : Text → List Text → Bool × List Text
alter name columns =
    if any (same name) columns then (true, columns) else (false, columns ++ name ∷ [])

-- What meets one `addColumn`: the other process before it, and any other failure of the statement.
pub record Meeting : Type 0 where
  pub before : List Text → List Text
  pub fault : Option Cause

-- `known` is the set that was read from `PRAGMA table_info`. A duplicate is ignored.
abbrev pub altered : Option Cause → Bool × List Text → Result Cause (List Text)
altered (some cause) (duplicate, columns) = err cause
altered none (duplicate, columns) = ok columns

unfoldable pub add_column : List Text → Meeting → Text → List Text → Result Cause (List Text)
unfolding alter
add_column known m name columns =
    if any (same name) known
    then ok (m.before columns)
    else altered m.fault (alter name (m.before columns))

unfoldable pub add_columns :
    List Text → (Text → Meeting) → List Text → List Text → Result Cause (List Text)
unfolding add_column
add_columns known meet [] columns = ok columns
add_columns known meet (name ∷ names) columns = do
  more ← add_column known (meet name) name columns
  add_columns known meet names more

-- The set of known columns is read once, before the first `addColumn`.
unfoldable pub initialize_schema : (Text → Meeting) → Columns → Result Cause (List Text)
unfolding create_table add_columns
initialize_schema meet table =
    let columns = create_table table in add_columns columns meet added_columns columns

abbrev pub Has : Text → List Text → Type 0
Has name columns = any (same name) columns ≡ true

-- Other processes add columns and drop none, and no statement fails for another reason.
abbrev pub IsMild : Meeting → Type 0
IsMild m =
    ((columns : List Text) (name : Text) → Has name columns → Has name (m.before columns))
    × (m.fault ≡ none)

-- `more` has all the columns of `columns`.
abbrev Extends : List Text → List Text → Type 0
Extends columns more = (name : Text) → Has name columns → Has name more

pub any-append : (p : Text → Bool) (xs ys : List Text) → any p xs ≡ true → any p (xs ++ ys) ≡ true
any-append p [] ys h = cc h
any-append p (x ∷ xs) ys h = ground (arith, any-append p xs ys)

any-last : (p : Text → Bool) (xs : List Text) (x : Text) → p x ≡ true → any p (xs ++ x ∷ []) ≡ true
any-last p [] x h = rw h
any-last p (y ∷ xs) x h = ground (arith, any-last p xs x h)

altered-Extends :
    (name : Text) (columns : List Text)
    → (more : List Text) × (altered none (alter name columns) ≡ ok more)
      × Has name more
      × Extends columns more
unfolding alter
altered-Extends name columns = elim (Bool-cases (any (same name) columns)) [
  | inl e ↦ (columns, rw e, e, λ n h. h)
  | inr e ↦ (
    columns ++ name ∷ [],
    rw e,
    any-last (same name) columns name (same_refl name),
    λ n h. any-append (same n) columns (name ∷ []) h,
  )
]

add_column-Extends :
    (known : List Text) (m : Meeting) (name : Text) (columns : List Text)
    → IsMild m
    → Extends known columns
    → (more : List Text) × (add_column known m name columns ≡ ok more)
      × Has name more
      × Extends columns more
unfolding add_column
add_column-Extends known m name columns mild k = elim (Bool-cases (any (same name) known)) [
  | inl e ↦ (m.before columns, rw e, mild.0 columns name (k name e), λ n h. mild.0 columns n h)
  | inr e ↦
      let a = altered-Extends name (m.before columns) in
      (a.0, rw (e, mild.1) a.1, a.2, λ n h. a.3 n (mild.0 columns n h))
]

add_columns-Extends :
    (known : List Text) (meet : Text → Meeting) (names columns : List Text)
    → ((name : Text) → IsMild (meet name))
    → Extends known columns
    → (more : List Text) × (add_columns known meet names columns ≡ ok more)
      × All (λ n. Has n more) names
      × Extends columns more
unfolding add_columns
add_columns-Extends known meet [] columns mild k = (columns, refl, tt, λ n h. h)
add_columns-Extends known meet (name ∷ names) columns mild k =
    let one = add_column-Extends known (meet name) name columns (mild name) k in
    let rest = add_columns-Extends known meet names one.0 mild (λ n h. one.3 n (k n h)) in
    (rest.0, rw (one.1) rest.1, (rest.3 name one.2, rest.2), λ n h. rest.3 n (one.3 n h))

-- Whatever columns a table of an older version has, and whatever columns other processes add between
-- the statements: if no statement fails for another reason than a duplicate column and no process
-- drops a column, the initialization succeeds, and the table then has the columns that the
-- statements add, and all that it had before.
pub initialize_schema-Has :
    (meet : Text → Meeting) (table : Columns)
    → ((name : Text) → IsMild (meet name))
    → (more : List Text) × (initialize_schema meet table ≡ ok more)
      × All (λ n. Has n more) added_columns
      × ((name : Text) → Has name (create_table table) → Has name more)
unfolding initialize_schema
initialize_schema-Has meet table mild =
    add_columns-Extends (create_table table) meet added_columns (create_table table) mild (λ n h. h)
