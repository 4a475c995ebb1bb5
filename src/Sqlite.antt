-- ===== src/Sqlite.antt =====
-- persistence/sqlite.ts: a transaction on the shared connection, over any state of the database.
use mitools.Prelude.{Option, none, some, Text, codes, ◌++◌, Bool, if◌then◌else◌, Result, ok, err}
use mitools.Errors.{Cause, OperationError, sync}

-- `db.transaction(fn)()`: a throw of `fn`, or of the commit, rolls everything back.
abbrev commit : {S A : Type 0} → Option Cause → S → Result Cause A × S → Result Cause A × S
commit fault db (err cause, db') = (err cause, db)
commit none db (ok a, db') = (ok a, db')
commit (some cause) db (ok a, db') = (err cause, db)

abbrev in_sync : {S A : Type 0} → Text → Result Cause A × S → Result OperationError A × S
in_sync label (r, db) = (sync (codes "sqlite") label r, db)

unfoldable pub transaction :
    {S A : Type 0}
    → Option Cause
    → Text
    → (S → Result Cause A × S)
    → S
    → Result OperationError A × S
transaction fault label fn db = in_sync label (commit fault db (fn db))

-- The file that `layerConfig` opens.
unfoldable pub database_path : Bool → Text → Text
database_path dockerized db_name = if dockerized then codes "/data/" ++ db_name else db_name
