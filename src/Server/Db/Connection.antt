-- ===== src/Server/Db/Connection.antt =====
-- The connection of `Db`: it runs one statement at a time, and any statement may fail. A method of
-- `Db` is an action, and what it wrote before a failing statement stays written.
use railyard.Base.{ℕ, suc, ◌++◌, Text, txt, Option, none, some, Result, ok, err, Stateful}
use railyard.Server.Db.Schema.{Tables}

-- `faults n` is the error with which the n-th statement fails, if it does.
pub record Db : Type 0 where
  pub tables : Tables
  pub faults : ℕ → Option Text
  pub statements : ℕ

abbrev pub Action : Type 0 → Type 0
Action = Stateful Db

unfoldable pub db_error : Text → Text
db_error error = txt "database error: " ++ error

abbrev count_statement : Db → Db
count_statement db = record db { statements = suc db.statements }

-- A statement that reads
unfoldable pub query : {A : Type 0} → (Tables → A) → Action A
query select db = elim (db.faults db.statements) [
  | none ↦ (ok (select db.tables), count_statement db)
  | some why ↦ (err (db_error why), count_statement db)
]

-- A statement that writes, with the number of rows changed
abbrev written : Db → Result (ℕ × Tables) → Result ℕ × Db
written db (ok (n, tables)) = (ok n, record db { tables = tables })
written db (err why) = (err (db_error why), db)

unfoldable pub execute : (Tables → Result (ℕ × Tables)) → Action ℕ
execute change db = elim (db.faults db.statements) [
  | none ↦ written (count_statement db) (change db.tables)
  | some why ↦ (err (db_error why), count_statement db)
]

-- A statement that writes and that no constraint refuses
unfoldable pub execute_all : (Tables → Tables) → Action (Unit {0})
execute_all change db = elim (db.faults db.statements) [
  | none ↦ (ok tt, record (count_statement db) { tables = change db.tables })
  | some why ↦ (err (db_error why), count_statement db)
]
