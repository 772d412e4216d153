-- ===== src/Store/Tables.antt =====
-- The tables of the database, as internal/store uses them. The database is a third-party package: a
-- table is a parameter, the record `Table`, with the documented laws of its statements in `IsTable`.
-- A statement of the source is the key and the row that it is given, and for
-- `INSERT ... ON CONFLICT DO UPDATE SET` the row that it makes of the old row and the excluded one.
use nett.Prelude.{ℕ, Bool, Option, none, some, List, ◌≡◌, ◌≢◌, Result, ok, All, true}
use nett.Text.{Bytes}

pub record Table (State Key Row : Type 0) : Type 0 where
  -- SELECT ... WHERE key = ?; an error is a text
  pub select_row : State → Key → Result Bytes (Option Row)
  -- INSERT ... ON CONFLICT(key) DO UPDATE SET ...
  pub upsert_row : (Row → Row → Row) → Key → Row → State → Result Bytes State
  -- INSERT ... ON CONFLICT(key) DO NOTHING, and the number of the rows affected
  pub insert_row : Key → Row → State → Result Bytes (ℕ × State)
  -- UPDATE ... SET ... WHERE key = ?
  pub update_row : (Row → Row) → Key → State → Result Bytes State
  -- SELECT ... WHERE ... ORDER BY a text, ascending
  pub select_rows : (Row → Bool) → (Row → Bytes) → State → Result Bytes (List Row)

-- A table whose rows are only added, and get the numbers that INSERT returns.
pub record Log (State Row : Type 0) : Type 0 where
  -- INSERT
  pub append_row : Row → State → Result Bytes (ℕ × State)
  -- SELECT ... WHERE ... ORDER BY a text, then the number
  pub select_log : (Row → Bool) → (Row → Bytes) → State → Result Bytes (List (ℕ × Row))

-- the row behind an upsert
abbrev pub after_upsert : {Row : Type 0} → (Row → Row → Row) → Option Row → Row → Row
after_upsert f none row = row
after_upsert f (some old) row = f old row

abbrev pub after_insert : {Row : Type 0} → Option Row → Row → Row
after_insert none row = row
after_insert (some old) row = old

abbrev pub inserted_rows : {Row : Type 0} → Option Row → ℕ
inserted_rows none = 1
inserted_rows (some old) = 0

abbrev pub after_update : {Row : Type 0} → (Row → Row) → Option Row → Option Row
after_update f none = none
after_update f (some old) = some (f old)

-- What SQLite documents of these statements, for statements that return no error: a row is found
-- under its key as it was written, and no other row is touched.
pub record IsTable {State Key Row : Type 0} (t : Table State Key Row) : Type 0 where
  pub upserted :
      (f : Row → Row → Row) (k : Key) (row : Row) (s s' : State) (old : Option Row)
      → t.select_row s k ≡ ok old
      → t.upsert_row f k row s ≡ ok s'
      → t.select_row s' k ≡ ok (some (after_upsert f old row))
  pub upsert_other :
      (f : Row → Row → Row) (k j : Key) (row : Row) (s s' : State)
      → t.upsert_row f k row s ≡ ok s'
      → j ≢ k
      → t.select_row s' j ≡ t.select_row s j
  pub inserted :
      (k : Key) (row : Row) (s s' : State) (n : ℕ) (old : Option Row)
      → t.select_row s k ≡ ok old
      → t.insert_row k row s ≡ ok (n, s')
      → (n ≡ inserted_rows old) × (t.select_row s' k ≡ ok (some (after_insert old row)))
  pub insert_other :
      (k j : Key) (row : Row) (s s' : State) (n : ℕ)
      → t.insert_row k row s ≡ ok (n, s')
      → j ≢ k
      → t.select_row s' j ≡ t.select_row s j
  pub updated :
      (f : Row → Row) (k : Key) (s s' : State) (old : Option Row)
      → t.select_row s k ≡ ok old
      → t.update_row f k s ≡ ok s'
      → t.select_row s' k ≡ ok (after_update f old)
  pub update_other :
      (f : Row → Row) (k j : Key) (s s' : State)
      → t.update_row f k s ≡ ok s'
      → j ≢ k
      → t.select_row s' j ≡ t.select_row s j
  pub selected :
      (p : Row → Bool) (order : Row → Bytes) (s : State) (rows : List Row)
      → t.select_rows p order s ≡ ok rows
      → All (λ row. p row ≡ true) rows
