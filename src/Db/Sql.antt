-- ===== src/Db/Sql.antt =====
-- One SQLite connection of Database.cpp, as a state monad. Whether the engine carries a call out
-- (prepare, step, BEGIN, COMMIT) is read from `works`, so that every failure branch is reached.
use improject.Base.{ℕ, suc, ◌≡◌, Bool, false, ◌&&◌, Option, none, some, ◌==◌, if◌then◌else◌}
use improject.Db.Tables.{Tables}

-- `saved` is what a rollback restores, while a transaction is open.
pub record Conn : Type 0 where
  pub tables : Tables
  pub saved : Option Tables
  pub works : ℕ → Bool
  pub calls : ℕ

abbrev pub Sql : Type 0 → Type 0
Sql A = Conn → A × Conn

abbrev pub pure : {A : Type 0} → A → Sql A
pure a c = (a, c)

infixl 5 ◌>>=◌ ◌>>◌
abbrev pub ◌>>=◌ : {A B : Type 0} → Sql A → (A → Sql B) → Sql B
◌>>=◌ m f c = let (a, c') = m c in f a c'

abbrev pub ◌>>◌ : {A B : Type 0} → Sql A → Sql B → Sql B
m >> k = m >>= λ _. k

abbrev pub next_call : Conn → Conn
next_call c = record c { calls = suc c.calls }

-- sqlite3_prepare_v2(...) == SQLITE_OK
abbrev pub prepare : Sql Bool
prepare c = (c.works c.calls, next_call c)

-- BEGIN fails inside an open transaction.
abbrev pub begin : Sql Bool
begin c = elim c.saved [
  | none ↦ (
    c.works c.calls,
    if c.works c.calls then record (next_call c) { saved = some c.tables } else next_call c,
  )
  | some t ↦ (false, next_call c)
]

-- A COMMIT that fails leaves the transaction open; without one it is an error.
abbrev pub commit : Sql Bool
commit c = elim c.saved [
  | none ↦ (false, next_call c)
  | some t ↦ (
    c.works c.calls,
    if c.works c.calls then record (next_call c) { saved = none } else next_call c,
  )
]

-- ROLLBACK; outside a transaction it changes nothing. Its result is not read anywhere.
abbrev pub rollback : Sql (Unit {0})
rollback c = elim c.saved [ none ↦ (tt, c) | some t ↦ (tt, record c { tables = t; saved = none }) ]

-- sqlite3_step(...) == SQLITE_DONE of a write; `none` is a violated UNIQUE constraint.
abbrev pub step : (Tables → Option Tables) → Sql Bool
step write c = elim (write c.tables) [
  | none ↦ (false, next_call c)
  | some t ↦ (
    c.works c.calls,
    if c.works c.calls then record (next_call c) { tables = t } else next_call c,
  )
]

-- sqlite3_step(...) == SQLITE_DONE && sqlite3_changes(db) == 1 of an UPDATE that matches `count` rows.
abbrev pub step_one : (Tables → ℕ) → (Tables → Option Tables) → Sql Bool
step_one count write c = let (done, d) = step write c in (done && count c.tables == 1, d)

-- sqlite3_step of a SELECT on the writing connection, which sees its own transaction: the row, or
-- `none` where it is not SQLITE_ROW.
abbrev pub step_row : {A : Type 0} → (Tables → Option A) → Sql (Option A)
step_row select c = (if c.works c.calls then select c.tables else none, next_call c)

-- A SELECT on a pooled connection, which sees what is committed. `missed` is what the source
-- returns if the statement is not prepared.
abbrev pub read : {A : Type 0} → (Tables → A) → A → Sql A
read select missed c = (
  if c.works c.calls then select (elim c.saved [ none ↦ c.tables | some t ↦ t ]) else missed,
  next_call c,
)

-- `rollback(); return false;`
abbrev pub abort : Sql Bool
abort = do rollback; pure false

-- What a transaction promises its caller: no transaction is left open, and the tables are those of
-- `write` if the result is true, and unchanged if it is false.
pub record AllOrNothing (write : Tables → Tables) (c : Conn) (r : Bool × Conn) : Type 0 where
  pub closed : r.1.saved ≡ none
  pub written : r.1.tables ≡ (if r.0 then write c.tables else c.tables)
