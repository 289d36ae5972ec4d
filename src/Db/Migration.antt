-- ===== src/Db/Migration.antt =====
-- im_server/src/Database.cpp: the migration of the conversation ids of old rows, and when open runs
-- it. An id of a user is not negative here.
use improject.Base.{
  ℕ, ℤ, pos, negsuc, ◌+◌, ◌*◌, List, [], ◌∷◌, map, Bool, true, false, not, Option, none, some, ◌≡◌,
  refl, ap, ◌∙◌, ltb, if◌then◌else◌, is_pos, All, arith,
}
use improject.Db.Tables.{Tables, MessageRow, make_conversation_id}
use improject.Db.Sql.{
  Conn, Sql, pure, ◌>>=◌, prepare, begin, commit, step, step_row, abort, AllOrNothing,
}

-- The expression of the UPDATE.
unfoldable pub migrated_id : ℤ → ℤ → ℕ
migrated_id (pos a) (pos b) = (if ltb a b then a else b) * 4294967296 + (if ltb a b then b else a)
migrated_id _ _ = 0

abbrev pub migrate_row : MessageRow → MessageRow
migrate_row row = record row { conversation_id = migrated_id row.sender_id row.receiver_id }

-- UPDATE messages SET conversation_id = ...
unfoldable pub migrate_rows : Tables → Tables
migrate_rows t = record t { messages = map migrate_row t.messages }

-- PRAGMA user_version=1;
abbrev pub set_version : Tables → Tables
set_version t = record t { user_version = 1 }

unfoldable pub migrate_conversation_ids : Sql Bool
unfolding migrate_rows
migrate_conversation_ids = do
  begun ← begin
  if not begun then pure false else do
    updated ← step (λ t. some (migrate_rows t))
    if not updated then abort else do
      versioned ← step (λ t. some (set_version t))
      if not versioned
          then abort
          else do committed ← commit; if not committed then abort else pure true

-- readDatabaseVersion: `none` is a negative result.
unfoldable pub read_database_version : Sql (Option ℕ)
read_database_version = do
  prepared ← prepare
  if not prepared then pure none else step_row (λ t. some t.user_version)

-- The part of open that looks at the version; DB_SCHEMA_VERSION is 1.
unfoldable pub upgrade_schema : Sql Bool
unfolding migrate_conversation_ids read_database_version
upgrade_schema = do
  version ← read_database_version
  elim version [
    | none ↦ pure false
    | some v ↦ if ltb v 1 then migrate_conversation_ids else pure true
  ]

-- The users of a message have positive ids.
abbrev pub HasUsers : MessageRow → Type 0
HasUsers row = (is_pos row.sender_id ≡ true) × (is_pos row.receiver_id ≡ true)

-- A row with the id that saveMessage would give it now.
abbrev pub renumbered : MessageRow → MessageRow
renumbered row = record row { conversation_id = make_conversation_id row.sender_id row.receiver_id }

migrated_id_lem :
    (a b : ℤ) → is_pos a ≡ true → is_pos b ≡ true → migrated_id a b ≡ make_conversation_id a b
unfolding migrated_id make_conversation_id
migrated_id_lem (pos a) (pos b) p q = ground (arith, p, q)
migrated_id_lem (pos a) (negsuc b) p q = cc
migrated_id_lem (negsuc a) b p q = cc

map-renumbered :
    (rows : List MessageRow) → All HasUsers rows → map migrate_row rows ≡ map renumbered rows
map-renumbered [] h = refl
map-renumbered (row ∷ rows) ((p, q), h) =
    ap (λ i. record row { conversation_id = i } ∷ map migrate_row rows)
      (migrated_id_lem row.sender_id row.receiver_id p q)
    ∙ ap (λ rest. renumbered row ∷ rest) (map-renumbered rows h)

-- Let the users of all messages have positive ids, and no transaction be open. Then the migration
-- that SQLite computes gives every message the conversation id that makeConversationId gives its
-- users, and sets the version, and returns true; or it changes nothing and returns false. No
-- transaction stays open.
pub migrate_conversation_ids-AllOrNothing :
    (c : Conn)
    → All HasUsers c.tables.messages
    → c.saved ≡ none
    → AllOrNothing
        (λ t. set_version (record t { messages = map renumbered t.messages }))
        c
        (migrate_conversation_ids c)
unfolding migrate_conversation_ids migrate_rows
migrate_conversation_ids-AllOrNothing c h e = ground (arith, e, map-renumbered c.tables.messages h)
