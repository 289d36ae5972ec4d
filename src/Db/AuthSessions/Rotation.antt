-- ===== src/Db/AuthSessions/Rotation.antt =====
-- About rotateRefreshToken of Database.cpp.
use improject.Base.{
  ℕ, ◌≤◌, List, [], ◌∷◌, Bool, true, false, ◌≡◌, refl, ap, ◌⊎◌, inl, inr, none, some, Bytes, arith,
  bytes_eq, bytes_eq_iff, bytes_eq_refl, Option-cases, ◌≢◌, find_if, update_if, count_if,
}
use improject.Db.Tables.{Tables, AuthSessionRecord, AuthSessionRow, HistoryRow}
use improject.Db.Sql.{Conn}
use improject.Db.AuthSessions.{
  NewTokens, has_refresh, is_current, renew_row, insert_history, update_session,
  rotate_refresh_token,
}

-- How rotateRefreshToken ends, on a connection with no open transaction.
pub data Rotated (old : AuthSessionRecord) (hash : Bytes) (new : NewTokens) (now : ℕ) (c : Conn)
    (r : Bool × Conn) : Type 0 where
  refused : r.0 ≡ false → r.1.tables ≡ c.tables → r.1.saved ≡ none → Rotated old hash new now c r
  rotated :
      (spent : Tables)
      → r.0 ≡ true
      → insert_history old hash now c.tables ≡ some spent
      → update_session old hash new now spent ≡ some r.1.tables
      → count_if (is_current old hash) spent.auth_sessions ≡ 1
      → r.1.saved ≡ none
      → Rotated old hash new now c r

module _ (old : AuthSessionRecord) (hash : Bytes) (new : NewTokens) (now : ℕ) (c : Conn) where
  abbrev rotation : Bool × Conn
  rotation = rotate_refresh_token old hash new now c

  -- The token is in the history already.
  rotate_used :
      c.saved ≡ none
      → insert_history old hash now c.tables ≡ none
      → (rotation.0 ≡ false) × (rotation.1.tables ≡ c.tables) × (rotation.1.saved ≡ none)
  unfolding rotate_refresh_token
  rotate_used h e = ground arith

  rotate_unused :
      (spent : Tables)
      → c.saved ≡ none
      → insert_history old hash now c.tables ≡ some spent
      → (rotation.1.saved ≡ none)
        × (((rotation.0 ≡ false) × (rotation.1.tables ≡ c.tables))
            ⊎ ((rotation.0 ≡ true)
                × (update_session old hash new now spent ≡ some rotation.1.tables)
                × (count_if (is_current old hash) spent.auth_sessions ≡ 1)))
  unfolding rotate_refresh_token
  rotate_unused spent h e = ground arith

  Rotated-of_cases :
      (spent : Tables)
      → insert_history old hash now c.tables ≡ some spent
      → rotation.1.saved ≡ none
      → ((rotation.0 ≡ false) × (rotation.1.tables ≡ c.tables))
        ⊎ ((rotation.0 ≡ true)
            × (update_session old hash new now spent ≡ some rotation.1.tables)
            × (count_if (is_current old hash) spent.auth_sessions ≡ 1))
      → Rotated old hash new now c rotation
  Rotated-of_cases spent e closed (inl (result, kept)) = refused result kept closed
  Rotated-of_cases spent e closed (inr (result, updated, one)) =
      rotated spent result e updated one closed

-- On a connection with no open transaction, rotateRefreshToken either returns false and changes
-- nothing, or returns true having put the old token in the history and renewed exactly one session;
-- no transaction stays open.
pub rotate_refresh_token-Rotated :
    (old : AuthSessionRecord) (hash : Bytes) (new : NewTokens) (now : ℕ) (c : Conn)
    → c.saved ≡ none
    → Rotated old hash new now c (rotate_refresh_token old hash new now c)
rotate_refresh_token-Rotated old hash new now c h =
    elim (Option-cases (insert_history old hash now c.tables)) [
      | inl e ↦ let u = rotate_used old hash new now c h e in refused u.0 u.1 u.2
      | inr (spent, e) ↦
          let u = rotate_unused old hash new now c spent h e in
          Rotated-of_cases old hash new now c spent e u.0 u.1
    ]

-- No two sessions hold one refresh token: the unique index on refresh_hash.
abbrev pub RefreshUnique : List AuthSessionRow → Type 0
RefreshUnique rows = (hash : Bytes) → count_if (has_refresh hash) rows ≤ 1

-- Of the rows with the hash only the renewed ones lose it, and those are all.
count_current_le :
    (old : AuthSessionRecord) (hash : Bytes) (rows : List AuthSessionRow)
    → count_if (is_current old hash) rows ≤ count_if (has_refresh hash) rows
count_current_le old hash [] = omega arith
count_current_le old hash (row ∷ rows) = ground (arith, count_current_le old hash rows)

no_refresh-update_if :
    (old : AuthSessionRecord) (hash : Bytes) (new : NewTokens) (now : ℕ)
    (rows : List AuthSessionRow)
    → new.refresh_hash ≢ hash
    → count_if (has_refresh hash) rows ≤ count_if (is_current old hash) rows
    → find_if (has_refresh hash) (update_if (is_current old hash) (renew_row new now) rows) ≡ none
no_refresh-update_if old hash new now [] fresh h = refl
no_refresh-update_if old hash new now (row ∷ rows) fresh h = ground (
  arith,
  no_refresh-update_if old hash new now rows fresh,
  count_current_le old hash rows,
  bytes_eq_iff new.refresh_hash hash,
)

auth_sessions-insert_history :
    (old : AuthSessionRecord) (hash : Bytes) (now : ℕ) (t u : Tables)
    → insert_history old hash now t ≡ some u
    → u.auth_sessions ≡ t.auth_sessions
unfolding insert_history
auth_sessions-insert_history old hash now t u h = ground arith

auth_sessions-update_session :
    (old : AuthSessionRecord) (hash : Bytes) (new : NewTokens) (now : ℕ) (t u : Tables)
    → update_session old hash new now t ≡ some u
    → u.auth_sessions ≡ update_if (is_current old hash) (renew_row new now) t.auth_sessions
unfolding update_session
auth_sessions-update_session old hash new now t u h = ground arith

refresh_history-update_session :
    (old : AuthSessionRecord) (hash : Bytes) (new : NewTokens) (now : ℕ) (t u : Tables)
    → update_session old hash new now t ≡ some u
    → u.refresh_history ≡ t.refresh_history
unfolding update_session
refresh_history-update_session old hash new now t u h = ground arith

find-insert_history :
    (old : AuthSessionRecord) (hash : Bytes) (now : ℕ) (t u : Tables)
    → insert_history old hash now t ≡ some u
    → find_if (λ (row : HistoryRow). bytes_eq row.token_hash hash) u.refresh_history
      ≡ some (record {
        family_id = old.family_id;
        token_hash = hash;
        generation = old.generation;
        used_at = now;
      })
unfolding insert_history
find-insert_history old hash now t u h = ground (arith, bytes_eq_refl hash)

-- A token whose rotation succeeds finds no session afterwards, and is in the history under its
-- family, given the unique index and a new token that differs from it.
pub rotate_refresh_token_spends :
    (old : AuthSessionRecord) (hash : Bytes) (new : NewTokens) (now : ℕ) (c : Conn)
    → c.saved ≡ none
    → RefreshUnique c.tables.auth_sessions
    → new.refresh_hash ≢ hash
    → (rotate_refresh_token old hash new now c).0 ≡ true
    → let t = (rotate_refresh_token old hash new now c).1.tables in
      (find_if (has_refresh hash) t.auth_sessions ≡ none)
      × (find_if (λ (row : HistoryRow). bytes_eq row.token_hash hash) t.refresh_history
          ≡ some (record {
            family_id = old.family_id;
            token_hash = hash;
            generation = old.generation;
            used_at = now;
          }))
rotate_refresh_token_spends old hash new now c h unique fresh done =
    go _ done (rotate_refresh_token-Rotated old hash new now c h)
  where
    go :
        (r : Bool × Conn)
        → r.0 ≡ true
        → Rotated old hash new now c r
        → (find_if (has_refresh hash) r.1.tables.auth_sessions ≡ none)
          × (find_if (λ (row : HistoryRow). bytes_eq row.token_hash hash) r.1.tables.refresh_history
              ≡ some (record {
                family_id = old.family_id;
                token_hash = hash;
                generation = old.generation;
                used_at = now;
              }))
    go r d (refused result _ _) = cc
    go r d (rotated spent _ written updated one _) = (
      rw (auth_sessions-update_session old hash new now spent r.1.tables updated) (
          no_refresh-update_if old hash new now spent.auth_sessions fresh (
            omega (
              arith,
              one,
              unique hash,
              ap (count_if (has_refresh hash))
                  (auth_sessions-insert_history old hash now c.tables spent written),
            ))),
      rw (refresh_history-update_session old hash new now spent r.1.tables updated)
          (find-insert_history old hash now c.tables spent written),
    )
