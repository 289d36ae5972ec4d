-- ===== src/Db/AuthSessions.antt =====
-- Database.cpp: authentication sessions and the history of refresh tokens.
pub mod Rotation
use improject.Base.{
  ℕ, ℤ, pos, suc, List, [], ◌∷◌, Bool, true, false, not, ◌&&◌, ◌||◌, Option, none, some, Bytes,
  ◌==◌, if◌then◌else◌, int_eq, bytes_eq, any_of, find_if, update_if, count_if,
}
use improject.Db.Tables.{Tables, AuthSessionRecord, AuthSessionRow, HistoryRow}
use improject.Db.Sql.{
  Sql, pure, ◌>>=◌, ◌>>◌, prepare, begin, commit, rollback, step, step_one, step_row, read, abort,
}

abbrev pub has_access : Bytes → AuthSessionRow → Bool
has_access hash row = bytes_eq row.access_hash hash

abbrev pub has_refresh : Bytes → AuthSessionRow → Bool
has_refresh hash row = bytes_eq row.refresh_hash hash

abbrev pub in_family : Bytes → AuthSessionRow → Bool
in_family family row = bytes_eq row.family_id family

-- INSERT INTO auth_sessions, under the unique session_id, access_hash and refresh_hash.
unfoldable pub insert_session : AuthSessionRecord → ℕ → Tables → Option Tables
insert_session s now t =
    if any_of
      (λ row.
        bytes_eq row.session_id s.session_id
        || has_access s.access_hash row
        || has_refresh s.refresh_hash row)
      t.auth_sessions
    then none
    else some (record t {
      auth_sessions = record { auth = s; created_at = now; last_used_at = now } ∷ t.auth_sessions;
    })

-- createAuthSession: generation 1, not revoked.
unfoldable pub create_auth_session :
    (session_id family_id : Bytes) (user_id : ℤ) (device_id access_hash : Bytes)
    (access_expires_at : ℕ) (refresh_hash : Bytes) (refresh_expires_at now : ℕ)
    → Sql Bool
create_auth_session session_id family_id user_id device_id access_hash access_expires_at
      refresh_hash refresh_expires_at now =
    do
      prepared ← prepare
      if not prepared
          then pure false
          else step (
              insert_session
                (record {
                  session_id = session_id;
                  family_id = family_id;
                  user_id = user_id;
                  device_id = device_id;
                  access_hash = access_hash;
                  access_expires_at = access_expires_at;
                  refresh_hash = refresh_hash;
                  refresh_expires_at = refresh_expires_at;
                  generation = 1;
                  revoked = false;
                })
                now)

abbrev pub record_of : Option AuthSessionRow → Option AuthSessionRecord
record_of none = none
record_of (some row) = some row.auth

-- `none` is the result false.
unfoldable pub find_by_access_hash : Bytes → Sql (Option AuthSessionRecord)
find_by_access_hash hash = read (λ t. record_of (find_if (has_access hash) t.auth_sessions)) none

unfoldable pub find_by_refresh_hash : Bytes → Sql (Option AuthSessionRecord)
find_by_refresh_hash hash = read (λ t. record_of (find_if (has_refresh hash) t.auth_sessions)) none

-- INSERT INTO auth_refresh_history, under the unique token_hash.
unfoldable pub insert_history : AuthSessionRecord → Bytes → ℕ → Tables → Option Tables
insert_history old old_hash now t =
    if any_of (λ (row : HistoryRow). bytes_eq row.token_hash old_hash) t.refresh_history
    then none
    else some (record t {
      refresh_history =
          record {
            family_id = old.family_id;
            token_hash = old_hash;
            generation = old.generation;
            used_at = now;
          }
          ∷ t.refresh_history;
    })

-- WHERE session_id=? AND refresh_hash=? AND generation=? AND revoked=0
abbrev pub is_current : AuthSessionRecord → Bytes → AuthSessionRow → Bool
is_current old old_hash row =
    bytes_eq row.session_id old.session_id
    && bytes_eq row.refresh_hash old_hash
    && row.generation == old.generation
    && not row.revoked

-- The columns that rotateRefreshToken writes.
pub record NewTokens : Type 0 where
  pub access_hash : Bytes
  pub access_expires_at : ℕ
  pub refresh_hash : Bytes
  pub refresh_expires_at : ℕ

abbrev pub renew_row : NewTokens → ℕ → AuthSessionRow → AuthSessionRow
renew_row new now row = record row {
  auth = record row.auth {
    access_hash = new.access_hash;
    access_expires_at = new.access_expires_at;
    refresh_hash = new.refresh_hash;
    refresh_expires_at = new.refresh_expires_at;
    generation = suc row.generation;
  };
  last_used_at = now;
}

-- UPDATE auth_sessions, refused where a new hash is already in the table.
unfoldable pub update_session : AuthSessionRecord → Bytes → NewTokens → ℕ → Tables → Option Tables
update_session old old_hash new now t =
    if any_of (λ row. has_access new.access_hash row || has_refresh new.refresh_hash row)
      t.auth_sessions
    then none
    else some (record t {
      auth_sessions = update_if (is_current old old_hash) (renew_row new now) t.auth_sessions;
    })

unfoldable pub rotate_refresh_token : AuthSessionRecord → Bytes → NewTokens → ℕ → Sql Bool
rotate_refresh_token old old_hash new now = do
  begun ← begin
  if not begun then pure false else do
    prepared ← prepare
    if not prepared then abort else do
      history_ok ← step (insert_history old old_hash now)
      if not history_ok then abort else do
        prepared' ← prepare
        if not prepared' then abort else do
          update_ok ←
              step_one (λ t. count_if (is_current old old_hash) t.auth_sessions)
                (update_session old old_hash new now)
          if not update_ok
              then abort
              else do committed ← commit; if not committed then abort else pure true

abbrev pub family_of : Option HistoryRow → Option Bytes
family_of none = none
family_of (some row) = some row.family_id

-- wasRefreshTokenUsed: the family of the token, or `none` for false.
unfoldable pub was_refresh_token_used : Bytes → Sql (Option Bytes)
was_refresh_token_used hash =
    read
      (λ t.
        family_of (find_if (λ (row : HistoryRow). bytes_eq row.token_hash hash) t.refresh_history))
      none

abbrev pub revoke_row : AuthSessionRow → AuthSessionRow
revoke_row row = record row { auth = record row.auth { revoked = true } }

-- UPDATE auth_sessions SET revoked=1 WHERE ...
unfoldable pub revoke_where : (AuthSessionRow → Bool) → Tables → Tables
revoke_where p t = record t { auth_sessions = update_if p revoke_row t.auth_sessions }

-- SELECT user_id FROM auth_sessions WHERE family_id=? LIMIT 1
abbrev pub family_user : Bytes → Tables → Option ℤ
family_user family t = elim (find_if (in_family family) t.auth_sessions) [
  | none ↦ none
  | some row ↦ some row.user_id
]

abbrev pub or_zero : Option ℤ → ℤ
or_zero none = pos 0
or_zero (some n) = n

-- The user of the family, read first and returned last; a failed SELECT gives 0 and goes on.
unfoldable pub revoke_token_family : Bytes → Sql ℤ
revoke_token_family family = do
  prepared ← prepare
  user ← (if prepared then step_row (family_user family) else pure none)
  prepared' ← prepare
  if not prepared'
      then pure (pos 0)
      else do step (λ t. some (revoke_where (in_family family) t)); pure (or_zero user)

unfoldable pub revoke_session : Bytes → Sql (Unit {0})
revoke_session session_id = do
  prepared ← prepare
  if not prepared
      then pure tt
      else do step (λ t. some (revoke_where (λ row. bytes_eq row.session_id session_id) t)); pure tt

unfoldable pub revoke_all_user_sessions : ℤ → Sql (Unit {0})
revoke_all_user_sessions user_id = do
  prepared ← prepare
  if not prepared
      then pure tt
      else do step (λ t. some (revoke_where (λ row. int_eq row.user_id user_id) t)); pure tt
