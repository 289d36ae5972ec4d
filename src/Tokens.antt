-- ===== src/Tokens.antt =====
-- im_server/src/auth/TokenService.cpp: access and refresh tokens over the session table.
pub mod Replay
pub mod Validation
pub mod Repeat
use improject.Base.{
  ℕ, ℤ, pos, ◌+◌, ◌*◌, ◌<◌, List, [], ◌∷◌, ◌++◌, Bool, true, false, not, ◌&&◌, ◌||◌, Option, none,
  some, Bytes, ltb, leb, if◌then◌else◌, is_pos, bytes_eq, is_empty, find_if, keep_if, length, drop,
}
use improject.Db.Tables.{Tables, AuthSessionRecord}
use improject.Db.Sql.{Conn, Sql, pure, ◌>>=◌, ◌>>◌}
use improject.Db.AuthSessions.{
  NewTokens, create_auth_session, find_by_access_hash, find_by_refresh_hash, rotate_refresh_token,
  was_refresh_token_used, revoke_token_family, revoke_session, revoke_all_user_sessions,
}

pub record TokenPair : Type 0 where
  pub session_id : Bytes
  pub family_id : Bytes
  pub access_token : Bytes
  pub refresh_token : Bytes
  pub access_expires_at : ℕ
  pub refresh_expires_at : ℕ

-- An entry of m_refreshResults, with the request id that is its key.
pub record RefreshResultCacheEntry : Type 0 where
  pub request_id : Bytes
  pub refresh_hash : Bytes
  pub device_id : Bytes
  pub pair : TokenPair
  pub expires_at : ℕ

abbrev pub minute : ℕ
minute = 60

abbrev pub day : ℕ
day = 24 * 60 * 60

-- `now + 120` and the size at which an entry is dropped first.
abbrev pub cache_seconds : ℕ
cache_seconds = 120

abbrev pub cache_size : ℕ
cache_size = 1024

-- What a call draws from the random generator: four tokens, or two; `none` where it fails.
pub record Issued : Type 0 where
  pub session_id : Bytes
  pub family_id : Bytes
  pub access_token : Bytes
  pub refresh_token : Bytes

pub record Drawn : Type 0 where
  pub access_token : Bytes
  pub refresh_token : Bytes

-- The service beside its database connection. The list stands for the hash map in the order in
-- which an iteration meets it, so `begin()` is its head.
pub record Service : Type 0 where
  pub conn : Conn
  pub refresh_results : List RefreshResultCacheEntry

-- How rotateRefresh ends: true with a pair, false, false with the user of the family that it
-- revoked (`outRevokedUserId` is set), or an exception of the random generator.
pub data RefreshResult : Type 0 where
  rotated : TokenPair → RefreshResult
  denied : RefreshResult
  denied_revoking : ℤ → RefreshResult
  thrown : RefreshResult

-- What validateAccess returns with true.
pub record Access : Type 0 where
  pub user_id : ℤ
  pub session_id : Bytes
  pub expires_at : ℕ

-- Runs a database method on the service's connection.
abbrev on_conn : {A : Type 0} → Sql A → Service → A × Service
on_conn m s = let (a, c) = m s.conn in (a, record s { conn = c })

-- record.revoked || accessExpiresAt <= now || deviceId != deviceId || (!sessionId.empty() && ...)
abbrev access_refused : AuthSessionRecord → Bytes → Bytes → ℕ → Bool
access_refused r session_id device_id now =
    r.revoked
    || leb r.access_expires_at now
    || not (bytes_eq r.device_id device_id)
    || (not (is_empty session_id) && not (bytes_eq r.session_id session_id))

abbrev pub checked_access : Option AuthSessionRecord → Bytes → Bytes → ℕ → Option Access
checked_access none session_id device_id now = none
checked_access (some r) session_id device_id now =
    if access_refused r session_id device_id now
    then none
    else some (record {
      user_id = r.user_id;
      session_id = r.session_id;
      expires_at = r.access_expires_at;
    })

abbrev has_request : Bytes → RefreshResultCacheEntry → Bool
has_request request_id e = bytes_eq e.request_id request_id

-- The entries that the first loop of rotateRefresh keeps.
abbrev pub unexpired : ℕ → List RefreshResultCacheEntry → List RefreshResultCacheEntry
unexpired now = keep_if (λ e. not (leb e.expires_at now))

-- `if (size() >= 1024) erase(begin()); emplace(...)`, for a request id that is not in the map.
unfoldable pub remember :
    RefreshResultCacheEntry → List RefreshResultCacheEntry → List RefreshResultCacheEntry
remember e cache = (if leb cache_size (length cache) then drop 1 cache else cache) ++ e ∷ []

-- The token is not the current one of a session: a used one revokes its family.
unfoldable pub detect_replay : Bytes → Service → RefreshResult × Service
detect_replay old_hash s =
    let (used, s') = on_conn (was_refresh_token_used old_hash) s in
    elim used [
      | none ↦ (denied, s')
      | some family ↦
          if is_empty family
          then (denied, s')
          else let (user, s'') = on_conn (revoke_token_family family) s' in
            (if is_pos user then denied_revoking user else denied, s'')
    ]

-- The SHA-256 of OpenSSL in hexadecimal, as tokenHash returns it.
module _ (token_hash : Bytes → Bytes) where
  -- issue: `none` is an exception, of the generator or as the session was not saved.
  pub issue : Option Issued → ℤ → Bytes → ℕ → Sql (Option TokenPair)
  issue none user_id device_id now = pure none
  issue (some i) user_id device_id now = do
    saved ←
        create_auth_session i.session_id i.family_id user_id device_id (token_hash i.access_token)
          (now + 5 * minute) (token_hash i.refresh_token) (now + 2 * day) now
    pure (
        if saved
        then some (record {
          session_id = i.session_id;
          family_id = i.family_id;
          access_token = i.access_token;
          refresh_token = i.refresh_token;
          access_expires_at = now + 5 * minute;
          refresh_expires_at = now + 2 * day;
        })
        else none)

  unfoldable pub validate_access : Bytes → Bytes → Bytes → ℕ → Sql (Option Access)
  validate_access token session_id device_id now =
      if is_empty token || is_empty device_id then pure none else do
        found ← find_by_access_hash (token_hash token)
        pure (checked_access found session_id device_id now)

  abbrev rotated_pair : AuthSessionRecord → Drawn → ℕ → TokenPair
  rotated_pair old drawn now = record {
    session_id = old.session_id;
    family_id = old.family_id;
    access_token = drawn.access_token;
    refresh_token = drawn.refresh_token;
    access_expires_at = now + 15 * minute;
    refresh_expires_at = now + 30 * day;
  }

  abbrev pub new_tokens : Drawn → ℕ → NewTokens
  new_tokens drawn now = record {
    access_hash = token_hash drawn.access_token;
    access_expires_at = now + 15 * minute;
    refresh_hash = token_hash drawn.refresh_token;
    refresh_expires_at = now + 30 * day;
  }

  -- The part of rotateRefresh behind the checks of the session.
  unfoldable pub renew :
      Option Drawn
      → AuthSessionRecord
      → Bytes
      → Bytes
      → Bytes
      → ℕ
      → Service
      → RefreshResult × Service
  renew none old old_hash device_id request_id now s = (thrown, s)
  renew (some drawn) old old_hash device_id request_id now s =
      let (ok, s') = on_conn (rotate_refresh_token old old_hash (new_tokens drawn now) now) s in
      if ok
      then (
        rotated (rotated_pair old drawn now),
        record s' {
          refresh_results =
              remember
                (record {
                  request_id = request_id;
                  refresh_hash = old_hash;
                  device_id = device_id;
                  pair = rotated_pair old drawn now;
                  expires_at = now + cache_seconds;
                })
                s'.refresh_results;
        },
      )
      else detect_replay old_hash s'

  -- The part of rotateRefresh behind the cache of results.
  unfoldable pub refresh_uncached :
      Option Drawn → Bytes → Bytes → Bytes → ℕ → Service → RefreshResult × Service
  refresh_uncached drawn old_hash device_id request_id now s =
      let (found, s') = on_conn (find_by_refresh_hash old_hash) s in
      elim found [
        | none ↦ detect_replay old_hash s'
        | some old ↦
            if old.revoked
              || leb old.refresh_expires_at now
              || not (bytes_eq old.device_id device_id)
            then (denied, s')
            else renew drawn old old_hash device_id request_id now s'
      ]

  unfoldable pub rotate_refresh :
      Option Drawn → Bytes → Bytes → Bytes → ℕ → Service → RefreshResult × Service
  rotate_refresh drawn refresh_token device_id request_id now s =
      if is_empty refresh_token || is_empty device_id || is_empty request_id
      then (denied, s)
      else let old_hash = token_hash refresh_token in
        let s' : Service = record s { refresh_results = unexpired now s.refresh_results } in
        elim (find_if (has_request request_id) s'.refresh_results) [
          | some e ↦ (
            if not (bytes_eq e.refresh_hash old_hash) || not (bytes_eq e.device_id device_id)
                then denied
                else rotated e.pair,
            s',
          )
          | none ↦ refresh_uncached drawn old_hash device_id request_id now s'
        ]

unfoldable pub revoke_one : Bytes → Sql (Unit {0})
revoke_one session_id = if is_empty session_id then pure tt else revoke_session session_id

unfoldable pub revoke_all_for_user : ℤ → Sql (Unit {0})
revoke_all_for_user user_id = if is_pos user_id then revoke_all_user_sessions user_id else pure tt
