-- ===== src/Tokens/Repeat.antt =====
-- About the cache of results in rotateRefresh of TokenService.cpp.
use improject.Base.{
  ℕ, ◌+◌, ◌<◌, List, [], ◌∷◌, ◌++◌, true, false, ◌≡◌, refl, Option, none, some, Bytes, arith, drop,
  is_empty, bytes_eq, bytes_eq_refl, find_if,
}
use improject.Db.Tables.{AuthSessionRecord}
use improject.Db.AuthSessions.{rotate_refresh_token, find_by_refresh_hash}
use improject.Tokens.{
  Service, Drawn, RefreshResultCacheEntry, TokenPair, rotated, cache_seconds, unexpired,
  has_request, remember, renew, new_tokens, refresh_uncached, rotate_refresh,
}
use improject.Tokens.Replay.{IsNew, uncached, refresh_uncached_renews, detect_replay_ne_rotated}

-- An entry that is not expired, behind entries that are not of the request.
find_if-unexpired :
    (request_id : Bytes) (now : ℕ) (e : RefreshResultCacheEntry)
    (cache : List RefreshResultCacheEntry)
    → find_if (has_request request_id) cache ≡ none
    → bytes_eq e.request_id request_id ≡ true
    → now < e.expires_at
    → find_if (has_request request_id) (unexpired now (cache ++ e ∷ [])) ≡ some e
find_if-unexpired request_id now e [] h same fresh = ground arith
find_if-unexpired request_id now e (x ∷ xs) h same fresh =
    ground (arith, find_if-unexpired request_id now e xs)

find_if-drop :
    (request_id : Bytes) (cache : List RefreshResultCacheEntry)
    → find_if (has_request request_id) cache ≡ none
    → find_if (has_request request_id) (drop 1 cache) ≡ none
find_if-drop request_id [] h = refl
find_if-drop request_id (x ∷ xs) h = ground arith

find_if-remember :
    (request_id : Bytes) (now : ℕ) (e : RefreshResultCacheEntry)
    (cache : List RefreshResultCacheEntry)
    → find_if (has_request request_id) cache ≡ none
    → bytes_eq e.request_id request_id ≡ true
    → now < e.expires_at
    → find_if (has_request request_id) (unexpired now (remember e cache)) ≡ some e
unfolding remember
find_if-remember request_id now e cache h same fresh = ground (
  arith,
  find_if-unexpired request_id now e cache h same fresh,
  find_if-unexpired request_id now e (drop 1 cache) (find_if-drop request_id cache h) same fresh,
)

module _ (token_hash : Bytes → Bytes) where
  -- What renew puts into the cache.
  entry : Bytes → Bytes → Bytes → TokenPair → ℕ → RefreshResultCacheEntry
  entry request_id hash device_id pair now = record {
    request_id = request_id;
    refresh_hash = hash;
    device_id = device_id;
    pair = pair;
    expires_at = now + cache_seconds;
  }

  renew_remembers :
      (drawn : Drawn) (old : AuthSessionRecord) (hash device_id request_id : Bytes) (now : ℕ)
      (s : Service) (pair : TokenPair)
      → (renew token_hash (some drawn) old hash device_id request_id now s).0 ≡ rotated pair
      → (renew token_hash (some drawn) old hash device_id request_id now s).1.refresh_results
        ≡ remember (entry request_id hash device_id pair now) s.refresh_results
  unfolding renew entry
  renew_remembers drawn old hash device_id request_id now s pair e = ground (
    arith,
    detect_replay_ne_rotated hash
        (record s {
          conn = (rotate_refresh_token old hash (new_tokens token_hash drawn now) now s.conn).1;
        })
        pair,
  )

  refresh_uncached_remembers :
      (drawn : Drawn) (hash device_id request_id : Bytes) (now : ℕ) (s : Service) (pair : TokenPair)
      → (refresh_uncached token_hash (some drawn) hash device_id request_id now s).0 ≡ rotated pair
      → (refresh_uncached token_hash (some drawn) hash device_id request_id now s).1.refresh_results
        ≡ remember (entry request_id hash device_id pair now) s.refresh_results
  refresh_uncached_remembers drawn hash device_id request_id now s pair e =
      let (old, same) =
        refresh_uncached_renews token_hash (some drawn) hash device_id request_id now s pair e in
      rw same (
        renew_remembers drawn old hash device_id request_id now
          (record s { conn = (find_by_refresh_hash hash s.conn).1 }) pair (rw (← same) e))

  -- A request that the cache holds.
  answered :
      (drawn : Option Drawn) (token device_id request_id : Bytes) (now later : ℕ) (t : Service)
      (pair : TokenPair)
      → is_empty token ≡ false
      → is_empty device_id ≡ false
      → is_empty request_id ≡ false
      → find_if (has_request request_id) (unexpired later t.refresh_results)
        ≡ some (entry request_id (token_hash token) device_id pair now)
      → rotate_refresh token_hash drawn token device_id request_id later t
        ≡ (rotated pair, record t { refresh_results = unexpired later t.refresh_results })
  unfolding rotate_refresh entry
  answered drawn token device_id request_id now later t pair a b c found =
      ground (arith, bytes_eq_refl (token_hash token), bytes_eq_refl device_id)

  held :
      (drawn : Drawn) (token device_id request_id : Bytes) (now later : ℕ) (s : Service)
      (pair : TokenPair)
      → IsNew token_hash token device_id request_id now s
      → (rotate_refresh token_hash (some drawn) token device_id request_id now s).0 ≡ rotated pair
      → later < now + 120
      → find_if (has_request request_id) (
          unexpired later
            (rotate_refresh token_hash
              (some drawn)
              token
              device_id
              request_id
              now
              s).1.refresh_results)
        ≡ some (entry request_id (token_hash token) device_id pair now)
  unfolding entry
  held drawn token device_id request_id now later s pair new e soon =
      let same = uncached token_hash (some drawn) token device_id request_id now s new in
      rw
        (
          same,
          refresh_uncached_remembers drawn (token_hash token) device_id request_id now
              (record s { refresh_results = unexpired now s.refresh_results }) pair (rw (← same) e),
        )
        (find_if-remember request_id later _ (unexpired now s.refresh_results) new.3
          (bytes_eq_refl request_id) (omega arith))

  -- A rotation that succeeded under a new request is answered again with the same pair, for 120
  -- seconds, if nothing came between: the same token, device and request id give it, whatever would
  -- be drawn, and the database is not touched.
  pub rotate_refresh-repeat :
      (drawn : Drawn) (drawn' : Option Drawn) (token device_id request_id : Bytes) (now later : ℕ)
      (s : Service) (pair : TokenPair)
      → IsNew token_hash token device_id request_id now s
      → (rotate_refresh token_hash (some drawn) token device_id request_id now s).0 ≡ rotated pair
      → later < now + 120
      → let t = (rotate_refresh token_hash (some drawn) token device_id request_id now s).1 in
        let r = rotate_refresh token_hash drawn' token device_id request_id later t in
        (r.0 ≡ rotated pair) × (r.1.conn ≡ t.conn)
  rotate_refresh-repeat drawn drawn' token device_id request_id now later s pair new e soon =
      rw
        (answered drawn' token device_id request_id now later
          (rotate_refresh token_hash (some drawn) token device_id request_id now s).1 pair new.0
          new.1 new.2 (held drawn token device_id request_id now later s pair new e soon))
        (refl, refl)
