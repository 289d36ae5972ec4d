-- ===== src/Tokens/Replay.antt =====
-- About rotateRefresh of TokenService.cpp: tokens that are used up and come again.
use improject.Base.{
  ℕ, suc, List, [], ◌∷◌, true, false, not, ◌&&◌, ◌≡◌, ◌≢◌, refl, Option, none, some, Bytes, arith,
  if◌then◌else◌, is_pos, bytes_eq, is_empty, Bool-cases, Option-cases, ◌∙◌, inl, inr, any_of,
  find_if, update_if,
}
use improject.Db.Tables.{Tables, AuthSessionRecord, AuthSessionRow, HistoryRow}
use improject.Db.Sql.{Conn}
use improject.Db.AuthSessions.{
  has_refresh, in_family, revoke_row, revoke_where, family_user, or_zero, find_by_refresh_hash,
  was_refresh_token_used, revoke_token_family, rotate_refresh_token,
}
use improject.Db.AuthSessions.Rotation.{RefreshUnique, rotate_refresh_token_spends}
use improject.Tokens.{
  Service, Drawn, TokenPair, rotated, denied, denied_revoking, unexpired, has_request,
  detect_replay, new_tokens, renew, refresh_uncached, rotate_refresh,
}

-- No session of the family is good any more.
abbrev pub FamilyRevoked : Bytes → Tables → Type 0
FamilyRevoked family t =
    any_of (λ row. in_family family row && not row.revoked) t.auth_sessions ≡ false

update_if_revoked :
    (family : Bytes) (rows : List AuthSessionRow)
    → any_of
        (λ row. in_family family row && not row.revoked)
        (update_if (in_family family) revoke_row rows)
      ≡ false
update_if_revoked family [] = refl
update_if_revoked family (row ∷ rows) = ground (arith, update_if_revoked family rows)

revoke_where-FamilyRevoked :
    (family : Bytes) (t : Tables) → FamilyRevoked family (revoke_where (in_family family) t)
unfolding revoke_where
revoke_where-FamilyRevoked family t = update_if_revoked family t.auth_sessions

-- The state in which a token counts as spent: it is in the history, and no session holds it.
pub record IsSpent (hash family : Bytes) (t : Tables) : Type 0 where
  pub unheld : find_if (has_refresh hash) t.auth_sessions ≡ none
  pub row : HistoryRow
  pub used : find_if (λ (r : HistoryRow). bytes_eq r.token_hash hash) t.refresh_history ≡ some row
  pub of_family : row.family_id ≡ family

detect_replay_revokes :
    (hash family : Bytes) (s : Service)
    → s.conn.saved ≡ none
    → ((n : ℕ) → s.conn.works n ≡ true)
    → IsSpent hash family s.conn.tables
    → is_empty family ≡ false
    → let r = detect_replay hash s in
      (r.0 ≡ (
        let user = or_zero (family_user family s.conn.tables) in
        if is_pos user then denied_revoking user else denied))
      × (r.1.conn.tables ≡ revoke_where (in_family family) s.conn.tables)
unfolding detect_replay was_refresh_token_used revoke_token_family
detect_replay_revokes hash family s closed h spent named = ground (
  arith,
  h s.conn.calls,
  h (suc s.conn.calls),
  h (suc (suc s.conn.calls)),
  h (suc (suc (suc s.conn.calls))),
  h (suc (suc (suc (suc s.conn.calls)))),
  spent.used,
  spent.of_family,
)

pub detect_replay_ne_rotated :
    (hash : Bytes) (s : Service) (pair : TokenPair) → (detect_replay hash s).0 ≢ rotated pair
unfolding detect_replay
detect_replay_ne_rotated hash s pair e = ground arith

module _ (token_hash : Bytes → Bytes) where
  -- The request is not answered from the cache.
  abbrev pub IsNew : Bytes → Bytes → Bytes → ℕ → Service → Type 0
  IsNew token device_id request_id now s =
      (is_empty token ≡ false)
      × (is_empty device_id ≡ false)
      × (is_empty request_id ≡ false)
      × (find_if (has_request request_id) (unexpired now s.refresh_results) ≡ none)

  rotate_refresh_spent :
      (drawn : Option Drawn) (token device_id request_id family : Bytes) (now : ℕ) (s : Service)
      → s.conn.saved ≡ none
      → ((n : ℕ) → s.conn.works n ≡ true)
      → IsNew token device_id request_id now s
      → IsSpent (token_hash token) family s.conn.tables
      → rotate_refresh token_hash drawn token device_id request_id now s
        ≡ detect_replay (token_hash token) (record {
          conn = record s.conn { calls = suc s.conn.calls };
          refresh_results = unexpired now s.refresh_results;
        })
  unfolding rotate_refresh refresh_uncached find_by_refresh_hash
  rotate_refresh_spent drawn token device_id request_id family now s closed h new spent =
      ground (arith, h s.conn.calls, spent.unheld)

  -- A spent token that is presented under a new request is refused and revokes every session of its
  -- family; the result names the family's user, so that the user can be told. This is on a
  -- connection with no open transaction whose calls the engine carries out.
  pub rotate_refresh_revokes :
      (drawn : Option Drawn) (token device_id request_id family : Bytes) (now : ℕ) (s : Service)
      → s.conn.saved ≡ none
      → ((n : ℕ) → s.conn.works n ≡ true)
      → IsNew token device_id request_id now s
      → IsSpent (token_hash token) family s.conn.tables
      → is_empty family ≡ false
      → let r = rotate_refresh token_hash drawn token device_id request_id now s in
        (r.0 ≡ (
          let user = or_zero (family_user family s.conn.tables) in
          if is_pos user then denied_revoking user else denied))
        × FamilyRevoked family r.1.conn.tables
  rotate_refresh_revokes drawn token device_id request_id family now s closed h new spent named =
      let d : Service = record {
        conn = record s.conn { calls = suc s.conn.calls };
        refresh_results = unexpired now s.refresh_results;
      } in
      let r =
        detect_replay_revokes (token_hash token) family d closed h
          (record {
            unheld = spent.unheld;
            row = spent.row;
            used = spent.used;
            of_family = spent.of_family;
          })
          named in
      rw (rotate_refresh_spent drawn token device_id request_id family now s closed h new spent)
        (r.0, rw r.1 (revoke_where-FamilyRevoked family s.conn.tables))

  renew_spends :
      (drawn : Drawn) (old : AuthSessionRecord) (hash device_id request_id : Bytes) (now : ℕ)
      (s : Service) (pair : TokenPair)
      → s.conn.saved ≡ none
      → RefreshUnique s.conn.tables.auth_sessions
      → token_hash drawn.refresh_token ≢ hash
      → (renew token_hash (some drawn) old hash device_id request_id now s).0 ≡ rotated pair
      → IsSpent hash pair.family_id
          (renew token_hash (some drawn) old hash device_id request_id now s).1.conn.tables
  unfolding renew
  renew_spends drawn old hash device_id request_id now s pair closed unique fresh e =
      elim (Bool-cases
        (rotate_refresh_token old hash (new_tokens token_hash drawn now) now s.conn).0) [
          | inl ok ↦
              let spends =
                rotate_refresh_token_spends old hash (new_tokens token_hash drawn now) now s.conn
                  closed unique fresh ok in
              rw (ok, renew)
                (record {
                  unheld = spends.0;
                  row = record {
                    family_id = old.family_id;
                    token_hash = hash;
                    generation = old.generation;
                    used_at = now;
                  };
                  used = spends.1;
                  of_family = ground arith;
                })
          | inr bad ↦ absurd (
              detect_replay_ne_rotated hash
                (record s {
                  conn =
                      (rotate_refresh_token old hash (new_tokens token_hash drawn now) now
                        s.conn).1;
                })
                pair (ground arith))
        ]

  pub uncached :
      (drawn : Option Drawn) (token device_id request_id : Bytes) (now : ℕ) (s : Service)
      → IsNew token device_id request_id now s
      → rotate_refresh token_hash drawn token device_id request_id now s
        ≡ refresh_uncached token_hash drawn
            (token_hash token)
            device_id
            request_id
            now
            (record s { refresh_results = unexpired now s.refresh_results })
  unfolding rotate_refresh
  uncached drawn token device_id request_id now s new = ground arith

  -- A rotation that succeeds comes from a session that holds the token.
  pub refresh_uncached_renews :
      (drawn : Option Drawn) (hash device_id request_id : Bytes) (now : ℕ) (s : Service)
      (pair : TokenPair)
      → (refresh_uncached token_hash drawn hash device_id request_id now s).0 ≡ rotated pair
      → (old : AuthSessionRecord) × (refresh_uncached token_hash drawn hash device_id request_id now
            s
          ≡ renew token_hash drawn old hash device_id request_id now
              (record s { conn = (find_by_refresh_hash hash s.conn).1 }))
  unfolding refresh_uncached
  refresh_uncached_renews drawn hash device_id request_id now s pair e =
      elim (Option-cases (find_by_refresh_hash hash s.conn).0) [
        | inl missing ↦ absurd (
            detect_replay_ne_rotated hash (record s { conn = (find_by_refresh_hash hash s.conn).1 })
              pair (ground arith))
        | inr (old, found) ↦ (old, ground arith)
      ]

  find_keeps_conn :
      (hash : Bytes) (c : Conn)
      → ((find_by_refresh_hash hash c).1.tables ≡ c.tables)
        × ((find_by_refresh_hash hash c).1.saved ≡ c.saved)
  unfolding find_by_refresh_hash
  find_keeps_conn hash c = (refl, refl)

  -- A rotation that succeeds under a new request spends its token: no session holds it any more, and
  -- it is in the history under the family. This is on a connection with no open transaction and
  -- given the unique index, if the new token and the old one have different hashes.
  pub rotate_refresh-IsSpent :
      (drawn : Drawn) (token device_id request_id : Bytes) (now : ℕ) (s : Service)
      (pair : TokenPair)
      → s.conn.saved ≡ none
      → RefreshUnique s.conn.tables.auth_sessions
      → token_hash drawn.refresh_token ≢ token_hash token
      → IsNew token device_id request_id now s
      → (rotate_refresh token_hash (some drawn) token device_id request_id now s).0 ≡ rotated pair
      → IsSpent
          (token_hash token)
          pair.family_id
          (rotate_refresh token_hash (some drawn) token device_id request_id now s).1.conn.tables
  rotate_refresh-IsSpent drawn token device_id request_id now s pair closed unique fresh new e =
      let d : Service = record s { refresh_results = unexpired now s.refresh_results } in
      let hash = token_hash token in
      let same = uncached (some drawn) token device_id request_id now s new in
      let u =
        refresh_uncached_renews (some drawn) hash device_id request_id now d pair (rw (← same) e) in
      let c : Conn = (find_by_refresh_hash hash s.conn).1 in
      let kept = find_keeps_conn hash s.conn in
      rw (same, u.1)
        (renew_spends drawn u.0 hash device_id request_id now (record d { conn = c }) pair
          (kept.1 ∙ closed) (rw kept.0 unique) fresh (rw (← u.1, ← same) e))
