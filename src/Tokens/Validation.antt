-- ===== src/Tokens/Validation.antt =====
-- About validateAccess of TokenService.cpp.
use improject.Base.{
  ℕ, ℤ, suc, ◌<◌, List, [], ◌∷◌, Bool, true, false, ◌≡◌, ◌≢◌, ◌↔◌, ◌⊎◌, none, some, Bytes, arith,
  is_pos, bytes_eq_iff, int_eq, int_eq_iff, is_empty, Option-cases, inl, inr, find_if, update_if,
}
use improject.Db.Tables.{AuthSessionRow}
use improject.Db.Sql.{Conn}
use improject.Db.AuthSessions.{
  has_access, revoke_where, revoke_row, find_by_access_hash, revoke_all_user_sessions,
}
use improject.Tokens.{Access, validate_access, revoke_all_for_user}

abbrev of_user : ℤ → AuthSessionRow → Bool
of_user user row = int_eq row.user_id user

revoked_row :
    (hash : Bytes) (user : ℤ) (rows : List AuthSessionRow) (row : AuthSessionRow)
    → find_if (has_access hash) (update_if (of_user user) revoke_row rows) ≡ some row
    → row.user_id ≡ user
    → row.revoked ≡ true
revoked_row hash user [] row e u = cc
revoked_row hash user (r ∷ rows) row e u =
    ground (arith, revoked_row hash user rows row, int_eq_iff r.user_id user)

revoke_all_lem :
    (user : ℤ) (c : Conn)
    → ((n : ℕ) → c.works n ≡ true)
    → is_pos user ≡ true
    → revoke_all_for_user user c
      ≡ (tt, record c { tables = revoke_where (of_user user) c.tables; calls = suc (suc c.calls) })
unfolding revoke_all_for_user revoke_all_user_sessions
revoke_all_lem user c h p = ground (arith, h c.calls, h (suc c.calls))

module _ (token_hash : Bytes → Bytes) where
  -- With a token and a device that are not empty, on a connection with no open transaction whose
  -- SELECT is prepared: a session is accepted, with its user, id and expiry, exactly if the first
  -- row with the token's hash is not revoked, expires later than now, is of the device, and has the
  -- session id that is asked for, if one is.
  pub validate_access_iff :
      (token session_id device_id : Bytes) (now : ℕ) (c : Conn) (a : Access)
      → c.saved ≡ none
      → c.works c.calls ≡ true
      → is_empty token ≡ false
      → is_empty device_id ≡ false
      → ((validate_access token_hash token session_id device_id now c).0 ≡ some a) ↔ (
          (row : AuthSessionRow) × (find_if (has_access (token_hash token)) c.tables.auth_sessions
            ≡ some row)
          × (row.revoked ≡ false)
          × (now < row.access_expires_at)
          × (row.device_id ≡ device_id)
          × ((session_id ≡ []) ⊎ (row.session_id ≡ session_id))
          × (a ≡ record {
            user_id = row.user_id;
            session_id = row.session_id;
            expires_at = row.access_expires_at;
          }))
  unfolding validate_access find_by_access_hash
  validate_access_iff token session_id device_id now c a closed p full full' = (
    λ e. elim (Option-cases (find_if (has_access (token_hash token)) c.tables.auth_sessions)) [
      | inl missing ↦ absurd (ground arith)
      | inr (row, found) ↦ (
        row,
        found,
        ground
            (arith, bytes_eq_iff row.device_id device_id, bytes_eq_iff row.session_id session_id),
        ground
            (arith, bytes_eq_iff row.device_id device_id, bytes_eq_iff row.session_id session_id),
        ground
            (arith, bytes_eq_iff row.device_id device_id, bytes_eq_iff row.session_id session_id),
        ground
            (arith, bytes_eq_iff row.device_id device_id, bytes_eq_iff row.session_id session_id),
        ground
            (arith, bytes_eq_iff row.device_id device_id, bytes_eq_iff row.session_id session_id),
      )
    ],
    λ h.
        ground
          (arith, bytes_eq_iff h.0.device_id device_id, bytes_eq_iff h.0.session_id session_id),
  )

  -- After revokeAllForUser, on a connection with no open transaction whose calls the engine carries
  -- out, no token of the user is accepted.
  pub validate_access-revoke_all :
      (token session_id device_id : Bytes) (user : ℤ) (now : ℕ) (c : Conn) (a : Access)
      → c.saved ≡ none
      → ((n : ℕ) → c.works n ≡ true)
      → is_pos user ≡ true
      → (validate_access token_hash token session_id device_id now (revoke_all_for_user user c).1).0
        ≡ some a
      → a.user_id ≢ user
  unfolding validate_access find_by_access_hash revoke_where
  validate_access-revoke_all token session_id device_id user now c a closed h positive e =
      let hash = token_hash token in
      let rows = update_if (of_user user) revoke_row c.tables.auth_sessions in
      let e' = rw (revoke_all_lem user c h positive) at e in
      elim (Option-cases (find_if (has_access hash) rows)) [
        | inl missing ↦ absurd (ground (arith, h (suc (suc c.calls))))
        | inr (row, found) ↦ λ u.
            ground
              (arith, h (suc (suc c.calls)), revoked_row hash user c.tables.auth_sessions row found)
      ]
