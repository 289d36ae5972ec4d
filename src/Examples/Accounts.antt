-- ===== src/Examples/Accounts.antt =====
-- Accounts and tokens, where the hash of a token is the token.
use improject.Base.{
  pos, [], ◌∷◌, true, false, ◌≡◌, ◌≢◌, ◌↔◌, refl, ◌⊎◌, none, some, Bytes, arith, ◌<◌, ◌++◌,
  if◌then◌else◌, find_if, bytes_eq, int_eq, is_pos,
}
use improject.Db.Tables.{Tables, AuthSessionRow, AuthSessionRecord, empty_tables}
use improject.Db.Sql.{Conn}
use improject.Db.AuthSessions.{
  has_access, has_refresh, NewTokens, rotate_refresh_token, family_user, or_zero,
}
use improject.Db.Users.{Passwords, register_user, login_user, login_success, login_pass_error}
use improject.Db.Users.Login.{login_user-register_user}
use improject.Db.Users.Register.{Registered, register_user-Outcome}
use improject.Tokens.{
  Service, Drawn, TokenPair, Access, denied, denied_revoking, rotated, rotate_refresh,
  validate_access, revoke_all_for_user,
}
use improject.Tokens.Replay.{FamilyRevoked, IsSpent, rotate_refresh_revokes, rotate_refresh-IsSpent}
use improject.Tokens.Repeat.{rotate_refresh-repeat}
use improject.Tokens.Validation.{validate_access_iff, validate_access-revoke_all}

abbrev conn_with : Tables → Conn
conn_with t = record { tables = t; saved = none; works = λ n. true; calls = 0 }

-- User 1 on device 5: access token 10, refresh token 20, family 9.
abbrev auth : AuthSessionRecord
auth = record {
  session_id = 8 ∷ [];
  family_id = 9 ∷ [];
  user_id = pos 1;
  device_id = 5 ∷ [];
  access_hash = 10 ∷ [];
  access_expires_at = 300;
  refresh_hash = 20 ∷ [];
  refresh_expires_at = 172800;
  generation = 0;
  revoked = false;
}

abbrev session_row : AuthSessionRow
session_row = record { auth = auth; created_at = 0; last_used_at = 0 }

abbrev logged_in : Conn
logged_in = conn_with (record empty_tables { auth_sessions = session_row ∷ [] })

abbrev same : Bytes → Bytes
same token = token

abbrev service : Service
service = record { conn = logged_in; refresh_results = [] }

abbrev drawn : Drawn
drawn = record { access_token = 11 ∷ []; refresh_token = 21 ∷ [] }

abbrev new : NewTokens
new = record {
  access_hash = 11 ∷ [];
  access_expires_at = 1000;
  refresh_hash = 21 ∷ [];
  refresh_expires_at = 2592100;
}

-- The refresh token 19 was used before.
abbrev spent_service : Service
spent_service = record {
  conn = conn_with (record empty_tables {
    auth_sessions = session_row ∷ [];
    refresh_history =
        record { family_id = 9 ∷ []; token_hash = 19 ∷ []; generation = 0; used_at = 50 } ∷ [];
  });
  refresh_results = [];
}

rotate_refresh_revokes_example :
    let r = rotate_refresh same (some drawn) (19 ∷ []) (5 ∷ []) (1 ∷ []) 100 spent_service in
    (r.0 ≡ (
      let user = or_zero (family_user (9 ∷ []) spent_service.conn.tables) in
      if is_pos user then denied_revoking user else denied))
    × FamilyRevoked (9 ∷ []) r.1.conn.tables
unfolding bytes_eq
rotate_refresh_revokes_example =
    rotate_refresh_revokes same (some drawn) (19 ∷ []) (5 ∷ []) (1 ∷ []) (9 ∷ []) 100 spent_service
      refl (λ n. refl) (refl, refl, refl, refl)
      (record { unheld = refl; row = _; used = refl; of_family = refl }) refl

abbrev pair : TokenPair
pair = record {
  session_id = 8 ∷ [];
  family_id = 9 ∷ [];
  access_token = 11 ∷ [];
  refresh_token = 21 ∷ [];
  access_expires_at = 1000;
  refresh_expires_at = 2592100;
}

rotate_refresh-IsSpent_example :
    IsSpent
      (20 ∷ [])
      (9 ∷ [])
      (rotate_refresh same (some drawn) (20 ∷ []) (5 ∷ []) (1 ∷ []) 100 service).1.conn.tables
unfolding rotate_refresh improject.Tokens.refresh_uncached
    improject.Db.AuthSessions.find_by_refresh_hash bytes_eq int_eq improject.Tokens.renew
    rotate_refresh_token improject.Db.AuthSessions.insert_history
    improject.Db.AuthSessions.update_session improject.Tokens.remember
rotate_refresh-IsSpent_example =
    rotate_refresh-IsSpent same drawn (20 ∷ []) (5 ∷ []) (1 ∷ []) 100 service pair refl
      (λ hash. ground arith) (λ e. ground arith) (refl, refl, refl, refl) refl

rotate_refresh-repeat_example :
    let t = (rotate_refresh same (some drawn) (20 ∷ []) (5 ∷ []) (1 ∷ []) 100 service).1 in
    let r = rotate_refresh same none (20 ∷ []) (5 ∷ []) (1 ∷ []) 219 t in
    (r.0 ≡ rotated pair) × (r.1.conn ≡ t.conn)
unfolding rotate_refresh improject.Tokens.refresh_uncached
    improject.Db.AuthSessions.find_by_refresh_hash bytes_eq int_eq improject.Tokens.renew
    rotate_refresh_token improject.Db.AuthSessions.insert_history
    improject.Db.AuthSessions.update_session improject.Tokens.remember
rotate_refresh-repeat_example =
    rotate_refresh-repeat same drawn none (20 ∷ []) (5 ∷ []) (1 ∷ []) 100 219 service pair
      (refl, refl, refl, refl) refl (omega arith)

abbrev access : Access
access = record { user_id = pos 1; session_id = 8 ∷ []; expires_at = 300 }

validate_access_iff_example :
    ((validate_access same (10 ∷ []) [] (5 ∷ []) 100 logged_in).0 ≡ some access) ↔ (
      (row : AuthSessionRow) × (find_if (has_access (10 ∷ [])) logged_in.tables.auth_sessions
        ≡ some row)
      × (row.revoked ≡ false)
      × (100 < row.access_expires_at)
      × (row.device_id ≡ 5 ∷ [])
      × (◌≡◌ {A = Bytes} [] [] ⊎ (row.session_id ≡ []))
      × (access ≡ record {
        user_id = row.user_id;
        session_id = row.session_id;
        expires_at = row.access_expires_at;
      }))
validate_access_iff_example =
    validate_access_iff same (10 ∷ []) [] (5 ∷ []) 100 logged_in access refl refl refl refl

-- Another user's token stays good.
validate_access-revoke_all_example : pos 1 ≢ pos 2
unfolding validate_access revoke_all_for_user improject.Db.AuthSessions.find_by_access_hash
    improject.Db.AuthSessions.revoke_all_user_sessions improject.Db.AuthSessions.revoke_where
    bytes_eq int_eq
validate_access-revoke_all_example =
    validate_access-revoke_all same (10 ∷ []) [] (5 ∷ []) (pos 2) 100 logged_in access refl
      (λ n. refl) refl refl

abbrev passwords : Passwords
passwords = record {
  hash = λ salt pass. some (salt ++ pass);
  verify = λ stored pass. bytes_eq stored (1 ∷ pass);
  sha256_hex = λ text. text;
}

abbrev registered : Conn
registered =
    (register_user passwords (1 ∷ []) (97 ∷ []) (49 ∷ []) (120 ∷ []) (conn_with empty_tables)).1

login_user-register_user_example :
    (login_user passwords [] (49 ∷ []) (121 ∷ []) (pos 0) registered).0 ≡ (
      if passwords.verify (1 ∷ 120 ∷ []) (121 ∷ []) then login_success else login_pass_error,
      pos 1,
    )
unfolding register_user
login_user-register_user_example =
    login_user-register_user passwords (1 ∷ []) (97 ∷ []) (49 ∷ []) (120 ∷ []) (1 ∷ 120 ∷ []) []
      (121 ∷ []) (pos 0) (conn_with empty_tables) registered refl refl refl refl

register_user-Outcome_example :
    Registered passwords
      (1 ∷ [])
      (97 ∷ [])
      (49 ∷ [])
      (120 ∷ [])
      registered
      (register_user passwords (1 ∷ []) (97 ∷ []) (49 ∷ []) (120 ∷ []) registered)
unfolding register_user
register_user-Outcome_example =
    register_user-Outcome passwords (1 ∷ []) (97 ∷ []) (49 ∷ []) (120 ∷ []) registered refl
