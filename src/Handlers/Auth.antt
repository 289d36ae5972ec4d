-- ===== src/Handlers/Auth.antt =====
-- im_server/src/handlers/AuthHandler.cpp.
use improject.Base.{
  ℕ, ℤ, pos, [], map, Bool, false, not, ◌&&◌, ◌||◌, Option, none, some, Bytes, ◌==◌, ltb, leb,
  within, if◌then◌else◌, is_pos, int_eq, bytes_eq, is_empty, length, all_of, get_elem?,
}
use improject.Db.Tables.{StoredMessage, UserRecord, AuthSessionRecord}
use improject.Db.Users.{register_user, login_user, login_success, login_pass_error, get_friends}
use improject.Db.Messages.{pull_undelivered, mark_delivered}
use improject.Db.AuthSessions.{find_by_refresh_hash}
use improject.Tokens.{
  TokenPair, RefreshResult, rotated, denied, denied_revoking, thrown, Access, issue,
  validate_access, rotate_refresh, revoke_one, revoke_all_for_user,
}
use improject.Presence.{replace, is_online}
use improject.Packets.{
  RegisterRq, LoginRq, LoginRs, TokenLoginRq, TokenLoginRs, RefreshTokenRq, RefreshTokenRs,
  LogoutRq, register_rs, login_rs, token_login_rs, token_refresh_rs, logout_rs, chat_rq, chat_rs,
  chat_succ, kicked_offline, status_online, status_offline,
}
use improject.World.{
  Login, Env, Act, pure, ◌>>=◌, ◌>>◌, done, sql, service, gets, send, close, close_after_write,
  user_of, authenticated, bind_auth, if_online, for_each,
}
use improject.Handlers.{send_friend_info, fill_chat_info}

-- A character of a text, between two bounds.
abbrev pub char_within : ℕ → ℕ → Option ℕ → Bool
char_within lo hi none = false
char_within lo hi (some c) = within lo hi c

unfoldable pub valid_mainland_mobile : Bytes → Bool
valid_mainland_mobile tel =
    length tel == 11
    && char_within 49 49 (get_elem? tel 0)
    && char_within 51 57 (get_elem? tel 1)
    && all_of (within 48 57) tel

unfoldable pub valid_sha256_proof : Bytes → Bool
valid_sha256_proof proof =
    length proof == 64 && all_of (λ c. within 48 57 c || within 97 102 c || within 65 70 c) proof

abbrev pub register_invalid : ℤ
register_invalid = pos 4

abbrev pub login_invalid : ℤ
login_invalid = pos 3

abbrev pub login_failure : ℤ → LoginRs
login_failure result = record {
  user_id = pos 0;
  result = result;
  access_token = [];
  refresh_token = [];
  access_token_expire_at = 0;
  refresh_token_expire_at = 0;
  session_id = [];
}

abbrev pub login_answer : ℤ → TokenPair → LoginRs
login_answer user tokens = record {
  user_id = user;
  result = login_success;
  access_token = tokens.access_token;
  refresh_token = tokens.refresh_token;
  access_token_expire_at = tokens.access_expires_at;
  refresh_token_expire_at = tokens.refresh_expires_at;
  session_id = tokens.session_id;
}

abbrev pub token_login_answer : Option Access → TokenLoginRs
token_login_answer none = record {
  result = login_pass_error;
  user_id = pos 0;
  access_token_expire_at = 0;
}
token_login_answer (some a) = record {
  result = login_success;
  user_id = a.user_id;
  access_token_expire_at = a.expires_at;
}

abbrev pub refresh_failure : RefreshTokenRs
refresh_failure = record {
  result = 1;
  access_token = [];
  refresh_token = [];
  access_token_expire_at = 0;
  refresh_token_expire_at = 0;
  session_id = [];
}

abbrev pub refresh_answer : TokenPair → RefreshTokenRs
refresh_answer tokens = record {
  result = 0;
  access_token = tokens.access_token;
  refresh_token = tokens.refresh_token;
  access_token_expire_at = tokens.access_expires_at;
  refresh_token_expire_at = tokens.refresh_expires_at;
  session_id = tokens.session_id;
}

-- What bindAuth is given.
abbrev pub login_of : ℤ → Bytes → Bytes → ℕ → Login
login_of user session device expires = record {
  user_id = user;
  session_id = session;
  device_id = device;
  expires_at = expires;
}

-- KICKED_OFFLINE, and the end of the connection behind it.
abbrev pub kick : ℕ → Act (Unit {0})
kick s = do send s kicked_offline; close_after_write s

-- rq.device_id().empty() || rq.device_id().size() > 128
abbrev pub bad_device : Bytes → Bool
bad_device device = is_empty device || ltb 128 (length device)

module _ (env : Env) where
  unfoldable pub on_register : ℕ → Option RegisterRq → Act (Unit {0})
  on_register s none = done
  on_register s (some rq) =
      if is_empty rq.nick
        || leb 30 (length rq.nick)
        || not (valid_mainland_mobile rq.tel)
        || not (valid_sha256_proof rq.pass)
      then send s (register_rs register_invalid)
      else do
        result ← sql (register_user env.passwords env.salt rq.nick rq.tel rq.pass)
        send s (register_rs result)

  -- presence.replace, and the end of a session that it replaces.
  unfoldable pub take_over : ℕ → ℤ → Act (Unit {0})
  take_over s user w =
      let (old, online) = replace env.alive user s env.now w.presence in
      let w' = record w { presence = online } in
      elim old [ none ↦ (tt, w') | some o ↦ if o == s then (tt, w') else kick o w' ]

  -- One turn of the loop over the friends.
  unfoldable pub greet_friend : ℕ → ℤ → UserRecord → Act (Unit {0})
  greet_friend s user friend = do
    online ← gets (λ w. is_online env.alive friend.id w.presence)
    send_friend_info s friend.id (if online then status_online else status_offline)
    if_online env friend.id (λ t. send_friend_info t user status_online)

  -- One turn of the loop over the undelivered messages.
  unfoldable pub forward_undelivered : ℕ → ℤ → StoredMessage → Act (Unit {0})
  forward_undelivered s user m = do
    send s (chat_rq (fill_chat_info m))
    if_online env m.sender_id (λ t. send t (
        chat_rs (record {
          my_id = user;
          fri_id = m.sender_id;
          result = chat_succ;
          msg_id = m.msg_id;
          seq = m.seq;
        })))

  unfoldable pub activate_session : ℕ → ℤ → Act (Unit {0})
  unfolding take_over greet_friend forward_undelivered
  activate_session s user = do
    take_over s user
    send_friend_info s user status_online
    friends ← sql (get_friends user)
    for_each friends (greet_friend s user)
    undelivered ← sql (pull_undelivered user)
    for_each undelivered (forward_undelivered s user)
    sql (mark_delivered (map (λ (m : StoredMessage). m.msg_id) undelivered))

  -- onLogin, once the password is right.
  unfoldable pub finish_login : ℕ → LoginRq → ℤ → Act (Unit {0})
  unfolding activate_session
  finish_login s rq user = do
    already ← gets (authenticated s)
    if bad_device rq.device_id || already
        then send s (login_rs (login_failure login_pass_error))
        else do
          issued ← sql (issue env.token_hash env.issued user rq.device_id env.now)
          elim issued [
            | none ↦ send s (login_rs (login_failure login_pass_error))
            | some tokens ↦ do
              bind_auth s (login_of user tokens.session_id rq.device_id tokens.access_expires_at)
              send s (login_rs (login_answer user tokens))
              activate_session s user
          ]

  unfoldable pub on_login : ℕ → Option LoginRq → Act (Unit {0})
  unfolding finish_login
  on_login s none = done
  on_login s (some rq) =
      if not (valid_mainland_mobile rq.tel) || not (valid_sha256_proof rq.pass)
      then send s (login_rs (login_failure login_invalid))
      else do
        (result, user) ← sql (login_user env.passwords env.salt rq.tel rq.pass (pos 0))
        if not (int_eq result login_success)
            then send s (login_rs (login_failure result))
            else finish_login s rq user

  unfoldable pub access_of : TokenLoginRq → Act (Option Access)
  access_of rq =
      if leb (length rq.device_id) 128
      then sql (validate_access env.token_hash rq.access_token [] rq.device_id env.now)
      else pure none

  unfoldable pub on_token_login : ℕ → Option TokenLoginRq → Act (Unit {0})
  unfolding access_of activate_session
  on_token_login s none = done
  on_token_login s (some rq) = do
    already ← gets (authenticated s)
    if already then send s (token_login_rs (token_login_answer none)) else do
      access ← access_of rq
      elim access [
        | none ↦ send s (token_login_rs (token_login_answer none))
        | some a ↦ do
          bind_auth s (login_of a.user_id a.session_id rq.device_id a.expires_at)
          send s (token_login_rs (token_login_answer (some a)))
          activate_session s a.user_id
      ]

  unfoldable pub refresh_of : RefreshTokenRq → Act RefreshResult
  refresh_of rq =
      if leb (length rq.device_id) 128 && leb (length rq.request_id) 128
      then service (
          rotate_refresh env.token_hash env.drawn rq.refresh_token rq.device_id rq.request_id
            env.now)
      else pure denied

  -- Behind rotateRefresh; an exception ends the handler, and ProtocolRouter closes the session.
  unfoldable pub answer_refresh : ℕ → RefreshTokenRq → RefreshResult → Act (Unit {0})
  answer_refresh s rq denied = send s (token_refresh_rs refresh_failure)
  answer_refresh s rq (denied_revoking user) = do
    if_online env user kick
    send s (token_refresh_rs refresh_failure)
  answer_refresh s rq thrown = close s
  answer_refresh s rq (rotated tokens) = do
    bound ← gets (authenticated s)
    user ← gets (user_of s)
    if bound
        then bind_auth s (login_of user tokens.session_id rq.device_id tokens.access_expires_at)
        else done
    send s (token_refresh_rs (refresh_answer tokens))

  unfoldable pub on_token_refresh : ℕ → Option RefreshTokenRq → Act (Unit {0})
  unfolding refresh_of answer_refresh
  on_token_refresh s none = done
  on_token_refresh s (some rq) = do result ← refresh_of rq; answer_refresh s rq result

  unfoldable pub session_to_end : LogoutRq → Act (Option AuthSessionRecord)
  session_to_end rq =
      if is_empty rq.refresh_token
      then pure none
      else sql (find_by_refresh_hash (env.token_hash rq.refresh_token))

  -- tokenValid and ownsSession
  unfoldable pub owns_session : Login → LogoutRq → AuthSessionRecord → Bool
  owns_session login rq r =
      not r.revoked
      && bytes_eq r.device_id rq.device_id
      && is_pos login.user_id
      && int_eq login.user_id r.user_id
      && bytes_eq login.device_id r.device_id
      && bytes_eq login.session_id r.session_id

  unfoldable pub end_session : ℕ → LogoutRq → AuthSessionRecord → Act (Unit {0})
  end_session s rq r = do
    if rq.logout_all_devices
        then sql (revoke_all_for_user r.user_id)
        else sql (revoke_one r.session_id)
    send s (logout_rs 0)
    close_after_write s

  unfoldable pub on_logout : ℕ → Option LogoutRq → Act (Unit {0})
  unfolding session_to_end owns_session end_session
  on_logout s none = done
  on_logout s (some rq) = do
    found ← session_to_end rq
    login ← gets (λ w. w.logins s)
    elim found [
      | none ↦ send s (logout_rs 1)
      | some r ↦ if owns_session login rq r then end_session s rq r else send s (logout_rs 1)
    ]
