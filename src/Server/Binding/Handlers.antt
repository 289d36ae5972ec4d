-- ===== src/Server/Binding/Handlers.antt =====
-- About the sessions in the online map, over the handlers that log a session in or take it off.
use improject.Base.{
  ℕ, ℤ, pos, [], Bool, true, false, not, Option, none, some, ◌≡◌, refl, ap, ◌∙◌, inr, ◌||◌,
  if◌then◌else◌, is_pos, int_eq, arith,
}
use improject.Db.Sql.{Conn}
use improject.Db.Users.{login_user, login_success}
use improject.Tokens.{RefreshResult, rotated, denied, denied_revoking, thrown, Access}
use improject.Presence.{touch}
use improject.Packets.{LoginRq, TokenLoginRq, RefreshTokenRq, login_rs, token_login_rs}
use improject.World.{
  World, Env, Login, Act, ◌>>=◌, ◌>>◌, done, sql, send, bind_auth, user_of, modify, if_online,
  authenticated,
}
use improject.Handlers.Auth.{
  on_login, finish_login, login_invalid, login_failure, valid_mainland_mobile, valid_sha256_proof,
  on_token_login, access_of, activate_session, token_login_answer, login_of, on_token_refresh,
  refresh_of, answer_refresh, kick,
}
use improject.Handlers.System.{touch_user, on_offline, on_heartbeat}
use improject.Server.Quiet.{Quiet}
use improject.Server.Binding.{IsBound, Quiet-IsBound, put_login-Bound, touch-Bound, offline-Bound}
use improject.Server.Binding.Ids.{
  PositiveIds, committed, login_user-positive, validate_access-positive,
}
use improject.Server.Binding.Activation.{activate-IsBound, finish_login-IsBound}

module _ (env : Env) (s : ℕ) where
  pub on_login-IsBound :
      (rq : Option LoginRq) (w : World)
      → PositiveIds (committed w.conn)
      → IsBound w
      → IsBound (on_login env s rq w).1
  unfolding on_login
  on_login-IsBound none w h b = b
  on_login-IsBound (some rq) w h b =
      valid (not (valid_mainland_mobile rq.tel) || not (valid_sha256_proof rq.pass))
    where
      r : (ℤ × ℤ) × Conn
      r = login_user env.passwords env.salt rq.tel rq.pass (pos 0) w.conn

      w' : World
      w' = record w { conn = r.1 }

      found :
          (ok : Bool)
          → int_eq r.0.0 login_success ≡ ok
          → IsBound
              ((if not ok
                  then send s (login_rs (login_failure r.0.0))
                  else finish_login env s rq r.0.1)
                w').1
      found false e = b
      found true e =
          finish_login-IsBound env s rq r.0.1 w'
            (login_user-positive env.passwords env.salt rq.tel rq.pass w.conn h e) b

      valid :
          (bad : Bool)
          → IsBound
              ((if bad then send s (login_rs (login_failure login_invalid)) else do
                (result, user) ← sql (login_user env.passwords env.salt rq.tel rq.pass (pos 0))
                if not (int_eq result login_success)
                    then send s (login_rs (login_failure result))
                    else finish_login env s rq user)
                w).1
      valid true = b
      valid false = found (int_eq r.0.0 login_success) refl

  -- What the access is of, behind the check of the device's length.
  pub access_of-positive :
      (rq : TokenLoginRq) (w : World) (a : Access)
      → PositiveIds (committed w.conn)
      → (access_of env rq w).0 ≡ some a
      → is_pos a.user_id ≡ true
  unfolding access_of
  access_of-positive rq w a h e = ground (
    arith,
    validate_access-positive env.token_hash rq.access_token [] rq.device_id env.now w.conn a h,
    e,
  )

  pub access_of-Quiet : (rq : TokenLoginRq) (w : World) → Quiet w (access_of env rq w).1
  unfolding access_of
  access_of-Quiet rq w = ground arith

  pub on_token_login-IsBound :
      (rq : Option TokenLoginRq) (w : World)
      → PositiveIds (committed w.conn)
      → IsBound w
      → IsBound (on_token_login env s rq w).1
  unfolding on_token_login
  on_token_login-IsBound none w h b = b
  on_token_login-IsBound (some rq) w h b = split (authenticated s w) refl
    where
      w' : World
      w' = (access_of env rq w).1

      bind :
          (o : Option Access)
          → (access_of env rq w).0 ≡ o
          → authenticated s w ≡ false
          → IsBound
              ((elim o as (λ x. Act (Unit {0})) [
                | none ↦ send s (token_login_rs (token_login_answer none))
                | some a ↦ do
                  bind_auth s (login_of a.user_id a.session_id rq.device_id a.expires_at)
                  send s (token_login_rs (token_login_answer (some a)))
                  activate_session env s a.user_id
              ])
                w').1
      bind none e k = Quiet-IsBound (access_of-Quiet rq w) b
      bind (some a) e k =
          activate-IsBound env s (login_of a.user_id a.session_id rq.device_id a.expires_at)
            (token_login_rs (token_login_answer (some a))) w' (access_of-positive rq w a h e)
            (ap (λ logins. is_pos (logins s).user_id) (access_of-Quiet rq w).logins ∙ k)
            (Quiet-IsBound (access_of-Quiet rq w) b)

      split :
          (already : Bool)
          → authenticated s w ≡ already
          → IsBound
              ((if already then send s (token_login_rs (token_login_answer none)) else do
                access ← access_of env rq
                elim access [
                  | none ↦ send s (token_login_rs (token_login_answer none))
                  | some a ↦ do
                    bind_auth s (login_of a.user_id a.session_id rq.device_id a.expires_at)
                    send s (token_login_rs (token_login_answer (some a)))
                    activate_session env s a.user_id
                ])
                w).1
      split true k = b
      split false k = bind (access_of env rq w).0 refl k

  pub refresh_of-Quiet : (rq : RefreshTokenRq) (w : World) → Quiet w (refresh_of env rq w).1
  unfolding refresh_of
  refresh_of-Quiet rq w = ground arith

  -- A session that is logged in keeps its user.
  pub answer_refresh-IsBound :
      (rq : RefreshTokenRq) (r : RefreshResult) (w : World)
      → IsBound w
      → IsBound (answer_refresh env s rq r w).1
  unfolding answer_refresh
  answer_refresh-IsBound rq denied w b = b
  answer_refresh-IsBound rq (denied_revoking user) w b =
      Quiet-IsBound {w = w} {w' = (if_online env user kick w).1} (ground arith) b
  answer_refresh-IsBound rq thrown w b = b
  answer_refresh-IsBound rq (rotated tokens) w b = split (authenticated s w)
    where
      login : Login
      login = login_of (user_of s w) tokens.session_id rq.device_id tokens.access_expires_at

      split : (bound : Bool) → IsBound ((if bound then bind_auth s login else done) w).1
      split true = put_login-Bound s login w.logins w.presence (inr refl) b
      split false = b

  pub on_token_refresh-IsBound :
      (rq : Option RefreshTokenRq) (w : World) → IsBound w → IsBound (on_token_refresh env s rq w).1
  unfolding on_token_refresh
  on_token_refresh-IsBound none w b = b
  on_token_refresh-IsBound (some rq) w b =
      answer_refresh-IsBound rq (refresh_of env rq w).0 (refresh_of env rq w).1
        (Quiet-IsBound (refresh_of-Quiet rq w) b)

  pub touch_user-IsBound : (w : World) → IsBound w → IsBound (touch_user env s w).1
  unfolding touch_user
  touch_user-IsBound w b = split (is_pos (user_of s w))
    where
      split :
          (p : Bool)
          → IsBound
              ((if p
                  then modify (λ w'. record w' {
                    presence = touch env.alive (user_of s w) env.now w'.presence;
                  })
                  else done)
                w).1
      split true = touch-Bound env.alive w.logins (user_of s w) env.now w.presence b
      split false = b

  pub touch_user-conn : (w : World) → (touch_user env s w).1.conn ≡ w.conn
  unfolding touch_user
  touch_user-conn w = ground arith

  pub on_offline-IsBound :
      (parsed : Bool) (w : World) → IsBound w → IsBound (on_offline env s parsed w).1
  unfolding on_offline
  on_offline-IsBound false w b = b
  on_offline-IsBound true w b = offline-Bound env.alive w.logins (user_of s w) s w.presence b

  pub on_heartbeat-IsBound : (w : World) → IsBound w → IsBound (on_heartbeat env s w).1
  unfolding on_heartbeat
  on_heartbeat-IsBound w b = touch_user-IsBound w b
