-- ===== src/Server/Binding/Activation.antt =====
-- About the sessions in the online map, over the login packets of AuthHandler.cpp.
use improject.Base.{
  ℕ, ℤ, Bool, true, false, Option, none, some, ◌≡◌, refl, sym, subst, inl, arith, ◌||◌,
  if◌then◌else◌, is_pos,
}
use improject.Presence.{Entry, set, replace}
use improject.World.{World, Login, Env, put_login, user_of}
use improject.Packets.{Packet, LoginRq, login_rs}
use improject.World.{for_each, deliver, Act, ◌>>=◌, ◌>>◌, sql, send, bind_auth, authenticated}
use improject.Db.Sql.{Conn}
use improject.Db.Users.{login_pass_error}
use improject.Tokens.{TokenPair, issue}
use improject.Handlers.Auth.{finish_login, bad_device, login_failure, login_answer, login_of}
use improject.Db.Users.{get_friends}
use improject.Db.Messages.{pull_undelivered}
use improject.Handlers.{send_friend_info}
use improject.Handlers.Auth.{take_over, activate_session, greet_friend, forward_undelivered}
use improject.Server.Binding.{
  Bound, IsBound, set-Bound, put_login-Bound, put_login-same, Quiet-IsBound,
}
use improject.Server.Quiet.{
  Quiet, for_each-IsQuiet, send_friend_info-IsQuiet, greet_friend-IsQuiet,
  forward_undelivered-IsQuiet,
}

module _ (env : Env) where
  take_over_lem :
      (s : ℕ) (user : ℤ) (w : World)
      → let w' = (take_over env s user w).1 in
        (w'.presence ≡ set user (record { sess = s; last_active = env.now }) w.presence)
        × (w'.logins ≡ w.logins)
  unfolding take_over replace
  take_over_lem s user w = ground arith

  activate_session-Quiet :
      (s : ℕ) (user : ℤ) (w : World)
      → Quiet (take_over env s user w).1 (activate_session env s user w).1
  unfolding activate_session
  activate_session-Quiet s user w =
      let w1 = (take_over env s user w).1 in
      let w2 = (send_friend_info s user 0 w1).1 in
      let r = get_friends user w2.conn in
      let w3 : World = record w2 { conn = r.1 } in
      let w4 = (for_each r.0 (greet_friend env s user) w3).1 in
      let u = pull_undelivered user w4.conn in
      ground (
        arith,
        send_friend_info-IsQuiet s user 0 w1,
        for_each-IsQuiet r.0 (greet_friend env s user) (greet_friend-IsQuiet env s user) w3,
        for_each-IsQuiet u.0 (forward_undelivered env s user)
            (forward_undelivered-IsQuiet env s user) (record w4 { conn = u.1 }),
      )

  activate_session-IsBound :
      (s : ℕ) (user : ℤ) (w : World)
      → is_pos user ≡ true
      → user_of s w ≡ user
      → IsBound w
      → IsBound (activate_session env s user w).1
  activate_session-IsBound s user w p h b =
      let e : Entry = record { sess = s; last_active = env.now } in
      let (online, logins) = take_over_lem s user w in
      Quiet-IsBound (activate_session-Quiet s user w) (
        subst (λ m. Bound (take_over env s user w).1.logins m) (sym online)
          (subst (λ l. Bound l (set user e w.presence)) (sym logins)
            (set-Bound w.logins w.presence user e p h b)))

  -- A session that is logged in as nobody, or as this user, is logged in, and then activated.
  pub activate-IsBound :
      (s : ℕ) (login : Login) (packet : Packet) (w : World)
      → is_pos login.user_id ≡ true
      → is_pos (user_of s w) ≡ false
      → IsBound w
      → IsBound
          (activate_session env s login.user_id
            (deliver s packet (record w { logins = put_login s login w.logins }))).1
  activate-IsBound s login packet w p h b =
      activate_session-IsBound s login.user_id
        (deliver s packet (record w { logins = put_login s login w.logins })) p
        (put_login-same s login w.logins) (put_login-Bound s login w.logins w.presence (inl h) b)

  pub finish_login-IsBound :
      (s : ℕ) (rq : LoginRq) (user : ℤ) (w : World)
      → is_pos user ≡ true
      → IsBound w
      → IsBound (finish_login env s rq user w).1
  unfolding finish_login
  finish_login-IsBound s rq user w p b = split (bad_device rq.device_id) (authenticated s w) refl
    where
      issued : Option TokenPair × Conn
      issued = issue env.token_hash env.issued user rq.device_id env.now w.conn

      w' : World
      w' = record w { conn = issued.1 }

      bind :
          (o : Option TokenPair)
          → authenticated s w ≡ false
          → IsBound
              ((elim o as (λ x. Act (Unit {0})) [
                | none ↦ send s (login_rs (login_failure login_pass_error))
                | some tokens ↦ do
                  bind_auth s
                      (login_of user tokens.session_id rq.device_id tokens.access_expires_at)
                  send s (login_rs (login_answer user tokens))
                  activate_session env s user
              ])
                w').1
      bind none h = b
      bind (some tokens) h =
          activate-IsBound s (login_of user tokens.session_id rq.device_id tokens.access_expires_at)
            (login_rs (login_answer user tokens)) w' p h b

      split :
          (bad already : Bool)
          → authenticated s w ≡ already
          → IsBound
              ((if bad || already then send s (login_rs (login_failure login_pass_error)) else do
                issued ← sql (issue env.token_hash env.issued user rq.device_id env.now)
                elim issued [
                  | none ↦ send s (login_rs (login_failure login_pass_error))
                  | some tokens ↦ do
                    bind_auth s
                        (login_of user tokens.session_id rq.device_id tokens.access_expires_at)
                    send s (login_rs (login_answer user tokens))
                    activate_session env s user
                ])
                w).1
      split true already h = b
      split false true h = b
      split false false h = bind issued.0 h
