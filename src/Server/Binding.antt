-- ===== src/Server/Binding.antt =====
-- About the sessions in the online map, over the packets that Server.cpp dispatches.
pub mod Ids
pub mod Activation
pub mod Handlers
pub mod Dispatch
use improject.Base.{
  ℕ, ℤ, pos, List, [], ◌∷◌, Bool, true, false, not, Option, none, some, Bytes, ◌≡◌, refl, sym,
  subst, ◌∙◌, ap, ◌⊎◌, inl, inr, arith, ◌==◌, if◌then◌else◌, is_pos, int_eq, int_eq_iff, ==_iff,
  All, find_if,
}
use improject.Presence.{Online, Entry, find, set, erase, get, touch, offline, replace}
use improject.Presence.Registry.{find-set, find-erase}
use improject.World.{World, Login, Env, put_login, user_of}
use improject.Packets.{Packet, LoginRq, login_rs}
use improject.World.{for_each, deliver, Act, ◌>>=◌, ◌>>◌, sql, send, bind_auth, authenticated}
use improject.Db.Sql.{Conn}
use improject.Db.Users.{login_pass_error}
use improject.Tokens.{TokenPair, issue}
use improject.Handlers.Auth.{finish_login, bad_device, login_failure, login_answer, login_of}
use improject.Db.Users.{get_friends}
use improject.Db.Messages.{pull_undelivered}
use improject.Handlers.{send_friend_info}
use improject.Handlers.Auth.{take_over, activate_session, greet_friend, forward_undelivered}
use improject.Server.Quiet.{
  Quiet, for_each-IsQuiet, send_friend_info-IsQuiet, greet_friend-IsQuiet,
  forward_undelivered-IsQuiet,
}

-- Every entry of the online map is of a user whose id is positive, and its session is logged in as
-- that user.
abbrev pub Bound : (ℕ → Login) → Online → Type 0
Bound logins m =
    (user : ℤ) (e : Entry)
    → find user m ≡ some e
    → (is_pos user ≡ true) × ((logins e.sess).user_id ≡ user)

pub set-Bound :
    (logins : ℕ → Login) (m : Online) (user : ℤ) (e : Entry)
    → is_pos user ≡ true
    → (logins e.sess).user_id ≡ user
    → Bound logins m
    → Bound logins (set user e m)
set-Bound logins m user e p h b key f g =
    ground (arith, find-set user key e m, int_eq_iff user key, b key f, p, h, g)

pub erase-Bound :
    (logins : ℕ → Login) (m : Online) (user : ℤ) → Bound logins m → Bound logins (erase user m)
erase-Bound logins m user b key f g = ground (arith, find-erase user key m, b key f, g)

-- A session that is logged in as nobody may be logged in, and one that is, as the same user.
pub put_login-Bound :
    (s : ℕ) (login : Login) (logins : ℕ → Login) (m : Online)
    → (is_pos (logins s).user_id ≡ false) ⊎ ((logins s).user_id ≡ login.user_id)
    → Bound logins m
    → Bound (put_login s login logins) m
unfolding put_login
put_login-Bound s login logins m h b user e g =
    ground (arith, b user e g, ==_iff e.sess s, same_user e.sess)
  where
    same_user : (t : ℕ) → t ≡ s → (logins t).user_id ≡ (logins s).user_id
    same_user t h = ap (λ t. (logins t).user_id) h

pub put_login-same :
    (s : ℕ) (login : Login) (logins : ℕ → Login)
    → (put_login s login logins s).user_id ≡ login.user_id
unfolding put_login
put_login-same s login logins = ground arith

abbrev pub IsBound : World → Type 0
IsBound w = Bound w.logins w.presence

pub Quiet-IsBound : {w w' : World} → Quiet w w' → IsBound w → IsBound w'
Quiet-IsBound {w} {w'} q b user e g =
    let (p, h) = b user e (ap (find user) (sym q.online) ∙ g) in
    (p, ap (λ logins. (logins e.sess).user_id) q.logins ∙ h)

pub touch-Bound :
    (alive : ℕ → Bool) (logins : ℕ → Login) (user : ℤ) (now : ℕ) (m : Online)
    → Bound logins m
    → Bound logins (touch alive user now m)
unfolding touch
touch-Bound alive logins user now m b = split (find user m) refl
  where
    split :
        (o : Option Entry)
        → find user m ≡ o
        → Bound logins (elim o [ none ↦ m | some e ↦ set user (record e { last_active = now }) m ])
    split none h = b
    split (some e) h =
        let (p, q) = b user e h in set-Bound logins m user (record e { last_active = now }) p q b

pub offline-Bound :
    (alive : ℕ → Bool) (logins : ℕ → Login) (user : ℤ) (s : ℕ) (m : Online)
    → Bound logins m
    → Bound logins (offline alive user s m)
unfolding offline
offline-Bound alive logins user s m b = split (get alive user m)
  where
    split :
        (o : Option ℕ)
        → Bound logins
            (elim o [ none ↦ m | some current ↦ if current == s then erase user m else m ])
    split none = b
    split (some current) = choose (current == s)
      where
        choose : (same : Bool) → Bound logins (if same then erase user m else m)
        choose true = erase-Bound logins m user b
        choose false = b
