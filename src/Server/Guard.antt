-- ===== src/Server/Guard.antt =====
-- About the packets of a session that is not logged in, or whose access token has expired, as
-- Server.cpp dispatches them.
pub mod Outside
pub mod Dispatch
use improject.Base.{
  ℕ, ℤ, List, [], ◌∷◌, ◌++◌, map, Bool, true, false, not, ◌&&◌, ◌||◌, Option, none, some, Bytes,
  ◌≡◌, refl, sym, subst, ◌∙◌, ap, ◌⊎◌, inl, inr, arith, ◌==◌, if◌then◌else◌, is_pos, int_eq_iff,
}
use improject.Db.Sql.{Conn}
use improject.Db.Users.{get_user_nick_by_id, get_user}
use improject.Presence.{Entry, Online, find, get, touch, offline, set}
use improject.Presence.Registry.{find-set}
use improject.Ai.Config.{AiConfig}
use improject.Packets.{
  register_rq_type, login_rq_type, token_login_rq_type, token_refresh_rq_type, logout_rq_type,
  heartbeat_rs, ChatInfoRq, AiReplyRq, AddFriendRq, AddFriendRs, RoamMsgRq,
}
use improject.World.{World, Env, Call, deliver_call, close_call, call, close, user_of, modify, done}
use improject.Chat.{on_chat}
use improject.Handlers.Friend.{
  on_add_friend, on_add_friend_reply, on_friend_request_list, on_delete_friend,
}
use improject.Handlers.Roam.{on_conversations, on_messages}
use improject.Handlers.System.{touch_user, on_offline, on_heartbeat}
use improject.Handlers.Assistant.{on_reply, on_cancel, send_result}
use improject.Server.{Protobuf, entries, handle, dispatch_packet, is_maintenance, is_expired}
use improject.Server.Routing.{dispatch-All}
use improject.Server.Binding.{IsBound}

-- The packets with which a session comes by a login, or ends it.
abbrev pub is_authentication : ℕ → Bool
is_authentication type =
    type == register_rq_type
    || type == login_rq_type
    || type == token_login_rq_type
    || type == token_refresh_rq_type
    || type == logout_rq_type

-- No more has happened than calls of the session itself, reads of the database, and a new time of
-- activity in the online map.
pub record Untouched (env : Env) (s : ℕ) (w w' : World) : Type 0 where
  pub tables : (w'.conn.tables ≡ w.conn.tables) × (w'.conn.saved ≡ w.conn.saved)
  pub tokens : w'.refresh_results ≡ w.refresh_results
  pub online : (user : ℤ) → get env.alive user w'.presence ≡ get env.alive user w.presence
  pub uploads : w'.uploads ≡ w.uploads
  pub logins : w'.logins ≡ w.logins
  pub assistant : w'.assistant ≡ w.assistant
  pub calls : (own : List Call) × (w'.sent ≡ map (λ c. (s, c)) own ++ w.sent)

pub get_user_nick_by_id-reads :
    (user : ℤ) (c : Conn)
    → let c' = (get_user_nick_by_id user c).1 in (c'.tables ≡ c.tables) × (c'.saved ≡ c.saved)
unfolding get_user_nick_by_id get_user
get_user_nick_by_id-reads user c = ground arith

pub maintenance_lem : (type : ℕ) → is_authentication type ≡ false → is_maintenance type ≡ false
maintenance_lem type h = ground (arith, h)

module _ (env : Env) (s : ℕ) where
  pub same : (w : World) → Untouched env s w w
  same w = record {
    tables = (refl, refl);
    tokens = refl;
    online = λ user. refl;
    uploads = refl;
    logins = refl;
    assistant = refl;
    calls = ([], refl);
  }

  pub with_presence :
      (w : World) (m : Online)
      → ((user : ℤ) → get env.alive user m ≡ get env.alive user w.presence)
      → Untouched env s w (record w { presence = m })
  with_presence w m h = record {
    tables = (refl, refl);
    tokens = refl;
    online = h;
    uploads = refl;
    logins = refl;
    assistant = refl;
    calls = ([], refl);
  }

  pub with_conn :
      (w : World) (c : Conn)
      → (c.tables ≡ w.conn.tables) × (c.saved ≡ w.conn.saved)
      → Untouched env s w (record w { conn = c })
  with_conn w c h = record {
    tables = h;
    tokens = refl;
    online = λ user. refl;
    uploads = refl;
    logins = refl;
    assistant = refl;
    calls = ([], refl);
  }

  pub unchanged : {w w' : World} → w' ≡ w → Untouched env s w w'
  unchanged {w} {w'} e = subst (Untouched env s w) (sym e) (same w)

  -- A call behind something that leaves all as it was.
  pub called : {w w' : World} (c : Call) → Untouched env s w w' → Untouched env s w (call s c w')
  called c u = record {
    tables = u.tables;
    tokens = u.tokens;
    online = u.online;
    uploads = u.uploads;
    logins = u.logins;
    assistant = u.assistant;
    calls = (c ∷ u.calls.0, ap (◌∷◌ (s, c)) u.calls.1);
  }

  -- Activity does not change who is online.
  pub get-touch :
      (user other : ℤ) (m : Online)
      → get env.alive other (touch env.alive user env.now m) ≡ get env.alive other m
  unfolding get touch
  get-touch user other m = split (find user m) refl
    where
      split :
          (o : Option Entry)
          → find user m ≡ o
          → get env.alive other
              (elim o [ none ↦ m | some e ↦ set user (record e { last_active = env.now }) m ])
            ≡ get env.alive other m
      split none h = refl
      split (some e) h = ground (
        arith,
        find-set user other (record e { last_active = env.now }) m,
        int_eq_iff user other,
        same_find,
      )
        where
          same_find : user ≡ other → find other m ≡ some e
          same_find k = subst (λ u. find u m ≡ some e) k h

  pub touch_user-Untouched : (w : World) → Untouched env s w (touch_user env s w).1
  unfolding touch_user
  touch_user-Untouched w = split (is_pos (user_of s w))
    where
      split :
          (p : Bool)
          → Untouched env s w
              ((if p
                  then modify (λ w'. record w' {
                    presence = touch env.alive (user_of s w) env.now w'.presence;
                  })
                  else done)
                w).1
      split true = with_presence w _ (λ other. get-touch (user_of s w) other w.presence)
      split false = same w
