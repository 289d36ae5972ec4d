-- ===== src/Server.antt =====
-- im_server/src/Server.cpp, Dispatcher.cpp and routing/ProtocolRouter.cpp: the way of a packet from a
-- session to its handler, the end of a session, and the scan for silent ones.
pub mod Routing
pub mod Quiet
pub mod Binding
pub mod Guard
use improject.Base.{
  ℕ, suc, ℤ, pos, ◌%◌, ◌^◌, List, [], ◌∷◌, ◌++◌, Bool, true, false, not, ◌&&◌, ◌||◌, Option, none,
  some, Bytes, ◌==◌, ltb, if◌then◌else◌, is_pos,
}
use improject.Db.Tables.{UserRecord}
use improject.Db.Users.{get_friends}
use improject.Presence.{offline, scan_stale}
use improject.Ai.Config.{AiConfig}
use improject.Packets.{
  RegisterRq, LoginRq, TokenLoginRq, RefreshTokenRq, LogoutRq, ChatInfoRq, AddFriendRq, AddFriendRs,
  RoamMsgRq, AiReplyRq, friend_offline, register_rq_type, login_rq_type, chat_info_rq_type,
  add_friend_rq_type, add_friend_rs_type, friend_offline_type, heartbeat_rq_type, roam_conv_rq_type,
  roam_msg_rq_type, token_login_rq_type, token_refresh_rq_type, logout_rq_type, ai_reply_rq_type,
  ai_cancel_rq_type, delete_friend_rq_type, friend_request_list_rq_type,
}
use improject.World.{
  Env, Login, Act, pure, ◌>>=◌, ◌>>◌, done, sql, gets, modify, send, close, user_of, if_online,
  for_each,
}
use improject.Chat.{on_chat}
use improject.Handlers.Auth.{on_register, on_login, on_token_login, on_token_refresh, on_logout}
use improject.Handlers.Friend.{
  on_add_friend, on_add_friend_reply, on_friend_request_list, on_delete_friend,
}
use improject.Handlers.Roam.{on_conversations, on_messages}
use improject.Handlers.System.{touch_user, on_offline, on_heartbeat}
use improject.Handlers.Assistant.{on_reply, on_cancel}

-- ParseFromArray of the generated classes: the fields that a handler reads, or `none` for false.
pub record Protobuf : Type 0 where
  pub register_rq : Bytes → Option RegisterRq
  pub login_rq : Bytes → Option LoginRq
  pub token_login_rq : Bytes → Option TokenLoginRq
  pub refresh_token_rq : Bytes → Option RefreshTokenRq
  pub logout_rq : Bytes → Option LogoutRq
  pub chat_info_rq : Bytes → Option ChatInfoRq
  pub add_friend_request : Bytes → Option AddFriendRq
  pub add_friend_reply : Bytes → Option AddFriendRs
  pub friend_request_list_rq : Bytes → Bool
  pub delete_friend_rq : Bytes → Option ℤ
  pub friend_offline_rq : Bytes → Bool
  pub roam_msg_rq : Bytes → Option RoamMsgRq
  pub ai_reply_rq : Bytes → Option AiReplyRq
  pub ai_cancel_rq : Bytes → Option Bytes

abbrev pub Handler : Type 0
Handler = ℕ → Bytes → Act (Unit {0})

-- m_routes
abbrev pub Routes : Type 0
Routes = List (ℕ × Handler)

unfoldable pub find_route : ℕ → Routes → Option Handler
find_route type [] = none
find_route type ((t, h) ∷ routes) =
    let rest = find_route type routes in if t == type then some h else rest

-- ProtocolRouter::add: `none` is the exception of a route that is there already.
unfoldable pub add_route : ℕ → Handler → Routes → Option Routes
unfolding find_route
add_route type h routes = elim (find_route type routes) [
  | none ↦ some (routes ++ (type, h) ∷ [])
  | some other ↦ none
]

unfoldable pub add_routes : Routes → Routes → Option Routes
unfolding add_route
add_routes routes [] = some routes
add_routes routes ((t, h) ∷ more) = elim (add_route t h routes) [
  | none ↦ none
  | some routes' ↦ add_routes routes' more
]

-- ProtocolRouter::dispatch; what a handler does about its exceptions is in the handler.
unfoldable pub dispatch : Routes → ℕ → ℕ → Bytes → Act (Unit {0})
unfolding find_route
dispatch routes s type payload = elim (find_route type routes) [
  | none ↦ done
  | some h ↦ h s payload
]

-- The packets that are handled after the access token has expired.
abbrev pub is_maintenance : ℕ → Bool
is_maintenance type = type == token_refresh_rq_type || type == logout_rq_type

-- The token of a session that is logged in has a time of expiry, and it has passed.
abbrev pub is_expired : ℕ → Login → Bool
is_expired now login = is_pos login.user_id && ltb 0 login.expires_at && ltb login.expires_at now

-- The number of the strand of a new session, and the counter that follows.
unfoldable pub next_biz_strand : ℕ → ℕ → ℕ × ℕ
next_biz_strand strands counter = (counter % strands, suc counter % 2 ^ 64)

module _ (pb : Protobuf) (redact : Bytes → Bytes) (config : AiConfig) (env : Env) where
  abbrev pub chat_handler : Handler
  chat_handler s payload = do
    user ← gets (user_of s)
    modify (on_chat env.alive s user env.fallback env.now (pb.chat_info_rq payload))

  -- The routes that the constructor of Dispatcher adds.
  abbrev pub entries : Routes
  entries =
      (register_rq_type, λ s p. on_register env s (pb.register_rq p))
      ∷ (login_rq_type, λ s p. on_login env s (pb.login_rq p))
      ∷ (token_login_rq_type, λ s p. on_token_login env s (pb.token_login_rq p))
      ∷ (token_refresh_rq_type, λ s p. on_token_refresh env s (pb.refresh_token_rq p))
      ∷ (logout_rq_type, λ s p. on_logout env s (pb.logout_rq p))
      ∷ (ai_reply_rq_type, λ s p. on_reply redact config env s (pb.ai_reply_rq p))
      ∷ (ai_cancel_rq_type, λ s p. on_cancel s (pb.ai_cancel_rq p))
      ∷ (chat_info_rq_type, chat_handler)
      ∷ (add_friend_rq_type, λ s p. on_add_friend env s (pb.add_friend_request p))
      ∷ (add_friend_rs_type, λ s p. on_add_friend_reply env s (pb.add_friend_reply p))
      ∷ (
        friend_request_list_rq_type,
        λ s p. on_friend_request_list env s (pb.friend_request_list_rq p),
      )
      ∷ (delete_friend_rq_type, λ s p. on_delete_friend env s (pb.delete_friend_rq p))
      ∷ (roam_conv_rq_type, λ s p. on_conversations s)
      ∷ (roam_msg_rq_type, λ s p. on_messages s (pb.roam_msg_rq p))
      ∷ (friend_offline_type, λ s p. on_offline env s (pb.friend_offline_rq p))
      ∷ (heartbeat_rq_type, λ s p. on_heartbeat env s)
      ∷ []

  -- Behind the constructor: none if it threw.
  unfoldable pub dispatcher : Option Routes
  unfolding add_routes
  dispatcher = add_routes [] entries

  unfoldable pub handle : ℕ → ℕ → Bytes → Act (Unit {0})
  unfolding dispatch
  handle s type payload = dispatch entries s type payload

  unfoldable pub dispatch_packet : ℕ → ℕ → Bytes → Act (Unit {0})
  unfolding handle
  dispatch_packet s type payload = do
    touch_user env s
    login ← gets (λ w. w.logins s)
    if not (is_maintenance type) && is_expired env.now login then close s else handle s type payload

-- The broadcast that onSessionClosed posts on a strand.
unfoldable pub broadcast_offline : Env → ℤ → Act (Unit {0})
broadcast_offline env user = do
  friends ← sql (get_friends user)
  for_each friends (λ (f : UserRecord). if_online env f.id (λ t. send t (friend_offline user)))

-- onSessionClosed, with the user whose broadcast it posts.
unfoldable pub on_session_closed : Env → ℕ → Act (Option ℤ)
on_session_closed env s = do
  user ← gets (user_of s)
  if not (is_pos user) then pure none else do
    modify (λ w. record w { presence = offline env.alive user s w.presence })
    pure (some user)

-- One turn of hbScanLoop.
unfoldable pub scan_heartbeats : Env → Act (Unit {0})
scan_heartbeats env w =
    let (stale, online) = scan_stale env.alive 90 env.now w.presence in
    for_each stale (λ (p : ℤ × ℕ). close p.1) (record w { presence = online })
