-- ===== src/Server/Quiet.antt =====
-- About the handlers that neither log a session in nor change who is online.
use improject.Base.{ℕ, ℤ, Bytes, List, [], ◌∷◌, Bool, Option, none, some, ◌≡◌, arith, ◌==◌}
use improject.Db.Tables.{UserRecord, StoredMessage}
use improject.Db.Friends.{resolve_friend_request}
use improject.Presence.{get}
use improject.Db.Users.{get_friends}
use improject.Ai.Config.{AiConfig}
use improject.Packets.{
  AddFriendRq, AddFriendRs, AiReplyRq, ChatInfoRq, RoamMsgRq, RegisterRq, LogoutRq,
  add_friend_agree,
}
use improject.World.{World, Env, Act, for_each, if_online}
use improject.Handlers.{send_friend_info}
use improject.Handlers.Friend.{
  request_stored, on_add_friend, send_status, send_friend_list, request_resolved,
  on_add_friend_reply, on_friend_request_list, on_delete_friend,
}
use improject.Chat.{on_chat, accept_chat, claim_upload, store_and_forward, forward}
use improject.Handlers.Auth.{
  on_register, on_logout, session_to_end, end_session, greet_friend, forward_undelivered,
}
use improject.Handlers.Assistant.{on_cancel, on_reply, start_request, send_result}
use improject.Handlers.Roam.{on_conversations, on_messages}

pub record Quiet (w w' : World) : Type 0 where
  pub online : w'.presence ≡ w.presence
  pub logins : w'.logins ≡ w.logins

abbrev pub IsQuiet : {A : Type 0} → Act A → Type 0
IsQuiet m = (w : World) → Quiet w (m w).1

pub for_each-IsQuiet :
    {A : Type 0} (xs : List A) (m : A → Act (Unit {0}))
    → ((x : A) → IsQuiet (m x))
    → IsQuiet (for_each xs m)
unfolding for_each
for_each-IsQuiet [] m h w = ground arith
for_each-IsQuiet (x ∷ xs) m h w = ground (arith, h x w, for_each-IsQuiet xs m h (m x w).1)

pub send_friend_info-IsQuiet :
    (to : ℕ) (user : ℤ) (status : ℕ) → IsQuiet (send_friend_info to user status)
unfolding send_friend_info
send_friend_info-IsQuiet to user status w = ground arith

pub on_chat-Quiet :
    (alive : ℕ → Bool) (s : ℕ) (user : ℤ) (fallback : Bytes) (now : ℕ) (rq : Option ChatInfoRq)
    (w : World)
    → Quiet w (on_chat alive s user fallback now rq w)
unfolding on_chat accept_chat claim_upload store_and_forward forward
on_chat-Quiet alive s user fallback now none w = ground arith
on_chat-Quiet alive s user fallback now (some rq) w = ground arith

module _ (env : Env) where
  pub on_register-IsQuiet : (s : ℕ) (rq : Option RegisterRq) → IsQuiet (on_register env s rq)
  unfolding on_register
  on_register-IsQuiet s none w = ground arith
  on_register-IsQuiet s (some rq) w = ground arith

  pub on_logout-IsQuiet : (s : ℕ) (rq : Option LogoutRq) → IsQuiet (on_logout env s rq)
  unfolding on_logout session_to_end end_session
  on_logout-IsQuiet s none w = ground arith
  on_logout-IsQuiet s (some rq) w = ground arith

  pub greet_friend-IsQuiet :
      (s : ℕ) (user : ℤ) (f : UserRecord) → IsQuiet (greet_friend env s user f)
  unfolding greet_friend send_friend_info
  greet_friend-IsQuiet s user f w = ground arith

  pub forward_undelivered-IsQuiet :
      (s : ℕ) (user : ℤ) (m : StoredMessage) → IsQuiet (forward_undelivered env s user m)
  unfolding forward_undelivered
  forward_undelivered-IsQuiet s user m w = ground arith

  pub on_add_friend-IsQuiet : (s : ℕ) (rq : Option AddFriendRq) → IsQuiet (on_add_friend env s rq)
  unfolding on_add_friend request_stored
  on_add_friend-IsQuiet s none w = ground arith
  on_add_friend-IsQuiet s (some rq) w = ground arith

  send_status-IsQuiet : (to : ℕ) (f : UserRecord) → IsQuiet (send_status env to f)
  unfolding send_status send_friend_info
  send_status-IsQuiet to f w = ground arith

  send_friend_list-IsQuiet : (to : ℕ) (user : ℤ) → IsQuiet (send_friend_list env to user)
  unfolding send_friend_list
  send_friend_list-IsQuiet to user w =
      let w1 = (send_friend_info to user 0 w).1 in
      let r = get_friends user w1.conn in
      ground (
        arith,
        send_friend_info-IsQuiet to user 0 w,
        for_each-IsQuiet r.0 (send_status env to) (send_status-IsQuiet to)
            (record w1 { conn = r.1 }),
      )

  if_online-IsQuiet :
      (user : ℤ) (m : ℕ → Act (Unit {0}))
      → ((t : ℕ) → IsQuiet (m t))
      → IsQuiet (if_online env user m)
  if_online-IsQuiet user m h w = split (get env.alive user w.presence)
    where
      split :
          (o : Option ℕ)
          → Quiet w (elim o as (λ x. Unit {0} × World) [ none ↦ (tt, w) | some s ↦ m s w ]).1
      split none = ground arith
      split (some t) = h t w

  request_resolved-IsQuiet :
      (s : ℕ) (user : ℤ) (rs : AddFriendRs) → IsQuiet (request_resolved env s user rs)
  unfolding request_resolved
  request_resolved-IsQuiet s user rs w =
      let w1 = (send_friend_list env s user w).1 in
      ground (
        arith,
        send_friend_list-IsQuiet s user w,
        if_online-IsQuiet rs.dest_id (λ t. send_friend_list env t rs.dest_id)
            (λ t. send_friend_list-IsQuiet t rs.dest_id) w1,
      )

  pub on_add_friend_reply-IsQuiet :
      (s : ℕ) (rs : Option AddFriendRs) → IsQuiet (on_add_friend_reply env s rs)
  unfolding on_add_friend_reply
  on_add_friend_reply-IsQuiet s none w = ground arith
  on_add_friend_reply-IsQuiet s (some packet) w =
      let user = (w.logins s).user_id in
      let rs : AddFriendRs = record packet { my_id = user } in
      ground (
        arith,
        request_resolved-IsQuiet s user rs (record w {
          conn =
              (resolve_friend_request packet.dest_id user (packet.result == add_friend_agree)
                env.now w.conn).1;
        }),
      )

  pub on_friend_request_list-IsQuiet :
      (s : ℕ) (parsed : Bool) → IsQuiet (on_friend_request_list env s parsed)
  unfolding on_friend_request_list
  on_friend_request_list-IsQuiet s parsed w = ground arith

  pub on_delete_friend-IsQuiet : (s : ℕ) (rq : Option ℤ) → IsQuiet (on_delete_friend env s rq)
  unfolding on_delete_friend
  on_delete_friend-IsQuiet s none w = ground arith
  on_delete_friend-IsQuiet s (some rq) w = ground arith

  pub on_conversations-IsQuiet : (s : ℕ) → IsQuiet (on_conversations s)
  unfolding on_conversations
  on_conversations-IsQuiet s w = ground arith

  pub on_messages-IsQuiet : (s : ℕ) (rq : Option RoamMsgRq) → IsQuiet (on_messages s rq)
  unfolding on_messages
  on_messages-IsQuiet s none w = ground arith
  on_messages-IsQuiet s (some rq) w = ground arith

  pub on_cancel-IsQuiet : (s : ℕ) (rq : Option Bytes) → IsQuiet (on_cancel s rq)
  unfolding on_cancel
  on_cancel-IsQuiet s none w = ground arith
  on_cancel-IsQuiet s (some id) w = ground arith

  pub on_reply-IsQuiet :
      (redact : Bytes → Bytes) (config : AiConfig) (s : ℕ) (rq : Option AiReplyRq)
      → IsQuiet (on_reply redact config env s rq)
  unfolding on_reply start_request send_result
  on_reply-IsQuiet redact config s none w = ground arith
  on_reply-IsQuiet redact config s (some rq) w = ground arith
