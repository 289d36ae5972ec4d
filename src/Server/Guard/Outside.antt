-- ===== src/Server/Guard/Outside.antt =====
-- About the handlers, when the session that asks is not logged in.
use improject.Base.{
  ℕ, ℤ, Bool, true, false, Option, none, some, Bytes, ◌≡◌, refl, arith, if◌then◌else◌, is_pos,
}
use improject.Db.Users.{get_user_nick_by_id}
use improject.Presence.{Entry, find, get, offline}
use improject.Ai.Config.{AiConfig}
use improject.Packets.{heartbeat_rs, ChatInfoRq, AiReplyRq, AddFriendRq, AddFriendRs, RoamMsgRq}
use improject.World.{World, Env, deliver_call, close_call, user_of}
use improject.Chat.{on_chat}
use improject.Handlers.Friend.{
  on_add_friend, on_add_friend_reply, on_friend_request_list, on_delete_friend,
}
use improject.Handlers.Roam.{on_conversations, on_messages}
use improject.Handlers.System.{on_offline, on_heartbeat}
use improject.Handlers.Assistant.{on_reply, on_cancel, send_result}
use improject.Server.Binding.{IsBound}
use improject.Server.Guard.{
  Untouched, same, with_conn, unchanged, called, touch_user-Untouched, get_user_nick_by_id-reads,
}

module _ (env : Env) (s : ℕ) where
  module _ (w : World) (out : is_pos (user_of s w) ≡ false) (bound : IsBound w) where
    -- Who is not logged in is not online.
    not_online : get env.alive (user_of s w) w.presence ≡ none
    unfolding get
    not_online = split (find (user_of s w) w.presence) refl
      where
        split :
            (o : Option Entry)
            → find (user_of s w) w.presence ≡ o
            → (elim o as (λ x. Option ℕ) [
              | none ↦ none
              | some e ↦ if env.alive e.sess then some e.sess else none
            ])
              ≡ none
        split none h = refl
        split (some e) h = ground (arith, bound (user_of s w) e h, out)

    pub on_offline-Untouched : (parsed : Bool) → Untouched env s w (on_offline env s parsed w).1
    unfolding on_offline offline
    on_offline-Untouched false = same env s w
    on_offline-Untouched true =
        called env s close_call (unchanged env s (ground (arith, not_online)))

    pub on_heartbeat-Untouched : Untouched env s w (on_heartbeat env s w).1
    unfolding on_heartbeat
    on_heartbeat-Untouched = called env s (deliver_call heartbeat_rs) (touch_user-Untouched env s w)

    pub on_chat-Untouched :
        (fallback : Bytes) (now : ℕ) (rq : Option ChatInfoRq)
        → Untouched env s w (on_chat env.alive s (user_of s w) fallback now rq w)
    unfolding on_chat
    on_chat-Untouched fallback now none = same env s w
    on_chat-Untouched fallback now (some rq) = unchanged env s (rw out refl)

    pub on_reply-Untouched :
        (redact : Bytes → Bytes) (config : AiConfig) (rq : Option AiReplyRq)
        → Untouched env s w (on_reply redact config env s rq w).1
    unfolding on_reply send_result
    on_reply-Untouched redact config none = called env s _ (same env s w)
    on_reply-Untouched redact config (some rq) = rw out (called env s _ (same env s w))

    pub on_cancel-Untouched : (rq : Option Bytes) → Untouched env s w (on_cancel s rq w).1
    unfolding on_cancel
    on_cancel-Untouched rq = unchanged env s (rw out refl)

    pub on_add_friend-Untouched :
        (rq : Option AddFriendRq) → Untouched env s w (on_add_friend env s rq w).1
    unfolding on_add_friend
    on_add_friend-Untouched none = same env s w
    on_add_friend-Untouched (some rq) = unchanged env s (rw out refl)

    pub on_add_friend_reply-Untouched :
        (rs : Option AddFriendRs) → Untouched env s w (on_add_friend_reply env s rs w).1
    unfolding on_add_friend_reply
    on_add_friend_reply-Untouched none = same env s w
    on_add_friend_reply-Untouched (some rs) = unchanged env s (rw out refl)

    pub on_friend_request_list-Untouched :
        (parsed : Bool) → Untouched env s w (on_friend_request_list env s parsed w).1
    unfolding on_friend_request_list
    on_friend_request_list-Untouched false = same env s w
    on_friend_request_list-Untouched true = unchanged env s (rw out refl)

    pub on_conversations-Untouched : Untouched env s w (on_conversations s w).1
    unfolding on_conversations
    on_conversations-Untouched = unchanged env s (rw out refl)

    pub on_messages-Untouched : (rq : Option RoamMsgRq) → Untouched env s w (on_messages s rq w).1
    unfolding on_messages
    on_messages-Untouched rq = unchanged env s (rw out refl)

    -- The name is read before the session is looked at.
    pub on_delete_friend-Untouched :
        (rq : Option ℤ) → Untouched env s w (on_delete_friend env s rq w).1
    unfolding on_delete_friend
    on_delete_friend-Untouched none = same env s w
    on_delete_friend-Untouched (some friend) =
        let r = get_user_nick_by_id (user_of s w) w.conn in
        rw out
          (called env s _ (with_conn env s w r.1 (get_user_nick_by_id-reads (user_of s w) w.conn)))
