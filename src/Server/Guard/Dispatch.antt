-- ===== src/Server/Guard/Dispatch.antt =====
-- About the packets of a session that is not logged in, or whose access token has expired, as
-- Server.cpp dispatches them.
use improject.Base.{
  ℕ, Bool, true, false, not, ◌&&◌, Bytes, ◌≡◌, sym, subst, ◌∙◌, ap, ◌⊎◌, inl, inr, arith,
  if◌then◌else◌, is_pos,
}
use improject.Ai.Config.{AiConfig}
use improject.World.{World, Env, close_call, close, user_of}
use improject.Handlers.System.{touch_user}
use improject.Server.{Protobuf, entries, handle, dispatch_packet, is_maintenance, is_expired}
use improject.Server.Routing.{dispatch-All, ◌∷∷◌}
use improject.Server.Binding.{IsBound}
use improject.Server.Guard.{
  is_authentication, Untouched, same, called, touch_user-Untouched, maintenance_lem,
}
use improject.Server.Guard.Outside.{
  on_offline-Untouched, on_heartbeat-Untouched, on_chat-Untouched, on_reply-Untouched,
  on_cancel-Untouched, on_add_friend-Untouched, on_add_friend_reply-Untouched,
  on_friend_request_list-Untouched, on_conversations-Untouched, on_messages-Untouched,
  on_delete_friend-Untouched,
}

module _ (env : Env) (s : ℕ) where
  module _ (pb : Protobuf) (redact : Bytes → Bytes) (config : AiConfig) (type : ℕ) (p : Bytes)
      (w : World) where
    handle-Untouched :
        is_pos (user_of s w) ≡ false
        → IsBound w
        → is_authentication type ≡ false
        → Untouched env s w (handle pb redact config env s type p w).1
    unfolding handle
    handle-Untouched out b =
        dispatch-All (λ t w w'. is_authentication t ≡ false → Untouched env s w w')
          (entries pb redact config env) s type p w
          ((λ e. cc)
            ∷∷ (λ e. cc)
            ∷∷ (λ e. cc)
            ∷∷ (λ e. cc)
            ∷∷ (λ e. cc)
            ∷∷ (λ e. on_reply-Untouched env s w out b redact config (pb.ai_reply_rq p))
            ∷∷ (λ e. on_cancel-Untouched env s w out b (pb.ai_cancel_rq p))
            ∷∷ (λ e. on_chat-Untouched env s w out b env.fallback env.now (pb.chat_info_rq p))
            ∷∷ (λ e. on_add_friend-Untouched env s w out b (pb.add_friend_request p))
            ∷∷ (λ e. on_add_friend_reply-Untouched env s w out b (pb.add_friend_reply p))
            ∷∷ (λ e. on_friend_request_list-Untouched env s w out b (pb.friend_request_list_rq p))
            ∷∷ (λ e. on_delete_friend-Untouched env s w out b (pb.delete_friend_rq p))
            ∷∷ (λ e. on_conversations-Untouched env s w out b)
            ∷∷ (λ e. on_messages-Untouched env s w out b (pb.roam_msg_rq p))
            ∷∷ (λ e. on_offline-Untouched env s w out b (pb.friend_offline_rq p))
            ∷∷ (λ e. on_heartbeat-Untouched env s w out b)
            ∷∷ tt)
          (λ e. same env s w)

    not_touched :
        is_pos (user_of s w) ≡ false
        → (dispatch_packet pb redact config env s type p w).1
          ≡ (handle pb redact config env s type p w).1
    unfolding dispatch_packet touch_user
    not_touched out = ground (arith, out)

    -- Let a session that is logged in as nobody, or one whose access token has expired, send any
    -- packet but the five of registration, login and logout. Behind it the tables, the cache of
    -- refreshed tokens, the upload records, the logins, the assistant's requests and the users who
    -- are online are what they were, and every call that was made is one of this very session. (The
    -- map has users online with sessions that are logged in as them.)
    pub dispatch_packet-Untouched :
        (is_pos (user_of s w) ≡ false) ⊎ (is_expired env.now (w.logins s) ≡ true)
        → IsBound w
        → is_authentication type ≡ false
        → Untouched env s w (dispatch_packet pb redact config env s type p w).1
    unfolding dispatch_packet
    dispatch_packet-Untouched (inl out) b other =
        subst (Untouched env s w) (sym (not_touched out)) (handle-Untouched out b other)
    dispatch_packet-Untouched (inr late) b other =
        split (is_expired env.now ((touch_user env s w).1.logins s))
          (ap (λ l. is_expired env.now (l s)) (touch_user-Untouched env s w).logins ∙ late)
          (is_maintenance type) (maintenance_lem type other)
      where
        split :
            (expired : Bool)
            → expired ≡ true
            → (maintenance : Bool) → maintenance ≡ false
            → Untouched env s w
                ((if not maintenance && expired
                    then close s
                    else handle pb redact config env s type p)
                  (touch_user env s w).1).1
        split true e false k = called env s close_call (touch_user-Untouched env s w)
        split true e true k = cc
        split false e m k = cc
