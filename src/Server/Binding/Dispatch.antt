-- ===== src/Server/Binding/Dispatch.antt =====
-- About the sessions in the online map, over every packet that Server.cpp dispatches.
use improject.Base.{ℕ, Bool, true, false, not, Bytes, sym, subst, ◌&&◌, if◌then◌else◌}
use improject.Ai.Config.{AiConfig}
use improject.World.{World, Env, user_of, close}
use improject.Handlers.System.{touch_user}
use improject.Server.{Protobuf, entries, handle, dispatch_packet, is_maintenance, is_expired}
use improject.Server.Routing.{dispatch-All, ◌∷∷◌}
use improject.Server.Quiet.{
  on_register-IsQuiet, on_logout-IsQuiet, on_reply-IsQuiet, on_cancel-IsQuiet, on_chat-Quiet,
  on_add_friend-IsQuiet, on_add_friend_reply-IsQuiet, on_friend_request_list-IsQuiet,
  on_delete_friend-IsQuiet, on_conversations-IsQuiet, on_messages-IsQuiet,
}
use improject.Server.Binding.{IsBound, Quiet-IsBound}
use improject.Server.Binding.Ids.{PositiveIds, committed}
use improject.Server.Binding.Handlers.{
  on_login-IsBound, on_token_login-IsBound, on_token_refresh-IsBound, touch_user-IsBound,
  touch_user-conn, on_offline-IsBound, on_heartbeat-IsBound,
}

module _ (env : Env) (s : ℕ) where
  module _ (pb : Protobuf) (redact : Bytes → Bytes) (config : AiConfig) where
    handle-IsBound :
        (type : ℕ) (p : Bytes) (w : World)
        → PositiveIds (committed w.conn)
        → IsBound w
        → IsBound (handle pb redact config env s type p w).1
    unfolding handle
    handle-IsBound type p w h b =
        dispatch-All (λ t w w'. IsBound w') (entries pb redact config env) s type p w
          (Quiet-IsBound (on_register-IsQuiet env s (pb.register_rq p) w) b
            ∷∷ on_login-IsBound env s (pb.login_rq p) w h b
            ∷∷ on_token_login-IsBound env s (pb.token_login_rq p) w h b
            ∷∷ on_token_refresh-IsBound env s (pb.refresh_token_rq p) w b
            ∷∷ Quiet-IsBound (on_logout-IsQuiet env s (pb.logout_rq p) w) b
            ∷∷ Quiet-IsBound (on_reply-IsQuiet env redact config s (pb.ai_reply_rq p) w) b
            ∷∷ Quiet-IsBound (on_cancel-IsQuiet env s (pb.ai_cancel_rq p) w) b
            ∷∷ Quiet-IsBound
                (on_chat-Quiet env.alive s (user_of s w) env.fallback env.now (pb.chat_info_rq p) w)
                b
            ∷∷ Quiet-IsBound (on_add_friend-IsQuiet env s (pb.add_friend_request p) w) b
            ∷∷ Quiet-IsBound (on_add_friend_reply-IsQuiet env s (pb.add_friend_reply p) w) b
            ∷∷ Quiet-IsBound (on_friend_request_list-IsQuiet env s (pb.friend_request_list_rq p) w)
                b
            ∷∷ Quiet-IsBound (on_delete_friend-IsQuiet env s (pb.delete_friend_rq p) w) b
            ∷∷ Quiet-IsBound (on_conversations-IsQuiet env s w) b
            ∷∷ Quiet-IsBound (on_messages-IsQuiet env s (pb.roam_msg_rq p) w) b
            ∷∷ on_offline-IsBound env s (pb.friend_offline_rq p) w b
            ∷∷ on_heartbeat-IsBound env s w b
            ∷∷ tt)
          b

    -- Whatever packet a session sends, and whatever the handlers do with it: where every user whom
    -- the map has online has a positive id and is online with a session that is logged in as just
    -- that user, the same holds behind the packet. The ids that the tables hold, as a login reads
    -- them, have to be positive.
    pub dispatch_packet-IsBound :
        (type : ℕ) (p : Bytes) (w : World)
        → PositiveIds (committed w.conn)
        → IsBound w
        → IsBound (dispatch_packet pb redact config env s type p w).1
    unfolding dispatch_packet
    dispatch_packet-IsBound type p w h b =
        split (not (is_maintenance type) && is_expired env.now (touched.logins s))
      where
        touched : World
        touched = (touch_user env s w).1

        split :
            (expired : Bool)
            → IsBound
                ((if expired then close s else handle pb redact config env s type p) touched).1
        split true = touch_user-IsBound env s w b
        split false =
            handle-IsBound type p touched
              (subst (λ c. PositiveIds (committed c)) (sym (touch_user-conn env s w)) h)
              (touch_user-IsBound env s w b)
