-- ===== src/Handlers/System.antt =====
-- im_server/src/handlers/SystemHandler.cpp.
use improject.Base.{ℕ, Bool, not, if◌then◌else◌, is_pos}
use improject.Presence.{offline, touch}
use improject.Packets.{heartbeat_rs}
use improject.World.{Env, Act, ◌>>=◌, ◌>>◌, done, modify, gets, send, close, user_of}

module _ (env : Env) where
  -- presence.touch of the session's user
  unfoldable pub touch_user : ℕ → Act (Unit {0})
  touch_user s = do
    user ← gets (user_of s)
    if is_pos user
        then modify (λ w. record w { presence = touch env.alive user env.now w.presence })
        else done

  -- A packet that does not parse is false.
  unfoldable pub on_offline : ℕ → Bool → Act (Unit {0})
  on_offline s parsed = if not parsed then done else do
    user ← gets (user_of s)
    modify (λ w. record w { presence = offline env.alive user s w.presence })
    close s

  unfoldable pub on_heartbeat : ℕ → Act (Unit {0})
  unfolding touch_user
  on_heartbeat s = do touch_user s; send s heartbeat_rs
