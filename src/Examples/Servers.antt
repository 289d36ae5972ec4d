-- ===== src/Examples/Servers.antt =====
-- The server's handlers, the file server and the client.
use improject.Base.{
  ℕ, ℤ, pos, [], ◌∷◌, true, false, not, ◌≡◌, refl, ◌⊎◌, inl, inr, none, some, Bytes, List, Option,
  arith, codes, int_eq, Bool,
}
use improject.Db.Tables.{Tables, StoredMessage, UserRow, MessageRow, empty_tables}
use improject.Db.Sql.{Conn, AllOrNothing}
use improject.Db.Users.{Passwords}
use improject.Db.Migration.{
  set_version, renumbered, migrate_conversation_ids, migrate_conversation_ids-AllOrNothing,
}
use improject.Db.Queue.{Queue, opened, submit, take_task, stop, Reach, here, next, submits, takes}
use improject.Db.Queue.Drains.{InOrder, Drained, Reach-InOrder, stop-Drained}
use improject.Ai.{limiter}
use improject.Ai.Config.{AiConfig, default_config, from_environment}
use improject.Ai.Config.Bounds.{InRange, from_environment-InRange}
use improject.Presence.{find}
use improject.Packets.{AiReplyRq}
use improject.World.{World, Env, no_login}
use improject.Handlers.Assistant.{on_reply}
use improject.Handlers.Assistant.Answers.{Refused, Taken, on_reply-Outcome}
use improject.Handlers.Auth.{valid_mainland_mobile, valid_sha256_proof}
use improject.Server.{Protobuf, dispatch_packet}
use improject.Server.Binding.{IsBound}
use improject.Server.Binding.Dispatch.{dispatch_packet-IsBound}
use improject.Server.Guard.{Untouched}
use improject.Server.Guard.Dispatch.{dispatch_packet-Untouched}
use improject.Client.{Client}
use improject.Client.Send.{login_request, register_request}
use improject.Client.Accepted.{login_request-Valid}

abbrev all_alive : ℕ → Bool
all_alive s = true

abbrev same : Bytes → Bytes
same text = text

abbrev passwords : Passwords
passwords = record {
  hash = λ salt pass. some pass;
  verify = λ stored pass. true;
  sha256_hex = same;
}

abbrev env : Env
env = record {
  alive = all_alive;
  now = 1000;
  ticks = 5000;
  salt = [];
  issued = some (record {
    session_id = 8 ∷ [];
    family_id = 9 ∷ [];
    access_token = 10 ∷ [];
    refresh_token = 20 ∷ [];
  });
  drawn = none;
  fallback = 7 ∷ [];
  passwords = passwords;
  token_hash = same;
}

abbrev mobile : Bytes
mobile = codes "13812345678"

abbrev hash_text : Bytes
hash_text = codes "0123456789abcdef0123456789abcdef0123456789abcdef0123456789abcdef"

-- Every payload is a login of the first user from device 5.
abbrev pb : Protobuf
pb = record {
  register_rq = λ p. none;
  login_rq = λ p. some (record { tel = mobile; pass = hash_text; device_id = 5 ∷ [] });
  token_login_rq = λ p. none;
  refresh_token_rq = λ p. none;
  logout_rq = λ p. none;
  chat_info_rq = λ p. none;
  add_friend_request = λ p. none;
  add_friend_reply = λ p. none;
  friend_request_list_rq = λ p. true;
  delete_friend_rq = λ p. some (pos 2);
  friend_offline_rq = λ p. true;
  roam_msg_rq = λ p. none;
  ai_reply_rq = λ p. none;
  ai_cancel_rq = λ p. none;
}

abbrev user_row : UserRow
user_row = record {
  id = pos 1;
  name = 97 ∷ [];
  tel = mobile;
  passwd = hash_text;
  salt = [];
  password_algo = codes "argon2id";
  feeling = [];
  iconid = 3;
}

abbrev conn_with : Tables → Conn
conn_with t = record { tables = t; saved = none; works = λ n. true; calls = 0 }

abbrev world : World
world = record {
  conn = conn_with (record empty_tables {
    users = user_row ∷ [];
    friends = (pos 1, pos 2) ∷ (pos 2, pos 1) ∷ [];
  });
  refresh_results = [];
  presence = [];
  uploads = [];
  upload_count = 0;
  logins = λ s. no_login;
  assistant = record {
    limiter = limiter (pos 1) (pos 2) (pos 600);
    active = [];
    cancelled = [];
    posted = [];
  };
  sent = [];
}

none_online : IsBound world
unfolding find
none_online user e h = cc

dispatch_packet-IsBound_example :
    IsBound (dispatch_packet pb same default_config env 7 1002 [] world).1
dispatch_packet-IsBound_example =
    dispatch_packet-IsBound env 7 pb same default_config 1002 [] world ((refl, tt), tt) none_online

-- A session that is not logged in wants a friend deleted.
dispatch_packet-Untouched_example :
    Untouched env 7 world (dispatch_packet pb same default_config env 7 1032 [] world).1
dispatch_packet-Untouched_example =
    dispatch_packet-Untouched env 7 pb same default_config 1032 [] world (inl refl) none_online refl

abbrev ai_request : AiReplyRq
ai_request = record { request_id = 3 ∷ []; peer_id = pos 2; tone = []; max_suggestions = pos 0 }

-- User 1 is logged in on session 7, and the service is configured.
abbrev ai_world : World
ai_world = record world {
  logins = λ s. record { user_id = pos 1; session_id = 4 ∷ []; device_id = 5 ∷ []; expires_at = 0 };
}

abbrev ai_config : AiConfig
ai_config = record default_config { api_key = 1 ∷ []; model = 2 ∷ [] }

on_reply-Outcome_example :
    Refused ai_config env 7 ai_request ai_world
      (on_reply same ai_config env 7 (some ai_request) ai_world).1
    ⊎ Taken ai_config env 7 ai_request ai_world
        (on_reply same ai_config env 7 (some ai_request) ai_world).1
on_reply-Outcome_example = on_reply-Outcome same ai_config env 7 ai_request ai_world

abbrev no_variables : Bytes → Option Bytes
no_variables name = none

from_environment-InRange_example :
    let config = from_environment no_variables in
    InRange (pos 0) (pos 100) config.rollout_percent
    × InRange (pos 1) (pos 65535) config.port
    × InRange (pos 1000) (pos 120000) config.request_timeout_ms
    × InRange (pos 64) (pos 2000) config.max_output_tokens
    × InRange (pos 1) (pos 100) config.max_context_messages
    × InRange (pos 1000) (pos 100000) config.max_context_bytes
    × InRange (pos 100) (pos 10000) config.max_message_bytes
    × InRange (pos 1) (pos 60) config.rate_limit_per_minute
    × InRange (pos 1) (pos 100) config.max_pending_requests
    × InRange (pos 30) (pos 3600) config.replay_window_seconds
from_environment-InRange_example = from_environment-InRange no_variables

-- Task 4 is running, and 5 waits.
abbrev busy_queue : Queue
busy_queue = (submit 5 (take_task (submit 4 opened).1)).1

reached : Reach busy_queue
unfolding opened submit
reached = next (next (next here (submits 4)) (takes refl)) (submits 5)

Reach-InOrder_example : InOrder busy_queue
Reach-InOrder_example = Reach-InOrder {q = busy_queue} reached

stop-Drained_example : Drained (stop busy_queue)
stop-Drained_example = stop-Drained {q = busy_queue} reached

abbrev client : Client
client = record {
  my_id = pos 0;
  nick = [];
  feeling = [];
  icon_id = 0;
  access_token = 10 ∷ [];
  device_id = 5 ∷ [];
  is_open = true;
  hb_interval_ms = 30000;
  last_recv_ms = 1;
  has_events = true;
  has_storage = false;
  events = [];
  stored = [];
  written = [];
}

login_request-Valid_example :
    (valid_sha256_proof (login_request mobile (1 ∷ []) client).pass ≡ true)
    × (valid_sha256_proof (register_request (97 ∷ []) mobile (1 ∷ [])).pass ≡ true)
    × ((login_request mobile (1 ∷ []) client).tel ≡ mobile)
    × ((register_request (97 ∷ []) mobile (1 ∷ [])).tel ≡ mobile)
unfolding valid_mainland_mobile
login_request-Valid_example = login_request-Valid (97 ∷ []) mobile (1 ∷ []) client refl

-- A text from user 1 to user 2, whose conversation has the id of an older version.
abbrev message : StoredMessage
message = record {
  msg_id = 7 ∷ [];
  sender_id = pos 1;
  receiver_id = pos 2;
  type = 2;
  content = codes "a.png";
  media_path = codes "/up/file/ab_a.png";
  img_w = pos 0;
  img_h = pos 0;
  ts = 1;
  seq = 1;
  file_id = codes "ab";
  file_size = 3;
  content_type = [];
  sha256 = [];
}

abbrev old_row : MessageRow
old_row = record { id = 1; conversation_id = 12; is_delivered = false; message = message }

abbrev old_conn : Conn
old_conn = conn_with (record empty_tables { messages = old_row ∷ [] })

migrate_conversation_ids-AllOrNothing_example :
    AllOrNothing
      (λ t. set_version (record t { messages = improject.Base.map renumbered t.messages }))
      old_conn
      (migrate_conversation_ids old_conn)
migrate_conversation_ids-AllOrNothing_example =
    migrate_conversation_ids-AllOrNothing old_conn ((refl, refl), tt) refl
