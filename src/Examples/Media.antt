-- ===== src/Examples/Media.antt =====
-- The requests of the file server, with the token 10 of user 1 on device 5, and the transport of the client.
use improject.Base.{
  pos, [], ◌∷◌, ◌++◌, true, false, ◌≡◌, refl, none, some, Bytes, if◌then◌else◌, bytes_eq, codes,
  arith, int_eq,
}
use improject.Db.Tables.{StoredMessage, MessageRow, AuthSessionRow, empty_tables}
use improject.Text.{starts_with, find_text, parse_int}
use improject.Tokens.{validate_access}
use improject.Db.AuthSessions.{find_by_access_hash}
use improject.Db.Friends.{is_friend}
use improject.Db.Messages.{get_message_by_file_id}
use improject.Db.Users.{Passwords}
use improject.Ai.{limiter}
use improject.World.{World, Env, no_login}
use improject.Files.{
  Disk, Headers, Content, Response, status, uploaded, file_content, UploadAnswer, upload_body,
  handle_upload, handle_download,
}
use improject.Media.{behind_last}
use improject.Files.Downloads.{Allowed, handle_download-Allowed}
use improject.Files.Uploads.Requests.{Accepted, handle_upload-Accepted}
use improject.Client.{Client}
use improject.Client.Transfer.{upload_media}
use improject.Wire.{client_send, encode_len32}
use improject.Client.Uploads.{Recorded, upload_media-handle_upload}
use improject.Client.Transport.{
  Transport, connected, send, do_write, run_task, next_task, on_written, Reach, here, next, sends,
  runs, writes_end,
}
use improject.Client.Transport.Writes.{WritesInTurn, Reach-WritesInTurn}

abbrev same : Bytes → Bytes
same text = text

abbrev passwords : Passwords
passwords = record {
  hash = λ salt pass. some pass;
  verify = λ stored pass. true;
  sha256_hex = same;
}

abbrev env : Env
env = record {
  alive = λ s. true;
  now = 100;
  ticks = 5000;
  salt = [];
  issued = none;
  drawn = none;
  fallback = 7 ∷ [];
  passwords = passwords;
  token_hash = same;
}

abbrev disk : Disk
disk = record { upload_dir = codes "/up"; opens = true; exists = λ path. true }

abbrev session_row : AuthSessionRow
session_row = record {
  auth = record {
    session_id = 8 ∷ [];
    family_id = 9 ∷ [];
    user_id = pos 1;
    device_id = 5 ∷ [];
    access_hash = 10 ∷ [];
    access_expires_at = 300;
    refresh_hash = 20 ∷ [];
    refresh_expires_at = 172800;
    generation = 1;
    revoked = false;
  };
  created_at = 0;
  last_used_at = 0;
}

-- A file from user 2 to user 1.
abbrev message : StoredMessage
message = record {
  msg_id = 7 ∷ [];
  sender_id = pos 2;
  receiver_id = pos 1;
  type = 1;
  content = [];
  media_path = codes "/up/img/a.png";
  img_w = pos 1;
  img_h = pos 1;
  ts = 1;
  seq = 1;
  file_id = codes "ab";
  file_size = 3;
  content_type = codes "image/png";
  sha256 = [];
}

abbrev row : MessageRow
row = record { id = 1; conversation_id = 4294967298; is_delivered = false; message = message }

abbrev world : World
world = record {
  conn = record {
    tables = record empty_tables {
      friends = (pos 1, pos 2) ∷ (pos 2, pos 1) ∷ [];
      messages = row ∷ [];
      auth_sessions = session_row ∷ [];
    };
    saved = none;
    works = λ n. true;
    calls = 0;
  };
  refresh_results = [];
  presence = [];
  uploads = [];
  upload_count = 0;
  logins = λ s. no_login;
  assistant = record {
    limiter = limiter (pos 1) (pos 2) (pos 600);
    active = [];
    cancelled = [];
    posted = [];
  };
  sent = [];
}

abbrev headers : Headers
headers name =
    if bytes_eq name (codes "Authorization")
    then codes "Bearer " ++ 10 ∷ []
    else if bytes_eq name (codes "X-Device-Id")
    then 5 ∷ []
    else if bytes_eq name (codes "X-File-Name")
    then codes "dir/a.txt"
    else if bytes_eq name (codes "X-Receiver-Id")
    then codes "2"
    else if bytes_eq name (codes "Content-Length")
    then codes "3"
    else []

handle_download-Allowed_example :
    Allowed env disk headers (codes "ab") world (codes "/up/img/a.png") (codes "image/png")
unfolding handle_download bytes_eq int_eq starts_with validate_access find_by_access_hash find_text
    get_message_by_file_id
handle_download-Allowed_example =
    handle_download-Allowed env disk headers (codes "ab") world (codes "/up/img/a.png")
      (codes "image/png") none refl

abbrev content : Content
content = record { chunks = (97 ∷ []) ∷ (98 ∷ 99 ∷ []) ∷ []; complete = true }

-- The answer in a response to an upload.
abbrev answer_in : Response → UploadAnswer
answer_in (uploaded a) = a
answer_in (status n) = record { file_id = []; sha256 = []; size = 0; content_type = [] }
answer_in (file_content path type d) = record {
  file_id = [];
  sha256 = [];
  size = 0;
  content_type = [];
}

abbrev answer : UploadAnswer
answer = answer_in (handle_upload env disk headers content world).0

handle_upload-Accepted_example : Accepted env disk headers content world answer
unfolding handle_upload bytes_eq starts_with validate_access find_by_access_hash behind_last
    parse_int is_friend int_eq
handle_upload-Accepted_example = handle_upload-Accepted env disk headers content world answer refl

abbrev client : Client
client = record {
  my_id = pos 1;
  nick = [];
  feeling = [];
  icon_id = 0;
  access_token = 10 ∷ [];
  device_id = 5 ∷ [];
  is_open = true;
  hb_interval_ms = 30000;
  last_recv_ms = 1;
  has_events = true;
  has_storage = false;
  events = [];
  stored = [];
  written = [];
}

upload_media-handle_upload_example :
    let file_id =
      upload_media (codes "im.example") 24564 (some 3) (some (200, upload_body answer)) client in
    (file_id ≡ answer.file_id) × Recorded env disk headers content world file_id
unfolding handle_upload bytes_eq starts_with validate_access find_by_access_hash behind_last
    parse_int is_friend int_eq
upload_media-handle_upload_example =
    upload_media-handle_upload env disk headers content world answer client (codes "im.example")
      24564 refl refl (omega arith)

-- Two frames are in the queue, and the first is written.
abbrev one_written : Transport
one_written =
    on_written false (next_task (next_task (send true (8 ∷ []) (send true (7 ∷ []) connected))))

one_written-Reach : Reach one_written
unfolding connected send next_task run_task do_write client_send encode_len32
one_written-Reach =
    next (next (next (next (next here (sends true (7 ∷ []))) (sends true (8 ∷ []))) runs) runs)
      (writes_end false (λ e. ground (arith, e)))

Reach-WritesInTurn_example : WritesInTurn one_written
Reach-WritesInTurn_example = Reach-WritesInTurn {t = one_written} one_written-Reach
