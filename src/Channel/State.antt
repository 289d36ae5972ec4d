-- ===== src/Channel/State.antt =====
-- The state of a Session, the messages of its handshake, and what closes it. What is posted on the
-- connection's strand waits in `posted`, and runs in order.
use improject.Base.{ℕ, suc, List, [], ◌∷◌, ◌++◌, Bool, true, false, Option, Bytes, if◌then◌else◌}
use improject.Wire.{raw_frame}

pub data SecurityState : Type 0 where
  tls_handshake wait_client_hello wait_client_finished established closed : SecurityState

-- Protocol.h
abbrev pub app_client_hello : ℕ
app_client_hello = 1036

abbrev pub app_server_hello : ℕ
app_server_hello = 1037

abbrev pub app_client_finished : ℕ
app_client_finished = 1038

abbrev pub app_server_finished : ℕ
app_server_finished = 1039

abbrev pub app_encrypted_frame : ℕ
app_encrypted_frame = 1040

abbrev pub app_security_version : ℕ
app_security_version = 1

abbrev pub app_max_handshake_payload : ℕ
app_max_handshake_payload = 1024

-- The messages of protocol/im.proto that the session reads and writes.
pub record AppClientHello : Type 0 where
  pub version : ℕ
  pub client_ephemeral_public_key : Bytes
  pub client_nonce : Bytes
  pub client_random_id : Bytes
  pub cipher_suite : ℕ

pub record AppServerHello : Type 0 where
  pub version : ℕ
  pub server_ephemeral_public_key : Bytes
  pub server_nonce : Bytes
  pub session_id : Bytes
  pub key_id : ℕ
  pub signature : Bytes
  pub cipher_suite : ℕ

pub record AppEncryptedFrame : Type 0 where
  pub version : ℕ
  pub session_id : Bytes
  pub sequence : ℕ
  pub ciphertext : Bytes
  pub tag : Bytes

-- The generated protobuf code: `none` is a payload that does not parse.
pub record Proto : Type 0 where
  pub parse_client_hello : Bytes → Option AppClientHello
  pub parse_finished : Bytes → Option Bytes
  pub parse_frame : Bytes → Option AppEncryptedFrame
  pub serialize_server_hello : AppServerHello → Bytes
  pub serialize_finished : Bytes → Bytes
  pub serialize_frame : AppEncryptedFrame → Bytes

-- What is posted on the strand: the body of deliver, of close and of closeAfterWrite.
pub data Task : Type 0 where
  deliver_task : ℕ → Bytes → Task
  close_task close_after_write_task : Task

-- `dispatched` holds what was posted to the business strand, the newest first; `notified` counts
-- the calls of Server::onSessionClosed. `reading` says that an async_read is
-- outstanding, `writes` counts the outstanding async_writes; what is written is the head of
-- `write_queue`.
pub record Session : Type 0 where
  pub security : SecurityState
  pub transcript_hash : Bytes
  pub client_finished_key : Bytes
  pub server_finished_key : Bytes
  pub client_to_server_key : Bytes
  pub server_to_client_key : Bytes
  pub client_nonce_prefix : Bytes
  pub server_nonce_prefix : Bytes
  pub app_session_id : Bytes
  pub send_sequence : ℕ
  pub receive_sequence : ℕ
  pub write_queue : List Bytes
  pub writes : ℕ
  pub reading : Bool
  pub timer : Bool
  pub close_after_write : Bool
  pub closed_notified : Bool
  pub notified : ℕ
  pub posted : List Task
  pub dispatched : List (ℕ × Bytes)

-- A connection whose TLS handshake has begun.
abbrev pub started : Session
started = record {
  security = tls_handshake;
  transcript_hash = [];
  client_finished_key = [];
  server_finished_key = [];
  client_to_server_key = [];
  server_to_client_key = [];
  client_nonce_prefix = [];
  server_nonce_prefix = [];
  app_session_id = [];
  send_sequence = 0;
  receive_sequence = 0;
  write_queue = [];
  writes = 0;
  reading = false;
  timer = false;
  close_after_write = false;
  closed_notified = false;
  notified = 0;
  posted = [];
  dispatched = [];
}

abbrev pub post : Task → Session → Session
post task s = record s { posted = s.posted ++ task ∷ [] }

pub is_closed : SecurityState → Bool
is_closed closed = true
is_closed tls_handshake = false
is_closed wait_client_hello = false
is_closed wait_client_finished = false
is_closed established = false

-- failApplicationHandshake, with close() as what it posts.
unfoldable pub fail : Session → Session
unfolding is_closed
fail s = if is_closed s.security then s else post close_task (record s { security = closed })

-- onClosed: once only.
unfoldable pub on_closed : Session → Session
on_closed s = if s.closed_notified then s else record s {
  closed_notified = true;
  security = closed;
  timer = false;
  client_finished_key = [];
  server_finished_key = [];
  client_to_server_key = [];
  server_to_client_key = [];
  transcript_hash = [];
  send_sequence = 0;
  receive_sequence = 0;
  notified = suc s.notified;
}

-- doWrite: an async_write of the head, or a close that was put off.
unfoldable pub do_write : Session → Session
do_write s = elim s.write_queue [
  | [] ↦ if s.close_after_write then post close_task s else s
  | front ∷ rest ↦ record s { writes = suc s.writes }
]

-- enqueueRawFrame: the first in the queue starts writing.
unfoldable pub enqueue_raw_frame : ℕ → Bytes → Session → Session
unfolding do_write
enqueue_raw_frame type payload s = elim s.write_queue [
  | [] ↦ do_write (record s { write_queue = raw_frame type payload ∷ [] })
  | front ∷ rest ↦ record s { write_queue = front ∷ rest ++ raw_frame type payload ∷ [] }
]
