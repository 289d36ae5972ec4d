-- ===== src/Db/Tables.antt =====
-- The rows of the SQLite tables that Database::open creates, and the records that the queries of
-- im_server/src/Database.h return. An AUTOINCREMENT key is the table's next key.
use improject.Base.{ℕ, ℤ, pos, ◌+◌, ◌*◌, ◌^◌, List, [], Bool, ◌||◌, Bytes, ltb, ◌==◌, if◌then◌else◌}

-- t_user
pub record UserRow : Type 0 where
  pub id : ℤ
  pub name : Bytes
  pub tel : Bytes
  pub passwd : Bytes
  pub salt : Bytes
  pub password_algo : Bytes
  pub feeling : Bytes
  pub iconid : ℕ

-- friend_requests; a status is 0 (pending), 1 (accepted) or 2 (refused).
pub record FriendRequestRow : Type 0 where
  pub requester_id : ℤ
  pub target_id : ℤ
  pub status : ℕ
  pub created_at : ℕ
  pub updated_at : ℕ

pub record StoredMessage : Type 0 where
  pub msg_id : Bytes
  pub sender_id : ℤ
  pub receiver_id : ℤ
  pub type : ℕ
  pub content : Bytes
  pub media_path : Bytes
  pub img_w : ℤ
  pub img_h : ℤ
  pub ts : ℕ
  pub seq : ℕ
  pub file_id : Bytes
  pub file_size : ℕ
  pub content_type : Bytes
  pub sha256 : Bytes

-- messages
pub record MessageRow : Type 0 where
  pub id : ℕ
  pub conversation_id : ℕ
  pub is_delivered : Bool
  pub message : StoredMessage
  pub open message use *

pub record AuthSessionRecord : Type 0 where
  pub session_id : Bytes
  pub family_id : Bytes
  pub user_id : ℤ
  pub device_id : Bytes
  pub access_hash : Bytes
  pub access_expires_at : ℕ
  pub refresh_hash : Bytes
  pub refresh_expires_at : ℕ
  pub generation : ℕ
  pub revoked : Bool

-- auth_sessions
pub record AuthSessionRow : Type 0 where
  pub auth : AuthSessionRecord
  pub open auth use *
  pub created_at : ℕ
  pub last_used_at : ℕ

-- auth_refresh_history
pub record HistoryRow : Type 0 where
  pub family_id : Bytes
  pub token_hash : Bytes
  pub generation : ℕ
  pub used_at : ℕ

pub record Tables : Type 0 where
  pub users : List UserRow
  pub next_user : ℕ
  pub friends : List (ℤ × ℤ)
  pub friend_requests : List FriendRequestRow
  pub messages : List MessageRow
  pub next_message : ℕ
  pub auth_sessions : List AuthSessionRow
  pub refresh_history : List HistoryRow
  pub user_version : ℕ

-- A database file with the schema and no rows.
abbrev pub empty_tables : Tables
empty_tables = record {
  users = [];
  next_user = 1;
  friends = [];
  friend_requests = [];
  messages = [];
  next_message = 1;
  auth_sessions = [];
  refresh_history = [];
  user_version = 0;
}

pub record UserRecord : Type 0 where
  pub id : ℤ
  pub icon_id : ℕ
  pub nick : Bytes
  pub feeling : Bytes

pub record FriendRequestRecord : Type 0 where
  pub requester_id : ℤ
  pub target_id : ℤ
  pub requester_nick : Bytes
  pub target_nick : Bytes
  pub created_at : ℕ

-- makeConversationId: the smaller id in the high half, the larger in the low half. On two positive
-- `int`s the casts to 32 bits change nothing, and the two halves do not overlap.
unfoldable pub make_conversation_id : ℤ → ℤ → ℕ
make_conversation_id (pos a) (pos b) =
    if a == 0 || b == 0 then 0 else (if ltb a b then a else b) * 2 ^ 32 + (if ltb b a then a else b)
make_conversation_id _ _ = 0
