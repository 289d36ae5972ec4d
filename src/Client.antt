-- ===== src/Client.antt =====
-- client_core/src/ClientCore.cpp: the client's members and what its methods call. The generated
-- protobuf classes are parameters.
pub mod Send
pub mod Transport
pub mod Transfer
pub mod Receive
pub mod Accepted
pub mod Uploads
use improject.Base.{
  ℕ, zero, suc, ℤ, pos, ◌+◌, ◌-◌, ◌*◌, ◌/◌, ◌%◌, ◌^◌, List, [], ◌∷◌, ◌++◌, map, Bool, true, false,
  not, ◌&&◌, ◌||◌, Option, none, some, Bytes, ◌==◌, ltb, leb, if◌then◌else◌, is_empty, length, take,
  drop, is_pos, int_eq, codes, replicate,
}
use improject.Text.{to_string, find_text}
use improject.Sha256.{hex_digit, sha256_hex}
use improject.Wire.{encode_type32, decode_type32, client_send, utf8_truncate}
use improject.Db.Users.{login_success}
use improject.Packets.{
  RegisterRq, LoginRq, LoginRs, ChatInfoRq, ChatInfoRs, AddFriendRq, AddFriendRs, RoamMsgRq,
  RoamMsgRs, FriendInfo, register_rq_type, login_rq_type, chat_info_rq_type, add_friend_rq_type,
  add_friend_rs_type, friend_offline_type, heartbeat_rq_type, roam_conv_rq_type, roam_msg_rq_type,
  add_friend_agree, add_friend_reject,
}
use improject.Files.{Headers, bearer, file_max_size}
use improject.Media.{filename}

-- RoamMessage of the public interface.
pub record RoamMessage : Type 0 where
  pub from_id : ℤ
  pub to_id : ℤ
  pub type : ℕ
  pub text : Bytes
  pub file_id : Bytes
  pub file_name : Bytes
  pub file_size : ℕ
  pub content_type : Bytes
  pub img_w : ℤ
  pub img_h : ℤ
  pub msg_id : Bytes
  pub ts : ℕ
  pub seq : ℕ

pub record UserInfo : Type 0 where
  pub id : ℤ
  pub icon_id : ℕ
  pub nick : Bytes
  pub feeling : Bytes

-- The calls of IClientEvents.
pub data Event : Type 0 where
  register_result : ℤ → Event
  login_result : ℤ → ℤ → Event
  self_info : UserInfo → Event
  friend_known : FriendInfo → Event
  chat_message : ℤ → Bytes → Event
  file_card : ChatInfoRq → Event
  chat_send_result : ℤ → ℕ → Event
  add_friend_request : ℤ → Bytes → Event
  add_friend_result : ℕ → Bytes → Event
  friend_went : ℤ → Event
  kicked_off : Event
  roam_list : List RoamMessage → Event
  roam_page : ℤ → List RoamMessage → Bool → ℕ → Event

-- The calls of IStorage that write.
pub data Stored : Type 0 where
  saved_self : UserInfo → Stored
  saved_friend : FriendInfo → Stored
  saved_chat : ℤ → ℤ → Bool → Bytes → ℕ → Stored

-- The members of ClientCore, whether an event sink and a storage are set, and what was called or
-- handed to asio so far, the newest first.
pub record Client : Type 0 where
  pub my_id : ℤ
  pub nick : Bytes
  pub feeling : Bytes
  pub icon_id : ℕ
  pub access_token : Bytes
  pub device_id : Bytes
  pub is_open : Bool
  pub hb_interval_ms : ℕ
  pub last_recv_ms : ℕ
  pub has_events : Bool
  pub has_storage : Bool
  pub events : List Event
  pub stored : List Stored
  pub written : List Bytes

-- SerializeAsString of what the client sends.
pub record Serialize : Type 0 where
  pub register_rq : RegisterRq → Bytes
  pub login_rq : LoginRq → Bytes
  pub chat_info_rq : ChatInfoRq → Bytes
  pub add_friend_rq : AddFriendRq → Bytes
  pub add_friend_rs : AddFriendRs → Bytes
  pub friend_offline : ℤ → Bytes
  pub roam_conv_rq : ℤ → Bytes
  pub roam_msg_rq : ℤ → RoamMsgRq → Bytes

-- ParseFromArray of what it receives.
pub record Parse : Type 0 where
  pub register_rs : Bytes → Option ℤ
  pub login_rs : Bytes → Option LoginRs
  pub friend_info : Bytes → Option FriendInfo
  pub chat_info_rs : Bytes → Option ChatInfoRs
  pub chat_info_rq : Bytes → Option ChatInfoRq
  pub add_friend_rs : Bytes → Option AddFriendRs
  pub add_friend_rq : Bytes → Option AddFriendRq
  pub friend_offline : Bytes → Option ℤ
  pub roam_conv_rs : Bytes → Option (List ChatInfoRq)
  pub roam_msg_rs : Bytes → Option RoamMsgRs

-- `if (auto* ev = m_events.load()) ev->...`
abbrev pub notify : Event → Client → Client
notify e c = if c.has_events then record c { events = e ∷ c.events } else c

abbrev pub store : Stored → Client → Client
store s c = if c.has_storage then record c { stored = s ∷ c.stored } else c

-- sendPacket, down to the buffer that TcpTransport::send queues.
unfoldable pub send_packet : ℕ → Bytes → Client → Client
send_packet type payload c = elim (client_send c.is_open (encode_type32 type ++ payload)) [
  | none ↦ c
  | some buffer ↦ record c { written = buffer ∷ c.written }
]

-- toRoamMessage
unfoldable pub to_roam_message : ChatInfoRq → RoamMessage
to_roam_message c = record {
  from_id = c.my_id;
  to_id = c.fri_id;
  type = if c.type == 1 then 1 else if c.type == 2 then 2 else 0;
  text = c.msg;
  file_id = c.file_id;
  file_name = c.file_name;
  file_size = c.file_size;
  content_type = c.content_type;
  img_w = c.image_width;
  img_h = c.image_height;
  msg_id = c.msg_id;
  ts = c.ts;
  seq = c.seq;
}
