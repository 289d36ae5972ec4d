-- ===== src/Packets.antt =====
-- protocol/im.proto: the messages that the client and the server exchange, with the numbers of
-- client_core/include/client_core/Protocol.h that go with them.
use improject.Base.{ℕ, ℤ, List, Bool, Bytes}

pub record RegisterRq : Type 0 where
  pub nick : Bytes
  pub tel : Bytes
  pub pass : Bytes

pub record LoginRq : Type 0 where
  pub tel : Bytes
  pub pass : Bytes
  pub device_id : Bytes

-- A LoginRs without success has only its result.
pub record LoginRs : Type 0 where
  pub user_id : ℤ
  pub result : ℤ
  pub access_token : Bytes
  pub refresh_token : Bytes
  pub access_token_expire_at : ℕ
  pub refresh_token_expire_at : ℕ
  pub session_id : Bytes

pub record RefreshTokenRq : Type 0 where
  pub refresh_token : Bytes
  pub device_id : Bytes
  pub request_id : Bytes

pub record RefreshTokenRs : Type 0 where
  pub result : ℕ
  pub access_token : Bytes
  pub refresh_token : Bytes
  pub access_token_expire_at : ℕ
  pub refresh_token_expire_at : ℕ
  pub session_id : Bytes

pub record TokenLoginRq : Type 0 where
  pub access_token : Bytes
  pub device_id : Bytes

pub record TokenLoginRs : Type 0 where
  pub result : ℤ
  pub user_id : ℤ
  pub access_token_expire_at : ℕ

pub record LogoutRq : Type 0 where
  pub refresh_token : Bytes
  pub device_id : Bytes
  pub logout_all_devices : Bool

pub record FriendInfo : Type 0 where
  pub user_id : ℤ
  pub icon_id : ℕ
  pub status : ℕ
  pub nick : Bytes
  pub feeling : Bytes

-- im.proto: type is 0 (TEXT), 1 (IMAGE) or 2 (FILE).
pub record ChatInfoRq : Type 0 where
  pub my_id : ℤ
  pub fri_id : ℤ
  pub msg : Bytes
  pub type : ℕ
  pub image_width : ℤ
  pub image_height : ℤ
  pub msg_id : Bytes
  pub ts : ℕ
  pub seq : ℕ
  pub file_name : Bytes
  pub file_size : ℕ
  pub file_id : Bytes
  pub content_type : Bytes
  pub sha256 : Bytes

pub record ChatInfoRs : Type 0 where
  pub my_id : ℤ
  pub fri_id : ℤ
  pub result : ℕ
  pub msg_id : Bytes
  pub seq : ℕ

pub record AddFriendRq : Type 0 where
  pub my_id : ℤ
  pub my_nick : Bytes
  pub fri_nick : Bytes

pub record AddFriendRs : Type 0 where
  pub result : ℕ
  pub dest_id : ℤ
  pub dest_nick : Bytes
  pub my_id : ℤ
  pub my_nick : Bytes

pub record FriendRequestItem : Type 0 where
  pub requester_id : ℤ
  pub target_id : ℤ
  pub requester_nick : Bytes
  pub target_nick : Bytes
  pub created_at : ℕ

pub record DeleteFriendRs : Type 0 where
  pub result : ℕ
  pub friend_id : ℤ
  pub operator_id : ℤ
  pub operator_nick : Bytes

pub record RoamMsgRq : Type 0 where
  pub peer_id : ℤ
  pub before_seq : ℤ
  pub limit : ℤ

pub record RoamMsgRs : Type 0 where
  pub peer_id : ℤ
  pub msgs : List ChatInfoRq
  pub has_more : Bool
  pub min_seq : ℕ

pub data AiReplyStatus : Type 0 where
  ai_reply_ok ai_reply_invalid_request ai_reply_unauthorized ai_reply_not_friend
        ai_reply_rate_limited ai_reply_busy ai_reply_not_configured ai_reply_upstream_error :
      AiReplyStatus

pub record AiReplyRq : Type 0 where
  pub request_id : Bytes
  pub peer_id : ℤ
  pub tone : Bytes
  pub max_suggestions : ℤ

pub record AiReplyRs : Type 0 where
  pub request_id : Bytes
  pub status : AiReplyStatus
  pub suggestions : List Bytes

-- What the server sends. A packet without a payload has only its number.
pub data Packet : Type 0 where
  register_rs : ℤ → Packet
  login_rs : LoginRs → Packet
  friend_info : FriendInfo → Packet
  chat_rq : ChatInfoRq → Packet
  chat_rs : ChatInfoRs → Packet
  add_friend_rq : AddFriendRq → Packet
  add_friend_rs : AddFriendRs → Packet
  friend_offline : ℤ → Packet
  heartbeat_rs : Packet
  kicked_offline : Packet
  roam_conv_rs : List ChatInfoRq → Packet
  roam_msg_rs : RoamMsgRs → Packet
  token_login_rs : TokenLoginRs → Packet
  token_refresh_rs : RefreshTokenRs → Packet
  logout_rs : ℕ → Packet
  ai_reply_rs : AiReplyRs → Packet
  delete_friend_rs : DeleteFriendRs → Packet
  friend_request_list_rs : List FriendRequestItem → Packet

-- What the server reads, by the number of its type.
abbrev pub register_rq_type : ℕ
register_rq_type = 1000

abbrev pub login_rq_type : ℕ
login_rq_type = 1002

abbrev pub chat_info_rq_type : ℕ
chat_info_rq_type = 1005

abbrev pub add_friend_rq_type : ℕ
add_friend_rq_type = 1007

abbrev pub add_friend_rs_type : ℕ
add_friend_rs_type = 1008

abbrev pub friend_offline_type : ℕ
friend_offline_type = 1009

abbrev pub heartbeat_rq_type : ℕ
heartbeat_rq_type = 1010

abbrev pub roam_conv_rq_type : ℕ
roam_conv_rq_type = 1013

abbrev pub roam_msg_rq_type : ℕ
roam_msg_rq_type = 1015

abbrev pub token_login_rq_type : ℕ
token_login_rq_type = 1023

abbrev pub token_refresh_rq_type : ℕ
token_refresh_rq_type = 1025

abbrev pub logout_rq_type : ℕ
logout_rq_type = 1027

abbrev pub ai_reply_rq_type : ℕ
ai_reply_rq_type = 1029

abbrev pub ai_cancel_rq_type : ℕ
ai_cancel_rq_type = 1031

abbrev pub delete_friend_rq_type : ℕ
delete_friend_rq_type = 1032

abbrev pub friend_request_list_rq_type : ℕ
friend_request_list_rq_type = 1034

abbrev pub chat_succ : ℕ
chat_succ = 0

abbrev pub chat_fail : ℕ
chat_fail = 1

abbrev pub chat_not_friend : ℕ
chat_not_friend = 2

abbrev pub chat_server_error : ℕ
chat_server_error = 3

abbrev pub chat_file_not_owned : ℕ
chat_file_not_owned = 4

abbrev pub status_online : ℕ
status_online = 0

abbrev pub status_offline : ℕ
status_offline = 1

abbrev pub add_friend_agree : ℕ
add_friend_agree = 0

abbrev pub add_friend_reject : ℕ
add_friend_reject = 1

abbrev pub add_friend_not_exist : ℕ
add_friend_not_exist = 3

abbrev pub add_friend_self : ℕ
add_friend_self = 4

abbrev pub add_friend_already : ℕ
add_friend_already = 5

abbrev pub add_friend_pending : ℕ
add_friend_pending = 6

abbrev pub add_friend_db_error : ℕ
add_friend_db_error = 7

abbrev pub delete_friend_success : ℕ
delete_friend_success = 0

abbrev pub delete_friend_db_error : ℕ
delete_friend_db_error = 1

abbrev pub delete_friend_not_friend : ℕ
delete_friend_not_friend = 2

abbrev pub delete_friend_invalid : ℕ
delete_friend_invalid = 3
