-- ===== src/Client/Send.antt =====
-- client_core/src/ClientCore.cpp: the client's requests and its heartbeat.
use improject.Base.{
  ℕ, zero, suc, ℤ, pos, ◌-◌, ◌*◌, ◌/◌, ◌%◌, ◌^◌, [], ◌∷◌, ◌++◌, Bool, true, false, not, ◌&&◌, Bytes,
  ◌==◌, ltb, if◌then◌else◌, length, take, is_pos, replicate,
}
use improject.Sha256.{hex_digit, sha256_hex}
use improject.Wire.{utf8_truncate}
use improject.Packets.{
  RegisterRq, LoginRq, ChatInfoRq, register_rq_type, login_rq_type, chat_info_rq_type,
  add_friend_rq_type, add_friend_rs_type, friend_offline_type, heartbeat_rq_type, roam_conv_rq_type,
  roam_msg_rq_type, add_friend_agree, add_friend_reject,
}
use improject.Client.{Client, Serialize, store, send_packet, saved_chat}

-- The hexadecimal digits of a number below 16 ^ fuel, and those of `%0<width>llx`.
unfoldable pub hex_digits : ℕ → ℕ → Bytes
hex_digits zero n = []
hex_digits (suc fuel) n =
    let rest = hex_digits fuel (n / 16) in
    if ltb n 16 then hex_digit n ∷ [] else rest ++ hex_digit (n % 16) ∷ []

unfoldable pub hex_padded : ℕ → ℕ → Bytes
unfolding hex_digits
hex_padded width n = let shown = hex_digits 16 n in replicate (width - length shown) 48 ++ shown

-- makeMsgId, for the time, the counter and the random number; 39 characters fit the buffer.
unfoldable pub make_msg_id : ℕ → ℕ → ℕ → Bytes
unfolding hex_padded
make_msg_id ts seq rand64 =
    take 39 (hex_padded 13 ts ++ hex_padded 5 (seq % 2 ^ 20) ++ hex_padded 16 rand64)

-- A ChatInfoRq with only its ids.
abbrev pub new_chat : ℤ → ℤ → Bytes → ChatInfoRq
new_chat my_id fri_id msg_id = record {
  my_id = my_id;
  fri_id = fri_id;
  msg = [];
  type = 0;
  image_width = pos 0;
  image_height = pos 0;
  msg_id = msg_id;
  ts = 0;
  seq = 0;
  file_name = [];
  file_size = 0;
  file_id = [];
  content_type = [];
  sha256 = [];
}

unfoldable pub register_request : Bytes → Bytes → Bytes → RegisterRq
register_request nick tel pass = record {
  nick = utf8_truncate nick 29;
  tel = utf8_truncate tel 14;
  pass = sha256_hex pass;
}

unfoldable pub login_request : Bytes → Bytes → Client → LoginRq
login_request tel pass c = record {
  tel = utf8_truncate tel 14;
  pass = sha256_hex pass;
  device_id = c.device_id;
}

module _ (serialize : Serialize) where
  unfoldable pub send_register : Bytes → Bytes → Bytes → Client → Client
  unfolding send_packet register_request
  send_register nick tel pass c =
      send_packet register_rq_type (serialize.register_rq (register_request nick tel pass)) c

  unfoldable pub send_login : Bytes → Bytes → Client → Client
  unfolding send_packet login_request
  send_login tel pass c =
      send_packet login_rq_type (serialize.login_rq (login_request tel pass c)) c

  -- `id` is what makeMsgId gives, `now` the time.
  unfoldable pub send_chat_message : Bytes → ℕ → ℤ → Bytes → Client → Client
  unfolding send_packet
  send_chat_message id now friend text c =
      let msg = utf8_truncate text 8191 in
      let rq : ChatInfoRq = record (new_chat c.my_id friend id) { msg = msg } in
      let c' = send_packet chat_info_rq_type (serialize.chat_info_rq rq) c in
      if is_pos c'.my_id then store (saved_chat c'.my_id friend true msg now) c' else c'

  unfoldable pub send_file_message :
      Bytes → ℤ → Bytes → Bytes → ℕ → Bytes → Bytes → Bool → ℤ → ℤ → Client → Client
  unfolding send_packet
  send_file_message id friend file_id name size content_type sha image w h c =
      send_packet chat_info_rq_type
        (serialize.chat_info_rq (record (new_chat c.my_id friend id) {
          type = if image then 1 else 2;
          file_id = file_id;
          file_name = name;
          file_size = size;
          content_type = content_type;
          sha256 = sha;
          image_width = w;
          image_height = h;
        }))
        c

  unfoldable pub send_add_friend_request : Bytes → Client → Client
  unfolding send_packet
  send_add_friend_request nick c =
      send_packet add_friend_rq_type
        (serialize.add_friend_rq
          (record { my_id = c.my_id; my_nick = c.nick; fri_nick = utf8_truncate nick 29 }))
        c

  unfoldable pub answer_add_friend : ℤ → Bytes → Bool → Client → Client
  unfolding send_packet
  answer_add_friend dest nick agree c =
      send_packet add_friend_rs_type
        (serialize.add_friend_rs (record {
          result = if agree then add_friend_agree else add_friend_reject;
          dest_id = dest;
          dest_nick = utf8_truncate nick 29;
          my_id = c.my_id;
          my_nick = c.nick;
        }))
        c

  unfoldable pub send_offline_notify : Client → Client
  unfolding send_packet
  send_offline_notify c = send_packet friend_offline_type (serialize.friend_offline c.my_id) c

  unfoldable pub send_roam_conv_rq : Client → Client
  unfolding send_packet
  send_roam_conv_rq c = send_packet roam_conv_rq_type (serialize.roam_conv_rq c.my_id) c

  unfoldable pub send_roam_msg_rq : ℤ → ℤ → ℤ → Client → Client
  unfolding send_packet
  send_roam_msg_rq peer before limit c =
      send_packet roam_msg_rq_type
        (serialize.roam_msg_rq c.my_id
          (record { peer_id = peer; before_seq = before; limit = limit }))
        c

-- What the heartbeat's thread does after an interval.
unfoldable pub heartbeat_turn : ℕ → Client → Client
unfolding send_packet
heartbeat_turn now c =
    if not c.is_open
    then c
    else if ltb 0 c.last_recv_ms && ltb (3 * c.hb_interval_ms) (now - c.last_recv_ms)
    then record c { is_open = false }
    else send_packet heartbeat_rq_type [] c

unfoldable pub set_heartbeat_interval_ms : ℤ → Client → Client
set_heartbeat_interval_ms (pos n) c = if n == 0 then c else record c { hb_interval_ms = n }
set_heartbeat_interval_ms _ c = c
