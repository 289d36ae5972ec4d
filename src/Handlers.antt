-- ===== src/Handlers.antt =====
-- im_server/src/handlers/HandlerUtils.h: what the handlers share. A payload that does not parse is
-- `none` in the handlers.
pub mod Auth
pub mod Friend
pub mod Roam
pub mod System
pub mod Assistant
use improject.Base.{ℕ, ℤ, pos, [], Option, none, some, ◌==◌, if◌then◌else◌}
use improject.Db.Tables.{StoredMessage, UserRecord}
use improject.Db.Users.{get_user}
use improject.Packets.{FriendInfo, ChatInfoRq, friend_info}
use improject.World.{Act, ◌>>=◌, done, sql, send}

abbrev pub info_of : UserRecord → ℕ → FriendInfo
info_of user status = record {
  user_id = user.id;
  icon_id = user.icon_id;
  status = status;
  nick = user.nick;
  feeling = user.feeling;
}

unfoldable pub send_friend_info : ℕ → ℤ → ℕ → Act (Unit {0})
send_friend_info to user status = do
  found ← sql (get_user user)
  elim found [ none ↦ done | some record' ↦ send to (friend_info (info_of record' status)) ]

-- fillChatInfo, on a new ChatInfoRq.
unfoldable pub fill_chat_info : StoredMessage → ChatInfoRq
fill_chat_info m =
    let out : ChatInfoRq = record {
      my_id = m.sender_id;
      fri_id = m.receiver_id;
      msg = [];
      type = 0;
      image_width = pos 0;
      image_height = pos 0;
      msg_id = m.msg_id;
      ts = m.ts;
      seq = m.seq;
      file_name = [];
      file_size = 0;
      file_id = [];
      content_type = [];
      sha256 = [];
    } in
    if m.type == 1
    then record out {
      type = 1;
      image_width = m.img_w;
      image_height = m.img_h;
      file_id = m.file_id;
      file_size = m.file_size;
      content_type = m.content_type;
      sha256 = m.sha256;
    }
    else if m.type == 2
    then record out {
      type = 2;
      file_id = m.file_id;
      file_name = m.content;
      file_size = m.file_size;
      content_type = m.content_type;
      sha256 = m.sha256;
    }
    else record out { msg = m.content }
