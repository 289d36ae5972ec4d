-- ===== src/Chat.antt =====
-- im_server/src/handlers/MessageHandler.cpp: a chat message is checked, stored, and handed to the
-- receiver's session; with the upload records of HttpFileServer.cpp that it claims.
pub mod Answers
use improject.Base.{
  ℕ, ℤ, pos, List, [], ◌∷◌, Bool, true, false, not, ◌&&◌, ◌||◌, Option, none, some, Bytes, ◌==◌,
  if◌then◌else◌, is_pos, int_eq, bytes_eq, find_if, keep_if, is_empty,
}
use improject.Db.Tables.{StoredMessage}
use improject.Db.Friends.{is_friend}
use improject.Db.Messages.{save_message}
use improject.Presence.{get}
use improject.Packets.{
  ChatInfoRq, Packet, chat_rq, chat_rs, chat_succ, chat_fail, chat_not_friend, chat_server_error,
  chat_file_not_owned,
}
use improject.World.{World, UploadRecord, deliver}

abbrev pub has_file_id : Bytes → UploadRecord → Bool
has_file_id id record' = bytes_eq record'.file_id id

unfoldable pub find_upload_record : Bytes → List UploadRecord → Option UploadRecord
find_upload_record id uploads = find_if (has_file_id id) uploads

unfoldable pub erase_upload_record : Bytes → List UploadRecord → List UploadRecord
erase_upload_record id uploads = keep_if (λ r. not (has_file_id id r)) uploads

-- deliverFailure
abbrev pub failure : ChatInfoRq → ℕ → Packet
failure rq result =
    chat_rs (record {
      my_id = rq.fri_id;
      fri_id = rq.my_id;
      result = result;
      msg_id = rq.msg_id;
      seq = 0;
    })

abbrev pub is_media : ChatInfoRq → Bool
is_media rq = rq.type == 1 || rq.type == 2

-- What is stored of the request, with its media path and size.
abbrev pub message_of : Bytes → ChatInfoRq → Bytes → ℕ → ℕ → StoredMessage
message_of fallback rq media_path file_size now = record {
  msg_id = if is_empty rq.msg_id then fallback else rq.msg_id;
  sender_id = rq.my_id;
  receiver_id = rq.fri_id;
  type = if rq.type == 1 then 1 else if rq.type == 2 then 2 else 0;
  content = if rq.type == 2 then rq.file_name else rq.msg;
  media_path = media_path;
  img_w = rq.image_width;
  img_h = rq.image_height;
  ts = now;
  seq = 0;
  file_id = rq.file_id;
  file_size = file_size;
  content_type = rq.content_type;
  sha256 = rq.sha256;
}

abbrev pub is_some : Option ℕ → Bool
is_some none = false
is_some (some s) = true

-- The receipt and, for a receiver that is online, the message.
abbrev pub receipt : ChatInfoRq → StoredMessage → ℕ → Packet
receipt rq m result = chat_rs (record {
  my_id = rq.fri_id;
  fri_id = rq.my_id;
  result = result;
  msg_id = m.msg_id;
  seq = m.seq;
})

unfoldable pub forward : ℕ → Option ℕ → ChatInfoRq → StoredMessage → World → World
forward s none rq m w = deliver s (receipt rq m chat_fail) w
forward s (some target) rq m w =
    deliver s (receipt rq m chat_succ)
      (deliver target (chat_rq (record rq { msg_id = m.msg_id; ts = m.ts; seq = m.seq })) w)

module _ (alive : ℕ → Bool) where
  -- From saveMessage on.
  unfoldable pub store_and_forward : ℕ → ChatInfoRq → StoredMessage → World → World
  unfolding erase_upload_record forward
  store_and_forward s rq m w =
      let target = get alive rq.fri_id w.presence in
      let ((saved, m'), conn) = save_message m (is_some target) w.conn in
      if not saved
      then deliver s (failure rq chat_server_error) (record w { conn = conn })
      else forward s target rq m' (record w {
        conn = conn;
        uploads =
            if m.type == 1 || m.type == 2
            then erase_upload_record m.file_id w.uploads
            else w.uploads;
      })

  -- An image or a file must have been uploaded by this user for this receiver.
  unfoldable pub claim_upload : ℕ → ℤ → Bytes → ℕ → ChatInfoRq → Option UploadRecord → World → World
  unfolding store_and_forward
  claim_upload s user fallback now rq none w = deliver s (failure rq chat_file_not_owned) w
  claim_upload s user fallback now rq (some r) w =
      if not (int_eq r.uploader_id user) || not (int_eq r.receiver_id rq.fri_id)
      then deliver s (failure rq chat_file_not_owned) w
      else let rq' : ChatInfoRq = record rq {
        file_size = r.size;
        content_type = r.content_type;
        sha256 = r.sha256;
      } in
        store_and_forward s rq' (message_of fallback rq' r.media_path r.size now) w

  -- The request of a friend.
  unfoldable pub accept_chat : ℕ → ℤ → Bytes → ℕ → ChatInfoRq → World → World
  unfolding claim_upload find_upload_record
  accept_chat s user fallback now rq w =
      if is_media rq
      then claim_upload s user fallback now rq (find_upload_record rq.file_id w.uploads) w
      else store_and_forward s rq (message_of fallback rq [] 0 now) w

  -- onChat, for the session `s` of `user`: `none` is a payload that does not parse, `fallback` what
  -- fallbackMsgId would give, `now` the time.
  unfoldable pub on_chat : ℕ → ℤ → Bytes → ℕ → Option ChatInfoRq → World → World
  unfolding accept_chat
  on_chat s user fallback now none w = w
  on_chat s user fallback now (some packet) w =
      if not (is_pos user)
      then w
      else let rq : ChatInfoRq = record packet { my_id = user } in
        let (friends, conn) = is_friend user rq.fri_id w.conn in
        if not friends
        then deliver s (failure rq chat_not_friend) (record w { conn = conn })
        else accept_chat s user fallback now rq (record w { conn = conn })
