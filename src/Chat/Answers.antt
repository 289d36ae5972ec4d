-- ===== src/Chat/Answers.antt =====
-- About the outcomes of onChat in MessageHandler.cpp.
use improject.Base.{
  ℕ, ℤ, [], Bool, true, false, not, ◌||◌, Option, none, some, Bytes, ◌==◌, ◌≡◌, refl, sym, subst,
  ◌⊎◌, inl, inr, if◌then◌else◌, is_pos, int_eq, int_eq_iff, arith,
}
use improject.Db.Tables.{StoredMessage}
use improject.Db.Sql.{Conn}
use improject.Db.Friends.{is_friend}
use improject.Db.Messages.{save_message}
use improject.Presence.{get}
use improject.Packets.{ChatInfoRq, chat_not_friend, chat_server_error, chat_file_not_owned}
use improject.World.{UploadRecord, World, deliver}
use improject.Chat.{
  is_media, is_some, find_upload_record, erase_upload_record, failure, message_of, forward,
  store_and_forward, claim_upload, accept_chat, on_chat,
}

-- An upload of `user` for `friend`, with the content that the message is stored with.
pub record Owned (user friend : ℤ) (file_id : Bytes) (w : World) (m : StoredMessage) : Type 0 where
  pub upload : UploadRecord
  pub found : find_upload_record file_id w.uploads ≡ some upload
  pub by_user : upload.uploader_id ≡ user
  pub for_friend : upload.receiver_id ≡ friend
  pub content :
      (m.media_path ≡ upload.media_path) × (m.file_size ≡ upload.size) × (m.sha256 ≡ upload.sha256)

abbrev stores_media : StoredMessage → Bool
stores_media m = m.type == 1 || m.type == 2

module _ (alive : ℕ → Bool) (s : ℕ) (user : ℤ) where
  -- What may become of a friend's request, whose type is that of a media message or not.
  pub data Outcome (friend : ℤ) (media : Bool) (file_id : Bytes) (w : World) : World → Type 0 where
    -- The upload is not the user's for this friend: one answer, and nothing else.
    not_owned :
        (rq : ChatInfoRq)
        → media ≡ true
        → Outcome friend media file_id w (deliver s (failure rq chat_file_not_owned) w)
    -- The message is not saved: one answer, nothing is forwarded and no upload is used up.
    not_saved :
        (m m' : StoredMessage) (rq : ChatInfoRq) (conn : Conn)
        → save_message m (is_some (get alive friend w.presence)) w.conn ≡ ((false, m'), conn)
        → Outcome friend media file_id w
            (deliver s (failure rq chat_server_error) (record w { conn = conn }))
    -- The message is saved with the session's user as its sender, its upload is used up, and then it
    -- is forwarded and answered.
    saved :
        (m m' : StoredMessage) (rq : ChatInfoRq) (conn : Conn)
        → (rq.my_id ≡ user) × (m.sender_id ≡ user) × (m.receiver_id ≡ friend)
        → (stores_media m ≡ media) × (m.file_id ≡ file_id)
        → (media ≡ false) ⊎ Owned user friend file_id w m
        → save_message m (is_some (get alive friend w.presence)) w.conn ≡ ((true, m'), conn)
        → Outcome friend media file_id w (
            forward s (get alive friend w.presence) rq m' (record w {
              conn = conn;
              uploads =
                  if stores_media m then erase_upload_record m.file_id w.uploads else w.uploads;
            }))

  typed_lem :
      (t : ℕ)
      → ((if t == 1 then 1 else if t == 2 then 2 else 0) == 1
          || (if t == 1 then 1 else if t == 2 then 2 else 0) == 2)
        ≡ (t == 1 || t == 2)
  typed_lem t = ground arith

  store-Outcome :
      (media : Bool) (rq : ChatInfoRq) (m : StoredMessage) (w : World)
      → (stores_media m ≡ media) × (m.file_id ≡ rq.file_id)
      → (rq.my_id ≡ user) × (m.sender_id ≡ user) × (m.receiver_id ≡ rq.fri_id)
      → (media ≡ false) ⊎ Owned user rq.fri_id rq.file_id w m
      → Outcome rq.fri_id media rq.file_id w (store_and_forward alive s rq m w)
  unfolding store_and_forward
  store-Outcome media rq m w typed ids owned =
      split (save_message m (is_some (get alive rq.fri_id w.presence)) w.conn) refl
    where
      split :
          (r : (Bool × StoredMessage) × Conn)
          → save_message m (is_some (get alive rq.fri_id w.presence)) w.conn ≡ r
          → Outcome rq.fri_id media rq.file_id w (
              if not r.0.0
              then deliver s (failure rq chat_server_error) (record w { conn = r.1 })
              else forward s (get alive rq.fri_id w.presence) rq r.0.1 (record w {
                conn = r.1;
                uploads =
                    if stores_media m then erase_upload_record m.file_id w.uploads else w.uploads;
              }))
      split ((true, m'), conn) e = saved m m' rq conn ids typed owned e
      split ((false, m'), conn) e = not_saved m m' rq conn e

  claim-Outcome :
      (fallback : Bytes) (now : ℕ) (rq : ChatInfoRq) (upload : Option UploadRecord) (w : World)
      → rq.my_id ≡ user
      → is_media rq ≡ true
      → find_upload_record rq.file_id w.uploads ≡ upload
      → Outcome rq.fri_id
          (is_media rq)
          rq.file_id
          w
          (claim_upload alive s user fallback now rq upload w)
  unfolding claim_upload
  claim-Outcome fallback now rq none w mine media h = not_owned rq media
  claim-Outcome fallback now rq (some r) w mine media h =
      split (int_eq r.uploader_id user) (int_eq r.receiver_id rq.fri_id) refl refl
    where
      rq' : ChatInfoRq
      rq' = record rq { file_size = r.size; content_type = r.content_type; sha256 = r.sha256 }

      m : StoredMessage
      m = message_of fallback rq' r.media_path r.size now

      split :
          (own own' : Bool)
          → int_eq r.uploader_id user ≡ own
          → int_eq r.receiver_id rq.fri_id ≡ own'
          → Outcome rq.fri_id (is_media rq) rq.file_id w (
              if not own || not own'
              then deliver s (failure rq chat_file_not_owned) w
              else store_and_forward alive s rq' m w)
      split false own' e e' = not_owned rq media
      split true false e e' = not_owned rq media
      split true true e e' =
          store-Outcome (is_media rq) rq' m w (typed_lem rq.type, refl) (mine, mine, refl)
            (inr (record {
              upload = r;
              found = h;
              by_user = (int_eq_iff r.uploader_id user).0 e;
              for_friend = (int_eq_iff r.receiver_id rq.fri_id).0 e';
              content = (refl, refl, refl);
            }))

  accept-Outcome :
      (fallback : Bytes) (now : ℕ) (rq : ChatInfoRq) (w : World)
      → rq.my_id ≡ user
      → Outcome rq.fri_id (is_media rq) rq.file_id w (accept_chat alive s user fallback now rq w)
  unfolding accept_chat
  accept-Outcome fallback now rq w mine = split (is_media rq) refl
    where
      split :
          (media : Bool)
          → is_media rq ≡ media
          → Outcome rq.fri_id (is_media rq) rq.file_id w (
              if media
              then claim_upload alive s user fallback now rq
                  (find_upload_record rq.file_id w.uploads)
                  w
              else store_and_forward alive s rq (message_of fallback rq [] 0 now) w)
      split true e =
          claim-Outcome fallback now rq (find_upload_record rq.file_id w.uploads) w mine e refl
      split false e =
          store-Outcome (is_media rq) rq (message_of fallback rq [] 0 now) w
            (typed_lem rq.type, refl) (mine, mine, refl) (inl e)

  on_chat_lem :
      (fallback : Bytes) (now : ℕ) (packet : ChatInfoRq) (w : World) (friends : Bool) (d : Conn)
      → is_pos user ≡ true
      → is_friend user packet.fri_id w.conn ≡ (friends, d)
      → let rq : ChatInfoRq = record packet { my_id = user } in
        on_chat alive s user fallback now (some packet) w ≡ (
          if friends
          then accept_chat alive s user fallback now rq (record w { conn = d })
          else deliver s (failure rq chat_not_friend) (record w { conn = d }))
  unfolding on_chat
  on_chat_lem fallback now packet w friends d h e = rw (h, e) (answer friends)
    where
      rq : ChatInfoRq
      rq = record packet { my_id = user }

      answer :
          (b : Bool)
          → (if not b
              then deliver s (failure rq chat_not_friend) (record w { conn = d })
              else accept_chat alive s user fallback now rq (record w { conn = d }))
            ≡ (if b
                then accept_chat alive s user fallback now rq (record w { conn = d })
                else deliver s (failure rq chat_not_friend) (record w { conn = d }))
      answer true = refl
      answer false = refl

  -- Every branch of onChat for a request that parses and a session that is logged in, with `d` the
  -- connection behind the look-up of the friendship. A receiver who is not a friend gets nothing,
  -- and the sender one answer. For a friend: an image or a file that this user did not upload for
  -- this friend is refused; a message that is not saved is answered with an error and forwarded to
  -- nobody; and one that is saved has the session's user as its sender, whatever the request says.
  pub on_chat-Outcome :
      (fallback : Bytes) (now : ℕ) (packet : ChatInfoRq) (w : World) (friends : Bool) (d : Conn)
      → is_pos user ≡ true
      → is_friend user packet.fri_id w.conn ≡ (friends, d)
      → let after = on_chat alive s user fallback now (some packet) w in
        if friends
        then Outcome packet.fri_id (is_media packet) packet.file_id (record w { conn = d }) after
        else after
          ≡ deliver s
              (failure (record packet { my_id = user }) chat_not_friend)
              (record w { conn = d })
  on_chat-Outcome fallback now packet w true d h e =
      subst (Outcome packet.fri_id (is_media packet) packet.file_id (record w { conn = d }))
        (sym (on_chat_lem fallback now packet w true d h e))
        (accept-Outcome fallback now (record packet { my_id = user }) (record w { conn = d }) refl)
  on_chat-Outcome fallback now packet w false d h e = on_chat_lem fallback now packet w false d h e
