-- ===== src/Examples/Stores.antt =====
-- Friends and messages on a database whose engine carries out every call.
use improject.Base.{
  ℕ, ℤ, pos, ◌-◌, List, [], ◌∷◌, Bool, true, false, ◌&&◌, ◌≡◌, refl, ◌⊎◌, none, Bytes, arith,
  if◌then◌else◌, leb, min, take, count_if,
}
use improject.Db.Tables.{Tables, StoredMessage, empty_tables, make_conversation_id}
use improject.Db.Sql.{Conn, AllOrNothing}
use improject.Db.Conversation.{make_conversation_id_injective}
use improject.Db.Friends.{resolve_friend_request}
use improject.Db.Friends.Atomic.{resolve_write, resolve_friend_request-AllOrNothing}
use improject.Db.Friends.Relation.{IsSound, adds, removes, perform_all, perform_all-IsSound}
use improject.Db.Messages.{
  has_seq, max_seq, save_message, message_row, roam_messages, pull_undelivered, mark_delivered,
}
use improject.Db.Messages.Numbering.{Saved, save_message-Saved, save_all, count-save_all}
use improject.Db.Messages.Roaming.{count_down, message_seqs, message_seqs-roam_messages}
use improject.Db.Messages.Delivery.{msg_ids, pull_undelivered-mark_delivered}

abbrev conn_with : Tables → Conn
conn_with t = record { tables = t; saved = none; works = λ n. true; calls = 0 }

abbrev message : Bytes → ℤ → ℤ → ℕ → StoredMessage
message id sender receiver seq = record {
  msg_id = id;
  sender_id = sender;
  receiver_id = receiver;
  type = 0;
  content = 104 ∷ 105 ∷ [];
  media_path = [];
  img_w = pos 0;
  img_h = pos 0;
  ts = 1700000000;
  seq = seq;
  file_id = [];
  file_size = 0;
  content_type = [];
  sha256 = [];
}

-- Users 1 and 2 are friends, and 3 has asked 1.
abbrev friends : Conn
friends = conn_with (record empty_tables {
  friends = (pos 1, pos 2) ∷ (pos 2, pos 1) ∷ [];
  friend_requests =
      record { requester_id = pos 3; target_id = pos 1; status = 0; created_at = 5; updated_at = 5 }
      ∷ [];
})

-- One message from 1 to 2, numbered 1; the conversation is 1 * 2 ^ 32 + 2.
abbrev one_message : Conn
one_message = conn_with (record empty_tables {
  messages = message_row 1 4294967298 false (message (7 ∷ []) (pos 1) (pos 2) 1) ∷ [];
  next_message = 2;
})

make_conversation_id_injective_example :
    (◌≡◌ {A = ℕ} 1 2 × ◌≡◌ {A = ℕ} 2 1) ⊎ (◌≡◌ {A = ℕ} 1 1 × ◌≡◌ {A = ℕ} 2 2)
unfolding make_conversation_id
make_conversation_id_injective_example =
    make_conversation_id_injective 1 2 2 1 (omega arith) (omega arith) (omega arith) (omega arith)
      (omega arith) (omega arith) (omega arith) (omega arith) refl

resolve_friend_request-AllOrNothing_example :
    AllOrNothing
      (resolve_write (pos 3) (pos 1) true 9)
      friends
      (resolve_friend_request (pos 3) (pos 1) true 9 friends)
resolve_friend_request-AllOrNothing_example =
    resolve_friend_request-AllOrNothing (pos 3) (pos 1) true 9 friends refl

perform_all-IsSound_example :
    IsSound
      (perform_all (adds (pos 1) (pos 2) ∷ removes (pos 2) (pos 1) ∷ []) (conn_with empty_tables))
perform_all-IsSound_example =
    perform_all-IsSound (adds (pos 1) (pos 2) ∷ removes (pos 2) (pos 1) ∷ [])
      (conn_with empty_tables) (record { symmetric = record { both = λ x y. refl }; closed = refl })

save_message-Saved_example :
    Saved
      (message (8 ∷ []) (pos 2) (pos 1) 0)
      true
      one_message
      (save_message (message (8 ∷ []) (pos 2) (pos 1) 0) true one_message)
unfolding max_seq
save_message-Saved_example =
    save_message-Saved (message (8 ∷ []) (pos 2) (pos 1) 0) true one_message refl (refl, tt)

abbrev calls : List (StoredMessage × Bool)
calls =
    (message (7 ∷ []) (pos 1) (pos 2) 0, true)
    ∷ (message (8 ∷ []) (pos 2) (pos 1) 0, false)
    ∷ (message (7 ∷ []) (pos 1) (pos 2) 0, true)
    ∷ []

count-save_all_example :
    let rows = (save_all calls (conn_with empty_tables)).tables.messages in
    count_if (has_seq 4294967298 2) rows
    ≡ (if leb 1 2 && leb 2 (max_seq 4294967298 rows) then 1 else 0)
count-save_all_example = count-save_all calls (conn_with empty_tables) 4294967298 2 refl

message_seqs-roam_messages_example :
    message_seqs (roam_messages (pos 2) (pos 1) 9 20 one_message).0
    ≡ take 20 (
        count_down (
          min (9 - 1) (max_seq (make_conversation_id (pos 2) (pos 1)) one_message.tables.messages)))
unfolding max_seq
message_seqs-roam_messages_example =
    message_seqs-roam_messages (pos 2) (pos 1) 9 20 one_message refl refl (refl, tt)

pull_undelivered-mark_delivered_example :
    let (pulled, d) = pull_undelivered (pos 2) one_message in
    (pull_undelivered (pos 2) (mark_delivered (msg_ids pulled) d).1).0 ≡ []
pull_undelivered-mark_delivered_example =
    pull_undelivered-mark_delivered (pos 2) one_message refl (λ n. refl)
