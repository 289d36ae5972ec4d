-- ===== src/Db/Messages.antt =====
-- Database.cpp: messages, their numbering within a conversation, delivery and roaming.
pub mod Numbering
pub mod Roaming
pub mod Delivery
use improject.Base.{
  ℕ, ℤ, suc, List, [], ◌∷◌, map, Bool, true, false, not, ◌&&◌, ◌||◌, Option, none, some, Bytes,
  ◌==◌, ltb, max, if◌then◌else◌, int_eq, bytes_eq, any_of, find_if, keep_if, update_if, is_empty,
  take, sort_by, reverse,
}
use improject.Db.Tables.{Tables, StoredMessage, MessageRow, make_conversation_id}
use improject.Db.Sql.{
  Sql, pure, ◌>>=◌, ◌>>◌, prepare, begin, commit, rollback, step, step_row, read,
}

-- msg_id=?
abbrev pub has_msg_id : Bytes → MessageRow → Bool
has_msg_id id row = bytes_eq row.msg_id id

-- conversation_id=? AND seq=?
abbrev pub has_seq : ℕ → ℕ → MessageRow → Bool
has_seq conv seq row = row.conversation_id == conv && row.seq == seq

-- SELECT COALESCE(MAX(seq),0) FROM messages WHERE conversation_id=?
unfoldable pub max_seq : ℕ → List MessageRow → ℕ
max_seq conv [] = 0
max_seq conv (row ∷ rows) =
    let rest = max_seq conv rows in if row.conversation_id == conv then max row.seq rest else rest

abbrev pub message_row : ℕ → ℕ → Bool → StoredMessage → MessageRow
message_row id conv delivered m = record {
  id = id;
  conversation_id = conv;
  is_delivered = delivered;
  message = m;
}

-- INSERT INTO messages ..., under the unique msg_id and the unique index on (conversation_id, seq).
-- The newest row is the head of the list.
unfoldable pub insert_message : ℕ → Bool → StoredMessage → Tables → Option Tables
insert_message conv delivered m t =
    if any_of (has_msg_id m.msg_id) t.messages || any_of (has_seq conv m.seq) t.messages
    then none
    else some (record t {
      messages = message_row t.next_message conv delivered m ∷ t.messages;
      next_message = suc t.next_message;
    })

-- `rollback(); return false;` of saveMessage, with the message as it stands.
abbrev give_up : StoredMessage → Sql (Bool × StoredMessage)
give_up m = do rollback; pure (false, m)

-- The INSERT of saveMessage, and the COMMIT.
pub write_message : ℕ → StoredMessage → Bool → Sql (Bool × StoredMessage)
write_message conv m delivered = do
  prepared ← prepare
  if not prepared then give_up m else do
    done ← step (insert_message conv delivered m)
    if not done
        then give_up m
        else do committed ← commit; if not committed then give_up m else pure (true, m)

abbrev or_one : Option ℕ → ℕ
or_one none = 1
or_one (some n) = n

-- The part of saveMessage behind the idempotence check.
pub save_new : ℕ → StoredMessage → Bool → Sql (Bool × StoredMessage)
save_new conv m delivered = do
  prepared ← prepare
  if not prepared then give_up m else do
    next ← step_row (λ t. some (suc (max_seq conv t.messages)))
    write_message conv (record m { seq = or_one next }) delivered

-- saveMessage returns its result and the message, whose `seq` it sets.
pub save_message : StoredMessage → Bool → Sql (Bool × StoredMessage)
save_message m delivered = do
  begun ← begin
  if not begun then pure (false, m) else do
    let conv = make_conversation_id m.sender_id m.receiver_id
    prepared ← prepare
    if not prepared then give_up m else do
      found ← step_row (λ t. find_if (has_msg_id m.msg_id) t.messages)
      elim found [
        | some row ↦ do commit; pure (true, record m { seq = row.seq })
        | none ↦ save_new conv m delivered
      ]

abbrev stored : List MessageRow → List StoredMessage
stored = map (λ row. row.message)

-- receiver_id=? AND is_delivered=0
abbrev pub is_undelivered : ℤ → MessageRow → Bool
is_undelivered receiver row = int_eq row.receiver_id receiver && not row.is_delivered

-- ORDER BY ts ASC, id ASC
abbrev pub sent_before : MessageRow → MessageRow → Bool
sent_before r s = ltb r.ts s.ts || (r.ts == s.ts && ltb r.id s.id)

unfoldable pub undelivered_rows : ℤ → Tables → List MessageRow
undelivered_rows receiver t = sort_by sent_before (keep_if (is_undelivered receiver) t.messages)

pub pull_undelivered : ℤ → Sql (List StoredMessage)
pull_undelivered receiver = read (λ t. stored (undelivered_rows receiver t)) []

-- UPDATE messages SET is_delivered=1 WHERE msg_id=?
unfoldable pub deliver_message : Bytes → Tables → Tables
deliver_message id t = record t {
  messages = update_if (has_msg_id id) (λ row. record row { is_delivered = true }) t.messages;
}

-- The loop over the ids; the result of a step is not read.
pub deliver_each : List Bytes → Sql (Unit {0})
deliver_each [] = pure tt
deliver_each (id ∷ ids) = do step (λ t. some (deliver_message id t)); deliver_each ids

pub mark_delivered : List Bytes → Sql (Unit {0})
mark_delivered ids =
    if is_empty ids
    then pure tt
    else do prepared ← prepare; if not prepared then pure tt else deliver_each ids

-- conversation_id=? AND seq < ?
abbrev pub is_earlier : ℕ → ℕ → MessageRow → Bool
is_earlier conv before row = row.conversation_id == conv && ltb row.seq before

-- ORDER BY seq DESC
abbrev pub later_seq : MessageRow → MessageRow → Bool
later_seq r s = ltb s.seq r.seq

unfoldable pub page : ℕ → ℕ → ℕ → List MessageRow → List MessageRow
page conv before limit rows = take limit (sort_by later_seq (keep_if (is_earlier conv before) rows))

pub roam_messages : ℤ → ℤ → ℕ → ℕ → Sql (List StoredMessage)
roam_messages user peer before limit =
    read (λ t. stored (page (make_conversation_id user peer) before limit t.messages)) []

-- sender_id=? OR receiver_id=?, the two halves of the UNION ALL.
abbrev pub takes_part : ℤ → MessageRow → Bool
takes_part user row = int_eq row.sender_id user || int_eq row.receiver_id user

-- m.id is MAX(id) of its conversation among the rows of the user.
abbrev pub is_last : ℤ → List MessageRow → MessageRow → Bool
is_last user rows row =
    takes_part user row
    && not (
        any_of
          (λ r. takes_part user r && r.conversation_id == row.conversation_id && ltb row.id r.id)
          rows)

-- ORDER BY m.ts DESC
abbrev pub later_ts : MessageRow → MessageRow → Bool
later_ts r s = ltb s.ts r.ts

pub roam_conversations : ℤ → Sql (List StoredMessage)
roam_conversations user =
    read (λ t. stored (sort_by later_ts (keep_if (is_last user t.messages) t.messages))) []

-- getMessageByMsgId and getMessageByFileId; `none` is the result false.
pub get_message_by_msg_id : Bytes → Sql (Option StoredMessage)
get_message_by_msg_id id =
    read
      (λ t. elim (find_if (has_msg_id id) t.messages) [ none ↦ none | some row ↦ some row.message ])
      none

-- SQL does not say which of several rows with one file_id comes first; the index of file ids gives
-- them in the order of their insertion, the oldest first.
unfoldable pub get_message_by_file_id : Bytes → Sql (Option StoredMessage)
get_message_by_file_id id =
    read
      (λ t. elim (find_if (λ row. bytes_eq row.file_id id) (reverse t.messages)) [
        | none ↦ none
        | some row ↦ some row.message
      ])
      none
