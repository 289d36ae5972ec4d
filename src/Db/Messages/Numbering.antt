-- ===== src/Db/Messages/Numbering.antt =====
-- About saveMessage of Database.cpp: its outcomes and the numbers that it gives.
use improject.Base.{
  ℕ, suc, List, [], ◌∷◌, Bool, true, false, ◌&&◌, ◌≡◌, refl, ◌⊎◌, inl, inr, Option, none, some,
  arith, leb, if◌then◌else◌, Bool-cases, Option-cases, any_of, count_if, find_if,
}
use improject.Db.Tables.{Tables, StoredMessage, MessageRow, make_conversation_id}
use improject.Db.Sql.{Conn, next_call, commit}
use improject.Db.Messages.{
  has_msg_id, has_seq, max_seq, message_row, insert_message, write_message, save_new, save_message,
}

-- Each row's number is one more than the largest before it in its conversation.
abbrev pub Numbered : List MessageRow → Type 0
Numbered [] = Unit {0}
Numbered (row ∷ rows) = (row.seq ≡ suc (max_seq row.conversation_id rows)) × Numbered rows

-- How often a number of a conversation is used.
pub count-has_seq :
    (conv k : ℕ) (rows : List MessageRow)
    → Numbered rows
    → count_if (has_seq conv k) rows ≡ (if leb 1 k && leb k (max_seq conv rows) then 1 else 0)
unfolding max_seq
count-has_seq conv k [] h = ground arith
count-has_seq conv k (row ∷ rows) h = ground (arith, count-has_seq conv k rows h.1)

any_of-count_if :
    {A : Type 0} (p : A → Bool) (xs : List A) → any_of p xs ≡ false → count_if p xs ≡ 0
any_of-count_if p [] h = refl
any_of-count_if p (x ∷ xs) h = ground (arith, any_of-count_if p xs)

-- So the number 1 is free in an empty conversation only.
max_seq_of_free :
    (conv : ℕ) (rows : List MessageRow)
    → Numbered rows
    → any_of (has_seq conv 1) rows ≡ false
    → max_seq conv rows ≡ 0
max_seq_of_free conv rows h free =
    ground (arith, count-has_seq conv 1 rows h, any_of-count_if (has_seq conv 1) rows free)

-- What the INSERT and the COMMIT do inside a transaction that began at `t`.
pub write_message_lem :
    (conv : ℕ) (m : StoredMessage) (delivered : Bool) (c : Conn) (t : Tables)
    → c.saved ≡ some t
    → let r = write_message conv m delivered c in
      (r.1.saved ≡ none)
      × (r.0.1 ≡ m)
      × (((r.0.0 ≡ false) × (r.1.tables ≡ t))
          ⊎ ((r.0.0 ≡ true) × (insert_message conv delivered m c.tables ≡ some r.1.tables)))
unfolding write_message
write_message_lem conv m delivered c t h = ground arith

insert_message_free :
    (conv : ℕ) (delivered : Bool) (m : StoredMessage) (t u : Tables)
    → insert_message conv delivered m t ≡ some u
    → any_of (has_seq conv m.seq) t.messages ≡ false
unfolding insert_message
insert_message_free conv delivered m t u h = ground arith

-- How the part of saveMessage behind the idempotence check ends.
abbrev NewSaved : ℕ → StoredMessage → Bool → Conn → Tables → (Bool × StoredMessage) × Conn → Type 0
NewSaved conv m delivered c t r =
    (r.1.saved ≡ none)
    × (((r.0.0 ≡ false) × (r.1.tables ≡ t))
        ⊎ ((seq : ℕ) × (seq ≡ suc (max_seq conv c.tables.messages))
            × (r.0 ≡ (true, record m { seq = seq }))
            × (insert_message conv delivered (record m { seq = seq }) c.tables ≡ some r.1.tables)))

write_message-NewSaved :
    (conv : ℕ) (m : StoredMessage) (delivered : Bool) (c d : Conn) (t : Tables) (seq : ℕ)
    → d.saved ≡ some t
    → d.tables ≡ c.tables
    → Numbered c.tables.messages
    → (seq ≡ suc (max_seq conv c.tables.messages)) ⊎ (seq ≡ 1)
    → NewSaved conv m delivered c t (write_message conv (record m { seq = seq }) delivered d)
write_message-NewSaved conv m delivered c d t seq h e num which =
    let (closed, same, out) = write_message_lem conv (record m { seq = seq }) delivered d t h in
    (closed, go same out)
  where
    r : (Bool × StoredMessage) × Conn
    r = write_message conv (record m { seq = seq }) delivered d

    go :
        r.0.1 ≡ record m { seq = seq }
        → ((r.0.0 ≡ false) × (r.1.tables ≡ t))
          ⊎ ((r.0.0 ≡ true)
              × (insert_message conv delivered (record m { seq = seq }) d.tables ≡ some r.1.tables))
        → ((r.0.0 ≡ false) × (r.1.tables ≡ t))
          ⊎ ((k : ℕ) × (k ≡ suc (max_seq conv c.tables.messages))
              × (r.0 ≡ (true, record m { seq = k }))
              × (insert_message conv delivered (record m { seq = k }) c.tables ≡ some r.1.tables))
    go same (inl back) = inl back
    go same (inr (result, written)) = inr (
      seq,
      ground (
        arith,
        max_seq_of_free conv c.tables.messages num,
        insert_message_free conv delivered (record m { seq = seq }) d.tables _ written,
      ),
      ground arith,
      rw (← e) written,
    )

save_new-NewSaved :
    (conv : ℕ) (m : StoredMessage) (delivered : Bool) (c : Conn) (t : Tables)
    → c.saved ≡ some t
    → Numbered c.tables.messages
    → NewSaved conv m delivered c t (save_new conv m delivered c)
unfolding save_new
save_new-NewSaved conv m delivered c t h num = elim (Bool-cases (c.works c.calls)) [
  | inl p ↦ elim (Bool-cases (c.works (suc c.calls))) [
    | inl q ↦
        rw (p, q, save_new)
          (write_message-NewSaved conv m delivered c (next_call (next_call c)) t _ h refl num
            (inl refl))
    | inr q ↦
        rw (p, q, save_new)
          (write_message-NewSaved conv m delivered c (next_call (next_call c)) t _ h refl num
            (inr refl))
  ]
  | inr p ↦ (ground arith, inl (ground arith))
]

-- How saveMessage ends, on a connection with no open transaction.
pub data Saved (m : StoredMessage) (delivered : Bool) (c : Conn) (r : (Bool × StoredMessage) × Conn)
    : Type 0 where
  refused : r.0.0 ≡ false → r.1.tables ≡ c.tables → r.1.saved ≡ none → Saved m delivered c r
  repeated :
      (row : MessageRow)
      → find_if (has_msg_id m.msg_id) c.tables.messages ≡ some row
      → r.0 ≡ (true, record m { seq = row.seq })
      → r.1.tables ≡ c.tables
      → Saved m delivered c r
  numbered :
      (seq : ℕ)
      → seq ≡ suc (max_seq (make_conversation_id m.sender_id m.receiver_id) c.tables.messages)
      → r.0 ≡ (true, record m { seq = seq })
      → insert_message
          (make_conversation_id m.sender_id m.receiver_id)
          delivered
          (record m { seq = seq })
          c.tables
        ≡ some r.1.tables
      → r.1.saved ≡ none
      → Saved m delivered c r

Saved-of_NewSaved :
    (m : StoredMessage) (delivered : Bool) (c : Conn) (r : (Bool × StoredMessage) × Conn)
    → NewSaved (make_conversation_id m.sender_id m.receiver_id) m delivered c c.tables r
    → Saved m delivered c r
Saved-of_NewSaved m delivered c r (closed, inl (no_result, back)) = refused no_result back closed
Saved-of_NewSaved m delivered c r (closed, inr (seq, next, result, written)) =
    numbered seq next result written closed

-- The connection behind BEGIN, the prepared SELECT and its step.
abbrev looked_up : Conn → Conn
looked_up c = record c { saved = some c.tables; calls = suc (suc (suc c.calls)) }

-- What the idempotence check finds.
abbrev look_up : StoredMessage → Conn → Option MessageRow
look_up m c =
    if c.works (suc (suc c.calls)) then find_if (has_msg_id m.msg_id) c.tables.messages else none

save_message_new :
    (m : StoredMessage) (delivered : Bool) (c : Conn)
    → c.saved ≡ none
    → c.works c.calls ≡ true
    → c.works (suc c.calls) ≡ true
    → look_up m c ≡ none
    → save_message m delivered c
      ≡ save_new (make_conversation_id m.sender_id m.receiver_id) m delivered (looked_up c)
unfolding save_message
save_message_new m delivered c h p q e = ground arith

save_message_repeated :
    (m : StoredMessage) (delivered : Bool) (c : Conn) (row : MessageRow)
    → c.saved ≡ none
    → c.works c.calls ≡ true
    → c.works (suc c.calls) ≡ true
    → look_up m c ≡ some row
    → save_message m delivered c ≡ ((true, record m { seq = row.seq }), (commit (looked_up c)).1)
unfolding save_message
save_message_repeated m delivered c row h p q e = ground arith

-- BEGIN or the SELECT fails.
save_message_refused :
    (m : StoredMessage) (delivered : Bool) (c : Conn)
    → c.saved ≡ none
    → (c.works c.calls && c.works (suc c.calls)) ≡ false
    → Saved m delivered c (save_message m delivered c)
unfolding save_message
save_message_refused m delivered c h p = refused (ground arith) (ground arith) (ground arith)

-- On a connection with no open transaction, and with the messages numbered without gaps, saveMessage
-- ends in one of three ways, wherever the engine fails: it returns false and changes nothing; it
-- finds the msg_id, returns true with the number stored under it and changes nothing; or it inserts
-- the message under the next number of its conversation and returns true with that number.
pub save_message-Saved :
    (m : StoredMessage) (delivered : Bool) (c : Conn)
    → c.saved ≡ none
    → Numbered c.tables.messages
    → Saved m delivered c (save_message m delivered c)
save_message-Saved m delivered c h num = elim (Bool-cases (c.works c.calls)) [
  | inl p ↦ elim (Bool-cases (c.works (suc c.calls))) [
    | inl q ↦ elim (Option-cases (look_up m c)) [
      | inl e ↦ rw (save_message_new m delivered c h p q e) (
          Saved-of_NewSaved m delivered c _
            (save_new-NewSaved _ m delivered (looked_up c) _ refl num))
      | inr (row, e) ↦
          rw (save_message_repeated m delivered c row h p q e)
            (repeated row (ground arith) refl (ground arith))
    ]
    | inr q ↦ save_message_refused m delivered c h (ground arith)
  ]
  | inr p ↦ save_message_refused m delivered c h (ground arith)
]

insert_message_eq :
    (conv : ℕ) (delivered : Bool) (m : StoredMessage) (t u : Tables)
    → insert_message conv delivered m t ≡ some u
    → u.messages ≡ message_row t.next_message conv delivered m ∷ t.messages
unfolding insert_message
insert_message_eq conv delivered m t u h = ground arith

Saved-Numbered :
    (m : StoredMessage) (delivered : Bool) (c : Conn) (r : (Bool × StoredMessage) × Conn)
    → Numbered c.tables.messages
    → Saved m delivered c r
    → Numbered r.1.tables.messages
Saved-Numbered m delivered c r num (refused _ kept _) = rw kept num
Saved-Numbered m delivered c r num (repeated _ _ _ kept) = rw kept num
Saved-Numbered m delivered c r num (numbered seq next _ written _) =
    rw (insert_message_eq _ delivered (record m { seq = seq }) c.tables r.1.tables written)
      (next, num)

-- While a transaction is open, saveMessage writes nothing, returns false and leaves it open: BEGIN
-- fails. So a COMMIT that fails on the branch for a known msg_id, whose result is not read, stops
-- every later saveMessage.
pub save_message_stuck :
    (m : StoredMessage) (delivered : Bool) (c : Conn) (t : Tables)
    → c.saved ≡ some t
    → save_message m delivered c ≡ ((false, m), next_call c)
unfolding save_message
save_message_stuck m delivered c t h = ground arith

-- The calls of saveMessage that the writing thread makes, one behind the other.
pub save_all : List (StoredMessage × Bool) → Conn → Conn
save_all [] c = c
save_all ((m, delivered) ∷ rest) c = save_all rest (save_message m delivered c).1

pub save_all-Numbered :
    (calls : List (StoredMessage × Bool)) (c : Conn)
    → Numbered c.tables.messages
    → Numbered (save_all calls c).tables.messages
unfolding save_all
save_all-Numbered [] c num = num
save_all-Numbered ((m, delivered) ∷ rest) c num =
    save_all-Numbered rest (save_message m delivered c).1 (elim (Option-cases c.saved) [
      | inl closed ↦
          Saved-Numbered m delivered c _ num (save_message-Saved m delivered c closed num)
      | inr (t, opened) ↦ rw (save_message_stuck m delivered c t opened) num
    ])

-- From a table with no message, whatever is saved and wherever the engine fails, the numbers of a
-- conversation are those from 1 to its largest, each used once.
pub count-save_all :
    (calls : List (StoredMessage × Bool)) (c : Conn) (conv k : ℕ)
    → c.tables.messages ≡ []
    → let rows = (save_all calls c).tables.messages in
      count_if (has_seq conv k) rows ≡ (if leb 1 k && leb k (max_seq conv rows) then 1 else 0)
count-save_all calls c conv k none_yet =
    count-has_seq conv k _ (save_all-Numbered calls c (rw none_yet tt))
