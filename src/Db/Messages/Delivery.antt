-- ===== src/Db/Messages/Delivery.antt =====
-- About pullUndelivered and markDelivered of Database.cpp together.
use improject.Base.{
  ℕ, ℤ, suc, List, [], ◌∷◌, map, Bool, true, false, not, ◌&&◌, ◌≡◌, refl, ap, ◌∙◌, none, Bytes,
  arith, bytes_eq, bytes_eq_refl, any_of, keep_if, update_if, sort_by, any_of-sort_by,
  any_of-keep_if, any_of-map,
}
use improject.Db.Tables.{Tables, StoredMessage, MessageRow}
use improject.Db.Sql.{Conn}
use improject.Db.Messages.{
  has_msg_id, is_undelivered, sent_before, undelivered_rows, stored, pull_undelivered,
  deliver_message, deliver_each, mark_delivered,
}

-- The ids that activateSession collects from the messages it sends.
abbrev pub msg_ids : List StoredMessage → List Bytes
msg_ids = map (λ m. m.msg_id)

abbrev pub deliver_row : MessageRow → MessageRow
deliver_row row = record row { is_delivered = true }

abbrev deliver_rows : List Bytes → List MessageRow → List MessageRow
deliver_rows [] rows = rows
deliver_rows (id ∷ ids) rows = deliver_rows ids (update_if (has_msg_id id) deliver_row rows)

module _ (receiver : ℤ) where
  -- Undelivered, and its id is not among those that are marked.
  abbrev left : List Bytes → MessageRow → Bool
  left ids row = is_undelivered receiver row && not (any_of (bytes_eq row.msg_id) ids)

  left_nil :
      (rows : List MessageRow) → any_of (is_undelivered receiver) rows ≡ any_of (left []) rows
  left_nil [] = refl
  left_nil (row ∷ rows) = ground (arith, left_nil rows)

  left_cons :
      (id : Bytes) (ids : List Bytes) (rows : List MessageRow)
      → any_of (left ids) (update_if (has_msg_id id) deliver_row rows)
        ≡ any_of (left (id ∷ ids)) rows
  left_cons id ids [] = refl
  left_cons id ids (row ∷ rows) = ground (arith, left_cons id ids rows)

  any_of-deliver_rows :
      (ids : List Bytes) (rows : List MessageRow)
      → any_of (is_undelivered receiver) (deliver_rows ids rows) ≡ any_of (left ids) rows
  any_of-deliver_rows [] rows = left_nil rows
  any_of-deliver_rows (id ∷ ids) rows =
      any_of-deliver_rows ids (update_if (has_msg_id id) deliver_row rows) ∙ left_cons id ids rows

  -- Every undelivered row of `rows`, which are among `all`, is collected from `all`.
  all_collected :
      (all : List MessageRow) (ids : List Bytes)
      → ((id : Bytes)
          → any_of (bytes_eq id) ids
            ≡ any_of (λ r. is_undelivered receiver r && bytes_eq id r.msg_id) all)
      → (rows : List MessageRow)
      → ((q : MessageRow → Bool) → any_of q rows ≡ true → any_of q all ≡ true)
      → any_of (left ids) rows ≡ false
  all_collected all ids collected [] sub = refl
  all_collected all ids collected (row ∷ rows) sub = ground (
    arith,
    all_collected all ids collected rows (λ q h. sub q (ground arith)),
    collected row.msg_id,
    bytes_eq_refl row.msg_id,
    sub (λ r. is_undelivered receiver r && bytes_eq row.msg_id r.msg_id),
  )

  collected_ids :
      (t : Tables) (id : Bytes)
      → any_of (bytes_eq id) (msg_ids (stored (undelivered_rows receiver t)))
        ≡ any_of (λ r. is_undelivered receiver r && bytes_eq id r.msg_id) t.messages
  unfolding undelivered_rows
  collected_ids t id =
      any_of-map _ (bytes_eq id) (stored (undelivered_rows receiver t))
      ∙ any_of-map _ _ (undelivered_rows receiver t)
      ∙ any_of-sort_by sent_before _ (keep_if (is_undelivered receiver) t.messages)
      ∙ any_of-keep_if (is_undelivered receiver) _ t.messages

  marked_rows :
      (t : Tables)
      → any_of
          (is_undelivered receiver)
          (deliver_rows (msg_ids (stored (undelivered_rows receiver t))) t.messages)
        ≡ false
  marked_rows t =
      any_of-deliver_rows _ t.messages
      ∙ all_collected t.messages _ (collected_ids t) t.messages (λ q h. h)

keep_if_none : {A : Type 0} (p : A → Bool) (xs : List A) → any_of p xs ≡ false → keep_if p xs ≡ []
keep_if_none p [] h = refl
keep_if_none p (x ∷ xs) h = ground (arith, keep_if_none p xs)

deliver_each_lem :
    (ids : List Bytes) (c : Conn)
    → ((n : ℕ) → c.works n ≡ true)
    → ((deliver_each ids c).1.tables.messages ≡ deliver_rows ids c.tables.messages)
      × ((deliver_each ids c).1.saved ≡ c.saved)
      × ((deliver_each ids c).1.works ≡ c.works)
unfolding deliver_each deliver_message
deliver_each_lem [] c h = (refl, refl, refl)
deliver_each_lem (id ∷ ids) c h =
    let d : Conn = record c {
      calls = suc c.calls;
      tables = record c.tables {
        messages = update_if (has_msg_id id) deliver_row c.tables.messages;
      };
    } in
    ground (arith, h c.calls, deliver_each_lem ids d h)

mark_delivered_lem :
    (ids : List Bytes) (c : Conn)
    → ((n : ℕ) → c.works n ≡ true)
    → ((mark_delivered ids c).1.tables.messages ≡ deliver_rows ids c.tables.messages)
      × ((mark_delivered ids c).1.saved ≡ c.saved)
      × ((mark_delivered ids c).1.works ≡ c.works)
unfolding mark_delivered
mark_delivered_lem [] c h = (refl, refl, refl)
mark_delivered_lem (id ∷ ids) c h =
    ground (arith, h c.calls, deliver_each_lem (id ∷ ids) (record c { calls = suc c.calls }) h)

pull_undelivered_lem :
    (receiver : ℤ) (c : Conn)
    → c.saved ≡ none
    → c.works c.calls ≡ true
    → pull_undelivered receiver c
      ≡ (stored (undelivered_rows receiver c.tables), record c { calls = suc c.calls })
unfolding pull_undelivered
pull_undelivered_lem receiver c closed h = ground arith

undelivered_rows_none :
    (receiver : ℤ) (t : Tables)
    → any_of (is_undelivered receiver) t.messages ≡ false
    → undelivered_rows receiver t ≡ []
unfolding undelivered_rows sort_by
undelivered_rows_none receiver t h = rw (keep_if_none _ t.messages h)

pull_marked :
    (receiver : ℤ) (c d : Conn)
    → d.saved ≡ none
    → ((n : ℕ) → d.works n ≡ true)
    → d.tables.messages
      ≡ deliver_rows (msg_ids (stored (undelivered_rows receiver c.tables))) c.tables.messages
    → (pull_undelivered receiver d).0 ≡ []
pull_marked receiver c d closed h e =
    ap (λ r. r.0) (pull_undelivered_lem receiver d closed (h d.calls))
    ∙ ap stored (undelivered_rows_none receiver d.tables (rw e (marked_rows receiver c.tables)))

-- On a connection with no open transaction whose calls the engine carries out, when all that is
-- pulled for a receiver is marked by its ids, nothing is left to pull.
pub pull_undelivered-mark_delivered :
    (receiver : ℤ) (c : Conn)
    → c.saved ≡ none
    → ((n : ℕ) → c.works n ≡ true)
    → let (pulled, d) = pull_undelivered receiver c in
      (pull_undelivered receiver (mark_delivered (msg_ids pulled) d).1).0 ≡ []
pull_undelivered-mark_delivered receiver c closed h =
    let d : Conn = record c { calls = suc c.calls } in
    let marked = mark_delivered_lem (msg_ids (stored (undelivered_rows receiver c.tables))) d h in
    rw (pull_undelivered_lem receiver c closed (h c.calls))
      (pull_marked receiver c _ (marked.1 ∙ closed) (λ n. rw marked.2 (h n)) marked.0)
