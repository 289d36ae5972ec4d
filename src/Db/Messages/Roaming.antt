-- ===== src/Db/Messages/Roaming.antt =====
-- About roamMessages of Database.cpp: the numbers on a page.
use improject.Base.{
  ℕ, ℤ, zero, suc, ◌-◌, ◌≤◌, List, [], ◌∷◌, map, true, ◌≡◌, refl, sym, ap, ◌∙◌, none, arith, min,
  take, take-map, keep_if, insert_by, sort_by,
}
use improject.Db.Tables.{StoredMessage, MessageRow, make_conversation_id}
use improject.Db.Sql.{Conn}
use improject.Db.Messages.{max_seq, is_earlier, later_seq, page, stored, roam_messages}
use improject.Db.Messages.Numbering.{Numbered}

-- n, n - 1, ..., 1.
pub count_down : ℕ → List ℕ
count_down zero = []
count_down (suc n) = suc n ∷ count_down n

abbrev pub seqs : List MessageRow → List ℕ
seqs = map (λ row. row.seq)

abbrev pub message_seqs : List StoredMessage → List ℕ
message_seqs = map (λ m. m.seq)

-- A row that is newer than all the others stays in front.
insert_newest :
    (row : MessageRow) (rows : List MessageRow) (n : ℕ)
    → seqs rows ≡ count_down n
    → n ≤ row.seq
    → insert_by later_seq row rows ≡ row ∷ rows
unfolding insert_by count_down
insert_newest row [] n e h = refl
insert_newest row (r ∷ rows) zero e h = cc
insert_newest row (r ∷ rows) (suc n) e h = ground arith

seqs-sort_by :
    (conv before : ℕ) (rows : List MessageRow)
    → Numbered rows
    → seqs (sort_by later_seq (keep_if (is_earlier conv before) rows))
      ≡ count_down (min (before - 1) (max_seq conv rows))
unfolding sort_by max_seq count_down
seqs-sort_by conv before [] num = ground arith
seqs-sort_by conv before (row ∷ rows) num = ground (
  arith,
  seqs-sort_by conv before rows num.1,
  insert_newest row (sort_by later_seq (keep_if (is_earlier conv before) rows)) (max_seq conv rows),
)

seqs-stored : (rows : List MessageRow) → message_seqs (stored rows) ≡ seqs rows
seqs-stored [] = refl
seqs-stored (row ∷ rows) = ap (◌∷◌ row.seq) (seqs-stored rows)

-- On a connection with no open transaction whose SELECT is prepared, and with the messages of each
-- conversation numbered without gaps, a page holds the numbers below `before` in falling order,
-- none left out, down to the limit or to the first message.
pub message_seqs-roam_messages :
    (user peer : ℤ) (before limit : ℕ) (c : Conn)
    → c.saved ≡ none
    → c.works c.calls ≡ true
    → Numbered c.tables.messages
    → message_seqs (roam_messages user peer before limit c).0
      ≡ take limit (
          count_down
            (min (before - 1) (max_seq (make_conversation_id user peer) c.tables.messages)))
unfolding roam_messages page
message_seqs-roam_messages user peer before limit c closed p num =
    let conv = make_conversation_id user peer in
    let found = keep_if (is_earlier conv before) c.tables.messages in
    rw (closed, p)
      (seqs-stored (take limit (sort_by later_seq found))
        ∙ sym (take-map _ limit (sort_by later_seq found))
        ∙ ap (take limit) (seqs-sort_by conv before c.tables.messages num))
