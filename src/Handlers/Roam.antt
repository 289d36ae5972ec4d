-- ===== src/Handlers/Roam.antt =====
-- im_server/src/handlers/RoamHandler.cpp.
use improject.Base.{
  ℕ, ℤ, pos, ◌-◌, ◌^◌, List, [], ◌∷◌, map, not, Option, none, some, ◌==◌, ltb, if◌then◌else◌,
  is_pos, length,
}
use improject.Db.Tables.{StoredMessage}
use improject.Db.Messages.{roam_messages, roam_conversations}
use improject.Packets.{RoamMsgRq, roam_conv_rs, roam_msg_rs}
use improject.World.{Act, ◌>>=◌, done, sql, gets, send, user_of}
use improject.Handlers.{fill_chat_info}

abbrev pub int64_max : ℕ
int64_max = 2 ^ 63 - 1

-- `value > 0 ? value : otherwise`
abbrev pub positive_or : ℕ → ℤ → ℕ
positive_or otherwise (pos n) = if n == 0 then otherwise else n
positive_or otherwise _ = otherwise

abbrev pub page_limit : ℤ → ℕ
page_limit limit = let n = positive_or 20 limit in if ltb 100 n then 100 else n

-- rows.empty() ? 0 : rows.back().seq
abbrev pub back_seq : List StoredMessage → ℕ
back_seq [] = 0
back_seq (m ∷ ms) = let rest = back_seq ms in elim ms [ [] ↦ m.seq | x ∷ xs ↦ rest ]

unfoldable pub on_conversations : ℕ → Act (Unit {0})
on_conversations s = do
  user ← gets (user_of s)
  if not (is_pos user)
      then done
      else do rows ← sql (roam_conversations user); send s (roam_conv_rs (map fill_chat_info rows))

unfoldable pub on_messages : ℕ → Option RoamMsgRq → Act (Unit {0})
on_messages s request = do
  user ← gets (user_of s)
  if not (is_pos user) then done else elim request [
    | none ↦ done
    | some rq ↦ do
      rows ← sql (
          roam_messages user rq.peer_id (positive_or int64_max rq.before_seq) (page_limit rq.limit))
      send s (
          roam_msg_rs (record {
            peer_id = rq.peer_id;
            msgs = map fill_chat_info rows;
            has_more = length rows == page_limit rq.limit;
            min_seq = back_seq rows;
          }))
  ]
