-- ===== src/Ai/Context.antt =====
-- About the limits of buildReplyContext in AiContextBuilder.cpp.
use improject.Base.{
  ℕ, ℤ, ◌+◌, ◌-◌, ◌≤◌, ◌<◌, List, [], ◌∷◌, reverse, Bytes, ◌≡◌, refl, arith, min, length, All,
  length-take,
}
use improject.Db.Tables.{StoredMessage}
use improject.Wire.{boundary, utf8_truncate}
use improject.Wire.Utf8.{boundary-le}
use improject.Ai.{Turn, Policy, at_least_one, collect, build_reply_context}

length-utf8_truncate : (s : Bytes) (n : ℕ) → length (utf8_truncate s n) ≤ n
unfolding utf8_truncate
length-utf8_truncate s n = ground (arith, length-take (boundary s n) s, boundary-le s n)

utf8_truncate-shorter : (s : Bytes) (n : ℕ) → length (utf8_truncate s n) ≤ length s
unfolding utf8_truncate
utf8_truncate-shorter s n = ground (arith, length-take (boundary s n) s)

-- The bytes of the texts.
abbrev pub total_bytes : List Turn → ℕ
total_bytes [] = 0
total_bytes (turn ∷ turns) = length turn.1 + total_bytes turns

-- A text that the limits allow: not empty, and at most `limit` bytes.
abbrev pub Fits : ℕ → Turn → Type 0
Fits limit turn = (0 < length turn.1) × (length turn.1 ≤ limit)

module _ (redact : Bytes → Bytes) where
  pub record Bounded (count limit room : ℕ) (turns : List Turn) : Type 0 where
    pub few : length turns ≤ count
    pub small : total_bytes turns ≤ room
    pub each : All (Fits limit) turns

  collect-Bounded :
      (count limit total : ℕ) (user peer_id : ℤ) (rows : List StoredMessage) (size used : ℕ)
      → Bounded
          (count - size)
          limit
          (total - used)
          (collect redact count limit total user peer_id rows size used)
  unfolding collect
  collect-Bounded count limit total user peer_id [] size used = ground arith
  collect-Bounded count limit total user peer_id (row ∷ rows) size used = ground (
    arith,
    collect-Bounded count limit total user peer_id rows size used,
    collect-Bounded count limit total user peer_id rows (size + 1) (
        used
        + length
            (utf8_truncate (utf8_truncate (redact row.content) limit) (total - min used total))),
    length-utf8_truncate (redact row.content) limit,
    length-utf8_truncate (utf8_truncate (redact row.content) limit) (total - min used total),
    utf8_truncate-shorter (utf8_truncate (redact row.content) limit) (total - min used total),
  )

  -- Whatever the rows: the turns are the reverse of a list of at most max_messages turns, with at
  -- most max_context_bytes bytes in all, none of them empty or longer than max_message_bytes, where
  -- a limit that is not positive counts as one; and one to three suggestions are asked for.
  pub build_reply_context-Bounded :
      (rows : List StoredMessage) (user peer_id : ℤ) (request_id tone : Bytes) (suggestions : ℤ)
      (policy : Policy)
      → let r = build_reply_context redact rows user peer_id request_id tone suggestions policy in
        ((newest : List Turn) × (r.turns ≡ reverse newest)
          × Bounded
              (at_least_one policy.max_messages)
              (at_least_one policy.max_message_bytes)
              (at_least_one policy.max_context_bytes)
              newest)
        × (1 ≤ r.max_suggestions)
        × (r.max_suggestions ≤ 3)
  unfolding build_reply_context at_least_one
  build_reply_context-Bounded rows user peer_id request_id tone suggestions policy =
      let found =
        collect-Bounded (at_least_one policy.max_messages) (at_least_one policy.max_message_bytes)
          (at_least_one policy.max_context_bytes) user peer_id rows 0 0 in
      (
        (
          _,
          refl,
          record {
            few = omega (arith, found.few);
            small = omega (arith, found.small);
            each = found.each;
          },
        ),
        positive suggestions,
        ground arith,
      )
    where
      positive : (n : ℤ) → 1 ≤ min (at_least_one n) 3
      positive n = ground arith
