-- ===== src/Ai.antt =====
-- im_server/src/ai/AiRequestLimiter.cpp and AiContextBuilder.cpp. Times are the ticks of the
-- steady clock, in nanoseconds.
pub mod Rate
pub mod Context
pub mod Duplicates
pub mod Config
use improject.Base.{
  ℕ, ℤ, pos, negsuc, ◌+◌, ◌-◌, ◌*◌, ◌^◌, List, [], ◌∷◌, ◌++◌, reverse, Bool, true, false, not, ◌&&◌,
  ◌||◌, Bytes, ◌==◌, ltb, leb, min, max, if◌then◌else◌, length, is_empty, int_eq, bytes_eq, any_of,
  keep_if,
}
use improject.Db.Tables.{StoredMessage}
use improject.Wire.{utf8_truncate}

-- std::max(value, 1)
unfoldable pub at_least_one : ℤ → ℕ
at_least_one (pos n) = max n 1
at_least_one (negsuc n) = 1

abbrev pub second : ℕ
second = 10 ^ 9

abbrev pub minute : ℕ
minute = 60 * second

-- `recent` holds the times of recentRequests_, the oldest first; `seen` the ids of seenIds_.
pub record Limiter : Type 0 where
  pub per_minute : ℕ
  pub max_pending : ℕ
  pub replay_window : ℕ
  pub in_flight : List ℤ
  pub recent : ℤ → List ℕ
  pub seen : ℤ → List (Bytes × ℕ)

unfoldable pub limiter : ℤ → ℤ → ℤ → Limiter
limiter per_minute max_pending window = record {
  per_minute = at_least_one per_minute;
  max_pending = at_least_one max_pending;
  replay_window = at_least_one window * second;
  in_flight = [];
  recent = λ user. [];
  seen = λ user. [];
}

pub data Result : Type 0 where
  accepted busy rate_limited duplicate queue_full : Result

abbrev pub put : {A : Type 0} → ℤ → A → (ℤ → A) → ℤ → A
put user a f other = if int_eq user other then a else f other

-- while (!recent.empty() && recent.front() < rateCutoff) recent.pop_front()
unfoldable pub drop_old : ℕ → List ℕ → List ℕ
drop_old now [] = []
drop_old now (t ∷ ts) = let rest = drop_old now ts in if ltb (t + minute) now then rest else t ∷ ts

-- The ids that are not older than the replay window.
abbrev pub fresh : ℕ → ℕ → List (Bytes × ℕ) → List (Bytes × ℕ)
fresh window now ids = keep_if (λ p. not (ltb (p.1 + window) now)) ids

unfoldable pub try_acquire : ℤ → Bytes → ℕ → Limiter → Result × Limiter
unfolding drop_old
try_acquire user request_id now l =
    let ids = fresh l.replay_window now (l.seen user) in
    let l' : Limiter = record l { seen = put user ids l.seen } in
    if any_of (λ p. bytes_eq p.0 request_id) ids
    then (duplicate, l')
    else if any_of (int_eq user) l.in_flight
    then (busy, l')
    else if leb l.max_pending (length l.in_flight)
    then (queue_full, l')
    else let times = drop_old now (l.recent user) in
      if leb l.per_minute (length times)
      then (rate_limited, record l' { recent = put user times l.recent })
      else (
        accepted,
        record l {
          recent = put user (times ++ now ∷ []) l.recent;
          seen = put user ((request_id, now) ∷ ids) l.seen;
          in_flight = user ∷ l.in_flight;
        },
      )

unfoldable pub release : ℤ → Limiter → Limiter
release user l = record l { in_flight = keep_if (λ other. not (int_eq user other)) l.in_flight }

pub data Role : Type 0 where
  me peer : Role

abbrev pub Turn : Type 0
Turn = Role × Bytes

pub record Policy : Type 0 where
  pub max_messages : ℤ
  pub max_message_bytes : ℤ
  pub max_context_bytes : ℤ

pub record ReplyRequest : Type 0 where
  pub request_id : Bytes
  pub tone : Bytes
  pub max_suggestions : ℕ
  pub turns : List Turn

-- std::clamp(maxSuggestions, 1, 3)
abbrev pub clamp : ℤ → ℕ
clamp n = min (at_least_one n) 3

-- `redact` is redactSensitiveText: what std::regex_replace makes of the text.
module _ (redact : Bytes → Bytes) where
  -- A message that the loop does not skip at once: a text between the two users that is not empty.
  unfoldable pub is_wanted : ℤ → ℤ → StoredMessage → Bool
  is_wanted user peer_id row =
      row.type == 0
      && not (is_empty row.content)
      && (int_eq row.sender_id user && int_eq row.receiver_id peer_id
          || int_eq row.sender_id peer_id && int_eq row.receiver_id user)

  abbrev pub role_of : ℤ → StoredMessage → Role
  role_of user row = if int_eq row.sender_id user then me else peer

  -- The loop over the rows, with what it has collected, the newest first, and the bytes used.
  unfoldable pub collect : ℕ → ℕ → ℕ → ℤ → ℤ → List StoredMessage → ℕ → ℕ → List Turn
  unfolding is_wanted
  collect count message_limit total user peer_id [] size used = []
  collect count message_limit total user peer_id (row ∷ rows) size used =
      let text = utf8_truncate (redact row.content) message_limit in
      let text' = utf8_truncate text (total - min used total) in
      let skip = collect count message_limit total user peer_id rows size used in
      let rest =
        collect count message_limit total user peer_id rows (size + 1) (used + length text') in
      if leb count size
      then []
      else if not (is_wanted user peer_id row)
      then skip
      else if is_empty text
      then skip
      else if total - min used total == 0
      then []
      else if is_empty text'
      then []
      else (role_of user row, text') ∷ rest

  unfoldable pub build_reply_context :
      List StoredMessage → ℤ → ℤ → Bytes → Bytes → ℤ → Policy → ReplyRequest
  unfolding collect
  build_reply_context rows user peer_id request_id tone max_suggestions policy = record {
    request_id = request_id;
    tone = tone;
    max_suggestions = clamp max_suggestions;
    turns = reverse (
        collect (at_least_one policy.max_messages) (at_least_one policy.max_message_bytes)
          (at_least_one policy.max_context_bytes) user peer_id rows 0 0);
  }
