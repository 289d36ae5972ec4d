-- ===== src/Handlers/Assistant.antt =====
-- im_server/src/handlers/AiHandler.cpp: the requests for suggested replies. Its counters, which only
-- the log shows, and the error texts are left out.
pub mod Answers
use improject.Base.{
  ℕ, suc, ℤ, pos, negsuc, ◌-◌, ◌*◌, ◌%◌, ◌^◌, List, [], ◌∷◌, ◌++◌, Bool, true, false, not, ◌&&◌,
  ◌||◌, Option, none, some, Bytes, ◌==◌, ltb, leb, ltb_ℤ, min, if◌then◌else◌, is_pos, int_eq,
  is_empty, length, any_of, keep_if, bytes_eq,
}
use improject.Wire.{utf8_truncate}
use improject.Text.{to_string}
use improject.Db.Friends.{is_friend}
use improject.Db.Messages.{roam_messages}
use improject.Ai.{
  Result, accepted, busy, rate_limited, duplicate, queue_full, try_acquire, release, Policy,
  ReplyRequest, build_reply_context, limiter,
}
use improject.Ai.Config.{AiConfig, enabled}
use improject.Packets.{
  AiReplyStatus, ai_reply_ok, ai_reply_invalid_request, ai_reply_unauthorized, ai_reply_not_friend,
  ai_reply_rate_limited, ai_reply_busy, ai_reply_not_configured, ai_reply_upstream_error, AiReplyRq,
  ai_reply_rs,
}
use improject.World.{
  Env, Assistant, AiTask, Act, pure, ◌>>=◌, ◌>>◌, done, sql, gets, modify, send, user_of,
}
use improject.Handlers.Roam.{int64_max}

-- AiTypes.h
pub data AiError : Type 0 where
  no_error not_configured network timeout unauthorized too_many service invalid_response : AiError

-- What the log alone shows of an AiReplyResult is left out.
pub record AiReplyResult : Type 0 where
  pub error : AiError
  pub suggestions : List Bytes

unfoldable pub map_error : AiError → AiReplyStatus
map_error not_configured = ai_reply_not_configured
map_error too_many = ai_reply_rate_limited
map_error no_error = ai_reply_ok
map_error network = ai_reply_upstream_error
map_error timeout = ai_reply_upstream_error
map_error unauthorized = ai_reply_upstream_error
map_error service = ai_reply_upstream_error
map_error invalid_response = ai_reply_upstream_error

-- sendResult
unfoldable pub send_result : ℕ → Bytes → AiReplyStatus → List Bytes → Act (Unit {0})
send_result s id status suggestions =
    send s (ai_reply_rs (record { request_id = id; status = status; suggestions = suggestions }))

-- The decimal id of the user, a colon and the request id.
unfoldable pub request_key : ℤ → Bytes → Bytes
request_key user id = to_string user ++ 58 ∷ id

abbrev pub contains : Bytes → List Bytes → Bool
contains key keys = any_of (bytes_eq key) keys

-- insert of an unordered_set
abbrev pub insert_key : Bytes → List Bytes → List Bytes
insert_key key keys = if contains key keys then keys else key ∷ keys

abbrev pub erase_key : Bytes → List Bytes → List Bytes
erase_key key keys = keep_if (λ k. not (bytes_eq key k)) keys

abbrev pub on_assistant : (Assistant → Assistant) → Act (Unit {0})
on_assistant f = modify (λ w. record w { assistant = f w.assistant })

unfoldable pub mark_cancelled : ℤ → Bytes → Assistant → Assistant
unfolding request_key
mark_cancelled user id a =
    if contains (request_key user id) a.active
    then record a { cancelled = insert_key (request_key user id) a.cancelled }
    else a

unfoldable pub is_cancelled : ℤ → Bytes → Assistant → Bool
unfolding request_key
is_cancelled user id a = contains (request_key user id) a.cancelled

unfoldable pub finish_request : ℤ → Bytes → Assistant → Assistant
unfolding request_key
finish_request user id a = record a {
  active = erase_key (request_key user id) a.active;
  cancelled = erase_key (request_key user id) a.cancelled;
  limiter = release user a.limiter;
}

-- request_id().empty() || request_id().size() > 64
abbrev pub bad_request_id : Bytes → Bool
bad_request_id id = is_empty id || ltb 64 (length id)

unfoldable pub on_cancel : ℕ → Option Bytes → Act (Unit {0})
unfolding mark_cancelled
on_cancel s request = do
  user ← gets (user_of s)
  if not (is_pos user) then done else elim request [
    | none ↦ done
    | some id ↦ if bad_request_id id then done else on_assistant (mark_cancelled user id)
  ]

-- A signed int as an unsigned one of 32 bits.
abbrev pub unsigned_of : ℤ → ℕ
unsigned_of (pos n) = n % 2 ^ 32
unsigned_of (negsuc n) = 2 ^ 32 - suc (n % 2 ^ 32)

unfoldable pub rollout_bucket : ℤ → ℕ
rollout_bucket user = unsigned_of user * 2654435761 % 2 ^ 32 % 100

abbrev pub bad_parameters : ℤ → AiReplyRq → Bool
bad_parameters user rq =
    bad_request_id rq.request_id
    || not (is_pos rq.peer_id)
    || int_eq rq.peer_id user
    || ltb 32 (length rq.tone)
    || ltb_ℤ rq.max_suggestions (pos 0)
    || ltb_ℤ (pos 3) rq.max_suggestions

-- The UTF-8 bytes of the tone that is asked for where the request has none.
abbrev pub default_tone : Bytes
default_tone =
    232 ∷ 135 ∷ 170 ∷ 231 ∷ 132 ∷ 182 ∷ 227 ∷ 128 ∷ 129 ∷ 231 ∷ 174 ∷ 128 ∷ 230 ∷ 180 ∷ 129 ∷ []

abbrev pub task_of : ℕ → ℤ → AiReplyRq → AiTask
task_of s user rq = record {
  asker = s;
  user_id = user;
  peer_id = rq.peer_id;
  request_id = rq.request_id;
  tone = if is_empty rq.tone then default_tone else rq.tone;
  max_suggestions = if int_eq rq.max_suggestions (pos 0) then pos 3 else rq.max_suggestions;
}

-- The key becomes active, and the task waits for a worker, behind the tasks that wait already.
unfoldable pub post_task : ℕ → ℤ → AiReplyRq → Assistant → Assistant
unfolding request_key
post_task s user rq a = record a {
  active = insert_key (request_key user rq.request_id) a.active;
  posted = a.posted ++ task_of s user rq ∷ [];
}

-- Every suggestion cut at 240 bytes, of those that are not empty the first three.
unfoldable pub safe_suggestions : ℕ → List Bytes → List Bytes
safe_suggestions taken [] = []
safe_suggestions taken (suggestion ∷ rest) =
    let safe = utf8_truncate suggestion 240 in
    let more = safe_suggestions (suc taken) rest in
    let others = safe_suggestions taken rest in
    if not (is_empty safe) && ltb taken 3 then safe ∷ more else others

-- The AiHandler's constructor.
unfoldable pub new_assistant : AiConfig → Assistant
new_assistant config = record {
  limiter =
      limiter config.rate_limit_per_minute config.max_pending_requests config.replay_window_seconds;
  active = [];
  cancelled = [];
  posted = [];
}

-- `redact` as in buildReplyContext.
module _ (redact : Bytes → Bytes) (config : AiConfig) (env : Env) where
  -- tryAcquire, and what follows it.
  unfoldable pub start_request : ℕ → ℤ → AiReplyRq → Act (Unit {0})
  unfolding send_result post_task
  start_request s user rq w =
      let (start, l) = try_acquire user rq.request_id env.ticks w.assistant.limiter in
      let w' = record w { assistant = record w.assistant { limiter = l } } in
      let answer = λ (status : AiReplyStatus). send_result s rq.request_id status [] w' in
      elim start [
        | accepted ↦ on_assistant (post_task s user rq) w'
        | duplicate ↦ answer ai_reply_invalid_request
        | rate_limited ↦ answer ai_reply_rate_limited
        | busy ↦ answer ai_reply_busy
        | queue_full ↦ answer ai_reply_busy
      ]

  unfoldable pub on_reply : ℕ → Option AiReplyRq → Act (Unit {0})
  unfolding send_result start_request rollout_bucket enabled
  on_reply s none = send_result s [] ai_reply_invalid_request []
  on_reply s (some rq) = do
    user ← gets (user_of s)
    let answer = λ (status : AiReplyStatus). send_result s rq.request_id status []
    if not (is_pos user)
        then answer ai_reply_unauthorized
        else if bad_parameters user rq
        then answer ai_reply_invalid_request
        else if not config.feature_enabled
            || leb (unsigned_of config.rollout_percent) (rollout_bucket user)
        then answer ai_reply_not_configured
        else do
          friends ← sql (is_friend user rq.peer_id)
          if not friends
              then answer ai_reply_not_friend
              else if not (enabled config)
              then answer ai_reply_not_configured
              else start_request s user rq

  -- weakSession.lock(), with the check of its user.
  abbrev pub still_there : AiTask → Act Bool
  still_there t = gets (λ w. env.alive t.asker && int_eq (user_of t.asker w) t.user_id)

  -- The end of the FinishGuard's scope.
  abbrev pub finish : AiTask → Act (Unit {0})
  finish t = on_assistant (finish_request t.user_id t.request_id)

  abbrev pub policy_of : Policy
  policy_of = record {
    max_messages = config.max_context_messages;
    max_message_bytes = config.max_message_bytes;
    max_context_bytes = config.max_context_bytes;
  }

  -- std::min(100, m_config.maxContextMessages * 3), where a negative LIMIT is none: no table holds
  -- more rows than int64_max.
  abbrev pub fetch_limit : ℤ → ℕ
  fetch_limit (pos n) = min 100 (n * 3)
  fetch_limit (negsuc n) = int64_max

  -- A worker's task up to the call of the model: `none` where it ends before.
  unfoldable pub prepare_reply : AiTask → Act (Option ReplyRequest)
  unfolding send_result finish_request is_cancelled
  prepare_reply t = do
    cancelled ← gets (λ w. is_cancelled t.user_id t.request_id w.assistant)
    if cancelled then (do finish t; pure none) else do
      rows ←
          sql
            (roam_messages t.user_id t.peer_id int64_max (fetch_limit config.max_context_messages))
      let request =
          build_reply_context redact rows t.user_id t.peer_id t.request_id t.tone t.max_suggestions
            policy_of
      there ← still_there t
      if not there
          then (do finish t; pure none)
          else if is_empty request.turns
          then (do
            send_result t.asker t.request_id ai_reply_invalid_request []
            finish t
            pure none)
          else pure (some request)

  -- The answer to a result of the model.
  unfoldable pub answer_result : AiTask → AiReplyResult → Act (Unit {0})
  unfolding send_result safe_suggestions map_error
  answer_result t result =
      let answer = send_result t.asker t.request_id in
      elim result.error [
        | no_error ↦
            let safe = safe_suggestions 0 result.suggestions in
            if is_empty safe then answer ai_reply_upstream_error [] else answer ai_reply_ok safe
        | _ ↦ answer (map_error result.error) []
      ]

  -- A worker's task from the call of the model on.
  unfoldable pub complete_reply : AiTask → AiReplyResult → Act (Unit {0})
  unfolding answer_result finish_request is_cancelled
  complete_reply t result = do
    cancelled ← gets (λ w. is_cancelled t.user_id t.request_id w.assistant)
    there ← still_there t
    if cancelled || not there then done else answer_result t result
    finish t
