-- ===== src/Handlers/Assistant/Answers.antt =====
-- About the requests that AiHandler.cpp takes and refuses.
use improject.Base.{
  ℕ, ℤ, [], ◌∷◌, ◌++◌, Bool, true, false, not, ◌||◌, some, Bytes, ◌≡◌, ◌≢◌, ◌<◌, arith, refl, sym,
  ◌⊎◌, inl, inr, ap, if◌then◌else◌, is_pos, leb,
}
use improject.Db.Sql.{Conn}
use improject.Db.Friends.{is_friend}
use improject.Ai.{Result, accepted, busy, rate_limited, duplicate, queue_full, Limiter, try_acquire}
use improject.Ai.Config.{AiConfig, enabled}
use improject.Packets.{
  AiReplyStatus, ai_reply_ok, ai_reply_invalid_request, ai_reply_unauthorized, ai_reply_not_friend,
  ai_reply_rate_limited, ai_reply_busy, ai_reply_not_configured, AiReplyRq, AiReplyRs, ai_reply_rs,
}
use improject.World.{World, Env, deliver_call, user_of, Act, ◌>>=◌, sql}
use improject.Handlers.Assistant.{
  bad_parameters, rollout_bucket, unsigned_of, start_request, on_reply, send_result, task_of,
  post_task, on_assistant, insert_key, request_key,
}

-- What has to hold for a request to be taken: of the session and its parameters, of the service and
-- its share of users, of the friendship, and of the limiter.
pub record Conditions (config : AiConfig) (env : Env) (s : ℕ) (rq : AiReplyRq) (w : World)
    : Type 0 where
  pub logged_in : is_pos (user_of s w) ≡ true
  pub parameters : bad_parameters (user_of s w) rq ≡ false
  pub feature : config.feature_enabled ≡ true
  pub rollout : rollout_bucket (user_of s w) < unsigned_of config.rollout_percent
  pub friends : (is_friend (user_of s w) rq.peer_id w.conn).0 ≡ true
  pub configured : enabled config ≡ true
  pub admitted :
      (try_acquire (user_of s w) rq.request_id env.ticks w.assistant.limiter).0 ≡ accepted

-- A refusal: one answer to the session that asked, without suggestions, and no task.
pub record Refused (config : AiConfig) (env : Env) (s : ℕ) (rq : AiReplyRq) (w w' : World)
    : Type 0 where
  pub why : ¬ Conditions config env s rq w
  pub answer : AiReplyRs
  pub not_ok : answer.status ≢ ai_reply_ok
  pub empty : answer.suggestions ≡ []
  pub told : w'.sent ≡ (s, deliver_call (ai_reply_rs answer)) ∷ w.sent
  pub idle : (w'.assistant.posted ≡ w.assistant.posted) × (w'.assistant.active ≡ w.assistant.active)

-- An acceptance: no answer yet, one task behind the others, its key active, and the slot taken.
pub record Taken (config : AiConfig) (env : Env) (s : ℕ) (rq : AiReplyRq) (w w' : World)
    : Type 0 where
  pub conditions : Conditions config env s rq w
  pub silent : w'.sent ≡ w.sent
  pub posted : w'.assistant.posted ≡ w.assistant.posted ++ task_of s (user_of s w) rq ∷ []
  pub active :
      w'.assistant.active ≡ insert_key (request_key (user_of s w) rq.request_id) w.assistant.active
  pub slot :
      w'.assistant.limiter
      ≡ (try_acquire (user_of s w) rq.request_id env.ticks w.assistant.limiter).1

module _ (redact : Bytes → Bytes) (config : AiConfig) (env : Env) (s : ℕ) where
  refused :
      (rq : AiReplyRq) (status : AiReplyStatus) (w v : World)
      → ¬ Conditions config env s rq w
      → status ≢ ai_reply_ok
      → v.sent ≡ w.sent
      → (v.assistant.posted ≡ w.assistant.posted) × (v.assistant.active ≡ w.assistant.active)
      → Refused config env s rq w (send_result s rq.request_id status [] v).1
  unfolding send_result
  refused rq status w v why h sent idle = record {
    why = why;
    answer = record { request_id = rq.request_id; status = status; suggestions = [] };
    not_ok = h;
    empty = refl;
    told =
        ap
          (◌∷◌ (
            s,
            deliver_call (
                ai_reply_rs
                  (record { request_id = rq.request_id; status = status; suggestions = [] })),
          ))
          sent;
    idle = idle;
  }

  start_request-Outcome :
      (rq : AiReplyRq) (w v : World)
      → v.sent ≡ w.sent
      → v.assistant ≡ w.assistant
      → v.logins ≡ w.logins
      → is_pos (user_of s w) ≡ true
      → bad_parameters (user_of s w) rq ≡ false
      → (is_friend (user_of s w) rq.peer_id w.conn).0 ≡ true
      → enabled config ≡ true
      → config.feature_enabled ≡ true
      → rollout_bucket (user_of s w) < unsigned_of config.rollout_percent
      → let w' = (start_request redact config env s (user_of s w) rq v).1 in
        Refused config env s rq w w' ⊎ Taken config env s rq w w'
  unfolding start_request post_task
  start_request-Outcome rq w v sent asst logins p q f c on share =
      split r.0
        (ap (λ a. (try_acquire (user_of s w) rq.request_id env.ticks a.limiter).0) (sym asst))
    where
      r : Result × Limiter
      r = try_acquire (user_of s w) rq.request_id env.ticks v.assistant.limiter

      v' : World
      v' = record v { assistant = record v.assistant { limiter = r.1 } }

      no :
          (status : AiReplyStatus)
          → ¬ Conditions config env s rq w
          → status ≢ ai_reply_ok
          → Refused config env s rq w (send_result s rq.request_id status [] v').1
      no status why h =
          refused rq status w v' why h sent (ap (λ a. a.posted) asst, ap (λ a. a.active) asst)

      split :
          (start : Result)
          → (try_acquire (user_of s w) rq.request_id env.ticks w.assistant.limiter).0 ≡ start
          → let w' =
              (elim start as (λ x. Unit {0} × World) [
                | accepted ↦ on_assistant (post_task s (user_of s w) rq) v'
                | duplicate ↦ send_result s rq.request_id ai_reply_invalid_request [] v'
                | rate_limited ↦ send_result s rq.request_id ai_reply_rate_limited [] v'
                | busy ↦ send_result s rq.request_id ai_reply_busy [] v'
                | queue_full ↦ send_result s rq.request_id ai_reply_busy [] v'
              ]).1 in
            Refused config env s rq w w' ⊎ Taken config env s rq w w'
      split accepted e = inr (record {
        conditions = record {
          logged_in = p;
          parameters = q;
          feature = on;
          rollout = share;
          friends = f;
          configured = c;
          admitted = e;
        };
        silent = sent;
        posted = ap (λ a. a.posted ++ task_of s (user_of s w) rq ∷ []) asst;
        active = ap (λ a. insert_key (request_key (user_of s w) rq.request_id) a.active) asst;
        slot = ap (λ a. (try_acquire (user_of s w) rq.request_id env.ticks a.limiter).1) asst;
      })
      split duplicate e =
          inl (no ai_reply_invalid_request (λ c. ground (arith, e, c.admitted)) (λ e. cc))
      split rate_limited e =
          inl (no ai_reply_rate_limited (λ c. ground (arith, e, c.admitted)) (λ e. cc))
      split busy e = inl (no ai_reply_busy (λ c. ground (arith, e, c.admitted)) (λ e. cc))
      split queue_full e = inl (no ai_reply_busy (λ c. ground (arith, e, c.admitted)) (λ e. cc))

  -- Every branch of onReply for a request that parses. Either it is taken: nothing is answered yet,
  -- one task is posted behind the others, its key is active and the limiter has counted it; and the
  -- session is logged in, the parameters are valid, the feature is on and the user in its share, the
  -- other user is a friend, the service is configured, and the limiter has accepted the request. Or
  -- one of these does not hold, and it is refused: one answer that is not OK goes to the session that
  -- asked, and no task is posted and no request becomes active.
  pub on_reply-Outcome :
      (rq : AiReplyRq) (w : World)
      → let w' = (on_reply redact config env s (some rq) w).1 in
        Refused config env s rq w w' ⊎ Taken config env s rq w w'
  unfolding on_reply
  on_reply-Outcome rq w = logged (is_pos user) (bad_parameters user rq) refl refl
    where
      user : ℤ
      user = user_of s w

      f : Bool × Conn
      f = is_friend user rq.peer_id w.conn

      no :
          (status : AiReplyStatus) (v : World)
          → ¬ Conditions config env s rq w
          → status ≢ ai_reply_ok
          → v.sent ≡ w.sent
          → v.assistant ≡ w.assistant
          → (let w' = (send_result s rq.request_id status [] v).1 in
              Refused config env s rq w w' ⊎ Taken config env s rq w w')
      no status v why h sent asst =
          inl (refused rq status w v why h sent (ap (λ a. a.posted) asst, ap (λ a. a.active) asst))

      Answered : Act (Unit {0}) → World → Type 0
      Answered m v = Refused config env s rq w (m v).1 ⊎ Taken config env s rq w (m v).1

      w1 : World
      w1 = record w { conn = f.1 }

      answer : AiReplyStatus → Act (Unit {0})
      answer status = send_result s rq.request_id status []

      ready :
          (friends on : Bool)
          → f.0 ≡ friends
          → enabled config ≡ on
          → is_pos user ≡ true
          → bad_parameters user rq ≡ false
          → config.feature_enabled ≡ true
          → rollout_bucket user < unsigned_of config.rollout_percent
          → Answered
              (if not friends
                then answer ai_reply_not_friend
                else if not on
                then answer ai_reply_not_configured
                else start_request redact config env s user rq)
              w1
      ready false on k l p q a b =
          no ai_reply_not_friend w1 (λ c. ground (arith, k, c.friends)) (λ e. cc) refl refl
      ready true false k l p q a b =
          no ai_reply_not_configured w1 (λ c. ground (arith, l, c.configured)) (λ e. cc) refl refl
      ready true true k l p q a b = start_request-Outcome rq w w1 refl refl refl p q k l a b

      open' :
          (closed : Bool)
          → (not config.feature_enabled
              || leb (unsigned_of config.rollout_percent) (rollout_bucket user))
            ≡ closed
          → is_pos user ≡ true
          → bad_parameters user rq ≡ false
          → Answered
              (if closed then answer ai_reply_not_configured else do
                friends ← sql (is_friend user rq.peer_id)
                if not friends
                    then answer ai_reply_not_friend
                    else if not (enabled config)
                    then answer ai_reply_not_configured
                    else start_request redact config env s user rq)
              w
      open' true o p q =
          no ai_reply_not_configured w (λ c. ground (arith, o, c.feature, c.rollout)) (λ e. cc) refl
            refl
      open' false o p q =
          ready f.0 (enabled config) refl refl p q (ground (arith, o)) (ground (arith, o))

      logged :
          (p bad : Bool)
          → is_pos user ≡ p
          → bad_parameters user rq ≡ bad
          → Answered
              (if not p
                then answer ai_reply_unauthorized
                else if bad
                then answer ai_reply_invalid_request
                else if not config.feature_enabled
                    || leb (unsigned_of config.rollout_percent) (rollout_bucket user)
                then answer ai_reply_not_configured
                else do
                  friends ← sql (is_friend user rq.peer_id)
                  if not friends
                      then answer ai_reply_not_friend
                      else if not (enabled config)
                      then answer ai_reply_not_configured
                      else start_request redact config env s user rq)
              w
      logged false bad p q =
          no ai_reply_unauthorized w (λ c. ground (arith, p, c.logged_in)) (λ e. cc) refl refl
      logged true true p q =
          no ai_reply_invalid_request w (λ c. ground (arith, q, c.parameters)) (λ e. cc) refl refl
      logged true false p q =
          open'
            (not config.feature_enabled
              || leb (unsigned_of config.rollout_percent) (rollout_bucket user))
            refl p q
