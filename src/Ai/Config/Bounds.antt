-- ===== src/Ai/Config/Bounds.antt =====
-- About the numbers that AiConfig.cpp reads from the environment.
use improject.Base.{
  ℤ, pos, Bool, true, false, ◌||◌, Option, none, some, Bytes, ◌≡◌, refl, sym, subst, ◌∙◌, bytes_eq,
  arith, ltb_ℤ, if◌then◌else◌, is_empty, codes,
}
use improject.Text.{parse_int}
use improject.Ai.Config.{
  AiConfig, within_or, env, env_int, env_bool, long_max, from_environment, with_limits,
  with_address, with_provider, default_config, with_anthropic, apply_base_url, without_scheme,
  split_url, anthropic,
}

-- minimum <= n && n <= maximum
abbrev pub InRange : ℤ → ℤ → ℤ → Type 0
InRange minimum maximum n = (ltb_ℤ n minimum ≡ false) × (ltb_ℤ maximum n ≡ false)

within_or-InRange :
    (fallback minimum maximum : ℤ) (o : Option ℤ)
    → InRange minimum maximum fallback
    → InRange minimum maximum (within_or fallback minimum maximum o)
within_or-InRange fallback minimum maximum none h = h
within_or-InRange fallback minimum maximum (some n) h =
    split (ltb_ℤ n minimum) (ltb_ℤ maximum n) refl refl
  where
    split :
        (low high : Bool)
        → ltb_ℤ n minimum ≡ low
        → ltb_ℤ maximum n ≡ high
        → InRange minimum maximum (if low || high then fallback else n)
    split true high k l = h
    split false true k l = h
    split false false k l = (k, l)

rollout-apply_base_url :
    (url : Bytes) (config : AiConfig)
    → (apply_base_url url config).rollout_percent ≡ config.rollout_percent
unfolding apply_base_url without_scheme split_url
rollout-apply_base_url url config = ground arith

module _ (getenv : Bytes → Option Bytes) where
  env_int-InRange :
      (name : Bytes) (fallback minimum maximum : ℤ)
      → InRange minimum maximum fallback
      → InRange minimum maximum (env_int getenv name fallback minimum maximum)
  unfolding env_int
  env_int-InRange name fallback minimum maximum h = split (is_empty (env getenv name))
    where
      split :
          (b : Bool)
          → InRange minimum maximum (
              if b
              then fallback
              else within_or fallback minimum maximum (parse_int long_max (env getenv name)))
      split true = h
      split false =
          within_or-InRange fallback minimum maximum (parse_int long_max (env getenv name)) h

  rollout-with_provider :
      (config : AiConfig) → (with_provider getenv config).rollout_percent ≡ config.rollout_percent
  unfolding with_provider with_anthropic
  rollout-with_provider config =
      let keyed : AiConfig = record config {
        api_key = env getenv (codes "IM_AI_API_KEY");
        model = env getenv (codes "IM_AI_MODEL");
      } in
      split keyed (bytes_eq (env getenv (codes "IM_AI_PROVIDER")) (codes "anthropic"))
    where
      split :
          (keyed : AiConfig) (b : Bool)
          → (if b
              then with_anthropic getenv keyed
              else apply_base_url (env getenv (codes "IM_AI_BASE_URL")) keyed).rollout_percent
            ≡ keyed.rollout_percent
      split keyed true =
          rollout-apply_base_url (env getenv (codes "IM_AI_BASE_URL")) (record keyed {
            provider = anthropic;
            host = codes "api.anthropic.com";
            path = codes "/v1/messages";
          })
      split keyed false = rollout-apply_base_url (env getenv (codes "IM_AI_BASE_URL")) keyed

  rollout-with_address :
      (config : AiConfig) → (with_address getenv config).rollout_percent ≡ config.rollout_percent
  unfolding with_address
  rollout-with_address config = rollout-apply_base_url (env getenv (codes "IM_AI_API_HOST")) config

  -- Whatever the environment holds, missing, malformed and huge values included, each number of the
  -- settings lies within its bounds: the share of users, the port, the time limit, the sizes that
  -- the context may have, and the limits of the requests.
  pub from_environment-InRange :
      let config = from_environment getenv in
      InRange (pos 0) (pos 100) config.rollout_percent
      × InRange (pos 1) (pos 65535) config.port
      × InRange (pos 1000) (pos 120000) config.request_timeout_ms
      × InRange (pos 64) (pos 2000) config.max_output_tokens
      × InRange (pos 1) (pos 100) config.max_context_messages
      × InRange (pos 1000) (pos 100000) config.max_context_bytes
      × InRange (pos 100) (pos 10000) config.max_message_bytes
      × InRange (pos 1) (pos 60) config.rate_limit_per_minute
      × InRange (pos 1) (pos 100) config.max_pending_requests
      × InRange (pos 30) (pos 3600) config.replay_window_seconds
  unfolding from_environment with_limits
  from_environment-InRange = (
    subst (InRange (pos 0) (pos 100)) (sym rollout)
        (env_int-InRange (codes "IM_AI_ROLLOUT_PERCENT") (pos 100) (pos 0) (pos 100) (refl, refl)),
    env_int-InRange (codes "IM_AI_API_PORT") (pos 443) (pos 1) (pos 65535) (refl, refl),
    env_int-InRange (codes "IM_AI_REQUEST_TIMEOUT_MS") (pos 15000) (pos 1000) (pos 120000)
        (refl, refl),
    env_int-InRange (codes "IM_AI_MAX_OUTPUT_TOKENS") (pos 180) (pos 64) (pos 2000) (refl, refl),
    env_int-InRange (codes "IM_AI_MAX_CONTEXT_MESSAGES") (pos 20) (pos 1) (pos 100) (refl, refl),
    env_int-InRange (codes "IM_AI_MAX_CONTEXT_BYTES") (pos 12000) (pos 1000) (pos 100000)
        (refl, refl),
    env_int-InRange (codes "IM_AI_MAX_MESSAGE_BYTES") (pos 2000) (pos 100) (pos 10000) (refl, refl),
    env_int-InRange (codes "IM_AI_RATE_LIMIT_PER_MINUTE") (pos 5) (pos 1) (pos 60) (refl, refl),
    env_int-InRange (codes "IM_AI_MAX_PENDING_REQUESTS") (pos 8) (pos 1) (pos 100) (refl, refl),
    env_int-InRange (codes "IM_AI_REPLAY_WINDOW_SECONDS") (pos 300) (pos 30) (pos 3600)
        (refl, refl),
  )
    where
      config : AiConfig
      config = record default_config {
        feature_enabled = env_bool getenv (codes "IM_AI_ENABLED") true;
        rollout_percent =
            env_int getenv (codes "IM_AI_ROLLOUT_PERCENT") (pos 100) (pos 0) (pos 100);
      }

      rollout :
          (with_address getenv (with_provider getenv config)).rollout_percent
          ≡ env_int getenv (codes "IM_AI_ROLLOUT_PERCENT") (pos 100) (pos 0) (pos 100)
      rollout = rollout-with_address (with_provider getenv config) ∙ rollout-with_provider config
