-- ===== src/Ai/Config.antt =====
-- im_server/src/ai/AiConfig.cpp: the assistant's settings, read from the environment.
pub mod Bounds
use improject.Base.{
  ℕ, suc, ℤ, pos, negsuc, ◌+◌, ◌-◌, ◌*◌, ◌^◌, List, [], ◌∷◌, ◌++◌, Bool, true, false, not, ◌&&◌,
  ◌||◌, Option, none, some, Bytes, ◌==◌, ltb, ltb_ℤ, if◌then◌else◌, is_empty, bytes_eq, codes, drop,
  take, length,
}
use improject.Text.{parse_int, starts_with, find_text}

pub data AiProvider : Type 0 where
  open_ai anthropic : AiProvider

pub record AiConfig : Type 0 where
  pub feature_enabled : Bool
  pub rollout_percent : ℤ
  pub provider : AiProvider
  pub api_key : Bytes
  pub model : Bytes
  pub host : Bytes
  pub port : ℤ
  pub path : Bytes
  pub request_timeout_ms : ℤ
  pub max_output_tokens : ℤ
  pub disable_thinking : Bool
  pub max_context_messages : ℤ
  pub max_context_bytes : ℤ
  pub max_message_bytes : ℤ
  pub rate_limit_per_minute : ℤ
  pub max_pending_requests : ℤ
  pub replay_window_seconds : ℤ
  pub ca_cert_path : Bytes
  pub anthropic_version : Bytes

-- The initializers of the fields.
abbrev pub default_config : AiConfig
default_config = record {
  feature_enabled = true;
  rollout_percent = pos 100;
  provider = open_ai;
  api_key = [];
  model = [];
  host = codes "api.openai.com";
  port = pos 443;
  path = codes "/v1/responses";
  request_timeout_ms = pos 15000;
  max_output_tokens = pos 180;
  disable_thinking = true;
  max_context_messages = pos 20;
  max_context_bytes = pos 12000;
  max_message_bytes = pos 2000;
  rate_limit_per_minute = pos 5;
  max_pending_requests = pos 8;
  replay_window_seconds = pos 300;
  ca_cert_path = [];
  anthropic_version = codes "2023-06-01";
}

abbrev pub long_max : ℕ
long_max = 2 ^ 63 - 1

-- config.path without the slashes at its end.
unfoldable pub strip_slashes : Bytes → Bytes
strip_slashes [] = []
strip_slashes (c ∷ cs) =
    let rest = strip_slashes cs in if c == 47 && is_empty rest then [] else c ∷ rest

-- A scheme is taken off, and sets the port.
unfoldable pub without_scheme : Bytes → AiConfig → Bytes × AiConfig
without_scheme url config =
    if starts_with (codes "https://") url
    then (drop 8 url, record config { port = pos 443 })
    else if starts_with (codes "http://") url
    then (drop 7 url, record config { port = pos 80 })
    else (url, config)

-- The host before the first slash, and a path if something follows it.
unfoldable pub split_url : Bytes → AiConfig → AiConfig
unfolding strip_slashes
split_url value config = elim (find_text (47 ∷ []) value) [
  | none ↦ record config { host = value }
  | some slash ↦
      if ltb (suc slash) (length value)
      then record config {
        host = take slash value;
        path = strip_slashes (drop slash value) ++ codes "/v1/messages";
      }
      else record config { host = take slash value }
]

unfoldable pub apply_base_url : Bytes → AiConfig → AiConfig
unfolding without_scheme split_url
apply_base_url url config =
    if is_empty url
    then config
    else let (value, config') = without_scheme url config in split_url value config'

abbrev pub within_or : ℤ → ℤ → ℤ → Option ℤ → ℤ
within_or fallback minimum maximum none = fallback
within_or fallback minimum maximum (some parsed) =
    if ltb_ℤ parsed minimum || ltb_ℤ maximum parsed then fallback else parsed

-- getenv
module _ (getenv : Bytes → Option Bytes) where
  unfoldable pub env : Bytes → Bytes
  env name = elim (getenv name) [ none ↦ [] | some value ↦ value ]

  unfoldable pub env_int : Bytes → ℤ → ℤ → ℤ → ℤ
  unfolding env
  env_int name fallback minimum maximum =
      if is_empty (env name)
      then fallback
      else within_or fallback minimum maximum (parse_int long_max (env name))

  unfoldable pub env_bool : Bytes → Bool → Bool
  unfolding env
  env_bool name fallback =
      if is_empty (env name)
      then fallback
      else bytes_eq (env name) (codes "1")
        || bytes_eq (env name) (codes "true")
        || bytes_eq (env name) (codes "TRUE")
        || bytes_eq (env name) (codes "yes")
        || bytes_eq (env name) (codes "on")

  abbrev or_default : Bytes → Bytes → Bytes
  or_default value default = if is_empty value then default else value

  -- What the provider "anthropic" sets beside the key and the model.
  unfoldable pub with_anthropic : AiConfig → AiConfig
  unfolding env
  with_anthropic config =
      let based = apply_base_url (env (codes "IM_AI_BASE_URL")) (record config {
        provider = anthropic;
        host = codes "api.anthropic.com";
        path = codes "/v1/messages";
      }) in
      record based {
        anthropic_version =
            or_default (env (codes "IM_AI_ANTHROPIC_VERSION")) based.anthropic_version;
      }

  unfoldable pub with_provider : AiConfig → AiConfig
  unfolding env with_anthropic
  with_provider config =
      let keyed : AiConfig = record config {
        api_key = env (codes "IM_AI_API_KEY");
        model = env (codes "IM_AI_MODEL");
      } in
      if bytes_eq (env (codes "IM_AI_PROVIDER")) (codes "anthropic")
      then with_anthropic keyed
      else apply_base_url (env (codes "IM_AI_BASE_URL")) keyed

  -- The host, the path and the certificates, which have variables of their own.
  unfoldable pub with_address : AiConfig → AiConfig
  unfolding env
  with_address config =
      let hosted = apply_base_url (env (codes "IM_AI_API_HOST")) config in
      record hosted {
        path = or_default (env (codes "IM_AI_API_PATH")) hosted.path;
        ca_cert_path = or_default (env (codes "IM_AI_CA_CERT_PATH")) hosted.ca_cert_path;
      }

  unfoldable pub with_limits : AiConfig → AiConfig
  unfolding env_int env_bool
  with_limits config = record config {
    port = env_int (codes "IM_AI_API_PORT") (pos 443) (pos 1) (pos 65535);
    request_timeout_ms =
        env_int (codes "IM_AI_REQUEST_TIMEOUT_MS") (pos 15000) (pos 1000) (pos 120000);
    max_output_tokens = env_int (codes "IM_AI_MAX_OUTPUT_TOKENS") (pos 180) (pos 64) (pos 2000);
    disable_thinking = env_bool (codes "IM_AI_DISABLE_THINKING") true;
    max_context_messages = env_int (codes "IM_AI_MAX_CONTEXT_MESSAGES") (pos 20) (pos 1) (pos 100);
    max_context_bytes =
        env_int (codes "IM_AI_MAX_CONTEXT_BYTES") (pos 12000) (pos 1000) (pos 100000);
    max_message_bytes = env_int (codes "IM_AI_MAX_MESSAGE_BYTES") (pos 2000) (pos 100) (pos 10000);
    rate_limit_per_minute = env_int (codes "IM_AI_RATE_LIMIT_PER_MINUTE") (pos 5) (pos 1) (pos 60);
    max_pending_requests = env_int (codes "IM_AI_MAX_PENDING_REQUESTS") (pos 8) (pos 1) (pos 100);
    replay_window_seconds =
        env_int (codes "IM_AI_REPLAY_WINDOW_SECONDS") (pos 300) (pos 30) (pos 3600);
  }

  unfoldable pub from_environment : AiConfig
  unfolding env_int env_bool with_provider with_address with_limits
  from_environment =
      let config : AiConfig = record default_config {
        feature_enabled = env_bool (codes "IM_AI_ENABLED") true;
        rollout_percent = env_int (codes "IM_AI_ROLLOUT_PERCENT") (pos 100) (pos 0) (pos 100);
      } in
      with_limits (with_address (with_provider config))

unfoldable pub enabled : AiConfig → Bool
enabled config =
    config.feature_enabled && not (is_empty config.api_key) && not (is_empty config.model)

-- The texts of validationError; `valid` is the empty one.
pub data ValidationError : Type 0 where
  valid disabled no_api_key no_model no_host bad_path bad_port : ValidationError

unfoldable pub validation_error : AiConfig → ValidationError
validation_error config =
    if not config.feature_enabled
    then disabled
    else if is_empty config.api_key
    then no_api_key
    else if is_empty config.model
    then no_model
    else if is_empty config.host
    then no_host
    else if not (starts_with (47 ∷ []) config.path)
    then bad_path
    else if ltb_ℤ config.port (pos 1) || ltb_ℤ (pos 65535) config.port
    then bad_port
    else valid
