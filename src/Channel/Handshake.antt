-- ===== src/Channel/Handshake.antt =====
-- Session.cpp: the application handshake, handleClientHello and handleClientFinished.
use improject.Base.{
  ℕ, ◌++◌, Bool, false, not, ◌||◌, Option, none, some, Bytes, ◌==◌, ltb, if◌then◌else◌, length,
  take, drop, codes,
}
use improject.Wire.{encode_len32}
use improject.Crypto.{OpenSsl, x25519_shared_secret, ed25519_sign, hkdf_sha256, constant_time_equal}
use improject.Channel.State.{
  SecurityState, tls_handshake, wait_client_hello, wait_client_finished, established, closed,
  Session, Proto, AppClientHello, AppServerHello, app_security_version, app_client_hello,
  app_client_finished, app_server_hello, app_server_finished, app_max_handshake_payload,
  deliver_task, post, fail,
}

-- What a ClientHello draws from the random generator and the key generator.
pub record HelloDraw : Type 0 where
  pub private_key : Bytes
  pub public_key : Bytes
  pub server_nonce : Bytes
  pub session_id : Bytes

-- The server's identity.
pub record Identity : Type 0 where
  pub private_key : Bytes
  pub key_id : ℕ

unfoldable pub signing_transcript : Bytes → ℕ → Bytes → Bytes → Bytes → ℕ → ℕ → Bytes
signing_transcript client_payload version server_public server_nonce session_id key_id
      cipher_suite =
    codes "jitong-app-handshake-v1"
    ++ (encode_len32 (length client_payload)
        ++ (client_payload
            ++ (encode_len32 version
                ++ (server_public
                    ++ (server_nonce
                        ++ (session_id ++ (encode_len32 key_id ++ encode_len32 cipher_suite)))))))

abbrev pub slice : Bytes → ℕ → ℕ → Bytes
slice input offset size = take size (drop offset input)

module _ (ssl : OpenSsl) (proto : Proto) (identity : Identity) where
  unfoldable pub finished_transcript_hash : Bytes → Bytes → Bytes
  finished_transcript_hash client_payload server_payload = ssl.digest (
      encode_len32 (length client_payload)
      ++ (client_payload ++ (encode_len32 (length server_payload) ++ server_payload)))

  -- The fields that the first test of handleClientHello wants.
  abbrev pub hello_refused : AppClientHello → Bool
  hello_refused h =
      not (h.version == app_security_version)
      || not (h.cipher_suite == 1)
      || not (length h.client_ephemeral_public_key == 32)
      || not (length h.client_nonce == 32)
      || not (length h.client_random_id == 16)

  abbrev pub server_hello : HelloDraw → Bytes → AppServerHello
  server_hello draw signature = record {
    version = app_security_version;
    server_ephemeral_public_key = draw.public_key;
    server_nonce = draw.server_nonce;
    session_id = draw.session_id;
    key_id = identity.key_id;
    signature = signature;
    cipher_suite = 1;
  }

  -- The keys are cut from the material, and the ServerHello is delivered.
  unfoldable pub install_keys : Bytes → Bytes → Session → Session
  install_keys material server_payload s =
      post (deliver_task app_server_hello server_payload) (record s {
        client_to_server_key = slice material 0 32;
        server_to_client_key = slice material 32 32;
        client_nonce_prefix = slice material 64 4;
        server_nonce_prefix = slice material 68 4;
        client_finished_key = slice material 72 32;
        server_finished_key = slice material 104 32;
        security = wait_client_finished;
      })

  -- Behind the signature: the shared secret and the key schedule.
  unfoldable pub derive_keys : AppClientHello → HelloDraw → Bytes → Session → Session
  derive_keys hello draw server_payload s =
      elim (x25519_shared_secret ssl draw.private_key hello.client_ephemeral_public_key) [
        | none ↦ fail s
        | some shared ↦
            elim (hkdf_sha256 ssl shared (ssl.digest (hello.client_nonce ++ draw.server_nonce))
              (codes "jitong-app-channel-v1" ++ (s.app_session_id ++ s.transcript_hash)) 136) [
                | none ↦ fail s
                | some material ↦ install_keys material server_payload s
              ]
      ]

  -- The `try` block, with what was drawn.
  unfoldable pub answer_hello : AppClientHello → Bytes → HelloDraw → Session → Session
  answer_hello hello payload draw s =
      let s' : Session = record s { app_session_id = draw.session_id } in
      elim (ed25519_sign ssl identity.private_key (
        signing_transcript payload app_security_version draw.public_key draw.server_nonce
          draw.session_id identity.key_id 1)) [
            | none ↦ fail s'
            | some signature ↦
                let server_payload = proto.serialize_server_hello (server_hello draw signature) in
                derive_keys hello draw server_payload
                  (record s' { transcript_hash = finished_transcript_hash payload server_payload })
          ]

  unfoldable pub accept_hello : Option AppClientHello → Bytes → Option HelloDraw → Session → Session
  accept_hello none payload draw s = fail s
  accept_hello (some hello) payload none s = fail s
  accept_hello (some hello) payload (some draw) s =
      if hello_refused hello then fail s else answer_hello hello payload draw s

  -- `draw` is `none` where a generator throws.
  unfoldable pub handle_client_hello : Option HelloDraw → Bytes → Session → Session
  unfolding accept_hello
  handle_client_hello draw payload s =
      accept_hello (proto.parse_client_hello payload) payload draw s

  -- The verify data that handleClientFinished expects, and the one that it answers with.
  abbrev pub expected_verify : Session → Bytes
  expected_verify s = ssl.hmac s.client_finished_key s.transcript_hash

  unfoldable pub accept_finished : Option Bytes → Session → Session
  accept_finished none s = fail s
  accept_finished (some actual) s =
      if not (length actual == 32) || not (constant_time_equal actual (expected_verify s))
      then fail s
      else post
          (deliver_task app_server_finished (
            proto.serialize_finished
              (ssl.hmac s.server_finished_key (s.transcript_hash ++ actual))))
          (record s { security = established; timer = false })

  unfoldable pub handle_client_finished : Bytes → Session → Session
  handle_client_finished payload s = accept_finished (proto.parse_finished payload) s

  -- handleApplicationHandshake: the message must be the one that the state waits for.
  unfoldable pub expect_handshake : SecurityState → Option HelloDraw → ℕ → Bytes → Session → Session
  expect_handshake wait_client_hello draw type payload s =
      if type == app_client_hello then handle_client_hello draw payload s else fail s
  expect_handshake wait_client_finished draw type payload s =
      if type == app_client_finished then handle_client_finished payload s else fail s
  expect_handshake tls_handshake draw type payload s = fail s
  expect_handshake established draw type payload s = fail s
  expect_handshake closed draw type payload s = fail s

  unfoldable pub handle_application_handshake : Option HelloDraw → ℕ → Bytes → Session → Session
  unfolding expect_handshake
  handle_application_handshake draw type payload s =
      if ltb app_max_handshake_payload (length payload)
      then fail s
      else expect_handshake s.security draw type payload s
