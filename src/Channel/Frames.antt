-- ===== src/Channel/Frames.antt =====
-- Session.cpp: encryptBusinessFrame and handleEncryptedFrame.
pub mod RoundTrip
pub mod Replay
use improject.Base.{
  ℕ, suc, ◌+◌, ◌-◌, ◌/◌, ◌%◌, ◌^◌, [], ◌∷◌, ◌++◌, Bool, true, false, not, ◌&&◌, ◌||◌, Option, none,
  some, Bytes, ◌==◌, ltb, leb, if◌then◌else◌, within, length, drop, codes,
}
use improject.Wire.{encode_len32, encode_type32, decode_type32}
use improject.Crypto.{
  OpenSsl, AesGcmResult, aes256_gcm_encrypt, aes256_gcm_decrypt, constant_time_equal,
}
use Prim.Native.String.{String}
use improject.Channel.State.{
  SecurityState, established, Session, Proto, AppEncryptedFrame, app_client_hello,
  app_encrypted_frame, app_security_version, fail, closed,
}

-- appendU64: the big-endian bytes.
unfoldable pub u64_bytes : ℕ → Bytes
u64_bytes v =
    (v / 2 ^ 56 % 256)
    ∷ (v / 2 ^ 48 % 256)
    ∷ (v / 2 ^ 40 % 256)
    ∷ (v / 2 ^ 32 % 256)
    ∷ (v / 2 ^ 24 % 256)
    ∷ (v / 2 ^ 16 % 256)
    ∷ (v / 2 ^ 8 % 256)
    ∷ (v % 256)
    ∷ []

-- frameNonce; `none` is its exception.
unfoldable pub frame_nonce : Bytes → ℕ → Option Bytes
frame_nonce prefix sequence =
    if not (length prefix == 4) || sequence == 0 then none else some (prefix ++ u64_bytes sequence)

unfoldable pub frame_aad : Bytes → ℕ → Bytes
frame_aad session_id sequence =
    codes "jitong-app-frame-v1"
    ++ (encode_len32 app_security_version ++ (session_id ++ u64_bytes sequence))

abbrev pub u64_max : ℕ
u64_max = 2 ^ 64 - 1

-- The four bytes of the type, and the payload.
abbrev pub business_text : ℕ → Bytes → Bytes
business_text type payload = encode_type32 type ++ payload

module _ (ssl : OpenSsl) (proto : Proto) where
  -- encryptBusinessFrame: the session counts the sequence up even where the encryption throws.
  abbrev sealed : Session → ℕ → Bytes → Option AesGcmResult
  sealed s type payload = elim (frame_nonce s.server_nonce_prefix (suc s.send_sequence)) [
    | none ↦ none
    | some nonce ↦
        aes256_gcm_encrypt ssl s.server_to_client_key nonce (business_text type payload)
          (frame_aad s.app_session_id (suc s.send_sequence))
  ]

  unfoldable pub encrypt_business_frame : Session → ℕ → Bytes → Option Bytes × Session
  encrypt_business_frame s type payload = if s.send_sequence == u64_max then (none, s) else (
    elim (sealed s type payload) [
      | none ↦ none
      | some r ↦ some (
          proto.serialize_frame (record {
            version = app_security_version;
            session_id = s.app_session_id;
            sequence = suc s.send_sequence;
            ciphertext = r.ciphertext;
            tag = r.tag;
          }))
    ],
    record s { send_sequence = suc s.send_sequence },
  )

  -- The first test of handleEncryptedFrame, on a frame that parses; `+ 1` wraps at 64 bits.
  abbrev pub frame_refused : Session → AppEncryptedFrame → Bool
  frame_refused s f =
      not (f.version == app_security_version)
      || not (constant_time_equal f.session_id s.app_session_id)
      || not (length f.tag == 16)
      || ltb (length f.ciphertext) 4
      || f.sequence == 0
      || not (f.sequence == (s.receive_sequence + 1) % 2 ^ 64)

  -- The text of a frame: `none` where a call throws or the tag does not fit.
  abbrev pub opened : Session → AppEncryptedFrame → Option Bytes
  opened s f = elim (frame_nonce s.client_nonce_prefix f.sequence) [
    | none ↦ none
    | some nonce ↦
        elim (aes256_gcm_decrypt ssl s.client_to_server_key nonce f.ciphertext
          (frame_aad s.app_session_id f.sequence) f.tag) [ none ↦ none | some text ↦ text ]
  ]

  -- The rest of handleEncryptedFrame, on the text.
  unfoldable pub accept_text : Session → ℕ → Option Bytes → Session
  accept_text s sequence none = fail s
  accept_text s sequence (some text) =
      if ltb (length text) 4
      then fail s
      else if within app_client_hello app_encrypted_frame (decode_type32 text)
      then fail s
      else record s {
        receive_sequence = sequence;
        dispatched = (decode_type32 text, drop 4 text) ∷ s.dispatched;
      }

  unfoldable pub accept_frame : Session → Option AppEncryptedFrame → Session
  accept_frame s none = fail s
  accept_frame s (some f) =
      if frame_refused s f then fail s else accept_text s f.sequence (opened s f)

  unfoldable pub handle_encrypted_frame : Session → Bytes → Session
  handle_encrypted_frame s payload = accept_frame s (proto.parse_frame payload)
