-- ===== src/Channel/Frames/RoundTrip.antt =====
-- About encryptBusinessFrame and handleEncryptedFrame of Session.cpp at the two ends of a channel.
use improject.Base.{
  ℕ, suc, ◌^◌, ◌<◌, ◌∷◌, true, false, ◌≡◌, ◌∙◌, ap, some, Bytes, arith, if◌then◌else◌, within,
  length, bytes_eq_refl,
}
use improject.Wire.{encode_type32}
use improject.Wire.Frames.{decode_type32-encode_type32}
use improject.Crypto.{
  OpenSsl, Authentic, AesGcmResult, aes256_gcm_encrypt, aes256_gcm_decrypt, constant_time_equal,
}
use improject.Channel.State.{
  Session, Proto, AppEncryptedFrame, app_client_hello, app_encrypted_frame, app_security_version,
  fail,
}
use improject.Channel.Frames.{
  frame_nonce, frame_aad, business_text, frame_refused, opened, accept_text, accept_frame,
  handle_encrypted_frame, encrypt_business_frame,
}

-- The other end of a session: what it sends with is what the session reads with.
pub record Peer (p s : Session) : Type 0 where
  pub key : p.server_to_client_key ≡ s.client_to_server_key
  pub prefix : p.server_nonce_prefix ≡ s.client_nonce_prefix
  pub session_id : p.app_session_id ≡ s.app_session_id
  pub count : p.send_sequence ≡ s.receive_sequence

-- The frame that carries what was sealed.
abbrev sealed_frame : Session → AesGcmResult → AppEncryptedFrame
sealed_frame p r = record {
  version = app_security_version;
  session_id = p.app_session_id;
  sequence = suc p.send_sequence;
  ciphertext = r.ciphertext;
  tag = r.tag;
}

module _ (ssl : OpenSsl) (proto : Proto) where
  -- What encrypt_business_frame gives comes from a seal with a nonce of the session.
  sealed_of :
      (p : Session) (type : ℕ) (payload frame : Bytes)
      → p.send_sequence < 2 ^ 64
      → (encrypt_business_frame ssl proto p type payload).0 ≡ some frame
      → (nonce : Bytes) × (r : AesGcmResult) × (frame_nonce p.server_nonce_prefix
            (suc p.send_sequence)
          ≡ some nonce)
        × (aes256_gcm_encrypt ssl p.server_to_client_key nonce
              (business_text type payload)
              (frame_aad p.app_session_id (suc p.send_sequence))
            ≡ some r)
        × (frame ≡ proto.serialize_frame (sealed_frame p r))
        × (suc p.send_sequence < 2 ^ 64)
  unfolding encrypt_business_frame
  sealed_of p type payload frame b h = ground arith

  constant_time_equal_refl : (a : Bytes) → constant_time_equal a a ≡ true
  unfolding constant_time_equal
  constant_time_equal_refl a = ground (arith, bytes_eq_refl a)

  aes_lem :
      (key nonce text aad : Bytes) (r : AesGcmResult)
      → Authentic ssl
      → aes256_gcm_encrypt ssl key nonce text aad ≡ some r
      → (aes256_gcm_decrypt ssl key nonce r.ciphertext aad r.tag ≡ some (some text))
        × (length r.tag ≡ 16)
        × (length r.ciphertext ≡ length text)
  unfolding aes256_gcm_encrypt aes256_gcm_decrypt
  aes_lem key nonce text aad r law e = ground (arith, law.unseal-seal key nonce text aad r)

  opened_lem :
      (p s : Session) (type : ℕ) (payload nonce : Bytes) (r : AesGcmResult)
      → Authentic ssl
      → Peer p s
      → suc p.send_sequence < 2 ^ 64
      → frame_nonce p.server_nonce_prefix (suc p.send_sequence) ≡ some nonce
      → aes256_gcm_encrypt ssl p.server_to_client_key nonce
          (business_text type payload)
          (frame_aad p.app_session_id (suc p.send_sequence))
        ≡ some r
      → (opened ssl proto s (sealed_frame p r) ≡ some (business_text type payload))
        × (frame_refused ssl proto s (sealed_frame p r) ≡ false)
  unfolding encode_type32
  opened_lem p s type payload nonce r law peer b n e = ground (
    arith,
    aes_lem p.server_to_client_key nonce (business_text type payload)
        (frame_aad p.app_session_id (suc p.send_sequence)) r law e,
    constant_time_equal_refl s.app_session_id,
  )

  accept_text_lem :
      (s : Session) (n type : ℕ) (payload : Bytes)
      → type < 2 ^ 32
      → within app_client_hello app_encrypted_frame type ≡ false
      → accept_text ssl proto s n (some (business_text type payload))
        ≡ record s { receive_sequence = n; dispatched = (type, payload) ∷ s.dispatched }
  unfolding accept_text encode_type32
  accept_text_lem s n type payload small business =
      ground (arith, decode_type32-encode_type32 type payload small)

  -- What one end encrypts, the other end takes: when a session `p` encrypts a packet, and `s` is
  -- its other end and has accepted as many frames as `p` has sent, then `s` accepts the frame,
  -- counts it, and dispatches just that packet. The type must not be one of the channel's own. The
  -- payload's bytes are those of the message (the generated code parses what it serializes), and
  -- AES-GCM opens what it sealed.
  pub handle-encrypt_business_frame :
      (p s : Session) (type : ℕ) (payload frame : Bytes)
      → Authentic ssl
      → ((f : AppEncryptedFrame) → proto.parse_frame (proto.serialize_frame f) ≡ some f)
      → Peer p s
      → type < 2 ^ 32
      → p.send_sequence < 2 ^ 64
      → within app_client_hello app_encrypted_frame type ≡ false
      → (encrypt_business_frame ssl proto p type payload).0 ≡ some frame
      → handle_encrypted_frame ssl proto s frame ≡ record s {
        receive_sequence = suc p.send_sequence;
        dispatched = (type, payload) ∷ s.dispatched;
      }
  unfolding handle_encrypted_frame accept_frame
  handle-encrypt_business_frame p s type payload frame law parses peer small b business h =
      let (nonce, r, n, e, same, bound) = sealed_of p type payload frame b h in
      let (text, ok) = opened_lem p s type payload nonce r law peer bound n e in
      ap (handle_encrypted_frame ssl proto s) same
      ∙ ap (accept_frame ssl proto s) (parses (sealed_frame p r))
      ∙ ap
          (λ x.
            if x
            then fail s
            else accept_text ssl proto s (suc p.send_sequence)
                (opened ssl proto s (sealed_frame p r)))
          ok
      ∙ ap (accept_text ssl proto s (suc p.send_sequence)) text
      ∙ accept_text_lem s (suc p.send_sequence) type payload small business
