-- ===== src/Examples/Channels.antt =====
-- A connection with a toy cipher and a toy wire format of the messages.
use improject.Base.{
  ℕ, [], ◌∷◌, ◌++◌, true, ◌≡◌, refl, Option, none, some, Bytes, arith, replicate, take, drop,
  length, take-append, drop-append,
}
use improject.Crypto.{OpenSsl, Authentic}
use improject.Crypto.Hkdf.{length-hkdf_sha256}
use improject.Crypto.{hkdf_sha256}
use improject.Channel.State.{Session, Proto, AppEncryptedFrame, established, fail, started}
use improject.Channel.Frames.{encrypt_business_frame, handle_encrypted_frame, business_text}
use improject.Channel.Frames.Replay.{
  Accepted, handle_encrypted_frame-Accepted, handle_encrypted_frame-replay,
}
use improject.Channel.Frames.RoundTrip.{handle-encrypt_business_frame}
use improject.Channel.Handshake.{Identity}
use improject.Channel.Session.{on_handshake, on_body, handshake_done, body_read, here, next}
use improject.Channel.Session.Invariant.{Inv}
use improject.Channel.Session.Reachable.{Reach-Inv}
use improject.Channel.Session.Closed.{Shut, now, after, Later-Shut}
use improject.Channel.Session.{on_timer, timer_fired}
use improject.Channel.State.{closed}

abbrev toy_ssl : OpenSsl
toy_ssl = record {
  hmac = λ key text. replicate 32 0;
  digest = λ text. text;
  derive = λ private_key public_key. some (replicate 32 1);
  sign = λ key text. some text;
  seal = λ key nonce text aad. some (record { ciphertext = text; tag = replicate 16 0 });
  unseal = λ key nonce ciphertext aad tag. some ciphertext;
}

toy_ssl-Authentic : Authentic toy_ssl
toy_ssl-Authentic = record { unseal-seal = λ key nonce text aad r e. ground arith }

abbrev parse : Bytes → Option AppEncryptedFrame
parse (version ∷ sequence ∷ n ∷ k ∷ rest) = some (record {
  version = version;
  session_id = take n rest;
  sequence = sequence;
  ciphertext = drop k (drop n rest);
  tag = take k (drop n rest);
})
parse _ = none

abbrev toy_proto : Proto
toy_proto = record {
  parse_client_hello = λ payload. none;
  parse_finished = λ payload. some payload;
  parse_frame = parse;
  serialize_server_hello = λ hello. hello.signature;
  serialize_finished = λ text. text;
  serialize_frame = λ f.
      f.version
      ∷ f.sequence
      ∷ length f.session_id
      ∷ length f.tag
      ∷ (f.session_id ++ (f.tag ++ f.ciphertext));
}

toy_proto-parses :
    (f : AppEncryptedFrame) → toy_proto.parse_frame (toy_proto.serialize_frame f) ≡ some f
toy_proto-parses f = ground (
  arith,
  take-append f.session_id (f.tag ++ f.ciphertext),
  drop-append f.session_id (f.tag ++ f.ciphertext),
  take-append f.tag f.ciphertext,
  drop-append f.tag f.ciphertext,
)

abbrev identity : Identity
identity = record { private_key = replicate 32 9; key_id = 1 }

-- Both ends of a channel whose two directions share a key, after three frames each way.
abbrev opened_session : Session
opened_session = record started {
  security = established;
  client_to_server_key = replicate 32 7;
  server_to_client_key = replicate 32 7;
  client_nonce_prefix = replicate 4 3;
  server_nonce_prefix = replicate 4 3;
  app_session_id = replicate 16 5;
  send_sequence = 3;
  receive_sequence = 3;
  dispatched = (1005, []) ∷ (1005, []) ∷ (1005, []) ∷ [];
  reading = true;
}

abbrev frame_with : ℕ → AppEncryptedFrame
frame_with sequence = record {
  version = 1;
  session_id = replicate 16 5;
  sequence = sequence;
  ciphertext = 237 ∷ 3 ∷ 0 ∷ 0 ∷ 104 ∷ 105 ∷ [];
  tag = replicate 16 0;
}

Reach-Inv_example :
    Inv (on_body toy_ssl toy_proto identity none (12 ∷ 4 ∷ 0 ∷ 0 ∷ []) (on_handshake true started))
unfolding on_handshake
Reach-Inv_example =
    Reach-Inv toy_ssl toy_proto identity
      {s = on_body toy_ssl toy_proto identity none (12 ∷ 4 ∷ 0 ∷ 0 ∷ [])
        (on_handshake true started)}
      (next (next here (handshake_done true refl)) (body_read none (12 ∷ 4 ∷ 0 ∷ 0 ∷ []) refl))

handle_encrypted_frame-replay_example :
    handle_encrypted_frame toy_ssl toy_proto opened_session
      (toy_proto.serialize_frame (frame_with 3))
    ≡ fail opened_session
handle_encrypted_frame-replay_example =
    handle_encrypted_frame-replay toy_ssl toy_proto opened_session
      (toy_proto.serialize_frame (frame_with 3)) (frame_with 3) refl (omega arith) (omega arith)

handle-encrypt_business_frame_example :
    handle_encrypted_frame toy_ssl toy_proto opened_session
      (toy_proto.serialize_frame (frame_with 4))
    ≡ record opened_session {
      receive_sequence = 4;
      dispatched = (1005, 104 ∷ 105 ∷ []) ∷ opened_session.dispatched;
    }
unfolding encrypt_business_frame improject.Channel.Frames.frame_nonce
    improject.Crypto.aes256_gcm_encrypt improject.Channel.Frames.u64_bytes
    improject.Wire.encode_type32
handle-encrypt_business_frame_example =
    handle-encrypt_business_frame toy_ssl toy_proto opened_session opened_session 1005
      (104 ∷ 105 ∷ []) (toy_proto.serialize_frame (frame_with 4)) toy_ssl-Authentic toy_proto-parses
      (record { key = refl; prefix = refl; session_id = refl; count = refl }) (omega arith)
      (omega arith) refl refl

handle_encrypted_frame-Accepted_example :
    Accepted toy_ssl toy_proto opened_session (toy_proto.serialize_frame (frame_with 4)) (
      handle_encrypted_frame toy_ssl toy_proto opened_session
        (toy_proto.serialize_frame (frame_with 4)))
handle_encrypted_frame-Accepted_example =
    handle_encrypted_frame-Accepted toy_ssl toy_proto opened_session
      (toy_proto.serialize_frame (frame_with 4)) (omega arith)

length-hkdf_sha256_example :
    (output : Bytes) × (hkdf_sha256 toy_ssl (replicate 32 1) [] [] 136 ≡ some output)
    × (length output ≡ 136)
length-hkdf_sha256_example =
    length-hkdf_sha256 toy_ssl (λ key text. refl) (replicate 32 1) [] [] 136 (omega arith)

-- A session that a refused frame has closed, with its timer still running.
abbrev closed_session : Session
closed_session = record opened_session { security = closed; timer = true }

Later-Shut_example : Shut closed_session (on_timer closed_session)
Later-Shut_example =
    Later-Shut toy_ssl toy_proto identity {s = closed_session} {t = on_timer closed_session}
      (after now (timer_fired refl)) refl
