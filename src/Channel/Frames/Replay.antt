-- ===== src/Channel/Frames/Replay.antt =====
-- About handleEncryptedFrame of Session.cpp: its outcomes, and frames that come again.
use improject.Base.{
  [], suc, ◌^◌, ◌<◌, ◌≤◌, ◌∷◌, ◌++◌, Bool, true, false, ◌≡◌, ◌↔◌, refl, sym, subst, ◌∙◌, ap, Option,
  none, some, Bytes, arith, ltb, if◌then◌else◌, within, length, drop, bytes_eq_iff, length-append,
}
use improject.Wire.{decode_type32}
use improject.Crypto.{OpenSsl, constant_time_equal, aes256_gcm_decrypt}
use improject.Channel.State.{
  Session, Proto, AppEncryptedFrame, app_client_hello, app_encrypted_frame, app_security_version,
  fail,
}
use improject.Channel.Frames.{
  u64_bytes, frame_nonce, frame_aad, frame_refused, opened, accept_text, accept_frame,
  handle_encrypted_frame,
}

module _ (ssl : OpenSsl) (proto : Proto) where
  -- The frame is the next one of this session, in the clear: its number is one more than that of
  -- the last one, it names the session, and AES-GCM opens it, under the session's key and the number,
  -- to a text with a type that is not the channel's own.
  pub record NextFrame (s : Session) (f : AppEncryptedFrame) (text : Bytes) : Type 0 where
    pub version : f.version ≡ app_security_version
    pub session_id : f.session_id ≡ s.app_session_id
    pub sequence : f.sequence ≡ suc s.receive_sequence
    pub fits : f.sequence < 2 ^ 64
    pub lengths :
        (length s.client_to_server_key ≡ 32)
        × (length s.client_nonce_prefix ≡ 4)
        × (length f.tag ≡ 16)
        × (4 ≤ length f.ciphertext)
    pub opens :
        ssl.unseal s.client_to_server_key
          (s.client_nonce_prefix ++ u64_bytes f.sequence)
          f.ciphertext
          (frame_aad s.app_session_id f.sequence)
          f.tag
        ≡ some text
    pub typed : 4 ≤ length text
    pub foreign : within app_client_hello app_encrypted_frame (decode_type32 text) ≡ false

  -- What a payload leaves: it holds the next frame, whose packet is dispatched, or it does not, and
  -- the channel fails.
  pub data Accepted (s : Session) (payload : Bytes) : Session → Type 0 where
    accepted :
        (f : AppEncryptedFrame) (text : Bytes)
        → proto.parse_frame payload ≡ some f
        → NextFrame s f text
        → Accepted s payload (record s {
          receive_sequence = suc s.receive_sequence;
          dispatched = (decode_type32 text, drop 4 text) ∷ s.dispatched;
        })
    refused :
        ((f : AppEncryptedFrame) (text : Bytes)
          → proto.parse_frame payload ≡ some f
          → ¬ NextFrame s f text)
        → Accepted s payload (fail s)

  constant_time_equal_iff : (a b : Bytes) → (constant_time_equal a b ≡ true) ↔ (a ≡ b)
  unfolding constant_time_equal
  constant_time_equal_iff [] [] = ground arith
  constant_time_equal_iff [] (y ∷ ys) = ground arith
  constant_time_equal_iff (x ∷ xs) b = ground (arith, bytes_eq_iff (x ∷ xs) b)

  -- The tests let the next frame pass.
  tests-NextFrame :
      (s : Session) (f : AppEncryptedFrame) (text : Bytes)
      → NextFrame s f text
      → (frame_refused ssl proto s f ≡ false) × (opened ssl proto s f ≡ some text)
  unfolding frame_nonce aes256_gcm_decrypt u64_bytes
  tests-NextFrame s f text n = ground (
    arith,
    n.version,
    n.session_id,
    n.sequence,
    n.fits,
    n.lengths,
    n.opens,
    n.typed,
    constant_time_equal_iff f.session_id s.app_session_id,
    length-append s.client_nonce_prefix (u64_bytes f.sequence),
  )

  -- They let no other frame pass.
  NextFrame-tests :
      (s : Session) (f : AppEncryptedFrame) (text : Bytes)
      → s.receive_sequence < 2 ^ 64
      → frame_refused ssl proto s f ≡ false
      → opened ssl proto s f ≡ some text
      → ltb (length text) 4 ≡ false
      → within app_client_hello app_encrypted_frame (decode_type32 text) ≡ false
      → NextFrame s f text
  unfolding frame_nonce aes256_gcm_decrypt u64_bytes
  NextFrame-tests s f text b r o l w =
      ground (arith, constant_time_equal_iff f.session_id s.app_session_id)

  -- The outcome for a frame that parses, by its tests.
  accept_frame-Accepted :
      (s : Session) (payload : Bytes) (f : AppEncryptedFrame)
      → s.receive_sequence < 2 ^ 64
      → proto.parse_frame payload ≡ some f
      → Accepted s payload (accept_frame ssl proto s (some f))
  unfolding accept_frame accept_text
  accept_frame-Accepted s payload f b p =
      test (frame_refused ssl proto s f) (opened ssl proto s f) refl refl
    where
      same : (g : AppEncryptedFrame) → proto.parse_frame payload ≡ some g → f ≡ g
      same g q = cc

      -- Some test that the next frame passes has failed.
      no : ((text : Bytes) → ¬ NextFrame s f text) → Accepted s payload (fail s)
      no h = refused (λ g text q n. h text (subst (λ x. NextFrame s x text) (sym (same g q)) n))

      typed :
          (text : Bytes) (long own : Bool)
          → frame_refused ssl proto s f ≡ false
          → opened ssl proto s f ≡ some text
          → ltb (length text) 4 ≡ long
          → within app_client_hello app_encrypted_frame (decode_type32 text) ≡ own
          → Accepted s payload (
              if long then fail s else if own then fail s else record s {
                receive_sequence = f.sequence;
                dispatched = (decode_type32 text, drop 4 text) ∷ s.dispatched;
              })
      typed text true own r o l w =
          no (λ text' n. ground (arith, l, o, tests-NextFrame s f text' n, n.typed))
      typed text false true r o l w =
          no (λ text' n. ground (arith, w, o, tests-NextFrame s f text' n, n.foreign))
      typed text false false r o l w =
          let n = NextFrame-tests s f text b r o l w in
          subst
            (λ k. Accepted s payload (record s {
              receive_sequence = k;
              dispatched = (decode_type32 text, drop 4 text) ∷ s.dispatched;
            }))
            (sym n.sequence) (accepted f text p n)

      test :
          (b : Bool) (o : Option Bytes)
          → frame_refused ssl proto s f ≡ b
          → opened ssl proto s f ≡ o
          → Accepted s payload (if b then fail s else accept_text ssl proto s f.sequence o)
      test true o r e = no (λ text n. ground (arith, r, tests-NextFrame s f text n))
      test false none r e = no (λ text n. ground (arith, e, tests-NextFrame s f text n))
      test false (some text) r e =
          typed text (ltb (length text) 4)
            (within app_client_hello app_encrypted_frame (decode_type32 text)) r e refl refl

  -- Every branch of the handler, where the last accepted number fits 64 bits. A payload that holds
  -- the next frame of the session is accepted: its number is counted, and just its packet is
  -- dispatched. The next frame names the session, has the number after the last accepted one, and is
  -- opened by AES-GCM under the session's key and that number to a packet that is not the channel's
  -- own. With any other payload the channel fails.
  pub handle_encrypted_frame-Accepted :
      (s : Session) (payload : Bytes)
      → s.receive_sequence < 2 ^ 64
      → Accepted s payload (handle_encrypted_frame ssl proto s payload)
  unfolding handle_encrypted_frame accept_frame
  handle_encrypted_frame-Accepted s payload b = go (proto.parse_frame payload) refl
    where
      go :
          (f : Option AppEncryptedFrame)
          → proto.parse_frame payload ≡ f
          → Accepted s payload (accept_frame ssl proto s f)
      go none p = refused (λ f text q n. ground (arith, p, q))
      go (some f) p = accept_frame-Accepted s payload f b p

  -- A frame whose sequence number is not above the last one that was accepted is refused: the
  -- channel fails, and nothing is dispatched.
  pub handle_encrypted_frame-replay :
      (s : Session) (payload : Bytes) (f : AppEncryptedFrame)
      → proto.parse_frame payload ≡ some f
      → s.receive_sequence < 2 ^ 64
      → f.sequence ≤ s.receive_sequence
      → handle_encrypted_frame ssl proto s payload ≡ fail s
  unfolding handle_encrypted_frame accept_frame
  handle_encrypted_frame-replay s payload f p b h =
      ap (accept_frame ssl proto s) p
      ∙ ap (λ r. if r then fail s else accept_text ssl proto s f.sequence (opened ssl proto s f))
          stale
    where
      stale : frame_refused ssl proto s f ≡ true
      stale = ground arith
