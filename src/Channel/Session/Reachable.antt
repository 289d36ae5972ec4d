-- ===== src/Channel/Session/Reachable.antt =====
-- About the states that the event loop of a Session can reach.
use improject.Base.{
  ℕ, suc, ◌+◌, ◌^◌, ◌<◌, ◌==◌, List, [], ◌∷◌, ◌++◌, Bool, true, false, not, ◌≡◌, refl, Option, none,
  some, Bytes, arith, if◌then◌else◌, within, drop, codes,
}
use improject.Crypto.{OpenSsl, ed25519_sign, x25519_shared_secret, hkdf_sha256}
use improject.Wire.{decode_type32}
use improject.Channel.State.{
  SecurityState, tls_handshake, wait_client_hello, wait_client_finished, established, closed,
  Session, Proto, AppEncryptedFrame, AppClientHello, app_client_hello, app_client_finished,
  app_server_finished, app_security_version, app_encrypted_frame, Task, deliver_task, close_task,
  close_after_write_task, fail, enqueue_raw_frame, started,
}
use improject.Channel.Frames.{
  frame_refused, u64_max, opened, accept_text, accept_frame, handle_encrypted_frame,
  encrypt_business_frame,
}
use improject.Channel.Handshake.{
  HelloDraw, Identity, signing_transcript, install_keys, derive_keys, answer_hello, accept_hello,
  handle_client_hello, accept_finished, handle_client_finished, expect_handshake,
  handle_application_handshake,
}
use improject.Channel.Session.{
  on_read_error, on_header, is_established, handle_body, on_body, send_encrypted, deliver_now,
  run_task, Step, handshake_done, read_failed, header_read, body_read, written, timer_fired,
  task_run, posts, Reach, here, next,
}
use improject.Channel.Session.Invariant.{
  Inv, established_of, if-Inv, Option-Inv, fail-Inv, on_closed-Inv, on_closed-Inv_after,
  enqueue-Inv, on_written-Inv, on_timer-Inv, on_handshake-Inv, session_id-Inv,
}

module _ (ssl : OpenSsl) (proto : Proto) where
  accept_text-Inv :
      (s : Session) (sequence : ℕ) (text : Option Bytes)
      → s.security ≡ established
      → sequence ≡ s.receive_sequence + 1
      → sequence < 2 ^ 64
      → Inv s
      → Inv (accept_text ssl proto s sequence text)
  unfolding accept_text
  accept_text-Inv s sequence none h e b v = fail-Inv s v
  accept_text-Inv s sequence (some text) h e b v = ground (arith, fail-Inv s v)

  -- A frame that passes the first test carries the number after the last one.
  pub frame_refused-next :
      (s : Session) (f : AppEncryptedFrame)
      → s.receive_sequence < 2 ^ 64
      → frame_refused ssl proto s f ≡ false
      → (f.sequence ≡ s.receive_sequence + 1) × (f.sequence < 2 ^ 64)
  frame_refused-next s f b h = ground arith

  accept_frame-Inv :
      (s : Session) (f : Option AppEncryptedFrame)
      → s.security ≡ established
      → Inv s
      → Inv (accept_frame ssl proto s f)
  unfolding accept_frame
  accept_frame-Inv s none h v = fail-Inv s v
  accept_frame-Inv s (some f) h v =
      if-Inv (frame_refused ssl proto s f) (fail s)
        (accept_text ssl proto s f.sequence (opened ssl proto s f)) (fail-Inv s v)
        (λ e.
          let (next_one, small) = frame_refused-next s f v.bounded e in
          accept_text-Inv s f.sequence (opened ssl proto s f) h next_one small v)

  handle_encrypted_frame-Inv :
      (s : Session) (payload : Bytes)
      → s.security ≡ established
      → Inv s
      → Inv (handle_encrypted_frame ssl proto s payload)
  unfolding handle_encrypted_frame
  handle_encrypted_frame-Inv s payload h v = accept_frame-Inv s (proto.parse_frame payload) h v

  module _ (identity : Identity) where
    install_keys-Inv :
        (material server_payload : Bytes) (s : Session)
        → s.security ≡ wait_client_hello
        → Inv s
        → Inv (install_keys ssl proto identity material server_payload s)
    unfolding install_keys
    install_keys-Inv material server_payload s h v = ground arith

    derive_keys-Inv :
        (hello : AppClientHello) (draw : HelloDraw) (server_payload : Bytes) (s : Session)
        → s.security ≡ wait_client_hello
        → Inv s
        → Inv (derive_keys ssl proto identity hello draw server_payload s)
    unfolding derive_keys
    derive_keys-Inv hello draw server_payload s h v =
        Option-Inv (x25519_shared_secret ssl draw.private_key hello.client_ephemeral_public_key)
          (fail s) _ (fail-Inv s v)
          (λ shared.
            Option-Inv
              (hkdf_sha256 ssl shared (ssl.digest (hello.client_nonce ++ draw.server_nonce))
                (codes "jitong-app-channel-v1" ++ (s.app_session_id ++ s.transcript_hash)) 136)
              (fail s) _ (fail-Inv s v)
              (λ material. install_keys-Inv material server_payload s h v))

    answer_hello-Inv :
        (hello : AppClientHello) (payload : Bytes) (draw : HelloDraw) (s : Session)
        → s.security ≡ wait_client_hello
        → Inv s
        → Inv (answer_hello ssl proto identity hello payload draw s)
    unfolding answer_hello
    answer_hello-Inv hello payload draw s h v =
        Option-Inv
          (ed25519_sign ssl identity.private_key (
            signing_transcript payload app_security_version draw.public_key draw.server_nonce
              draw.session_id identity.key_id 1))
          (fail (record s { app_session_id = draw.session_id })) _
          (ground (arith, fail-Inv (record s { app_session_id = draw.session_id })))
          (λ signature. derive_keys-Inv hello draw _ _ h (session_id-Inv s _ draw.session_id v))

    accept_finished-Inv :
        (actual : Option Bytes) (s : Session)
        → s.security ≡ wait_client_finished
        → Inv s
        → Inv (accept_finished ssl proto identity actual s)
    unfolding accept_finished
    accept_finished-Inv none s h v = fail-Inv s v
    accept_finished-Inv (some actual) s h v = ground (arith, fail-Inv s v)

    accept_hello-Inv :
        (hello : Option AppClientHello) (payload : Bytes) (draw : Option HelloDraw) (s : Session)
        → s.security ≡ wait_client_hello
        → Inv s
        → Inv (accept_hello ssl proto identity hello payload draw s)
    unfolding accept_hello
    accept_hello-Inv none payload draw s h v = fail-Inv s v
    accept_hello-Inv (some hello) payload none s h v = fail-Inv s v
    accept_hello-Inv (some hello) payload (some draw) s h v =
        if-Inv _ (fail s) (answer_hello ssl proto identity hello payload draw s) (fail-Inv s v)
          (λ e. answer_hello-Inv hello payload draw s h v)

    expect_handshake-Inv :
        (state : SecurityState) (draw : Option HelloDraw) (type : ℕ) (payload : Bytes) (s : Session)
        → s.security ≡ state
        → Inv s
        → Inv (expect_handshake ssl proto identity state draw type payload s)
    unfolding expect_handshake handle_client_hello handle_client_finished
    expect_handshake-Inv wait_client_hello draw type payload s h v =
        if-Inv (type == app_client_hello)
          (accept_hello ssl proto identity (proto.parse_client_hello payload) payload draw s)
          (fail s) (accept_hello-Inv (proto.parse_client_hello payload) payload draw s h v)
          (λ e. fail-Inv s v)
    expect_handshake-Inv wait_client_finished draw type payload s h v =
        if-Inv (type == app_client_finished)
          (accept_finished ssl proto identity (proto.parse_finished payload) s) (fail s)
          (accept_finished-Inv (proto.parse_finished payload) s h v) (λ e. fail-Inv s v)
    expect_handshake-Inv tls_handshake draw type payload s h v = fail-Inv s v
    expect_handshake-Inv established draw type payload s h v = fail-Inv s v
    expect_handshake-Inv closed draw type payload s h v = fail-Inv s v

    handle_handshake-Inv :
        (draw : Option HelloDraw) (type : ℕ) (payload : Bytes) (s : Session)
        → Inv s
        → Inv (handle_application_handshake ssl proto identity draw type payload s)
    unfolding handle_application_handshake
    handle_handshake-Inv draw type payload s v =
        if-Inv _ (fail s) (expect_handshake ssl proto identity s.security draw type payload s)
          (fail-Inv s v) (λ e. expect_handshake-Inv s.security draw type payload s refl v)

    handle_body-Inv :
        (draw : Option HelloDraw) (body : Bytes) (s : Session)
        → Inv s
        → Inv (handle_body ssl proto identity draw body s)
    unfolding handle_body
    handle_body-Inv draw body s v =
        if-Inv (not (is_established s.security)) _ _
          (handle_handshake-Inv draw (decode_type32 body) (drop 4 body) s v)
          (λ e.
            if-Inv _ (fail s) (handle_encrypted_frame ssl proto s (drop 4 body)) (fail-Inv s v)
              (λ e'. handle_encrypted_frame-Inv s (drop 4 body) (established_of s e) v))

    reading-Inv : (s : Session) (r : Bool) → Inv s → Inv (record s { reading = r })
    reading-Inv s r v = ground arith

    on_body-Inv :
        (draw : Option HelloDraw) (body : Bytes) (s : Session)
        → Inv s
        → Inv (on_body ssl proto identity draw body s)
    unfolding on_body
    on_body-Inv draw body s v =
        let after =
          handle_body-Inv draw body (record s { reading = false }) (reading-Inv s false v) in
        if-Inv _ _ _ after (λ e. reading-Inv _ true after)

    on_header-Inv : (header : Bytes) (s : Session) → Inv s → Inv (on_header header s)
    unfolding on_header
    on_header-Inv header s v =
        if-Inv _ _ s (on_closed-Inv_after s s.writes false (omega arith) v) (λ e. v)

    send_sequence-Inv : (s : Session) (n : ℕ) → Inv s → Inv (record s { send_sequence = n })
    send_sequence-Inv s n v = ground arith

    send_encrypted-Inv :
        (frame : Option Bytes) (s : Session)
        → Inv s
        → Inv (send_encrypted ssl proto identity (frame, s))
    send_encrypted-Inv none s v = fail-Inv s v
    send_encrypted-Inv (some payload) s v = enqueue-Inv app_encrypted_frame payload s v

    encrypt-Inv :
        (type : ℕ) (payload : Bytes) (s : Session)
        → Inv s
        → Inv (send_encrypted ssl proto identity (encrypt_business_frame ssl proto s type payload))
    unfolding encrypt_business_frame
    encrypt-Inv type payload s v =
        if_send (s.send_sequence == u64_max) (none, s) _ (fail-Inv s v)
          (send_encrypted-Inv _ _ (send_sequence-Inv s (suc s.send_sequence) v))
      where
        if_send :
            (b : Bool) (x y : Option Bytes × Session)
            → Inv (send_encrypted ssl proto identity x)
            → Inv (send_encrypted ssl proto identity y)
            → Inv (send_encrypted ssl proto identity (if b then x else y))
        if_send true x y u w = u
        if_send false x y u w = w

    deliver_now-Inv :
        (type : ℕ) (payload : Bytes) (s : Session)
        → Inv s
        → Inv (deliver_now ssl proto identity type payload s)
    unfolding deliver_now
    deliver_now-Inv type payload s v =
        let sent =
          send_encrypted ssl proto identity (encrypt_business_frame ssl proto s type payload) in
        let unready = not (is_established s.security) in
        if-Inv (within app_client_hello app_server_finished type) (enqueue_raw_frame type payload s)
          (if unready then fail s else sent) (enqueue-Inv type payload s v)
          (λ e. if-Inv unready (fail s) sent (fail-Inv s v) (λ e'. encrypt-Inv type payload s v))

    run_task-Inv : (task : Task) (s : Session) → Inv s → Inv (run_task ssl proto identity task s)
    unfolding run_task
    run_task-Inv (deliver_task type payload) s v = deliver_now-Inv type payload s v
    run_task-Inv close_task s v = on_closed-Inv s v
    run_task-Inv close_after_write_task s v = ground arith

    posted-Inv : (s : Session) (tasks : List Task) → Inv s → Inv (record s { posted = tasks })
    posted-Inv s tasks v = ground arith

    Step-Inv : {s t : Session} → Step ssl proto identity s t → Inv s → Inv t
    unfolding on_read_error
    Step-Inv {s} (handshake_done ok h) v = on_handshake-Inv ok s h v
    Step-Inv {s} (read_failed h) v = on_closed-Inv_after s s.writes false (omega arith) v
    Step-Inv {s} (header_read header h) v = on_header-Inv header s v
    Step-Inv {s} (body_read draw body h) v = on_body-Inv draw body s v
    Step-Inv {s} (written ok h) v = on_written-Inv ok s v h
    Step-Inv {s} (timer_fired h) v = on_timer-Inv s v
    Step-Inv {s} (task_run task rest h) v =
        run_task-Inv task (record s { posted = rest }) (posted-Inv s rest v)
    Step-Inv {s} (posts task h) v = posted-Inv s (s.posted ++ task ∷ []) v

    started-Inv : Inv started
    started-Inv = ground arith

    -- In every state that the event loop can reach from a new connection: nothing has been
    -- dispatched unless the session is established, or closed; while it is not closed, the packets
    -- it has dispatched are as many as the last accepted sequence number, which fits 64 bits; no
    -- message of the channel itself is dispatched; the server is told at most once that the session
    -- is closed, and only when it is; never are two async_writes outstanding, nor one for an empty
    -- queue; and until the server is told, one is outstanding while a buffer waits.
    pub Reach-Inv : {s : Session} → Reach ssl proto identity s → Inv s
    Reach-Inv here = started-Inv
    Reach-Inv (next r step) = Step-Inv step (Reach-Inv r)
