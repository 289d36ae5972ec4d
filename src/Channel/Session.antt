-- ===== src/Channel/Session.antt =====
-- Session.cpp: the callbacks of the connection, and the steps that an event loop takes with them.
pub mod Invariant
pub mod Reachable
pub mod Closed
use improject.Base.{
  ℕ, ◌-◌, List, [], ◌∷◌, ◌++◌, Bool, true, false, not, ◌&&◌, ◌||◌, ◌≡◌, ◌≢◌, Option, none, some,
  Bytes, ◌==◌, ltb, leb, within, if◌then◌else◌, length, drop, is_empty,
}
use improject.Wire.{decode_len32, decode_type32, max_pack_len}
use improject.Crypto.{OpenSsl}
use improject.Channel.State.{
  SecurityState, tls_handshake, wait_client_hello, established, Session, Proto, Task, deliver_task,
  close_task, close_after_write_task, app_client_hello, app_server_finished, app_encrypted_frame,
  post, is_closed, fail, on_closed, do_write, enqueue_raw_frame, started,
}
use improject.Channel.Frames.{encrypt_business_frame, handle_encrypted_frame}
use improject.Channel.Handshake.{HelloDraw, Identity, handle_application_handshake}

unfoldable pub is_established : SecurityState → Bool
is_established established = true
is_established tls_handshake = false
is_established wait_client_hello = false
is_established SecurityState.wait_client_finished = false
is_established SecurityState.closed = false

-- The callback of async_handshake; true is success.
unfoldable pub on_handshake : Bool → Session → Session
on_handshake false s = on_closed s
on_handshake true s = record s { security = wait_client_hello; timer = true; reading = true }

-- A read that ends with an error.
unfoldable pub on_read_error : Session → Session
on_read_error s = on_closed (record s { reading = false })

-- The callback of doReadHeader: the read of the body follows, and stays outstanding.
unfoldable pub on_header : Bytes → Session → Session
on_header header s =
    let body_len = decode_len32 header in
    if ltb body_len 4 || ltb max_pack_len body_len
    then on_closed (record s { reading = false })
    else s

-- The callback of async_write; true is success.
unfoldable pub on_written : Bool → Session → Session
on_written false s = on_closed (record s { writes = s.writes - 1 })
on_written true s = elim s.write_queue [
  | [] ↦ record s { writes = s.writes - 1 }
  | front ∷ rest ↦ elim rest [
    | [] ↦
        let s' : Session = record s { write_queue = []; writes = s.writes - 1 } in
        if s.close_after_write then post close_task s' else s'
    | next ∷ others ↦ do_write (record s { write_queue = next ∷ others; writes = s.writes - 1 })
  ]
]

-- The callback of the handshake timer, when it is not cancelled.
unfoldable pub on_timer : Session → Session
unfolding is_established
on_timer s =
    let s' : Session = record s { timer = false } in
    if is_established s.security then s' else fail s'

module _ (ssl : OpenSsl) (proto : Proto) (identity : Identity) where
  -- What doReadBody does with the body, before it reads on.
  unfoldable pub handle_body : Option HelloDraw → Bytes → Session → Session
  unfolding is_established
  handle_body draw body s =
      if not (is_established s.security)
      then handle_application_handshake ssl proto identity draw (decode_type32 body) (drop 4 body) s
      else if not (decode_type32 body == app_encrypted_frame)
      then fail s
      else handle_encrypted_frame ssl proto s (drop 4 body)

  -- The callback of doReadBody: reading goes on unless the session is closed.
  unfoldable pub on_body : Option HelloDraw → Bytes → Session → Session
  unfolding handle_body
  on_body draw body s =
      let s' = handle_body draw body (record s { reading = false }) in
      if is_closed s'.security then s' else record s' { reading = true }

  abbrev send_encrypted : Option Bytes × Session → Session
  send_encrypted (none, s) = fail s
  send_encrypted (some payload, s) = enqueue_raw_frame app_encrypted_frame payload s

  -- What deliver posts.
  unfoldable pub deliver_now : ℕ → Bytes → Session → Session
  unfolding is_established
  deliver_now type payload s =
      if within app_client_hello app_server_finished type
      then enqueue_raw_frame type payload s
      else if not (is_established s.security)
      then fail s
      else send_encrypted (encrypt_business_frame ssl proto s type payload)

  -- A task of the strand: the body of deliver, of close, of closeAfterWrite.
  unfoldable pub run_task : Task → Session → Session
  unfolding deliver_now
  run_task (deliver_task type payload) s = deliver_now type payload s
  run_task close_task s = on_closed s
  run_task close_after_write_task s =
      let s' : Session = record s { close_after_write = true } in
      if is_empty s.write_queue then post close_task s' else s'

  -- The steps of the event loop: a callback runs only while its operation is outstanding, the
  -- strand runs its tasks in order, and other threads may post at any time after the TLS
  -- handshake: before that no thread but the session's own knows it.
  pub data Step (s : Session) : Session → Type 0 where
    handshake_done : (ok : Bool) → s.security ≡ tls_handshake → Step s (on_handshake ok s)
    read_failed : s.reading ≡ true → Step s (on_read_error s)
    header_read : (header : Bytes) → s.reading ≡ true → Step s (on_header header s)
    body_read :
        (draw : Option HelloDraw) (body : Bytes) → s.reading ≡ true → Step s (on_body draw body s)
    written : (ok : Bool) → s.writes ≢ 0 → Step s (on_written ok s)
    timer_fired : s.timer ≡ true → Step s (on_timer s)
    task_run :
        (task : Task) (rest : List Task)
        → s.posted ≡ task ∷ rest
        → Step s (run_task task (record s { posted = rest }))
    posts : (task : Task) → s.security ≢ tls_handshake → Step s (post task s)

  pub data Reach : Session → Type 0 where
    here : Reach started
    next : {s t : Session} → Reach s → Step s t → Reach t
