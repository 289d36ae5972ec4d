-- ===== src/Channel/Session/Closed.antt =====
-- About the steps of a Session that is closed.
use improject.Base.{true, false, ◌≡◌, refl, ◌∙◌, Option, arith, Bytes}
use improject.Crypto.{OpenSsl}
use improject.Channel.State.{
  closed, Session, Proto, Task, deliver_task, close_task, close_after_write_task, fail, on_closed,
  do_write, enqueue_raw_frame,
}
use improject.Channel.Handshake.{
  Identity, HelloDraw, handle_application_handshake, expect_handshake,
}
use improject.Channel.Session.{
  is_established, on_read_error, on_header, on_written, on_timer, handle_body, on_body, deliver_now,
  run_task, Step, handshake_done, read_failed, header_read, body_read, written, timer_fired,
  task_run, posts,
}

-- Closed, and with the packets of `s`.
pub record Shut (s t : Session) : Type 0 where
  pub stays : t.security ≡ closed
  pub silent : t.dispatched ≡ s.dispatched

module _ (ssl : OpenSsl) (proto : Proto) (identity : Identity) where
  -- Any number of steps of the event loop.
  pub data Later (s : Session) : Session → Type 0 where
    now : Later s s
    after : {t u : Session} → Later s t → Step ssl proto identity t u → Later s u

  handle_body-Shut :
      (draw : Option HelloDraw) (body : Bytes) (s : Session)
      → s.security ≡ closed
      → Shut s (on_body ssl proto identity draw body s)
  unfolding on_body handle_body handle_application_handshake expect_handshake fail is_established
  handle_body-Shut draw body s h = ground arith

  run_task-Shut :
      (task : Task) (s : Session)
      → s.security ≡ closed
      → Shut s (run_task ssl proto identity task s)
  unfolding run_task deliver_now enqueue_raw_frame do_write fail on_closed is_established
  run_task-Shut (deliver_task type payload) s h = ground arith
  run_task-Shut close_task s h = ground arith
  run_task-Shut close_after_write_task s h = ground arith

  Step-Shut : {s t : Session} → Step ssl proto identity s t → s.security ≡ closed → Shut s t
  unfolding on_read_error on_header on_written on_timer on_closed do_write fail is_established
  Step-Shut {s} (handshake_done ok e) h = ground arith
  Step-Shut {s} (read_failed e) h = ground arith
  Step-Shut {s} (header_read header e) h = ground arith
  Step-Shut {s} (body_read draw body e) h = handle_body-Shut draw body s h
  Step-Shut {s} (written true e) h = ground arith
  Step-Shut {s} (written false e) h = ground arith
  Step-Shut {s} (timer_fired e) h = ground arith
  Step-Shut {s} (task_run task rest e) h =
      let r = run_task-Shut task (record s { posted = rest }) h in
      record { stays = r.stays; silent = r.silent }
  Step-Shut {s} (posts task e) h = record { stays = h; silent = refl }

  -- From a closed session on, whatever the event loop does, the session stays closed and nothing
  -- more is dispatched.
  pub Later-Shut : {s t : Session} → Later s t → s.security ≡ closed → Shut s t
  Later-Shut now h = record { stays = h; silent = refl }
  Later-Shut (after later step) h =
      let r = Later-Shut later h in
      let r' = Step-Shut step r.stays in record { stays = r'.stays; silent = r'.silent ∙ r.silent }
