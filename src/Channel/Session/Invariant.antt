-- ===== src/Channel/Session/Invariant.antt =====
-- About the state of a Session: the invariant, and the callbacks one by one.
use improject.Base.{
  ℕ, ◌-◌, ◌^◌, ◌<◌, ◌≤◌, [], Bool, true, false, not, ◌≡◌, ◌≢◌, refl, ◌⊎◌, Option, none, some, Bytes,
  arith, if◌then◌else◌, within, length, is_empty, All, false≢true, sym,
}
use improject.Channel.State.{
  SecurityState, tls_handshake, wait_client_hello, wait_client_finished, established, closed,
  Session, app_client_hello, app_encrypted_frame, fail, on_closed, do_write, enqueue_raw_frame,
}
use improject.Channel.Session.{on_handshake, on_written, on_timer, is_established}

-- An inner type that is not one of the secure channel's own.
abbrev pub IsBusiness : ℕ × Bytes → Type 0
IsBusiness p = within app_client_hello app_encrypted_frame p.0 ≡ false

pub record Inv (s : Session) : Type 0 where
  -- Nothing is dispatched before the channel is established.
  pub secure : (s.security ≡ established) ⊎ (s.security ≡ closed) ⊎ (s.dispatched ≡ [])
  -- Until it is closed, the session has dispatched one packet for each sequence number.
  pub counted : (s.security ≡ closed) ⊎ (length s.dispatched ≡ s.receive_sequence)
  pub bounded : s.receive_sequence < 2 ^ 64
  -- No message of the channel itself is dispatched.
  pub business : All IsBusiness s.dispatched
  -- The server is told once that the session is closed.
  pub once : s.notified ≡ (if s.closed_notified then 1 else 0)
  pub told_closed : (s.closed_notified ≡ false) ⊎ (s.security ≡ closed)
  -- Never are two async_writes outstanding, and none while the queue is empty.
  pub at_most_one : s.writes ≤ (if is_empty s.write_queue then 0 else 1)
  -- Until the server is told, one is outstanding while the queue holds a buffer.
  pub one_write : (s.closed_notified ≡ true) ⊎ (is_empty s.write_queue ≡ true) ⊎ (s.writes ≡ 1)

pub is_established-true :
    (state : SecurityState) → not (is_established state) ≡ false → state ≡ established
unfolding is_established
is_established-true established h = refl
is_established-true tls_handshake h = false≢true (sym h)
is_established-true wait_client_hello h = false≢true (sym h)
is_established-true wait_client_finished h = false≢true (sym h)
is_established-true closed h = false≢true (sym h)

pub established_of :
    (s : Session) → not (is_established s.security) ≡ false → s.security ≡ established
established_of s h = is_established-true s.security h

pub if-Inv : (b : Bool) (x y : Session) → Inv x → (b ≡ false → Inv y) → Inv (if b then x else y)
if-Inv true x y u w = u
if-Inv false x y u w = w refl

pub Option-Inv {ℓ} :
    {A : Type ℓ} (o : Option A) (x : Session) (f : A → Session)
    → Inv x
    → ((a : A) → Inv (f a))
    → Inv (elim o [ none ↦ x | some a ↦ f a ])
Option-Inv none x f u w = u
Option-Inv (some a) x f u w = w a

pub fail-Inv : (s : Session) → Inv s → Inv (fail s)
unfolding fail
fail-Inv s v = ground arith

pub on_closed-Inv : (s : Session) → Inv s → Inv (on_closed s)
unfolding on_closed
on_closed-Inv s v = ground arith

-- The same for a session whose one outstanding operation has just ended in an error.
pub on_closed-Inv_after :
    (s : Session) (n : ℕ) (r : Bool)
    → n ≤ s.writes
    → Inv s
    → Inv (on_closed (record s { writes = n; reading = r }))
unfolding on_closed
on_closed-Inv_after s n r h v = ground arith

-- Only what no field of Inv reads changes.
pub session_id-Inv :
    (s : Session) (hash id : Bytes)
    → Inv s
    → Inv (record s { app_session_id = id; transcript_hash = hash })
session_id-Inv s hash id v = ground arith

pub enqueue-Inv :
    (type : ℕ) (payload : Bytes) (s : Session) → Inv s → Inv (enqueue_raw_frame type payload s)
unfolding enqueue_raw_frame
enqueue-Inv type payload s v = ground arith

pub on_written-Inv : (ok : Bool) (s : Session) → Inv s → s.writes ≢ 0 → Inv (on_written ok s)
unfolding on_written do_write
on_written-Inv true s v h = ground arith
on_written-Inv false s v h = on_closed-Inv_after s (s.writes - 1) s.reading (omega arith) v

pub on_timer-Inv : (s : Session) → Inv s → Inv (on_timer s)
unfolding on_timer
on_timer-Inv s v = ground (arith, fail-Inv (record s { timer = false }))

pub on_handshake-Inv :
    (ok : Bool) (s : Session) → s.security ≡ tls_handshake → Inv s → Inv (on_handshake ok s)
unfolding on_handshake
on_handshake-Inv true s h v = ground arith
on_handshake-Inv false s h v = on_closed-Inv s v
