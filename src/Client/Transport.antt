-- ===== src/Client/Transport.antt =====
-- client_core/src/TcpTransport.cpp behind connect: the tasks of its io_context, the queue of what is
-- to be written, and the two loops of asynchronous reads and writes. The socket and TLS are not
-- looked at; a Boolean stands for an error_code that is set.
pub mod Writes
use improject.Base.{
  ℕ, suc, ◌-◌, List, [], ◌∷◌, ◌++◌, Bool, true, false, ◌||◌, Option, none, some, Bytes, ◌≡◌, ◌≢◌,
  ◌==◌, ltb, length, if◌then◌else◌,
}
use improject.Wire.{client_send, max_pack_len}

-- What is posted: the task of send, and that of close.
pub data Task : Type 0 where
  queue_frame : Bytes → Task
  close_socket : Task

-- The read that is outstanding.
pub data Reading : Type 0 where
  header : Reading
  body : ℕ → Reading
  stopped : Reading

-- The fields of TcpTransport, the tasks that have not run, the number of outstanding writes and of
-- calls of m_onClose, and in their order the frames that were posted, those that are written, and the
-- packets handed on.
pub record Transport : Type 0 where
  pub is_open : Bool
  pub notified : Bool
  pub closing : Bool
  pub socket_closed : Bool
  pub write_queue : List Bytes
  pub tasks : List Task
  pub reading : Reading
  pub writes : ℕ
  pub closes : ℕ
  pub accepted : List Bytes
  pub written : List Bytes
  pub packets : List Bytes

-- Where connect has returned true.
unfoldable pub connected : Transport
connected = record {
  is_open = true;
  notified = false;
  closing = false;
  socket_closed = false;
  write_queue = [];
  tasks = [];
  reading = header;
  writes = 0;
  closes = 0;
  accepted = [];
  written = [];
  packets = [];
}

unfoldable pub notify_close : Transport → Transport
notify_close t = elim t.notified [
  | true ↦ record t { is_open = false }
  | false ↦ record t { is_open = false; notified = true; closes = suc t.closes }
]

-- send on any thread: `was_open` is what m_open held at its test, which may be some time ago.
unfoldable pub send : Bool → Bytes → Transport → Transport
send was_open data_bytes t = elim (client_send was_open data_bytes) [
  | none ↦ t
  | some buf ↦ record t {
    tasks = t.tasks ++ queue_frame buf ∷ [];
    accepted = t.accepted ++ buf ∷ [];
  }
]

unfoldable pub do_write : Transport → Transport
do_write t = record t { writes = suc t.writes }

-- The task at the front, which has been taken out of `tasks`.
unfoldable pub run_task : Task → Transport → Transport
unfolding do_write
run_task (queue_frame buf) t = elim t.write_queue [
  | [] ↦ do_write (record t { write_queue = buf ∷ [] })
  | first ∷ rest ↦ record t { write_queue = first ∷ rest ++ buf ∷ [] }
]
run_task close_socket t = elim t.write_queue [
  | [] ↦ record t { socket_closed = true }
  | first ∷ rest ↦ record t { closing = true }
]

unfoldable pub next_task : Transport → Transport
unfolding run_task
next_task t = elim t.tasks [ [] ↦ t | task ∷ rest ↦ run_task task (record t { tasks = rest }) ]

-- Behind pop_front: the next write, or the close that has waited for the queue.
unfoldable pub write_on : List Bytes → Transport → Transport
unfolding do_write
write_on [] t = record t { socket_closed = t.closing || t.socket_closed }
write_on (second ∷ rest) t = do_write t

-- The handler of async_write. (No write is outstanding for an empty queue, where pop_front would have
-- no meaning.)
unfoldable pub on_written : Bool → Transport → Transport
unfolding notify_close write_on
on_written true t = notify_close (record t { writes = t.writes - 1 })
on_written false t = elim t.write_queue [
  | [] ↦ record t { writes = t.writes - 1 }
  | first ∷ rest ↦
      write_on rest
        (record t { writes = t.writes - 1; write_queue = rest; written = t.written ++ first ∷ [] })
]

-- The handler of doReadHeader's async_read, with decodeLen32 of what came.
unfoldable pub on_header : Bool → ℕ → Transport → Transport
unfolding notify_close
on_header failed body_len t =
    if failed || body_len == 0 || ltb max_pack_len body_len
    then notify_close (record t { reading = stopped })
    else record t { reading = body body_len }

unfoldable pub on_body : Bool → Bytes → Transport → Transport
unfolding notify_close
on_body true bytes t = notify_close (record t { reading = stopped })
on_body false bytes t = record t { reading = header; packets = t.packets ++ bytes ∷ [] }

-- close, up to the join: the task is posted by the call that finds the connection open.
unfoldable pub begin_close : Transport → Transport
begin_close t = elim t.is_open [
  | false ↦ t
  | true ↦ record t { is_open = false; tasks = t.tasks ++ close_socket ∷ [] }
]

-- What the threads and the event loop do. A handler of a write needs an outstanding write, and a body
-- has the length that was asked for. After the join, the call that closed the connection notifies.
pub data Step (t : Transport) : Transport → Type 0 where
  sends : (was_open : Bool) (data_bytes : Bytes) → Step t (send was_open data_bytes t)
  runs : Step t (next_task t)
  writes_end : (failed : Bool) → t.writes ≢ 0 → Step t (on_written failed t)
  header_ends :
      (failed : Bool) (body_len : ℕ) → t.reading ≡ header → Step t (on_header failed body_len t)
  body_ends :
      (failed : Bool) (bytes : Bytes)
      → t.reading ≡ body (length bytes)
      → Step t (on_body failed bytes t)
  begins_close : Step t (begin_close t)
  ends_close : Step t (notify_close t)

pub data Reach : Transport → Type 0 where
  here : Reach connected
  next : {t u : Transport} → Reach t → Step t u → Reach u
