-- ===== src/Client/Transport/Writes.antt =====
-- About the steps of TcpTransport.cpp.
use improject.Base.{
  ℕ, suc, ◌-◌, List, [], ◌∷◌, ◌++◌, Bool, true, false, ◌||◌, Option, none, some, Bytes, ◌≡◌, ◌≢◌,
  ◌==◌, refl, sym, subst, ◌∙◌, ap, ltb, leb, append_assoc, append-nil, if◌then◌else◌, arith,
}
use improject.Wire.{client_send, max_pack_len}
use improject.Client.Transport.{
  Task, queue_frame, close_socket, body, stopped, Transport, connected, notify_close, send,
  do_write, run_task, next_task, write_on, on_written, on_header, on_body, begin_close, Step, sends,
  runs, writes_end, header_ends, body_ends, begins_close, ends_close, Reach, here, next,
}

-- The frames in the tasks that wait.
unfoldable pub frames : List Task → List Bytes
frames [] = []
frames (queue_frame buf ∷ tasks) = buf ∷ frames tasks
frames (close_socket ∷ tasks) = frames tasks

-- A write is outstanding only for a frame at the front of the queue, and until the end of the
-- connection has been told, for every such frame.
abbrev pub Writing : Bool → ℕ → List Bytes → Type 0
Writing told n [] = n ≡ 0
Writing true n (first ∷ rest) = leb n 1 ≡ true
Writing false n (first ∷ rest) = n ≡ 1

abbrev pub told_once : Bool → ℕ
told_once told = if told then 1 else 0

pub record WritesInTurn (t : Transport) : Type 0 where
  pub order : t.written ++ t.write_queue ++ frames t.tasks ≡ t.accepted
  pub writing : Writing t.notified t.writes t.write_queue
  pub once : t.closes ≡ told_once t.notified

frames-append : (xs ys : List Task) → frames (xs ++ ys) ≡ frames xs ++ frames ys
unfolding frames
frames-append [] ys = refl
frames-append (queue_frame buf ∷ xs) ys = ap (λ zs. buf ∷ zs) (frames-append xs ys)
frames-append (close_socket ∷ xs) ys = frames-append xs ys

told : (b : Bool) (n : ℕ) (xs : List Bytes) → Writing b n xs → Writing true n xs
told b n [] h = h
told true n (x ∷ xs) h = h
told false n (x ∷ xs) h = ground (arith, h)

-- What has to hold before the end of the connection is told.
notify_close-told :
    (t : Transport)
    → t.written ++ t.write_queue ++ frames t.tasks ≡ t.accepted
    → Writing true t.writes t.write_queue
    → t.closes ≡ told_once t.notified
    → WritesInTurn (notify_close t)
unfolding notify_close
notify_close-told t order writing once = split t.notified refl
  where
    split :
        (b : Bool)
        → t.notified ≡ b
        → WritesInTurn (elim b as (λ x. Transport) [
          | true ↦ record t { is_open = false }
          | false ↦ record t { is_open = false; notified = true; closes = suc t.closes }
        ])
    split true e = record {
      order = order;
      writing = subst (λ b. Writing b t.writes t.write_queue) (sym e) writing;
      once = once;
    }
    split false e = record {
      order = order;
      writing = writing;
      once = ap suc (once ∙ ap told_once e);
    }

notify_close-WritesInTurn : (t : Transport) → WritesInTurn t → WritesInTurn (notify_close t)
notify_close-WritesInTurn t v =
    notify_close-told t v.order (told t.notified t.writes t.write_queue v.writing) v.once

send-WritesInTurn :
    (was_open : Bool) (data_bytes : Bytes) (t : Transport)
    → WritesInTurn t
    → WritesInTurn (send was_open data_bytes t)
unfolding send frames
send-WritesInTurn was_open data_bytes t v = split (client_send was_open data_bytes)
  where
    split :
        (o : Option Bytes)
        → WritesInTurn (elim o as (λ x. Transport) [
          | none ↦ t
          | some buf ↦ record t {
            tasks = t.tasks ++ queue_frame buf ∷ [];
            accepted = t.accepted ++ buf ∷ [];
          }
        ])
    split none = v
    split (some buf) = record {
      order =
          ap (λ xs. t.written ++ t.write_queue ++ xs) (frames-append t.tasks (queue_frame buf ∷ []))
          ∙ sym (append_assoc (t.written ++ t.write_queue) (frames t.tasks) (buf ∷ []))
          ∙ ap (λ xs. xs ++ buf ∷ []) v.order;
      writing = v.writing;
      once = v.once;
    }

-- The frame that stands behind the queue moves to its end.
queue-end : (xs q fs : List Bytes) (buf : Bytes) → xs ++ (q ++ buf ∷ []) ++ fs ≡ xs ++ q ++ buf ∷ fs
queue-end xs q fs buf =
    append_assoc xs (q ++ buf ∷ []) fs
    ∙ ap (λ ys. xs ++ ys) (append_assoc q (buf ∷ []) fs)
    ∙ sym (append_assoc xs q (buf ∷ fs))

-- The invariant behind the removal of a task, whose frame is on its way into the queue.
run_task-WritesInTurn :
    (task : Task) (t : Transport)
    → t.written ++ t.write_queue ++ frames (task ∷ t.tasks) ≡ t.accepted
    → Writing t.notified t.writes t.write_queue
    → t.closes ≡ told_once t.notified
    → WritesInTurn (run_task task t)
unfolding run_task do_write frames
run_task-WritesInTurn (queue_frame buf) t order writing once = split t.write_queue refl
  where
    one : (b : Bool) (n : ℕ) → n ≡ 0 → Writing b (suc n) (buf ∷ [])
    one true n e = ground (arith, e)
    one false n e = ap suc e

    more :
        (b : Bool) (n : ℕ) (x : Bytes) (xs ys : List Bytes)
        → Writing b n (x ∷ xs)
        → Writing b n (x ∷ ys)
    more true n x xs ys h = h
    more false n x xs ys h = h

    split :
        (q : List Bytes)
        → t.write_queue ≡ q
        → WritesInTurn (elim q as (λ x. Transport) [
          | [] ↦ do_write (record t { write_queue = buf ∷ [] })
          | first ∷ rest ↦ record t { write_queue = first ∷ rest ++ buf ∷ [] }
        ])
    split [] e = record {
      order =
          queue-end t.written [] (frames t.tasks) buf
          ∙ ap (λ q. t.written ++ q ++ buf ∷ frames t.tasks) (sym e)
          ∙ order;
      writing = one t.notified t.writes (subst (Writing t.notified t.writes) e writing);
      once = once;
    }
    split (first ∷ rest) e = record {
      order =
          queue-end t.written (first ∷ rest) (frames t.tasks) buf
          ∙ ap (λ q. t.written ++ q ++ buf ∷ frames t.tasks) (sym e)
          ∙ order;
      writing =
          more t.notified t.writes first rest _ (subst (Writing t.notified t.writes) e writing);
      once = once;
    }
run_task-WritesInTurn close_socket t order writing once = split t.write_queue
  where
    split :
        (q : List Bytes)
        → WritesInTurn (elim q as (λ x. Transport) [
          | [] ↦ record t { socket_closed = true }
          | first ∷ rest ↦ record t { closing = true }
        ])
    split [] = record { order = order; writing = writing; once = once }
    split (first ∷ rest) = record { order = order; writing = writing; once = once }

next_task-WritesInTurn : (t : Transport) → WritesInTurn t → WritesInTurn (next_task t)
unfolding next_task
next_task-WritesInTurn t v = split t.tasks refl
  where
    split :
        (ts : List Task)
        → t.tasks ≡ ts
        → WritesInTurn (elim ts as (λ x. Transport) [
          | [] ↦ t
          | task ∷ rest ↦ run_task task (record t { tasks = rest })
        ])
    split [] e = v
    split (task ∷ rest) e =
        run_task-WritesInTurn task (record t { tasks = rest })
          (ap (λ ts. t.written ++ t.write_queue ++ frames ts) (sym e) ∙ v.order) v.writing v.once

-- The queue when its write has ended.
fewer : (b : Bool) (n : ℕ) (q : List Bytes) → Writing b n q → Writing true (n - 1) q
fewer b n [] h = ground (arith, h)
fewer true n (x ∷ xs) h = ground (arith, h)
fewer false n (x ∷ xs) h = ground (arith, h)

none_left :
    (b : Bool) (n : ℕ) (first : Bytes) (rest : List Bytes) → Writing b n (first ∷ rest) → n - 1 ≡ 0
none_left true n first rest h = ground (arith, h)
none_left false n first rest h = ground (arith, h)

next_write :
    (b : Bool) (n : ℕ) (second : Bytes) (rest : List Bytes)
    → n ≡ 0
    → Writing b (suc n) (second ∷ rest)
next_write true n second rest e = ground (arith, e)
next_write false n second rest e = ap suc e

write_on-WritesInTurn :
    (first : Bytes) (rest : List Bytes) (t : Transport)
    → t.write_queue ≡ first ∷ rest
    → WritesInTurn t
    → WritesInTurn (
        write_on rest (record t {
          writes = t.writes - 1;
          write_queue = rest;
          written = t.written ++ first ∷ [];
        }))
unfolding write_on do_write
write_on-WritesInTurn first rest t e v = split rest e
  where
    order_of :
        (rest : List Bytes)
        → t.write_queue ≡ first ∷ rest
        → t.written ++ first ∷ [] ++ rest ++ frames t.tasks ≡ t.accepted
    order_of rest e =
        ap (λ xs. xs ++ frames t.tasks)
          (append_assoc t.written (first ∷ []) rest ∙ ap (λ q. t.written ++ q) (sym e))
        ∙ v.order

    none_of : (rest : List Bytes) → t.write_queue ≡ first ∷ rest → t.writes - 1 ≡ 0
    none_of rest e =
        none_left t.notified t.writes first rest (subst (Writing t.notified t.writes) e v.writing)

    split :
        (rest : List Bytes)
        → t.write_queue ≡ first ∷ rest
        → WritesInTurn (
            write_on rest (record t {
              writes = t.writes - 1;
              write_queue = rest;
              written = t.written ++ first ∷ [];
            }))
    split [] e = record { order = order_of [] e; writing = none_of [] e; once = v.once }
    split (second ∷ more) e = record {
      order = order_of (second ∷ more) e;
      writing = next_write t.notified _ second more (none_of (second ∷ more) e);
      once = v.once;
    }

on_written-WritesInTurn :
    (failed : Bool) (t : Transport)
    → t.writes ≢ 0
    → WritesInTurn t
    → WritesInTurn (on_written failed t)
unfolding on_written
on_written-WritesInTurn true t some_write v =
    notify_close-told (record t { writes = t.writes - 1 }) v.order
      (fewer t.notified t.writes t.write_queue v.writing) v.once
on_written-WritesInTurn false t some_write v = split t.write_queue refl
  where
    split :
        (q : List Bytes)
        → t.write_queue ≡ q
        → WritesInTurn (elim q as (λ x. Transport) [
          | [] ↦ record t { writes = t.writes - 1 }
          | first ∷ rest ↦ write_on rest (record t {
            writes = t.writes - 1;
            write_queue = rest;
            written = t.written ++ first ∷ [];
          })
        ])
    split [] e = absurd (some_write (subst (Writing t.notified t.writes) e v.writing))
    split (first ∷ rest) e = write_on-WritesInTurn first rest t e v

on_header-WritesInTurn :
    (failed : Bool) (body_len : ℕ) (t : Transport)
    → WritesInTurn t
    → WritesInTurn (on_header failed body_len t)
unfolding on_header
on_header-WritesInTurn failed body_len t v =
    split (failed || body_len == 0 || ltb max_pack_len body_len)
  where
    split :
        (b : Bool)
        → WritesInTurn (
            if b
            then notify_close (record t { reading = stopped })
            else record t { reading = body body_len })
    split true =
        notify_close-WritesInTurn (record t { reading = stopped })
          (record { order = v.order; writing = v.writing; once = v.once })
    split false = record { order = v.order; writing = v.writing; once = v.once }

on_body-WritesInTurn :
    (failed : Bool) (bytes : Bytes) (t : Transport)
    → WritesInTurn t
    → WritesInTurn (on_body failed bytes t)
unfolding on_body
on_body-WritesInTurn true bytes t v =
    notify_close-WritesInTurn (record t { reading = stopped })
      (record { order = v.order; writing = v.writing; once = v.once })
on_body-WritesInTurn false bytes t v = record {
  order = v.order;
  writing = v.writing;
  once = v.once;
}

begin_close-WritesInTurn : (t : Transport) → WritesInTurn t → WritesInTurn (begin_close t)
unfolding begin_close frames
begin_close-WritesInTurn t v = split t.is_open
  where
    split :
        (b : Bool)
        → WritesInTurn (elim b as (λ x. Transport) [
          | false ↦ t
          | true ↦ record t { is_open = false; tasks = t.tasks ++ close_socket ∷ [] }
        ])
    split false = v
    split true = record {
      order =
          ap (λ xs. t.written ++ t.write_queue ++ xs)
            (frames-append t.tasks (close_socket ∷ []) ∙ append-nil (frames t.tasks))
          ∙ v.order;
      writing = v.writing;
      once = v.once;
    }

Step-WritesInTurn : {t u : Transport} → WritesInTurn t → Step t u → WritesInTurn u
Step-WritesInTurn {t} v (sends was_open data_bytes) = send-WritesInTurn was_open data_bytes t v
Step-WritesInTurn {t} v runs = next_task-WritesInTurn t v
Step-WritesInTurn {t} v (writes_end failed n) = on_written-WritesInTurn failed t n v
Step-WritesInTurn {t} v (header_ends failed body_len r) = on_header-WritesInTurn failed body_len t v
Step-WritesInTurn {t} v (body_ends failed bytes r) = on_body-WritesInTurn failed bytes t v
Step-WritesInTurn {t} v begins_close = begin_close-WritesInTurn t v
Step-WritesInTurn {t} v ends_close = notify_close-WritesInTurn t v

-- Whatever the threads of a client and its event loop do, in any order: what is written, what waits
-- in the queue, and what waits in the posted tasks are, in this order, the frames that were posted;
-- at most one write is outstanding, none for an empty queue, and one for a queue that is not empty
-- until the end of the connection has been told; and that is told at most once.
pub Reach-WritesInTurn : {t : Transport} → Reach t → WritesInTurn t
unfolding connected frames
Reach-WritesInTurn here = record { order = refl; writing = refl; once = refl }
Reach-WritesInTurn (next r s) = Step-WritesInTurn (Reach-WritesInTurn r) s
