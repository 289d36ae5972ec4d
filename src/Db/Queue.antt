-- ===== src/Db/Queue.antt =====
-- im_server/src/DbWriteQueue.cpp and DbWriteQueue.h: one worker that runs the tasks of many threads,
-- in steps under the lock. A task is a number, and what it does is not looked at.
pub mod Drains
use improject.Base.{
  ℕ, suc, ◌+◌, List, [], ◌∷◌, ◌++◌, Bool, true, false, ◌≡◌, ◌≢◌, refl, sym, ◌∙◌, ap, Option, none,
  some, length, append_assoc, append-nil, arith,
}

-- What the worker is doing: waiting for the lock or on the condition, running a task, or gone.
pub data Worker : Type 0 where
  waiting : Worker
  running : ℕ → Worker
  returned : Worker

-- m_running and m_queue, with the tasks that submit has accepted and those that have run, in their
-- order.
pub record Queue : Type 0 where
  pub is_running : Bool
  pub queue : List ℕ
  pub worker : Worker
  pub accepted : List ℕ
  pub finished : List ℕ

-- open, once the thread is started.
unfoldable pub opened : Queue
opened = record { is_running = true; queue = []; worker = waiting; accepted = []; finished = [] }

-- submit, of a thread that is not the worker: false is the exception of a queue that is not running.
unfoldable pub submit : ℕ → Queue → Bool × Queue
submit task q = elim q.is_running [
  | true ↦ (true, record q { queue = q.queue ++ task ∷ []; accepted = q.accepted ++ task ∷ [] })
  | false ↦ (false, q)
]

-- The destructor sets m_running to false, and joins the worker.
unfoldable pub stop : Queue → Queue
stop q = record q { is_running = false }

-- A turn of run, from the end of the wait: a task is taken, the worker returns, or it waits on.
unfoldable pub take_task : Queue → Queue
take_task q = elim q.queue [
  | task ∷ rest ↦ record q { queue = rest; worker = running task }
  | [] ↦ elim q.is_running [ true ↦ q | false ↦ record q { worker = returned } ]
]

-- The end of `task()`.
unfoldable pub finish_task : ℕ → Queue → Queue
finish_task task q = record q { worker = waiting; finished = q.finished ++ task ∷ [] }

pub data Step (q : Queue) : Queue → Type 0 where
  submits : (task : ℕ) → Step q (submit task q).1
  stops : Step q (stop q)
  takes : q.worker ≡ waiting → Step q (take_task q)
  finishes : (task : ℕ) → q.worker ≡ running task → Step q (finish_task task q)

pub data Reach : Queue → Type 0 where
  here : Reach opened
  next : {q r : Queue} → Reach q → Step q r → Reach r

-- The steps of the worker alone.
pub data WorkerRun : Queue → Queue → Type 0 where
  stay : (q : Queue) → WorkerRun q q
  takes : {q r : Queue} → q.worker ≡ waiting → WorkerRun (take_task q) r → WorkerRun q r
  finishes :
      {q r : Queue} (task : ℕ)
      → q.worker ≡ running task
      → WorkerRun (finish_task task q) r
      → WorkerRun q r
