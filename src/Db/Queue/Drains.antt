-- ===== src/Db/Queue/Drains.antt =====
-- About the steps of DbWriteQueue.cpp.
use improject.Base.{
  ℕ, List, [], ◌∷◌, ◌++◌, Bool, true, false, ◌≡◌, refl, sym, ◌∙◌, ap, append_assoc, append-nil,
}
use improject.Db.Queue.{
  Queue, Worker, waiting, running, returned, opened, submit, stop, take_task, finish_task, submits,
  stops, takes, finishes, Reach, here, next, WorkerRun, stay,
}

-- The task that the worker has in its hand.
abbrev pub in_hand : Worker → List ℕ
in_hand waiting = []
in_hand (running task) = task ∷ []
in_hand returned = []

-- A worker that is gone has left nothing, and the queue accepts no more.
abbrev pub IsGone : Queue → Type 0
IsGone q = (q.is_running ≡ false) × (q.queue ≡ [])

abbrev pub LeavesNothing : Queue → Worker → Type 0
LeavesNothing q waiting = Unit
LeavesNothing q (running task) = Unit
LeavesNothing q returned = IsGone q

pub record InOrder (q : Queue) : Type 0 where
  pub order : q.finished ++ in_hand q.worker ++ q.queue ≡ q.accepted
  pub gone : LeavesNothing q q.worker

submit-InOrder : (task : ℕ) (q : Queue) → InOrder q → InOrder (submit task q).1
unfolding submit
submit-InOrder task q v = split q.is_running refl
  where
    gone_lem :
        (w : Worker)
        → q.is_running ≡ true
        → LeavesNothing q w
        → LeavesNothing
            (record q { queue = q.queue ++ task ∷ []; accepted = q.accepted ++ task ∷ [] })
            w
    gone_lem waiting e g = tt
    gone_lem (running t) e g = tt
    gone_lem returned e g = cc

    split :
        (b : Bool)
        → q.is_running ≡ b
        → InOrder (
            (elim b as (λ x. Bool × Queue) [
              | true ↦ (
                true,
                record q { queue = q.queue ++ task ∷ []; accepted = q.accepted ++ task ∷ [] },
              )
              | false ↦ (false, q)
            ]).1)
    split false e = v
    split true e = record {
      order =
          sym (append_assoc (q.finished ++ in_hand q.worker) q.queue (task ∷ []))
          ∙ ap (λ xs. xs ++ task ∷ []) v.order;
      gone = gone_lem q.worker e v.gone;
    }

stop-InOrder : (q : Queue) → InOrder q → InOrder (stop q)
unfolding stop
stop-InOrder q v = record { order = v.order; gone = gone_lem q.worker v.gone }
  where
    gone_lem : (w : Worker) → LeavesNothing q w → LeavesNothing (record q { is_running = false }) w
    gone_lem waiting g = tt
    gone_lem (running t) g = tt
    gone_lem returned g = (refl, g.1)

take_task-InOrder : (q : Queue) → q.worker ≡ waiting → InOrder q → InOrder (take_task q)
unfolding take_task
take_task-InOrder q w v =
    split q.queue q.is_running refl refl
      (ap (λ x. q.finished ++ in_hand x ++ q.queue) (sym w) ∙ v.order)
  where
    split :
        (xs : List ℕ) (b : Bool)
        → q.queue ≡ xs
        → q.is_running ≡ b
        → q.finished ++ [] ++ q.queue ≡ q.accepted
        → InOrder (elim xs as (λ x. Queue) [
          | task ∷ rest ↦ record q { queue = rest; worker = running task }
          | [] ↦ elim b as (λ x. Queue) [ true ↦ q | false ↦ record q { worker = returned } ]
        ])
    split (task ∷ rest) b k e h = record {
      order =
          append_assoc q.finished (task ∷ []) rest
          ∙ ap (λ xs. xs ++ task ∷ rest) (sym (append-nil q.finished))
          ∙ ap (λ xs. q.finished ++ [] ++ xs) (sym k)
          ∙ h;
      gone = tt;
    }
    split [] true k e h = v
    split [] false k e h = record { order = h; gone = (e, k) }

finish_task-InOrder :
    (task : ℕ) (q : Queue) → q.worker ≡ running task → InOrder q → InOrder (finish_task task q)
unfolding finish_task
finish_task-InOrder task q w v = record {
  order =
      ap (λ xs. xs ++ q.queue) (append-nil (q.finished ++ task ∷ []))
      ∙ ap (λ x. q.finished ++ in_hand x ++ q.queue) (sym w)
      ∙ v.order;
  gone = tt;
}

-- Whatever the threads and the worker do, in any order: the tasks that have run, the one that runs,
-- and those that wait are, in this order, the tasks that were accepted; and a worker that is gone
-- has left no task.
pub Reach-InOrder : {q : Queue} → Reach q → InOrder q
unfolding opened
Reach-InOrder here = record { order = refl; gone = tt }
Reach-InOrder (next {q} r (submits task)) = submit-InOrder task q (Reach-InOrder r)
Reach-InOrder (next {q} r stops) = stop-InOrder q (Reach-InOrder r)
Reach-InOrder (next {q} r (takes w)) = take_task-InOrder q w (Reach-InOrder r)
Reach-InOrder (next {q} r (finishes task w)) = finish_task-InOrder task q w (Reach-InOrder r)

-- How the worker leaves: behind its own steps it is gone, and all that was accepted has run.
pub record Drained (q : Queue) : Type 0 where
  pub last : Queue
  pub steps : WorkerRun q last
  pub gone : last.worker ≡ returned
  pub all_run : last.finished ≡ q.accepted

-- A worker that waits, on a queue that is stopped.
abbrev at_rest : List ℕ → List ℕ → List ℕ → Queue
at_rest queue accepted finished = record {
  is_running = false;
  queue = queue;
  worker = waiting;
  accepted = accepted;
  finished = finished;
}

drain_queue :
    (queue accepted finished : List ℕ)
    → finished ++ queue ≡ accepted
    → Drained (at_rest queue accepted finished)
unfolding take_task finish_task
drain_queue [] accepted finished e = record {
  last = record (at_rest [] accepted finished) { worker = returned };
  steps = WorkerRun.takes refl (stay _);
  gone = refl;
  all_run = sym (append-nil finished) ∙ e;
}
drain_queue (task ∷ queue) accepted finished e =
    let rest =
      drain_queue queue accepted (finished ++ task ∷ [])
        (append_assoc finished (task ∷ []) queue ∙ e) in
    record {
      last = rest.last;
      steps = WorkerRun.takes refl (WorkerRun.finishes task refl rest.steps);
      gone = rest.gone;
      all_run = rest.all_run;
    }

-- After the stop of any queue that was reached, the worker's own steps, without waiting for anyone,
-- come to its return, and every task that was ever accepted has run by then, in the order in which
-- the tasks were accepted: no caller of submit waits for ever.
pub stop-Drained : {q : Queue} → Reach q → Drained (stop q)
unfolding stop finish_task
stop-Drained {q} r = split q.worker (Reach-InOrder r).order (Reach-InOrder r).gone
  where
    split :
        (w : Worker)
        → q.finished ++ in_hand w ++ q.queue ≡ q.accepted
        → LeavesNothing q w
        → Drained (record q { is_running = false; worker = w })
    split waiting h g =
        drain_queue q.queue q.accepted q.finished
          (ap (λ xs. xs ++ q.queue) (sym (append-nil q.finished)) ∙ h)
    split (running task) h g =
        let rest = drain_queue q.queue q.accepted (q.finished ++ task ∷ []) h in
        record {
          last = rest.last;
          steps = WorkerRun.finishes task refl rest.steps;
          gone = rest.gone;
          all_run = rest.all_run;
        }
    split returned h g = record {
      last = record q { is_running = false; worker = returned };
      steps = stay _;
      gone = refl;
      all_run =
          sym (append-nil q.finished)
          ∙ sym (append-nil (q.finished ++ []))
          ∙ ap (λ xs. q.finished ++ [] ++ xs) (sym g.1)
          ∙ h;
    }
