-- ===== src/ThreadPool.antt =====
-- src/server/thread_pool.c: the queue of jobs between the server loop and the worker threads. What
-- a thread does under the mutex is one step.
pub mod Ring
pub mod Fifo
pub mod Runs
pub mod Drain
use cs.Base.{
  ℕ, zero, suc, ◌+◌, ◌-◌, ◌%◌, ◌≡◌, Bool, true, false, not, ◌&&◌, Option, none, some, List, [], ◌∷◌,
  ◌++◌, leb, ◌==◌, if◌then◌else◌, get_or, set,
}

abbrev pub max_queue_size : ℕ
max_queue_size = 1000

-- `request` is the bytes of the message.
pub record Job : Type 0 where
  pub client_fd : ℕ
  pub request : List ℕ

pub record JobQueue : Type 0 where
  pub queue : List Job
  pub head : ℕ
  pub tail : ℕ
  pub count : ℕ
  pub shutdown : Bool

-- A slot after `memset`.
abbrev pub no_job : Job
no_job = record { client_fd = 0; request = [] }

unfoldable pub slots : ℕ → List Job
slots zero = []
slots (suc n) = no_job ∷ slots n

-- The queue that `thread_pool_init` sets up.
unfoldable pub thread_pool_init : JobQueue
thread_pool_init = record {
  queue = slots max_queue_size;
  head = 0;
  tail = 0;
  count = 0;
  shutdown = false;
}

-- The thread waits for `not_full`, the call returns -1, or it returns 0.
pub data Added : Type 0 where
  add_waits add_refused : Added
  added : JobQueue → Added

unfoldable pub thread_pool_add_job : Job → JobQueue → Added
thread_pool_add_job job q =
    if leb max_queue_size q.count && not q.shutdown
    then add_waits
    else if q.shutdown
    then add_refused
    else added (record q {
      queue = set q.queue q.tail job;
      tail = (q.tail + 1) % max_queue_size;
      count = q.count + 1;
    })

-- The worker waits for `not_empty`, leaves its loop, or has a job.
pub data Taken : Type 0 where
  take_waits exits : Taken
  took : Job → JobQueue → Taken

unfoldable pub worker_thread : JobQueue → Taken
worker_thread q =
    if q.count == 0 && not q.shutdown
    then take_waits
    else if q.shutdown && q.count == 0
    then exits
    else took (get_or q.queue q.head no_job)
        (record q { head = (q.head + 1) % max_queue_size; count = q.count - 1 })

abbrev pub with_job : Job → Option (List Job) → Option (List Job)
with_job job none = none
with_job job (some l) = some (job ∷ l)

-- The jobs that one worker takes in at most `rounds` rounds of its loop, while no other thread runs:
-- `none` where it waits or has not left.
abbrev pub after_take : (JobQueue → Option (List Job)) → Taken → Option (List Job)
after_take rest take_waits = none
after_take rest exits = some []
after_take rest (took job q) = with_job job (rest q)

unfoldable pub worker_rounds : ℕ → JobQueue → Option (List Job)
worker_rounds zero q = none
worker_rounds (suc rounds) q = after_take (worker_rounds rounds) (worker_thread q)

unfoldable pub thread_pool_shutdown : JobQueue → JobQueue
thread_pool_shutdown q = record q { shutdown = true }

-- What the threads can do one after the other, in any order: `Reached accepted started q` says that
-- the queue can be `q` after these jobs were accepted and these were taken by workers, each list in
-- the order of time.
pub data Reached : List Job → List Job → JobQueue → Type 0 where
  begun : Reached [] [] thread_pool_init
  accepts :
      {a s : List Job} {q q' : JobQueue} (job : Job)
      → Reached a s q
      → thread_pool_add_job job q ≡ added q'
      → Reached (a ++ (job ∷ [])) s q'
  starts :
      {a s : List Job} {q q' : JobQueue} (job : Job)
      → Reached a s q
      → worker_thread q ≡ took job q'
      → Reached a (s ++ (job ∷ [])) q'
  stops : {a s : List Job} {q : JobQueue} → Reached a s q → Reached a s (thread_pool_shutdown q)
