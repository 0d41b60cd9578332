-- ===== src/ThreadPool/Fifo.antt =====
-- The job queue is a first-in-first-out queue of at most 1000 jobs.
use cs.Base.{
  suc, ◌+◌, ◌-◌, ◌%◌, ◌≤◌, ◌<◌, ◌≡◌, refl, ap, ◌∙◌, Bool, true, false, not, ◌&&◌, [], ◌∷◌, ◌++◌,
  arith, leb, ◌==◌, if◌then◌else◌, length, get_or, set, get_or-set_self, length-set,
}
use cs.ThreadPool.{
  max_queue_size, Job, JobQueue, no_job, Added, add_waits, add_refused, added, thread_pool_add_job,
  Taken, take_waits, exits, took, worker_thread,
}
use cs.ThreadPool.Ring.{
  jobs_from_first, jobs_from_none, jobs_from, waiting, WellFormed, jobs_from_mod, jobs_from_last,
  jobs_from-set,
}

-- What a call of `thread_pool_add_job` means for the queue of jobs.
abbrev pub AddMeans : Job → JobQueue → Added → Type 0
AddMeans job q add_waits = (q.count ≡ max_queue_size) × (q.shutdown ≡ false)
AddMeans job q add_refused = q.shutdown ≡ true
AddMeans job q (added q') =
    WellFormed q' × ((waiting q' ≡ waiting q ++ (job ∷ [])) × (q.shutdown ≡ false))

-- What a round of a worker means for the queue of jobs.
abbrev pub TakeMeans : JobQueue → Taken → Type 0
TakeMeans q take_waits = (waiting q ≡ []) × (q.shutdown ≡ false)
TakeMeans q exits = (waiting q ≡ []) × (q.shutdown ≡ true)
TakeMeans q (took job q') = WellFormed q' × (waiting q ≡ job ∷ waiting q')

-- Before the shutdown, a call that does not wait has a free slot.
room :
    (q : JobQueue)
    → leb max_queue_size q.count && not q.shutdown ≡ false
    → q.shutdown ≡ false
    → q.count < max_queue_size
room q e f = ground arith

module _ (job : Job) (q : JobQueue) (w : WellFormed q) (free : q.count < max_queue_size) where
  added_shape : WellFormed (record q {
    queue = set q.queue q.tail job;
    tail = (q.tail + 1) % max_queue_size;
    count = q.count + 1;
  })
  added_shape = record {
    slots_full = length-set q.queue q.tail job ∙ w.slots_full;
    head_bound = w.head_bound;
    count_bound = omega arith;
    tail_place = omega (arith, w.tail_place);
  }

  -- The job is in the slot behind the last.
  added_jobs :
      jobs_from (set q.queue q.tail job) q.head (q.count + 1)
      ≡ jobs_from q.queue q.head q.count ++ (job ∷ [])
  added_jobs =
      let p = (q.head + q.count) % max_queue_size in
      let inside : p < length q.queue = omega (arith, w.slots_full) in
      let stored = get_or-set_self q.queue p job no_job inside in
      let others = jobs_from-set q.queue q.head q.count q.count job (omega arith) free in
      let one : q.count + 1 ≡ suc q.count = omega arith in
      rw (w.tail_place, one)
        (jobs_from_last (set q.queue p job) q.head q.count ∙ rw (stored, others) refl)

-- The three ends of `thread_pool_add_job`.
add_cases :
    (job : Job) (q : JobQueue) (b c : Bool)
    → WellFormed q
    → leb max_queue_size q.count && not q.shutdown ≡ b
    → q.shutdown ≡ c
    → AddMeans job q (
        if b
        then add_waits
        else if c
        then add_refused
        else added (record q {
          queue = set q.queue q.tail job;
          tail = (q.tail + 1) % max_queue_size;
          count = q.count + 1;
        }))
unfolding waiting
add_cases job q true c w e f = let bound = w.count_bound in ground arith
add_cases job q false true w e f = f
add_cases job q false false w e f =
    (added_shape job q w (room q e f), (added_jobs job q w (room q e f), f))

-- On a well-formed queue, `thread_pool_add_job` waits only when all 1000 slots are taken, is
-- refused only after the shutdown, and otherwise puts the job behind those that wait.
pub thread_pool_add_job-waiting :
    (job : Job) (q : JobQueue) → WellFormed q → AddMeans job q (thread_pool_add_job job q)
unfolding thread_pool_add_job
thread_pool_add_job-waiting job q w = add_cases job q _ _ w refl refl

idle : (q : JobQueue) → q.count == 0 && not q.shutdown ≡ true → (q.count ≡ 0) × (q.shutdown ≡ false)
idle q e = ground arith

leaving : (q : JobQueue) → q.shutdown && q.count == 0 ≡ true → (q.count ≡ 0) × (q.shutdown ≡ true)
leaving q e = ground arith

-- A worker that neither waits nor leaves finds a job.
some_job :
    (q : JobQueue)
    → q.count == 0 && not q.shutdown ≡ false
    → q.shutdown && q.count == 0 ≡ false
    → 1 ≤ q.count
some_job q e f = ground arith

module _ (q : JobQueue) (w : WellFormed q) (some : 1 ≤ q.count) where
  taken_shape : WellFormed (record q { head = (q.head + 1) % max_queue_size; count = q.count - 1 })
  taken_shape = record {
    slots_full = w.slots_full;
    head_bound = omega arith;
    count_bound = omega (arith, w.count_bound);
    tail_place = w.tail_place ∙ omega (arith, w.head_bound);
  }

  taken_jobs :
      jobs_from q.queue q.head q.count
      ≡ get_or q.queue q.head no_job
        ∷ jobs_from q.queue ((q.head + 1) % max_queue_size) (q.count - 1)
  taken_jobs =
      let n : q.count ≡ suc (q.count - 1) = omega arith in
      let first : q.head % max_queue_size ≡ q.head = omega (arith, w.head_bound) in
      ap (jobs_from q.queue q.head) n
      ∙ (jobs_from_first q.queue q.head (q.count - 1)
          ∙ rw
              (
                first,
                jobs_from_mod q.queue (suc q.head) ((q.head + 1) % max_queue_size) (q.count - 1)
                    (omega arith),
              )
              refl)

take_cases :
    (q : JobQueue) (b c : Bool)
    → WellFormed q
    → q.count == 0 && not q.shutdown ≡ b
    → q.shutdown && q.count == 0 ≡ c
    → TakeMeans q (
        if b
        then take_waits
        else if c
        then exits
        else took
            (get_or q.queue q.head no_job)
            (record q { head = (q.head + 1) % max_queue_size; count = q.count - 1 }))
unfolding waiting
take_cases q true c w e f =
    let (none, running) = idle q e in
    (ap (jobs_from q.queue q.head) none ∙ jobs_from_none q.queue q.head, running)
take_cases q false true w e f =
    let (none, down) = leaving q f in
    (ap (jobs_from q.queue q.head) none ∙ jobs_from_none q.queue q.head, down)
take_cases q false false w e f = (taken_shape q w (some_job q e f), taken_jobs q w (some_job q e f))

-- On a well-formed queue, a worker waits only when no job waits and the pool runs, leaves only
-- when no job waits and the pool is shut down, and otherwise takes the job that waits longest.
pub worker_thread-waiting : (q : JobQueue) → WellFormed q → TakeMeans q (worker_thread q)
unfolding worker_thread
worker_thread-waiting q w = take_cases q _ _ w refl refl
