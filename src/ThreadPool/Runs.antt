-- ===== src/ThreadPool/Runs.antt =====
-- Every run of the server loop and the workers, in any interleaving of their steps.
use cs.Base.{
  ℕ, zero, suc, arith, length, ◌≡◌, refl, sym, ap, subst, ◌∙◌, true, List, [], ◌∷◌, ◌++◌,
  append_assoc, append-nil,
}
use cs.ThreadPool.{
  max_queue_size, Job, JobQueue, slots, thread_pool_init, added, exits, took, worker_thread,
  thread_pool_shutdown, Reached, begun, accepts, starts, stops,
}
use cs.ThreadPool.Ring.{jobs_from, waiting, WellFormed}
use cs.ThreadPool.Fifo.{AddMeans, TakeMeans, thread_pool_add_job-waiting, worker_thread-waiting}

-- The accepted jobs are the started ones and then the waiting ones, in the order of acceptance.
abbrev pub InOrder : List Job → List Job → JobQueue → Type 0
InOrder accepted started q = WellFormed q × (accepted ≡ started ++ waiting q)

length-slots : (n : ℕ) → length (slots n) ≡ n
unfolding slots
length-slots zero = refl
length-slots (suc n) = ap suc (length-slots n)

pub init-InOrder : InOrder [] [] thread_pool_init
unfolding thread_pool_init waiting jobs_from slots
init-InOrder = (
  record {
    slots_full = length-slots max_queue_size;
    head_bound = omega arith;
    count_bound = omega arith;
    tail_place = refl;
  },
  refl,
)

accept-InOrder :
    (a s : List Job) (q q' : JobQueue) (job : Job)
    → InOrder a s q
    → AddMeans job q (added q')
    → InOrder (a ++ (job ∷ [])) s q'
accept-InOrder a s q q' job (w, e) (w', (more, _)) = (
  w',
  ap (λ l. l ++ (job ∷ [])) e
      ∙ (append_assoc s (waiting q) (job ∷ []) ∙ ap (λ l. s ++ l) (sym more)),
)

start-InOrder :
    (a s : List Job) (q q' : JobQueue) (job : Job)
    → InOrder a s q
    → TakeMeans q (took job q')
    → InOrder a (s ++ (job ∷ [])) q'
start-InOrder a s q q' job (w, e) (w', less) =
    (w', e ∙ (ap (λ l. s ++ l) less ∙ sym (append_assoc s (job ∷ []) (waiting q'))))

stop-InOrder :
    (a s : List Job) (q : JobQueue) → InOrder a s q → InOrder a s (thread_pool_shutdown q)
unfolding thread_pool_shutdown waiting
stop-InOrder a s q (w, e) = (
  record {
    slots_full = w.slots_full;
    head_bound = w.head_bound;
    count_bound = w.count_bound;
    tail_place = w.tail_place;
  },
  e,
)

-- In every run, the jobs that were accepted are those that workers have taken followed by those
-- that wait, in the order of their acceptance, and the queue keeps its shape: none is lost, taken
-- twice or overtaken, and at most 1000 wait.
pub Reached-InOrder :
    {accepted started : List Job} {q : JobQueue}
    → Reached accepted started q
    → InOrder accepted started q
Reached-InOrder begun = init-InOrder
Reached-InOrder (accepts {a} {s} {q} {q'} job r e) =
    let i = Reached-InOrder r in
    accept-InOrder a s q q' job i (subst (AddMeans job q) e (thread_pool_add_job-waiting job q i.0))
Reached-InOrder (starts {a} {s} {q} {q'} job r e) =
    let i = Reached-InOrder r in
    start-InOrder a s q q' job i (subst (TakeMeans q) e (worker_thread-waiting q i.0))
Reached-InOrder (stops {a} {s} {q} r) = stop-InOrder a s q (Reached-InOrder r)

-- In every run, when a worker leaves its loop, every accepted job has been taken by a worker, in
-- the order of acceptance, and the pool has been shut down.
pub worker_leaves_nothing :
    {accepted started : List Job} {q : JobQueue}
    → Reached accepted started q
    → worker_thread q ≡ exits
    → (accepted ≡ started) × (q.shutdown ≡ true)
worker_leaves_nothing {accepted} {started} {q} r e =
    let (w, order) = Reached-InOrder r in
    let (none, down) = subst (TakeMeans q) e (worker_thread-waiting q w) in
    (order ∙ (ap (λ l. started ++ l) none ∙ append-nil started), down)
