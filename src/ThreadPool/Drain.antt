-- ===== src/ThreadPool/Drain.antt =====
-- The loop of a worker ends after the shutdown.
use cs.Base.{
  ◌+◌, ◌-◌, ◌%◌, get_or, suc, ◌≡◌, refl, sym, ◌∙◌, ap, Bool, true, false, some, List, [], ◌∷◌,
  length, arith, if◌then◌else◌,
}
use cs.ThreadPool.{
  max_queue_size, no_job, Job, JobQueue, Taken, take_waits, exits, took, worker_thread, with_job,
  after_take, worker_rounds,
}
use cs.ThreadPool.Ring.{waiting, WellFormed}
use cs.ThreadPool.Fifo.{TakeMeans, worker_thread-waiting}

-- A round does not end the shutdown.
abbrev StaysDown : Taken → Type 0
StaysDown take_waits = Unit {0}
StaysDown exits = Unit {0}
StaysDown (took job q) = q.shutdown ≡ true

down_cases :
    (q : JobQueue) (b c : Bool)
    → q.shutdown ≡ true
    → StaysDown (
        if b
        then take_waits
        else if c
        then exits
        else took
            (get_or q.queue q.head no_job)
            (record q { head = (q.head + 1) % max_queue_size; count = q.count - 1 }))
down_cases q true c down = tt
down_cases q false true down = tt
down_cases q false false down = down

worker_thread-StaysDown : (q : JobQueue) → q.shutdown ≡ true → StaysDown (worker_thread q)
unfolding worker_thread
worker_thread-StaysDown q down = down_cases q _ _ down

abbrev tail_of : List Job → List Job
tail_of [] = []
tail_of (_ ∷ l) = l

abbrev head_of : Job → List Job → Job
head_of x [] = x
head_of _ (x ∷ _) = x

-- What a round gives when no job waits, and when the jobs `x ∷ l` do.
drained_none :
    (q : JobQueue) (t : Taken)
    → TakeMeans q t
    → q.shutdown ≡ true
    → waiting q ≡ []
    → after_take (worker_rounds 0) t ≡ some []
drained_none q take_waits means down e = ground (arith, means.1)
drained_none q exits means down e = refl
drained_none q (took job q') means down e = ground (arith, means.1)

drained_some :
    (q : JobQueue) (x : Job) (l : List Job) (t : Taken)
    → TakeMeans q t
    → StaysDown t
    → q.shutdown ≡ true
    → waiting q ≡ x ∷ l
    → ((q' : JobQueue)
        → WellFormed q'
        → q'.shutdown ≡ true
        → waiting q' ≡ l
        → worker_rounds (suc (length l)) q' ≡ some l)
    → after_take (worker_rounds (suc (length l))) t ≡ some (x ∷ l)
drained_some q x l take_waits means stays down e next = ground (arith, means.1)
drained_some q x l exits means stays down e next = ground (arith, means.0)
drained_some q x l (took job q') means stays down e next =
    let same : job ∷ waiting q' ≡ x ∷ l = sym means.1 ∙ e in
    let rest = next q' means.0 stays (ap tail_of same) in
    ap (with_job job) rest ∙ ap (λ k. some (head_of x k ∷ l)) same

-- From a well-formed queue that is shut down, with `l` waiting, one worker alone leaves its loop
-- after one round for each job and one more, and has taken all of `l`, in order.
pub worker_rounds-waiting :
    (q : JobQueue) (l : List Job)
    → WellFormed q
    → q.shutdown ≡ true
    → waiting q ≡ l
    → worker_rounds (suc (length l)) q ≡ some l
unfolding worker_rounds
worker_rounds-waiting q [] w down e =
    drained_none q (worker_thread q) (worker_thread-waiting q w) down e
worker_rounds-waiting q (x ∷ l) w down e =
    drained_some q x l (worker_thread q) (worker_thread-waiting q w)
      (worker_thread-StaysDown q down) down e
      (λ q' w' down' e'. worker_rounds-waiting q' l w' down' e')
