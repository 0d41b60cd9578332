-- ===== src/ThreadPool/Ring.antt =====
-- The jobs in the ring of slots, and what one step does to them.
use cs.Base.{
  ℕ, zero, suc, ◌+◌, ◌%◌, ◌≤◌, ◌<◌, ◌≡◌, ◌≢◌, refl, ap, ◌∙◌, List, [], ◌∷◌, ◌++◌, arith, length,
  get_or, set, get_or-set_ne,
}
use cs.ThreadPool.{max_queue_size, Job, JobQueue, no_job}

-- The `n` jobs from slot `h` on, around the ring.
unfoldable pub jobs_from : List Job → ℕ → ℕ → List Job
jobs_from xs h zero = []
jobs_from xs h (suc n) = get_or xs (h % max_queue_size) no_job ∷ jobs_from xs (suc h) n

-- The jobs that wait in the queue, in their order.
unfoldable pub waiting : JobQueue → List Job
waiting q = jobs_from q.queue q.head q.count

-- The shape of a queue.
pub record WellFormed (q : JobQueue) : Type 0 where
  pub slots_full : length q.queue ≡ max_queue_size
  pub head_bound : q.head < max_queue_size
  pub count_bound : q.count ≤ max_queue_size
  pub tail_place : q.tail ≡ (q.head + q.count) % max_queue_size

pub jobs_from_none : (xs : List Job) (h : ℕ) → jobs_from xs h 0 ≡ []
unfolding jobs_from
jobs_from_none xs h = refl

pub jobs_from_first :
    (xs : List Job) (h n : ℕ)
    → jobs_from xs h (suc n) ≡ get_or xs (h % max_queue_size) no_job ∷ jobs_from xs (suc h) n
unfolding jobs_from
jobs_from_first xs h n = refl

-- Only the slot matters, not how often the ring has been gone round.
pub jobs_from_mod :
    (xs : List Job) (h k n : ℕ)
    → h % max_queue_size ≡ k % max_queue_size
    → jobs_from xs h n ≡ jobs_from xs k n
unfolding jobs_from
jobs_from_mod xs h k zero e = refl
jobs_from_mod xs h k (suc n) e = rw e (
    ap (λ l. get_or xs (k % max_queue_size) no_job ∷ l)
      (jobs_from_mod xs (suc h) (suc k) n (omega arith)))

-- The last job of the ring.
pub jobs_from_last :
    (xs : List Job) (h n : ℕ)
    → jobs_from xs h (suc n)
      ≡ jobs_from xs h n ++ (get_or xs ((h + n) % max_queue_size) no_job ∷ [])
unfolding jobs_from
jobs_from_last xs h zero = ap (λ k. get_or xs (k % max_queue_size) no_job ∷ []) (omega arith)
jobs_from_last xs h (suc n) =
    ap (λ l. get_or xs (h % max_queue_size) no_job ∷ l)
      (jobs_from_last xs (suc h) n
        ∙ ap (λ k. jobs_from xs (suc h) n ++ (get_or xs (k % max_queue_size) no_job ∷ []))
            (omega arith))

-- A write past the jobs changes none of them.
pub jobs_from-set :
    (xs : List Job) (h n m : ℕ) (job : Job)
    → n ≤ m
    → m < max_queue_size
    → jobs_from (set xs ((h + m) % max_queue_size) job) h n ≡ jobs_from xs h n
unfolding jobs_from
jobs_from-set xs h zero m job low high = refl
jobs_from-set xs h (suc n) zero job low high = absurd (omega arith)
jobs_from-set xs h (suc n) (suc m) job low high =
    let p = (h + suc m) % max_queue_size in
    let away : p ≢ h % max_queue_size = (λ e. omega arith) in
    let here = get_or-set_ne xs {i = p} {j = h % max_queue_size} job no_job away in
    let slot : p ≡ (suc h + m) % max_queue_size = omega arith in
    let rest =
      ap (λ k. jobs_from (set xs k job) (suc h) n) slot
      ∙ jobs_from-set xs (suc h) n m job (omega arith) (omega arith) in
    rw (here, rest) refl
