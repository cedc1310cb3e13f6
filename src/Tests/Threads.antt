-- ===== src/Tests/Threads.antt =====
-- Runs of module_function/frame_thread_pool.c.
use ini.Base.{Option, [], arith, none, refl, some, update, ℕ, ◌∷◌}
use ini.ThreadPool.{
  Runs, ThreadPool, client_step, client_takes, frame_threadpool_init, frame_threadpool_sleep,
  frame_threadpool_wakeup, get_free_job_index, get_valid_job_index, has_called, has_cleared,
  has_free, has_stored, has_valid, is_awake, outside, post_job_free_num, post_job_valid_num,
  sleeping, starting, stays, steps, worker_step, worker_takes,
}
use ini.ThreadPool.Balance.{IsBalanced, Runs-IsBalanced}

abbrev empty_queue : ℕ → Option ℕ
empty_queue i = none

abbrev with_two : ThreadPool
with_two = frame_threadpool_init 2 empty_queue (outside ∷ outside ∷ [])

abbrev stored : ThreadPool
stored = record with_two {
  push_index = 1;
  job_free_sem = 1;
  q_head = update empty_queue 0 (some 7);
  clients = has_stored ∷ outside ∷ [];
}

abbrev popped : ThreadPool
popped = record stored {
  pop_index = 1;
  sleep_thread_num = 1;
  clients = outside ∷ outside ∷ [];
  workers = has_valid 0 ∷ starting ∷ [];
}

stored-run : Runs with_two stored
unfolding client_step get_free_job_index
stored-run =
    steps (steps stays (client_takes [] outside (has_free 0 7) (outside ∷ []) 7 _ refl refl))
      (client_takes [] (has_free 0 7) has_stored (outside ∷ []) 7 _ refl refl)

popped-run : Runs with_two popped
unfolding client_step worker_step get_free_job_index get_valid_job_index post_job_valid_num
    frame_threadpool_sleep
popped-run =
    steps
      (steps (steps stored-run (client_takes [] has_stored outside (outside ∷ []) 7 _ refl refl))
        (worker_takes [] starting sleeping (starting ∷ []) _ refl refl))
      (worker_takes [] sleeping (has_valid 0) (starting ∷ []) _ refl refl)

-- A job in the queue, and a thread about to run it.
Runs-IsBalanced_example : IsBalanced popped
Runs-IsBalanced_example =
    Runs-IsBalanced 2 empty_queue (outside ∷ outside ∷ []) (ground arith) (refl, (refl, tt))
      popped-run

-- Two clients take the places 0 and 1, and the second is through before the first has stored its
-- job. A worker finds nothing at 0; then the job is stored there, and the worker runs the other.
abbrev overtaken : ThreadPool
overtaken = record with_two {
  push_index = 0;
  pop_index = 1;
  job_free_sem = 1;
  q_head = update (update empty_queue 1 (some 8)) 0 none;
}

abbrev job_missed : ThreadPool
job_missed = record overtaken {
  pop_index = 0;
  job_free_sem = 2;
  q_head = update (update overtaken.q_head 0 (some 7)) 1 none;
  ran = 8 ∷ [];
}

abbrev first_waits : ThreadPool → ThreadPool
first_waits t = record t { clients = has_free 0 7 ∷ outside ∷ [] }

second-run : Runs with_two (record with_two {
  job_free_sem = 0;
  job_valid_sem = 1;
  q_head = update empty_queue 1 (some 8);
  clients = has_free 0 7 ∷ outside ∷ [];
})
unfolding client_step get_free_job_index post_job_valid_num
second-run =
    let a = steps stays (client_takes [] outside (has_free 0 7) (outside ∷ []) 7 _ refl refl) in
    let b = steps a (client_takes (has_free 0 7 ∷ []) outside (has_free 1 8) [] 8 _ refl refl) in
    let c = steps b (client_takes (has_free 0 7 ∷ []) (has_free 1 8) has_stored [] 8 _ refl refl) in
    steps c (client_takes (has_free 0 7 ∷ []) has_stored outside [] 8 _ refl refl)

overtaken-run : Runs with_two (first_waits overtaken)
unfolding worker_step get_valid_job_index post_job_free_num frame_threadpool_sleep
    frame_threadpool_wakeup
overtaken-run =
    let c = steps second-run (worker_takes [] starting sleeping (starting ∷ []) _ refl refl) in
    let d = steps c (worker_takes [] sleeping (has_valid 0) (starting ∷ []) _ refl refl) in
    let e = steps d (worker_takes [] (has_valid 0) (is_awake 0) (starting ∷ []) _ refl refl) in
    let f = steps e (worker_takes [] (is_awake 0) (has_called 0) (starting ∷ []) _ refl refl) in
    let g = steps f (worker_takes [] (has_called 0) (has_cleared 0) (starting ∷ []) _ refl refl) in
    steps g (worker_takes [] (has_cleared 0) starting (starting ∷ []) _ refl refl)

missed-run : Runs with_two job_missed
unfolding client_step worker_step get_valid_job_index post_job_free_num post_job_valid_num
    frame_threadpool_sleep frame_threadpool_wakeup
missed-run =
    let a =
      steps overtaken-run
        (client_takes [] (has_free 0 7) has_stored (outside ∷ []) 7 _ refl refl) in
    let b = steps a (client_takes [] has_stored outside (outside ∷ []) 7 _ refl refl) in
    let c = steps b (worker_takes [] starting sleeping (starting ∷ []) _ refl refl) in
    let d = steps c (worker_takes [] sleeping (has_valid 1) (starting ∷ []) _ refl refl) in
    let e = steps d (worker_takes [] (has_valid 1) (is_awake 1) (starting ∷ []) _ refl refl) in
    let f = steps e (worker_takes [] (is_awake 1) (has_called 1) (starting ∷ []) _ refl refl) in
    let g = steps f (worker_takes [] (has_called 1) (has_cleared 1) (starting ∷ []) _ refl refl) in
    steps g (worker_takes [] (has_cleared 1) starting (starting ∷ []) _ refl refl)

-- One client, and a first worker that is slow. The second is through with the place 1 before the
-- first has cleared its own; the client's third job goes to the place 0, and is cleared with it.
abbrev with_one : ThreadPool
with_one = frame_threadpool_init 2 empty_queue (outside ∷ [])

abbrev is_slow : ThreadPool
is_slow = record with_one {
  job_free_sem = 0;
  job_valid_sem = 1;
  sleep_thread_num = 1;
  q_head = update (update empty_queue 0 (some 1)) 1 (some 2);
  ran = 1 ∷ [];
  workers = has_called 0 ∷ sleeping ∷ [];
}

abbrev third_cleared : ThreadPool
third_cleared = record is_slow {
  push_index = 1;
  job_free_sem = 1;
  sleep_thread_num = 0;
  q_head = update (update (update is_slow.q_head 1 none) 0 (some 3)) 0 none;
  ran = 1 ∷ 2 ∷ [];
  workers = starting ∷ starting ∷ [];
}

two_jobs-run :
    Runs with_one (record with_one { job_free_sem = 0; job_valid_sem = 2; q_head = is_slow.q_head })
unfolding client_step get_free_job_index post_job_valid_num
two_jobs-run =
    let a = steps stays (client_takes [] outside (has_free 0 1) [] 1 _ refl refl) in
    let b = steps a (client_takes [] (has_free 0 1) has_stored [] 1 _ refl refl) in
    let c = steps b (client_takes [] has_stored outside [] 1 _ refl refl) in
    let d = steps c (client_takes [] outside (has_free 1 2) [] 2 _ refl refl) in
    let e = steps d (client_takes [] (has_free 1 2) has_stored [] 2 _ refl refl) in
    steps e (client_takes [] has_stored outside [] 2 _ refl refl)

is_slow-run : Runs with_one (record is_slow { pop_index = 1 })
unfolding worker_step get_valid_job_index frame_threadpool_sleep frame_threadpool_wakeup
is_slow-run =
    let a = steps two_jobs-run (worker_takes [] starting sleeping (starting ∷ []) _ refl refl) in
    let b = steps a (worker_takes [] sleeping (has_valid 0) (starting ∷ []) _ refl refl) in
    let c = steps b (worker_takes [] (has_valid 0) (is_awake 0) (starting ∷ []) _ refl refl) in
    let d = steps c (worker_takes [] (is_awake 0) (has_called 0) (starting ∷ []) _ refl refl) in
    steps d (worker_takes (has_called 0 ∷ []) starting sleeping [] _ refl refl)

third_cleared-run : Runs with_one (record third_cleared { job_valid_sem = 1 })
unfolding client_step worker_step get_free_job_index get_valid_job_index post_job_free_num
    post_job_valid_num frame_threadpool_sleep frame_threadpool_wakeup
third_cleared-run =
    let slow = has_called 0 ∷ [] in
    let a = steps is_slow-run (worker_takes slow sleeping (has_valid 1) [] _ refl refl) in
    let b = steps a (worker_takes slow (has_valid 1) (is_awake 1) [] _ refl refl) in
    let c = steps b (worker_takes slow (is_awake 1) (has_called 1) [] _ refl refl) in
    let d = steps c (worker_takes slow (has_called 1) (has_cleared 1) [] _ refl refl) in
    let e = steps d (worker_takes slow (has_cleared 1) starting [] _ refl refl) in
    let f = steps e (client_takes [] outside (has_free 0 3) [] 3 _ refl refl) in
    let g = steps f (client_takes [] (has_free 0 3) has_stored [] 3 _ refl refl) in
    let h = steps g (client_takes [] has_stored outside [] 3 _ refl refl) in
    let i = steps h (worker_takes [] (has_called 0) (has_cleared 0) (starting ∷ []) _ refl refl) in
    steps i (worker_takes [] (has_cleared 0) starting (starting ∷ []) _ refl refl)
