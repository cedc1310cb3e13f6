-- ===== src/ThreadPool.antt =====
-- The thread pool of module_function/frame_thread_pool.c: a ring of jobs between the threads that
-- add jobs and the threads that run them. `sem_wait` with the locked lines behind it is one step of
-- a thread, which can be taken when the semaphore is not 0; so is each access of the queue and each
-- `sem_post`. Any other thread can come in between two steps.
pub mod Moves
pub mod Balance
use ini.Base.{
  Bool, List, Option, [], false, if◌then◌else◌, none, some, suc, update, zero, ℕ, ◌++◌, ◌+◌, ◌-◌,
  ◌==◌, ◌∷◌, ◌≡◌,
}

-- A thread in `frame_add_job_queue`: before its call, with an index and a job, and with the job in
-- the queue.
pub data Client : Type 0 where
  outside : Client
  has_free : ℕ → ℕ → Client
  has_stored : Client

-- A thread in `thread_routine`, with the index that it was given: before it sleeps, in its sleep,
-- with an index, awake, behind the call of the job, with the job cleared, and ended.
pub data Worker : Type 0 where
  starting sleeping ended : Worker
  has_valid is_awake has_called has_cleared : ℕ → Worker

-- The static `thread_pool_` and the threads. A job is a number; NULL in its place is `none`. `ran`
-- are the jobs that were called.
pub record ThreadPool : Type 0 where
  pub job_queue_size : ℕ
  pub push_index : ℕ
  pub pop_index : ℕ
  pub job_free_sem : ℕ
  pub job_valid_sem : ℕ
  pub q_head : ℕ → Option ℕ
  pub sleep_thread_num : ℕ
  pub is_quit : Bool
  pub ran : List ℕ
  pub clients : List Client
  pub workers : List Worker

-- An index moved on, and back to 0 at the end of the queue.
abbrev pub next_index : ℕ → ℕ → ℕ
next_index i size = if i + 1 == size then 0 else i + 1

unfoldable pub get_free_job_index : ThreadPool → Option (ℕ × ThreadPool)
get_free_job_index t =
    if t.job_free_sem == 0
    then none
    else some (
      t.push_index,
      record t {
        job_free_sem = t.job_free_sem - 1;
        push_index = next_index t.push_index t.job_queue_size;
      },
    )

unfoldable pub get_valid_job_index : ThreadPool → Option (ℕ × ThreadPool)
get_valid_job_index t =
    if t.job_valid_sem == 0
    then none
    else some (
      t.pop_index,
      record t {
        job_valid_sem = t.job_valid_sem - 1;
        pop_index = next_index t.pop_index t.job_queue_size;
      },
    )

unfoldable pub post_job_free_num : ThreadPool → ThreadPool
post_job_free_num t = record t { job_free_sem = t.job_free_sem + 1 }

unfoldable pub post_job_valid_num : ThreadPool → ThreadPool
post_job_valid_num t = record t { job_valid_sem = t.job_valid_sem + 1 }

unfoldable pub frame_threadpool_sleep : ThreadPool → ThreadPool
frame_threadpool_sleep t = record t { sleep_thread_num = t.sleep_thread_num + 1 }

unfoldable pub frame_threadpool_wakeup : ThreadPool → ThreadPool
frame_threadpool_wakeup t = record t { sleep_thread_num = t.sleep_thread_num - 1 }

-- `curr_job->call(curr_job->arg)`, where there is a call.
abbrev pub call_job : Option ℕ → ThreadPool → ThreadPool
call_job none t = t
call_job (some j) t = record t { ran = t.ran ++ (j ∷ []) }

-- The next step of a thread that adds the job `j`: its state then, and the pool. `none` waits. With
-- `is_quit` the call is over at once, by its -1.
unfoldable pub client_step : ℕ → Client → ThreadPool → Option (Client × ThreadPool)
unfolding get_free_job_index post_job_valid_num
client_step j outside t =
    if t.is_quit
    then some (outside, t)
    else elim (get_free_job_index t) [ none ↦ none | some (i, t') ↦ some (has_free i j, t') ]
client_step j (has_free i k) t = some (has_stored, record t { q_head = update t.q_head i (some k) })
client_step j has_stored t = some (outside, post_job_valid_num t)

-- The next step of a thread of the pool.
unfoldable pub worker_step : Worker → ThreadPool → Option (Worker × ThreadPool)
unfolding get_valid_job_index post_job_free_num frame_threadpool_sleep frame_threadpool_wakeup
worker_step starting t = some (sleeping, frame_threadpool_sleep t)
worker_step sleeping t = elim (get_valid_job_index t) [
  | none ↦ none
  | some (i, t') ↦ some (has_valid i, t')
]
worker_step (has_valid i) t = some (is_awake i, frame_threadpool_wakeup t)
worker_step (is_awake i) t = some (has_called i, call_job (t.q_head i) t)
worker_step (has_called i) t = some (has_cleared i, record t { q_head = update t.q_head i none })
worker_step (has_cleared i) t = some (if t.is_quit then ended else starting, post_job_free_num t)
worker_step ended t = none

abbrev pub starting_workers : ℕ → List Worker
starting_workers zero = []
starting_workers (suc n) = starting ∷ starting_workers n

-- With all threads created, the queue as malloc leaves it, and clients that are not in a call yet.
abbrev pub frame_threadpool_init : ℕ → (ℕ → Option ℕ) → List Client → ThreadPool
frame_threadpool_init thread_size queue clients = record {
  job_queue_size = thread_size;
  push_index = 0;
  pop_index = 0;
  job_free_sem = thread_size;
  job_valid_sem = 0;
  q_head = queue;
  sleep_thread_num = 0;
  is_quit = false;
  ran = [];
  clients = clients;
  workers = starting_workers thread_size;
}

-- `frame_threadpool_sleep_num`
abbrev pub frame_threadpool_sleep_num : ThreadPool → ℕ
frame_threadpool_sleep_num t = t.sleep_thread_num

-- Any interleaving: the threads before and behind the one that takes the step stand still.
pub data Step (t : ThreadPool) : ThreadPool → Type 0 where
  client_takes :
      (before : List Client) (c c' : Client) (after : List Client) (j : ℕ) (u : ThreadPool)
      → t.clients ≡ before ++ (c ∷ after)
      → client_step j c t ≡ some (c', u)
      → Step t (record u { clients = before ++ (c' ∷ after) })
  worker_takes :
      (before : List Worker) (w w' : Worker) (after : List Worker) (u : ThreadPool)
      → t.workers ≡ before ++ (w ∷ after)
      → worker_step w t ≡ some (w', u)
      → Step t (record u { workers = before ++ (w' ∷ after) })

pub data Runs (t : ThreadPool) : ThreadPool → Type 0 where
  stays : Runs t t
  steps : {u v : ThreadPool} → Runs t u → Step u v → Runs t v
