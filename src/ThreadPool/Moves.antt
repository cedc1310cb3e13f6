-- ===== src/ThreadPool/Moves.antt =====
-- One step of module_function/frame_thread_pool.c: its semaphores, its indexes and the threads that
-- sleep.
use ini.Base.{
  Bool, Bool-cases, List, Option, Option-cases, [], arith, false, if◌then◌else◌, inl, inr, none,
  refl, some, true, ℕ, ◌++◌, ◌+◌, ◌<◌, ◌==◌, ◌∷◌, ◌≡◌, ◌≤◌,
}
use ini.ThreadPool.{
  Client, ThreadPool, Worker, client_step, ended, get_free_job_index, get_valid_job_index,
  has_called, has_cleared, has_free, has_stored, has_valid, is_awake, next_index, outside,
  post_job_free_num, sleeping, starting, worker_step,
}

-- Whether a thread has taken from one semaphore and not yet posted to the other, and whether it
-- counts as asleep.
abbrev pub client_holds : Client → ℕ
client_holds outside = 0
client_holds (has_free i j) = 1
client_holds has_stored = 1

abbrev pub worker_holds : Worker → ℕ
worker_holds starting = 0
worker_holds sleeping = 0
worker_holds ended = 0
worker_holds (has_valid i) = 1
worker_holds (is_awake i) = 1
worker_holds (has_called i) = 1
worker_holds (has_cleared i) = 1

abbrev pub worker_sleeps : Worker → ℕ
worker_sleeps sleeping = 1
worker_sleeps (has_valid i) = 1
worker_sleeps _ = 0

abbrev pub total {ℓ} : {A : Type ℓ} → (A → ℕ) → List A → ℕ
total f [] = 0
total f (x ∷ xs) = f x + total f xs

pub total-append {ℓ} :
    {A : Type ℓ} (f : A → ℕ) (xs ys : List A) → total f (xs ++ ys) ≡ total f xs + total f ys
total-append f [] ys = omega arith
total-append f (x ∷ xs) ys = omega (arith, total-append f xs ys)

-- The index of a thread is one of the queue's.
abbrev pub ClientIn : ℕ → Client → Type 0
ClientIn n (has_free i j) = i < n
ClientIn n _ = Unit

abbrev pub WorkerIn : ℕ → Worker → Type 0
WorkerIn n (has_valid i) = i < n
WorkerIn n (is_awake i) = i < n
WorkerIn n (has_called i) = i < n
WorkerIn n (has_cleared i) = i < n
WorkerIn n _ = Unit

-- What a client's step does to the pool.
pub record ClientMoves (c c' : Client) (t u : ThreadPool) : Type 0 where
  pub places :
      u.job_free_sem + u.job_valid_sem + client_holds c'
      ≡ t.job_free_sem + t.job_valid_sem + client_holds c
  pub size_same : u.job_queue_size ≡ t.job_queue_size
  pub push_in : u.push_index < t.job_queue_size
  pub pop_same : u.pop_index ≡ t.pop_index
  pub sleep_same : u.sleep_thread_num ≡ t.sleep_thread_num
  pub workers_same : u.workers ≡ t.workers
  pub client_in : ClientIn t.job_queue_size c'

next_index_in : (i n : ℕ) → i < n → next_index i n < n
next_index_in i n l = ground arith

abbrev pub ClientStepped : Client → ThreadPool → Option (Client × ThreadPool) → Type 0
ClientStepped c t none = Unit
ClientStepped c t (some (c', u)) = ClientMoves c c' t u

pub client_step-ClientMoves :
    (j : ℕ) (c : Client) (t : ThreadPool)
    → t.push_index < t.job_queue_size
    → ClientIn t.job_queue_size c
    → ClientStepped c t (client_step j c t)
unfolding client_step
client_step-ClientMoves j outside t l h = elim (Bool-cases t.is_quit) [
  | inl q ↦
      rw (client_step, q)
        (record {
          places = refl;
          size_same = refl;
          push_in = l;
          pop_same = refl;
          sleep_same = refl;
          workers_same = refl;
          client_in = tt;
        })
  | inr q ↦ elim (Bool-cases (t.job_free_sem == 0)) [
    | inl z ↦ rw (client_step, q, get_free_job_index, z) tt
    | inr z ↦
        rw (client_step, q, get_free_job_index, z)
          (record {
            places = ground arith;
            size_same = refl;
            push_in = next_index_in t.push_index t.job_queue_size l;
            pop_same = refl;
            sleep_same = refl;
            workers_same = refl;
            client_in = l;
          })
  ]
]
client_step-ClientMoves j (has_free i k) t l h = record {
  places = refl;
  size_same = refl;
  push_in = l;
  pop_same = refl;
  sleep_same = refl;
  workers_same = refl;
  client_in = tt;
}
client_step-ClientMoves j has_stored t l h = record {
  places = omega arith;
  size_same = refl;
  push_in = l;
  pop_same = refl;
  sleep_same = refl;
  workers_same = refl;
  client_in = tt;
}

-- And a worker's.
pub record WorkerMoves (w w' : Worker) (t u : ThreadPool) : Type 0 where
  pub places :
      u.job_free_sem + u.job_valid_sem + worker_holds w'
      ≡ t.job_free_sem + t.job_valid_sem + worker_holds w
  pub size_same : u.job_queue_size ≡ t.job_queue_size
  pub push_same : u.push_index ≡ t.push_index
  pub pop_in : u.pop_index < t.job_queue_size
  pub asleep : u.sleep_thread_num + worker_sleeps w ≡ t.sleep_thread_num + worker_sleeps w'
  pub clients_same : u.clients ≡ t.clients
  pub worker_in : WorkerIn t.job_queue_size w'

-- A step that leaves the semaphores, and the index and the sleep of the thread.
same_counts :
    (w w' : Worker) (t : ThreadPool) {ran : List ℕ} {q_head : ℕ → Option ℕ}
    → t.pop_index < t.job_queue_size
    → worker_holds w' ≡ worker_holds w
    → worker_sleeps w' ≡ worker_sleeps w
    → WorkerIn t.job_queue_size w'
    → WorkerMoves w w' t (record t { ran = ran; q_head = q_head })
same_counts w w' t l a b h = record {
  places = omega arith;
  size_same = refl;
  push_same = refl;
  pop_in = l;
  asleep = omega arith;
  clients_same = refl;
  worker_in = h;
}

abbrev pub WorkerStepped : Worker → ThreadPool → Option (Worker × ThreadPool) → Type 0
WorkerStepped w t none = Unit
WorkerStepped w t (some (w', u)) = WorkerMoves w w' t u

pub worker_step-WorkerMoves :
    (w : Worker) (t : ThreadPool)
    → t.pop_index < t.job_queue_size
    → WorkerIn t.job_queue_size w
    → worker_sleeps w ≤ t.sleep_thread_num
    → WorkerStepped w t (worker_step w t)
unfolding worker_step post_job_free_num
worker_step-WorkerMoves starting t l h s = record {
  places = refl;
  size_same = refl;
  push_same = refl;
  pop_in = l;
  asleep = omega arith;
  clients_same = refl;
  worker_in = tt;
}
worker_step-WorkerMoves sleeping t l h s = elim (Bool-cases (t.job_valid_sem == 0)) [
  | inl z ↦ rw (worker_step, get_valid_job_index, z) tt
  | inr z ↦
      rw (worker_step, get_valid_job_index, z)
        (record {
          places = ground arith;
          size_same = refl;
          push_same = refl;
          pop_in = next_index_in t.pop_index t.job_queue_size l;
          asleep = refl;
          clients_same = refl;
          worker_in = l;
        })
]
worker_step-WorkerMoves (has_valid i) t l h s = record {
  places = refl;
  size_same = refl;
  push_same = refl;
  pop_in = l;
  asleep = omega arith;
  clients_same = refl;
  worker_in = h;
}
worker_step-WorkerMoves (is_awake i) t l h s = elim (Option-cases (t.q_head i)) [
  | inl e ↦ rw (worker_step, e) (same_counts (is_awake i) (has_called i) t l refl refl h)
  | inr (j, e) ↦ rw (worker_step, e) (same_counts (is_awake i) (has_called i) t l refl refl h)
]
worker_step-WorkerMoves (has_called i) t l h s =
    same_counts (has_called i) (has_cleared i) t l refl refl h
worker_step-WorkerMoves (has_cleared i) t l h s = freed t.is_quit
  where
    freed :
        (q : Bool)
        → WorkerMoves (has_cleared i) (if q then ended else starting) t (post_job_free_num t)
    freed true = record {
      places = omega arith;
      size_same = refl;
      push_same = refl;
      pop_in = l;
      asleep = refl;
      clients_same = refl;
      worker_in = tt;
    }
    freed false = record {
      places = omega arith;
      size_same = refl;
      push_same = refl;
      pop_in = l;
      asleep = refl;
      clients_same = refl;
      worker_in = tt;
    }
worker_step-WorkerMoves ended t l h s = tt
