-- ===== src/ThreadPool/Balance.antt =====
-- The counts of module_function/frame_thread_pool.c, for any threads and any interleaving of their
-- steps.
use ini.Base.{
  All, All-append, All-append_left, All-append_right, List, Option, [], ap, arith, refl, subst, suc,
  sym, zero, ℕ, ◌++◌, ◌+◌, ◌<◌, ◌∙◌, ◌∷◌, ◌≡◌,
}
use ini.ThreadPool.{
  Client, Runs, Step, ThreadPool, Worker, client_takes, frame_threadpool_init, outside,
  starting_workers, stays, steps, worker_takes,
}
use ini.ThreadPool.Moves.{
  ClientIn, ClientMoves, ClientStepped, WorkerIn, WorkerMoves, WorkerStepped, client_holds,
  client_step-ClientMoves, total, total-append, worker_holds, worker_sleeps,
  worker_step-WorkerMoves,
}

-- The two semaphores, and the threads that are between them, count up to the size of the queue; and
-- the indexes are indexes of the queue.
pub record IsBalanced (t : ThreadPool) : Type 0 where
  pub places :
      t.job_free_sem
        + t.job_valid_sem
        + (total client_holds t.clients + total worker_holds t.workers)
      ≡ t.job_queue_size
  pub push_in : t.push_index < t.job_queue_size
  pub pop_in : t.pop_index < t.job_queue_size
  pub asleep : t.sleep_thread_num ≡ total worker_sleeps t.workers
  pub clients_in : All (ClientIn t.job_queue_size) t.clients
  pub workers_in : All (WorkerIn t.job_queue_size) t.workers

client_takes-IsBalanced :
    (t : ThreadPool) (before : List Client) (c c' : Client) (after : List Client) (u : ThreadPool)
    → IsBalanced t
    → t.clients ≡ before ++ (c ∷ after)
    → ClientMoves c c' t u
    → IsBalanced (record u { clients = before ++ (c' ∷ after) })
client_takes-IsBalanced t before c c' after u v e m =
    let old_total = ap (total client_holds) e ∙ total-append client_holds before (c ∷ after) in
    let new_total = total-append client_holds before (c' ∷ after) in
    let workers_total = ap (total worker_holds) m.workers_same in
    let others = subst (All (ClientIn t.job_queue_size)) e v.clients_in in
    let all_in =
      All-append (ClientIn t.job_queue_size) before (c' ∷ after)
        (All-append_left _ before (c ∷ after) others)
        (m.client_in, (All-append_right _ before (c ∷ after) others).1) in
    record {
      places = omega (arith, old_total, new_total, workers_total, v.places, m.places, m.size_same);
      push_in = omega (arith, m.push_in, m.size_same);
      pop_in = omega (arith, m.pop_same, v.pop_in, m.size_same);
      asleep = omega (arith, m.sleep_same, v.asleep, ap (total worker_sleeps) m.workers_same);
      clients_in = subst (λ n. All (ClientIn n) (before ++ (c' ∷ after))) (sym m.size_same) all_in;
      workers_in =
          subst (λ n. All (WorkerIn n) u.workers) (sym m.size_same)
            (subst (All (WorkerIn t.job_queue_size)) (sym m.workers_same) v.workers_in);
    }

worker_takes-IsBalanced :
    (t : ThreadPool) (before : List Worker) (w w' : Worker) (after : List Worker) (u : ThreadPool)
    → IsBalanced t
    → t.workers ≡ before ++ (w ∷ after)
    → WorkerMoves w w' t u
    → IsBalanced (record u { workers = before ++ (w' ∷ after) })
worker_takes-IsBalanced t before w w' after u v e m =
    let old_total = ap (total worker_holds) e ∙ total-append worker_holds before (w ∷ after) in
    let new_total = total-append worker_holds before (w' ∷ after) in
    let old_sleep = ap (total worker_sleeps) e ∙ total-append worker_sleeps before (w ∷ after) in
    let new_sleep = total-append worker_sleeps before (w' ∷ after) in
    let clients_total = ap (total client_holds) m.clients_same in
    let others = subst (All (WorkerIn t.job_queue_size)) e v.workers_in in
    let all_in =
      All-append (WorkerIn t.job_queue_size) before (w' ∷ after)
        (All-append_left _ before (w ∷ after) others)
        (m.worker_in, (All-append_right _ before (w ∷ after) others).1) in
    record {
      places = omega (arith, old_total, new_total, clients_total, v.places, m.places, m.size_same);
      push_in = omega (arith, m.push_same, v.push_in, m.size_same);
      pop_in = omega (arith, m.pop_in, m.size_same);
      asleep = omega (arith, m.asleep, v.asleep, old_sleep, new_sleep);
      clients_in =
          subst (λ n. All (ClientIn n) u.clients) (sym m.size_same)
            (subst (All (ClientIn t.job_queue_size)) (sym m.clients_same) v.clients_in);
      workers_in = subst (λ n. All (WorkerIn n) (before ++ (w' ∷ after))) (sym m.size_same) all_in;
    }

Step-IsBalanced : {t u : ThreadPool} → Step t u → IsBalanced t → IsBalanced u
Step-IsBalanced {t} (client_takes before c c' after j u e s) v =
    let own =
      (All-append_right _ before (c ∷ after)
        (subst (All (ClientIn t.job_queue_size)) e v.clients_in)).0 in
    client_takes-IsBalanced t before c c' after u v e
      (subst (ClientStepped c t) s (client_step-ClientMoves j c t v.push_in own))
Step-IsBalanced {t} (worker_takes before w w' after u e s) v =
    let own =
      (All-append_right _ before (w ∷ after)
        (subst (All (WorkerIn t.job_queue_size)) e v.workers_in)).0 in
    let sleeps = ap (total worker_sleeps) e ∙ total-append worker_sleeps before (w ∷ after) in
    worker_takes-IsBalanced t before w w' after u v e (
      subst (WorkerStepped w t) s
        (worker_step-WorkerMoves w t v.pop_in own (omega (arith, sleeps, v.asleep))))

-- The pool as it is made, with clients that are not in a call.
starting_workers_lem :
    (n k : ℕ)
    → (total worker_holds (starting_workers n) ≡ 0)
      × (total worker_sleeps (starting_workers n) ≡ 0)
      × All (WorkerIn k) (starting_workers n)
starting_workers_lem zero k = (refl, refl, tt)
starting_workers_lem (suc n) k =
    let (a, b, c) = starting_workers_lem n k in (omega arith, omega arith, (tt, c))

outside_lem :
    (cs : List Client) (k : ℕ)
    → All (λ c. c ≡ outside) cs
    → (total client_holds cs ≡ 0) × All (ClientIn k) cs
outside_lem [] k h = (refl, tt)
outside_lem (c ∷ cs) k h =
    let (a, b) = outside_lem cs k h.1 in
    (omega (arith, a, ap client_holds h.0), (subst (ClientIn k) (sym h.0) tt, b))

frame_threadpool_init-IsBalanced :
    (n : ℕ) (queue : ℕ → Option ℕ) (cs : List Client)
    → 0 < n
    → All (λ c. c ≡ outside) cs
    → IsBalanced (frame_threadpool_init n queue cs)
frame_threadpool_init-IsBalanced n queue cs l h =
    let (a, b, c) = starting_workers_lem n n in
    let (d, e) = outside_lem cs n h in
    record {
      places = omega arith;
      push_in = l;
      pop_in = l;
      asleep = sym b;
      clients_in = e;
      workers_in = c;
    }

Runs-Balanced : {t u : ThreadPool} → IsBalanced t → Runs t u → IsBalanced u
Runs-Balanced v stays = v
Runs-Balanced v (steps r s) = Step-IsBalanced s (Runs-Balanced v r)

-- However many threads add and run jobs, and in whatever order they take their steps, from the
-- pool as it is made: the two semaphores and the places that threads are at come to the size of
-- the queue together, so that neither semaphore passes it; every index that is kept or handed out
-- is one of the queue's; and the count of sleeping threads is the number of those that sleep.
pub Runs-IsBalanced :
    (n : ℕ) (queue : ℕ → Option ℕ) (cs : List Client) {t : ThreadPool}
    → 0 < n
    → All (λ c. c ≡ outside) cs
    → Runs (frame_threadpool_init n queue cs) t
    → IsBalanced t
Runs-IsBalanced n queue cs l h r = Runs-Balanced (frame_threadpool_init-IsBalanced n queue cs l h) r
