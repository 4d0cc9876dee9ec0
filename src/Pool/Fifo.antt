-- ===== src/Pool/Fifo.antt =====
-- thread_pool.c: the queue of jobs is a first-in first-out queue.
use search_engine.Common.{
  ℕ, suc, ◌+◌, ◌-◌, ◌≡◌, refl, Option, none, some, List, [], ◌∷◌, ◌++◌, true, false, arith, length,
  length-append,
}
use search_engine.Pool.{
  Pool, empty_queue, enqueue_job, dequeue_job, add_job_to_pool, take_job, Op, submit, serve, run,
}
use search_engine.Pool.Chain.{
  Chain, node, linked, Chain-last, Chain-snoc, Chain-first, Chain-weaken, After,
  get_elem?-append_lt, get_elem?-append_eq,
}

module _ {J : Type 0} where
  -- The nodes from `head` on hold the jobs, and `tail` is the last of them, if there is one.
  abbrev pub Linked : Pool J → List J → Type 0
  Linked pool [] = pool.head ≡ none
  Linked pool (j ∷ js) = (t : ℕ) × (pool.tail ≡ some t) × Chain pool.nodes 0 pool.head t (j ∷ js)

  -- The pool is idle and holds the jobs, first the oldest.
  pub record Holds (pool : Pool J) (jobs : List J) : Type 0 where
    pub size : pool.size ≡ length jobs
    pub free : pool.locked ≡ false
    pub chain : Linked pool jobs

  pub create-Holds : Holds empty_queue []
  create-Holds = record { size = refl; free = refl; chain = refl }

  -- What `add_job_to_pool` gives: one more job, behind the others.
  pub add-Holds :
      (pool : Pool J) (jobs : List J) (job : J)
      → Holds pool jobs
      → (pool' : Pool J) × (add_job_to_pool true pool job ≡ some pool')
        × Holds pool' (jobs ++ job ∷ [])
  unfolding add_job_to_pool enqueue_job
  add-Holds pool [] job h = (
    record pool {
      nodes = pool.nodes ++ node job none ∷ [];
      size = pool.size + 1;
      head = some (length pool.nodes);
      tail = some (length pool.nodes);
      locked = false;
    },
    rw h.chain,
    record {
      size = omega (arith, h.size);
      free = refl;
      chain = (
        length pool.nodes,
        refl,
        Chain.last (omega arith) (get_elem?-append_eq pool.nodes (node job none)),
      );
    },
  )
  add-Holds pool (j ∷ js) job h =
      let (t, at, c) = h.chain in
      let (jt, e) = Chain-last c in
      let (_, _, head_there, _, _) = Chain-first c in
      (
        record pool {
          nodes = linked pool.nodes t jt job;
          size = pool.size + 1;
          tail = some (length pool.nodes);
          locked = false;
        },
        ground (arith, head_there, at, get_elem?-append_lt pool.nodes (node job none) t e),
        record {
          size = omega (arith, h.size, length-append js (job ∷ []));
          free = refl;
          chain = (length pool.nodes, refl, Chain-snoc jt job c e);
        },
      )

  -- The queue as a list: what a worker gets, and what is left.
  abbrev pub front : List J → Option J
  front [] = none
  front (j ∷ js) = some j

  abbrev pub rest : List J → List J
  rest [] = []
  rest (j ∷ js) = js

  pub take-Holds :
      (pool : Pool J) (jobs : List J)
      → Holds pool jobs
      → (pool' : Pool J) × (take_job pool ≡ some (front jobs, pool')) × Holds pool' (rest jobs)
  unfolding take_job dequeue_job
  take-Holds pool [] h = (
    record pool { locked = false },
    ground (arith, h.size),
    record { size = h.size; free = refl; chain = h.chain },
  )
  take-Holds pool (j ∷ js) h =
      let (t, at, c) = h.chain in
      let (a, n, head_there, e, after) = Chain-first c in
      (
        record pool { size = pool.size - 1; head = n; locked = false },
        ground (arith, h.size, head_there, e),
        record {
          size = omega (arith, h.size);
          free = refl;
          chain = Linked-After n (suc a) t at js after;
        },
      )
    where
      Linked-After :
          (n : Option ℕ) (b t : ℕ)
          → pool.tail ≡ some t
          → (js' : List J) → After pool.nodes b n t js'
          → Linked (record pool { size = pool.size - 1; head = n; locked = false }) js'
      Linked-After n b t at [] after = after
      Linked-After n b t at (j' ∷ js') after = (t, at, Chain-weaken after)

  -- The answers of a first-in first-out queue.
  unfoldable pub run_fifo : List J → List (Op J) → List (Option J)
  run_fifo jobs [] = []
  run_fifo jobs (submit job ∷ ops) = run_fifo (jobs ++ job ∷ []) ops
  run_fifo jobs (serve ∷ ops) = front jobs ∷ run_fifo (rest jobs) ops

  -- From an idle pool that holds `jobs`, with a node for every job that is added: whatever the
  -- order in which the threads get the lock, the code follows no null pointer, and the workers get
  -- what a first-in first-out queue of `jobs` gives them, that is every job once and in the order
  -- in which the jobs were added.
  pub run-run_fifo :
      (ops : List (Op J)) (pool : Pool J) (jobs : List J)
      → Holds pool jobs
      → run pool ops ≡ some (run_fifo jobs ops)
  unfolding run run_fifo
  run-run_fifo [] pool jobs h = refl
  run-run_fifo (submit job ∷ ops) pool jobs h =
      let (pool', e, h') = add-Holds pool jobs job h in
      rw (e, run) (run-run_fifo ops pool' (jobs ++ job ∷ []) h')
  run-run_fifo (serve ∷ ops) pool jobs h =
      let (pool', e, h') = take-Holds pool jobs h in
      rw (e, run) (rw (run-run_fifo ops pool' (rest jobs) h') refl)
