-- ===== src/Pool.antt =====
-- thread_pool.c: the queue of jobs, and what the main thread and the workers do with it. A pointer
-- to a `Job_Node` is its place in the list of all nodes that were allocated, none of which the code
-- frees. The outer `none` of a result is a null pointer that is followed.
pub mod Chain
pub mod Fifo
pub mod Drain
pub mod Start
use search_engine.Common.{
  ℕ, ◌+◌, ◌-◌, Option, none, some, List, [], ◌∷◌, ◌++◌, Bool, true, false, ◌==◌, if◌then◌else◌,
  ◌>>=◌, get_elem?, set, length,
}

pub record Node (J : Type 0) : Type 0 where
  pub job : J
  pub next : Option ℕ

-- `struct Job_Queue`, with the nodes, and whether `_mutex_lock` is held.
pub record Pool (J : Type 0) : Type 0 where
  pub nodes : List (Node J)
  pub size : ℕ
  pub head : Option ℕ
  pub tail : Option ℕ
  pub locked : Bool

module _ {J : Type 0} where
  -- A new queue.
  abbrev pub empty_queue : Pool J
  empty_queue = record { nodes = []; size = 0; head = none; tail = none; locked = false }

  -- `create_job_queue`; `allocated` says whether `tc_calloc` gave the queue. If not, `Job_queue` stays
  -- null.
  unfoldable pub create_job_queue : (allocated : Bool) → Option (Pool J)
  create_job_queue false = none
  create_job_queue true = some empty_queue

  -- `ptr->next = node`.
  pub set_next : List (Node J) → Option ℕ → ℕ → Option (List (Node J))
  set_next nodes none node = none
  set_next nodes (some ptr) node = elim (get_elem? nodes ptr) [
    | none ↦ none
    | some n ↦ some (set nodes ptr (record n { next = some node }))
  ]

  pub enqueue_job : Pool J → ℕ → Option (Pool J)
  unfolding set_next
  enqueue_job pool job_node = elim pool.head [
    | none ↦ some (record pool { size = pool.size + 1; head = some job_node; tail = some job_node })
    | some _ ↦ elim (set_next pool.nodes pool.tail job_node) [
      | none ↦ none
      | some nodes ↦
          some (record pool { nodes = nodes; size = pool.size + 1; tail = some job_node })
    ]
  ]

  -- The job is `none` where `dequeue_job` returns null. `tail` is not reset.
  pub dequeue_job : Pool J → Option (Option J × Pool J)
  dequeue_job pool = if pool.size == 0 then some (none, pool) else elim pool.head [
    | none ↦ none
    | some tmp ↦ elim (get_elem? pool.nodes tmp) [
      | none ↦ none
      | some n ↦ some (some n.job, record pool { size = pool.size - 1; head = n.next })
    ]
  ]

  -- `add_job_to_pool`, from where the lock has been taken. `allocated` says whether `tc_calloc` gave
  -- a node; if it did not, the function returns and the lock stays held.
  pub add_job_to_pool : (allocated : Bool) → Pool J → J → Option (Pool J)
  add_job_to_pool false pool job = some (record pool { locked = true })
  add_job_to_pool true pool job = do
    let node = length pool.nodes
    let pool' = record pool {
      nodes = pool.nodes ++ record { job = job; next = none } ∷ [];
      locked = true;
    }
    pool'' ← enqueue_job pool' node
    some (record pool'' { locked = false })

  -- A round of `activate_workers` under the lock: with no job the worker waits and gives the lock
  -- back, and otherwise it takes one.
  pub take_job : Pool J → Option (Option J × Pool J)
  take_job pool = if pool.size == 0 then some (none, record pool { locked = false }) else (do
    (job, pool') ← dequeue_job (record pool { locked = true })
    some (job, record pool' { locked = false }))

-- What the threads do under the lock, in the order in which they get it.
pub data Op (J : Type 0) : Type 0 where
  submit : J → Op J
  serve : Op J

module _ {J : Type 0} where
  -- The answers to the workers, in order; `none` to one that waits. A node can be allocated for
  -- every job.
  pub run : Pool J → List (Op J) → Option (List (Option J))
  run pool [] = some []
  run pool (submit job ∷ ops) = elim (add_job_to_pool true pool job) [
    | none ↦ none
    | some pool' ↦ run pool' ops
  ]
  run pool (serve ∷ ops) = elim (take_job pool) [
    | none ↦ none
    | some (job, pool') ↦ elim (run pool' ops) [ none ↦ none | some jobs ↦ some (job ∷ jobs) ]
  ]
