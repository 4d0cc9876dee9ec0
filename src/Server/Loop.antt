-- ===== src/Server/Loop.antt =====
-- server.c: the loop of `main` over `select`, which gives connections to the pool of workers. `none` is a
-- fault: an access outside of an `fd_set` or of the queue, or no round left.
pub mod Watched
pub mod Reach
pub mod Round
pub mod Scan
use search_engine.Common.{
  ℕ, zero, suc, ◌+◌, ◌-◌, ◌*◌, ◌/◌, ◌%◌, ◌^◌, ◌<◌, ◌≤◌, ◌≡◌, ◌≢◌, ◌⊎◌, ◌↔◌, inl, inr, refl, sym, ap,
  ◌∙◌, Option, none, some, List, [], ◌∷◌, ◌++◌, Bool, true, false, not, ◌&&◌, ◌||◌, arith, ltb, leb,
  ◌==◌, min, append-nil, append_assoc, if◌then◌else◌, ltb→lt, lt→ltb, leb→le, ==_iff, Bool-cases,
  Option-cases, length, get_elem?, set, get_or, take, drop, replicate, length-set,
  get_elem?-set_self, get_elem?-set_ne, length-append, length-replicate, length-take, length-drop,
  take-append-drop, get_elem?-set_inv, ◌>>=◌, get_elem?-set_at, drop-add, drop-suc, drop-append,
  drop-set, get_or-drop, set-set, set-get_elem?,
}
use search_engine.Pool.{Pool, create_job_queue, add_job_to_pool, take_job}

-- What the loop keeps: `currentfds`, `maxfd`, and the queue of the pool. A job is its `fd`.
pub record Watch : Type 0 where
  pub currentfds : List Bool
  pub maxfd : ℕ
  pub pool : Pool ℕ

-- FD_SET and FD_CLR, on a set of FD_SETSIZE bits.
unfoldable pub fd_set : List Bool → ℕ → Bool → Option (List Bool)
fd_set fds fd bit = do _ ← get_elem? fds fd; some (set fds fd bit)

-- The loop over `accept`, which gives these descriptors and then fails; one that is 0 ends it.
unfoldable pub accept_all : List ℕ → Watch → Option Watch
unfolding fd_set
accept_all [] w = some w
accept_all (newfd ∷ accepted) w =
    let next = (do
      fds ← fd_set w.currentfds newfd true
      accept_all accepted
          (record w { currentfds = fds; maxfd = if ltb w.maxfd newfd then newfd else w.maxfd })) in
    if newfd == 0 then some w else next

-- What the system has given in a round: `readyfds`, the result `rc`, the descriptors of the new
-- connections, and for each connection whether its `args` and its job, and the node of the queue, are
-- allocated.
pub record Event : Type 0 where
  pub readyfds : List Bool
  pub rc : ℕ
  pub accepted : List ℕ
  pub allocates : ℕ → Bool
  pub adds : ℕ → Bool

-- A connection that is ready: its job is added to the pool, and it is watched no more. The results of
-- the allocations are used without a test.
pub submit_fd : (allocated adds : Bool) → ℕ → Watch → Option Watch
unfolding fd_set
submit_fd false adds i w = none
submit_fd true adds i w = do
  pool ← add_job_to_pool adds w.pool i
  fds ← fd_set w.currentfds i false
  some (record w { currentfds = fds; pool = pool })

-- The branches on a ready descriptor.
unfoldable pub handle_fd : (listenfd : ℕ) → Event → ℕ → Watch → Option Watch
unfolding accept_all submit_fd
handle_fd listenfd event i w =
    if i == listenfd
    then accept_all event.accepted w
    else submit_fd (event.allocates i) (event.adds i) i w

-- The loop over the descriptors from `i` on, with at most `fuel` rounds; `maxfd` may grow on the way.
unfoldable pub scan :
    ℕ → (listenfd : ℕ) → List Bool → Event → ℕ → (desc_ready : ℕ) → Watch → Option Watch
unfolding handle_fd
scan zero listenfd ready event i desc_ready w =
    if leb i w.maxfd && ltb 0 desc_ready then none else some w
scan (suc fuel) listenfd ready event i desc_ready w =
    let turn = (do
      bit ← get_elem? ready i
      let skipped = scan fuel listenfd ready event (suc i) desc_ready w
      let handled = (do
        w' ← handle_fd listenfd event i w
        scan fuel listenfd ready event (suc i) (desc_ready - 1) w')
      if bit then handled else skipped) in
    if leb i w.maxfd && ltb 0 desc_ready then turn else some w

-- The test of `rc` (0 where it is not positive), and what the loop over the descriptors gives. The outer
-- `none` is a fault, and the inner one the end of the process.
unfoldable pub round_result : ℕ → Option Watch → Option (Option Watch)
round_result rc scanned =
    if rc == 0 then some none else elim scanned [ none ↦ none | some w ↦ some (some w) ]

-- A round of the loop after `select` has returned. As many rounds of `scan` as an `fd_set` has bits are
-- enough.
unfoldable pub select_round : (listenfd : ℕ) → Event → Watch → Option (Option Watch)
unfolding scan round_result
select_round listenfd event w =
    round_result event.rc (scan 1024 listenfd event.readyfds event 0 event.rc w)

-- The state before the loop: FD_ZERO, FD_SET of the listening socket, and `init_pool`. A queue that
-- could not be allocated is the fault that its first use is.
unfoldable pub start_loop : (queue : Bool) → ℕ → Option Watch
unfolding fd_set
start_loop queue listenfd = do
  fds ← fd_set (replicate 1024 false) listenfd true
  pool ← create_job_queue queue
  some (record { currentfds = fds; maxfd = listenfd; pool = pool })
