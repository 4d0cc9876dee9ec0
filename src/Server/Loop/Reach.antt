-- ===== src/Server/Loop/Reach.antt =====
-- server.c: every state that the loop of `main` and the workers can reach.
use search_engine.Common.{
  ℕ, zero, suc, ◌<◌, ◌≡◌, ◌≢◌, refl, sym, ap, ◌∙◌, Option, some, List, [], ◌∷◌, ◌++◌, true, false,
  arith, ◌==◌, length, get_elem?, set, replicate, length-set, get_elem?-set_ne, length-replicate,
  get_elem?-set_at, All, get_elem?-inside,
}
use native.Mathlib.Decide.{ℕ_discrete}
use mathlib.Core.Path.{subst}
use mathlib.Core.Option.{some-injective}
use search_engine.Pool.{Pool, empty_queue, create_job_queue, take_job}
use search_engine.Pool.Fifo.{Holds, create-Holds, take-Holds, rest}
use search_engine.Server.Loop.{Watch, Event, scan, round_result, select_round, start_loop}
use search_engine.Server.Loop.Watched.{Watched, fd_set-some}
use search_engine.Server.Loop.Round.{ones, connections, IsNew}
use search_engine.Server.Loop.Scan.{Gives, scan-Watched}

-- What `select` and `accept` give: `rc` is the number of the bits that are set, which is not 0, and they
-- are of watched descriptors; a new connection has a descriptor that fits in an `fd_set` and is neither
-- watched nor in the queue, as those are open; and the allocations succeed.
pub record IsEvent (w : Watch) (event : Event) : Type 0 where
  pub size : length event.readyfds ≡ 1024
  pub counts : ones event.readyfds ≡ event.rc
  pub some_ready : 0 < event.rc
  pub within :
      (fd : ℕ) → get_elem? event.readyfds fd ≡ some true → get_elem? w.currentfds fd ≡ some true
  pub gives : Gives event
  pub new : (jobs : List ℕ) → Holds w.pool jobs → All (IsNew w jobs) event.accepted

round_result-some : (rc : ℕ) (w : Watch) → 0 < rc → round_result rc (some w) ≡ some (some w)
unfolding round_result
round_result-some rc w h = let some_rc : (rc == 0) ≡ false = ground (arith, h) in rw some_rc refl

-- A round goes over all descriptors with no access outside of a set: the ready connections are added to
-- the queue once each, in order, behind the jobs that were there, and are watched no more.
select_round-Watched :
    (listenfd : ℕ) (w : Watch) (jobs : List ℕ) (event : Event)
    → Watched listenfd w jobs
    → IsEvent w event
    → (w' : Watch) × (select_round listenfd event w ≡ some (some w'))
      × Watched listenfd w' (jobs ++ connections listenfd 0 event.readyfds)
unfolding select_round
select_round-Watched listenfd w jobs event watched law =
    let (w', scanned, watched') =
      scan-Watched listenfd event.readyfds event law.gives event.readyfds 1024 0 w jobs refl
        (omega (arith, law.size)) watched
        (record {
          within = λ j e. ap (get_elem? w.currentfds) (omega arith) ∙ law.within j e;
          new = λ _. law.new jobs watched.holds;
        }) in
    (
      w',
      ap (λ n. round_result event.rc (scan 1024 listenfd event.readyfds event 0 n w))
            (sym law.counts)
          ∙ ap (round_result event.rc) scanned
          ∙ round_result-some event.rc w' law.some_ready,
      watched',
    )

-- The steps: a round of the loop of `main`, or a turn of a worker at the queue.
pub data Step (listenfd : ℕ) : Watch → Watch → Type 0 where
  selected :
      {w w' : Watch} (event : Event)
      → IsEvent w event
      → select_round listenfd event w ≡ some (some w')
      → Step listenfd w w'
  served :
      {w : Watch} {pool : Pool ℕ} (job : Option ℕ)
      → take_job w.pool ≡ some (job, pool)
      → Step listenfd w (record w { pool = pool })

pub data Reach (listenfd : ℕ) (w0 : Watch) : Watch → Type 0 where
  here : Reach listenfd w0 w0
  next : {w w' : Watch} → Reach listenfd w0 w → Step listenfd w w' → Reach listenfd w0 w'

not_set : (n i : ℕ) → get_elem? (replicate n false) i ≢ some true
not_set zero i e = cc e
not_set (suc n) zero e = cc e
not_set (suc n) (suc i) e = not_set n i e

start_loop-Watched :
    (listenfd : ℕ)
    → listenfd < 1024
    → (w : Watch) × (start_loop true listenfd ≡ some w) × Watched listenfd w []
unfolding start_loop create_job_queue
start_loop-Watched listenfd small =
    let zeros = replicate 1024 false in
    let count : length zeros ≡ 1024 = length-replicate 1024 false in
    let inside : listenfd < length zeros = omega (arith, count, small) in
    let (bit, at) = get_elem?-inside zeros listenfd inside in
    (
      record { currentfds = set zeros listenfd true; maxfd = listenfd; pool = empty_queue },
      rw (fd_set-some zeros listenfd true inside) refl,
      record {
        size = length-set zeros listenfd true ∙ count;
        holds = create-Holds;
        listening = get_elem?-set_at zeros listenfd true at;
        unwatched = tt;
        distinct = tt;
        below = λ fd e. elim (ℕ_discrete listenfd fd) [
          | yes same ↦ omega (arith, same)
          | no ne ↦
              absurd
                (not_set 1024 fd (sym (get_elem?-set_ne zeros {i = listenfd} {j = fd} true ne) ∙ e))
        ];
      },
    )

rest-Watched :
    (listenfd : ℕ) (w : Watch) (pool : Pool ℕ) (jobs : List ℕ)
    → Watched listenfd w jobs
    → Holds pool (rest jobs)
    → Watched listenfd (record w { pool = pool }) (rest jobs)
rest-Watched listenfd w pool [] watched holds = record {
  size = watched.size;
  holds = holds;
  listening = watched.listening;
  unwatched = tt;
  distinct = tt;
  below = watched.below;
}
rest-Watched listenfd w pool (job ∷ jobs) watched holds = record {
  size = watched.size;
  holds = holds;
  listening = watched.listening;
  unwatched = watched.unwatched.1;
  distinct = watched.distinct.1;
  below = watched.below;
}

Step-Watched :
    {listenfd : ℕ} {w w' : Watch} {jobs : List ℕ}
    → Step listenfd w w'
    → Watched listenfd w jobs
    → (jobs' : List ℕ) × Watched listenfd w' jobs'
Step-Watched {listenfd} {w} {jobs} (selected event law e) watched =
    let (w1, e1, watched1) = select_round-Watched listenfd w jobs event watched law in
    (
      jobs ++ connections listenfd 0 event.readyfds,
      subst (λ v. Watched listenfd v (jobs ++ connections listenfd 0 event.readyfds))
          (some-injective _ _ (some-injective _ _ (sym e1 ∙ e))) watched1,
    )
Step-Watched {listenfd} {w} {jobs} (served job e) watched =
    let (pool1, e1, holds1) = take-Holds w.pool jobs watched.holds in
    (
      rest jobs,
      rest-Watched listenfd w _ jobs watched (
          subst (λ p. Holds p (rest jobs)) (ap (λ r. r.1) (some-injective _ _ (sym e1 ∙ e)))
            holds1),
    )

Reach-Watched :
    {listenfd : ℕ} {w0 w : Watch}
    → Watched listenfd w0 []
    → Reach listenfd w0 w
    → (jobs : List ℕ) × Watched listenfd w jobs
Reach-Watched start here = ([], start)
Reach-Watched start (next reach step) =
    let (jobs, watched) = Reach-Watched start reach in Step-Watched step watched

-- What holds in a state of the loop, with the queue `jobs`: the invariant, and that a round after any
-- `select` goes through and adds the ready connections to the queue, in order.
pub record IsGood (listenfd : ℕ) (w : Watch) (jobs : List ℕ) : Type 0 where
  pub watched : Watched listenfd w jobs
  pub goes_on :
      (event : Event)
      → IsEvent w event
      → (w' : Watch) × (select_round listenfd event w ≡ some (some w'))
        × Watched listenfd w' (jobs ++ connections listenfd 0 event.readyfds)

-- Let `select` report watched descriptors and their number, and `accept` give descriptors below
-- FD_SETSIZE that are neither watched nor queued, and let the allocations succeed. In every state that the loop of `main` and the workers
-- reach from the start, in any order of their steps, the listening socket is watched, the queue holds
-- connections that are not watched and none of them twice, and no watched descriptor is greater than
-- `maxfd`; and the next round of the loop goes through, with no access outside of a set or of the queue,
-- and puts the ready connections behind the jobs in the queue, once each and in order.
pub Reach-IsGood :
    {listenfd : ℕ} {w0 w : Watch}
    → listenfd < 1024
    → start_loop true listenfd ≡ some w0
    → Reach listenfd w0 w
    → (jobs : List ℕ) × IsGood listenfd w jobs
Reach-IsGood {listenfd} {w0} {w} small start reach =
    let (w1, e, watched) = start_loop-Watched listenfd small in
    let (jobs, now) =
      Reach-Watched
        (subst (λ v. Watched listenfd v []) (some-injective _ _ (sym e ∙ start)) watched) reach in
    (
      jobs,
      record {
        watched = now;
        goes_on = λ event law. select_round-Watched listenfd w jobs event now law;
      },
    )
