-- ===== src/Pool/Start.antt =====
-- thread_pool.c: `init_pool`, which starts the workers.
use search_engine.Common.{
  Option, ℕ, zero, suc, ◌+◌, ◌<◌, ◌≡◌, inl, inr, refl, sym, Bool, true, false, not, arith,
  if◌then◌else◌, Bool-cases,
}
use mathlib.Core.Path.{subst}
use search_engine.Pool.{Pool, create_job_queue}

-- What the system gives: memory for the record of a thread, and a thread.
pub record Threads (S : Type 0) : Type 0 where
  pub calloc : S → Bool × S
  pub create : S → Bool × S

abbrev pub num_of_threads : ℕ
num_of_threads = 10

module _ {S : Type 0} (threads : Threads S) where
  -- The loop, with `rounds` threads to go; false is a return of 0.
  pub start_workers : ℕ → S → Bool × S
  start_workers zero s = (true, s)
  start_workers (suc rounds) s =
      let (got, s1) = threads.calloc s in
      let (created, s2) = threads.create s1 in
      let later = start_workers rounds s2 in
      if not got then (false, s1) else if created then later else (false, s2)

  -- `queue` says whether `tc_calloc` gives the queue.
  pub init_pool : {J : Type 0} → (queue : Bool) → S → Bool × S × Option (Pool J)
  unfolding start_workers
  init_pool queue s =
      let (started, s') = start_workers num_of_threads s in (started, s', create_job_queue queue)

-- `create` starts one thread or none, and `calloc` none; `Running s n` is that `n` threads run.
pub record IsStarter {S : Type 0} (threads : Threads S) (Running : S → ℕ → Type 0) : Type 0 where
  pub keeps : (s : S) (n : ℕ) → Running s n → Running (threads.calloc s).1 n
  pub starts :
      (s : S) (n : ℕ)
      → Running s n
      → Running (threads.create s).1 (if (threads.create s).0 then suc n else n)

module _ {S : Type 0} (threads : Threads S) {Running : S → ℕ → Type 0}
    (law : IsStarter threads Running) where
  -- What a run of the loop leaves: all threads that were wanted, or fewer.
  abbrev Started : ℕ → ℕ → Bool × S → Type 0
  Started n rounds (true, s) = Running s (n + rounds)
  Started n rounds (false, s) = (m : ℕ) × (m < n + rounds) × Running s m

  Started-suc : (n rounds : ℕ) (r : Bool × S) → Started (suc n) rounds r → Started n (suc rounds) r
  Started-suc n rounds (true, s) running = subst (Running s) (omega arith) running
  Started-suc n rounds (false, s) (m, few, running) = (m, omega (arith, few), running)

  start_workers-Started :
      (rounds n : ℕ) (s : S) → Running s n → Started n rounds (start_workers threads rounds s)
  unfolding start_workers
  start_workers-Started zero n s running = subst (Running s) (omega arith) running
  start_workers-Started (suc rounds) n s running =
      let s1 = (threads.calloc s).1 in
      let s2 = (threads.create s1).1 in
      let later = start_workers threads rounds s2 in
      let running1 = law.keeps s n running in
      let running2 = law.starts s1 n running1 in
      let turn = if (threads.create s1).0 then later else (false, s2) in
      elim (Bool-cases (threads.calloc s).0) [
        | inr missed ↦
            subst (λ b. Started n (suc rounds) (if not b then (false, s1) else turn)) (sym missed)
              (n, omega arith, running1)
        | inl got ↦
            subst (λ b. Started n (suc rounds) (if not b then (false, s1) else turn)) (sym got)
              (elim (Bool-cases (threads.create s1).0) [
                | inl created ↦
                    subst (λ b. Started n (suc rounds) (if b then later else (false, s2)))
                      (sym created)
                      (Started-suc n rounds later (
                        start_workers-Started rounds (suc n) s2
                          (subst (λ b. Running s2 (if b then suc n else n)) created running2)))
                | inr failed ↦
                    subst (λ b. Started n (suc rounds) (if b then later else (false, s2)))
                      (sym failed)
                      (
                        n,
                        omega arith,
                        subst (λ b. Running s2 (if b then suc n else n)) failed running2,
                      )
              ])
      ]

  -- `init_pool` returns 1 only with ten workers running; where it returns 0, fewer
  -- than ten have been started, and these run.
  pub init_pool-Started :
      {J : Type 0} (queue : Bool) (s : S)
      → Running s 0
      → Started 0 10 (start_workers threads 10 s)
        × (init_pool threads {J = J} queue s ≡ (
          (start_workers threads 10 s).0,
          (start_workers threads 10 s).1,
          create_job_queue queue,
        ))
  unfolding init_pool
  init_pool-Started queue s running = (start_workers-Started 10 0 s running, refl)
