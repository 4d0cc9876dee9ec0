-- ===== src/Pool/Drain.antt =====
-- thread_pool.c: no job is left behind.
use search_engine.Common.{
  ℕ, zero, suc, ◌+◌, ◌≤◌, ◌≡◌, refl, sym, ap, ◌∙◌, Option, none, some, List, [], ◌∷◌, ◌++◌, arith,
  append-nil, append_assoc, length, replicate, length-append,
}
use search_engine.Pool.{Pool, Op, submit, serve, run}
use search_engine.Pool.Fifo.{Holds, run_fifo, run-run_fifo}

module _ {J : Type 0} where
  -- The jobs that are added, in order.
  unfoldable pub submitted : List (Op J) → List J
  submitted [] = []
  submitted (submit job ∷ ops) = job ∷ submitted ops
  submitted (serve ∷ ops) = submitted ops

  -- The jobs that workers got, in order.
  unfoldable pub served : List (Option J) → List J
  served [] = []
  served (none ∷ jobs) = served jobs
  served (some job ∷ jobs) = job ∷ served jobs

  served-replicate :
      (n : ℕ) (jobs : List J) → length jobs ≤ n → served (run_fifo jobs (replicate n serve)) ≡ jobs
  unfolding run_fifo served
  served-replicate zero [] h = refl
  served-replicate zero (j ∷ jobs) h = absurd (omega (arith, h))
  served-replicate (suc n) [] h = served-replicate n [] (omega arith)
  served-replicate (suc n) (j ∷ jobs) h =
      ap (λ js. j ∷ js) (served-replicate n jobs (omega (arith, h)))

  served-run_fifo :
      (ops : List (Op J)) (n : ℕ) (jobs : List J)
      → length jobs + length (submitted ops) ≤ n
      → served (run_fifo jobs (ops ++ replicate n serve)) ≡ jobs ++ submitted ops
  unfolding run_fifo served submitted
  served-run_fifo [] n jobs h = served-replicate n jobs (omega (arith, h)) ∙ sym (append-nil jobs)
  served-run_fifo (submit job ∷ ops) n jobs h =
      served-run_fifo ops n (jobs ++ job ∷ []) (omega (arith, h, length-append jobs (job ∷ [])))
      ∙ append_assoc jobs (job ∷ []) (submitted ops)
  served-run_fifo (serve ∷ ops) n [] h = served-run_fifo ops n [] (omega (arith, h))
  served-run_fifo (serve ∷ ops) n (j ∷ jobs) h =
      ap (λ js. j ∷ js) (served-run_fifo ops n jobs (omega (arith, h)))

  -- From an idle pool that holds `jobs`, with a node for every job that is added: after any order in which
  -- the threads get the lock, as many further turns of workers as there were jobs in all are enough for
  -- every job to be with a worker, once each and in the order in which the jobs were added.
  pub run-served :
      (ops : List (Op J)) (n : ℕ) (pool : Pool J) (jobs : List J)
      → Holds pool jobs
      → length jobs + length (submitted ops) ≤ n
      → (answers : List (Option J)) × (run pool (ops ++ replicate n serve) ≡ some answers)
        × (served answers ≡ jobs ++ submitted ops)
  run-served ops n pool jobs holds enough = (
    run_fifo jobs (ops ++ replicate n serve),
    run-run_fifo (ops ++ replicate n serve) pool jobs holds,
    served-run_fifo ops n jobs enough,
  )
