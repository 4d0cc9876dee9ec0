-- ===== src/Server/Loop/Watched.antt =====
-- server.c: what the loop of `main` keeps true of the watched descriptors and the queue.
use search_engine.Common.{
  ℕ, ◌<◌, ◌≤◌, ◌≡◌, ◌≢◌, inl, inr, refl, sym, ap, ◌∙◌, some, List, [], ◌∷◌, ◌++◌, Bool, true, false,
  arith, ltb, ◌==◌, if◌then◌else◌, Bool-cases, length, get_elem?, set, length-set, get_elem?-set_ne,
  get_elem?-set_at, All, All-map, All-snoc, Distinct, Distinct-snoc, get_elem?-inside, get_elem?-lt,
}
use native.Mathlib.Decide.{ℕ_discrete}
use search_engine.Pool.Fifo.{Holds, add-Holds}
use search_engine.Server.Loop.{Watch, fd_set, accept_all, submit_fd}

-- The queue holds the jobs. The listening socket is watched, a queued connection is not, and none is
-- queued twice; no watched descriptor is greater than `maxfd`.
pub record Watched (listenfd : ℕ) (w : Watch) (jobs : List ℕ) : Type 0 where
  pub size : length w.currentfds ≡ 1024
  pub holds : Holds w.pool jobs
  pub listening : get_elem? w.currentfds listenfd ≡ some true
  pub unwatched : All (λ fd. get_elem? w.currentfds fd ≡ some false) jobs
  pub distinct : Distinct jobs
  pub below : (fd : ℕ) → get_elem? w.currentfds fd ≡ some true → fd ≤ w.maxfd

pub fd_set-some :
    (fds : List Bool) (fd : ℕ) (bit : Bool)
    → fd < length fds
    → fd_set fds fd bit ≡ some (set fds fd bit)
unfolding fd_set
fd_set-some fds fd bit h = let (x, e) = get_elem?-inside fds fd h in rw e refl

-- A bit stays when another is set to the same.
pub set-keeps :
    (fds : List Bool) (n fd : ℕ) (bit : Bool)
    → get_elem? fds fd ≡ some bit
    → get_elem? (set fds n bit) fd ≡ some bit
set-keeps fds n fd bit e = elim (ℕ_discrete n fd) [
  | yes same ↦ ap (λ i. get_elem? (set fds i bit) fd) same ∙ get_elem?-set_at fds fd bit e
  | no ne ↦ get_elem?-set_ne fds {i = n} {j = fd} bit ne ∙ e
]

-- Queued connections stay unwatched when another descriptor is set.
All-both :
    (newfd : ℕ) (fds : List Bool) (jobs : List ℕ)
    → All (λ job. newfd ≢ job) jobs
    → All (λ fd. get_elem? fds fd ≡ some false) jobs
    → All (λ fd. get_elem? (set fds newfd true) fd ≡ some false) jobs
All-both newfd fds [] others unwatched = tt
All-both newfd fds (job ∷ jobs) (ne, others) (e, unwatched) = (
  get_elem?-set_ne fds {i = newfd} {j = job} true ne ∙ e,
  All-both newfd fds jobs others unwatched,
)

pub accept_all-Watched :
    (listenfd : ℕ) (accepted : List ℕ) (w : Watch) (jobs : List ℕ)
    → Watched listenfd w jobs
    → All (λ fd. (fd < 1024) × All (λ job. fd ≢ job) jobs) accepted
    → (w' : Watch) × (accept_all accepted w ≡ some w')
      × Watched listenfd w' jobs
      × ((fd : ℕ) → get_elem? w.currentfds fd ≡ some true → get_elem? w'.currentfds fd ≡ some true)
unfolding accept_all
accept_all-Watched listenfd [] w jobs watched new = (w, refl, watched, λ fd e. e)
accept_all-Watched listenfd (newfd ∷ accepted) w jobs watched ((small, others), new) =
    let fds = set w.currentfds newfd true in
    let top = if ltb w.maxfd newfd then newfd else w.maxfd in
    let (w', e, watched', keeps) =
      accept_all-Watched listenfd accepted (record w { currentfds = fds; maxfd = top }) jobs
        (record {
          size = omega (arith, length-set w.currentfds newfd true, watched.size);
          holds = watched.holds;
          listening = set-keeps w.currentfds newfd listenfd true watched.listening;
          unwatched = All-both newfd w.currentfds jobs others watched.unwatched;
          distinct = watched.distinct;
          below = λ fd bit. raised fd bit;
        })
        new in
    elim (Bool-cases (newfd == 0)) [
      | inl zero_fd ↦ (w, rw zero_fd refl, watched, λ fd bit. bit)
      | inr some_fd ↦ (
        w',
        rw some_fd
            (rw (fd_set-some w.currentfds newfd true (omega (arith, small, watched.size))) e),
        watched',
        λ fd bit. keeps fd (set-keeps w.currentfds newfd fd true bit),
      )
    ]
  where
    raised :
        (fd : ℕ)
        → get_elem? (set w.currentfds newfd true) fd ≡ some true
        → fd ≤ (if ltb w.maxfd newfd then newfd else w.maxfd)
    raised fd bit = elim (ℕ_discrete newfd fd) [
      | yes same ↦ ground (arith, same)
      | no ne ↦
          let old : fd ≤ w.maxfd =
            watched.below fd
              (sym (get_elem?-set_ne w.currentfds {i = newfd} {j = fd} true ne) ∙ bit) in
          ground (arith, old)
    ]

pub submit_fd-Watched :
    (listenfd i : ℕ) (w : Watch) (jobs : List ℕ)
    → Watched listenfd w jobs
    → get_elem? w.currentfds i ≡ some true
    → i ≢ listenfd
    → (w' : Watch) × (submit_fd true true i w ≡ some w')
      × Watched listenfd w' (jobs ++ i ∷ [])
      × (w'.currentfds ≡ set w.currentfds i false)
unfolding submit_fd
submit_fd-Watched listenfd i w jobs watched ready other =
    let (pool, added, holds) = add-Holds w.pool jobs i watched.holds in
    let fds = set w.currentfds i false in
    let inside : i < length w.currentfds = get_elem?-lt w.currentfds i ready in
    (
      record w { currentfds = fds; pool = pool },
      rw added (rw (fd_set-some w.currentfds i false inside) refl),
      record {
        size = length-set w.currentfds i false ∙ watched.size;
        holds = holds;
        listening =
            get_elem?-set_ne w.currentfds {i = i} {j = listenfd} false other ∙ watched.listening;
        unwatched =
            All-snoc (λ fd. get_elem? fds fd ≡ some false) jobs i
              (All-map (λ fd. get_elem? w.currentfds fd ≡ some false)
                (λ fd. get_elem? fds fd ≡ some false) jobs
                (λ fd e. set-keeps w.currentfds i fd false e) watched.unwatched)
              (get_elem?-set_at w.currentfds i false ready);
        distinct = Distinct-snoc jobs i watched.distinct (
            All-map (λ fd. get_elem? w.currentfds fd ≡ some false) (λ fd. fd ≢ i) jobs
              (λ fd e same. cc (e, same, ready)) watched.unwatched);
        below = λ fd bit. still fd bit;
      },
      refl,
    )
  where
    still : (fd : ℕ) → get_elem? (set w.currentfds i false) fd ≡ some true → fd ≤ w.maxfd
    still fd bit = elim (ℕ_discrete i fd) [
      | yes same ↦
          let here : get_elem? (set w.currentfds i false) fd ≡ some false =
            ap (get_elem? (set w.currentfds i false)) (sym same)
            ∙ get_elem?-set_at w.currentfds i false ready in
          cc (here, bit)
      | no ne ↦
          watched.below fd (sym (get_elem?-set_ne w.currentfds {i = i} {j = fd} false ne) ∙ bit)
    ]
