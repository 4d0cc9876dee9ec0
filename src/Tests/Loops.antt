-- ===== src/Tests/Loops.antt =====
-- The set-up of a socket, the loop of the server and the queue, at concrete inputs.
use search_engine.Common.{
  ℕ, ◌≡◌, inl, refl, ap, ◌∙◌, Option, none, some, List, [], ◌∷◌, ◌++◌, Bool, true, false, arith,
  set, drop, replicate, length-set, length-replicate, All,
}
use search_engine.Net.Setup.{Calls, open_listenfd}
use search_engine.Net.Setup.Descriptors.{IsSystem, Accounted, open_listenfd-Accounted}
use search_engine.Pool.{empty_queue, create_job_queue, submit, serve, run}
use search_engine.Pool.Fifo.{Holds, create-Holds}
use search_engine.Pool.Drain.{submitted, served, run-served}
use search_engine.Server.Loop.{
  Watch, Event, fd_set, accept_all, handle_fd, scan, round_result, select_round, start_loop,
}
use search_engine.Server.Loop.Round.{IsNew, ones}
use search_engine.Server.Loop.Reach.{IsEvent, here, next, selected, IsGood, Reach-IsGood}

-- A system whose `bind` fails: the state is the list of the open descriptors.
abbrev no_bind : Calls (List ℕ)
no_bind = record {
  socket = λ s. (some 7, 7 ∷ s);
  setsockopt = λ s fd. (true, s);
  ioctl = λ s fd. (true, s);
  bind = λ s fd a. (false, s);
  listen = λ s fd n. (true, s);
  connect = λ s fd a. (true, s);
  close = λ s fd. drop 1 s;
  htons = λ n. n;
  inet_pton = λ hostname. none;
  gethostbyname = λ hostname. none;
}

abbrev AreOpen : List ℕ → List ℕ → Type 0
AreOpen s fds = s ≡ fds

no_bind-IsSystem : IsSystem no_bind AreOpen
no_bind-IsSystem = record {
  opens = λ s fds e. inl (7, 7 ∷ s, refl, ap (λ t. 7 ∷ t) e);
  closes = λ s fd fds e. ap (drop 1) e;
  sets = λ s fd fds e. e;
  controls = λ s fd fds e. e;
  binds = λ s fd a fds e. e;
  listens = λ s fd n fds e. e;
  connects = λ s fd a fds e. e;
}

open_listenfd-Accounted_example :
    Accounted no_bind AreOpen no_bind-IsSystem (0 ∷ []) (open_listenfd no_bind (0 ∷ []) 80)
open_listenfd-Accounted_example =
    open_listenfd-Accounted no_bind AreOpen no_bind-IsSystem (0 ∷ []) 80 (0 ∷ []) refl

run-served_example :
    (answers : List (Option ℕ)) × (run empty_queue
        ((submit 5 ∷ serve ∷ submit 6 ∷ []) ++ replicate 2 serve)
      ≡ some answers)
    × (served answers ≡ [] ++ submitted (submit 5 ∷ serve ∷ submit 6 ∷ []))
unfolding submitted
run-served_example =
    run-served (submit 5 ∷ serve ∷ submit 6 ∷ []) 2 empty_queue [] create-Holds (omega arith)

-- The loop with the listening socket 3.
abbrev listening : List Bool
listening = set (replicate 1024 false) 3 true

abbrev started : Watch
started = record { currentfds = listening; maxfd = 3; pool = empty_queue }

starts : start_loop true 3 ≡ some started
unfolding start_loop fd_set create_job_queue
starts = refl

-- A new connection with the descriptor 5.
abbrev arrival : Event
arrival = record {
  readyfds = listening;
  rc = 1;
  accepted = 5 ∷ [];
  allocates = λ _. true;
  adds = λ _. true;
}

abbrev watching : Watch
watching = record { currentfds = set listening 5 true; maxfd = 5; pool = empty_queue }

one_ready : ones listening ≡ 1
unfolding ones
one_ready = refl

is_new : (jobs : List ℕ) → Holds empty_queue jobs → All (IsNew started jobs) (5 ∷ [])
is_new [] holds = ((omega arith, refl, tt), tt)
is_new (job ∷ jobs) holds = absurd (omega (arith, holds.size))

arrival-IsEvent : IsEvent started arrival
arrival-IsEvent = record {
  size = length-set (replicate 1024 false) 3 true ∙ length-replicate 1024 false;
  counts = one_ready;
  some_ready = omega arith;
  within = λ fd e. e;
  gives = record { allocates = λ fd. refl; adds = λ fd. refl };
  new = is_new;
}

arrives : select_round 3 arrival started ≡ some (some watching)
unfolding select_round round_result scan handle_fd accept_all fd_set
arrives = refl

Reach-IsGood_example : (jobs : List ℕ) × IsGood 3 watching jobs
Reach-IsGood_example =
    Reach-IsGood (omega arith) starts (next here (selected arrival arrival-IsEvent arrives))
