-- ===== src/Server/Loop/Scan.antt =====
-- server.c: the loop of `main` over the descriptors that `select` reports.
use search_engine.Common.{
  ℕ, zero, suc, ◌+◌, ◌<◌, ◌≤◌, ◌≡◌, ◌≢◌, inl, inr, refl, sym, ap, ◌∙◌, Option, some, List, [], ◌∷◌,
  ◌++◌, Bool, true, false, ◌&&◌, arith, ltb, leb, ◌==◌, append-nil, append_assoc, Bool-cases,
  length, get_elem?, drop, All, All-map, get_elem?-drop,
}
use native.Mathlib.Decide.{ℕ_discrete}
use mathlib.Core.Path.{subst, ap₂}
use search_engine.Server.Loop.{Watch, Event, accept_all, submit_fd, handle_fd, scan}
use search_engine.Server.Loop.Watched.{Watched, accept_all-Watched, submit_fd-Watched}
use search_engine.Server.Loop.Round.{
  ones, connections, connections-none, ones-none, scan-stop, scan-skip, scan-turn, IsNew, IsDue,
  IsDue-skip, IsDue-accept, IsDue-submit,
}

-- All allocations of the round succeed.
pub record Gives (event : Event) : Type 0 where
  pub allocates : (fd : ℕ) → event.allocates fd ≡ true
  pub adds : (fd : ℕ) → event.adds fd ≡ true

-- The branches of a ready descriptor.
handle_fd-listening :
    (listenfd : ℕ) (event : Event) (w : Watch)
    → handle_fd listenfd event listenfd w ≡ accept_all event.accepted w
unfolding handle_fd
handle_fd-listening listenfd event w =
    let same : (listenfd == listenfd) ≡ true = ground arith in rw same refl

handle_fd-connection :
    (listenfd i : ℕ) (event : Event) (w : Watch)
    → i ≢ listenfd
    → handle_fd listenfd event i w ≡ submit_fd (event.allocates i) (event.adds i) i w
unfolding handle_fd
handle_fd-connection listenfd i event w ne =
    let other : (i == listenfd) ≡ false = ground (arith, ne) in rw other refl

-- The jobs that are added for the first of the descriptors.
connections-skip :
    (listenfd i : ℕ) (bits : List Bool) (jobs : List ℕ)
    → jobs ++ connections listenfd i (false ∷ bits) ≡ jobs ++ connections listenfd (suc i) bits
unfolding connections
connections-skip listenfd i bits jobs = refl

connections-listening :
    (listenfd : ℕ) (bits : List Bool) (jobs : List ℕ)
    → jobs ++ connections listenfd listenfd (true ∷ bits)
      ≡ jobs ++ connections listenfd (suc listenfd) bits
unfolding connections
connections-listening listenfd bits jobs =
    let same : (listenfd == listenfd) ≡ true = ground arith in rw same refl

connections-turn :
    (listenfd i : ℕ) (bits : List Bool) (jobs : List ℕ)
    → i ≢ listenfd
    → jobs ++ connections listenfd i (true ∷ bits)
      ≡ (jobs ++ i ∷ []) ++ connections listenfd (suc i) bits
unfolding connections
connections-turn listenfd i bits jobs ne =
    let other : (i == listenfd) ≡ false = ground (arith, ne) in
    rw other (sym (append_assoc jobs (i ∷ []) (connections listenfd (suc i) bits)))

-- What a scan gives.
abbrev pub Scans : (listenfd : ℕ) → Option Watch → List ℕ → Type 0
Scans listenfd result jobs = (w' : Watch) × (result ≡ some w') × Watched listenfd w' jobs

module _ (listenfd : ℕ) (ready : List Bool) (event : Event) (gives : Gives event) (bits : List Bool)
    (fuel i : ℕ) (w : Watch) (jobs : List ℕ) (watched : Watched listenfd w jobs) where
  -- The descriptors after `i` are scanned.
  abbrev Again : Type 0
  Again =
      (w' : Watch) (jobs' : List ℕ)
      → Watched listenfd w' jobs'
      → IsDue listenfd event.accepted (suc i) bits w' jobs'
      → Scans listenfd (scan fuel listenfd ready event (suc i) (ones bits) w')
          (jobs' ++ connections listenfd (suc i) bits)

  abbrev Goes : Bool → Type 0
  Goes bit =
      get_elem? ready i ≡ some bit
      → IsDue listenfd event.accepted i (bit ∷ bits) w jobs
      → (leb i w.maxfd && ltb 0 (ones (bit ∷ bits))) ≡ true
      → Again
      → Scans listenfd (scan (suc fuel) listenfd ready event i (ones (bit ∷ bits)) w)
          (jobs ++ connections listenfd i (bit ∷ bits))

  scan-not_ready : Goes false
  unfolding ones
  scan-not_ready e due go again =
      let (w', done, watched') = again w jobs watched (IsDue-skip due) in
      (
        w',
        scan-skip listenfd ready event fuel i (ones bits) w go e ∙ done,
        subst (Watched listenfd w') (sym (connections-skip listenfd i bits jobs)) watched',
      )

  scan-listening : i ≡ listenfd → Goes true
  unfolding ones
  scan-listening here e due go again =
      let due_here : IsDue listenfd event.accepted listenfd (true ∷ bits) w jobs =
        subst (λ n. IsDue listenfd event.accepted n (true ∷ bits) w jobs) here due in
      let (w1, taken, watched1, keeps) = accept_all-Watched listenfd event.accepted w jobs watched (
        All-map (IsNew w jobs) (λ fd. (fd < 1024) × All (λ job. fd ≢ job) jobs) event.accepted
          (λ fd (small, _, others). (small, others)) (due_here.new (omega arith))) in
      let due1 =
        subst (λ n. IsDue listenfd event.accepted (suc n) bits w1 jobs) (sym here)
          (IsDue-accept keeps due_here) in
      let (w', done, watched') = again w1 jobs watched1 due1 in
      let handled : handle_fd listenfd event i w ≡ some w1 =
        ap (λ n. handle_fd listenfd event n w) here
        ∙ handle_fd-listening listenfd event w
        ∙ taken in
      (
        w',
        scan-turn listenfd ready event fuel i (ones bits) w w1 go e handled ∙ done,
        subst (λ n. Watched listenfd w' (jobs ++ connections listenfd n (true ∷ bits))) (sym here)
            (subst (Watched listenfd w') (sym (connections-listening listenfd bits jobs)) (
              subst (λ n. Watched listenfd w' (jobs ++ connections listenfd (suc n) bits)) here
                watched')),
      )

  scan-connection : i ≢ listenfd → Goes true
  unfolding ones
  scan-connection ne e due go again =
      let bit : get_elem? w.currentfds i ≡ some true =
        ap (get_elem? w.currentfds) (omega arith) ∙ due.within 0 refl in
      let (w1, submitted, watched1, same) = submit_fd-Watched listenfd i w jobs watched bit ne in
      let (w', done, watched') = again w1 (jobs ++ i ∷ []) watched1 (IsDue-submit same bit due) in
      let handled : handle_fd listenfd event i w ≡ some w1 =
        handle_fd-connection listenfd i event w ne
        ∙ ap₂ (λ allocated adds. submit_fd allocated adds i w) (gives.allocates i) (gives.adds i)
        ∙ submitted in
      (
        w',
        scan-turn listenfd ready event fuel i (ones bits) w w1 go e handled ∙ done,
        subst (Watched listenfd w') (sym (connections-turn listenfd i bits jobs ne)) watched',
      )

  scan-Goes : (bit : Bool) → Goes bit
  scan-Goes false e due go again = scan-not_ready e due go again
  scan-Goes true e due go again = elim (ℕ_discrete i listenfd) [
    | yes here ↦ scan-listening here e due go again
    | no ne ↦ scan-connection ne e due go again
  ]

  none_left :
      (bit : Bool)
      → IsDue listenfd event.accepted i (bit ∷ bits) w jobs
      → (leb i w.maxfd && ltb 0 (ones (bit ∷ bits))) ≡ false
      → (j : ℕ) → get_elem? (bit ∷ bits) j ≢ some true
  none_left bit due stop j e =
      let low : i + j ≤ w.maxfd = watched.below (i + j) (due.within j e) in
      let none_set : ones (bit ∷ bits) ≡ 0 = ground (arith, low, stop) in
      ones-none (bit ∷ bits) none_set j e

pub scan-Watched :
    (listenfd : ℕ) (ready : List Bool) (event : Event) (gives : Gives event) (bits : List Bool)
    (fuel i : ℕ) (w : Watch) (jobs : List ℕ)
    → drop i ready ≡ bits
    → length bits ≤ fuel
    → Watched listenfd w jobs
    → IsDue listenfd event.accepted i bits w jobs
    → Scans listenfd
        (scan fuel listenfd ready event i (ones bits) w)
        (jobs ++ connections listenfd i bits)
unfolding connections ones
scan-Watched listenfd ready event gives [] fuel i w jobs at enough watched due = (
  w,
  scan-stop listenfd ready event fuel i 0 w (ground arith),
  subst (Watched listenfd w) (sym (append-nil jobs)) watched,
)
scan-Watched listenfd ready event gives (bit ∷ bits) zero i w jobs at enough watched due =
    absurd (omega (arith, enough))
scan-Watched listenfd ready event gives (bit ∷ bits) (suc fuel) i w jobs at enough watched due =
    elim (Bool-cases (leb i w.maxfd && ltb 0 (ones (bit ∷ bits)))) [
      | inr stop ↦ (
        w,
        scan-stop listenfd ready event (suc fuel) i (ones (bit ∷ bits)) w stop,
        subst (Watched listenfd w)
            (sym (append-nil jobs)
              ∙ ap (λ more. jobs ++ more)
                  (sym (
                    connections-none listenfd i (bit ∷ bits) (
                      none_left listenfd ready event gives bits fuel i w jobs watched bit due
                        stop))))
            watched,
      )
      | inl go ↦
          let (e, at') = get_elem?-drop i ready at in
          scan-Goes listenfd ready event gives bits fuel i w jobs watched bit e due go
            (λ w' jobs' watched' due'.
              scan-Watched listenfd ready event gives bits fuel (suc i) w' jobs' at'
                (omega (arith, enough)) watched' due')
    ]
