-- ===== src/Server/Loop/Round.antt =====
-- server.c: a round of the loop of `main` after `select`.
use search_engine.Common.{
  ℕ, zero, suc, ◌+◌, ◌<◌, ◌≤◌, ◌≡◌, ◌≢◌, refl, ap, ◌∙◌, some, List, [], ◌∷◌, ◌++◌, Bool, true,
  false, not, ◌&&◌, arith, ltb, leb, ◌==◌, if◌then◌else◌, get_elem?, set, get_elem?-set_ne, All,
  All-map, All-snoc,
}
use search_engine.Server.Loop.{Watch, Event, handle_fd, scan}
use search_engine.Server.Loop.Watched.{set-keeps}

-- The bits that are set.
unfoldable pub ones : List Bool → ℕ
ones [] = 0
ones (bit ∷ bits) = if bit then suc (ones bits) else ones bits

-- The ready connections in order, from the descriptor `i` on.
unfoldable pub connections : (listenfd : ℕ) → ℕ → List Bool → List ℕ
connections listenfd i [] = []
connections listenfd i (bit ∷ bits) =
    let later = connections listenfd (suc i) bits in
    if bit && not (i == listenfd) then i ∷ later else later

pub connections-none :
    (listenfd i : ℕ) (bits : List Bool)
    → ((j : ℕ) → get_elem? bits j ≢ some true)
    → connections listenfd i bits ≡ []
unfolding connections
connections-none listenfd i [] none_set = refl
connections-none listenfd i (true ∷ bits) none_set = absurd (none_set 0 refl)
connections-none listenfd i (false ∷ bits) none_set =
    connections-none listenfd (suc i) bits (λ j. none_set (suc j))

pub ones-none : (bits : List Bool) → ones bits ≡ 0 → (j : ℕ) → get_elem? bits j ≢ some true
unfolding ones
ones-none [] e j set_bit = cc set_bit
ones-none (true ∷ bits) e j set_bit = absurd (omega (arith, e))
ones-none (false ∷ bits) e zero set_bit = cc set_bit
ones-none (false ∷ bits) e (suc j) set_bit = ones-none bits e j set_bit

module _ (listenfd : ℕ) (ready : List Bool) (event : Event) where
  pub scan-stop :
      (fuel i desc : ℕ) (w : Watch)
      → (leb i w.maxfd && ltb 0 desc) ≡ false
      → scan fuel listenfd ready event i desc w ≡ some w
  unfolding scan
  scan-stop zero i desc w stop = rw stop refl
  scan-stop (suc fuel) i desc w stop = rw stop refl

  pub scan-skip :
      (fuel i desc : ℕ) (w : Watch)
      → (leb i w.maxfd && ltb 0 desc) ≡ true
      → get_elem? ready i ≡ some false
      → scan (suc fuel) listenfd ready event i desc w
        ≡ scan fuel listenfd ready event (suc i) desc w
  unfolding scan
  scan-skip fuel i desc w go e = rw go (rw e refl)

  pub scan-turn :
      (fuel i desc : ℕ) (w w' : Watch)
      → (leb i w.maxfd && ltb 0 (suc desc)) ≡ true
      → get_elem? ready i ≡ some true
      → handle_fd listenfd event i w ≡ some w'
      → scan (suc fuel) listenfd ready event i (suc desc) w
        ≡ scan fuel listenfd ready event (suc i) desc w'
  unfolding scan
  scan-turn fuel i desc w w' go e handled =
      rw go
        (rw e (rw handled (ap (λ d. scan fuel listenfd ready event (suc i) d w') (omega arith))))

-- The new descriptors are not watched and not queued.
abbrev pub IsNew : Watch → List ℕ → ℕ → Type 0
IsNew w jobs fd =
    (fd < 1024) × (get_elem? w.currentfds fd ≡ some false) × All (λ job. fd ≢ job) jobs

-- What the descriptors from `i` on need to be: those that are ready are watched, and while the
-- listening socket is still to come, so are the new connections new.
pub record IsDue (listenfd : ℕ) (accepted : List ℕ) (i : ℕ) (bits : List Bool) (w : Watch)
    (jobs : List ℕ) : Type 0 where
  pub within : (j : ℕ) → get_elem? bits j ≡ some true → get_elem? w.currentfds (i + j) ≡ some true
  pub new : i ≤ listenfd → All (IsNew w jobs) accepted

pub IsDue-skip :
    {listenfd : ℕ} {accepted : List ℕ} {i : ℕ} {bit : Bool} {bits : List Bool} {w : Watch}
    {jobs : List ℕ}
    → IsDue listenfd accepted i (bit ∷ bits) w jobs
    → IsDue listenfd accepted (suc i) bits w jobs
IsDue-skip {i} {w} due = record {
  within = λ j e. ap (get_elem? w.currentfds) (omega arith) ∙ due.within (suc j) e;
  new = λ h. due.new (omega (arith, h));
}

pub IsDue-accept :
    {listenfd : ℕ} {accepted : List ℕ} {bit : Bool} {bits : List Bool} {w w' : Watch}
    {jobs : List ℕ}
    → ((fd : ℕ) → get_elem? w.currentfds fd ≡ some true → get_elem? w'.currentfds fd ≡ some true)
    → IsDue listenfd accepted listenfd (bit ∷ bits) w jobs
    → IsDue listenfd accepted (suc listenfd) bits w' jobs
IsDue-accept {listenfd} {w} keeps due = record {
  within = λ j e. keeps _ (ap (get_elem? w.currentfds) (omega arith) ∙ due.within (suc j) e);
  new = λ h. absurd (omega (arith, h));
}

pub IsDue-submit :
    {listenfd : ℕ} {accepted : List ℕ} {i : ℕ} {bit : Bool} {bits : List Bool} {w w' : Watch}
    {jobs : List ℕ}
    → w'.currentfds ≡ set w.currentfds i false
    → get_elem? w.currentfds i ≡ some true
    → IsDue listenfd accepted i (bit ∷ bits) w jobs
    → IsDue listenfd accepted (suc i) bits w' (jobs ++ i ∷ [])
IsDue-submit {listenfd} {accepted} {i} {w} {w'} {jobs} same watched due = record {
  within = λ j e.
      ap (λ fds. get_elem? fds (suc i + j)) same
      ∙ get_elem?-set_ne w.currentfds {i = i} {j = suc i + j} false (omega arith)
      ∙ ap (get_elem? w.currentfds) (omega arith)
      ∙ due.within (suc j) e;
  new = λ h.
      All-map (IsNew w jobs) (IsNew w' (jobs ++ i ∷ [])) accepted
        (λ fd (small, free, others). (
          small,
          ap (λ fds. get_elem? fds fd) same ∙ set-keeps w.currentfds i fd false free,
          All-snoc (λ job. fd ≢ job) jobs i others (λ e. cc (e, free, watched)),
        ))
        (due.new (omega (arith, h)));
}
