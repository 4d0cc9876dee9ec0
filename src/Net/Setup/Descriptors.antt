-- ===== src/Net/Setup/Descriptors.antt =====
-- common.h: the descriptors that are open after the set-up of a socket.
use search_engine.Common.{
  ℕ, ◌≡◌, ◌⊎◌, inl, inr, refl, sym, Option, none, some, List, ◌∷◌, Bool, true, false,
}
use search_engine.Net.Setup.{
  Address, Calls, Opened, descriptor, refused, exited, backlog, or_close, listen_on, open_listenfd,
  find_host, connect_to, connect_on, open_clientfd,
}
use mathlib.Core.Path.{subst}

-- What the calls do with the descriptors: `socket` opens one, `close` takes one off, and the others leave
-- them.
pub record IsSystem {S : Type 0} (calls : Calls S) (Open : S → List ℕ → Type 0) : Type 0 where
  pub opens :
      (s : S) (fds : List ℕ)
      → Open s fds
      → ((fd : ℕ) × (s' : S) × (calls.socket s ≡ (some fd, s')) × Open s' (fd ∷ fds))
        ⊎ ((s' : S) × (calls.socket s ≡ (none, s')) × Open s' fds)
  pub closes : (s : S) (fd : ℕ) (fds : List ℕ) → Open s (fd ∷ fds) → Open (calls.close s fd) fds
  pub sets : (s : S) (fd : ℕ) (fds : List ℕ) → Open s fds → Open (calls.setsockopt s fd).1 fds
  pub controls : (s : S) (fd : ℕ) (fds : List ℕ) → Open s fds → Open (calls.ioctl s fd).1 fds
  pub binds :
      (s : S) (fd : ℕ) (a : Address) (fds : List ℕ) → Open s fds → Open (calls.bind s fd a).1 fds
  pub listens : (s : S) (fd n : ℕ) (fds : List ℕ) → Open s fds → Open (calls.listen s fd n).1 fds
  pub connects :
      (s : S) (fd : ℕ) (a : Address) (fds : List ℕ) → Open s fds → Open (calls.connect s fd a).1 fds

module _ {S : Type 0} (calls : Calls S) (Open : S → List ℕ → Type 0)
    (law : IsSystem calls Open) where
  -- A descriptor that is returned is open, and no other has come to be open; without one, nothing has.
  abbrev pub Accounted : List ℕ → Opened × S → Type 0
  Accounted fds (descriptor fd, s) = Open s (fd ∷ fds)
  Accounted fds (refused, s) = Open s fds
  Accounted fds (exited, s) = Open s fds

  abbrev Accounts : List ℕ → (S → Opened × S) → ℕ → Type 0
  Accounts fds next fd = (s : S) → Open s (fd ∷ fds) → Accounted fds (next s)

  or_close-Accounted :
      (failure : Opened) (fd : ℕ) (fds : List ℕ) (r : Bool × S) (next : S → Opened × S)
      → (failure ≡ refused) ⊎ (failure ≡ exited)
      → Open r.1 (fd ∷ fds)
      → Accounts fds next fd
      → Accounted fds (or_close calls failure fd r next)
  unfolding or_close
  or_close-Accounted failure fd fds (true, s) next fails held more = more s held
  or_close-Accounted failure fd fds (false, s) next (inl e) held more =
      rw e (law.closes s fd fds held)
  or_close-Accounted failure fd fds (false, s) next (inr e) held more =
      rw e (law.closes s fd fds held)

  -- Where `socket` opens a descriptor, `close` closes it and the other calls leave all of them, then on every
  -- path of `open_listenfd`, whichever call fails, the socket that was made is either returned and open or
  -- closed again, and all other descriptors are as before.
  pub open_listenfd-Accounted :
      (s : S) (port : ℕ) (fds : List ℕ) → Open s fds → Accounted fds (open_listenfd calls s port)
  unfolding open_listenfd listen_on
  open_listenfd-Accounted s port fds held = elim (law.opens s fds held) [
    | inr (s1, e, held1) ↦ subst (λ r. Accounted fds (listen_on calls port r)) (sym e) held1
    | inl (fd, s1, e, held1) ↦
        subst (λ r. Accounted fds (listen_on calls port r)) (sym e)
          (or_close-Accounted refused fd fds (calls.setsockopt s1 fd) _ (inl refl)
            (law.sets s1 fd (fd ∷ fds) held1)
            (λ s2 held2.
              or_close-Accounted exited fd fds (calls.ioctl s2 fd) _ (inr refl)
                (law.controls s2 fd (fd ∷ fds) held2)
                (λ s3 held3.
                  or_close-Accounted refused fd fds (calls.bind s3 fd _) _ (inl refl)
                    (law.binds s3 fd _ (fd ∷ fds) held3)
                    (λ s4 held4.
                      or_close-Accounted refused fd fds (calls.listen s4 fd backlog) _ (inl refl)
                        (law.listens s4 fd backlog (fd ∷ fds) held4) (λ s5 held5. held5)))))
  ]

  connect_to-Accounted :
      (port fd : ℕ) (s : S) (host : Option ℕ) (fds : List ℕ)
      → Open s (fd ∷ fds)
      → Accounted fds (connect_to calls port fd s host)
  unfolding connect_to
  connect_to-Accounted port fd s none fds held = law.closes s fd fds held
  connect_to-Accounted port fd s (some addr) fds held =
      or_close-Accounted refused fd fds (calls.connect s fd _) _ (inl refl)
        (law.connects s fd _ (fd ∷ fds) held) (λ s' held'. held')

  -- Under the same conditions on the calls, on every path of `open_clientfd`, also where the host has no
  -- address, the socket that was made is either returned and open or closed again, and all other
  -- descriptors are as before.
  pub open_clientfd-Accounted :
      (s : S) (hostname : List ℕ) (port : ℕ) (fds : List ℕ)
      → Open s fds
      → Accounted fds (open_clientfd calls s hostname port)
  unfolding open_clientfd connect_on
  open_clientfd-Accounted s hostname port fds held = elim (law.opens s fds held) [
    | inr (s1, e, held1) ↦
        subst (λ r. Accounted fds (connect_on calls hostname port r)) (sym e) held1
    | inl (fd, s1, e, held1) ↦
        subst (λ r. Accounted fds (connect_on calls hostname port r)) (sym e)
          (connect_to-Accounted port fd s1 (find_host calls hostname) fds held1)
  ]
