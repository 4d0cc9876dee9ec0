-- ===== src/Net/Setup.antt =====
-- common.h: `open_listenfd` and `open_clientfd`, chains of calls of the system on a socket. The state
-- `S` is the system's.
pub mod Descriptors
use search_engine.Common.{
  ℕ, zero, suc, ◌+◌, ◌-◌, ◌*◌, ◌/◌, ◌%◌, ◌^◌, ◌<◌, ◌≤◌, ◌≡◌, ◌≢◌, ◌⊎◌, ◌↔◌, inl, inr, refl, sym, ap,
  ◌∙◌, Option, none, some, List, [], ◌∷◌, ◌++◌, Bool, true, false, not, ◌&&◌, ◌||◌, arith, ltb, leb,
  ◌==◌, min, append-nil, append_assoc, if◌then◌else◌, ltb→lt, lt→ltb, leb→le, ==_iff, Bool-cases,
  Option-cases, length, get_elem?, set, get_or, take, drop, replicate, length-set,
  get_elem?-set_self, get_elem?-set_ne, length-append, length-replicate, length-take, length-drop,
  take-append-drop, get_elem?-set_inv, ◌>>=◌, get_elem?-set_at, drop-add, drop-suc, drop-append,
  drop-set, get_or-drop, set-set, set-get_elem?,
}

-- The fields of a `struct sockaddr_in` that are set, for AF_INET.
pub record Address : Type 0 where
  pub sin_addr : ℕ
  pub sin_port : ℕ

-- The system's calls: `socket` gives a descriptor or fails, and for the others the Boolean is false for a
-- result below 0.
pub record Calls (S : Type 0) : Type 0 where
  pub socket : S → Option ℕ × S
  pub setsockopt : S → ℕ → Bool × S
  pub ioctl : S → ℕ → Bool × S
  pub bind : S → ℕ → Address → Bool × S
  pub listen : S → ℕ → ℕ → Bool × S
  pub connect : S → ℕ → Address → Bool × S
  pub close : S → ℕ → S
  pub htons : ℕ → ℕ
  pub inet_pton : List ℕ → Option ℕ
  pub gethostbyname : List ℕ → Option ℕ

-- The descriptor, -1, or the end of the process.
pub data Opened : Type 0 where
  descriptor : ℕ → Opened
  refused : Opened
  exited : Opened

abbrev pub backlog : ℕ
backlog = 1024

module _ {S : Type 0} (calls : Calls S) where
  -- What follows a call on the socket `fd`: the next step, or the socket is closed.
  pub or_close : Opened → ℕ → Bool × S → (S → Opened × S) → Opened × S
  or_close failure fd (true, s) next = next s
  or_close failure fd (false, s) next = (failure, calls.close s fd)

  -- `open_listenfd` from the result of `socket` on.
  pub listen_on : ℕ → Option ℕ × S → Opened × S
  unfolding or_close
  listen_on port (none, s1) = (refused, s1)
  listen_on port (some fd, s1) =
      let address : Address = record { sin_addr = 0; sin_port = calls.htons port } in
      or_close refused fd (calls.setsockopt s1 fd) (λ s2.
        or_close exited fd (calls.ioctl s2 fd) (λ s3.
          or_close refused fd (calls.bind s3 fd address)
            (λ s4. or_close refused fd (calls.listen s4 fd backlog) (λ s5. (descriptor fd, s5)))))

  pub open_listenfd : S → ℕ → Opened × S
  unfolding listen_on
  open_listenfd s port = listen_on port (calls.socket s)

  -- The address of a host, by its number or by its name.
  pub find_host : List ℕ → Option ℕ
  find_host hostname = elim (calls.inet_pton hostname) [
    | some addr ↦ some addr
    | none ↦ calls.gethostbyname hostname
  ]

  -- `open_clientfd` from the address of the host on.
  pub connect_to : ℕ → ℕ → S → Option ℕ → Opened × S
  unfolding or_close
  connect_to port fd s none = (refused, calls.close s fd)
  connect_to port fd s (some addr) =
      or_close refused fd
        (calls.connect s fd (record { sin_addr = addr; sin_port = calls.htons port }))
        (λ s'. (descriptor fd, s'))

  -- `open_clientfd` from the result of `socket` on.
  pub connect_on : List ℕ → ℕ → Option ℕ × S → Opened × S
  unfolding connect_to find_host
  connect_on hostname port (none, s1) = (refused, s1)
  connect_on hostname port (some fd, s1) = connect_to port fd s1 (find_host hostname)

  pub open_clientfd : S → List ℕ → ℕ → Opened × S
  unfolding connect_on
  open_clientfd s hostname port = connect_on hostname port (calls.socket s)
