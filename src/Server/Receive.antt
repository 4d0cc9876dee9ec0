-- ===== src/Server/Receive.antt =====
-- server.c and common.h: what comes over a socket, in a packet.
use search_engine.Common.{
  ℕ, ◌^◌, ◌<◌, ◌≤◌, ◌≡◌, ◌⊎◌, inl, inr, refl, sym, ap, ◌∙◌, none, some, List, [], ◌∷◌, ◌++◌, false,
  arith, ltb, ◌==◌, append_assoc, lt→ltb, Bool-cases, length, set, take, drop, length-append,
  length-drop,
}
use search_engine.Text.Scan.{until_nul}
use search_engine.Net.{received, recv_from_host, create_pckt}
use search_engine.Net.Stream.{IsSource, recv_from_host-stream}
use search_engine.Server.{Machine, fill, terminate, header_bytes}
use search_engine.Server.Packet.{take-front}

drop-front : (text rest : List ℕ) → drop (length text) (text ++ rest) ≡ rest
drop-front [] rest = refl
drop-front (c ∷ text) rest = drop-front text rest

-- A string that is written over the start of a longer buffer ends at the terminator behind it.
until_nul-set :
    (body r : List ℕ) → 0 < length r → until_nul (set (body ++ r) (length body) 0) ≡ until_nul body
unfolding until_nul
until_nul-set [] [] h = elim h [ ]
until_nul-set [] (c ∷ r) h = refl
until_nul-set (c ∷ body) r h = elim (Bool-cases (c == 0)) [
  | inl e ↦ rw e refl
  | inr e ↦ rw e (ap (λ t. c ∷ t) (until_nul-set body r h))
]

-- `terminate` after `fill` leaves the payload as the string in the packet.
pub fill-terminate :
    (packet body : List ℕ)
    → length body < length packet
    → (fill packet body ≡ some (body ++ drop (length body) packet))
      × (terminate (body ++ drop (length body) packet) (received body)
          ≡ some (set (body ++ drop (length body) packet) (length body) 0))
      × (until_nul (set (body ++ drop (length body) packet) (length body) 0) ≡ until_nul body)
unfolding fill terminate
fill-terminate packet body h =
    let behind : 0 < length (drop (length body) packet) =
      omega (arith, length-drop (length body) packet) in
    let whole = length-append body (drop (length body) packet) in
    (
      ground arith,
      rw (lt→ltb (length body) (length (body ++ drop (length body) packet)) (omega (arith, whole)))
          refl,
      until_nul-set body (drop (length body) packet) behind,
    )

-- A payload that does not fit in the packet with its terminator is a fault of one of the two.
pub fill-terminate_overruns :
    (packet body : List ℕ)
    → length packet ≤ length body
    → (fill packet body ≡ none)
      ⊎ (fill packet body ≡ some (body ++ drop (length body) packet))
        × (terminate (body ++ drop (length body) packet) (received body) ≡ none)
unfolding fill terminate
fill-terminate_overruns packet body h = elim (Bool-cases (ltb (length packet) (length body))) [
  | inl e ↦ inl (rw e refl)
  | inr e ↦
      let whole : length (body ++ drop (length body) packet) ≡ length body = ground (
        arith,
        length-append body (drop (length body) packet),
        length-drop (length body) packet,
        e,
        h,
      ) in
      let full : ltb (length body) (length (body ++ drop (length body) packet)) ≡ false =
        ground (arith, whole) in
      inr (rw e refl, rw full refl)
]

-- What the handler relies on: a `uint32_t` has four bytes, which `load` reads back, and `htonl` gives
-- one, which `ntohl` turns back.
pub record IsMachine {S : Type 0} (machine : Machine S) : Type 0 where
  pub four : (x : ℕ) → length (machine.bytes_of x) ≡ 4
  pub loads : (x : ℕ) (r : List ℕ) → x < 2 ^ 32 → machine.load (machine.bytes_of x ++ r) ≡ x
  pub range : (x : ℕ) → machine.htonl x < 2 ^ 32
  pub back : (x : ℕ) → x < 2 ^ 32 → machine.ntohl (machine.htonl x) ≡ x

module _ {S : Type 0} (machine : Machine S) (In Out : S → List ℕ → Type 0) (out : List ℕ)
    (source : IsSource machine.read (λ s stream. In s stream × Out s out)) where
  pub receive :
      (s : S) (bs rest : List ℕ) (n : ℕ)
      → In s (bs ++ rest)
      → Out s out
      → n ≡ length bs
      → (s' : S) × (recv_from_host machine.read s n ≡ some (received bs, s'))
        × In s' rest
        × Out s' out
  receive s bs rest n before kept e =
      let (s', got, (left, kept')) = recv_from_host-stream source s (bs ++ rest) n (before, kept) in
      (
        s',
        got
            ∙ ap (λ t. some (received t, s'))
                (ap (λ k. take k (bs ++ rest)) e ∙ take-front bs rest),
        rw (ap (λ k. drop k (bs ++ rest)) e ∙ drop-front bs rest) at left,
        kept',
      )

module _ {S : Type 0} (machine : Machine S) (law : IsMachine machine) where
  -- The two fields of a header in memory.
  pub header_bytes-loads :
      (x y : ℕ) (r : List ℕ)
      → x < 2 ^ 32
      → y < 2 ^ 32
      → (machine.load ((machine.bytes_of x ++ machine.bytes_of y) ++ r) ≡ x)
        × (machine.load (drop 4 ((machine.bytes_of x ++ machine.bytes_of y) ++ r)) ≡ y)
  header_bytes-loads x y r h k =
      let split = append_assoc (machine.bytes_of x) (machine.bytes_of y) r in
      (
        ap machine.load split ∙ law.loads x (machine.bytes_of y ++ r) h,
        ap (λ bs. machine.load (drop 4 bs)) split
            ∙ ap (λ n. machine.load (drop n (machine.bytes_of x ++ (machine.bytes_of y ++ r))))
                (sym (law.four x))
            ∙ ap machine.load (drop-front (machine.bytes_of x) (machine.bytes_of y ++ r))
            ∙ law.loads y r k,
      )

  pub length-header_bytes :
      (len t : ℕ) → length (header_bytes machine (create_pckt machine.htonl len t)) ≡ 8
  unfolding header_bytes
  length-header_bytes len t =
      let header = create_pckt machine.htonl len t in
      omega (
        arith,
        length-append (machine.bytes_of header.tot_len) (machine.bytes_of header.msg_type),
        law.four header.tot_len,
        law.four header.msg_type,
      )
