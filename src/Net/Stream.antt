-- ===== src/Net/Stream.antt =====
-- common.h: `recv_from_host` and `send_to_host` over a stream of bytes, and the header.
use native.Mathlib.Nat.{mod-eq_of_lt}
use search_engine.Common.{
  ℕ, zero, suc, ◌+◌, ◌-◌, ◌%◌, ◌^◌, ◌<◌, ◌≤◌, ◌≡◌, refl, sym, ap, ◌∙◌, some, List, [], ◌∷◌, ◌++◌,
  false, arith, ◌==◌, append-nil, append_assoc, length, take, drop, length-drop, take-append-drop,
}
use search_engine.Net.{
  Reply, bytes, received, recv_round, recv_loop, recv_from_host, Written, wrote, sent, send_round,
  send_loop, send_to_host, hdr_len, create_pckt, payload_len,
}

pub take-append :
    (chunk rest : List ℕ) (n : ℕ)
    → length chunk ≤ n
    → take n (chunk ++ rest) ≡ chunk ++ take (n - length chunk) rest
take-append [] rest n h = ap (λ k. take k rest) (omega arith)
take-append (c ∷ chunk) rest zero h = elim h [ ]
take-append (c ∷ chunk) rest (suc n) h =
    ap (λ t. c ∷ t)
      (take-append chunk rest n (omega arith) ∙ ap (λ k. chunk ++ take k rest) (omega arith))

drop-append_le :
    (chunk rest : List ℕ) (n : ℕ)
    → length chunk ≤ n
    → drop n (chunk ++ rest) ≡ drop (n - length chunk) rest
drop-append_le [] rest n h = ap (λ k. drop k rest) (omega arith)
drop-append_le (c ∷ chunk) rest zero h = elim h [ ]
drop-append_le (c ∷ chunk) rest (suc n) h =
    drop-append_le chunk rest n (omega arith) ∙ ap (λ k. drop k rest) (omega arith)

-- A socket from which bytes can be read: `read` takes some of those that are to come, at most as many
-- as it is asked for, and none only where none come.
pub record IsSource {S : Type 0} (read : S → ℕ → Reply × S) (Holds : S → List ℕ → Type 0)
    : Type 0 where
  pub reads :
      (s : S) (stream : List ℕ) (rem : ℕ)
      → Holds s stream
      → 0 < rem
      → (chunk : List ℕ) × (rest : List ℕ) × (s' : S) × (stream ≡ chunk ++ rest)
        × (read s rem ≡ (bytes chunk, s'))
        × Holds s' rest
        × (length chunk ≤ rem)
        × (chunk ≡ [] → rest ≡ [])

suc-is_zero : (n : ℕ) → (suc n == 0) ≡ false
suc-is_zero n = ground arith

module _ {S : Type 0} {read : S → ℕ → Reply × S} {Holds : S → List ℕ → Type 0}
    (law : IsSource read Holds) where
  recv_loop-suc :
      (fuel : ℕ) (s : S) (rem : ℕ) (got : List ℕ)
      → recv_loop read (suc fuel) s (suc rem) got
        ≡ recv_round (recv_loop read fuel) (suc rem) got (read s (suc rem))
  unfolding recv_loop
  recv_loop-suc fuel s rem got = rw (suc-is_zero rem) refl

  -- What the rounds from `rem` bytes on give.
  Reads : ℕ → S → List ℕ → ℕ → List ℕ → Type 0
  Reads fuel s stream rem got =
      (s' : S) × (recv_loop read fuel s rem got ≡ some (received (got ++ take rem stream), s'))
      × Holds s' (drop rem stream)

  Reads-none : (fuel : ℕ) (s : S) (stream got : List ℕ) → Holds s stream → Reads fuel s stream 0 got
  unfolding recv_loop Reads
  Reads-none zero s stream got holds =
      (s, ap (λ g. some (received g, s)) (sym (append-nil got)), holds)
  Reads-none (suc fuel) s stream got holds =
      (s, ap (λ g. some (received g, s)) (sym (append-nil got)), holds)

  Reads-chunk :
      (fuel : ℕ) (s s' : S) (chunk rest : List ℕ) (rem : ℕ) (got : List ℕ)
      → Holds s' rest
      → read s (suc rem) ≡ (bytes chunk, s')
      → length chunk ≤ suc rem
      → (chunk ≡ [] → rest ≡ [])
      → (0 < length chunk → Reads fuel s' rest (suc rem - length chunk) (got ++ chunk))
      → Reads (suc fuel) s (chunk ++ rest) (suc rem) got
  unfolding recv_loop recv_round Reads
  Reads-chunk fuel s s' [] rest rem got holds e low end more =
      let none_left = end refl in
      (
        s',
        rw (recv_loop-suc, e, none_left, append-nil got) refl,
        rw none_left (rw none_left at holds),
      )
  Reads-chunk fuel s s' (c ∷ chunk) rest rem got holds e low end more =
      let (t, eq, held) = more (omega arith) in
      (
        t,
        rw (recv_loop-suc, e)
            (eq
              ∙ ap (λ g. some (received g, t))
                  (append_assoc got (c ∷ chunk) (take (suc rem - length (c ∷ chunk)) rest)
                    ∙ ap (λ g. got ++ g) (sym (take-append (c ∷ chunk) rest (suc rem) low)))),
        rw (drop-append_le (c ∷ chunk) rest (suc rem) low) held,
      )

  recv_loop-stream :
      (fuel : ℕ) (s : S) (stream : List ℕ) (rem : ℕ) (got : List ℕ)
      → Holds s stream
      → rem ≤ fuel
      → Reads fuel s stream rem got
  recv_loop-stream zero s stream zero got holds h = Reads-none 0 s stream got holds
  recv_loop-stream (suc fuel) s stream zero got holds h = Reads-none (suc fuel) s stream got holds
  recv_loop-stream zero s stream (suc rem) got holds h = elim h [ ]
  recv_loop-stream (suc fuel) s stream (suc rem) got holds h =
      let (chunk, rest, s', split, e, holds', low, end) =
        law.reads s stream (suc rem) holds (omega arith) in
      rw (split) (
        Reads-chunk fuel s s' chunk rest rem got holds' e low end (λ some_read.
          recv_loop-stream fuel s' rest (suc rem - length chunk) (got ++ chunk) holds'
            (omega arith)))

  -- From a socket that gives some of the bytes that are to come at each call of `read`, at most as many
  -- as it is asked for and none only at the end, `recv_from_host` returns: it leaves in the buffer the
  -- first `len` bytes of the stream (all of them if the stream is shorter) and the socket at the rest.
  pub recv_from_host-stream :
      (s : S) (stream : List ℕ) (len : ℕ)
      → Holds s stream
      → (s' : S) × (recv_from_host read s len ≡ some (received (take len stream), s'))
        × Holds s' (drop len stream)
  unfolding recv_from_host Reads
  recv_from_host-stream s stream len holds =
      recv_loop-stream len s stream len [] holds (omega arith)

-- A socket that takes bytes: `write` takes at least one of those it is given, and no more than there
-- are; `Holds s out` is that `out` has been taken.
pub record IsSink {S : Type 0} (write : S → List ℕ → Written × S) (Holds : S → List ℕ → Type 0)
    : Type 0 where
  pub writes :
      (s : S) (out left : List ℕ)
      → Holds s out
      → 0 < length left
      → (n : ℕ) × (s' : S) × (write s left ≡ (wrote n, s'))
        × (0 < n)
        × (n ≤ length left)
        × Holds s' (out ++ take n left)

module _ {S : Type 0} {write : S → List ℕ → Written × S} {Holds : S → List ℕ → Type 0}
    (law : IsSink write Holds) where
  Writes : ℕ → S → List ℕ → List ℕ → ℕ → Type 0
  Writes fuel s out left done =
      (s' : S) × (send_loop write fuel s left done ≡ some (sent (done + length left), s'))
      × Holds s' (out ++ left)

  Writes-some :
      (fuel : ℕ) (s s' : S) (out : List ℕ) (c : ℕ) (left : List ℕ) (done n : ℕ)
      → write s (c ∷ left) ≡ (wrote n, s')
      → n ≤ length (c ∷ left)
      → Writes fuel s' (out ++ take n (c ∷ left)) (drop n (c ∷ left)) (done + n)
      → Writes (suc fuel) s out (c ∷ left) done
  unfolding send_loop send_round Writes
  Writes-some fuel s s' out c left done n e low (t, eq, held) = (
    t,
    rw e (eq ∙ ap (λ d. some (sent d, t)) (omega (arith, length-drop n (c ∷ left), low))),
    rw
        (append_assoc out (take n (c ∷ left)) (drop n (c ∷ left))
          ∙ ap (λ g. out ++ g) (take-append-drop n (c ∷ left)))
        at held,
  )

  send_loop-all :
      (fuel : ℕ) (s : S) (out left : List ℕ) (done : ℕ)
      → Holds s out
      → length left ≤ fuel
      → Writes fuel s out left done
  unfolding send_loop Writes
  send_loop-all fuel s out [] done holds h =
      (s, ap (λ d. some (sent d, s)) (omega arith), rw (append-nil out) holds)
  send_loop-all zero s out (c ∷ left) done holds h = elim h [ ]
  send_loop-all (suc fuel) s out (c ∷ left) done holds h =
      let (n, s', e, pos, low, holds') = law.writes s out (c ∷ left) holds (omega arith) in
      Writes-some fuel s s' out c left done n e low (
        send_loop-all fuel s' (out ++ take n (c ∷ left)) (drop n (c ∷ left)) (done + n) holds'
          (rw (length-drop n (c ∷ left)) (omega arith)))

  -- Over a socket that takes at each call of `write` at least one of the bytes that it is given,
  -- and with a round for each byte, `send_to_host` returns the length of the buffer, and the socket
  -- has taken the bytes of the buffer, in order and once each, behind those that it had.
  pub send_to_host-all :
      (s : S) (out buf : List ℕ) (fuel : ℕ)
      → Holds s out
      → length buf ≤ fuel
      → (s' : S) × (send_to_host write fuel s buf ≡ some (sent (length buf), s'))
        × Holds s' (out ++ buf)
  unfolding send_to_host Writes
  send_to_host-all s out buf fuel holds h =
      let (t, e, held) = send_loop-all fuel s out buf 0 holds h in
      (t, e ∙ ap (λ d. some (sent d, t)) (omega arith), held)

-- Where `ntohl` undoes `htonl` on 32-bit numbers, the length that the receiver of a header reads is
-- the one that `create_pckt` was given, if that fits in an `int` together with the header.
pub payload_len-create_pckt :
    (htonl ntohl : ℕ → ℕ) (len msg_type : ℕ)
    → ((x : ℕ) → x < 2 ^ 32 → ntohl (htonl x) ≡ x)
    → len + hdr_len < 2 ^ 31
    → payload_len ntohl (create_pckt htonl len msg_type).tot_len ≡ len
unfolding payload_len create_pckt
payload_len-create_pckt htonl ntohl len msg_type back h =
    let e : (len + 8) % 2 ^ 32 ≡ len + 8 = mod-eq_of_lt {n = len + 8} {m = 2 ^ 32} (omega arith) in
    let d : (len + 8 + (2 ^ 32 - 8)) % 2 ^ 32 ≡ len = omega arith in
    rw (e, back (len + 8) (omega arith), d) (ground arith)
