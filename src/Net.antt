-- ===== src/Net.antt =====
-- common.h and server.c: messages over a socket. The socket is a state `S`; `read` and `write` are the
-- system's, and what they return is an argument of the model.
pub mod Stream
pub mod Setup
use search_engine.Common.{
  ℕ, zero, suc, ◌+◌, ◌-◌, ◌%◌, ◌^◌, Option, none, some, List, [], ◌∷◌, ◌++◌, ◌==◌, ltb,
  if◌then◌else◌, length, take, drop,
}

-- What `read` returns: bytes, none at the end of the stream, or -1.
pub data Reply : Type 0 where
  bytes : List ℕ → Reply
  failed : Reply

-- What `recv_from_host` leaves: the bytes in the buffer, and whether it returns their number or -1.
pub data Received : Type 0 where
  received : List ℕ → Received
  broken : List ℕ → Received

module _ {S : Type 0} where
  -- The body of the loop of `recv_from_host` after the call of `read`; `loop` is the rounds that
  -- follow, and `rd` is the length of `got`.
  pub recv_round :
      (S → ℕ → List ℕ → Option (Received × S)) → ℕ → List ℕ → Reply × S → Option (Received × S)
  recv_round loop rem got (failed, s) = some (broken got, s)
  recv_round loop rem got (bytes [], s) = some (received got, s)
  recv_round loop rem got (bytes (c ∷ chunk), s) =
      loop s (rem - length (c ∷ chunk)) (got ++ c ∷ chunk)

  -- The loop, with at most `fuel` rounds; the outer `none` is no fuel left.
  pub recv_loop : (S → ℕ → Reply × S) → ℕ → S → ℕ → List ℕ → Option (Received × S)
  unfolding recv_round
  recv_loop read zero s rem got = if rem == 0 then some (received got, s) else none
  recv_loop read (suc fuel) s rem got =
      let round = recv_round (recv_loop read fuel) rem got (read s rem) in
      if rem == 0 then some (received got, s) else round

  -- A round that goes on takes a byte at least, so `len` rounds are enough.
  pub recv_from_host : (S → ℕ → Reply × S) → S → ℕ → Option (Received × S)
  unfolding recv_loop
  recv_from_host read s len = recv_loop read len s len []

-- What `write` returns: the number of bytes that it took, or -1.
pub data Written : Type 0 where
  wrote : ℕ → Written
  refused : Written

-- What `send_to_host` returns: the number of bytes, or -1.
pub data Sent : Type 0 where
  sent : ℕ → Sent
  unsent : Sent

module _ {S : Type 0} where
  -- The body of the loop of `send_to_host` after the call of `write`.
  pub send_round :
      (S → List ℕ → ℕ → Option (Sent × S)) → List ℕ → ℕ → Written × S → Option (Sent × S)
  send_round loop left done (refused, s) = some (unsent, s)
  send_round loop left done (wrote n, s) = loop s (drop n left) (done + n)

  -- The loop, with at most `fuel` rounds, from the bytes that are left; a `write` that takes nothing
  -- is made again.
  pub send_loop : (S → List ℕ → Written × S) → ℕ → S → List ℕ → ℕ → Option (Sent × S)
  unfolding send_round
  send_loop write fuel s [] done = some (sent done, s)
  send_loop write zero s (c ∷ left) done = none
  send_loop write (suc fuel) s (c ∷ left) done =
      send_round (send_loop write fuel) (c ∷ left) done (write s (c ∷ left))

  pub send_to_host : (S → List ℕ → Written × S) → ℕ → S → List ℕ → Option (Sent × S)
  unfolding send_loop
  send_to_host write fuel s buf = send_loop write fuel s buf 0

-- `struct Hdr`, both fields in network order, and `create_pckt`; `htonl` is the system's.
pub record Hdr : Type 0 where
  pub tot_len : ℕ
  pub msg_type : ℕ

abbrev pub hdr_len : ℕ
hdr_len = 8

unfoldable pub create_pckt : (ℕ → ℕ) → ℕ → ℕ → Hdr
create_pckt htonl len msg_type = record {
  tot_len = htonl ((len + hdr_len) % 2 ^ 32);
  msg_type = htonl msg_type;
}

-- `len = ntohl(header->tot_len) - HDR_LEN`, an `int`, as the `size_t` that `recv_from_host` takes.
pub payload_len : (ℕ → ℕ) → ℕ → ℕ
payload_len ntohl tot_len =
    let len = (ntohl tot_len + (2 ^ 32 - hdr_len)) % 2 ^ 32 in
    if ltb len (2 ^ 31) then len else len + (2 ^ 64 - 2 ^ 32)
