-- ===== src/Client/Answer.antt =====
-- client1.c and client2.c: how an answer of the server is read.
use search_engine.Common.{
  ℕ, ◌+◌, ◌^◌, ◌<◌, ◌≤◌, ◌≡◌, inl, inr, refl, sym, ap, ◌∙◌, none, some, List, ◌++◌, arith, length,
  set, drop, length-set, length-append, length-drop,
}
use search_engine.Text.Scan.{until_nul}
use search_engine.Net.{
  hdr_len, received, recv_from_host, create_pckt, payload_len, send_to_host, sent,
}
use search_engine.Net.Stream.{IsSource, IsSink, send_to_host-all, payload_len-create_pckt}
use search_engine.Server.{Machine, fill, terminate, header_bytes}
use search_engine.Server.Receive.{
  IsMachine, receive, fill-terminate, fill-terminate_overruns, header_bytes-loads,
  length-header_bytes,
}
use search_engine.Client.{answered, read_header, read_payload}

-- A socket on which `stream` is to come and `out` has been sent.
abbrev pub Talk : {S : Type 0} → (In Out : S → List ℕ → Type 0) → (stream out : List ℕ) → S → Type 0
Talk In Out stream out s = In s stream × Out s out

-- A machine of a client: its `read` gives some of the bytes that are to come and sends nothing, and its
-- `write` takes at least one byte and reads nothing.
pub record IsClient {S : Type 0} (machine : Machine S) (In Out : S → List ℕ → Type 0) : Type 0 where
  pub law : IsMachine machine
  pub source : (out : List ℕ) → IsSource machine.read (λ s stream. Talk In Out stream out s)
  pub sink : (stream : List ℕ) → IsSink machine.write (λ s out. Talk In Out stream out s)

-- The bytes of a header for a message of `len` bytes.
abbrev pub header : {S : Type 0} → Machine S → ℕ → ℕ → List ℕ
header machine len t = header_bytes machine (create_pckt machine.htonl len t)

module _ {S : Type 0} (machine : Machine S) (In Out : S → List ℕ → Type 0)
    (client : IsClient machine In Out) where
  -- What the client sends, and nothing that is to come is lost by it.
  pub sends :
      (fuel : ℕ) (s : S) (stream out buf : List ℕ)
      → Talk In Out stream out s
      → length buf ≤ fuel
      → (s' : S) × (send_to_host machine.write fuel s buf ≡ some (sent (length buf), s'))
        × Talk In Out stream (out ++ buf) s'
  sends fuel s stream out buf talk enough =
      send_to_host-all (client.sink stream) s out buf fuel talk enough

  -- The header of the answer comes to the front of the buffer, where its fields are read back.
  pub record HeaderRead (s : S) (buf : List ℕ) (len t : ℕ) (rest out : List ℕ) : Type 0 where
    pub after : S
    pub filled : List ℕ
    pub reads : read_header machine s buf ≡ some (filled, after)
    pub same : length filled ≡ length buf
    pub size : len + hdr_len < 2 ^ 31 → payload_len machine.ntohl (machine.load filled) ≡ len
    pub type : machine.load (drop 4 filled) ≡ machine.htonl t
    pub talk : Talk In Out rest out after

  pub read_header-HeaderRead :
      (s : S) (buf : List ℕ) (len t : ℕ) (rest out : List ℕ)
      → Talk In Out (header machine len t ++ rest) out s
      → 8 < length buf
      → HeaderRead s buf len t rest out
  unfolding read_header create_pckt header_bytes
  read_header-HeaderRead s buf len t rest out (before, kept) room =
      let law = client.law in
      let hb = header machine len t in
      let whole : length hb ≡ 8 = length-header_bytes machine law len t in
      let (s1, got1, in1, out1) =
        receive machine In Out out (client.source out) s hb rest 8 before kept (sym whole) in
      let (filled1, _, _) = fill-terminate buf hb (omega (arith, whole)) in
      let (load_len, load_type) =
        header_bytes-loads machine law (create_pckt machine.htonl len t).tot_len
          (create_pckt machine.htonl len t).msg_type (drop (length hb) buf) (law.range _)
          (law.range _) in
      record {
        after = s1;
        filled = hb ++ drop (length hb) buf;
        reads = rw (got1, filled1) refl;
        same =
            omega
              (arith, length-append hb (drop (length hb) buf), length-drop (length hb) buf, whole);
        size = λ small.
            ap (payload_len machine.ntohl) load_len
            ∙ payload_len-create_pckt machine.htonl machine.ntohl len t law.back small;
        type = load_type;
        talk = (in1, out1);
      }

  -- The payload comes to the front of the buffer with a terminator behind it.
  pub record PayloadRead (s : S) (buf text rest out : List ℕ) : Type 0 where
    pub after : S
    pub string : List ℕ
    pub reads : read_payload machine s buf ≡ some (answered string, string, after)
    pub same : length string ≡ length buf
    pub ends : until_nul string ≡ until_nul text
    pub talk : Talk In Out rest out after

  read_payload-steps :
      (s s' : S) (buf text filled string : List ℕ)
      → recv_from_host machine.read s (payload_len machine.ntohl (machine.load buf))
        ≡ some (received text, s')
      → fill buf text ≡ some filled
      → terminate filled (received text) ≡ some string
      → read_payload machine s buf ≡ some (answered string, string, s')
  unfolding read_payload
  read_payload-steps s s' buf text filled string a b c = rw (a, b, c) refl

  pub read_payload-PayloadRead :
      (s : S) (buf text rest out : List ℕ)
      → Talk In Out (text ++ rest) out s
      → payload_len machine.ntohl (machine.load buf) ≡ length text
      → length text < length buf
      → PayloadRead s buf text rest out
  read_payload-PayloadRead s buf text rest out (before, kept) size room =
      let (s1, got1, in1, out1) =
        receive machine In Out out (client.source out) s text rest
          (payload_len machine.ntohl (machine.load buf)) before kept size in
      let (filled1, terminated, ends) = fill-terminate buf text room in
      let whole = text ++ drop (length text) buf in
      record {
        after = s1;
        string = set whole (length text) 0;
        reads =
            read_payload-steps s s1 buf text whole (set whole (length text) 0) got1 filled1
              terminated;
        same = omega (
          arith,
          length-set whole (length text) 0,
          length-append text (drop (length text) buf),
          length-drop (length text) buf,
        );
        ends = ends;
        talk = (in1, out1);
      }

  -- A payload that does not fit in the buffer with its terminator is a fault.
  pub read_payload-overruns :
      (s : S) (buf text rest out : List ℕ)
      → Talk In Out (text ++ rest) out s
      → payload_len machine.ntohl (machine.load buf) ≡ length text
      → length buf ≤ length text
      → read_payload machine s buf ≡ none
  unfolding read_payload
  read_payload-overruns s buf text rest out (before, kept) size long =
      let (s1, got1, _, _) =
        receive machine In Out out (client.source out) s text rest
          (payload_len machine.ntohl (machine.load buf)) before kept size in
      elim (fill-terminate_overruns buf text long) [
        | inl e ↦ rw got1 (rw e refl)
        | inr (e, e') ↦ rw got1 (rw e (rw e' refl))
      ]
