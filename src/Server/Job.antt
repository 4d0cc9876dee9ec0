-- ===== src/Server/Job.antt =====
-- server.c: `thread_job` from the request that comes over the socket to the answer.
use search_engine.Common.{
  is_same, ℕ, ◌+◌, ◌≤◌, ◌≡◌, refl, sym, ap, ◌∙◌, Option, none, some, List, [], ◌++◌, arith,
  append-nil, length, get_elem?, set, drop, length-set, length-append, length-drop,
}
use search_engine.Hash.Horner.{hash_function-until_nul}
use search_engine.Text.Scan.{until_nul}
use search_engine.Table.{DynList}
use search_engine.Index.{Index, Word, lookup, dyn_size}
use search_engine.Index.Reads.{word_hit-until_nul}
use search_engine.Net.{received, recv_from_host, hdr_len, create_pckt, payload_len}
use search_engine.Net.Stream.{IsSource, IsSink, payload_len-create_pckt}
use search_engine.Server.{
  Machine, request, response, error, fill, terminate, header_bytes, respond, search_word,
  answer_request, handle, thread_job,
}
use search_engine.Server.Packet.{docs_text}
use search_engine.Server.Answer.{respond-found, respond-missing}
use search_engine.Server.Receive.{
  IsMachine, receive, fill-terminate, header_bytes-loads, length-header_bytes,
}

search_word-until_nul :
    (index : Index) (str : List ℕ) → search_word index str ≡ search_word index (until_nul str)
unfolding search_word lookup
search_word-until_nul index str =
    rw (word_hit-until_nul index.words str, hash_function-until_nul str) refl

module _ {S : Type 0} (machine : Machine S) (files : DynList ℕ) (fuel : ℕ) (index : Index) where
  answer_request-respond :
      (s s' : S) (packet body filled string : List ℕ) (found : Option ℕ)
      → recv_from_host machine.read s (payload_len machine.ntohl (machine.load packet))
        ≡ some (received body, s')
      → fill packet body ≡ some filled
      → terminate filled (received body) ≡ some string
      → search_word index string ≡ some found
      → answer_request machine files fuel s index packet
        ≡ respond machine files fuel s' index string found
  unfolding answer_request
  answer_request-respond s s' packet body filled string found a b c d = rw (a, b, c, d) refl

  thread_job-answer_request :
      (s s' s'' : S) (packet header filled : List ℕ)
      → recv_from_host machine.read s hdr_len ≡ some (received header, s')
      → fill packet header ≡ some filled
      → machine.load (drop 4 filled) ≡ machine.htonl request
      → answer_request machine files fuel s' index filled ≡ some s''
      → thread_job machine files fuel s index packet ≡ some (machine.close s'')
  unfolding thread_job handle
  thread_job-answer_request s s' s'' packet header filled a b c d =
      rw (a, b) (rw (c, is_same (machine.htonl request), d) refl)

module _ {S : Type 0} (machine : Machine S) (law : IsMachine machine) where
  module _ (In Out : S → List ℕ → Type 0) (out : List ℕ)
      (source : IsSource machine.read (λ s stream. In s stream × Out s out))
      (sink : IsSink machine.write Out) (files : DynList ℕ) (index : Index) (fuel : ℕ) where
    -- A request for a string of at most 10240 bytes with no terminator inside is read as far as
    -- `respond`, with the string in a packet of the same size.
    thread_job-respond :
        (s : S) (packet body : List ℕ) (found : Option ℕ)
        → In s (header_bytes machine (create_pckt machine.htonl (length body) request) ++ body)
        → Out s out
        → length packet ≡ dyn_size + 1
        → length body ≤ dyn_size
        → until_nul body ≡ body
        → search_word index body ≡ some found
        → (s' : S) × (string : List ℕ) × (length string ≡ dyn_size + 1)
          × Out s' out
          × ((s'' : S)
              → respond machine files fuel s' index string found ≡ some s''
              → thread_job machine files fuel s index packet ≡ some (machine.close s''))
    unfolding create_pckt header_bytes
    thread_job-respond s packet body found before kept size low ends found_is =
        let hb = header_bytes machine (create_pckt machine.htonl (length body) request) in
        let whole : length hb ≡ 8 = length-header_bytes machine law (length body) request in
        let (s1, got1, in1, out1) =
          receive machine In Out out source s hb body 8 before kept (sym whole) in
        let (filled1, _, _) = fill-terminate packet hb (omega (arith, whole, size)) in
        let p1 = hb ++ drop (length hb) packet in
        let size1 : length p1 ≡ dyn_size + 1 = omega (
          arith,
          length-append hb (drop (length hb) packet),
          length-drop (length hb) packet,
          size,
          whole,
        ) in
        let (load_len, load_type) =
          header_bytes-loads machine law (create_pckt machine.htonl (length body) request).tot_len
            (create_pckt machine.htonl (length body) request).msg_type (drop (length hb) packet)
            (law.range _) (law.range _) in
        let (s2, got2, in2, out2) =
          receive machine In Out out source s1 body [] (length body) (rw (append-nil body) in1) out1
            refl in
        let (filled2, terminated, string_ends) = fill-terminate p1 body (omega (arith, size1)) in
        let p2 = set (body ++ drop (length body) p1) (length body) 0 in
        let size2 : length p2 ≡ dyn_size + 1 = omega (
          arith,
          length-set (body ++ drop (length body) p1) (length body) 0,
          length-append body (drop (length body) p1),
          length-drop (length body) p1,
          size1,
        ) in
        let found2 : search_word index p2 ≡ some found =
          search_word-until_nul index p2 ∙ ap (search_word index) (string_ends ∙ ends) ∙ found_is in
        let len : payload_len machine.ntohl (machine.load p1) ≡ length body =
          ap (payload_len machine.ntohl) load_len
          ∙ payload_len-create_pckt machine.htonl machine.ntohl (length body) request law.back
              (omega arith) in
        let answer =
          answer_request-respond machine files fuel index s1 s2 p1 body
            (body ++ drop (length body) p1) p2 found
            (ap (recv_from_host machine.read s1) len ∙ got2) filled2 terminated found2 in
        (
          s2,
          p2,
          size2,
          out2,
          λ s3 answered.
              thread_job-answer_request machine files fuel index s s1 s3 packet hb p1 got1 filled1
                load_type (answer ∙ answered),
        )

    -- On a machine that reads back the bytes of a `uint32_t`, and over a socket whose `read` gives
    -- some of the bytes that are to come and whose `write` takes at least one byte: let a request
    -- be on the socket, for a string of at most 10240 bytes with no terminator inside that is
    -- found, and let its lines have a text of at most 10240 bytes. With a round of `write` for each
    -- byte, `thread_job` reads the request, however its bytes are split over the calls of `read`,
    -- sends a RESPONSE header with the length of the text and then the text, nothing else, and
    -- closes the socket.
    pub thread_job-found :
        (s : S) (packet body : List ℕ) (item : ℕ) (word : Word) (text : List ℕ)
        → In s (header_bytes machine (create_pckt machine.htonl (length body) request) ++ body)
        → Out s out
        → length packet ≡ dyn_size + 1
        → length body ≤ dyn_size
        → until_nul body ≡ body
        → search_word index body ≡ some (some item)
        → get_elem? index.words item ≡ some word
        → docs_text machine files word.list ≡ some text
        → length text ≤ dyn_size
        → length text ≤ fuel
        → 8 ≤ fuel
        → (s' : S) × (thread_job machine files fuel s index packet ≡ some (machine.close s'))
          × Out s' (
              out
              ++ header_bytes machine (create_pckt machine.htonl (length text) response)
              ++ text)
    thread_job-found s packet body item word text before kept size low ends found at texts fits
          enough eight =
        let (s1, string, size1, kept1, closes) =
          thread_job-respond s packet body (some item) before kept size low ends found in
        let (s2, answered, sent) =
          respond-found machine files sink fuel s1 index string out item word text kept1 at texts
            (omega (arith, size1)) enough
            (omega (arith, length-header_bytes machine law (length text) response)) in
        (s2, closes s2 answered, sent)

    -- Under the same conditions on the machine and the socket, `thread_job` answers a request for a
    -- string of at most 10240 bytes that is not found with an ERROR header of the length 0, sends
    -- nothing else, and closes the socket.
    pub thread_job-missing :
        (s : S) (packet body : List ℕ)
        → In s (header_bytes machine (create_pckt machine.htonl (length body) request) ++ body)
        → Out s out
        → length packet ≡ dyn_size + 1
        → length body ≤ dyn_size
        → until_nul body ≡ body
        → search_word index body ≡ some none
        → 8 ≤ fuel
        → (s' : S) × (thread_job machine files fuel s index packet ≡ some (machine.close s'))
          × Out s' (out ++ header_bytes machine (create_pckt machine.htonl 0 error))
    thread_job-missing s packet body before kept size low ends found eight =
        let (s1, string, _, kept1, closes) =
          thread_job-respond s packet body none before kept size low ends found in
        let (s2, answered, sent) =
          respond-missing machine files sink fuel s1 index string out kept1
            (omega (arith, length-header_bytes machine law 0 error)) in
        (s2, closes s2 answered, sent)
