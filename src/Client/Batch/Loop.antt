-- ===== src/Client/Batch/Loop.antt =====
-- client1.c: all requests of a thread.
use search_engine.Common.{
  ℕ, zero, suc, ◌<◌, ◌≤◌, ◌≡◌, refl, ap, ◌∙◌, some, List, [], ◌∷◌, ◌++◌, true, arith, append-nil,
  length, get_elem?, replicate, length-replicate,
}
use search_engine.Text.Scan.{until_nul}
use search_engine.Server.{Machine, response}
use search_engine.Client.{Connector, Outcome, answered, open_socket}
use search_engine.Client.Answer.{Talk, IsClient, header}
use search_engine.Client.Batch.{word_bytes, exchange, request_loop, request_server}
use search_engine.Client.Batch.Exchange.{asked, exchange-answered}

-- A server that can always be reached: a socket is made and connected, the answer is to come on it, and
-- after the request has been sent, the answer read and the socket closed there can be another.
pub record IsServed {S : Type 0} (machine : Machine S) (connector : Connector S)
    (In Out : S → List ℕ → Type 0) (Ready : S → Type 0) (ask answer : List ℕ) : Type 0 where
  pub opens :
      (s : S)
      → Ready s
      → (s1 : S) × (s2 : S) × (connector.socket s ≡ (true, s1))
        × (connector.connect s1 ≡ (true, s2))
        × Talk In Out answer [] s2
  pub closes : (s : S) → Talk In Out [] ask s → Ready (machine.close s)

-- Each of the outcomes is the string of `text`.
unfoldable pub AllTold : List ℕ → List Outcome → Type 0
AllTold text outcomes =
    (i : ℕ)
    → i < length outcomes
    → (buf : List ℕ) × (get_elem? outcomes i ≡ some (answered buf))
      × (until_nul buf ≡ until_nul text)

AllTold-cons :
    (text buf : List ℕ) (outcomes : List Outcome)
    → until_nul buf ≡ until_nul text
    → AllTold text outcomes
    → AllTold text (answered buf ∷ outcomes)
unfolding AllTold
AllTold-cons text buf outcomes ends all zero h = (buf, refl, ends)
AllTold-cons text buf outcomes ends all (suc i) h = all i (omega (arith, h))

AllTold-none : (text : List ℕ) → AllTold text []
unfolding AllTold
AllTold-none text i h = absurd (omega (arith, h))

module _ {S : Type 0} (machine : Machine S) (connector : Connector S) (In Out : S → List ℕ → Type 0)
    (Ready : S → Type 0) (client : IsClient machine In Out) (fuel : ℕ) (word text : List ℕ)
    (served : IsServed machine connector In Out Ready
      (asked machine word)
      (header machine (length text) response ++ text)) where
  -- A round of the loop, with its results.
  request_loop-suc :
      (rounds : ℕ) (s s1 s2 s3 : S) (buf buf' : List ℕ) (outcome : Outcome)
      (outcomes : List Outcome)
      → open_socket machine connector s ≡ (true, s1)
      → exchange machine fuel s1 word buf ≡ some (outcome, buf', s2)
      → request_loop machine connector fuel rounds (machine.close s2) word buf'
        ≡ some (outcomes, s3)
      → request_loop machine connector fuel (suc rounds) s word buf ≡ some (outcome ∷ outcomes, s3)
  unfolding request_loop
  request_loop-suc rounds s s1 s2 s3 buf buf' outcome outcomes a b c = rw a (rw b (rw c refl))

  open_socket-true :
      (s s1 s2 : S)
      → connector.socket s ≡ (true, s1)
      → connector.connect s1 ≡ (true, s2)
      → open_socket machine connector s ≡ (true, s2)
  unfolding open_socket
  open_socket-true s s1 s2 a b = rw a (rw b refl)

  request_loop-AllTold :
      (rounds : ℕ) (s : S) (buf : List ℕ)
      → Ready s
      → length buf ≡ 10241
      → length text ≤ 10240
      → length (word_bytes word) ≤ fuel
      → 8 ≤ fuel
      → (outcomes : List Outcome) × (s' : S) × (request_loop machine connector fuel rounds s word
            buf
          ≡ some (outcomes, s'))
        × (length outcomes ≡ rounds)
        × AllTold text outcomes
        × Ready s'
  unfolding request_loop
  request_loop-AllTold zero s buf ready room fits enough eight =
      ([], s, refl, refl, AllTold-none text, ready)
  request_loop-AllTold (suc rounds) s buf ready room fits enough eight =
      let (s0, s1, made, connected, talk) = served.opens s ready in
      let (outcome, buf', s2, told, same, (tells, ends), talk') =
        exchange-answered machine In Out client fuel s1 word buf [] text []
          (rw (append-nil text) talk) (omega (arith, room)) (omega (arith, room)) (omega arith)
          enough eight in
      let (outcomes, s3, loop, count, all, ready') =
        request_loop-AllTold rounds (machine.close s2) buf' (served.closes s2 talk') (same ∙ room)
          fits enough eight in
      (
        answered buf' ∷ outcomes,
        s3,
        request_loop-suc rounds s s1 s2 s3 buf buf' (answered buf') outcomes
            (open_socket-true s s0 s1 made connected) (told ∙ ap (λ o. some (o, buf', s2)) tells)
            loop,
        omega (arith, count),
        AllTold-cons text buf' outcomes ends all,
        ready',
      )

  -- Let a server be such that a client can always connect, and that on each connection the answer to
  -- the word is a RESPONSE with the text, of at most 10240 bytes. With a round of `write` for each byte,
  -- `request_server` of the first client makes all of its requests, however many, and each ends with the
  -- text as the string in the buffer.
  pub request_server-AllTold :
      (req_per_thread : ℕ) (s : S)
      → Ready s
      → length text ≤ 10240
      → length (word_bytes word) ≤ fuel
      → 8 ≤ fuel
      → (outcomes : List Outcome) × (s' : S) × (request_server machine connector fuel req_per_thread
            s word
          ≡ some (outcomes, s'))
        × (length outcomes ≡ req_per_thread)
        × AllTold text outcomes
        × Ready s'
  unfolding request_server
  request_server-AllTold req_per_thread s ready fits enough eight =
      request_loop-AllTold req_per_thread s (replicate 10241 0) ready
        (length-replicate {A = ℕ} 10241 0) fits enough eight
