-- ===== src/Server/Packet.antt =====
-- server.c: the text that `thread_job` writes to the packet.
use search_engine.Common.{
  ℕ, zero, suc, ◌+◌, ◌<◌, ◌≤◌, ◌≡◌, refl, sym, ap, ◌∙◌, Option, none, some, List, [], ◌∷◌, ◌++◌,
  arith, append-nil, append_assoc, lt→ltb, length, get_elem?, take, drop, length-append,
  length-take, length-drop, ◌>>=◌,
}
use search_engine.Table.{DynList}
use search_engine.Postings.{Link}
use mathlib.Core.Path.{subst}
use mathlib.Core.Option.{some-injective}
use native.Mathlib.Decide.{dec_le}
use search_engine.Net.Stream.{take-append}
use search_engine.Server.{Machine, name_at, write_text, write_lines, write_docs}

bind-some :
    {A B : Type 0} (m : Option A) {f : A → Option B} {b : B}
    → (m >>= f) ≡ some b
    → (a : A) × (m ≡ some a) × (f a ≡ some b)
bind-some none e = cc e
bind-some (some a) e = (a, refl, e)

-- `text` stands in `packet'` behind the first `tot_len` bytes of `packet`.
pub record Stands (packet : List ℕ) (tot_len : ℕ) (text packet' : List ℕ) : Type 0 where
  pub same : length packet' ≡ length packet
  pub starts : take (tot_len + length text) packet' ≡ take tot_len packet ++ text

-- What a write of `text` behind `tot_len` bytes gives: it stands there if it fits with its
-- terminator, and is a fault if not.
unfoldable pub Writes : List ℕ → ℕ → List ℕ → Option (List ℕ × ℕ) → Type 0
Writes packet tot_len text result =
    (tot_len + length text < length packet
      → (packet' : List ℕ) × (result ≡ some (packet', tot_len + length text))
        × Stands packet tot_len text packet')
    × (length packet ≤ tot_len + length text → result ≡ none)

pub take-front : (text rest : List ℕ) → take (length text) (text ++ rest) ≡ text
take-front [] rest = refl
take-front (c ∷ text) rest = ap (λ t. c ∷ t) (take-front text rest)

Writes-nothing :
    (packet : List ℕ) (tot_len : ℕ)
    → tot_len < length packet
    → Writes packet tot_len [] (some (packet, tot_len))
unfolding Writes
Writes-nothing packet tot_len h = (
  λ k. (
    packet,
    ap (λ n. some (packet, n)) (omega arith),
    record {
      same = refl;
      starts = ap (λ n. take n packet) (omega arith) ∙ sym (append-nil (take tot_len packet));
    },
  ),
  λ k. absurd (omega arith),
)

write_text-Writes :
    (packet : List ℕ) (tot_len : ℕ) (text : List ℕ)
    → Writes packet tot_len text (write_text text (packet, tot_len))
unfolding Writes write_text
write_text-Writes packet tot_len text = (
  λ h.
      let front : length (take tot_len packet) ≡ tot_len =
        ground (arith, length-take tot_len packet) in
      let rest = 0 ∷ drop (suc (tot_len + length text)) packet in
      (
        take tot_len packet ++ (text ++ rest),
        rw (lt→ltb (tot_len + length text) (length packet) h) refl,
        record {
          same = omega (
            arith,
            length-append (take tot_len packet) (text ++ rest),
            length-append text rest,
            length-drop (suc (tot_len + length text)) packet,
            front,
            h,
          );
          starts =
              take-append (take tot_len packet) (text ++ rest) (tot_len + length text)
                (omega (arith, front))
              ∙ ap (λ n. take tot_len packet ++ take n (text ++ rest)) (omega (arith, front))
              ∙ ap (λ t. take tot_len packet ++ t) (take-front text rest);
        },
      ),
  λ h. ground arith,
)

-- One write after another.
Writes-then :
    (packet : List ℕ) (tot_len : ℕ) (text text' : List ℕ) (result : Option (List ℕ × ℕ))
    → (more : List ℕ × ℕ → Option (List ℕ × ℕ)) → Writes packet tot_len text result
    → ((packet' : List ℕ)
        → length packet' ≡ length packet
        → tot_len + length text < length packet
        → Writes packet' (tot_len + length text) text' (more (packet', tot_len + length text)))
    → Writes packet tot_len (text ++ text') (result >>= more)
unfolding Writes
Writes-then packet tot_len text text' result more (fits, overruns) next =
    let both = length-append text text' in
    (
      λ h.
          let (packet', e, held) = fits (omega (arith, h, both)) in
          let (fits', _) = next packet' held.same (omega (arith, h, both)) in
          let (packet'', e', held') = fits' (omega (arith, h, held.same, both)) in
          (
            packet'',
            rw e (e' ∙ ap (λ n. some (packet'', n)) (omega (arith, both))),
            record {
              same = held'.same ∙ held.same;
              starts =
                  ap (λ n. take n packet'') (omega (arith, both))
                  ∙ held'.starts
                  ∙ ap (λ t. t ++ text') held.starts
                  ∙ append_assoc (take tot_len packet) text text';
            },
          ),
      λ h. elim (dec_le (length packet) (tot_len + length text)) [
        | yes p ↦ rw (overruns p) refl
        | no p ↦
            let (packet', e, held) = fits (omega arith) in
            let (_, overruns') = next packet' held.same (omega arith) in
            rw e (overruns' (omega (arith, h, held.same, both)))
      ],
    )

module _ {S : Type 0} (machine : Machine S) (files : DynList ℕ) where
  -- The text of the lines of a document from number `i` on; `none` if its name or a line is missing.
  unfoldable pub lines_text : Link → ℕ → ℕ → Option (List ℕ)
  lines_text doc zero i = some []
  lines_text doc (suc rounds) i = do
    name ← name_at machine files doc.val
    line ← get_elem? doc.list i
    rest ← lines_text doc rounds (suc i)
    some (machine.line_text name line ++ rest)

  unfoldable pub docs_text : List Link → Option (List ℕ)
  docs_text [] = some []
  docs_text (doc ∷ docs) = do
    text ← lines_text doc doc.last_index 0
    rest ← docs_text docs
    some (text ++ rest)

  write_lines-Writes :
      (doc : Link) (rounds i : ℕ) (packet : List ℕ) (tot_len : ℕ) (text : List ℕ)
      → tot_len < length packet
      → lines_text doc rounds i ≡ some text
      → Writes packet tot_len text (write_lines machine files doc rounds i (packet, tot_len))
  unfolding write_lines lines_text
  write_lines-Writes doc zero i packet tot_len text h e =
      subst (λ t. Writes packet tot_len t (some (packet, tot_len))) (some-injective _ _ e)
        (Writes-nothing packet tot_len h)
  write_lines-Writes doc (suc rounds) i packet tot_len text h e =
      let (name, e_name, e1) = bind-some (name_at machine files doc.val) e in
      let (line, e_line, e2) = bind-some (get_elem? doc.list i) e1 in
      let (rest, e_rest, e3) = bind-some (lines_text doc rounds (suc i)) e2 in
      rw (e_name, e_line)
        (subst
          (λ t. Writes packet tot_len t (
            write_text (machine.line_text name line) (packet, tot_len) >>= λ p.
            write_lines machine files doc rounds (suc i) p))
          (some-injective _ _ e3)
          (Writes-then packet tot_len (machine.line_text name line) rest
            (write_text (machine.line_text name line) (packet, tot_len))
            (λ p. write_lines machine files doc rounds (suc i) p)
            (write_text-Writes packet tot_len (machine.line_text name line))
            (λ packet' same h'.
              write_lines-Writes doc rounds (suc i) packet'
                (tot_len + length (machine.line_text name line)) rest (omega arith) e_rest)))

  pub write_docs-Writes :
      (docs : List Link) (packet : List ℕ) (tot_len : ℕ) (text : List ℕ)
      → tot_len < length packet
      → docs_text docs ≡ some text
      → Writes packet tot_len text (write_docs machine files docs (packet, tot_len))
  unfolding write_docs docs_text
  write_docs-Writes [] packet tot_len text h e =
      subst (λ t. Writes packet tot_len t (some (packet, tot_len))) (some-injective _ _ e)
        (Writes-nothing packet tot_len h)
  write_docs-Writes (doc ∷ docs) packet tot_len text h e =
      let (front, e_front, e1) = bind-some (lines_text doc doc.last_index 0) e in
      let (rest, e_rest, e2) = bind-some (docs_text docs) e1 in
      subst
        (λ t. Writes packet tot_len t (
          write_lines machine files doc doc.last_index 0 (packet, tot_len) >>= λ p.
          write_docs machine files docs p))
        (some-injective _ _ e2)
        (Writes-then packet tot_len front rest
          (write_lines machine files doc doc.last_index 0 (packet, tot_len))
          (λ p. write_docs machine files docs p)
          (write_lines-Writes doc doc.last_index 0 packet tot_len front h e_front)
          (λ packet' same h'.
            write_docs-Writes docs packet' (tot_len + length front) rest (omega arith) e_rest))
