-- ===== src/Telnet/Safety.antt =====
-- The parser of src/server/telnet.c reads inside its buffer, ends, and writes behind its start only.
use muddled.Base.{
  ℕ, zero, suc, ◌+◌, ◌-◌, ◌≤◌, ◌<◌, true, false, List, ◌∷◌, ◌++◌, inl, inr, some, ◌≡◌, refl, ap,
  ◌∙◌, arith, length, get_elem?, take, drop, length-append, length-take, length-drop, get_elem?-in,
  get_elem?-drop, get_elem?-take_append, ◌>>=◌, ◌==◌, ==_iff, Bool-cases,
}
use muddled.Telnet.{iac, Client, Round, telnet_round, process_loop, move_down, process_telnet}
use muddled.Telnet.Scan.{IsEnded}
use muddled.Telnet.Reports.{add_sub, InRange, Keeps, c_string_lem}
use muddled.Telnet.Stops.{Keeps-refl, Keeps-trans}
use muddled.Telnet.Options.{before_z}
use muddled.Telnet.Rounds.{telnet_round_lem}

module _ (fuel : ℕ) (c : Client) (i : ℕ) where
  pub process_loop_done :
      (b : ℕ)
      → get_elem? c.inbuf i ≡ some b
      → (b == iac) ≡ false
      → process_loop (suc fuel) c i ≡ some (c, i)
  unfolding process_loop
  process_loop_done b rb h = rw (rb, ◌>>=◌, h) refl

  pub process_loop_last :
      (r : Round)
      → get_elem? c.inbuf i ≡ some iac
      → telnet_round c i ≡ some r
      → r.finished ≡ true
      → process_loop (suc fuel) c i ≡ some (r.conn, r.place)
  unfolding process_loop
  process_loop_last r rb q h = rw (rb, ◌>>=◌, q, h) refl

  pub process_loop_next :
      (r : Round)
      → get_elem? c.inbuf i ≡ some iac
      → telnet_round c i ≡ some r
      → r.finished ≡ false
      → process_loop (suc fuel) c i ≡ process_loop fuel r.conn r.place
  unfolding process_loop
  process_loop_next r rb q h = rw (rb, ◌>>=◌, q, h) refl

Keeps-le : (z i j : ℕ) (c d : Client) → i ≤ j → Keeps z j c d → Keeps z i c d
Keeps-le z i j c d h (e, l, s, r) = (e, l, λ k m. s k (omega arith), r)

process_loop_lem :
    (z fuel index i : ℕ) (c : Client)
    → IsEnded z c.inbuf
    → index ≤ i
    → i ≤ z
    → z < i + fuel
    → (d : Client) × (e : ℕ) × (process_loop fuel c i ≡ some (d, e))
      × Keeps z index c d
      × (index ≤ e)
      × (e ≤ z + 1)
process_loop_lem z zero index i c ends lo hi f = absurd (omega arith)
process_loop_lem z (suc fuel) index i c ends lo hi f =
    let (b, rb) = get_elem?-in c.inbuf i (omega arith) in
    elim (Bool-cases (b == iac)) [
      | inr done ↦
          (c, i, process_loop_done fuel c i b rb done, Keeps-refl z index c ends, lo, omega arith)
      | inl command ↦
          let rb' = rb ∙ ap some ((==_iff b iac).0 command) in
          let lt = before_z z i b c.inbuf ends rb hi (ground arith) in
          let (r, q, (keep, back, last, next)) = telnet_round_lem z i c ends lt in
          let keep' = Keeps-le z index i c r.conn lo keep in
          elim (Bool-cases r.finished) [
            | inl stop ↦ (
              r.conn,
              r.place,
              process_loop_last fuel c i r rb' q stop,
              keep',
              omega arith,
              last stop,
            )
            | inr more ↦
                let (on, bound) = next more in
                let (d, e, p, k, a, o) =
                  process_loop_lem z fuel index r.place r.conn keep.0 (omega arith) bound
                    (omega arith) in
                (
                  d,
                  e,
                  process_loop_next fuel c i r rb' q more ∙ p,
                  Keeps-trans z index c r.conn d keep' k,
                  a,
                  o,
                )
          ]
    ]

length-moved :
    (index : ℕ) (buf s : List ℕ)
    → index + length s < length buf
    → length (take index buf ++ (s ++ (0 ∷ drop (index + length s + 1) buf))) ≡ length buf
length-moved index buf s h = omega (
  arith,
  length-append (take index buf) (s ++ (0 ∷ drop (index + length s + 1) buf)),
  length-append s (0 ∷ drop (index + length s + 1) buf),
  length-take index buf,
  length-drop (index + length s + 1) buf,
)

move_down_lem :
    (z index i : ℕ) (buf : List ℕ)
    → IsEnded z buf
    → index ≤ i
    → i ≤ z + 1
    → (r : List ℕ) × (move_down buf index i ≡ some r)
      × (length r ≡ length buf)
      × ((j : ℕ) → j < index → get_elem? r j ≡ get_elem? buf j)
unfolding move_down
move_down_lem z index i buf ends lo hi =
    let nul =
      get_elem?-drop i (z + 1 - i) buf ∙ ap (get_elem? buf) (add_sub i (z + 1) hi) ∙ ends.1 in
    let (s, q, short) = c_string_lem (drop i buf) (z + 1 - i) nul in
    (
      take index buf ++ (s ++ (0 ∷ drop (index + length s + 1) buf)),
      rw (q, ◌>>=◌) refl,
      length-moved index buf s (omega arith),
      λ j h.
          get_elem?-take_append index j buf (s ++ (0 ∷ drop (index + length s + 1) buf)) h
            (omega arith),
    )

-- If two NULs end the input in front of the last byte of the buffer, and the parser starts at or
-- before them, then it ends and reads inside the buffer only. The buffer keeps its length and all that
-- stands before the start, and the size of the window keeps its range.
pub process_telnet_lem :
    (z index : ℕ) (c : Client)
    → IsEnded z c.inbuf
    → index ≤ z
    → (d : Client) × (process_telnet c index ≡ some d)
      × (length d.inbuf ≡ length c.inbuf)
      × ((j : ℕ) → j < index → get_elem? d.inbuf j ≡ get_elem? c.inbuf j)
      × (InRange c → InRange d)
unfolding process_telnet
process_telnet_lem z index c ends h =
    let (d, e, p, (ends', len, same, sizes), lo, hi) =
      process_loop_lem z (suc (length c.inbuf)) index index c ends (omega arith) h (omega arith) in
    let (buf, q, len', same') = move_down_lem z index e d.inbuf ends' lo hi in
    (
      record d { inbuf = buf },
      rw (p, ◌>>=◌, q) refl,
      len' ∙ len,
      λ j l. same' j l ∙ same j l,
      sizes,
    )
