-- ===== src/Telnet/Refinement.antt =====
-- The parser of src/server/telnet.c against a description of the commands.
use muddled.Base.{
  ℕ, zero, suc, ◌+◌, ◌≤◌, ◌<◌, false, List, [], ◌∷◌, ◌++◌, append_assoc, ◌≢◌, some, ◌≡◌, refl, sym,
  ap, ◌∙◌, arith, All, length, get_elem?, drop, length-append, take-append, drop-append,
  get_elem?-append_right, drop-append_right, ◌>>=◌, ==_false,
}
use muddled.Telnet.{iac, Client, Round, c_string, process_loop, move_down, process_telnet}
use muddled.Telnet.Safety.{process_loop_done, process_loop_next}
use muddled.Telnet.Commands.{
  Command, option, window, terminal, encode, respond, IsWellFormed, with_buf, Takes, option-Takes,
}
use muddled.Telnet.Windows.{window-Takes}
use muddled.Telnet.Terminals.{terminal-Takes}

command-Takes : (k : Command) (c : Client) (pre rest : List ℕ) → IsWellFormed k → Takes k c pre rest
command-Takes (option cmd opt) c pre rest ok = option-Takes cmd opt c pre rest ok
command-Takes (window w h) c pre rest ok = window-Takes w h c pre rest ok
command-Takes (terminal name) c pre rest ok = terminal-Takes name c pre rest ok

abbrev pub encode_all : List Command → List ℕ
encode_all [] = []
encode_all (k ∷ ks) = encode k ++ encode_all ks

-- the answers in order
abbrev pub respond_all : List Command → Client → Client
respond_all [] c = c
respond_all (k ∷ ks) c = respond_all ks (respond k c)

starts_iac : (k : Command) (rest : List ℕ) → get_elem? (encode k ++ rest) 0 ≡ some iac
starts_iac (option cmd opt) rest = refl
starts_iac (window w h) rest = refl
starts_iac (terminal name) rest = refl

length-encode_all : (ks : List Command) → length ks ≤ length (encode_all ks)
length-encode_all [] = omega arith
length-encode_all (option cmd opt ∷ ks) = let ih = length-encode_all ks in omega arith
length-encode_all (window w h ∷ ks) = let ih = length-encode_all ks in omega arith
length-encode_all (terminal name ∷ ks) =
    let ih = length-encode_all ks in
    omega (arith, length-append (encode (terminal name)) (encode_all ks))

regroup :
    (fuel : ℕ) (c d : Client) (pre mid mid' more rest : List ℕ)
    → process_loop fuel (with_buf c ((pre ++ mid) ++ more)) (length (pre ++ mid))
      ≡ some (with_buf d ((pre ++ mid) ++ (mid' ++ rest)), length (pre ++ mid) + length mid')
    → process_loop fuel (with_buf c (pre ++ (mid ++ more))) (length pre + length mid)
      ≡ some (with_buf d (pre ++ ((mid ++ mid') ++ rest)), length pre + length (mid ++ mid'))
regroup fuel c d pre mid mid' more rest p =
    ap (λ b. process_loop fuel (with_buf c b) (length pre + length mid))
      (sym (append_assoc pre mid more))
    ∙ ap (λ n. process_loop fuel (with_buf c ((pre ++ mid) ++ more)) n)
        (sym (length-append pre mid))
    ∙ p
    ∙ ap (λ b. some (with_buf d b, length (pre ++ mid) + length mid'))
        (append_assoc pre mid (mid' ++ rest)
          ∙ ap (λ b. pre ++ b) (sym (append_assoc mid mid' rest)))
    ∙ ap (λ n. some (with_buf d (pre ++ ((mid ++ mid') ++ rest)), n))
        (omega (arith, length-append pre mid, length-append mid mid'))

process_loop_commands :
    (ks : List Command) (fuel : ℕ) (c : Client) (pre : List ℕ) (b : ℕ) (rest : List ℕ)
    → All IsWellFormed ks
    → b ≢ iac
    → length ks < fuel
    → (mid : List ℕ) × (process_loop fuel
          (with_buf c (pre ++ (encode_all ks ++ (b ∷ rest))))
          (length pre)
        ≡ some (with_buf (respond_all ks c) (pre ++ (mid ++ (b ∷ rest))), length pre + length mid))
process_loop_commands ks zero c pre b rest ok n f = absurd (omega arith)
process_loop_commands [] (suc fuel) c pre b rest ok n f = (
  [],
  process_loop_done fuel (with_buf c (pre ++ (b ∷ rest))) (length pre) b
        (ap (get_elem? (pre ++ (b ∷ rest))) (omega arith) ∙ get_elem?-append_right pre (b ∷ rest) 0)
        (==_false b iac n)
      ∙ ap (λ p. some (with_buf c (pre ++ (b ∷ rest)), p)) (omega arith),
)
process_loop_commands (k ∷ ks) (suc fuel) c pre b rest (ok, oks) n f =
    let more = encode_all ks ++ (b ∷ rest) in
    let (mid, len, step) = command-Takes k c pre more ok in
    let (mid', p) =
      process_loop_commands ks fuel (respond k c) (pre ++ mid) b rest oks n (omega arith) in
    let d = with_buf (respond k c) (pre ++ (mid ++ more)) in
    let r : Round = record { conn = d; place = length pre + length mid; finished = false } in
    (
      mid ++ mid',
      rw (append_assoc (encode k) (encode_all ks) (b ∷ rest)) (
          process_loop_next fuel (with_buf c (pre ++ (encode k ++ more))) (length pre) r
            (ap (get_elem? (pre ++ (encode k ++ more))) (omega arith)
              ∙ get_elem?-append_right pre (encode k ++ more) 0
              ∙ starts_iac k more)
            step refl
          ∙ regroup fuel (respond k c) (respond_all ks (respond k c)) pre mid mid' more (b ∷ rest)
              p),
    )

plain_text :
    (text tail : List ℕ)
    → All (λ b. (b ≢ 0) × (b ≢ iac)) text
    → c_string (text ++ (0 ∷ tail)) ≡ some text
unfolding c_string
plain_text [] tail h = refl
plain_text (b ∷ bs) tail ((n, _), h) = let ih = plain_text bs tail h in rw (==_false b 0 n, ih) refl

-- the same loop in front of a text
process_loop_text :
    (ks : List Command) (fuel : ℕ) (c : Client) (pre text tail : List ℕ)
    → All IsWellFormed ks
    → All (λ b. (b ≢ 0) × (b ≢ iac)) text
    → length ks < fuel
    → (mid : List ℕ) × (process_loop fuel
          (with_buf c (pre ++ (encode_all ks ++ (text ++ (0 ∷ tail)))))
          (length pre)
        ≡ some (
          with_buf (respond_all ks c) (pre ++ (mid ++ (text ++ (0 ∷ tail)))),
          length pre + length mid,
        ))
process_loop_text ks fuel c pre [] tail ok h f =
    process_loop_commands ks fuel c pre 0 tail ok (λ e. omega arith) f
process_loop_text ks fuel c pre (b ∷ bs) tail ok ((_, n), h) f =
    process_loop_commands ks fuel c pre b (bs ++ (0 ∷ tail)) ok n f

drop-two : (pre mid ys : List ℕ) → drop (length pre + length mid) (pre ++ (mid ++ ys)) ≡ ys
drop-two pre mid ys = drop-append_right pre (mid ++ ys) (length mid) ∙ drop-append mid ys

move_down_text :
    (pre mid text tail : List ℕ)
    → All (λ b. (b ≢ 0) × (b ≢ iac)) text
    → (tail' : List ℕ) × (move_down
          (pre ++ (mid ++ (text ++ (0 ∷ tail))))
          (length pre)
          (length pre + length mid)
        ≡ some (pre ++ (text ++ (0 ∷ tail'))))
unfolding move_down
move_down_text pre mid text tail h = (
  drop (length pre + length text + 1) (pre ++ (mid ++ (text ++ (0 ∷ tail)))),
  rw
      (
        drop-two pre mid (text ++ (0 ∷ tail)),
        plain_text text tail h,
        ◌>>=◌,
        take-append pre (mid ++ (text ++ (0 ∷ tail))),
      )
      refl,
)

-- Let the input hold well-formed commands (WILL, WONT, DO or DONT of an option that is not 0, a
-- window whose two sizes are 1 to 239, or the name of a terminal in printable bytes), then text
-- with no IAC and no NUL, then its NUL. Then process_telnet leaves the text alone, which moves to
-- where the commands began; what stands before is unchanged. The commands are answered and their
-- reports stored in order.
pub process_telnet_commands :
    (ks : List Command) (c : Client) (pre text tail : List ℕ)
    → All IsWellFormed ks
    → All (λ b. (b ≢ 0) × (b ≢ iac)) text
    → (tail' : List ℕ) × (process_telnet
          (with_buf c (pre ++ (encode_all ks ++ (text ++ (0 ∷ tail)))))
          (length pre)
        ≡ some (with_buf (respond_all ks c) (pre ++ (text ++ (0 ∷ tail')))))
unfolding process_telnet
process_telnet_commands ks c pre text tail ok plain =
    let buf = pre ++ (encode_all ks ++ (text ++ (0 ∷ tail))) in
    let few = length-encode_all ks in
    let (mid, p) = process_loop_text ks (suc (length buf)) c pre text tail ok plain (
      omega (
        arith,
        length-append pre (encode_all ks ++ (text ++ (0 ∷ tail))),
        length-append (encode_all ks) (text ++ (0 ∷ tail)),
      )) in
    let (tail', q) = move_down_text pre mid text tail plain in (tail', rw (p, ◌>>=◌, q) refl)
