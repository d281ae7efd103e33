-- ===== src/Telnet/Options.antt =====
-- The options of three bytes in a round of the parser of src/server/telnet.c.
use muddled.Base.{ℕ, ◌+◌, ◌≤◌, ◌<◌, true, false, List, ◌≢◌, some, ◌≡◌, refl, arith, get_elem?}
use muddled.Telnet.{
  Client, send_telopt, send_telopt_sb, advertise_telopts, on_do, on_will, on_wont, on_unknown,
  on_option,
}
use muddled.Telnet.Scan.{IsEnded}
use muddled.Telnet.Reports.{Keeps}
use muddled.Telnet.Stops.{IsRound}

-- the options only send
IsSame : Client → Client → Type 0
IsSame c d = (d.inbuf ≡ c.inbuf) × (d.scr_width ≡ c.scr_width) × (d.scr_height ≡ c.scr_height)

Keeps-same : (z i : ℕ) (c d : Client) → IsEnded z c.inbuf → IsSame c d → Keeps z i c d
unfolding IsSame
Keeps-same z i c d ends (b, w, h) = rw (b, w, h) (ends, refl, λ j l. refl, λ r. r)

advertise_telopts-IsSame : (c : Client) → IsSame c (advertise_telopts c)
unfolding IsSame advertise_telopts send_telopt
advertise_telopts-IsSame c = ground arith

on_option-IsSame : (c : Client) (i cmd opt : ℕ) → IsSame c (on_option c i cmd opt).conn
unfolding IsSame on_option on_do on_will on_wont on_unknown send_telopt send_telopt_sb
on_option-IsSame c i cmd opt = ground (arith, advertise_telopts-IsSame c)

on_option_place :
    (z i cmd opt : ℕ) (c : Client)
    → i < z
    → (cmd ≢ 0 → i + 2 ≤ z)
    → (opt ≢ 0 → i + 3 ≤ z)
    → let r = on_option c i cmd opt in
      (i ≤ r.place)
      × (r.finished ≡ true → r.place ≤ z + 1)
      × (r.finished ≡ false → (i < r.place) × (r.place ≤ z))
unfolding on_option on_do on_will on_wont on_unknown
on_option_place z i cmd opt c h k l = ground arith

-- a byte that is not NUL stands before the end, and so does one whose successor is none
pub before_z :
    (z i a : ℕ) (buf : List ℕ) → IsEnded z buf → get_elem? buf i ≡ some a → i ≤ z → a ≢ 0 → i < z
before_z z i a buf e h l n = ground arith

pub apart :
    (i j a b : ℕ) (buf : List ℕ)
    → get_elem? buf i ≡ some a
    → get_elem? buf j ≡ some b
    → a ≢ b
    → i ≢ j
apart i j a b buf ra rb n = λ q. n (ground arith)

pub before_z_next :
    (z i j a : ℕ) (buf : List ℕ)
    → IsEnded z buf
    → get_elem? buf j ≡ some a
    → j ≡ i + 1
    → i ≤ z
    → a ≢ 0
    → j < z
before_z_next z i j a buf e h q l n = ground arith

pub on_option_lem :
    (z i cmd opt : ℕ) (c : Client)
    → IsEnded z c.inbuf
    → i < z
    → get_elem? c.inbuf (i + 1) ≡ some cmd
    → get_elem? c.inbuf (i + 2) ≡ some opt
    → IsRound z i c (on_option c i cmd opt)
on_option_lem z i cmd opt c ends lt rc ro =
    let two = λ (n : cmd ≢ 0). before_z z (i + 1) cmd c.inbuf ends rc (omega arith) n in
    let three = λ (n : opt ≢ 0).
      before_z_next z (i + 1) (i + 2) opt c.inbuf ends ro (omega arith) (omega arith) n in
    let place =
      on_option_place z i cmd opt c lt (λ n. let h = two n in omega arith)
        (λ n. let h = three n in omega arith) in
    (
      Keeps-same z i c (on_option c i cmd opt).conn ends (on_option-IsSame c i cmd opt),
      place.0,
      place.1,
      place.2,
    )
