-- ===== src/Str/Fill/Laws.antt =====
-- What fill_str_len and align_string of src/str.c make of plain text to the left.
use Prim.Native.Nat.{min}
use muddled.Base.{
  ℕ, zero, suc, ◌+◌, ◌-◌, ◌*◌, ◌/◌, ◌%◌, ◌^◌, ◌<◌, false, ◌||◌, [], ◌∷◌, ◌++◌, append-nil, ◌≢◌,
  Option, some, ◌≡◌, refl, sym, ap, ◌∙◌, arith, Text, codes, Lacks, length, take, replicate,
  length-append, length-replicate, leb, ◌==◌, if◌then◌else◌,
}
use muddled.Str.Compare.{nullstr}
use muddled.Str.Colors.{color_code, strlen_color, strpos, end_place}
use muddled.Str.Colors.Position.{strpos_lem}
use muddled.Str.Colors.Visible.{Visible, Visible-append, Visible-plain, Visible-replicate}
use muddled.Str.Fill.{repeat, fill_part, fill_str_len, align_left, align_string, minus, fits}

repeat-single : (n c : ℕ) → repeat n (c ∷ []) ≡ replicate n c
repeat-single zero c = refl
repeat-single (suc n) c = ap (λ r. c ∷ r) (repeat-single n c)

not_full : (n : ℕ) → n < 4096 → leb 4096 n ≡ false
not_full n h = ground arith

fits-some : (s : Text) → leb 4096 (length s) ≡ false → fits s ≡ some s
fits-some s h = rw h refl

fill_str_len-eq :
    (src : Text) (n : ℕ)
    → nullstr (some src) ≡ false
    → (n == 0) ≡ false
    → (strlen_color (some src) == 0 || leb 4096 (n / strlen_color (some src) * length src)) ≡ false
    → fill_str_len (some src) n
      ≡ fits
          (repeat (n / strlen_color (some src)) src ++ fill_part (n % strlen_color (some src)) src)
unfolding fill_str_len
fill_str_len-eq src n a b c = rw (a, b, c) refl

-- a fill of one byte that is no colour code
fill_str_len-single :
    (c n : ℕ) → c ≢ color_code → n < 4096 → fill_str_len (some (c ∷ [])) n ≡ some (replicate n c)
fill_str_len-single c zero h l = unfold fill_str_len in refl
fill_str_len-single c (suc n) h l =
    let src : Text = c ∷ [] in
    let one : strlen_color (some src) ≡ 1 = (Visible-plain src (h, tt)).0 in
    let all : suc n / 1 ≡ suc n = omega arith in
    let none_left : suc n % 1 ≡ 0 = omega arith in
    let nothing : fill_part 0 src ≡ [] = unfold fill_part in refl in
    let room : (1 == 0 || leb 4096 (suc n / 1 * 1)) ≡ false =
      rw all (not_full (suc n * 1) (omega arith)) in
    fill_str_len-eq src (suc n) refl (ground arith)
      (ap (λ z. z == 0 || leb 4096 (suc n / z * 1)) one ∙ room)
    ∙ ap (λ z. fits (repeat (suc n / z) src ++ fill_part (suc n % z) src)) one
    ∙ ap (λ k. fits (repeat k src ++ fill_part (suc n % 1) src)) all
    ∙ ap (λ k. fits (repeat (suc n) src ++ fill_part k src)) none_left
    ∙ ap (λ r. fits (r ++ fill_part 0 src)) (repeat-single (suc n) c)
    ∙ ap (λ p. fits (replicate (suc n) c ++ p)) nothing
    ∙ ap fits (append-nil (replicate (suc n) c))
    ∙ fits-some (replicate (suc n) c) (
        not_full (length (replicate (suc n) c)) (omega (arith, length-replicate {A = ℕ} (suc n) c)))

Lacks-take : (n b : ℕ) (s : Text) → Lacks b s → Lacks b (take n s)
Lacks-take zero b s h = tt
Lacks-take (suc n) b [] h = tt
Lacks-take (suc n) b (c ∷ s) h = (h.0, Lacks-take n b s h.1)

nullstr-false : (s : Text) → s ≢ [] → nullstr (some s) ≡ false
nullstr-false [] h = absurd (h refl)
nullstr-false (c ∷ s) h = refl

align_left-eq :
    (w : ℕ) (color str : Text) (fill : Option Text) (k : ℕ) (front back : Text)
    → nullstr (some str) ≡ false
    → fill_str_len (if nullstr fill then some (codes " ") else fill) 0 ≡ some front
    → strpos str w ≡ some k
    → fill_str_len
        (if nullstr fill then some (codes " ") else fill)
        (minus w (min ((0 + strlen_color (some str)) % 2 ^ 64) w))
      ≡ some back
    → align_string align_left w (some color) fill (some str)
      ≡ fits (color ++ (front ++ (take k str ++ (back ++ codes "~x"))))
unfolding align_string
align_left-eq w color str fill k front back a b c d = rw (a, b, c, d) refl

-- Plain text that is not empty, aligned to the left with a plain fill and a colour of three bytes at
-- most, is visibly as wide as it is asked for.
pub align_string-Visible :
    (w : ℕ) (color : Text) (fill : Option Text) (c : ℕ) (str : Text)
    → str ≢ []
    → Lacks color_code str
    → Visible color 0
    → length color < 4
    → (if nullstr fill then some (codes " ") else fill) ≡ some (c ∷ [])
    → c ≢ color_code
    → 0 < w
    → w < 4000
    → length str < 4000
    → (t : Text) × (align_string align_left w (some color) fill (some str) ≡ some t) × Visible t w
align_string-Visible w color fill c str p plain code short filler n lo hi len =
    let full = nullstr-false str p in
    let (sz, whole) = Visible-plain str plain in
    let (k, at, le, seen) = strpos_lem str w whole lo in
    let front = take k str in
    let (size, whole') = Visible-plain front (Lacks-take k color_code str plain) in
    let m : length front ≡ min w (length str) = sym size ∙ seen ∙ ap (min w) sz in
    let gap = minus w (min (length str) w) in
    let gap_size : gap ≡ w - length front = omega (arith, m) in
    let back = replicate gap c in
    let total : (0 + length str) % 2 ^ 64 ≡ length str = omega arith in
    let t = color ++ (front ++ (back ++ codes "~x")) in
    let size_t : length t ≡ length color + (length front + (gap + 2)) = omega (
      arith,
      length-append color (front ++ (back ++ codes "~x")),
      length-append front (back ++ codes "~x"),
      length-append back (codes "~x"),
      length-replicate {A = ℕ} gap c,
    ) in
    let room = not_full (length t) (omega (arith, size_t, gap_size, m)) in
    let end : Visible (codes "~x") 0 = unfold strlen_color end_place in (refl, refl) in
    let v = Visible-append color (front ++ (back ++ codes "~x")) 0 (length front + (gap + 0)) code (
      Visible-append front (back ++ codes "~x") (length front) (gap + 0) (size, whole')
        (Visible-append back (codes "~x") gap 0 (Visible-replicate gap c n) end)) in
    let cut : minus w (min ((0 + strlen_color (some str)) % 2 ^ 64) w) ≡ gap =
      ap (λ v. minus w (min ((0 + v) % 2 ^ 64) w)) sz ∙ ap (λ v. minus w (min v w)) total in
    let ends : fill_str_len (some (c ∷ [])) gap ≡ some back =
      fill_str_len-single c gap n (omega (arith, gap_size)) in
    let whole_text =
      align_left-eq w color str fill k [] back full
        (ap (λ f. fill_str_len f 0) filler ∙ fill_str_len-single c 0 n (omega arith)) at
        (ap (λ f. fill_str_len f (minus w (min ((0 + strlen_color (some str)) % 2 ^ 64) w))) filler
          ∙ ap (fill_str_len (some (c ∷ []))) cut
          ∙ ends) in
    (t, whole_text ∙ fits-some t room, (v.0 ∙ omega (arith, gap_size, m), v.1))
