-- ===== src/Str/Lines.antt =====
-- src/str.c: get_line, count_lines, trim.
use mathlib.Core.List.{reverse, reverse-append, reverse-reverse}
use muddled.Base.{
  ℕ, ◌+◌, ◌-◌, Bool, true, false, not, ◌||◌, [], ◌∷◌, ◌++◌, ◌⊎◌, inl, inr, Option, none, some, ◌≡◌,
  refl, sym, ap, ◌∙◌, arith, Text, is_space, All, All-append, Lacks, ◌==◌, if◌then◌else◌, ==_iff,
  Bool-cases,
}

abbrev skip_return : Text → Text
skip_return [] = []
skip_return (c ∷ s) = if c == b'\r' then s else c ∷ s

-- the pointer behind the line, and the line that is copied to `buf`
unfoldable pub get_line : Text → Text × Text
get_line [] = ([], [])
get_line (c ∷ s) =
    let (rest, line) = get_line s in if c == b'\n' then (skip_return s, []) else (rest, c ∷ line)

-- `if (*(++pstr) == '\r') pstr++;` is the match on the byte behind the pointer
unfoldable pub count_lines : Text → ℕ
count_lines [] = 0
count_lines (c ∷ []) = if c == b'\n' then 1 else 0
count_lines (c ∷ d ∷ s) =
    let skipped = count_lines s in
    let next = count_lines (d ∷ s) in
    (if c == b'\n' then 1 else 0) + (if d == b'\r' then skipped else next)

-- the number of occurrences of a byte
pub count : ℕ → Text → ℕ
count b [] = 0
count b (c ∷ s) = (if c == b then 1 else 0) + count b s

pub count_lines-eq-count : (s : Text) → count_lines s ≡ count b'\n' s
unfolding count_lines count
count_lines-eq-count [] = refl
count_lines-eq-count (c ∷ []) = ground arith
count_lines-eq-count (c ∷ d ∷ s) =
    ground (arith, count_lines-eq-count s, count_lines-eq-count (d ∷ s))

-- a line break, with the carriage return that `get_line` skips
abbrev pub line_break : Bool → Text
line_break true = b'\n' ∷ b'\r' ∷ []
line_break false = b'\n' ∷ []

-- whether a carriage return comes next
abbrev pub has_return : Text → Bool
has_return [] = false
has_return (c ∷ s) = c == b'\r'

-- how a text is cut at its first line break: a carriage return that follows the newline belongs to
-- the break
abbrev pub Cut : Text → Text × Text → Type 0
Cut s (rest, line) =
    ((s ≡ line) × (rest ≡ []))
    ⊎ ((r : Bool) × (s ≡ line ++ (line_break r ++ rest)) × ((r || not (has_return rest)) ≡ true))

Cut-cons : (c : ℕ) (s : Text) (p : Text × Text) → Cut s p → Cut (c ∷ s) (p.0, c ∷ p.1)
Cut-cons c s (rest, line) (inl (e, f)) = inl (ap (λ r. c ∷ r) e, f)
Cut-cons c s (rest, line) (inr (r, e, n)) = inr (r, ap (λ t. c ∷ t) e, n)

cut_break :
    (s : Text)
    → (r : Bool) × (b'\n' ∷ s ≡ line_break r ++ skip_return s)
      × ((r || not (has_return (skip_return s))) ≡ true)
cut_break [] = (false, refl, refl)
cut_break (c ∷ s) = elim (Bool-cases (c == b'\r')) [
  | inl e ↦ (true, ground arith, refl)
  | inr e ↦ (false, ground arith, rw (e, e) refl)
]

get_line-Cut : (s : Text) → Cut s (get_line s)
unfolding get_line
get_line-Cut [] = inl (refl, refl)
get_line-Cut (c ∷ s) = elim (Bool-cases (c == b'\n')) [
  | inl e ↦
      let (r, at, n) = cut_break s in
      let same : c ≡ b'\n' = (==_iff c b'\n').0 e in rw (e, same) (inr (r, at, n))
  | inr e ↦ rw e (Cut-cons c s (get_line s) (get_line-Cut s))
]

get_line-Lacks : (s : Text) → Lacks b'\n' (get_line s).1
unfolding get_line
get_line-Lacks [] = tt
get_line-Lacks (c ∷ s) = ground (arith, get_line-Lacks s)

count-skip_return : (s : Text) → count b'\n' (skip_return s) ≡ count b'\n' s
unfolding count
count-skip_return [] = refl
count-skip_return (c ∷ s) = ground arith

count-get_line : (s : Text) → count b'\n' (get_line s).0 ≡ count b'\n' s - 1
unfolding get_line count
count-get_line [] = omega arith
count-get_line (c ∷ s) = ground (arith, count-get_line s, count-skip_return s)

-- get_line cuts the text at its first line break: the line holds none, and the text is the line,
-- the break and the rest (or the line alone); the break is the newline with the carriage return
-- behind it, if there is one. The rest has one line less for count_lines.
pub get_line_lem :
    (s : Text)
    → Lacks b'\n' (get_line s).1
      × Cut s (get_line s)
      × (count_lines (get_line s).0 ≡ count_lines s - 1)
get_line_lem s = (
  get_line-Lacks s,
  get_line-Cut s,
  rw (count_lines-eq-count s, count_lines-eq-count (get_line s).0) (count-get_line s),
)

-- `isspace` at the front of the text
skip_spaces : Text → Text
skip_spaces [] = []
skip_spaces (c ∷ s) = if is_space c then skip_spaces s else c ∷ s

-- forward from the start, then back from the end
unfoldable pub trim : Option Text → Option Text
unfolding skip_spaces
trim none = none
trim (some s) = some (reverse (skip_spaces (reverse (skip_spaces s))))

abbrev pub AllSpaces : Text → Type 0
AllSpaces = All (λ c. is_space c ≡ true)

-- the first byte is no space
abbrev pub StartsPlain : Text → Type 0
StartsPlain [] = Unit
StartsPlain (c ∷ s) = is_space c ≡ false

skip_spaces_lem :
    (s : Text)
    → (front : Text) × AllSpaces front × (s ≡ front ++ skip_spaces s) × StartsPlain (skip_spaces s)
unfolding skip_spaces
skip_spaces_lem [] = ([], tt, refl, tt)
skip_spaces_lem (c ∷ s) = elim (Bool-cases (is_space c)) [
  | inl e ↦
      let (front, spaces, at, plain) = skip_spaces_lem s in
      rw e (c ∷ front, (e, spaces), ap (λ r. c ∷ r) at, plain)
  | inr e ↦ rw e ([], tt, refl, e)
]

AllSpaces-reverse : (s : Text) → AllSpaces s → AllSpaces (reverse s)
AllSpaces-reverse [] h = tt
AllSpaces-reverse (c ∷ s) h =
    rw (reverse-append (c ∷ []) s)
      (All-append _ (reverse s) (c ∷ []) (AllSpaces-reverse s h.1) (h.0, tt))

StartsPlain-append : (t back : Text) → StartsPlain (t ++ back) → StartsPlain t
StartsPlain-append [] back h = tt
StartsPlain-append (c ∷ t) back h = h

-- `trim` cuts whitespace, and only that, off both ends, and none is left at either end.
pub trim_lem :
    (s : Text)
    → (front t back : Text) × (trim (some s) ≡ some t)
      × (s ≡ front ++ (t ++ back))
      × AllSpaces front
      × AllSpaces back
      × StartsPlain t
      × StartsPlain (reverse t)
unfolding trim
trim_lem s =
    let (front, spaces, at, plain) = skip_spaces_lem s in
    let u = skip_spaces s in
    let (tail, spaces', at', plain') = skip_spaces_lem (reverse u) in
    let t = reverse (skip_spaces (reverse u)) in
    let back = reverse tail in
    let whole : u ≡ t ++ back =
      sym (reverse-reverse u) ∙ ap reverse at' ∙ reverse-append tail (skip_spaces (reverse u)) in
    (
      front,
      t,
      back,
      refl,
      at ∙ ap (λ r. front ++ r) whole,
      spaces,
      AllSpaces-reverse tail spaces',
      StartsPlain-append t back (rw whole at plain),
      rw (reverse-reverse (skip_spaces (reverse u))) plain',
    )
