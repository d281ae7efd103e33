-- ===== src/Str/Args/Names.antt =====
-- What is_name and is_exact_name of src/str.c decide, over the arguments of the two texts.
use mathlib.Core.List.{cons-ne-nil}
use muddled.Base.{
  ℕ, zero, suc, ◌<◌, Bool, true, false, not, List, [], ◌∷◌, ◌≢◌, ◌↔◌, ◌⊎◌, inl, inr, Option, none,
  some, ◌≡◌, refl, ap, ◌∙◌, arith, Text, All, length, if◌then◌else◌, Bool-cases,
}
use muddled.Str.Args.Words.{first_arg_shorter, arguments, arguments_step}
use muddled.Str.Args.{
  Scan, not_found, full_match, part_match, is_nil, one_argument, scan_names, match_parts, is_name,
  find_exact, is_exact_name, first_arg, buf_siz, too_long,
}
use muddled.Str.Compare.{str_cmp, str_prefix}

-- `p` is a prefix of one of the names
abbrev pub Matches : Text → List Text → Type 0
Matches p [] = ⊥
Matches p (n ∷ ns) = (str_prefix (some p) (some n) ≡ false) ⊎ Matches p ns

-- `p` equals one of the names up to case
abbrev pub MatchesExactly : Text → List Text → Type 0
MatchesExactly p [] = ⊥
MatchesExactly p (n ∷ ns) = (str_cmp (some p) (some n) ≡ false) ⊎ MatchesExactly p ns

-- the two loops of `is_name`, over lists of arguments
scan_list : Text → Text → List Text → Scan
scan_list string part [] = not_found
scan_list string part (n ∷ ns) =
    if not (str_prefix (some string) (some n))
    then full_match
    else if not (str_prefix (some part) (some n))
    then part_match
    else scan_list string part ns

match_list : Text → List Text → List Text → Bool
match_list string ns [] = true
match_list string ns (p ∷ ps) =
    let rest = match_list string ns ps in
    elim (scan_list string p ns) [ not_found ↦ false | full_match ↦ true | part_match ↦ rest ]

exact_list : Text → List Text → Bool
exact_list str [] = false
exact_list str (n ∷ ns) = if not (str_cmp (some str) (some n)) then true else exact_list str ns

-- each argument fits the buffers of `is_name` and `is_exact_name`
abbrev pub AllShort : Text → Type 0
AllShort s = All (λ w. length w < buf_siz) (arguments s)

nil-short : (w : Text) → is_nil w ≡ true → too_long w ≡ false
nil-short [] h = refl
nil-short (c ∷ w) h = cc

-- what holds of the argument in front and of the rest
short_step :
    (s : Text)
    → is_nil (one_argument s).1 ≡ false
    → AllShort s
    → (too_long (one_argument s).1 ≡ false) × AllShort (one_argument s).0
short_step s more h = let (here, rest) = rw (arguments_step s, more) at h in (ground arith, rest)

-- what the fuel of a loop over `s` bounds, at the next round
argument_fuel :
    (f : ℕ) (s : Text)
    → length s < suc f
    → is_nil (one_argument s).1 ≡ false
    → length (one_argument s).0 < f
argument_fuel f [] h e = absurd (unfold first_arg in cc e)
argument_fuel f (c ∷ s) h e = omega (arith, first_arg_shorter (c ∷ s) false (cons-ne-nil c s))

scan_names_lem :
    (f : ℕ) (string part list : Text)
    → length list < f
    → AllShort list
    → scan_names f string part list ≡ some (scan_list string part (arguments list))
unfolding scan_names scan_list
scan_names_lem zero string part list h short = absurd (omega arith)
scan_names_lem (suc f) string part list h short = elim (Bool-cases (is_nil (one_argument list).1)) [
  | inl end ↦ rw (arguments_step list, nil-short (one_argument list).1 end, end) refl
  | inr more ↦
      let (fits, short') = short_step list more short in
      rw
        (
          arguments_step list,
          fits,
          more,
          scan_names_lem f string part (one_argument list).0 (argument_fuel f list h more) short',
        )
        (ground arith)
]

match_parts_lem :
    (f : ℕ) (string list str : Text)
    → length str < f
    → AllShort list
    → AllShort str
    → match_parts f string list str ≡ some (match_list string (arguments list) (arguments str))
unfolding match_parts match_list
match_parts_lem zero string list str h names parts = absurd (omega arith)
match_parts_lem (suc f) string list str h names parts =
    elim (Bool-cases (is_nil (one_argument str).1)) [
      | inl end ↦ rw (arguments_step str, nil-short (one_argument str).1 end, end) refl
      | inr more ↦
          let (fits, parts') = short_step str more parts in
          let rest =
            match_parts_lem f string list (one_argument str).0 (argument_fuel f str h more) names
              parts' in
          rw
            (
              arguments_step str,
              fits,
              more,
              scan_names_lem (suc (length list)) string (one_argument str).1 list (omega arith)
                  names,
            )
            (ground (arith, rest))
    ]

find_exact_lem :
    (f : ℕ) (str list : Text)
    → length list < f
    → AllShort list
    → find_exact f str list ≡ some (exact_list str (arguments list))
unfolding find_exact exact_list
find_exact_lem zero str list h short = absurd (omega arith)
find_exact_lem (suc f) str list h short = elim (Bool-cases (is_nil (one_argument list).1)) [
  | inl end ↦ rw (arguments_step list, nil-short (one_argument list).1 end, end) refl
  | inr more ↦
      let (fits, short') = short_step list more short in
      rw
        (
          arguments_step list,
          fits,
          more,
          find_exact_lem f str (one_argument list).0 (argument_fuel f list h more) short',
        )
        (ground arith)
]

scan_found : (string p : Text) (ns : List Text) → Matches p ns → scan_list string p ns ≢ not_found
unfolding scan_list
scan_found string p [] h = absurd h
scan_found string p (n ∷ ns) (inl h) = ground arith
scan_found string p (n ∷ ns) (inr h) = ground (arith, scan_found string p ns h)

scan_part : (string p : Text) (ns : List Text) → scan_list string p ns ≡ part_match → Matches p ns
unfolding scan_list
scan_part string p [] h = cc
scan_part string p (n ∷ ns) h = ground (arith, scan_part string p ns)

scan_full :
    (string p : Text) (ns : List Text) → scan_list string p ns ≡ full_match → Matches string ns
unfolding scan_list
scan_full string p [] h = cc
scan_full string p (n ∷ ns) h = ground (arith, scan_full string p ns)

abbrev pub AllMatch : List Text → List Text → Type 0
AllMatch ps ns = All (λ p. Matches p ns) ps

Scan-cases : (s : Scan) → (s ≡ not_found) ⊎ ((s ≡ full_match) ⊎ (s ≡ part_match))
Scan-cases not_found = inl refl
Scan-cases full_match = inr (inl refl)
Scan-cases part_match = inr (inr refl)

match_list_complete :
    (string : Text) (ns ps : List Text) → AllMatch ps ns → match_list string ns ps ≡ true
unfolding match_list
match_list_complete string ns [] h = refl
match_list_complete string ns (p ∷ ps) h =
    ground (arith, scan_found string p ns h.0, match_list_complete string ns ps h.1)

match_list_sound :
    (string : Text) (ns ps : List Text)
    → match_list string ns ps ≡ true
    → AllMatch ps ns ⊎ Matches string ns
unfolding match_list
match_list_sound string ns [] h = inl tt
match_list_sound string ns (p ∷ ps) h = elim (Scan-cases (scan_list string p ns)) [
  | inl e ↦ absurd (cc (rw (e, match_list) at h))
  | inr (inl e) ↦ inr (scan_full string p ns e)
  | inr (inr e) ↦ elim (match_list_sound string ns ps (rw (e, match_list) at h)) [
    | inl all ↦ inl (scan_part string p ns e, all)
    | inr full ↦ inr full
  ]
]

exact_list_iff : (str : Text) (ns : List Text) → (exact_list str ns ≡ true) ↔ MatchesExactly str ns
unfolding exact_list
exact_list_iff str [] = (λ h. cc, λ h. absurd h)
exact_list_iff str (n ∷ ns) =
    let rest = exact_list_iff str ns in
    elim (Bool-cases (str_cmp (some str) (some n))) [
      | inl differs ↦
          rw differs (λ h. inr (rest.0 h), λ h. elim h [ inl e ↦ absurd (cc) | inr m ↦ rest.1 m ])
      | inr same ↦ rw same (λ h. inl refl, λ h. refl)
    ]

module _ (d c : ℕ) (t s : Text) (short : AllShort (c ∷ s)) where
  is_name_lem :
      AllShort (d ∷ t)
      → is_name (some (d ∷ t)) (some (c ∷ s))
        ≡ some (match_list (d ∷ t) (arguments (c ∷ s)) (arguments (d ∷ t)))
  unfolding is_name
  is_name_lem parts =
      match_parts_lem (suc (length (d ∷ t))) (d ∷ t) (c ∷ s) (d ∷ t) (omega arith) short parts

  is_exact_name_lem :
      is_exact_name (some (d ∷ t)) (some (c ∷ s)) ≡ some (exact_list (d ∷ t) (arguments (c ∷ s)))
  unfolding is_exact_name
  is_exact_name_lem = find_exact_lem (suc (length (c ∷ s))) (d ∷ t) (c ∷ s) (omega arith) short

-- the same for a pointer; there is nothing to copy behind NULL
abbrev pub IsShort : Option Text → Type 0
IsShort none = Unit
IsShort (some s) = AllShort s

-- For every two pointers, NULL included, to texts whose words are shorter than the buffers of 512
-- bytes, the loops of is_name and is_exact_name end and write inside their buffers.
pub is_name_total :
    (str list : Option Text)
    → IsShort str
    → IsShort list
    → (b e : Bool) × (is_name str list ≡ some b) × (is_exact_name str list ≡ some e)
unfolding is_name is_exact_name
is_name_total none none p q = (true, false, refl, refl)
is_name_total none (some []) p q = (true, false, refl, refl)
is_name_total none (some (c ∷ s)) p q = (false, false, refl, refl)
is_name_total (some []) none p q = (true, false, refl, refl)
is_name_total (some []) (some []) p q = (true, false, refl, refl)
is_name_total (some []) (some (c ∷ s)) p q = (false, false, refl, refl)
is_name_total (some (d ∷ t)) none p q = (true, false, refl, refl)
is_name_total (some (d ∷ t)) (some []) p q = (true, false, refl, refl)
is_name_total (some (d ∷ t)) (some (c ∷ s)) p q =
    (_, _, is_name_lem d c t s q p, is_exact_name_lem d c t s q)

-- For a text that is not empty, where all words fit the buffers, `is_name` says yes if every part of
-- it is a prefix of some name of the list.
pub is_name_complete :
    (str list : Text)
    → str ≢ []
    → AllShort str
    → AllShort list
    → AllMatch (arguments str) (arguments list)
    → is_name (some str) (some list) ≡ some true
is_name_complete [] list p short names all = absurd (p refl)
is_name_complete (d ∷ t) [] p short names all = unfold is_name in refl
is_name_complete (d ∷ t) (c ∷ s) p short names all =
    is_name_lem d c t s names short
    ∙ ap some (match_list_complete (d ∷ t) (arguments (c ∷ s)) (arguments (d ∷ t)) all)

-- If `is_name` says yes for a list that is not empty, and all words fit the buffers, then every part
-- of the text is a prefix of some name of the list, or the whole text is.
pub is_name_sound :
    (str list : Text)
    → list ≢ []
    → AllShort str
    → AllShort list
    → is_name (some str) (some list) ≡ some true
    → AllMatch (arguments str) (arguments list) ⊎ Matches str (arguments list)
is_name_sound str [] p short names h = absurd (p refl)
is_name_sound [] (c ∷ s) p short names h = absurd (unfold is_name in cc h)
is_name_sound (d ∷ t) (c ∷ s) p short names h =
    match_list_sound (d ∷ t) (arguments (c ∷ s)) (arguments (d ∷ t))
      (cc (is_name_lem d c t s names short))

-- For texts that are not empty, where each name of the list is shorter than the buffer of 512
-- bytes, is_exact_name says yes exactly when the whole of str is one of the names of the list up to
-- case.
pub is_exact_name_iff :
    (str list : Text)
    → str ≢ []
    → list ≢ []
    → AllShort list
    → (is_exact_name (some str) (some list) ≡ some true) ↔ MatchesExactly str (arguments list)
is_exact_name_iff [] list p q short = absurd (p refl)
is_exact_name_iff (d ∷ t) [] p q short = absurd (q refl)
is_exact_name_iff (d ∷ t) (c ∷ s) p q short =
    let iff = exact_list_iff (d ∷ t) (arguments (c ∷ s)) in
    let result = is_exact_name_lem d c t s short in
    (λ h. iff.0 (cc), λ h. result ∙ ap some (iff.1 h))
