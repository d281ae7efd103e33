-- ===== src/World/Links.antt =====
-- Linking and unlinking in a list of src/macro.h, and the lists beside it.
use mathlib.Core.Path.{subst}
use muddled.Base.{
  ℕ, zero, suc, ◌<◌, true, false, List, [], ◌∷◌, ◌≢◌, ◌⊎◌, inl, inr, some, ◌≡◌, refl, sym, ap, ◌∙◌,
  arith, All, length, ◌==◌, if◌then◌else◌, ==_refl, ==_false, Bool-cases,
}
use muddled.World.{Field, update, link, unlink, unlink_loop}

-- from `p` on the list is `xs`
abbrev pub IsList : Field → ℕ → List ℕ → Type 0
IsList next p [] = p ≡ 0
IsList next p (x ∷ xs) = (p ≡ x) × (x ≢ 0) × IsList next (next x) xs

abbrev pub Misses : ℕ → List ℕ → Type 0
Misses d xs = All (λ x. (d == x) ≡ false) xs

abbrev pub remove : ℕ → List ℕ → List ℕ
remove d [] = []
remove d (x ∷ xs) = if d == x then xs else x ∷ remove d xs

abbrev pub Has : ℕ → List ℕ → Type 0
Has d [] = ⊥
Has d (x ∷ xs) = (d ≡ x) ⊎ Has d xs

-- no element stands twice
abbrev pub Distinct : List ℕ → Type 0
Distinct [] = Unit
Distinct (x ∷ xs) = Misses x xs × Distinct xs

-- no element of one list stands in the other
abbrev pub Apart : List ℕ → List ℕ → Type 0
Apart xs ys = All (λ x. Misses x ys) xs

pub IsList-update :
    (next : Field) (p d v : ℕ) (xs : List ℕ)
    → Misses d xs
    → IsList next p xs
    → IsList (update next d v) p xs
IsList-update next p d v [] m l = l
IsList-update next p d v (x ∷ xs) (h, m) (e, nz, l) =
    (e, nz, rw h (IsList-update next (next x) d v xs m l))

pub link_lem : (next : Field) (p d : ℕ) → d ≢ 0 → link next p d ≡ (update next d p, d)
unfolding link
link_lem next p d nz = rw (link, ==_false d 0 nz) refl

-- `LINK` puts an element that the list misses at its front.
pub IsList-link :
    (next : Field) (p d : ℕ) (xs : List ℕ)
    → d ≢ 0
    → Misses d xs
    → IsList next p xs
    → IsList (link next p d).0 (link next p d).1 (d ∷ xs)
unfolding link
IsList-link next p d xs nz m l =
    subst (λ r. IsList r.0 r.1 (d ∷ xs)) (sym (link_lem next p d nz))
      (refl, nz, rw (==_refl d) (IsList-update next p d p xs m l))

pub Has-Misses : (d : ℕ) (xs ys : List ℕ) → Has d xs → Apart xs ys → Misses d ys
Has-Misses d [] ys h a = absurd h
Has-Misses d (x ∷ xs) ys (inl e) (m, a) = rw e m
Has-Misses d (x ∷ xs) ys (inr h) (m, a) = Has-Misses d xs ys h a

-- an element of a list that another misses is not the other
Has-apart : (d x : ℕ) (xs : List ℕ) → Misses x xs → Has d xs → (d == x) ≡ false
Has-apart d x [] m h = absurd h
Has-apart d x (y ∷ xs) (e, m) (inl same) = rw same (ground arith)
Has-apart d x (y ∷ xs) (e, m) (inr h) = Has-apart d x xs m h

Has-further : (d y : ℕ) (ys : List ℕ) → (d == y) ≡ false → Has d (y ∷ ys) → Has d ys
Has-further d y ys further (inl e) = absurd (ground arith)
Has-further d y ys further (inr h) = h

-- the loop stops before the element, and takes it out
walk :
    (next : Field) (d x : ℕ) (xs : List ℕ) (fuel : ℕ)
    → length xs < fuel
    → x ≢ 0
    → IsList next (next x) xs
    → Distinct (x ∷ xs)
    → Has d xs
    → (prev : ℕ) × Has prev (x ∷ xs)
      × (unlink_loop fuel next x d ≡ some (update next prev (next d)))
      × IsList (update next prev (next d)) (update next prev (next d) x) (remove d xs)
unfolding unlink_loop
walk next d x [] fuel f nz l u h = absurd h
walk next d x (y ∷ ys) zero f nz l u h = absurd (omega arith)
walk next d x (y ∷ ys) (suc fuel) f nz (e, ny, l) ((apart, m), (m', u)) h =
    elim (Bool-cases (d == y)) [
      | inl here ↦
          let same : y ≡ d = ground arith in
          let hit : (next x == d) ≡ true = ground arith in
          let tail : IsList next (next d) ys = subst (λ z. IsList next (next z) ys) same l in
          (
            x,
            inl refl,
            rw (==_false x 0 nz, hit) refl,
            rw (here, ==_refl x) (IsList-update next (next d) x (next d) ys m tail),
          )
      | inr further ↦
          let h' : Has d ys = Has-further d y ys further h in
          let miss : (next x == d) ≡ false = ground arith in
          let (prev, hp, ew, lw) = walk next d y ys fuel (omega arith) ny l (m', u) h' in
          (
            prev,
            inr hp,
            rw (==_false x 0 nz, miss, e) ew,
            rw further (rw (Has-apart prev x (y ∷ ys) (apart, m) hp) e, ny, lw),
          )
    ]

-- `UNLINK` takes an element out of a list of distinct elements, within as many rounds as the list is
-- long and one: the list is the same without the element, and every list that has no element in
-- common with it stays.
pub unlink_lem :
    (next : Field) (p d : ℕ) (xs : List ℕ) (fuel : ℕ)
    → length xs < fuel
    → IsList next p xs
    → Distinct xs
    → Has d xs
    → (next' : Field) × (p' : ℕ) × (unlink fuel next p d ≡ some (next', p'))
      × IsList next' p' (remove d xs)
      × ((q : ℕ) (ys : List ℕ) → Apart xs ys → IsList next q ys → IsList next' q ys)
unfolding unlink
unlink_lem next p d [] fuel f l u h = absurd h
unlink_lem next p d (x ∷ xs) zero f l u h = absurd (omega arith)
unlink_lem next p d (x ∷ xs) (suc fuel) f (e, nz, l) u h = elim (Bool-cases (d == x)) [
  | inl here ↦
      let same : x ≡ d = ground arith in
      let hit : (p == d) ≡ true = ground arith in
      (
        next,
        next d,
        rw (unlink, hit) refl,
        rw here (subst (λ z. IsList next (next z) xs) same l),
        λ q ys a k. k,
      )
  | inr further ↦
      let miss : (p == d) ≡ false = ground arith in
      let (prev, hp, ew, lw) =
        walk next d x xs (suc fuel) (omega arith) nz l u (Has-further d x xs further h) in
      (
        update next prev (next d),
        p,
        rw (unlink, miss, ap (λ z. unlink_loop (suc fuel) next z d) e ∙ ew) refl,
        rw further (e, nz, lw),
        λ q ys a k. IsList-update next q prev (next d) ys (Has-Misses prev (x ∷ xs) ys hp a) k,
      )
]
