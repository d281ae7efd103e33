-- ===== src/World/Frames.antt =====
-- What leaving and joining a list in src/util.c does to all lists that run through the same field.
use mathlib.Core.Path.{subst}
use muddled.Base.{
  ℕ, ◌<◌, List, [], ◌∷◌, ◌≢◌, inl, inr, some, ◌≡◌, refl, sym, ap, arith, length, ◌==◌, ==_refl,
  Bool-cases,
}
use muddled.World.{Field, update, link, unlink}
use muddled.World.Links.{
  IsList, Distinct, Has, Apart, Misses, remove, unlink_lem, link_lem, IsList-link, IsList-update,
  Has-Misses,
}

-- the lists after `d` has left `xs`: its own from `p'` on, without it, and the others as they were
abbrev pub HasLeft : Field → Field → ℕ → List ℕ → ℕ → Type 0
HasLeft next next' d xs p' =
    IsList next' p' (remove d xs)
    × ((q : ℕ) (ys : List ℕ) → Apart xs ys → IsList next q ys → IsList next' q ys)
    × (next' d ≡ 0)

-- the lists after `d` has come to the front of `xs`
abbrev pub HasCome : Field → Field → ℕ → List ℕ → ℕ → Type 0
HasCome next next' d xs p' =
    IsList next' p' (d ∷ xs)
    × ((q : ℕ) (ys : List ℕ) → Misses d ys → IsList next q ys → IsList next' q ys)

Misses-remove : (d : ℕ) (xs : List ℕ) → Distinct xs → Misses d (remove d xs)
Misses-remove d [] u = tt
Misses-remove d (x ∷ xs) (m, u) = elim (Bool-cases (d == x)) [
  | inl here ↦ let same : x ≡ d = ground arith in rw here (subst (λ z. Misses z xs) same m)
  | inr further ↦ rw further (further, Misses-remove d xs u)
]

-- `UNLINK`, and then the field of the element set to NULL
pub unlink-HasLeft :
    (next : Field) (p d : ℕ) (xs : List ℕ) (fuel : ℕ)
    → length xs < fuel
    → Distinct xs
    → Has d xs
    → IsList next p xs
    → (next' : Field) × (p' : ℕ) × (unlink fuel next p d ≡ some (next', p'))
      × HasLeft next (update next' d 0) d xs p'
unlink-HasLeft next p d xs fuel enough distinct has l =
    let (next', p', e, own, others) = unlink_lem next p d xs fuel enough l distinct has in
    (
      next',
      p',
      e,
      (
        IsList-update next' p' d 0 (remove d xs) (Misses-remove d xs distinct) own,
        λ q ys a k. IsList-update next' q d 0 ys (Has-Misses d xs ys has a) (others q ys a k),
        rw (==_refl d) refl,
      ),
    )

pub link-HasCome :
    (next : Field) (p d : ℕ) (xs : List ℕ)
    → d ≢ 0
    → Misses d xs
    → IsList next p xs
    → HasCome next (link next p d).0 d xs (link next p d).1
link-HasCome next p d xs nz misses l = (
  IsList-link next p d xs nz misses l,
  λ q ys m k.
      subst (λ f. IsList f q ys) (sym (ap (λ r. r.0) (link_lem next p d nz)))
        (IsList-update next q d p ys m k),
)
