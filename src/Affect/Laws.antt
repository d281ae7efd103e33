-- ===== src/Affect/Laws.antt =====
-- Applying and removing the affects of src/affect.c.
use mathlib.Core.Path.{subst}
use muddled.Base.{
  ℕ, ◌+◌, ◌<◌, true, false, List, ◌∷◌, ◌≢◌, inl, inr, some, ◌≡◌, refl, ap, arith, length, ◌==◌,
  ==_refl, Bool-cases,
}
use muddled.Base.Int.{ℤ, pos, negsuc, ◌+ℤ◌, ◌-ℤ◌, ◌≤ℤ◌}
use muddled.World.{link}
use muddled.World.Links.{IsList, Distinct, Misses, remove, unlink_lem, IsList-link, link_lem}
use muddled.Affect.{
  Stats, Callback, no_callback, apply_str, apply_dex, apply_int, apply_wis, apply_con, apply_luck,
  apply_sex, apply_level, apply_mana, apply_hit, apply_move, apply_size, apply_align, Affect,
  affect_mod, urange, add_at, affect_apply_stat, affect_apply_sex, affect_apply_level,
  affect_apply_mana, affect_apply_move, affect_apply_hit, affect_apply_size, call, affect_modify,
  Character, affect_to_char, affect_remove,
}

undo : (a m : ℤ) → (a +ℤ m) +ℤ (pos 0 -ℤ m) ≡ a
undo (pos a) (pos m) = ground arith
undo (pos a) (negsuc m) = ground arith
undo (negsuc a) (pos m) = ground arith
undo (negsuc a) (negsuc m) = ground arith

undo_at : (f : ℕ → ℤ) (k : ℕ) (m : ℤ) (i : ℕ) → add_at (add_at f k m) k (pos 0 -ℤ m) i ≡ f i
undo_at f k m i = elim (Bool-cases (k == i)) [
  | inl here ↦ rw here (undo (f i) m)
  | inr there ↦ rw there refl
]

undo_stat :
    (paf : Affect) (k : ℕ) (s : Stats)
    → affect_apply_stat paf true k (affect_apply_stat paf false k s) ≡ s
unfolding affect_apply_stat
undo_stat paf k s =
    ap (λ f. record s { stat_mods = f }) (λ t i. undo_at s.stat_mods k paf.modifier i t)

-- the callbacks that only add
abbrev pub IsPlain : Callback → Type 0
IsPlain apply_size = ⊥
IsPlain apply_align = ⊥
IsPlain c = Unit

-- Removing an affect takes back what applying it did, for all callbacks that only add.
pub call_undo :
    (c : Callback) (paf : Affect) (s : Stats) → IsPlain c → call c paf true (call c paf false s) ≡ s
unfolding call affect_apply_sex affect_apply_level affect_apply_mana affect_apply_move
    affect_apply_hit
call_undo no_callback paf s h = refl
call_undo apply_str paf s h = undo_stat paf 0 s
call_undo apply_int paf s h = undo_stat paf 1 s
call_undo apply_wis paf s h = undo_stat paf 2 s
call_undo apply_dex paf s h = undo_stat paf 3 s
call_undo apply_con paf s h = undo_stat paf 4 s
call_undo apply_luck paf s h = undo_stat paf 5 s
call_undo apply_sex paf s h = ap (λ v. record s { sex = v }) (undo s.sex paf.modifier)
call_undo apply_level paf s h = ap (λ v. record s { level = v }) (undo s.level paf.modifier)
call_undo apply_mana paf s h = ap (λ v. record s { max_mana = v }) (undo s.max_mana paf.modifier)
call_undo apply_hit paf s h = ap (λ v. record s { max_hit = v }) (undo s.max_hit paf.modifier)
call_undo apply_move paf s h = ap (λ v. record s { max_move = v }) (undo s.max_move paf.modifier)
call_undo apply_size paf s h = absurd h
call_undo apply_align paf s h = absurd h

urange-two : (m : ℤ) → pos 2 ≤ℤ urange (pos 2) m (pos 10)
unfolding urange
urange-two (pos m) = ground arith
urange-two (negsuc m) = ground arith

add-le : (a b c : ℤ) → pos 2 ≤ℤ b → pos 2 ≤ℤ c → (a +ℤ pos 4) ≤ℤ ((a +ℤ b) +ℤ c)
add-le (pos a) (pos b) (pos c) p q = ground arith
add-le (negsuc a) (pos b) (pos c) p q = ground arith
add-le a (negsuc b) c p q = absurd (omega arith)
add-le a (pos b) (negsuc c) p q = absurd (omega arith)

-- Applying an affect on the size and removing it again makes the character larger by at least 4:
-- both changes are cut to the range of sizes, which does not hold their negatives.
pub size_grows :
    (paf : Affect) (s : Stats)
    → (s.size +ℤ pos 4) ≤ℤ (call apply_size paf true (call apply_size paf false s)).size
unfolding call affect_apply_size
size_grows paf s =
    add-le s.size (urange (pos 2) (affect_mod paf false) (pos 10))
      (urange (pos 2) (affect_mod paf true) (pos 10)) (urange-two (affect_mod paf false))
      (urange-two (affect_mod paf true))

remove-first : (d : ℕ) (xs : List ℕ) → remove d (d ∷ xs) ≡ xs
remove-first d xs = rw (==_refl d) refl

-- An affect with a plain callback, which the character does not have, is given and removed again:
-- then the members of the character are as before, and so is the list of affects.
pub affect_remove-affect_to_char :
    (ch : Character) (paf : ℕ) (xs : List ℕ) (fuel : ℕ)
    → length xs + 1 < fuel
    → paf ≢ 0
    → IsPlain (ch.affect paf).callback
    → IsList ch.next ch.affects xs
    → Distinct xs
    → Misses paf xs
    → (ch' : Character) × (affect_remove fuel (affect_to_char ch paf) paf ≡ some ch')
      × (ch'.stats ≡ ch.stats)
      × IsList ch'.next ch'.affects xs
unfolding affect_to_char affect_remove affect_modify
affect_remove-affect_to_char ch paf xs fuel enough nz plain l u m =
    let linked = IsList-link ch.next ch.affects paf xs nz m l in
    let head : (link ch.next ch.affects paf).1 ≡ paf =
      ap (λ r. r.1) (link_lem ch.next ch.affects paf nz) in
    let used : ((link ch.next ch.affects paf).1 == 0) ≡ false = ground (arith, head) in
    let (next', p', e, own, _) =
      unlink_lem (link ch.next ch.affects paf).0 (link ch.next ch.affects paf).1 paf (paf ∷ xs) fuel
        (omega arith) linked (m, u) (inl refl) in
    (
      record ch {
        next = next';
        affects = p';
        stats =
            call (ch.affect paf).callback (ch.affect paf) true
              (call (ch.affect paf).callback (ch.affect paf) false ch.stats);
      },
      rw (affect_remove, used, e) refl,
      call_undo (ch.affect paf).callback (ch.affect paf) ch.stats plain,
      subst (λ z. IsList next' p' z) (remove-first paf xs) own,
    )
