-- ===== src/Fight.antt =====
-- src/fight.c: experience, alignment and levels. Float numbers are whole numbers here: the values of
-- `exp_table` in tenths, and the products with 0.4f as two fifths; the casts cut both alike.
pub mod Levels
pub mod Alignment
pub mod Experience
use muddled.Base.{
  ℕ, zero, suc, ◌+◌, ◌-◌, ◌*◌, ◌/◌, Bool, true, false, not, ◌&&◌, ◌||◌, List, [], ◌∷◌, Option, none,
  some, get_or, ◌>>=◌, ltb, leb, ◌==◌, if◌then◌else◌,
}
use muddled.Base.Int.{ℤ, pos, negsuc, ◌+ℤ◌, ◌-ℤ◌, ◌*ℤ◌, ltb_ℤ, quot, umin, umax}
use muddled.Random.{Draws, number_range}

-- What fights read and write of a character; `is_pc` says whether `pc` is not NULL. Levels are not
-- negative, and no number overflows its C type.
pub record Fighter : Type 0 where
  pub level : ℕ
  pub alignment : ℤ
  pub is_pc : Bool
  pub experience : ℤ
  pub max_hit : ℤ
  pub max_mana : ℤ
  pub max_move : ℤ
  pub perm_hit : ℤ
  pub perm_mana : ℤ
  pub perm_move : ℤ

abbrev pub max_playable_level : ℕ
max_playable_level = 100

abbrev pub level_immortal : ℕ
level_immortal = 101

abbrev pub level_groups : ℕ
level_groups = 5

-- MAX_ALIGN and its negative
abbrev pub max_align : ℤ
max_align = pos 2500

abbrev pub min_align : ℤ
min_align = negsuc 2499

abbrev pub exp_table : List ℕ
exp_table =
    59 ∷ 59 ∷ 59 ∷ 59 ∷ 62 ∷ 62 ∷ 62 ∷ 62 ∷ 65 ∷ 65 ∷ 65 ∷ 65 ∷ 68 ∷ 68 ∷ 68 ∷ 68 ∷ 71 ∷ 71 ∷ 71
    ∷ 71 ∷ 72 ∷ []

-- by the levels that the victim is above the killer
unfoldable pub base_exp : ℤ → ℕ
base_exp (pos r) =
    if ltb 4 r then 160 + 20 * (r - 4) else get_or (83 ∷ 99 ∷ 121 ∷ 143 ∷ 165 ∷ []) r 0
base_exp (negsuc r) = get_or (66 ∷ 50 ∷ 33 ∷ 22 ∷ 11 ∷ 9 ∷ 5 ∷ 2 ∷ 1 ∷ []) r 0

-- `n * base_exp / 500 * gch->level / total_levels`
pub share : ℤ → ℕ → ℕ → ℕ → ℤ
share n base level total = quot (quot (n *ℤ pos base) 500 *ℤ pos level) total

-- the alignment of the killer behind the kill
pub new_alignment : ℤ → ℤ → ℕ → ℕ → ℕ → ℤ
unfolding share
new_alignment own other base level total =
    let align = other -ℤ own in
    if ltb_ℤ (pos 500) align
    then umax min_align (own -ℤ umax (pos 1) (share (align -ℤ pos 500) base level total))
    else if ltb_ℤ align (negsuc 499)
    then umin max_align (own +ℤ umax (pos 1) (share (pos 0 -ℤ align -ℤ pos 500) base level total))
    else own -ℤ share own base level total

-- The experience by the alignments of the killer and the victim, which the code computes and then
-- replaces by the base.
unfoldable pub exp_by_alignment : ℤ → ℤ → ℕ → ℕ
exp_by_alignment own other base =
    let above = λ (n : ℕ). ltb_ℤ (pos n) other in
    let below = λ (n : ℕ). ltb_ℤ other (pos 0 -ℤ pos n) in
    if ltb_ℤ (pos 500) own
    then (if below 750
        then base * 4 / 3
        else if below 500
        then base * 5 / 4
        else if above 750
        then base / 4
        else if above 500
        then base / 2
        else if above 250
        then base * 3 / 4
        else base)
    else if ltb_ℤ own (negsuc 499)
    then (if above 750
        then base * 5 / 4
        else if above 500
        then base * 11 / 10
        else if below 750
        then base / 2
        else if below 500
        then base * 3 / 4
        else if below 250
        then base * 9 / 10
        else base)
    else if ltb_ℤ (pos 200) own
    then (if below 500
        then base * 6 / 5
        else if above 750
        then base / 2
        else if above 0
        then base * 3 / 4
        else base)
    else if ltb_ℤ own (negsuc 199)
    then (if above 500
        then base * 6 / 5
        else if below 750
        then base / 2
        else if below 0
        then base * 3 / 4
        else base)
    else if above 500 || below 500
    then base * 4 / 3
    else if ltb_ℤ other (pos 200) && ltb_ℤ (negsuc 199) other
    then base / 2
    else base

-- the factor of a level
pub xp_group : ℕ → ℕ
xp_group level =
    let top = if ltb max_playable_level level then max_playable_level else level in
    get_or exp_table (top / level_groups) 0 / (10 * level_groups)

-- The killer with its new alignment and the experience; `none` is a division by 0, or the end of the
-- draws.
pub xp_compute : Fighter → Fighter → ℕ → List ℕ → Draws (Fighter × ℤ)
xp_compute gch victim total_levels draws =
    let base = base_exp (pos victim.level -ℤ pos gch.level) in
    let gch' = record gch {
      alignment = new_alignment gch.alignment victim.alignment base gch.level total_levels;
    } in
    let xp = exp_by_alignment gch'.alignment victim.alignment base in
    let xp = base in
    let xp = xp * xp_group gch.level in
    let parts = if ltb 1 (total_levels - 1) then total_levels - 1 else 1 in
    if total_levels == 0 then none else do
      (r, rest) ← number_range (pos (xp * 3 / 4)) (pos (xp * 5 / 4)) draws
      some ((gch', quot (r *ℤ pos gch.level) parts), rest)

-- what a level adds, at least `least`
pub level_gain : ℕ → ℕ → ℕ
level_gain level least = let add = level * 2 / 5 * 9 / 10 in if ltb least add then add else least

-- The random numbers that the code draws first are replaced by these.
unfoldable pub advance_level : Fighter → Fighter
unfolding level_gain
advance_level ch =
    let add_hp = level_gain ch.level 2 in
    let add_mana = level_gain ch.level 2 in
    let add_move = level_gain ch.level 6 in
    record ch {
      max_hit = ch.max_hit +ℤ pos add_hp;
      max_mana = ch.max_mana +ℤ pos add_mana;
      max_move = ch.max_move +ℤ pos add_move;
      perm_hit = ch.perm_hit +ℤ pos add_hp;
      perm_mana = ch.perm_mana +ℤ pos add_mana;
      perm_move = ch.perm_move +ℤ pos add_move;
    }

-- the loop of `gain_exp`, on fuel
pub raise_loop : ℕ → Fighter → ℤ → Option Fighter
unfolding advance_level
raise_loop zero ch tolvl = none
raise_loop (suc fuel) ch tolvl =
    elim (ltb ch.level max_playable_level && not (ltb_ℤ ch.experience tolvl)) [
      | false ↦ some ch
      | true ↦ raise_loop fuel (advance_level (record ch { level = ch.level + 1 })) tolvl
    ]

-- `tolvl` is what exp_to_level gives for the character, once, before the loop
pub gain_exp : Fighter → ℤ → ℤ → Option Fighter
unfolding raise_loop
gain_exp ch tolvl gain =
    if not ch.is_pc || leb level_immortal ch.level
    then some ch
    else raise_loop (suc max_playable_level)
        (record ch { experience = umax tolvl (ch.experience +ℤ gain) }) tolvl
