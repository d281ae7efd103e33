-- ===== src/Update/Gains.antt =====
-- The recovery of characters in src/server/update.c.
use muddled.Base.{
  ℕ, ◌+◌, ◌-◌, ◌*◌, ◌/◌, ◌<◌, true, inl, inr, ◌≡◌, refl, arith, ltb, if◌then◌else◌, Bool-cases,
}
use muddled.Base.Int.{ℤ, pos, negsuc, ◌-ℤ◌, ◌≤ℤ◌, ltb_ℤ, umin}
use muddled.Update.{Person, pos_sleeping, get_curr_stat, hit_gain, refresh}

-- no member is above its maximum
abbrev pub IsWithin : Person → Type 0
IsWithin ch = (ch.hit ≤ℤ ch.max_hit) × (ch.mana ≤ℤ ch.max_mana) × (ch.move ≤ℤ ch.max_move)

positive_cut :
    (gain : ℕ) (now most : ℤ)
    → 0 < gain
    → ltb_ℤ now most ≡ true
    → ltb_ℤ (pos 0) (umin (pos gain) (most -ℤ now)) ≡ true
positive_cut gain (pos a) (pos b) g h = ground arith
positive_cut gain (pos a) (negsuc b) g h = ground arith
positive_cut gain (negsuc a) (pos b) g h = ground arith
positive_cut gain (negsuc a) (negsuc b) g h = ground arith

asleep_pc : Person → ℕ
asleep_pc ch = let base = get_curr_stat ch 4 - 3 + ch.level in if ltb base 3 then 3 else base

asleep_pos : (ch : Person) → 0 < asleep_pc ch
unfolding asleep_pc
asleep_pos ch = ground arith

hit_gain_asleep :
    (ch : Person)
    → ch.position ≡ pos_sleeping
    → ch.in_room ≡ true
    → ltb_ℤ (ch.condition 0) (pos 20) ≡ true
    → ltb_ℤ (ch.condition 1) (pos 20) ≡ true
    → ltb_ℤ ch.hit ch.max_hit ≡ true
    → ltb_ℤ (pos 0) (hit_gain ch) ≡ true
unfolding hit_gain asleep_pc
hit_gain_asleep ch p r a b h = elim (Bool-cases ch.is_pc) [
  | inl player ↦
      rw (p, r, player, a, b) (positive_cut (asleep_pc ch) ch.hit ch.max_hit (asleep_pos ch) h)
  | inr other ↦
      rw (p, r, other) (positive_cut (3 * (10 + ch.level) / 2) ch.hit ch.max_hit (omega arith) h)
]

-- A hurt character who sleeps in a room, and whose gains are not halved, has a gain of hit points of
-- its own, but the update gives nothing to those who sleep.
pub refresh_asleep :
    (ch : Person)
    → ch.position ≡ pos_sleeping
    → ch.in_room ≡ true
    → ltb_ℤ (ch.condition 0) (pos 20) ≡ true
    → ltb_ℤ (ch.condition 1) (pos 20) ≡ true
    → ltb_ℤ ch.hit ch.max_hit ≡ true
    → (ltb_ℤ (pos 0) (hit_gain ch) ≡ true) × (refresh ch ≡ ch)
unfolding refresh
refresh_asleep ch p r a b h = (hit_gain_asleep ch p r a b h, rw p refl)
