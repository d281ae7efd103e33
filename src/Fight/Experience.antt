-- ===== src/Fight/Experience.antt =====
-- The experience for a kill in src/fight.c.
use muddled.Base.{ℕ, ◌-◌, ltb, if◌then◌else◌}
use muddled.Base.Int.{pos, ◌-ℤ◌}
use muddled.Fight.{Fighter, base_exp}

-- the base of the experience
abbrev pub base_of : Fighter → Fighter → ℕ
base_of gch victim = base_exp (pos victim.level -ℤ pos gch.level)

-- the levels that the experience is shared by
abbrev pub parts_of : ℕ → ℕ
parts_of total = if ltb 1 (total - 1) then total - 1 else 1
