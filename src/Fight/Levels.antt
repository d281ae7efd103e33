-- ===== src/Fight/Levels.antt =====
-- The levels that a player gains in src/fight.c.
use muddled.Base.{
  ℕ, zero, suc, ◌+◌, ◌-◌, ◌*◌, ◌≤◌, ◌<◌, true, false, not, ◌||◌, some, ◌≡◌, refl, ◌∙◌, arith, ltb,
  leb,
}
use muddled.Base.Int.{ℤ, pos, negsuc, ◌+ℤ◌, ◌≤ℤ◌, ltb_ℤ, umax}
use muddled.Fight.{Fighter, max_playable_level, level_gain, advance_level, raise_loop, gain_exp}

add_mono : (a b : ℤ) (k l : ℕ) → a ≡ b → k ≤ l → a +ℤ pos k ≤ℤ b +ℤ pos l
add_mono (pos a) b k l e h = rw (← e) (ground arith)
add_mono (negsuc a) b k l e h = rw (← e) (ground arith)

add_twice :
    (a b d : ℤ) (k : ℕ) → a +ℤ pos 2 ≤ℤ b → b +ℤ pos (2 * k) ≤ℤ d → a +ℤ pos (2 * suc k) ≤ℤ d
add_twice a b d k h l = ground arith

le_add_zero : (a : ℤ) → a +ℤ pos (2 * 0) ≤ℤ a
le_add_zero a = ground arith

level_gain-le : (level least : ℕ) → least ≤ level_gain level least
unfolding level_gain
level_gain-le level least = ground arith

-- a level is worth two hit points at least
advance_level_hit : (ch : Fighter) → ch.max_hit +ℤ pos 2 ≤ℤ (advance_level ch).max_hit
unfolding advance_level
advance_level_hit ch =
    add_mono ch.max_hit ch.max_hit 2 (level_gain ch.level 2) refl (level_gain-le ch.level 2)

raised : Fighter → Fighter
raised ch = advance_level (record ch { level = ch.level + 1 })

raised_lem :
    (ch : Fighter)
    → ((raised ch).level ≡ ch.level + 1)
      × ((raised ch).experience ≡ ch.experience)
      × (ch.max_hit +ℤ pos 2 ≤ℤ (raised ch).max_hit)
unfolding raised advance_level
raised_lem ch = (refl, refl, advance_level_hit (record ch { level = ch.level + 1 }))

raise_loop_go :
    (fuel : ℕ) (ch : Fighter) (tolvl : ℤ)
    → ltb ch.level max_playable_level ≡ true
    → ltb_ℤ ch.experience tolvl ≡ false
    → raise_loop (suc fuel) ch tolvl ≡ raise_loop fuel (raised ch) tolvl
unfolding raise_loop raised
raise_loop_go fuel ch tolvl h e = rw (raise_loop, h, e) refl

raise_loop_end :
    (fuel : ℕ) (ch : Fighter) (tolvl : ℤ)
    → ltb ch.level max_playable_level ≡ false
    → raise_loop (suc fuel) ch tolvl ≡ some ch
unfolding raise_loop
raise_loop_end fuel ch tolvl h = rw (raise_loop, h) refl

-- the loop with `k` levels to go
raise_loop_lem :
    (k fuel : ℕ) (ch : Fighter) (tolvl : ℤ)
    → ch.level + k ≡ max_playable_level
    → k < fuel
    → ltb_ℤ ch.experience tolvl ≡ false
    → (d : Fighter) × (raise_loop fuel ch tolvl ≡ some d)
      × (d.level ≡ max_playable_level)
      × (d.experience ≡ ch.experience)
      × (ch.max_hit +ℤ pos (2 * k) ≤ℤ d.max_hit)
raise_loop_lem k zero ch tolvl l f e = absurd (omega arith)
raise_loop_lem zero (suc fuel) ch tolvl l f e =
    (ch, raise_loop_end fuel ch tolvl (ground arith), omega arith, refl, le_add_zero ch.max_hit)
raise_loop_lem (suc k) (suc fuel) ch tolvl l f e =
    let (lv, ex, hp) = raised_lem ch in
    let (d, q, a, b, c) =
      raise_loop_lem k fuel (raised ch) tolvl (omega (arith, lv)) (omega arith) (rw ex e) in
    (
      d,
      raise_loop_go fuel ch tolvl (ground arith) e ∙ q,
      a,
      b ∙ ex,
      add_twice ch.max_hit (raised ch).max_hit d.max_hit k hp c,
    )

umax_not_lt : (a b : ℤ) → ltb_ℤ (umax a b) a ≡ false
umax_not_lt a b = ground arith

mortal : (level : ℕ) → level ≤ max_playable_level → leb 101 level ≡ false
mortal level h = ground arith

gain_exp_mortal :
    (ch : Fighter) (tolvl gain : ℤ)
    → ch.is_pc ≡ true
    → leb 101 ch.level ≡ false
    → gain_exp ch tolvl gain
      ≡ raise_loop 101 (record ch { experience = umax tolvl (ch.experience +ℤ gain) }) tolvl
unfolding gain_exp
gain_exp_mortal ch tolvl gain pc m =
    let test : (not ch.is_pc || leb 101 ch.level) ≡ false = ground arith in rw test refl

-- Whatever a mortal player gains, and whatever the experience for the next level is, the player comes
-- to level 100 at once, and has two more hit points at least for each level.
pub gain_exp_lem :
    (ch : Fighter) (tolvl gain : ℤ)
    → ch.is_pc ≡ true
    → ch.level ≤ max_playable_level
    → (d : Fighter) × (gain_exp ch tolvl gain ≡ some d)
      × (d.level ≡ max_playable_level)
      × (d.experience ≡ umax tolvl (ch.experience +ℤ gain))
      × (ch.max_hit +ℤ pos (2 * (max_playable_level - ch.level)) ≤ℤ d.max_hit)
gain_exp_lem ch tolvl gain pc h =
    let ch' : Fighter = record ch { experience = umax tolvl (ch.experience +ℤ gain) } in
    let (d, q, a, b, c) =
      raise_loop_lem (max_playable_level - ch.level) 101 ch' tolvl (omega arith) (omega arith)
        (umax_not_lt tolvl (ch.experience +ℤ gain)) in
    (d, gain_exp_mortal ch tolvl gain pc (mortal ch.level h) ∙ q, a, b, c)
