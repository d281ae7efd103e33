-- ===== src/Affect.antt =====
-- src/affect.c: what an affect changes in a character, and the affects of a character.
pub mod Laws
use muddled.Base.{
  ℕ, zero, suc, Bool, true, false, not, Option, none, some, ltb, ◌==◌, if◌then◌else◌,
}
use muddled.Base.Int.{ℤ, pos, negsuc, ◌+ℤ◌, ◌-ℤ◌, ltb_ℤ, ◌==ℤ◌}
use muddled.World.{Field, link, unlink}

-- The members of a character that affects change. The numbers are those of the C types where they do
-- not overflow; `size` is a float that holds whole numbers.
pub record Stats : Type 0 where
  pub stat_mods : ℕ → ℤ
  pub resists : ℕ → ℤ
  pub sex : ℤ
  pub level : ℤ
  pub max_mana : ℤ
  pub max_move : ℤ
  pub max_hit : ℤ
  pub size : ℤ
  pub alignment : ℤ

-- the functions in `affect_callbacks`, and none
pub data Callback : Type 0 where
  no_callback apply_str apply_dex apply_int apply_wis apply_con apply_luck : Callback
  apply_sex apply_level apply_mana apply_hit apply_move apply_size apply_align : Callback

pub record Affect : Type 0 where
  pub from : ℤ
  pub modifier : ℤ
  pub callback : Callback

pub affect_mod : Affect → Bool → ℤ
affect_mod paf f_remove = if f_remove then pos 0 -ℤ paf.modifier else paf.modifier

-- `URANGE(a, b, c)`
pub urange : ℤ → ℤ → ℤ → ℤ
urange a b c = if ltb_ℤ b a then a else if ltb_ℤ c b then (if ltb_ℤ a c then c else a) else b

abbrev pub add_at : (ℕ → ℤ) → ℕ → ℤ → ℕ → ℤ
add_at f k m i = if k == i then f i +ℤ m else f i

pub affect_apply_stat : Affect → Bool → ℕ → Stats → Stats
unfolding affect_mod
affect_apply_stat aff f_remove stat ch = record ch {
  stat_mods = add_at ch.stat_mods stat (affect_mod aff f_remove);
}

-- the resistances from `DAM_BASH` to `DAM_SLASH`
unfoldable pub affect_apply_resists : Affect → Bool → Stats → Stats
unfolding affect_mod
affect_apply_resists paf f_remove ch = record ch {
  resists = λ i. if ltb i 3 then ch.resists i +ℤ affect_mod paf f_remove else ch.resists i;
}

-- an assignment, where the others add
unfoldable pub affect_apply_resist : Affect → Bool → ℕ → Stats → Stats
unfolding affect_mod
affect_apply_resist paf f_remove arg ch = record ch {
  resists = λ i. if arg == i then affect_mod paf f_remove else ch.resists i;
}

pub affect_apply_sex : Affect → Bool → Stats → Stats
unfolding affect_mod
affect_apply_sex paf f_remove ch = record ch { sex = ch.sex +ℤ affect_mod paf f_remove }

pub affect_apply_level : Affect → Bool → Stats → Stats
unfolding affect_mod
affect_apply_level paf f_remove ch = record ch { level = ch.level +ℤ affect_mod paf f_remove }

pub affect_apply_mana : Affect → Bool → Stats → Stats
unfolding affect_mod
affect_apply_mana paf f_remove ch = record ch { max_mana = ch.max_mana +ℤ affect_mod paf f_remove }

pub affect_apply_move : Affect → Bool → Stats → Stats
unfolding affect_mod
affect_apply_move paf f_remove ch = record ch { max_move = ch.max_move +ℤ affect_mod paf f_remove }

pub affect_apply_hit : Affect → Bool → Stats → Stats
unfolding affect_mod
affect_apply_hit paf f_remove ch = record ch { max_hit = ch.max_hit +ℤ affect_mod paf f_remove }

-- between `SIZE_TINY` and `SIZE_HUGE`
pub affect_apply_size : Affect → Bool → Stats → Stats
unfolding affect_mod urange
affect_apply_size paf f_remove ch = record ch {
  size = ch.size +ℤ urange (pos 2) (affect_mod paf f_remove) (pos 10);
}

-- between `-MAX_ALIGN` and `MAX_ALIGN`
pub affect_apply_align : Affect → Bool → Stats → Stats
unfolding affect_mod urange
affect_apply_align paf f_remove ch = record ch {
  alignment = urange (negsuc 2499) (ch.alignment +ℤ affect_mod paf f_remove) (pos 2500);
}

-- the call through the pointer
pub call : Callback → Affect → Bool → Stats → Stats
unfolding affect_apply_stat affect_apply_sex affect_apply_level affect_apply_mana affect_apply_move
    affect_apply_hit affect_apply_size affect_apply_align
call no_callback paf f_remove ch = ch
call apply_str paf f_remove ch = affect_apply_stat paf f_remove 0 ch
call apply_int paf f_remove ch = affect_apply_stat paf f_remove 1 ch
call apply_wis paf f_remove ch = affect_apply_stat paf f_remove 2 ch
call apply_dex paf f_remove ch = affect_apply_stat paf f_remove 3 ch
call apply_con paf f_remove ch = affect_apply_stat paf f_remove 4 ch
call apply_luck paf f_remove ch = affect_apply_stat paf f_remove 5 ch
call apply_sex paf f_remove ch = affect_apply_sex paf f_remove ch
call apply_level paf f_remove ch = affect_apply_level paf f_remove ch
call apply_mana paf f_remove ch = affect_apply_mana paf f_remove ch
call apply_hit paf f_remove ch = affect_apply_hit paf f_remove ch
call apply_move paf f_remove ch = affect_apply_move paf f_remove ch
call apply_size paf f_remove ch = affect_apply_size paf f_remove ch
call apply_align paf f_remove ch = affect_apply_align paf f_remove ch

pub affect_modify : Affect → Bool → Stats → Stats
unfolding call
affect_modify paf f_add ch = call paf.callback paf (not f_add) ch

-- a character: its members, the head of its affects, and the links and contents of all affects
pub record Character : Type 0 where
  pub stats : Stats
  pub affects : ℕ
  pub next : Field
  pub affect : ℕ → Affect

unfoldable pub affect_to_char : Character → ℕ → Character
unfolding link affect_modify
affect_to_char ch paf =
    let (next, head) = link ch.next ch.affects paf in
    record ch { next = next; affects = head; stats = affect_modify (ch.affect paf) true ch.stats }

-- without affects the call is logged and left; `none` is a list that the loop does not leave
pub affect_remove : ℕ → Character → ℕ → Option Character
unfolding unlink affect_modify
affect_remove fuel ch paf =
    let stats = affect_modify (ch.affect paf) false ch.stats in
    if ch.affects == 0 then some ch else elim (unlink fuel ch.next ch.affects paf) [
      | none ↦ none
      | some (next, head) ↦ some (record ch { next = next; affects = head; stats = stats })
    ]

-- the loop of `affect_find` from `paf` on, on fuel: the outer `none` means that it ran out, the inner
-- one is NULL
unfoldable pub affect_find : ℕ → Character → ℕ → ℤ → Option (Option ℕ)
affect_find zero ch paf sn = none
affect_find (suc fuel) ch paf sn =
    let rest = affect_find fuel ch (ch.next paf) sn in
    if paf == 0 then some none else if (ch.affect paf).from ==ℤ sn then some (some paf) else rest
