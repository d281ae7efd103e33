-- ===== src/Update/Pulses.antt =====
-- The counters of src/server/update.c, by which `update_handler` starts the updates.
use native.Mathlib.Nat.{suc-mod, mod_self, mod-lt, mod-eq_of_lt}
use muddled.Base.{
  ℕ, zero, suc, ◌-◌, ◌*◌, ◌%◌, ◌<◌, Bool, true, false, List, [], ◌∷◌, ◌++◌, inl, inr, ◌≡◌, refl, ap,
  ◌∙◌, arith, ◌==◌, if◌then◌else◌, ==_iff, Bool-cases,
}
use muddled.Base.Int.{ℤ, pos, ◌-ℤ◌, ltb_ℤ}

pub data Event : Type 0 where
  area_update character_update hint_update violence_update : Event

-- the static counters and `pulse_tick`
pub record Pulses : Type 0 where
  pub area : ℤ
  pub tick : ℤ
  pub hint : ℤ
  pub violence : ℤ

abbrev pub pulse_area : ℕ
pulse_area = 120 * 4

abbrev pub pulse_tick : ℕ
pulse_tick = 60 * 4

abbrev pub pulse_hint : ℕ
pulse_hint = 180 * 4

abbrev pub pulse_violence : ℕ
pulse_violence = 3 * 4

-- `if (--pulse <= 0) { pulse = period; ... }`: the counter, and whether the update is made
pub countdown : ℤ → ℕ → ℤ × Bool
countdown pulse period =
    let next = pulse -ℤ pos 1 in if ltb_ℤ (pos 0) next then (next, false) else (pos period, true)

abbrev pub only : Bool → Event → List Event
only true e = e ∷ []
only false e = []

-- the counters, and the updates that are made in order; `aggr_update` does nothing
pub update_handler : Pulses → Pulses × List Event
unfolding countdown
update_handler p =
    let (area, a) = countdown p.area pulse_area in
    let (tick, c) = countdown p.tick pulse_tick in
    let (hint, h) = countdown p.hint pulse_hint in
    let (violence, v) = countdown p.violence pulse_violence in
    (
      record { area = area; tick = tick; hint = hint; violence = violence },
      only a area_update
          ++ (only c character_update ++ (only h hint_update ++ only v violence_update)),
    )

abbrev pub start : Pulses
start = record { area = pos 0; tick = pos 0; hint = pos 0; violence = pos 0 }

-- the counters behind `n` calls, and the updates of the call after them
pub run : ℕ → Pulses
unfolding update_handler
run zero = start
run (suc n) = (update_handler (run n)).0

pub made : ℕ → List Event
unfolding run update_handler
made n = (update_handler (run n)).1

-- the counter behind `n` calls, whose value is 0 before the first
abbrev at_call : ℕ → ℕ → ℤ
at_call period zero = pos 0
at_call period (suc n) = pos (period - n % period)

ring_of : (n p : ℕ) → 0 < p → suc n % p ≡ (if suc (n % p) == p then 0 else suc (n % p))
ring_of n p h = elim (Bool-cases (suc (n % p) == p)) [
  | inl full ↦
      rw full (suc-mod n p ∙ ap (λ m. m % p) ((==_iff (suc (n % p)) p).0 full) ∙ mod_self p)
  | inr below ↦ rw below (suc-mod n p ∙ mod-eq_of_lt (ground (arith, mod-lt n h)))
]

-- one step of a counter, where `r` is the remainder
countdown_step :
    (period r s : ℕ)
    → r < period
    → s ≡ (if suc r == period then 0 else suc r)
    → countdown (pos (period - r)) period ≡ (pos (period - s), s == 0)
unfolding countdown
countdown_step period r s h e = rw e (ground arith)

countdown_first : (period : ℕ) → 0 < period → countdown (pos 0) period ≡ (pos period, true)
unfolding countdown
countdown_first period h = refl

countdown_lem :
    (period n : ℕ)
    → 0 < period
    → countdown (at_call period n) period ≡ (at_call period (suc n), n % period == 0)
countdown_lem period zero h =
    countdown_first period h ∙ rw (mod-eq_of_lt h) (ap (λ d. (pos d, true)) (omega arith))
countdown_lem period (suc n) h =
    countdown_step period (n % period) (suc n % period) (mod-lt n h) (ring_of n period h)

run_lem :
    (n : ℕ)
    → run n ≡ record {
      area = at_call pulse_area n;
      tick = at_call pulse_tick n;
      hint = at_call pulse_hint n;
      violence = at_call pulse_violence n;
    }
unfolding run update_handler
run_lem zero = refl
run_lem (suc n) =
    rw
      (
        run_lem n,
        countdown_lem pulse_area n (omega arith),
        countdown_lem pulse_tick n (omega arith),
        countdown_lem pulse_hint n (omega arith),
        countdown_lem pulse_violence n (omega arith),
      )
      refl

-- From counters of 0 on, the call after `n` others makes the update of the areas, of the characters,
-- of the hints and of the fights exactly if `n` is a multiple of 480, 240, 720 and 12, in this order.
pub made_lem :
    (n : ℕ)
    → made n
      ≡ only (n % 480 == 0) area_update
        ++ (only (n % 240 == 0) character_update
            ++ (only (n % 720 == 0) hint_update ++ only (n % 12 == 0) violence_update))
unfolding made update_handler
made_lem n =
    rw
      (
        run_lem n,
        countdown_lem pulse_area n (omega arith),
        countdown_lem pulse_tick n (omega arith),
        countdown_lem pulse_hint n (omega arith),
        countdown_lem pulse_violence n (omega arith),
      )
      refl
