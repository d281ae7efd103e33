-- ===== src/Telnet/Incomplete.antt =====
-- Commands of src/server/telnet.c that have not arrived whole.
use muddled.Base.{
  ℕ, suc, ◌+◌, ◌≤◌, true, List, [], ◌∷◌, ◌++◌, inl, inr, some, ◌≡◌, refl, ap, ◌∙◌, arith, length,
  get_elem?, drop, take-append, get_elem?-append_right, drop-append_right, ◌>>=◌, leb,
  if◌then◌else◌, Bool-cases,
}
use muddled.Telnet.{
  iac, telnet_dont, telnet_wont, telnet_will, Client, c_string, on_option, on_do, on_will, on_wont,
  on_unknown, process_loop, move_down, process_telnet,
}
use muddled.Telnet.Safety.{process_loop_last}
use muddled.Telnet.Rounds.{telnet_round_option}
use muddled.Telnet.Commands.{with_buf}

module _ (cmd : ℕ) (c : Client) (pre tail : List ℕ) (lo : telnet_will ≤ cmd)
    (hi : cmd ≤ telnet_dont) where
  abbrev cut : List ℕ
  cut = iac ∷ cmd ∷ 0 ∷ 0 ∷ tail

  -- the place where the parser stops
  abbrev stop : ℕ
  stop = if leb cmd telnet_wont then length pre + 3 else length pre

  cut_option :
      on_option (with_buf c (pre ++ cut)) (length pre) cmd 0
      ≡ record { conn = with_buf c (pre ++ cut); place = stop; finished = true }
  unfolding on_option on_do on_will on_wont on_unknown
  cut_option = ground arith

  cut_loop :
      (fuel : ℕ)
      → process_loop (suc fuel) (with_buf c (pre ++ cut)) (length pre)
        ≡ some (with_buf c (pre ++ cut), stop)
  cut_loop fuel =
      let at = λ (k j : ℕ) (e : j ≡ length pre + k).
        ap (get_elem? (pre ++ cut)) e ∙ get_elem?-append_right pre cut k in
      let q =
        telnet_round_option (with_buf c (pre ++ cut)) (length pre) cmd (at 1 (length pre + 1) refl)
          0 (at 2 (length pre + 2) refl) (ground arith) (ground arith) in
      process_loop_last fuel (with_buf c (pre ++ cut)) (length pre)
        (record { conn = with_buf c (pre ++ cut); place = stop; finished = true })
        (at 0 (length pre) (omega arith)) (q ∙ ap some cut_option) refl

  cut-drop : (k j : ℕ) → j ≡ length pre + k → drop j (pre ++ cut) ≡ drop k cut
  cut-drop k j e = ap (λ m. drop m (pre ++ cut)) e ∙ drop-append_right pre cut k

  cut_moved_from :
      (i k : ℕ) (s : List ℕ)
      → i ≡ length pre + k
      → c_string (drop k cut) ≡ some s
      → move_down (pre ++ cut) (length pre) i ≡ some (pre ++ (s ++ (0 ∷ drop (length s + 1) cut)))
  unfolding move_down
  cut_moved_from i k s e h =
      rw
        (
          cut-drop k i e,
          h,
          ◌>>=◌,
          take-append pre cut,
          cut-drop (length s + 1) (length pre + length s + 1) (omega arith),
        )
        refl

  cut_moved :
      move_down (pre ++ cut) (length pre) stop
      ≡ some (pre ++ ((if leb cmd telnet_wont then 0 else iac) ∷ cmd ∷ 0 ∷ 0 ∷ tail))
  unfolding c_string
  cut_moved = elim (Bool-cases (leb cmd telnet_wont)) [
    | inl gone ↦ rw gone (cut_moved_from (length pre + 3) 3 [] refl refl)
    | inr kept ↦
        rw kept (cut_moved_from (length pre) 0 (iac ∷ cmd ∷ []) (omega arith) (ground arith))
  ]

  -- If a command on an option has not arrived whole, the parser answers nothing; it leaves DO and DONT
  -- in the input, to go on with them later, but it takes WILL and WONT away, so that the option comes
  -- as text.
  pub process_telnet_incomplete :
      process_telnet (with_buf c (pre ++ (iac ∷ cmd ∷ 0 ∷ 0 ∷ tail))) (length pre)
      ≡ some (with_buf c (pre ++ ((if leb cmd telnet_wont then 0 else iac) ∷ cmd ∷ 0 ∷ 0 ∷ tail)))
  unfolding process_telnet
  process_telnet_incomplete = rw (cut_loop (length (pre ++ cut)), ◌>>=◌, cut_moved) refl
