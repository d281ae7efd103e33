-- ===== src/Telnet/Windows.antt =====
-- The report of the size of a window in src/server/telnet.c.
use muddled.Base.{
  ℕ, suc, ◌+◌, ◌-◌, ◌*◌, ◌<◌, false, List, [], ◌∷◌, ◌++◌, some, ◌≡◌, refl, ap, ◌∙◌, arith, length,
  get_elem?, set, length-append, set-append_right, ltb, if◌then◌else◌,
}
use muddled.Telnet.{iac, telnet_sb, telnet_se, telopt_naws, Client, screen_range, take_naws}
use muddled.Telnet.Stops.{after_scan-iac}
use muddled.Telnet.Reports.{naws_eq}
use muddled.Telnet.Views.{View-append, View-at, View-skip, at_end_other, scan_se_quiet, IsQuiet}
use muddled.Telnet.Rounds.{is_term_report_eq, on_sb_naws, telnet_round_sb}
use muddled.Telnet.Commands.{window, encode, respond, IsWellFormed, with_buf, Takes}

-- the window's size, as the range of the screen cuts it
small_range : (w : ℕ) → w < telnet_se → screen_range (w + 0 * 16) ≡ (if ltb w 10 then 10 else w)
unfolding screen_range
small_range w h = ground arith

window-IsQuiet :
    (w h : ℕ) → 0 < w → w < telnet_se → 0 < h → h < telnet_se → IsQuiet (0 ∷ w ∷ 0 ∷ h ∷ iac ∷ [])
window-IsQuiet w h w0 w1 h0 h1 = (
  λ e. omega arith,
  λ _ e. omega arith,
  (
    λ e. omega arith,
    λ e _. omega arith,
    (
      λ e. omega arith,
      λ _ e. omega arith,
      (λ e. omega arith, λ e _. omega arith, (λ e. omega arith, λ _. tt, tt)),
    ),
  ),
)

module _ (w h : ℕ) (c : Client) (pre rest : List ℕ) where
  abbrev sent_window : List ℕ
  sent_window = encode (window w h) ++ rest

  abbrev left_window : List ℕ
  left_window = iac ∷ telnet_sb ∷ telopt_naws ∷ 0 ∷ w ∷ 0 ∷ h ∷ 0 ∷ telnet_se ∷ []

  window_buf : set (pre ++ sent_window) (length pre + 3 + 5 - 1) 0 ≡ pre ++ (left_window ++ rest)
  window_buf =
      ap (λ j. set (pre ++ sent_window) j 0) (omega arith) ∙ set-append_right pre sent_window 7 0

  window-naws :
      w < telnet_se
      → h < telnet_se
      → take_naws (with_buf c (pre ++ sent_window)) (length pre + 3) (length pre + 3 + 5)
        ≡ some (with_buf (respond (window w h) c) (pre ++ (left_window ++ rest)))
  window-naws hw hh =
      let n = length pre in
      let v = View-append pre (left_window ++ rest) in
      let at = λ (k j : ℕ) (e : j ≡ n + k).
        ap (λ b. get_elem? b j) window_buf
        ∙ View-at (pre ++ (left_window ++ rest)) n (left_window ++ rest) k j v e in
      naws_eq (with_buf c (pre ++ sent_window)) (n + 3) (n + 3 + 5) w 0 h 0
        (at 4 (n + 3 + 1) (omega arith)) (at 5 (n + 3 + 2) (omega arith))
        (at 6 (n + 3 + 3) (omega arith)) (at 7 (n + 3 + 4) (omega arith))
      ∙ ap some (rw (window_buf, small_range w hw, small_range h hh) refl)

  pub window-Takes : IsWellFormed (window w h) → Takes (window w h) c pre rest
  window-Takes (w0, w1, h0, h1) =
      let n = length pre in
      let buf = pre ++ sent_window in
      let c' = with_buf c buf in
      let v = View-append pre sent_window in
      let at = λ (k j : ℕ) (e : j ≡ n + k). View-at buf n sent_window k j v e in
      let t =
        is_term_report_eq buf (n + 2) telopt_naws 0 w (v 2) (at 3 (n + 2 + 1) (omega arith))
          (at 4 (n + 2 + 2) (omega arith)) in
      let body : List ℕ = 0 ∷ w ∷ 0 ∷ h ∷ iac ∷ [] in
      let v3 =
        View-skip buf n (n + 3) (iac ∷ telnet_sb ∷ telopt_naws ∷ []) (body ++ (telnet_se ∷ rest)) v
          refl in
      let s =
        scan_se_quiet (suc (length buf)) (n + 3) buf body rest v3 (window-IsQuiet w h w0 w1 h0 h1)
          (omega (arith, length-append pre sent_window)) in
      let d = with_buf (respond (window w h) c) (pre ++ (left_window ++ rest)) in
      (
        left_window,
        refl,
        telnet_round_sb c' n telnet_sb (v 1) refl refl
            ∙ on_sb_naws c' n telopt_naws (n + 3 + 5) t (v 2) refl s
            ∙ after_scan-iac c' (λ x. take_naws x (n + 3)) (n + 3 + 5) n d
                (at_end_other buf (n + 3 + 5) telnet_se (at 8 (n + 3 + 5) (omega arith)) refl)
                (at 7 (n + 3 + 5 - 1) (omega arith)) (window-naws w1 h1)
            ∙ ap (λ p. some (record { conn = d; place = p; finished = false })) (omega arith),
      )
