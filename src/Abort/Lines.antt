-- ===== src/Abort/Lines.antt =====
-- Strings of several lines, drawn by game/video.c.
use oslab.Base.{
  ℕ, suc, ◌+◌, ◌*◌, ◌≤◌, ◌<◌, ◌≡◌, refl, ap, ◌∙◌, inl, inr, Bool-cases, List, [], ◌∷◌, leb, leb→le,
  leb→gt, arith,
}
use oslab.Strings.{strlen}
use oslab.Strings.Ascii.{IsAscii}
use oslab.Game.Effect.{done}
use oslab.Game.Video.{Frame, pixel, draw_string, scr_width}
use oslab.Game.Letters.{draw_character-Kept}

-- A string drawn from line `a` and column `b` on that ends before line `n` stays on the screen, and no
-- row from line `n` on is changed.
pub draw_string-lines :
    (str : List ℕ) (a b n color : ℕ) (vbuf : Frame)
    → IsAscii str
    → b < 40
    → n ≤ 25
    → a * 40 + b + strlen str ≤ n * 40
    → (new : Frame) × (draw_string str (a * 8) (b * 8) color vbuf ≡ done new)
      × ((r c : ℕ) → c < scr_width → n * 8 ≤ r → new (pixel r c) ≡ vbuf (pixel r c))
unfolding draw_string strlen
draw_string-lines [] a b n color vbuf ascii column height ends =
    (vbuf, refl, λ r c narrow low. refl)
draw_string-lines (ch ∷ str) a b n color vbuf (ascii, rest) column height ends =
    let (mid, run, m) =
      draw_character-Kept ch (a * 8) (b * 8) color (omega arith) vbuf ascii (omega arith) in
    elim (Bool-cases (leb scr_width (b * 8 + 8))) [
      | inl wrap ↦
          let last = leb→le scr_width (b * 8 + 8) wrap in
          let (new, draws, k) =
            draw_string-lines str (suc a) 0 n color mid rest (omega arith) height (omega arith) in
          (
            new,
            rw run (rw wrap (ap (λ x. draw_string str x 0 color mid) (omega arith) ∙ draws)),
            λ r c narrow low. k r c narrow low ∙ m r c narrow (inr (omega arith)),
          )
      | inr same_line ↦
          let inside = leb→gt scr_width (b * 8 + 8) same_line in
          let (new, draws, k) =
            draw_string-lines str a (suc b) n color mid rest (omega arith) height (omega arith) in
          (
            new,
            rw run (
                rw same_line (ap (λ y. draw_string str (a * 8) y color mid) (omega arith) ∙ draws)),
            λ r c narrow low. k r c narrow low ∙ m r c narrow (inr (omega arith)),
          )
    ]
