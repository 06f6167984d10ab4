-- ===== src/Game/Text/Line.antt =====
-- What `draw_string` of game/video.c paints in a line: each character by the bits of the font.
use oslab.Base.{
  ℕ, zero, suc, ◌+◌, ◌*◌, ◌≤◌, ◌<◌, ◌≡◌, refl, ap, ◌∙◌, inl, inr, List, [], ◌∷◌, leb, Bool-cases,
  get_or, arith,
}
use oslab.Game.Effect.{done}
use oslab.Game.Video.{Frame, pixel, font_bit, draw_string, scr_width, scr_height}
use oslab.Game.Letters.{next_in_line}
use oslab.Strings.{strlen}
use oslab.Strings.Ascii.{IsAscii}
use oslab.Game.Text.{shade, Spared, draw_character-Shaded}

-- Character `k` of the string is painted by its bits, and nothing outside the line of the string is.
abbrev pub Written : (str : List ℕ) (x y color : ℕ) (old new : Frame) → Type 0
Written str x y color old new =
    ((k i c : ℕ)
      → k < strlen str
      → i < 8
      → c < 8
      → new (pixel (x + i) (y + k * 8 + c))
        ≡ shade (font_bit (get_or str k 0) i c) color (old (pixel (x + i) (y + k * 8 + c))))
    × Spared old new x 8 y (strlen str * 8)

-- The first character and the rest of a line.
Written-cons :
    (ch : ℕ) (str : List ℕ) (x y color : ℕ) (old mid new : Frame)
    → y + 8 + strlen str * 8 ≤ scr_width
    → ((i c : ℕ)
        → i < 8
        → c < 8
        → mid (pixel (x + i) (y + c)) ≡ shade (font_bit ch i c) color (old (pixel (x + i) (y + c))))
    → Spared old mid x 8 y 8
    → Written str x (y + 8) color mid new
    → Written (ch ∷ str) x y color old new
unfolding strlen
Written-cons ch str x y color old mid new fits first spared (rest, beyond) = (
  (λ k i c lt high wide. at k i c lt high wide),
  (λ a b narrow o.
      beyond a b narrow (elim o [
        | inl off ↦ inl off
        | inr (inl lt) ↦ inr (inl (omega arith))
        | inr (inr le) ↦ inr (inr (omega arith))
      ])
      ∙ spared a b narrow (elim o [
        | inl off ↦ inl off
        | inr (inl lt) ↦ inr (inl lt)
        | inr (inr le) ↦ inr (inr (omega arith))
      ])),
)
  where
    at :
        (k i c : ℕ)
        → k < strlen str + 1
        → i < 8
        → c < 8
        → new (pixel (x + i) (y + k * 8 + c))
          ≡ shade (font_bit (get_or (ch ∷ str) k 0) i c) color (old (pixel (x + i) (y + k * 8 + c)))
    at zero i c lt high wide =
        beyond (x + i) (y + 0 * 8 + c) (omega arith) (inr (inl (omega arith)))
        ∙ ap mid (omega arith)
        ∙ first i c high wide
        ∙ ap (λ p. shade (font_bit ch i c) color (old p)) (omega arith)
    at (suc k) i c lt high wide =
        ap new (omega arith)
        ∙ rest k i c (omega arith) high wide
        ∙ ap (shade (font_bit (get_or str k 0) i c) color) (
            spared (x + i) (y + 8 + k * 8 + c) (omega arith) (inr (inr (omega arith)))
            ∙ ap old (omega arith))

Written-nil : (x y color : ℕ) (vbuf : Frame) → Written [] x y color vbuf vbuf
unfolding strlen
Written-nil x y color vbuf = ((λ k i c lt high wide. absurd (omega arith)), (λ a b narrow o. refl))

-- A string of ASCII characters that fits its line is drawn: each of its characters by its bits, and
-- nothing outside.
pub draw_string-Written :
    (str : List ℕ) (x y color : ℕ) (vbuf : Frame)
    → IsAscii str
    → x + 8 ≤ scr_height
    → y + strlen str * 8 ≤ scr_width
    → (new : Frame) × (draw_string str x y color vbuf ≡ done new) × Written str x y color vbuf new
unfolding draw_string strlen
draw_string-Written [] x y color vbuf ascii rows fits = (vbuf, refl, Written-nil x y color vbuf)
draw_string-Written (ch ∷ []) x y color vbuf (ascii, rest) rows fits =
    let (new, run, first, spared) =
      draw_character-Shaded ch x y color rows vbuf ascii (omega arith) in
    let written =
      Written-cons ch [] x y color vbuf new new (omega arith) first spared
        (Written-nil x (y + 8) color new) in
    elim (Bool-cases (leb scr_width (y + 8))) [
      | inl on ↦ (new, rw run (rw on refl), written)
      | inr off ↦ (new, rw run (rw off refl), written)
    ]
draw_string-Written (ch ∷ d ∷ str) x y color vbuf (ascii, rest) rows fits =
    let (off, fits_next) = next_in_line ch d str y fits in
    let (mid, run, first, spared) =
      draw_character-Shaded ch x y color rows vbuf ascii (omega arith) in
    let (new, run_next, written) =
      draw_string-Written (d ∷ str) x (y + 8) color mid rest rows fits_next in
    (
      new,
      rw run (rw off run_next),
      Written-cons ch (d ∷ str) x y color vbuf mid new fits_next first spared written,
    )
