-- ===== src/Game/Pictures.antt =====
-- The logo and the end of the game, `show_logo` and `draw_gg` of game/effect.c.
use oslab.Base.{
  ℕ, zero, suc, ◌+◌, ◌*◌, ◌%◌, ◌≤◌, ◌<◌, ◌≡◌, ◌≢◌, ◌⊎◌, refl, ap, ◌∙◌, inl, inr, lt→ltb, get_or,
  if◌then◌else◌, arith,
}
use native.Mathlib.Decide.{ℕ_discrete}
use mathlib.Core.Path.{subst}
use oslab.Strings.{strlen}
use oslab.Strings.Ascii.{IsAscii}
use oslab.Game.Effect.{done}
use oslab.Game.Video.{Frame, pixel, font_bit, prepare_buffer, scr_width, scr_height}
use oslab.Game.Paint.{draw_pixel-Row}
use oslab.Game.Text.{shade, Beyond}
use oslab.Game.Text.Line.{draw_string-Written}
use oslab.Game.Screen.{game_over, draw_gg, logo_row, logo_rows, draw_logo, press_space, show_logo}

prepare_buffer-black :
    (vbuf : Frame) (x y : ℕ) → x < scr_height → y < scr_width → prepare_buffer vbuf (pixel x y) ≡ 0
unfolding prepare_buffer
prepare_buffer-black vbuf x y h k =
    rw (lt→ltb (pixel x y) (scr_width * scr_height) (omega arith)) refl

game_over-IsAscii : IsAscii game_over × (strlen game_over ≡ 9)
unfolding strlen
game_over-IsAscii = (ground arith, refl)

press_space-IsAscii : IsAscii press_space × (strlen press_space ≡ 11)
unfolding strlen
press_space-IsAscii = (ground arith, refl)

-- The text at the end of a game, character by character, on a black screen.
abbrev pub GameOver : Frame → Type 0
GameOver new =
    ((k i j : ℕ)
      → k < 9
      → i < 8
      → j < 8
      → new (pixel (85 + i) (125 + k * 8 + j))
        ≡ (if font_bit (get_or game_over k 0) i j then 14 else 0))
    × ((x y : ℕ) → x < scr_height → y < scr_width → Beyond 85 8 125 72 x y → new (pixel x y) ≡ 0)

pub draw_gg-GameOver : (vbuf : Frame) → (new : Frame) × (draw_gg vbuf ≡ done new) × GameOver new
unfolding draw_gg
draw_gg-GameOver vbuf =
    let (ascii, length) = game_over-IsAscii in
    let (new, run, (text, kept)) =
      draw_string-Written game_over 85 125 14 (prepare_buffer vbuf) ascii (omega arith)
        (omega (arith, length)) in
    (
      new,
      run,
      (
        (λ k i j lt high wide.
            text k i j (omega (arith, length)) high wide
            ∙ ap (shade (font_bit (get_or game_over k 0) i j) 14)
                (prepare_buffer-black vbuf (85 + i) (125 + k * 8 + j) (omega arith) (omega arith))),
        (λ x y high narrow out.
            kept x y narrow (elim out [
              | inl o ↦ inl o
              | inr (inl lt) ↦ inr (inl lt)
              | inr (inr le) ↦ inr (inr (omega (arith, length)))
            ])
            ∙ prepare_buffer-black vbuf x y high narrow),
      ),
    )

module _ (logo : ℕ → ℕ) where
  -- The columns of row `i` of the logo from `from` on are drawn, and no other pixel is.
  RowDrawn : (i from left : ℕ) (old new : Frame) → Type 0
  RowDrawn i from left old new =
      ((j : ℕ)
        → from ≤ j
        → j < from + left
        → new (pixel (25 + i) (60 + j)) ≡ logo (i * 200 + j) % 256)
      × ((x y : ℕ)
          → y < scr_width
          → (x ≢ 25 + i) ⊎ ((y < 60 + from) ⊎ (60 + from + left ≤ y))
          → new (pixel x y) ≡ old (pixel x y))

  logo_row-RowDrawn :
      (left i j : ℕ) (vbuf : Frame)
      → i < 150
      → j + left ≤ 200
      → (new : Frame) × (logo_row logo left i j vbuf ≡ done new) × RowDrawn i j left vbuf new
  unfolding logo_row RowDrawn
  logo_row-RowDrawn zero i j vbuf h k =
      (vbuf, refl, ((λ k low high. absurd (omega arith)), (λ x y narrow o. refl)))
  logo_row-RowDrawn (suc left) i j vbuf h k =
      let (mid, run, m) =
        draw_pixel-Row (25 + i) (60 + j) (logo (i * 200 + j)) vbuf (omega arith) (omega arith) in
      let (new, rest, (inside, outside)) = logo_row-RowDrawn left i (suc j) mid h (omega arith) in
      (
        new,
        rw run rest,
        (
          (λ c low high. elim (ℕ_discrete j c) [
            | yes e ↦
                subst (λ c. new (pixel (25 + i) (60 + c)) ≡ logo (i * 200 + c) % 256) e
                  (outside (25 + i) (60 + j) (omega arith) (inr (inl (omega arith)))
                    ∙ m.inside (60 + j) (omega arith) (omega arith))
            | no ne ↦ inside c (omega arith) (omega arith)
          ]),
          (λ x y narrow o.
              outside x y narrow (elim o [
                | inl ne ↦ inl ne
                | inr (inl lt) ↦ inr (inl (omega arith))
                | inr (inr le) ↦ inr (inr (omega arith))
              ])
              ∙ m.outside x y narrow (elim o [
                | inl ne ↦ inl ne
                | inr (inl lt) ↦ inr (inl lt)
                | inr (inr le) ↦ inr (inr (omega arith))
              ])),
        ),
      )

  -- The rows of the logo from `from` on.
  RowsDrawn : (from left : ℕ) (old new : Frame) → Type 0
  RowsDrawn from left old new =
      ((i j : ℕ)
        → from ≤ i
        → i < from + left
        → j < 200
        → new (pixel (25 + i) (60 + j)) ≡ logo (i * 200 + j) % 256)
      × ((x y : ℕ)
          → y < scr_width
          → ((x < 25 + from) ⊎ (25 + from + left ≤ x)) ⊎ ((y < 60) ⊎ (260 ≤ y))
          → new (pixel x y) ≡ old (pixel x y))

  logo_rows-RowsDrawn :
      (left i : ℕ) (vbuf : Frame)
      → i + left ≤ 150
      → (new : Frame) × (logo_rows logo left i vbuf ≡ done new) × RowsDrawn i left vbuf new
  unfolding logo_rows RowsDrawn RowDrawn
  logo_rows-RowsDrawn zero i vbuf h =
      (vbuf, refl, ((λ i j low high wide. absurd (omega arith)), (λ x y narrow o. refl)))
  logo_rows-RowsDrawn (suc left) i vbuf h =
      let (mid, run, (here, others)) = logo_row-RowDrawn 200 i 0 vbuf (omega arith) (omega arith) in
      let (new, rest, (inside, outside)) = logo_rows-RowsDrawn left (suc i) mid (omega arith) in
      (
        new,
        rw run rest,
        (
          (λ r j low high wide. elim (ℕ_discrete i r) [
            | yes e ↦
                subst (λ r. new (pixel (25 + r) (60 + j)) ≡ logo (r * 200 + j) % 256) e
                  (outside (25 + i) (60 + j) (omega arith) (inl (inl (omega arith)))
                    ∙ here j (omega arith) (omega arith))
            | no ne ↦ inside r j (omega arith) (omega arith) wide
          ]),
          (λ x y narrow o.
              outside x y narrow (elim o [
                | inl (inl lt) ↦ inl (inl (omega arith))
                | inl (inr le) ↦ inl (inr (omega arith))
                | inr side ↦ inr side
              ])
              ∙ others x y narrow (elim o [
                | inl (inl lt) ↦ inl (omega arith)
                | inl (inr le) ↦ inl (omega arith)
                | inr (inl lt) ↦ inr (inl (omega arith))
                | inr (inr le) ↦ inr (inr (omega arith))
              ])),
        ),
      )

-- `show_logo` draws the logo whole and below it, from row 180 and column 115 on, its text: each of the
-- eleven characters by the bits of the font, in color 14. The rest of the screen is black.
pub show_logo-drawn :
    (logo : ℕ → ℕ) (vbuf : Frame)
    → (new : Frame) × (show_logo logo vbuf ≡ done new)
      × ((i j : ℕ) → i < 150 → j < 200 → new (pixel (25 + i) (60 + j)) ≡ logo (i * 200 + j) % 256)
      × ((k i j : ℕ)
          → k < 11
          → i < 8
          → j < 8
          → new (pixel (180 + i) (115 + k * 8 + j))
            ≡ (if font_bit (get_or press_space k 0) i j then 14 else 0))
      × ((x y : ℕ)
          → x < scr_height
          → y < scr_width
          → ((x < 25) ⊎ (175 ≤ x)) ⊎ ((y < 60) ⊎ (260 ≤ y))
          → Beyond 180 8 115 88 x y
          → new (pixel x y) ≡ 0)
unfolding show_logo draw_logo RowsDrawn
show_logo-drawn logo vbuf =
    let (ascii, length) = press_space-IsAscii in
    let (mid, run, (inside, outside)) =
      logo_rows-RowsDrawn logo 150 0 (prepare_buffer vbuf) (omega arith) in
    let (new, rest, (text, kept)) =
      draw_string-Written press_space 180 115 14 mid ascii (omega arith) (omega (arith, length)) in
    (
      new,
      rw run rest,
      (λ i j low wide.
          kept (25 + i) (60 + j) (omega arith) (inl (inl (omega arith)))
          ∙ inside i j (omega arith) low wide),
      (λ k i j lt high wide.
          text k i j (omega (arith, length)) high wide
          ∙ ap (shade (font_bit (get_or press_space k 0) i j) 14) (
              outside (180 + i) (115 + k * 8 + j) (omega arith) (inl (inr (omega arith)))
              ∙ prepare_buffer-black vbuf (180 + i) (115 + k * 8 + j) (omega arith) (omega arith))),
      (λ x y high narrow off line.
          kept x y narrow (elim line [
            | inl o ↦ inl o
            | inr (inl lt) ↦ inr (inl lt)
            | inr (inr le) ↦ inr (inr (omega (arith, length)))
          ])
          ∙ outside x y narrow off
          ∙ prepare_buffer-black vbuf x y high narrow),
    )
