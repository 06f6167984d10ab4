-- ===== src/Game/Text.antt =====
-- What `draw_character` of game/video.c paints: each pixel by its bit of the font.
pub mod Line
use oslab.Base.{
  ℕ, zero, suc, ◌+◌, ◌*◌, ◌%◌, ◌≤◌, ◌<◌, ◌≡◌, ◌≢◌, ◌⊎◌, refl, ap, ◌∙◌, inl, inr, Bool, true, false,
  List, [], ◌∷◌, leb, Bool-cases, lt→ltb, if◌then◌else◌, get_or, arith,
}
use native.Mathlib.Decide.{ℕ_discrete}
use mathlib.Core.Path.{subst}
use oslab.Game.Effect.{done}
use oslab.Game.Video.{
  Frame, pixel, font_bit, draw_pixel, char_row, char_rows, draw_character, draw_string, scr_width,
  scr_height,
}
use oslab.Game.Paint.{draw_pixel-Row}
use oslab.Game.Letters.{next_in_line}
use oslab.Strings.{strlen}
use oslab.Strings.Ascii.{IsAscii}

-- A pixel with the bit set has the color, and one with the bit clear is as before.
abbrev pub shade : Bool → (color old : ℕ) → ℕ
shade bit color old = if bit then color % 256 else old

-- The pixel is not in the `n` rows from `x` on, or not in the `m` columns from `y` on.
abbrev pub Beyond : (x n y m a b : ℕ) → Type 0
Beyond x n y m a b = ((a < x) ⊎ (x + n ≤ a)) ⊎ ((b < y) ⊎ (y + m ≤ b))

abbrev pub Spared : (old new : Frame) (x n y m : ℕ) → Type 0
Spared old new x n y m =
    (a b : ℕ) → b < scr_width → Beyond x n y m a b → new (pixel a b) ≡ old (pixel a b)

one_pixel :
    (bit : Bool) (x y color : ℕ) (vbuf : Frame)
    → x < scr_height
    → y < scr_width
    → (new : Frame) × ((if bit then draw_pixel x y color vbuf else done vbuf) ≡ done new)
      × (new (pixel x y) ≡ shade bit color (vbuf (pixel x y)))
      × Spared vbuf new x 1 y 1
one_pixel false x y color vbuf h k = (vbuf, refl, refl, λ a b narrow o. refl)
one_pixel true x y color vbuf h k =
    let (new, run, r) = draw_pixel-Row x y color vbuf h k in
    (
      new,
      run,
      r.inside y (omega arith) (omega arith),
      λ a b narrow o. r.outside a b narrow (elim o [
        | inl (inl lt) ↦ inl (omega arith)
        | inl (inr le) ↦ inl (omega arith)
        | inr side ↦ inr side
      ]),
    )

module _ (ch x y color : ℕ) (rows : x + 8 ≤ scr_height) where
  -- Row `i` of the character from column `from` on.
  RowShaded : (i from left : ℕ) (old new : Frame) → Type 0
  RowShaded i from left old new =
      ((c : ℕ)
        → from ≤ c
        → c < from + left
        → new (pixel (x + i) (y + c)) ≡ shade (font_bit ch i c) color (old (pixel (x + i) (y + c))))
      × Spared old new (x + i) 1 (y + from) left

  char_row-RowShaded :
      (left i j : ℕ) (vbuf : Frame)
      → i < 8
      → y + j + left ≤ scr_width
      → (new : Frame) × (char_row left ch x y color i j vbuf ≡ done new)
        × RowShaded i j left vbuf new
  unfolding char_row RowShaded
  char_row-RowShaded zero i j vbuf h k =
      (vbuf, refl, ((λ c low high. absurd (omega arith)), (λ a b narrow o. refl)))
  char_row-RowShaded (suc left) i j vbuf h k =
      let (mid, run, at, spared) =
        one_pixel (font_bit ch i j) (x + i) (y + j) color vbuf (omega arith) (omega arith) in
      let (new, rest, (inside, outside)) = char_row-RowShaded left i (suc j) mid h (omega arith) in
      (
        new,
        rw run rest,
        (
          (λ c low high. elim (ℕ_discrete j c) [
            | yes e ↦
                subst
                  (λ c.
                    new (pixel (x + i) (y + c))
                    ≡ shade (font_bit ch i c) color (vbuf (pixel (x + i) (y + c))))
                  e (outside (x + i) (y + j) (omega arith) (inr (inl (omega arith))) ∙ at)
            | no ne ↦
                inside c (omega arith) (omega arith)
                ∙ ap (shade (font_bit ch i c) color)
                    (spared (x + i) (y + c) (omega arith) (inr (beside c low ne)))
          ]),
          (λ a b narrow o.
              outside a b narrow (elim o [
                | inl off ↦ inl off
                | inr (inl lt) ↦ inr (inl (omega arith))
                | inr (inr le) ↦ inr (inr (omega arith))
              ])
              ∙ spared a b narrow (elim o [
                | inl off ↦ inl off
                | inr (inl lt) ↦ inr (inl lt)
                | inr (inr le) ↦ inr (inr (omega arith))
              ])),
        ),
      )
    where
      beside : (c : ℕ) → j ≤ c → j ≢ c → (y + c < y + j) ⊎ (y + j + 1 ≤ y + c)
      beside c low ne = inr (omega arith)

  Shaded : (from left : ℕ) (old new : Frame) → Type 0
  Shaded from left old new =
      ((i c : ℕ)
        → from ≤ i
        → i < from + left
        → c < 8
        → new (pixel (x + i) (y + c)) ≡ shade (font_bit ch i c) color (old (pixel (x + i) (y + c))))
      × Spared old new (x + from) left y 8

  char_rows-Shaded :
      (left i : ℕ) (vbuf : Frame)
      → i + left ≤ 8
      → y + 8 ≤ scr_width
      → (new : Frame) × (char_rows left ch x y color i vbuf ≡ done new) × Shaded i left vbuf new
  unfolding char_rows Shaded RowShaded
  char_rows-Shaded zero i vbuf h k =
      (vbuf, refl, ((λ r c low high wide. absurd (omega arith)), (λ a b narrow o. refl)))
  char_rows-Shaded (suc left) i vbuf h k =
      let (mid, run, (here, spared)) = char_row-RowShaded 8 i 0 vbuf (omega arith) (omega arith) in
      let (new, rest, (inside, outside)) = char_rows-Shaded left (suc i) mid (omega arith) k in
      (
        new,
        rw run rest,
        (
          (λ r c low high wide. elim (ℕ_discrete i r) [
            | yes e ↦
                subst
                  (λ r.
                    new (pixel (x + r) (y + c))
                    ≡ shade (font_bit ch r c) color (vbuf (pixel (x + r) (y + c))))
                  e
                  (outside (x + i) (y + c) (omega arith) (inl (inl (omega arith)))
                    ∙ here c (omega arith) (omega arith))
            | no ne ↦
                inside r c (omega arith) (omega arith) wide
                ∙ ap (shade (font_bit ch r c) color)
                    (spared (x + r) (y + c) (omega arith) (inl (inr (omega arith))))
          ]),
          (λ a b narrow o.
              outside a b narrow (elim o [
                | inl (inl lt) ↦ inl (inl (omega arith))
                | inl (inr le) ↦ inl (inr (omega arith))
                | inr side ↦ inr side
              ])
              ∙ spared a b narrow (elim o [
                | inl (inl lt) ↦ inl (inl lt)
                | inl (inr le) ↦ inl (inr (omega arith))
                | inr (inl lt) ↦ inr (inl (omega arith))
                | inr (inr le) ↦ inr (inr (omega arith))
              ])),
        ),
      )

  pub draw_character-Shaded :
      (vbuf : Frame)
      → ch < 128
      → y + 8 ≤ scr_width
      → (new : Frame) × (draw_character ch x y color vbuf ≡ done new)
        × ((i c : ℕ)
            → i < 8
            → c < 8
            → new (pixel (x + i) (y + c))
              ≡ shade (font_bit ch i c) color (vbuf (pixel (x + i) (y + c))))
        × Spared vbuf new x 8 y 8
  unfolding draw_character Shaded
  draw_character-Shaded vbuf ascii k =
      let (new, run, (inside, outside)) = char_rows-Shaded 8 0 vbuf (omega arith) k in
      (
        new,
        rw (lt→ltb ch 128 ascii) run,
        (λ i c high wide. inside i c (omega arith) high wide),
        (λ a b narrow o. outside a b narrow (elim o [
          | inl (inl lt) ↦ inl (inl (omega arith))
          | inl (inr le) ↦ inl (inr (omega arith))
          | inr side ↦ inr side
        ])),
      )
