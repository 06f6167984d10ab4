-- ===== src/Game/Letters.antt =====
-- Strings drawn by game/video.c stay in their eight rows.
use oslab.Base.{
  ℕ, zero, suc, ◌+◌, ◌*◌, ◌≤◌, ◌<◌, ◌≡◌, ◌⊎◌, refl, ◌∙◌, inl, inr, false, List, [], ◌∷◌, leb,
  Bool-cases, lt→ltb, gt→leb, arith,
}
use oslab.Game.Effect.{done}
use oslab.Game.Video.{
  Frame, pixel, font_bit, char_row, char_rows, draw_character, draw_string, scr_width, scr_height,
}
use oslab.Game.Paint.{draw_pixel-Row}
use oslab.Strings.{strlen}
use oslab.Strings.Ascii.{IsAscii}

-- Only the rows from `x` to `x + 7` can differ.
abbrev pub Kept : (old new : Frame) (x : ℕ) → Type 0
Kept old new x =
    (a b : ℕ) → b < scr_width → (a < x) ⊎ (x + 8 ≤ a) → new (pixel a b) ≡ old (pixel a b)

module _ (ch x y color : ℕ) (rows : x + 8 ≤ scr_height) where
  char_row-Kept :
      (left i j : ℕ) (vbuf : Frame)
      → i < 8
      → y + j + left ≤ scr_width
      → (new : Frame) × (char_row left ch x y color i j vbuf ≡ done new) × Kept vbuf new x
  unfolding char_row
  char_row-Kept zero i j vbuf h k = (vbuf, refl, λ a b narrow o. refl)
  char_row-Kept (suc left) i j vbuf h k = elim (Bool-cases (font_bit ch i j)) [
    | inl on ↦
        let (mid, run, m) = draw_pixel-Row (x + i) (y + j) color vbuf (omega arith) (omega arith) in
        let (new, rest, n) = char_row-Kept left i (suc j) mid h (omega arith) in
        (
          new,
          rw on (rw run rest),
          λ a b narrow o.
              n a b narrow o
              ∙ m.outside a b narrow (inl (elim o [ inl lt ↦ omega arith | inr le ↦ omega arith ])),
        )
    | inr off ↦
        let (new, rest, n) = char_row-Kept left i (suc j) vbuf h (omega arith) in
        (new, rw off rest, n)
  ]

  char_rows-Kept :
      (left i : ℕ) (vbuf : Frame)
      → i + left ≤ 8
      → y + 8 ≤ scr_width
      → (new : Frame) × (char_rows left ch x y color i vbuf ≡ done new) × Kept vbuf new x
  unfolding char_rows
  char_rows-Kept zero i vbuf h k = (vbuf, refl, λ a b narrow o. refl)
  char_rows-Kept (suc left) i vbuf h k =
      let (mid, run, m) = char_row-Kept 8 i 0 vbuf (omega arith) (omega arith) in
      let (new, rest, n) = char_rows-Kept left (suc i) mid (omega arith) k in
      (new, rw run rest, λ a b narrow o. n a b narrow o ∙ m a b narrow o)

  pub draw_character-Kept :
      (vbuf : Frame)
      → ch < 128
      → y + 8 ≤ scr_width
      → (new : Frame) × (draw_character ch x y color vbuf ≡ done new) × Kept vbuf new x
  unfolding draw_character
  draw_character-Kept vbuf ascii k =
      let (new, run, kept) = char_rows-Kept 8 0 vbuf (omega arith) k in
      (new, rw (lt→ltb ch 128 ascii) run, kept)

-- A string that goes on has room for its next character in the same line.
pub next_in_line :
    (c d : ℕ) (str : List ℕ) (y : ℕ)
    → y + strlen (c ∷ d ∷ str) * 8 ≤ scr_width
    → (leb scr_width (y + 8) ≡ false) × (y + 8 + strlen (d ∷ str) * 8 ≤ scr_width)
unfolding strlen
next_in_line c d str y fits = (gt→leb scr_width (y + 8) (omega arith), omega arith)

-- A string of ASCII characters that fits its line is drawn, and changes only the eight rows of the line.
pub draw_string-Kept :
    (str : List ℕ) (x y color : ℕ) (vbuf : Frame)
    → IsAscii str
    → x + 8 ≤ scr_height
    → y + strlen str * 8 ≤ scr_width
    → (new : Frame) × (draw_string str x y color vbuf ≡ done new) × Kept vbuf new x
unfolding draw_string strlen
draw_string-Kept [] x y color vbuf ascii rows fits = (vbuf, refl, λ a b narrow o. refl)
draw_string-Kept (c ∷ []) x y color vbuf (ascii, rest) rows fits =
    let (new, run, kept) = draw_character-Kept c x y color rows vbuf ascii (omega arith) in
    elim (Bool-cases (leb scr_width (y + 8))) [
      | inl on ↦ (new, rw run (rw on refl), kept)
      | inr off ↦ (new, rw run (rw off refl), kept)
    ]
draw_string-Kept (c ∷ d ∷ str) x y color vbuf (ascii, rest) rows fits =
    let (off, fits_next) = next_in_line c d str y fits in
    let (mid, run, m) = draw_character-Kept c x y color rows vbuf ascii (omega arith) in
    let (new, run_next, n) = draw_string-Kept (d ∷ str) x (y + 8) color mid rest rows fits_next in
    (new, rw run (rw off run_next), λ a b narrow o. n a b narrow o ∙ m a b narrow o)
