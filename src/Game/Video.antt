-- ===== src/Game/Video.antt =====
-- Drawing into the frame buffer, from game/video.c. The buffer is a function of the index.
use oslab.Base.{
  ℕ, zero, suc, ◌+◌, ◌*◌, ◌/◌, ◌%◌, ◌^◌, Bool, true, false, List, [], ◌∷◌, ◌&&◌, ltb, leb, ◌==◌,
  if◌then◌else◌, get_or,
}
use oslab.Game.Effect.{Outcome, done, abort, and_then}
use oslab.Game.Font.{font8x8_basic}

abbrev pub scr_width : ℕ
scr_width = 320

abbrev pub scr_height : ℕ
scr_height = 200

abbrev pub Frame : Type 0
Frame = ℕ → ℕ

-- `(x << 8) + (x << 6) + y`
abbrev pub pixel : (x y : ℕ) → ℕ
pixel x y = x * 2 ^ 8 + x * 2 ^ 6 + y

-- The coordinates are never negative here: all callers add to 0.
unfoldable pub draw_pixel : (x y color : ℕ) → Frame → Outcome Frame
draw_pixel x y color vbuf =
    if ltb x scr_height && ltb y scr_width
    then done (λ i. if i == pixel x y then color % 256 else vbuf i)
    else abort

unfoldable pub prepare_buffer : Frame → Frame
prepare_buffer vbuf i = if ltb i (scr_width * scr_height) then 0 else vbuf i

-- The rounds of the inner loop from column `j` on, and those of the outer from row `i` on.
unfoldable pub block_row : (left x y color i j : ℕ) → Frame → Outcome Frame
block_row zero x y color i j vbuf = done vbuf
block_row (suc left) x y color i j vbuf =
    and_then (draw_pixel (10 + x * 20 + i) (10 + y * 20 + j) color vbuf)
      (block_row left x y color i (suc j))

unfoldable pub block_rows : (left x y color i : ℕ) → Frame → Outcome Frame
block_rows zero x y color i vbuf = done vbuf
block_rows (suc left) x y color i vbuf =
    and_then (block_row 19 x y color i 0 vbuf) (block_rows left x y color (suc i))

unfoldable pub draw_block : (x y color : ℕ) → Frame → Outcome Frame
draw_block x y color vbuf = block_rows 19 x y color 0 vbuf

-- Bit `j` of row `i` of a character, and the two loops over them.
abbrev pub font_bit : (ch i j : ℕ) → Bool
font_bit ch i j = get_or (get_or font8x8_basic ch []) i 0 / 2 ^ j % 2 == 1

unfoldable pub char_row : (left ch x y color i j : ℕ) → Frame → Outcome Frame
char_row zero ch x y color i j vbuf = done vbuf
char_row (suc left) ch x y color i j vbuf =
    and_then (if font_bit ch i j then draw_pixel (x + i) (y + j) color vbuf else done vbuf)
      (char_row left ch x y color i (suc j))

unfoldable pub char_rows : (left ch x y color i : ℕ) → Frame → Outcome Frame
char_rows zero ch x y color i vbuf = done vbuf
char_rows (suc left) ch x y color i vbuf =
    and_then (char_row 8 ch x y color i 0 vbuf) (char_rows left ch x y color (suc i))

unfoldable pub draw_character : (ch x y color : ℕ) → Frame → Outcome Frame
draw_character ch x y color vbuf = if ltb ch 128 then char_rows 8 ch x y color 0 vbuf else abort

unfoldable pub draw_string : (str : List ℕ) (x y color : ℕ) → Frame → Outcome Frame
draw_string [] x y color vbuf = done vbuf
draw_string (c ∷ str) x y color vbuf =
    and_then (draw_character c x y color vbuf) (elim (leb scr_width (y + 8)) [
      | true ↦ draw_string str (x + 8) 0 color
      | false ↦ draw_string str x (y + 8) color
    ])
