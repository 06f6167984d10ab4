-- ===== src/Game/Screen.antt =====
-- The pictures of the game: `redraw_screen`, `draw_gg` and `show_logo` of game/effect.c and `draw_logo`
-- of game/video.c. The logo is a parameter. `display_buffer` copies the frame buffer to the screen
-- whole, so the frame that a function returns is what is shown.
use oslab.Base.{
  ℕ, zero, suc, ◌+◌, ◌-◌, ◌*◌, ◌/◌, Option, none, some, List, [], ◌∷◌, leb, if◌then◌else◌,
}
use oslab.Game.Effect.{
  Cell, empty, food, snake, Game, Outcome, done, abort, and_then, rownum, colnum,
}
use oslab.Game.Video.{
  Frame, scr_width, scr_height, prepare_buffer, draw_pixel, draw_block, draw_string,
}
use oslab.Strings.{itoa, strlen}

-- What the three branches of the loop pass to `draw_block`.
abbrev pub color_of : Cell → ℕ
color_of empty = 0
color_of food = 14
color_of snake = 10

-- `snakenum++` in the third branch.
abbrev pub snake_bit : Cell → ℕ
snake_bit empty = 0
snake_bit food = 0
snake_bit snake = 1

-- The inner loop from column `j` on and the outer from row `i` on; the second result is `snakenum`.
unfoldable pub cells_row : (left i j : ℕ) (pool : ℕ → ℕ → Cell) → Frame → ℕ → Outcome (Frame × ℕ)
cells_row zero i j pool vbuf snakenum = done (vbuf, snakenum)
cells_row (suc left) i j pool vbuf snakenum =
    and_then (draw_block i j (color_of (pool i j)) vbuf)
      (λ new. cells_row left i (suc j) pool new (snakenum + snake_bit (pool i j)))

unfoldable pub cells_rows : (left i : ℕ) (pool : ℕ → ℕ → Cell) → Frame → ℕ → Outcome (Frame × ℕ)
cells_rows zero i pool vbuf snakenum = done (vbuf, snakenum)
cells_rows (suc left) i pool vbuf snakenum =
    and_then (cells_row colnum i 0 pool vbuf snakenum)
      (λ (new, count). cells_rows left (suc i) pool new count)

-- The string of `itoa`, which would stop the program if it left its buffer.
abbrev pub written : Option (List ℕ) → Outcome (List ℕ)
written none = abort
written (some str) = done str

-- "FPS"
abbrev pub fps_label : List ℕ
fps_label = 70 ∷ 80 ∷ 83 ∷ []

-- The four strings: the last key, the length of the snake and the frame rate.
unfoldable pub draw_numbers : (key_code len fps : ℕ) → Frame → Outcome Frame
draw_numbers key_code len fps vbuf = and_then (written (itoa key_code)) (λ key.
    and_then (draw_string key (scr_height - 8) 0 48 vbuf) (λ a.
      and_then (written (itoa len)) (λ hits.
        and_then (draw_string hits 0 (scr_width - strlen hits * 8) 10 a) (λ b.
          and_then (written (itoa fps)) (λ rate.
            and_then (draw_string rate 0 0 14 b) (draw_string fps_label 0 (strlen rate * 8) 14))))))

unfoldable pub redraw_screen : (key_code fps : ℕ) → Game → Frame → Outcome Frame
redraw_screen key_code fps g vbuf =
    and_then (cells_rows rownum 0 g.gamepool (prepare_buffer vbuf) 0) (λ (cells, snakenum).
      if leb snakenum g.snakelen then draw_numbers key_code g.snakelen fps cells else abort)

-- "Game Over"
abbrev pub game_over : List ℕ
game_over = 71 ∷ 97 ∷ 109 ∷ 101 ∷ 32 ∷ 79 ∷ 118 ∷ 101 ∷ 114 ∷ []

-- The picture; the halt call that follows it stops the machine.
unfoldable pub draw_gg : Frame → Outcome Frame
draw_gg vbuf =
    draw_string game_over (scr_height / 2 - 15) (scr_width / 2 - 35) 14 (prepare_buffer vbuf)

unfoldable pub logo_row : (logo : ℕ → ℕ) (left i j : ℕ) → Frame → Outcome Frame
logo_row logo zero i j vbuf = done vbuf
logo_row logo (suc left) i j vbuf =
    and_then (draw_pixel (25 + i) (60 + j) (logo (i * 200 + j)) vbuf) (logo_row logo left i (suc j))

unfoldable pub logo_rows : (logo : ℕ → ℕ) (left i : ℕ) → Frame → Outcome Frame
logo_rows logo zero i vbuf = done vbuf
logo_rows logo (suc left) i vbuf =
    and_then (logo_row logo 200 i 0 vbuf) (logo_rows logo left (suc i))

unfoldable pub draw_logo : (logo : ℕ → ℕ) → Frame → Outcome Frame
draw_logo logo vbuf = logo_rows logo 150 0 vbuf

-- "press Space"
abbrev pub press_space : List ℕ
press_space = 112 ∷ 114 ∷ 101 ∷ 115 ∷ 115 ∷ 32 ∷ 83 ∷ 112 ∷ 97 ∷ 99 ∷ 101 ∷ []

unfoldable pub show_logo : (logo : ℕ → ℕ) → Frame → Outcome Frame
show_logo logo vbuf =
    and_then (draw_logo logo (prepare_buffer vbuf))
      (draw_string press_space (scr_height / 2 + 80) (scr_width / 2 - 45) 14)
