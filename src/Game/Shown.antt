-- ===== src/Game/Shown.antt =====
-- What `redraw_screen` of game/effect.c shows.
use oslab.Base.{
  ℕ, zero, suc, ◌+◌, ◌-◌, ◌*◌, ◌%◌, ◌^◌, ◌≤◌, ◌<◌, ◌≡◌, ◌≢◌, ◌⊎◌, refl, ap, ◌∙◌, inl, inr, le→leb,
  arith,
}
use native.Mathlib.Decide.{ℕ_discrete}
use mathlib.Core.Path.{subst}
use oslab.Strings.{strlen}
use oslab.Strings.Ascii.{itoa-IsAscii}
use oslab.Game.Effect.{Cell, snake, Game, done, rownum, colnum}
use oslab.Game.Video.{Frame, pixel, prepare_buffer, scr_width, scr_height}
use oslab.Game.Paint.{InBlock, draw_block-InBlock}
use oslab.Game.Letters.{draw_string-Kept}
use oslab.Game.Screen.{
  color_of, snake_bit, cells_row, cells_rows, fps_label, draw_numbers, redraw_screen,
}
use oslab.Game.Redraw.{Covered}
use oslab.Game.Count.{count_row, count_rows, count_rows-Covered}

-- The block of the cell in row `r` and column `c` has the color of the cell.
abbrev pub Shows : (pool : ℕ → ℕ → Cell) → Frame → (r c : ℕ) → Type 0
Shows pool vbuf r c = (x y : ℕ) → InBlock r c x y → vbuf (pixel x y) ≡ color_of (pool r c) % 256

-- The blocks of the cells that are apart from the rest of row `i` from column `j` on are as before.
abbrev Untouched : (old new : Frame) (P : ℕ → ℕ → Type 0) → Type 0
Untouched old new P =
    (r c x y : ℕ) → P r c → c < colnum → InBlock r c x y → new (pixel x y) ≡ old (pixel x y)

cells_row-Shows :
    (left i j : ℕ) (pool : ℕ → ℕ → Cell) (vbuf : Frame) (snakenum : ℕ)
    → i < rownum
    → j + left ≤ colnum
    → (new : Frame) × (cells_row left i j pool vbuf snakenum
        ≡ done (new, snakenum + count_row left i j pool))
      × ((c : ℕ) → j ≤ c → c < j + left → Shows pool new i c)
      × Untouched vbuf new (λ r c. (r ≢ i) ⊎ (c < j))
unfolding cells_row count_row
cells_row-Shows zero i j pool vbuf snakenum h k = (
  vbuf,
  ap (λ n. done (vbuf, n)) (omega arith),
  (λ c low high. absurd (omega arith)),
  (λ r c x y other narrow inside. refl),
)
cells_row-Shows (suc left) i j pool vbuf snakenum h k =
    let color = color_of (pool i j) in
    let (mid, run, here, others) = draw_block-InBlock i j color vbuf h (omega arith) in
    let (new, rest, shows, apart) =
      cells_row-Shows left i (suc j) pool mid (snakenum + snake_bit (pool i j)) h (omega arith) in
    (
      new,
      rw run (rest ∙ ap (λ n. done (new, n)) (omega arith)),
      (λ c low high. elim (ℕ_discrete j c) [
        | yes e ↦
            subst (λ d. Shows pool new i d) e
              (λ x y inside.
                apart i j x y (inr (omega arith)) (omega arith) inside ∙ here x y inside)
        | no ne ↦ shows c (omega arith) (omega arith)
      ]),
      (λ r c x y other narrow inside.
          apart r c x y (widen r c other) narrow inside
          ∙ others r c x y (differ r c other) narrow inside),
    )
  where
    widen : (r c : ℕ) → (r ≢ i) ⊎ (c < j) → (r ≢ i) ⊎ (c < suc j)
    widen r c (inl ne) = inl ne
    widen r c (inr lt) = inr (omega arith)

    differ : (r c : ℕ) → (r ≢ i) ⊎ (c < j) → (r ≢ i) ⊎ (c ≢ j)
    differ r c (inl ne) = inl ne
    differ r c (inr lt) = inr (omega arith)

cells_rows-Shows :
    (left i : ℕ) (pool : ℕ → ℕ → Cell) (vbuf : Frame) (snakenum : ℕ)
    → i + left ≤ rownum
    → (new : Frame) × (cells_rows left i pool vbuf snakenum
        ≡ done (new, snakenum + count_rows left i pool))
      × ((r c : ℕ) → i ≤ r → r < i + left → c < colnum → Shows pool new r c)
      × Untouched vbuf new (λ r c. r < i)
unfolding cells_rows count_rows
cells_rows-Shows zero i pool vbuf snakenum h = (
  vbuf,
  ap (λ n. done (vbuf, n)) (omega arith),
  (λ r c low high wide. absurd (omega arith)),
  (λ r c x y other narrow inside. refl),
)
cells_rows-Shows (suc left) i pool vbuf snakenum h =
    let count = count_row colnum i 0 pool in
    let (mid, run, here, others) =
      cells_row-Shows colnum i 0 pool vbuf snakenum (omega arith) (omega arith) in
    let (new, rest, shows, apart) =
      cells_rows-Shows left (suc i) pool mid (snakenum + count) (omega arith) in
    (
      new,
      rw run (rest ∙ ap (λ n. done (new, n)) (omega arith)),
      (λ r c low high wide. elim (ℕ_discrete i r) [
        | yes e ↦
            subst (λ s. Shows pool new s c) e
              (λ x y inside.
                apart i c x y (omega arith) wide inside
                ∙ here c (omega arith) (omega arith) x y inside)
        | no ne ↦ shows r c (omega arith) (omega arith) wide
      ]),
      (λ r c x y lt narrow inside.
          apart r c x y (omega arith) narrow inside
          ∙ others r c x y (inl (omega arith)) narrow inside),
    )

-- Only the first and the last eight rows of the screen can differ.
abbrev InMiddle : (old new : Frame) → Type 0
InMiddle old new =
    (a b : ℕ) → b < scr_width → 8 ≤ a → a < scr_height - 8 → new (pixel a b) ≡ old (pixel a b)

fps_fits : (n : ℕ) → n ≤ 29 → n * 8 + strlen fps_label * 8 ≤ scr_width
unfolding strlen
fps_fits n h = omega arith

-- The four strings stay on the screen, outside the board.
draw_numbers-InMiddle :
    (key_code len fps : ℕ) (vbuf : Frame)
    → key_code < 2 ^ 32
    → len < 2 ^ 32
    → fps < 2 ^ 32
    → (new : Frame) × (draw_numbers key_code len fps vbuf ≡ done new) × InMiddle vbuf new
unfolding draw_numbers
draw_numbers-InMiddle key_code len fps vbuf key_bits len_bits fps_bits =
    let (key, key_run, key_ascii, key_short) = itoa-IsAscii key_code key_bits in
    let (hits, hits_run, hits_ascii, hits_short) = itoa-IsAscii len len_bits in
    let (rate, rate_run, rate_ascii, rate_short) = itoa-IsAscii fps fps_bits in
    let (a, run_a, kept_a) =
      draw_string-Kept key (scr_height - 8) 0 48 vbuf key_ascii (omega arith) (omega arith) in
    let (b, run_b, kept_b) =
      draw_string-Kept hits 0 (scr_width - strlen hits * 8) 10 a hits_ascii (omega arith)
        (omega arith) in
    let (c, run_c, kept_c) =
      draw_string-Kept rate 0 0 14 b rate_ascii (omega arith) (omega arith) in
    let (d, run_d, kept_d) =
      draw_string-Kept fps_label 0 (strlen rate * 8) 14 c
        (omega arith, (omega arith, (omega arith, tt))) (omega arith)
        (fps_fits (strlen rate) rate_short) in
    (
      d,
      rw key_run (rw run_a (rw hits_run (rw run_b (rw rate_run (rw run_c run_d))))),
      λ x y narrow low high.
          kept_d x y narrow (inr (omega arith))
          ∙ kept_c x y narrow (inr (omega arith))
          ∙ kept_b x y narrow (inr (omega arith))
          ∙ kept_a x y narrow (inl (omega arith)),
    )

-- A pixel of a block of the board lies between the strings.
block_between :
    (r c x y : ℕ)
    → r < rownum
    → c < colnum
    → InBlock r c x y
    → (y < scr_width) × (8 ≤ x) × (x < scr_height - 8)
block_between r c x y high wide (a, b, low, right) = (omega arith, omega arith, omega arith)

-- Where each snake cell of the board is the place of a node and the three numbers shown are below 2 ^ 32,
-- `redraw_screen` keeps its assertion and stays on the screen, and every block of the board then has
-- the color of its cell.
pub redraw_screen-Shows :
    (key_code fps : ℕ) (g : Game) (vbuf : Frame)
    → ((y x : ℕ)
        → y < rownum
        → x < colnum
        → g.gamepool y x ≡ snake
        → Covered g.body 0 g.snakelen y x)
    → key_code < 2 ^ 32
    → g.snakelen < 2 ^ 32
    → fps < 2 ^ 32
    → (new : Frame) × (redraw_screen key_code fps g vbuf ≡ done new)
      × ((r c : ℕ) → r < rownum → c < colnum → Shows g.gamepool new r c)
unfolding redraw_screen
redraw_screen-Shows key_code fps g vbuf marked key_bits len_bits fps_bits =
    let pool = g.gamepool in
    let (cells, run, shows, others) =
      cells_rows-Shows rownum 0 pool (prepare_buffer vbuf) 0 (omega arith) in
    let (new, rest, middle) =
      draw_numbers-InMiddle key_code g.snakelen fps cells key_bits len_bits fps_bits in
    let few = count_rows-Covered g.snakelen g.body pool marked in
    (
      new,
      rw run (rw (le→leb (0 + count_rows rownum 0 pool) g.snakelen (omega arith)) rest),
      λ r c high wide x y inside.
          let (narrow, low, below) = block_between r c x y high wide inside in
          middle x y narrow low below ∙ shows r c (omega arith) (omega arith) wide x y inside,
    )
