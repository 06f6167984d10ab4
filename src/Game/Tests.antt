-- ===== src/Game/Tests.antt =====
-- The theorems about game/ at concrete games.
use oslab.Base.{
  ◌≢◌, ℕ, ◌+◌, ◌*◌, ◌%◌, ◌<◌, ◌≤◌, ◌≡◌, ◌↔◌, ◌⊎◌, refl, true, false, ◌==◌, if◌then◌else◌, get_or,
  arith,
}
use oslab.Game.Random.{rand}
use oslab.Game.Effect.{
  Cell, empty, food, snake, Node, Game, done, spin, put, move_head, create_new_food, grow, advance,
  update_snake_pos, rownum, colnum,
}
use native.Mathlib.Decide.{ℕ_discrete}
use oslab.Game.Alive.{Alive}
use oslab.Game.Food.{Placed, cell_drawn, create_new_food-lem}
use oslab.Game.Ahead.{Moved}
use oslab.Game.Step.{update_snake_pos-step}
use oslab.Game.Redraw.{At}
use oslab.Game.Eat.{Replaced, update_snake_pos-eat}
use oslab.Game.Start.{update_snake_pos-start}
use oslab.Game.Text.{Beyond}
use oslab.Game.Video.{Frame, pixel, font_bit, scr_width, scr_height}
use oslab.Game.Screen.{redraw_screen, show_logo, press_space}
use oslab.Game.Pictures.{show_logo-drawn}
use oslab.Game.Shown.{Shows, redraw_screen-Shows}
use oslab.Game.Keyboard.{Keyboard, update_keypress}
use oslab.Game.Keys.{Reverses, TwoKeys, update_keypress-Reverses}

abbrev node_at : (y x direction : ℕ) → Node
node_at y x direction = record { x = x; y = y; direction = direction; used = true }

-- Two nodes in the middle of the board, heading right.
abbrev board : Cell → ℕ → ℕ → Cell
board ahead y x =
    if y == 4
    then (if x == 7 then snake else if x == 6 then snake else if x == 8 then ahead else empty)
    else empty

abbrev game : Cell → Game
game ahead = record {
  gamepool = board ahead;
  body = λ i. if i == 0 then node_at 4 7 1 else node_at 4 6 1;
  snakelen = 2;
  ggflag = false;
  seed = 1;
}

game-Alive : (ahead : Cell) → ahead ≢ snake → Alive (game ahead)
game-Alive ahead other = record {
  some_nodes = omega arith;
  heading = omega arith;
  on_board = λ k h. ground arith;
  apart = λ j k h l at. ground arith;
  marked = λ k h. ground arith;
  unmarked = λ y x high wide on. elim (ℕ_discrete x 7) [
    | yes p ↦ (0, omega arith, omega arith, (ground arith, p))
    | no p ↦ (1, omega arith, omega arith, (ground arith, ground arith))
  ];
}

-- Right to column 8, then the step on it: on an empty cell and on food.
update_snake_pos-step_example :
    (h : Game) × (update_snake_pos 0 (game empty) ≡ done h)
    × Moved (game empty) h (node_at 4 8 1)
    × (h.snakelen ≡ 2)
    × ((y x : ℕ)
        → y < rownum
        → x < colnum
        → (h.gamepool y x ≡ food) ↔ ((game empty).gamepool y x ≡ food))
unfolding move_head
update_snake_pos-step_example =
    update_snake_pos-step 0 (node_at 4 8 1) (game-Alive empty (λ e. cc)) refl refl

update_snake_pos-eat_example :
    (h : Game) × (update_snake_pos 1 (game food) ≡ done h)
    × Moved (game food) h (node_at 4 8 1)
    × (h.snakelen ≡ 3)
    × Replaced (game food) h (node_at 4 8 1)
unfolding move_head grow rand
update_snake_pos-eat_example =
    update_snake_pos-eat 1 0 (node_at 4 8 1) (game-Alive food (λ e. cc)) refl refl (omega arith)
      refl

-- One node in the corner, heading up.
abbrev corner : Game
corner = record {
  gamepool = put (λ y x. empty) 0 0 snake;
  body = λ i. node_at 0 0 2;
  snakelen = 1;
  ggflag = false;
  seed = 1;
}

-- A game that has not begun, with the seed after which the first food lies under the snake.
abbrev fresh : Game
fresh = record {
  gamepool = λ y x. empty;
  body = λ i. node_at 0 0 0;
  snakelen = 0;
  ggflag = false;
  seed = 137;
}

update_snake_pos-start_example :
    (h : Game) × (update_snake_pos 1 fresh ≡ advance 1 h)
    × Alive h
    × (h.snakelen ≡ 1)
    × At (h.body 0) 4 7
    × ((h.body 0).direction ≡ (rand 137).0 % 4)
    × ((y x : ℕ)
        → y < rownum
        → x < colnum
        → (h.gamepool y x ≡ food) ↔ ((y ≡ 4) × (x ≡ 7) × ¬ ((y ≡ 4) × (x ≡ 7))))
unfolding rand
update_snake_pos-start_example = update_snake_pos-start 0 fresh (λ y x high wide. refl) refl

-- No key pressed, and left and down pressed while the snake heads up.
abbrev idle : Keyboard
idle = record { letter_pressed = λ i. false; key_code = 0 }

abbrev two_keys : Keyboard
two_keys = record idle {
  letter_pressed = λ i. if i == 26 then true else if i == 29 then true else false;
}

update_keypress-Reverses_example :
    (turned : ℕ) × (h : Keyboard) × (update_keypress 2 two_keys ≡ done (turned, h))
    × ((i : ℕ) → i < 4 → h.letter_pressed (26 + i) ≡ false)
    × ((i : ℕ) → (i < 26) ⊎ (30 ≤ i) → h.letter_pressed i ≡ two_keys.letter_pressed i)
    × (Reverses 2 turned ↔ TwoKeys 2 true false false true)
update_keypress-Reverses_example = update_keypress-Reverses 2 two_keys

redraw_screen-Shows_example :
    (new : Frame) × (redraw_screen 0xcd 30 (game food) (λ i. 0) ≡ done new)
    × ((r c : ℕ) → r < rownum → c < colnum → Shows (board food) new r c)
redraw_screen-Shows_example =
    redraw_screen-Shows 0xcd 30 (game food) (λ i. 0) (game-Alive food (λ e. cc)).unmarked
      (omega arith) (omega arith) (omega arith)

create_new_food-lem_example :
    ((k : ℕ) × (k < 1)
      × (cell_drawn (board food) k 1 ≡ empty)
      × ((h : Game) × (create_new_food 1 (game food) ≡ done h) × Placed (game food) h))
    ⊎ (((k : ℕ) → k < 1 → cell_drawn (board food) k 1 ≢ empty)
        × (create_new_food 1 (game food) ≡ spin))
create_new_food-lem_example = create_new_food-lem 1 (game food)

show_logo-drawn_example :
    (new : Frame) × (show_logo (λ i. i) (λ i. 7) ≡ done new)
    × ((i j : ℕ) → i < 150 → j < 200 → new (pixel (25 + i) (60 + j)) ≡ (i * 200 + j) % 256)
    × ((k i j : ℕ)
        → k < 11
        → i < 8
        → j < 8
        → new (pixel (180 + i) (115 + k * 8 + j))
          ≡ (if font_bit (get_or press_space k 0) i j then 14 else 0))
    × ((x y : ℕ)
        → x < scr_height
        → y < scr_width
        → ((x < 25) ⊎ (175 ≤ x)) ⊎ ((y < 60) ⊎ (260 ≤ y))
        → Beyond 180 8 115 88 x y
        → new (pixel x y) ≡ 0)
show_logo-drawn_example = show_logo-drawn (λ i. i) (λ i. 7)
