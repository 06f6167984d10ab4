-- ===== src/Game/Effect.antt =====
-- The rules of the game, from game/effect.c. `gamepool` and `snake` are functions of their indices.
use oslab.Base.{ℕ, zero, suc, ◌+◌, ◌-◌, ◌%◌, ◌/◌, Bool, true, ◌==◌, if◌then◌else◌}
use oslab.Game.Random.{rand}

pub data Cell : Type 0 where
  empty food snake : Cell

-- `struct snakenode`
pub record Node : Type 0 where
  pub x : ℕ
  pub y : ℕ
  pub direction : ℕ
  pub used : Bool

abbrev pub rownum : ℕ
rownum = 9

abbrev pub colnum : ℕ
colnum = 15

abbrev pub dirl : ℕ
dirl = 0

abbrev pub dirr : ℕ
dirr = 1

abbrev pub diru : ℕ
diru = 2

abbrev pub dird : ℕ
dird = 3

-- The static variables of the file, and the seed of lib/random.c.
pub record Game : Type 0 where
  pub gamepool : ℕ → ℕ → Cell
  pub body : ℕ → Node
  pub snakelen : ℕ
  pub ggflag : Bool
  pub seed : ℕ

-- `abort` is a failed assertion, `spin` a loop out of fuel.
pub data Outcome (A : Type 0) : Type 0 where
  done : A → Outcome A
  abort spin : Outcome A

abbrev pub and_then : {A C : Type 0} → Outcome A → (A → Outcome C) → Outcome C
and_then (done a) rest = rest a
and_then abort rest = abort
and_then spin rest = spin

-- `gamepool[y][x] = c`
abbrev pub put : (ℕ → ℕ → Cell) → ℕ → ℕ → Cell → ℕ → ℕ → Cell
put pool y x c j i = if j == y then (if i == x then c else pool j i) else pool j i

-- `snake[i] = n`
abbrev pub set_node : (ℕ → Node) → ℕ → Node → ℕ → Node
set_node body i n j = if j == i then n else body j

-- `snake[i].x = m.x; snake[i].y = m.y;`
abbrev pub placed : Node → Node → Node
placed n m = record n { x = m.x; y = m.y }

-- The row and the column that are drawn, and the seed after that.
abbrev pub draw_place : ℕ → ℕ × ℕ × ℕ
draw_place seed =
    let (r, seed1) = rand seed in let (c, seed2) = rand seed1 in (r % rownum, c % colnum, seed2)

-- `if (c == EMPTY) found else again`
abbrev pub if_empty : {A : Type 0} → Cell → A → A → A
if_empty empty found again = found
if_empty food found again = again
if_empty snake found again = again

unfoldable pub create_new_food : (fuel : ℕ) → Game → Outcome Game
create_new_food zero g = spin
create_new_food (suc fuel) g =
    let (y, x, seed) = draw_place g.seed in
    let again = create_new_food fuel (record g { seed = seed }) in
    if_empty (g.gamepool y x) (done (record g { gamepool = put g.gamepool y x food; seed = seed }))
      again

-- The first call: a snake of one node in the middle.
unfoldable pub start : (fuel : ℕ) → Game → Outcome Game
start fuel g =
    let (r, seed) = rand g.seed in
    let head : Node = record { x = colnum / 2; y = rownum / 2; direction = r % 4; used = true } in
    and_then
      (create_new_food fuel (record g { body = set_node g.body 0 head; snakelen = 1; seed = seed }))
      (λ h. done (record h { gamepool = put h.gamepool (h.body 0).y (h.body 0).x snake }))

-- The loop from `i` down to 1 in which each node takes the place of the one before it.
unfoldable pub shift : (i : ℕ) → (ℕ → Node) → ℕ → Node
shift zero body = body
shift (suc i) body = shift i (set_node body (suc i) (placed (body (suc i)) (body i)))

-- What the `switch` makes of the head.
pub data Move : Type 0 where
  moved : Node → Move
  off_board no_direction : Move

unfoldable pub move_head : Node → Move
move_head n =
    if n.direction == diru
    then (if n.y == 0 then off_board else moved (record n { y = n.y - 1 }))
    else if n.direction == dird
    then (if n.y == rownum - 1 then off_board else moved (record n { y = n.y + 1 }))
    else if n.direction == dirl
    then (if n.x == 0 then off_board else moved (record n { x = n.x - 1 }))
    else if n.direction == dirr
    then (if n.x == colnum - 1 then off_board else moved (record n { x = n.x + 1 }))
    else no_direction

-- `if(gamepool[i][j]==SNAKE) gamepool[i][j]=EMPTY;`
abbrev pub wiped : Cell → Cell
wiped empty = empty
wiped food = food
wiped snake = empty

-- The inner loop from column `j` on, `left` rounds, and the outer from row `i` on.
unfoldable pub clear_row : (left i j : ℕ) → (ℕ → ℕ → Cell) → ℕ → ℕ → Cell
clear_row zero i j pool = pool
clear_row (suc left) i j pool = clear_row left i (suc j) (put pool i j (wiped (pool i j)))

unfoldable pub clear_rows : (left i : ℕ) → (ℕ → ℕ → Cell) → ℕ → ℕ → Cell
clear_rows zero i pool = pool
clear_rows (suc left) i pool = clear_rows left (suc i) (clear_row colnum i 0 pool)

-- The loop that marks the nodes from `i` on.
unfoldable pub mark : (left i : ℕ) → (ℕ → Node) → (ℕ → ℕ → Cell) → ℕ → ℕ → Cell
mark zero i body pool = pool
mark (suc left) i body pool = mark left (suc i) body (put pool (body i).y (body i).x snake)

-- From `gamepool[snake[0].y][snake[0].x]=SNAKE;` to the end.
unfoldable pub remark : Game → Game
remark g = record g {
  gamepool =
      mark g.snakelen 0 g.body
        (clear_rows rownum 0 (put g.gamepool (g.body 0).y (g.body 0).x snake));
}

-- A node at the old place of the last.
unfoldable pub grow : Node → Game → Game
grow temp g = record g {
  body = set_node g.body g.snakelen (record (placed (g.body g.snakelen) temp) { used = true });
  snakelen = g.snakelen + 1;
  gamepool = put g.gamepool temp.y temp.x snake;
}

-- What follows each kind of cell under the head.
abbrev pub on_cell : {A : Type 0} → Cell → A → A → A → A
on_cell snake bite eat pass = bite
on_cell food bite eat pass = eat
on_cell empty bite eat pass = pass

-- The tests after the move, with `temp` the old place of the last node.
unfoldable pub meet : (fuel : ℕ) → Node → Game → Outcome Game
meet fuel temp g =
    on_cell (g.gamepool (g.body 0).y (g.body 0).x) (done (record g { ggflag = true }))
      (and_then (create_new_food fuel (grow temp g)) (λ h. done (remark h))) (done (remark g))

-- What follows each outcome of the `switch`.
abbrev pub on_move : {A : Type 0} → Move → A → A → (Node → A) → A
on_move no_direction fail lost go = fail
on_move off_board fail lost go = lost
on_move (moved head) fail lost go = go head

-- The step, from the shift of the nodes on.
unfoldable pub advance : (fuel : ℕ) → Game → Outcome Game
advance fuel g =
    let temp = g.body (g.snakelen - 1) in
    let body = shift (g.snakelen - 1) g.body in
    on_move (move_head (body 0)) abort (done (record g { body = body; ggflag = true })) (λ head.
      meet fuel temp
        (record g { body = set_node body 0 head; gamepool = put g.gamepool temp.y temp.x empty }))

unfoldable pub update_snake_pos : (fuel : ℕ) → Game → Outcome Game
update_snake_pos fuel g =
    if g.snakelen == 0 then and_then (start fuel g) (advance fuel) else advance fuel g
