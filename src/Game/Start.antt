-- ===== src/Game/Start.antt =====
-- The first call of `update_snake_pos` in game/effect.c, on the empty board.
use oslab.Base.{ℕ, suc, ◌%◌, ◌<◌, ◌≡◌, ◌≢◌, refl, sym, ap, ◌∙◌, true, ◌↔◌, ◌/◌, eq→==, arith}
use mathlib.Core.Path.{subst}
use oslab.Game.Random.{rand}
use oslab.Game.Effect.{
  empty, food, snake, Node, Game, Outcome, done, put, set_node, start, and_then, draw_place,
  advance, update_snake_pos, rownum, colnum,
}
use oslab.Game.Redraw.{At, At?, put_self, put-ne}
use oslab.Game.Alive.{OnBoard, Alive, At-node}
use oslab.Game.Food.{drawn, create_new_food-now}

abbrev pub EmptyBoard : Game → Type 0
EmptyBoard g = (y x : ℕ) → y < rownum → x < colnum → g.gamepool y x ≡ empty

-- The node that `start` makes, and the state before the food is drawn.
abbrev pub first_node : Game → Node
first_node g = record { x = 7; y = 4; direction = (rand g.seed).0 % 4; used = true }

abbrev pub begun : Game → Game
begun g = record g { body = set_node g.body 0 (first_node g); snakelen = 1; seed = (rand g.seed).1 }

food-ne-snake : food ≢ snake
food-ne-snake = λ e. cc

empty-ne-food : empty ≢ food
empty-ne-food = λ e. cc

empty-ne-snake : empty ≢ snake
empty-ne-snake = λ e. cc

-- With the food on the cell that was drawn, and the node marked over it.
abbrev pub started : Game → (row col next : ℕ) → Game
started g row col next = record (begun g) {
  gamepool = put (put g.gamepool row col food) 4 7 snake;
  seed = next;
}

only_node : (P : ℕ → Type 0) (k : ℕ) → k < 1 → P 0 → P k
only_node P k h p = let first : 0 ≡ k = omega arith in subst P first p

started-Alive : (g : Game) (row col next : ℕ) → EmptyBoard g → Alive (started g row col next)
started-Alive g row col next void = record {
  some_nodes = omega arith;
  heading = omega arith;
  on_board = λ k h.
      only_node (λ j. OnBoard ((started g row col next).body j)) k h (omega arith, omega arith);
  apart = λ j k h l at. omega arith;
  marked = λ k h.
      only_node
        (λ j.
          (started g row col next).gamepool ((started g row col next).body j).y
            ((started g row col next).body j).x
          ≡ snake)
        k h (put_self (put g.gamepool row col food) 4 7 snake);
  unmarked = λ y x high wide on. elim (At? (first_node g) y x) [
    | yes at ↦ (0, omega arith, omega arith, at)
    | no off ↦
        absurd (
          fed_cell (put-ne (put g.gamepool row col food) (first_node g) snake y x off) high wide on)
  ];
}
  where
    fed_cell :
        {y x : ℕ}
        → (started g row col next).gamepool y x ≡ put g.gamepool row col food y x
        → y < rownum
        → x < colnum
        → (started g row col next).gamepool y x ≡ snake
        → ⊥
    fed_cell {y} {x} same high wide on =
        elim (At? (record (first_node g) { y = row; x = col }) y x) [
          | yes at ↦ food-ne-snake (
              sym (
                same
                ∙ At-node (put g.gamepool row col food) (record (first_node g) { y = row; x = col })
                    at
                ∙ put_self g.gamepool row col food)
              ∙ on)
          | no off ↦ empty-ne-snake (
              sym (
                same
                ∙ put-ne g.gamepool (record (first_node g) { y = row; x = col }) food y x off
                ∙ void y x high wide)
              ∙ on)
        ]

-- On an empty board the first draw ends the loop.
start-started :
    (fuel : ℕ) (g : Game)
    → EmptyBoard g
    → let place = drawn 0 (rand g.seed).1 in
      start (suc fuel) g ≡ done (started g place.0 place.1 (draw_place (rand g.seed).1).2)
unfolding start
start-started fuel g void =
    ap
      (λ (o : Outcome Game). and_then {A = Game} o (λ (h : Game).
        done (record h { gamepool = put h.gamepool (h.body 0).y (h.body 0).x snake })))
      (create_new_food-now fuel (begun g) (void _ _ (omega arith) (omega arith)))

-- The food that was drawn is there unless the node lies on it.
started-food :
    (g : Game) (row col next : ℕ)
    → EmptyBoard g
    → (y x : ℕ) → y < rownum
    → x < colnum
    → ((started g row col next).gamepool y x ≡ food)
      ↔ ((y ≡ row) × (x ≡ col) × ¬ At (first_node g) y x)
started-food g row col next void y x high wide = elim (At? (first_node g) y x) [
  | yes at ↦ (
    (λ f. absurd (
        food-ne-snake (
          sym f
          ∙ At-node (started g row col next).gamepool (first_node g) at
          ∙ put_self (put g.gamepool row col food) 4 7 snake))),
    (λ (p, q, off). absurd (off at)),
  )
  | no off ↦
      let same = put-ne (put g.gamepool row col food) (first_node g) snake y x off in
      let cell : Node = record (first_node g) { y = row; x = col } in
      (
        (λ f. elim (At? cell y x) [
          | yes here ↦ (here.0, here.1, off)
          | no other ↦ absurd (
              empty-ne-food
                (sym (same ∙ put-ne g.gamepool cell food y x other ∙ void y x high wide) ∙ f))
        ]),
        (λ (p, q, away).
            same
            ∙ At-node (put g.gamepool row col food) cell (p, q)
            ∙ put_self g.gamepool row col food),
      )
]

-- The first call on an empty board takes one draw for the food, makes a well-formed game with one node
-- in the middle, in the direction drawn before, and goes on with the step from there. There is food exactly on the cell that was drawn,
-- and nowhere if that is the cell of the node.
pub update_snake_pos-start :
    (fuel : ℕ) (g : Game)
    → EmptyBoard g
    → g.snakelen ≡ 0
    → let place = drawn 0 (rand g.seed).1 in
      (h : Game) × (update_snake_pos (suc fuel) g ≡ advance (suc fuel) h)
      × Alive h
      × (h.snakelen ≡ 1)
      × At (h.body 0) (rownum / 2) (colnum / 2)
      × ((h.body 0).direction ≡ (rand g.seed).0 % 4)
      × ((y x : ℕ)
          → y < rownum
          → x < colnum
          → (h.gamepool y x ≡ food)
            ↔ ((y ≡ place.0) × (x ≡ place.1) × ¬ ((y ≡ rownum / 2) × (x ≡ colnum / 2))))
unfolding update_snake_pos
update_snake_pos-start fuel g void fresh =
    let (row, col, next) = draw_place (rand g.seed).1 in
    (
      started g row col next,
      rw (eq→== g.snakelen 0 fresh) (
          ap (λ (o : Outcome Game). and_then {A = Game} o (advance (suc fuel)))
            (start-started fuel g void)),
      started-Alive g row col next void,
      refl,
      (refl, refl),
      refl,
      started-food g row col next void,
    )
