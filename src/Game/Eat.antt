-- ===== src/Game/Eat.antt =====
-- The step of game/effect.c in which the snake eats: it grows by a node, and there is new food.
use oslab.Base.{true, ℕ, zero, suc, ◌-◌, ◌<◌, ◌≤◌, ◌≡◌, ◌≢◌, ◌↔◌, refl, sym, ap, ◌∙◌, arith}
use mathlib.Core.Path.{subst}
use oslab.Game.Effect.{
  Cell, empty, food, snake, Node, Game, done, put, wiped, remark, moved, move_head, on_cell,
  and_then, create_new_food, grow, meet, update_snake_pos, rownum, colnum,
}
use oslab.Game.Redraw.{At, Covered, Covered?, put_self, put-ne, remark-off, remark-on}
use oslab.Game.Alive.{Alive, remark-Alive, At-node, snake-ne-food, wiped-food}
use oslab.Game.Food.{cell_drawn, create_new_food-Placed}
use oslab.Game.Ahead.{
  Moved, tail, cell_ahead, ahead, advance-moved, update_snake_pos-advance, ahead-heading,
}
use oslab.Game.Step.{remark-snakelen}
use oslab.Game.Grown.{
  grown, place, no_bite, grown-before, grown-place, grown-OnBoard, grown-Apart, grown-same,
  uncovered,
}

pub meet-food :
    (fuel : ℕ) (temp : Node) (g : Game)
    → g.gamepool (g.body 0).y (g.body 0).x ≡ food
    → meet fuel temp g ≡ and_then (create_new_food fuel (grow temp g)) (λ h. done (remark h))
unfolding meet
meet-food fuel temp g e =
    ap
      (λ c.
        on_cell c (done (record g { ggflag = true }))
          (and_then (create_new_food fuel (grow temp g)) (λ h. done (remark h))) (done (remark g)))
      e

-- Where there is food after a meal: on one new cell, and wherever it was, but under the head.
pub record Replaced (g h : Game) (head : Node) : Type 0 where
  pub row : ℕ
  pub col : ℕ
  pub row_on : row < rownum
  pub col_on : col < colnum
  pub was_empty : g.gamepool row col ≡ empty
  pub new : h.gamepool row col ≡ food
  pub eaten : h.gamepool head.y head.x ≢ food
  pub others :
      (y x : ℕ)
      → y < rownum
      → x < colnum
      → ¬ ((y ≡ row) × (x ≡ col))
      → ¬ At head y x
      → (h.gamepool y x ≡ food) ↔ (g.gamepool y x ≡ food)

module _ {g : Game} (a : Alive g) (head : Node) (e : move_head (g.body 0) ≡ moved head)
    (eat : cell_ahead g head ≡ food) where
  -- The longer snake, with food on the cell that was drawn.
  abbrev fed : (row col next : ℕ) → Game
  fed row col next = record (grown g head) {
    gamepool = put (grown g head).gamepool row col food;
    seed = next;
  }

  fed-snakelen : (row col next : ℕ) → (fed row col next).snakelen ≡ suc g.snakelen
  unfolding grow
  fed-snakelen row col next = omega arith

  fed-direction : ((grown g head).body 0).direction < 4
  fed-direction =
      let same = ap (λ (n : Node). n.direction) (grown-before a head e eat 0 a.some_nodes) in
      omega (arith, same, ahead-heading a head e (no_bite a head e eat))

  fed-Alive : (row col next : ℕ) → Alive (remark (fed row col next))
  fed-Alive row col next =
      let count = fed-snakelen row col next in
      remark-Alive (fed row col next) (omega arith) fed-direction
        (λ k h. grown-OnBoard a head e eat k (omega arith))
        (λ j k h l. grown-Apart a head e eat j k (omega arith) (omega arith))

  fed-Moved : (row col next : ℕ) → Moved g (remark (fed row col next)) head
  unfolding remark grow
  fed-Moved row col next = record {
    alive = fed-Alive row col next;
    running = refl;
    head_at = grown-place a head e eat 0 (omega arith);
    follow = λ i h. grown-place a head e eat (suc i) (omega arith);
  }

  -- Where the head does not lie a covered cell had no food.
  covered-food :
      (k y x : ℕ) → k ≤ g.snakelen → At (place g head k) y x → ¬ At head y x → g.gamepool y x ≢ food
  covered-food zero y x h at other on = other at
  covered-food (suc i) y x h at other on =
      snake-ne-food (sym (At-node g.gamepool (g.body i) at ∙ a.marked i (omega arith)) ∙ on)

  Covered-place :
      (y x : ℕ)
      → Covered (grown g head).body 0 (suc g.snakelen) y x
      → (k : ℕ) × (k ≤ g.snakelen) × At (place g head k) y x
  Covered-place y x (k, low, high, (p, q)) =
      let (same_y, same_x) = grown-place a head e eat k (omega arith) in
      (k, omega arith, (p ∙ sym same_y, q ∙ sym same_x))

  -- A cell that the snake does not cover is on the new board what it was, but where the food is.
  fed-off :
      (row col next y x : ℕ)
      → y < rownum
      → x < colnum
      → ¬ Covered (grown g head).body 0 (suc g.snakelen) y x
      → (remark (fed row col next)).gamepool y x
        ≡ wiped (put (grown g head).gamepool row col food y x)
  fed-off row col next y x high wide out =
      remark-off (fed row col next) y x (omega (arith, fed-snakelen row col next)) high wide
        (λ c. out (subst (λ n. Covered (grown g head).body 0 n y x) (fed-snakelen row col next) c))

  tail-Covered : (y x : ℕ) → At (tail g) y x → Covered (grown g head).body 0 (suc g.snakelen) y x
  tail-Covered y x (p, q) =
      let index : suc (g.snakelen - 1) ≡ g.snakelen = omega (arith, a.some_nodes) in
      let (same_y, same_x) = grown-place a head e eat (suc (g.snakelen - 1)) (omega arith) in
      (suc (g.snakelen - 1), omega arith, omega arith, (p ∙ same_y, q ∙ same_x))

  fed-others :
      (row col next y x : ℕ)
      → y < rownum
      → x < colnum
      → ¬ ((y ≡ row) × (x ≡ col))
      → ¬ At head y x
      → ((remark (fed row col next)).gamepool y x ≡ food) ↔ (g.gamepool y x ≡ food)
  fed-others row col next y x high wide here other =
      elim (Covered? (grown g head).body 0 (suc g.snakelen) y x) [
        | yes cover ↦
            let (k, le, at) = Covered-place y x cover in
            (
              (λ f. absurd (snake-ne-food (sym (fed-on row col next k y x le at) ∙ f))),
              (λ f. absurd (covered-food k y x le at other f)),
            )
        | no out ↦
            let same =
              fed-off row col next y x high wide out
              ∙ ap wiped (
                  put_cell-ne (grown g head).gamepool row col food y x here
                  ∙ grown-same a head e eat y x (λ at. out (tail-Covered y x at))) in
            (
              (λ f. (wiped-food (g.gamepool y x)).0 (sym same ∙ f)),
              (λ f. same ∙ (wiped-food (g.gamepool y x)).1 f),
            )
      ]
    where
      put_cell-ne :
          (pool : ℕ → ℕ → Cell) (row col : ℕ) (c : Cell) (y x : ℕ)
          → ¬ ((y ≡ row) × (x ≡ col))
          → put pool row col c y x ≡ pool y x
      put_cell-ne pool row col c y x here =
          put-ne pool (record { x = col; y = row; direction = 0; used = true }) c y x here

      fed-on :
          (row col next k y x : ℕ)
          → k ≤ g.snakelen
          → At (place g head k) y x
          → (remark (fed row col next)).gamepool y x ≡ snake
      fed-on row col next k y x le (p, q) =
          let (same_y, same_x) = grown-place a head e eat k le in
          At-node (remark (fed row col next)).gamepool ((grown g head).body k)
            (p ∙ same_y, q ∙ same_x)
          ∙ remark-on (fed row col next) k (omega (arith, fed-snakelen row col next))

  fed-Replaced :
      (row col next : ℕ)
      → row < rownum
      → col < colnum
      → (grown g head).gamepool row col ≡ empty
      → Replaced g (remark (fed row col next)) head
  fed-Replaced row col next high wide free =
      let out = uncovered a head e eat row col free in
      let m = fed-Moved row col next in
      record {
        row = row;
        col = col;
        row_on = high;
        col_on = wide;
        was_empty =
            sym (grown-same a head e eat row col (λ at. out (tail-Covered row col at))) ∙ free;
        new =
            fed-off row col next row col high wide out
            ∙ ap wiped (put_self (grown g head).gamepool row col food);
        eaten = λ f. snake-ne-food (
            sym (
              At-node (remark (fed row col next)).gamepool ((remark (fed row col next)).body 0)
                m.head_at
              ∙ m.alive.marked 0 m.alive.some_nodes)
            ∙ f);
        others = fed-others row col next;
      }

-- A move onto food, where one of the draws that the fuel allows hits a cell that is empty once the
-- snake has grown: the snake moves on and gets a node at its end, the food under its head is gone,
-- there is food on one cell that was empty, and elsewhere the food stays where it is.
pub update_snake_pos-eat :
    {g : Game} (fuel k : ℕ) (head : Node)
    → Alive g
    → move_head (g.body 0) ≡ moved head
    → cell_ahead g head ≡ food
    → k < fuel
    → cell_drawn (grown g head).gamepool k g.seed ≡ empty
    → (h : Game) × (update_snake_pos fuel g ≡ done h)
      × Moved g h head
      × (h.snakelen ≡ suc g.snakelen)
      × Replaced g h head
unfolding grow
update_snake_pos-eat {g} fuel k head a e eat lt free =
    let (t, run, p) = create_new_food-Placed fuel (grown g head) k lt free in
    (
      remark (fed a head e eat p.row p.col p.next),
      update_snake_pos-advance a fuel
          ∙ advance-moved a fuel head e
          ∙ meet-food fuel (tail g) (ahead g head) eat
          ∙ ap (λ o. and_then o (λ h. done (remark h))) (run ∙ ap done p.state),
      fed-Moved a head e eat p.row p.col p.next,
      remark-snakelen (fed a head e eat p.row p.col p.next)
          ∙ fed-snakelen a head e eat p.row p.col p.next,
      fed-Replaced a head e eat p.row p.col p.next p.row_on p.col_on p.was_empty,
    )
