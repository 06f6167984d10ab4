-- ===== src/Game/Step.antt =====
-- A step of game/effect.c without food: the snake moves on, or the game is over.
use oslab.Base.{ℕ, zero, suc, ◌-◌, ◌<◌, ◌≡◌, ◌≢◌, ◌↔◌, refl, sym, ap, ◌∙◌, true, arith}
use oslab.Game.Effect.{
  empty, food, snake, Node, Game, done, remark, moved, move_head, on_cell, and_then,
  create_new_food, grow, meet, update_snake_pos, rownum, colnum,
}
use oslab.Game.Redraw.{At?, put_self, put-ne}
use oslab.Game.Alive.{Alive, remark-food, At-node, snake-ne-food}
use oslab.Game.Ahead.{
  Moved, tail, vacated, cell_ahead, ahead, advance-moved, update_snake_pos-advance, ahead-follow,
  vacated-snake, step-Moved,
}

meet-empty :
    (fuel : ℕ) (temp : Node) (g : Game)
    → g.gamepool (g.body 0).y (g.body 0).x ≡ empty
    → meet fuel temp g ≡ done (remark g)
unfolding meet
meet-empty fuel temp g e =
    ap
      (λ c.
        on_cell c (done (record g { ggflag = true }))
          (and_then (create_new_food fuel (grow temp g)) (λ h. done (remark h))) (done (remark g)))
      e

pub meet-snake :
    (fuel : ℕ) (temp : Node) (g : Game)
    → g.gamepool (g.body 0).y (g.body 0).x ≡ snake
    → meet fuel temp g ≡ done (record g { ggflag = true })
unfolding meet
meet-snake fuel temp g e =
    ap
      (λ c.
        on_cell c (done (record g { ggflag = true }))
          (and_then (create_new_food fuel (grow temp g)) (λ h. done (remark h))) (done (remark g)))
      e

pub empty-ne-food : empty ≢ food
empty-ne-food = λ e. cc

pub empty-ne-snake : empty ≢ snake
empty-ne-snake = λ e. cc

-- The cell that the last node leaves had no food.
pub vacated-food :
    {g : Game} → Alive g → (y x : ℕ) → (vacated g y x ≡ food) ↔ (g.gamepool y x ≡ food)
vacated-food {g} a y x = elim (At? (tail g) y x) [
  | yes at ↦ (
    (λ e. absurd (
        empty-ne-food (
          sym (At-node (vacated g) (tail g) at ∙ put_self g.gamepool (tail g).y (tail g).x empty)
          ∙ e))),
    (λ e. absurd (
        snake-ne-food (
          sym (
            At-node g.gamepool (tail g) at
            ∙ a.marked (g.snakelen - 1) (omega (arith, a.some_nodes)))
          ∙ e))),
  )
  | no off ↦
      let same = put-ne g.gamepool (tail g) empty y x off in ((λ e. sym same ∙ e), (λ e. same ∙ e))
]

pub remark-snakelen : (g : Game) → (remark g).snakelen ≡ g.snakelen
unfolding remark
remark-snakelen g = refl

ahead-clear :
    {g : Game} (a : Alive g) (head : Node)
    → move_head (g.body 0) ≡ moved head
    → cell_ahead g head ≡ empty
    → (k : ℕ) → k < g.snakelen
    → (ahead g head).gamepool ((ahead g head).body k).y ((ahead g head).body k).x ≢ food
ahead-clear a head e free zero h on = empty-ne-food (sym free ∙ on)
ahead-clear {g} a head e free (suc k) h on = snake-ne-food (
    sym (vacated-snake a k h)
    ∙ At-node (vacated g) ((ahead g head).body (suc k)) (ahead-follow a head k h)
    ∙ on)

-- A move onto an empty cell, or onto the one that the last node leaves: the snake keeps its length and
-- moves on, and the food stays where it is.
pub update_snake_pos-step :
    {g : Game} (fuel : ℕ) (head : Node)
    → Alive g
    → move_head (g.body 0) ≡ moved head
    → cell_ahead g head ≡ empty
    → (h : Game) × (update_snake_pos fuel g ≡ done h)
      × Moved g h head
      × (h.snakelen ≡ g.snakelen)
      × ((y x : ℕ) → y < rownum → x < colnum → (h.gamepool y x ≡ food) ↔ (g.gamepool y x ≡ food))
update_snake_pos-step {g} fuel head a e free = (
  remark (ahead g head),
  update_snake_pos-advance a fuel
      ∙ advance-moved a fuel head e
      ∙ meet-empty fuel (tail g) (ahead g head) free,
  step-Moved a head e (λ s. empty-ne-snake (sym free ∙ s)),
  remark-snakelen (ahead g head),
  λ y x high wide.
      let (h, k) =
        remark-food (ahead g head) a.some_nodes (ahead-clear a head e free) y x high wide in
      let (i, j) = vacated-food a y x in ((λ q. i (h q)), (λ q. k (j q))),
)
