-- ===== src/Game/Ahead.antt =====
-- The game after the move of the head, in `update_snake_pos` of game/effect.c.
use oslab.Base.{ℕ, zero, suc, ◌-◌, ◌<◌, ◌≡◌, ◌≢◌, refl, sym, ap, ◌∙◌, true, ne→==, arith}
use oslab.Game.Effect.{
  Cell, empty, snake, Node, Game, done, put, set_node, placed, shift, remark, Move, moved,
  off_board, move_head, on_move, meet, advance, update_snake_pos,
}
use oslab.Game.Redraw.{At, shift-zero, shift-suc, put-ne}
use oslab.Game.Alive.{OnBoard, Apart, Alive, remark-Alive}

-- A move of the head stays on the board and keeps the direction.
pub move_head-OnBoard :
    (n h : Node) → OnBoard n → move_head n ≡ moved h → OnBoard h × (h.direction ≡ n.direction)
unfolding move_head
move_head-OnBoard n h on e = ground arith

-- What a step makes of the snake `g`: the head on the new cell, each node at the place of the one
-- before it, and the game still well formed and running.
pub record Moved (g h : Game) (head : Node) : Type 0 where
  pub alive : Alive h
  pub running : h.ggflag ≡ g.ggflag
  pub head_at : At (h.body 0) head.y head.x
  pub follow : (i : ℕ) → suc i < h.snakelen → At (h.body (suc i)) (g.body i).y (g.body i).x

-- The place that the last node leaves.
abbrev pub tail : Game → Node
tail g = g.body (g.snakelen - 1)

-- The board when the last node has left its cell, and the cell that the head moves to.
abbrev pub vacated : Game → ℕ → ℕ → Cell
vacated g = put g.gamepool (tail g).y (tail g).x empty

abbrev pub cell_ahead : Game → Node → Cell
cell_ahead g head = vacated g head.y head.x

-- The state between the move and the tests.
abbrev pub ahead : Game → Node → Game
ahead g head = record g {
  body = set_node (shift (g.snakelen - 1) g.body) 0 head;
  gamepool = vacated g;
}

module _ {A : Type 0} (m : Move) (fail lost : A) (go : Node → A) where
  pub on_move-moved : {head : Node} → m ≡ moved head → on_move m fail lost go ≡ go head
  on_move-moved e = ap (λ n. on_move n fail lost go) e

  pub on_move-off_board : m ≡ off_board → on_move m fail lost go ≡ lost
  on_move-off_board e = ap (λ n. on_move n fail lost go) e

module _ {g : Game} (a : Alive g) where
  pub advance-moved :
      (fuel : ℕ) (head : Node)
      → move_head (g.body 0) ≡ moved head
      → advance fuel g ≡ meet fuel (tail g) (ahead g head)
  unfolding advance
  advance-moved fuel head e =
      on_move-moved _ _ _ _ (ap move_head (shift-zero (g.snakelen - 1) g.body) ∙ e)

  pub advance-off_board :
      (fuel : ℕ)
      → move_head (g.body 0) ≡ off_board
      → advance fuel g ≡ done (record g { body = shift (g.snakelen - 1) g.body; ggflag = true })
  unfolding advance
  advance-off_board fuel e =
      on_move-off_board _ _ _ _ (ap move_head (shift-zero (g.snakelen - 1) g.body) ∙ e)

  pub update_snake_pos-advance : (fuel : ℕ) → update_snake_pos fuel g ≡ advance fuel g
  unfolding update_snake_pos
  update_snake_pos-advance fuel = let some = a.some_nodes in ground arith

  pub ahead-suc :
      (head : Node) (i : ℕ)
      → suc i < g.snakelen
      → (ahead g head).body (suc i) ≡ placed (g.body (suc i)) (g.body i)
  ahead-suc head i h =
      rw (ne→== (suc i) 0 (omega arith)) (shift-suc (g.snakelen - 1) g.body i (omega arith))

  pub ahead-follow :
      (head : Node) (i : ℕ)
      → suc i < g.snakelen
      → At ((ahead g head).body (suc i)) (g.body i).y (g.body i).x
  ahead-follow head i h = (
    ap (λ (n : Node). n.y) (sym (ahead-suc head i h)),
    ap (λ (n : Node). n.x) (sym (ahead-suc head i h)),
  )

  -- A node other than the last keeps its cell marked.
  pub vacated-snake : (i : ℕ) → suc i < g.snakelen → vacated g (g.body i).y (g.body i).x ≡ snake
  vacated-snake i h =
      put-ne g.gamepool (tail g) empty (g.body i).y (g.body i).x (λ (p, q).
        omega
          (arith, a.apart (g.snakelen - 1) i (omega (arith, a.some_nodes)) (omega arith) (p, q)))
      ∙ a.marked i (omega arith)

  module _ (head : Node) (e : move_head (g.body 0) ≡ moved head)
      (off : cell_ahead g head ≢ snake) where
    -- The head does not move onto a node that stays.
    pub head_off : (i : ℕ) → suc i < g.snakelen → ¬ At head (g.body i).y (g.body i).x
    head_off i h (p, q) = off (
        ap (λ y. vacated g y head.x) (sym p)
        ∙ ap (λ x. vacated g (g.body i).y x) (sym q)
        ∙ vacated-snake i h)

    pub ahead-OnBoard : (k : ℕ) → k < g.snakelen → OnBoard ((ahead g head).body k)
    ahead-OnBoard zero h = (move_head-OnBoard (g.body 0) head (a.on_board 0 h) e).0
    ahead-OnBoard (suc k) h = rw (ahead-suc head k h) (a.on_board k (omega arith))

    pub ahead-Apart : Apart (ahead g head).body g.snakelen
    ahead-Apart zero zero h k at = refl
    ahead-Apart zero (suc k) h l (p, q) =
        let (follow_y, follow_x) = ahead-follow head k l in
        absurd (head_off k l (follow_y ∙ p, follow_x ∙ q))
    ahead-Apart (suc j) zero h l (p, q) =
        let (follow_y, follow_x) = ahead-follow head j h in
        absurd (head_off j h (follow_y ∙ sym p, follow_x ∙ sym q))
    ahead-Apart (suc j) (suc k) h l (p, q) =
        let (jy, jx) = ahead-follow head j h in
        let (ky, kx) = ahead-follow head k l in
        ap suc (a.apart j k (omega arith) (omega arith) (ky ∙ p ∙ sym jy, kx ∙ q ∙ sym jx))

    pub ahead-heading : ((ahead g head).body 0).direction < 4
    ahead-heading =
        omega
          (arith, (move_head-OnBoard (g.body 0) head (a.on_board 0 a.some_nodes) e).1, a.heading)

  -- The game state after a step that meets an empty cell.
  pub step-Moved :
      (head : Node)
      → move_head (g.body 0) ≡ moved head
      → cell_ahead g head ≢ snake
      → Moved g (remark (ahead g head)) head
  unfolding remark
  step-Moved head e off = record {
    alive =
        remark-Alive (ahead g head) a.some_nodes (ahead-heading head e off)
          (ahead-OnBoard head e off) (ahead-Apart head e off);
    running = refl;
    head_at = (refl, refl);
    follow = ahead-follow head;
  }
