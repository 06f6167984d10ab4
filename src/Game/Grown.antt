-- ===== src/Game/Grown.antt =====
-- The longer snake of game/effect.c, between `create_new_food` and the redrawing.
use oslab.Base.{ℕ, zero, suc, ◌-◌, ◌<◌, ◌≤◌, ◌≡◌, ◌≢◌, refl, sym, ap, ◌∙◌, ne→==, eq→==, arith}
use native.Mathlib.Decide.{ℕ_discrete}
use oslab.Game.Effect.{empty, food, snake, Node, Game, moved, move_head, grow}
use oslab.Game.Redraw.{At, At?, Covered, put_self, put-ne}
use oslab.Game.Alive.{OnBoard, Apart, Alive, At-node}
use oslab.Game.Ahead.{move_head-OnBoard, tail, vacated, cell_ahead, ahead, ahead-follow, head_off}

food-ne-snake : food ≢ snake
food-ne-snake = λ e. cc

food-ne-empty : food ≢ empty
food-ne-empty = λ e. cc

snake-ne-empty : snake ≢ empty
snake-ne-empty = λ e. cc

-- The state with the new node, before the food and the redrawing.
abbrev pub grown : Game → Node → Game
grown g head = grow (tail g) (ahead g head)

-- The place of node `k` of the longer snake.
abbrev pub place : Game → Node → ℕ → Node
place g head zero = head
place g head (suc i) = g.body i

module _ {g : Game} (a : Alive g) (head : Node) (e : move_head (g.body 0) ≡ moved head)
    (eat : cell_ahead g head ≡ food) where
  pub no_bite : cell_ahead g head ≢ snake
  no_bite s = food-ne-snake (sym eat ∙ s)

  pub grown-before : (k : ℕ) → k < g.snakelen → (grown g head).body k ≡ (ahead g head).body k
  unfolding grow
  grown-before k h = rw (ne→== k g.snakelen (omega arith)) refl

  pub grown-place :
      (k : ℕ) → k ≤ g.snakelen → At ((grown g head).body k) (place g head k).y (place g head k).x
  unfolding grow
  grown-place zero h = rw (ne→== 0 g.snakelen (omega (arith, a.some_nodes))) (refl, refl)
  grown-place (suc i) h = elim (ℕ_discrete (suc i) g.snakelen) [
    | yes last ↦
        let index : i ≡ g.snakelen - 1 = omega arith in
        rw (eq→== (suc i) g.snakelen last)
          (ap (λ j. (g.body j).y) index, ap (λ j. (g.body j).x) index)
    | no more ↦ rw (ne→== (suc i) g.snakelen more) (ahead-follow a head i (omega arith))
  ]

  head_off_node : (i : ℕ) → i < g.snakelen → ¬ At head (g.body i).y (g.body i).x
  head_off_node i h (p, q) = elim (ℕ_discrete i (g.snakelen - 1)) [
    | yes last ↦ food-ne-empty (
        sym eat
        ∙ At-node (vacated g) (tail g)
            (sym p ∙ ap (λ j. (g.body j).y) last, sym q ∙ ap (λ j. (g.body j).x) last)
        ∙ put_self g.gamepool (tail g).y (tail g).x empty)
    | no more ↦ head_off a head e no_bite i (omega arith) (p, q)
  ]

  pub grown-OnBoard : (k : ℕ) → k ≤ g.snakelen → OnBoard ((grown g head).body k)
  grown-OnBoard k h =
      let (same_y, same_x) = grown-place k h in
      let (high, wide) = place-OnBoard k h in (omega (arith, same_y), omega (arith, same_x))
    where
      place-OnBoard : (k : ℕ) → k ≤ g.snakelen → OnBoard (place g head k)
      place-OnBoard zero h = (move_head-OnBoard (g.body 0) head (a.on_board 0 a.some_nodes) e).0
      place-OnBoard (suc k) h = a.on_board k (omega arith)

  place-Apart :
      (j k : ℕ)
      → j ≤ g.snakelen
      → k ≤ g.snakelen
      → At (place g head j) (place g head k).y (place g head k).x
      → j ≡ k
  place-Apart zero zero h l at = refl
  place-Apart zero (suc k) h l at = absurd (head_off_node k (omega arith) at)
  place-Apart (suc j) zero h l (p, q) = absurd (head_off_node j (omega arith) (sym p, sym q))
  place-Apart (suc j) (suc k) h l at = ap suc (a.apart j k (omega arith) (omega arith) at)

  pub grown-Apart : Apart (grown g head).body (suc g.snakelen)
  grown-Apart j k h l (p, q) =
      let (jy, jx) = grown-place j (omega arith) in
      let (ky, kx) = grown-place k (omega arith) in
      place-Apart j k (omega arith) (omega arith) (ky ∙ p ∙ sym jy, kx ∙ q ∙ sym jx)

  -- The board before the food is drawn: the node cells are not empty.
  grown-full :
      (k : ℕ)
      → k ≤ g.snakelen
      → (grown g head).gamepool (place g head k).y (place g head k).x ≢ empty
  unfolding grow
  grown-full zero h on = food-ne-empty (
      sym (
        put-ne (vacated g) (tail g) snake head.y head.x
          (λ (p, q). head_off_node (g.snakelen - 1) (omega (arith, a.some_nodes)) (sym p, sym q))
        ∙ eat)
      ∙ on)
  grown-full (suc i) h on = elim (At? (tail g) (g.body i).y (g.body i).x) [
    | yes at ↦ snake-ne-empty (
        sym (
          At-node (grown g head).gamepool (tail g) at
          ∙ put_self (vacated g) (tail g).y (tail g).x snake)
        ∙ on)
    | no other ↦ snake-ne-empty (
        sym (
          put-ne (vacated g) (tail g) snake _ _ other
          ∙ put-ne g.gamepool (tail g) empty _ _ other
          ∙ a.marked i (omega arith))
        ∙ on)
  ]

  -- Off the snake it is the board of `g`.
  pub grown-same : (y x : ℕ) → ¬ At (tail g) y x → (grown g head).gamepool y x ≡ g.gamepool y x
  unfolding grow
  grown-same y x other =
      put-ne (vacated g) (tail g) snake y x other ∙ put-ne g.gamepool (tail g) empty y x other

  -- The snake covers no empty cell.
  pub uncovered :
      (row col : ℕ)
      → (grown g head).gamepool row col ≡ empty
      → ¬ Covered (grown g head).body 0 (suc g.snakelen) row col
  uncovered row col free (k, low, high, (p, q)) =
      let (same_y, same_x) = grown-place k (omega arith) in
      grown-full k (omega arith) (
        sym (At-node (grown g head).gamepool (place g head k) (p ∙ sym same_y, q ∙ sym same_x))
        ∙ free)
