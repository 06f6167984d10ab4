-- ===== src/Game/Alive.antt =====
-- When a game of game/effect.c is under way, and what redrawing makes of its board.
use oslab.Base.{ap, ◌↔◌, ℕ, ◌<◌, ◌≡◌, ◌≢◌, sym, ◌∙◌, arith}
use oslab.Game.Effect.{Cell, empty, food, snake, Node, Game, wiped, remark, rownum, colnum}
use oslab.Game.Redraw.{At, Covered, Covered?, remark-on, remark-off}

abbrev pub OnBoard : Node → Type 0
OnBoard n = (n.y < rownum) × (n.x < colnum)

-- No two of the first `n` nodes lie on one cell.
abbrev pub Apart : (ℕ → Node) → ℕ → Type 0
Apart body n = (j k : ℕ) → j < n → k < n → At (body j) (body k).y (body k).x → j ≡ k

-- The nodes lie on different cells of the board, and the snake cells of the board are theirs.
pub record Alive (g : Game) : Type 0 where
  pub some_nodes : 0 < g.snakelen
  pub heading : (g.body 0).direction < 4
  pub on_board : (k : ℕ) → k < g.snakelen → OnBoard (g.body k)
  pub apart : Apart g.body g.snakelen
  pub marked : (k : ℕ) → k < g.snakelen → g.gamepool (g.body k).y (g.body k).x ≡ snake
  pub unmarked :
      (y x : ℕ) → y < rownum → x < colnum → g.gamepool y x ≡ snake → Covered g.body 0 g.snakelen y x

pub snake-ne-food : snake ≢ food
snake-ne-food = λ e. cc

pub wiped-ne-snake : (c : Cell) → wiped c ≢ snake
wiped-ne-snake empty = λ e. cc
wiped-ne-snake food = λ e. cc
wiped-ne-snake snake = λ e. cc

pub remark-Alive :
    (g : Game)
    → 0 < g.snakelen
    → (g.body 0).direction < 4
    → ((k : ℕ) → k < g.snakelen → OnBoard (g.body k))
    → Apart g.body g.snakelen
    → Alive (remark g)
unfolding remark
remark-Alive g some dir board apart = record {
  some_nodes = some;
  heading = dir;
  on_board = board;
  apart = apart;
  marked = remark-on g;
  unmarked = λ y x high wide on. elim (Covered? g.body 0 g.snakelen y x) [
    | yes cover ↦ cover
    | no off ↦
        absurd (wiped-ne-snake (g.gamepool y x) (sym (remark-off g y x some high wide off) ∙ on))
  ];
}

pub wiped-food : (c : Cell) → (wiped c ≡ food) ↔ (c ≡ food)
wiped-food empty = ((λ e. e), (λ e. e))
wiped-food food = ((λ e. e), (λ e. e))
wiped-food snake = ((λ e. cc), (λ e. cc))

pub At-node : (pool : ℕ → ℕ → Cell) (n : Node) {y x : ℕ} → At n y x → pool y x ≡ pool n.y n.x
At-node pool n {x = x} at = ap (λ j. pool j x) at.0 ∙ ap (λ i. pool n.y i) at.1

-- Redrawing keeps the food where no node lies on it.
pub remark-food :
    (g : Game)
    → 0 < g.snakelen
    → ((k : ℕ) → k < g.snakelen → g.gamepool (g.body k).y (g.body k).x ≢ food)
    → (y x : ℕ) → y < rownum
    → x < colnum
    → ((remark g).gamepool y x ≡ food) ↔ (g.gamepool y x ≡ food)
remark-food g some clear y x high wide = elim (Covered? g.body 0 g.snakelen y x) [
  | yes (k, low, lt, at) ↦ (
    (λ e. absurd (
        snake-ne-food
          (sym (At-node (remark g).gamepool (g.body k) at ∙ remark-on g k (omega arith)) ∙ e))),
    (λ e. absurd (clear k (omega arith) (sym (At-node g.gamepool (g.body k) at) ∙ e))),
  )
  | no off ↦
      let same = remark-off g y x some high wide off in
      (
        (λ e. (wiped-food (g.gamepool y x)).0 (sym same ∙ e)),
        (λ e. same ∙ (wiped-food (g.gamepool y x)).1 e),
      )
]
