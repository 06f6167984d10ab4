-- ===== src/Game/Crash.antt =====
-- When `update_snake_pos` of game/effect.c ends the game.
use oslab.Base.{ℕ, suc, ◌<◌, ◌≡◌, ◌⊎◌, true}
use oslab.Game.Effect.{Node, Game, done, moved, off_board, move_head, update_snake_pos}
use oslab.Game.Redraw.{At}
use oslab.Game.Alive.{Alive}

-- The head leaves the board or meets a node that stays.
abbrev pub Crashes : Game → Type 0
Crashes g =
    (move_head (g.body 0) ≡ off_board)
    ⊎ ((head : Node) × (i : ℕ) × (move_head (g.body 0) ≡ moved head)
        × (suc i < g.snakelen)
        × At head (g.body i).y (g.body i).x)

-- The step ends with the game over.
abbrev pub Ends : (fuel : ℕ) → Game → Type 0
Ends fuel g = (h : Game) × (update_snake_pos fuel g ≡ done h) × (h.ggflag ≡ true)
