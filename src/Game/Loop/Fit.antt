-- ===== src/Game/Loop/Fit.antt =====
-- When the loop of game/game.c can go on with a game, also with one that is over.
use oslab.Base.{ℕ, zero, suc, ◌+◌, ◌≤◌, ◌<◌, ◌≡◌, ◌⊎◌, refl, sym, ap, ◌∙◌, inl, inr, true}
use oslab.Game.Effect.{
  Cell, empty, food, snake, Game, Outcome, done, spin, and_then, put, create_new_food, draw_place,
  if_empty, remark, rownum, colnum,
}
use oslab.Game.Redraw.{Covered, Covered?, remark-off}
use oslab.Game.Alive.{wiped-ne-snake}

-- Each snake cell of the board is the place of a node.
abbrev pub Marked : Game → Type 0
Marked g =
    (y x : ℕ) → y < rownum → x < colnum → g.gamepool y x ≡ snake → Covered g.body 0 g.snakelen y x

pub record Fit (now : ℕ) (g : Game) : Type 0 where
  pub heading : (g.body 0).direction < 4
  pub drawn : (g.ggflag ≡ true) ⊎ Marked g
  pub short : g.snakelen ≤ now + 1

-- The code ends and the result has the property, or it searches longer than the fuel allows.
abbrev pub OrSpin : {A : Type 0} → (A → Type 0) → Outcome A → Type 0
OrSpin {A} P o = (o ≡ spin) ⊎ ((a : A) × (o ≡ done a) × P a)

pub and_then-OrSpin :
    {A B : Type 0} {P : A → Type 0} {Q : B → Type 0} (o : Outcome A) (f : A → Outcome B)
    → OrSpin P o
    → ((a : A) → P a → OrSpin Q (f a))
    → OrSpin Q (and_then o f)
and_then-OrSpin o f (inl e) next = inl (ap (λ p. and_then p f) e)
and_then-OrSpin o f (inr (a, e, p)) next = elim (next a p) [
  | inl stuck ↦ inl (ap (λ q. and_then q f) e ∙ stuck)
  | inr (b, run, q) ↦ inr (b, ap (λ o. and_then o f) e ∙ run, q)
]

pub from-OrSpin : {A : Type 0} {P : A → Type 0} {o p : Outcome A} → o ≡ p → OrSpin P p → OrSpin P o
from-OrSpin e (inl stuck) = inl (e ∙ stuck)
from-OrSpin e (inr (a, run, q)) = inr (a, e ∙ run, q)

-- A new food changes the board and the seed alone.
pub create_new_food-same :
    (fuel : ℕ) (g : Game)
    → OrSpin
        (λ h. (h.body ≡ g.body) × (h.snakelen ≡ g.snakelen) × (h.ggflag ≡ g.ggflag))
        (create_new_food fuel g)
unfolding create_new_food
create_new_food-same zero g = inl refl
create_new_food-same (suc fuel) g =
    let (y, x, seed) = draw_place g.seed in
    found (g.gamepool y x) (record g { gamepool = put g.gamepool y x food; seed = seed })
      (create_new_food fuel (record g { seed = seed })) (refl, refl, refl)
      (create_new_food-same fuel (record g { seed = seed }))
  where
    Same : Game → Type 0
    Same h = (h.body ≡ g.body) × (h.snakelen ≡ g.snakelen) × (h.ggflag ≡ g.ggflag)

    found :
        (c : Cell) (h : Game) (again : Outcome Game)
        → Same h
        → OrSpin Same again
        → OrSpin Same (if_empty c (done h) again)
    found empty h again same rest = inr (h, refl, same)
    found food h again same rest = rest
    found snake h again same rest = rest

-- Redrawing marks the nodes and no other cell.
pub remark-Marked : (g : Game) → 0 < g.snakelen → Marked (remark g)
unfolding remark
remark-Marked g some y x high wide on = elim (Covered? g.body 0 g.snakelen y x) [
  | yes cover ↦ cover
  | no off ↦
      absurd (wiped-ne-snake (g.gamepool y x) (sym (remark-off g y x some high wide off) ∙ on))
]
