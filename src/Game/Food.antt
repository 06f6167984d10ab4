-- ===== src/Game/Food.antt =====
-- `create_new_food` of game/effect.c: when its loop ends, and where the food is then.
use oslab.Base.{ℕ, zero, suc, ◌<◌, ◌≡◌, refl, ap, ◌≢◌, ◌⊎◌, inl, inr, ◌∙◌, arith}
use oslab.Game.Effect.{
  Cell, empty, food, snake, Game, done, spin, put, draw_place, create_new_food, if_empty, rownum,
  colnum,
}

-- The place of the draw number `k`, from a seed.
abbrev pub drawn : (k seed : ℕ) → ℕ × ℕ
drawn zero seed = ((draw_place seed).0, (draw_place seed).1)
drawn (suc k) seed = drawn k (draw_place seed).2

abbrev pub cell_drawn : (ℕ → ℕ → Cell) → (k seed : ℕ) → Cell
cell_drawn pool k seed = pool (drawn k seed).0 (drawn k seed).1

-- Food put on a free cell of the board, and nothing else changed but the seed.
pub record Placed (g h : Game) : Type 0 where
  pub row : ℕ
  pub col : ℕ
  pub next : ℕ
  pub row_on : row < rownum
  pub col_on : col < colnum
  pub was_empty : g.gamepool row col ≡ empty
  pub state : h ≡ record g { gamepool = put g.gamepool row col food; seed = next }

if_empty-full :
    {A : Type 0} (c : Cell) (found again : A) → c ≢ empty → if_empty c found again ≡ again
if_empty-full empty found again full = absurd (full refl)
if_empty-full food found again full = refl
if_empty-full snake found again full = refl

-- The first draw hits an empty cell,
pub create_new_food-now :
    (fuel : ℕ) (g : Game)
    → cell_drawn g.gamepool 0 g.seed ≡ empty
    → create_new_food (suc fuel) g
      ≡ done (record g {
        gamepool = put g.gamepool (drawn 0 g.seed).0 (drawn 0 g.seed).1 food;
        seed = (draw_place g.seed).2;
      })
unfolding create_new_food
create_new_food-now fuel g free =
    ap
      (λ c.
        if_empty c
          (done (record g {
            gamepool = put g.gamepool (drawn 0 g.seed).0 (drawn 0 g.seed).1 food;
            seed = (draw_place g.seed).2;
          }))
          (create_new_food fuel (record g { seed = (draw_place g.seed).2 })))
      free

-- a place on the board,
Placed-now :
    (fuel : ℕ) (g : Game)
    → cell_drawn g.gamepool 0 g.seed ≡ empty
    → (h : Game) × (create_new_food (suc fuel) g ≡ done h) × Placed g h
Placed-now fuel g free = (
  _,
  create_new_food-now fuel g free,
  record {
    row = (drawn 0 g.seed).0;
    col = (drawn 0 g.seed).1;
    next = (draw_place g.seed).2;
    row_on = omega arith;
    col_on = omega arith;
    was_empty = free;
    state = refl;
  },
)

-- or it does not, and the loop goes on with the next seed.
create_new_food-again :
    (fuel : ℕ) (g : Game)
    → cell_drawn g.gamepool 0 g.seed ≢ empty
    → create_new_food (suc fuel) g
      ≡ create_new_food fuel (record g { seed = (draw_place g.seed).2 })
unfolding create_new_food
create_new_food-again fuel g full = if_empty-full (cell_drawn g.gamepool 0 g.seed) _ _ full

Cell_empty? : (c : Cell) → (c ≡ empty) ⊎ (c ≢ empty)
Cell_empty? empty = inl refl
Cell_empty? food = inr (λ e. cc)
Cell_empty? snake = inr (λ e. cc)

-- `create_new_food` ends if one of the draws that the fuel allows hits an empty cell, and then puts
-- food on an empty cell of the board and changes nothing else but the seed.
pub create_new_food-Placed :
    (fuel : ℕ) (g : Game) (k : ℕ)
    → k < fuel
    → cell_drawn g.gamepool k g.seed ≡ empty
    → (h : Game) × (create_new_food fuel g ≡ done h) × Placed g h
create_new_food-Placed zero g k h free = absurd (omega arith)
create_new_food-Placed (suc fuel) g zero h free = Placed-now fuel g free
create_new_food-Placed (suc fuel) g (suc k) h free =
    elim (Cell_empty? (cell_drawn g.gamepool 0 g.seed)) [
      | inl e ↦ Placed-now fuel g e
      | inr full ↦
          let (t, run, p) =
            create_new_food-Placed fuel (record g { seed = (draw_place g.seed).2 }) k (omega arith)
              free in
          (
            t,
            create_new_food-again fuel g full ∙ run,
            record {
              row = p.row;
              col = p.col;
              next = p.next;
              row_on = p.row_on;
              col_on = p.col_on;
              was_empty = p.was_empty;
              state = p.state;
            },
          )
    ]

-- On a full board the loop of `create_new_food` never ends.
pub create_new_food-spin :
    (fuel : ℕ) (g : Game)
    → ((y x : ℕ) → y < rownum → x < colnum → g.gamepool y x ≢ empty)
    → create_new_food fuel g ≡ spin
unfolding create_new_food
create_new_food-spin zero g full = refl
create_new_food-spin (suc fuel) g full =
    create_new_food-again fuel g (full _ _ (omega arith) (omega arith))
    ∙ create_new_food-spin fuel (record g { seed = (draw_place g.seed).2 }) full

-- One of the draws that the fuel allows hits an empty cell, and then `create_new_food` ends with food on a
-- cell of the board that was empty, and nothing else changed but the seed; or none does, and the fuel is
-- not enough.
pub create_new_food-lem :
    (fuel : ℕ) (g : Game)
    → ((k : ℕ) × (k < fuel)
        × (cell_drawn g.gamepool k g.seed ≡ empty)
        × ((h : Game) × (create_new_food fuel g ≡ done h) × Placed g h))
      ⊎ (((k : ℕ) → k < fuel → cell_drawn g.gamepool k g.seed ≢ empty)
          × (create_new_food fuel g ≡ spin))
unfolding create_new_food
create_new_food-lem zero g = inr ((λ k h. absurd (omega arith)), refl)
create_new_food-lem (suc fuel) g = elim (Cell_empty? (cell_drawn g.gamepool 0 g.seed)) [
  | inl e ↦ inl (0, omega arith, e, Placed-now fuel g e)
  | inr full ↦ elim (create_new_food-lem fuel (record g { seed = (draw_place g.seed).2 })) [
    | inl (k, h, free, rest) ↦
        inl
          (suc k, omega arith, free, create_new_food-Placed (suc fuel) g (suc k) (omega arith) free)
    | inr (none_free, stuck) ↦
        inr ((λ k h. each k h full none_free), create_new_food-again fuel g full ∙ stuck)
  ]
]
  where
    each :
        (k : ℕ)
        → k < suc fuel
        → cell_drawn g.gamepool 0 g.seed ≢ empty
        → ((j : ℕ) → j < fuel → cell_drawn g.gamepool j (draw_place g.seed).2 ≢ empty)
        → cell_drawn g.gamepool k g.seed ≢ empty
    each zero h full none_free = full
    each (suc j) h full none_free = none_free j (omega arith)
