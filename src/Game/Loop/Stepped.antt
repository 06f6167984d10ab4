-- ===== src/Game/Loop/Stepped.antt =====
-- `update_snake_pos` of game/effect.c on any game that heads in one of the four directions.
use oslab.Base.{
  ℕ, suc, ◌+◌, ◌-◌, ◌/◌, ◌%◌, ne→==, eq→==, ◌≤◌, ◌<◌, ◌≡◌, ◌≢◌, ◌⊎◌, refl, sym, ap, ◌∙◌, inl, inr,
  true, arith,
}
use oslab.Game.Effect.{
  Cell, empty, food, snake, Node, Game, Outcome, done, abort, and_then, Move, move_head, put,
  set_node, create_new_food, start, shift, grow, remark, on_cell, on_move, meet, advance,
  update_snake_pos, rownum, colnum,
}
use native.Mathlib.Decide.{ℕ_discrete}
use mathlib.Core.Path.{subst}
use oslab.Game.Random.{rand}
use oslab.Game.Redraw.{shift-zero}
use oslab.Game.Loop.Heading.{Goes, leaves, goes, move_head-Goes}
use oslab.Game.Loop.Fit.{Marked, Fit, OrSpin, and_then-OrSpin, create_new_food-same, remark-Marked}

-- What a step makes of a game: the head keeps its direction, a game that is over stays so, the board is
-- marked or the game is over, and the snake grows by one node at most.
record Stepped (g h : Game) : Type 0 where
  direction : (h.body 0).direction ≡ (g.body 0).direction
  stays : g.ggflag ≡ true → h.ggflag ≡ true
  shown : (h.ggflag ≡ true) ⊎ Marked h
  longer : h.snakelen ≤ g.snakelen + 1

set_node-ne : (body : ℕ → Node) (i : ℕ) (n : Node) (j : ℕ) → j ≢ i → set_node body i n j ≡ body j
set_node-ne body i n j ne = rw (ne→== j i ne) refl

meet-Stepped :
    (fuel : ℕ) (temp : Node) (g : Game) → 0 < g.snakelen → OrSpin (Stepped g) (meet fuel temp g)
unfolding meet grow remark
meet-Stepped fuel temp g some = at_cell (g.gamepool (g.body 0).y (g.body 0).x)
  where
    fed : OrSpin (Stepped g) (and_then (create_new_food fuel (grow temp g)) (λ h. done (remark h)))
    fed =
        and_then-OrSpin (create_new_food fuel (grow temp g)) (λ h. done (remark h))
          (create_new_food-same fuel (grow temp g))
          (λ h (same_body, same_len, same_flag). inr (
            remark h,
            refl,
            record {
              direction =
                  ap (λ b. (b 0).direction) same_body
                  ∙ ap (λ (m : Node). m.direction)
                      (set_node-ne g.body g.snakelen _ 0 (omega arith));
              stays = λ on. same_flag ∙ on;
              shown = inr (remark-Marked h (omega arith));
              longer = omega arith;
            },
          ))

    at_cell :
        (c : Cell)
        → OrSpin (Stepped g) (
            on_cell c
              (done (record g { ggflag = true }))
              (and_then (create_new_food fuel (grow temp g)) (λ h. done (remark h)))
              (done (remark g)))
    at_cell snake = inr (
      record g { ggflag = true },
      refl,
      record { direction = refl; stays = λ on. refl; shown = inl refl; longer = omega arith },
    )
    at_cell food = fed
    at_cell empty = inr (
      remark g,
      refl,
      record {
        direction = refl;
        stays = λ on. on;
        shown = inr (remark-Marked g some);
        longer = omega arith;
      },
    )

advance-Stepped :
    (fuel : ℕ) (g : Game)
    → 0 < g.snakelen
    → (g.body 0).direction < 4
    → OrSpin (Stepped g) (advance fuel g)
unfolding advance
advance-Stepped fuel g some heading =
    at_move (move_head (body 0))
      (move_head-Goes (body 0) (subst (λ (n : Node). n.direction < 4) (sym first) heading))
  where
    body : ℕ → Node
    body = shift (g.snakelen - 1) g.body

    first : body 0 ≡ g.body 0
    first = shift-zero (g.snakelen - 1) g.body

    same : (body 0).direction ≡ (g.body 0).direction
    same = ap (λ (n : Node). n.direction) first

    temp : Node
    temp = g.body (g.snakelen - 1)

    go : Node → Outcome Game
    go head =
        meet fuel temp
          (record g { body = set_node body 0 head; gamepool = put g.gamepool temp.y temp.x empty })

    at_move :
        (m : Move)
        → Goes (body 0).direction m
        → OrSpin (Stepped g) (on_move m abort (done (record g { body = body; ggflag = true })) go)
    at_move _ leaves = inr (
      record g { body = body; ggflag = true },
      refl,
      record { direction = same; stays = λ on. refl; shown = inl refl; longer = omega arith },
    )
    at_move _ (goes head e) =
        elim (meet-Stepped fuel temp
          (record g { body = set_node body 0 head; gamepool = put g.gamepool temp.y temp.x empty })
          some) [
            | inl stuck ↦ inl stuck
            | inr (h, run, s) ↦ inr (
              h,
              run,
              record {
                direction = s.direction ∙ e ∙ same;
                stays = s.stays;
                shown = s.shown;
                longer = s.longer;
              },
            )
          ]

start-same :
    (fuel : ℕ) (g : Game)
    → OrSpin
        (λ h. ((h.body 0).direction < 4) × (h.snakelen ≡ 1) × (h.ggflag ≡ g.ggflag))
        (start fuel g)
unfolding start
start-same fuel g =
    let (r, seed) = rand g.seed in
    let head : Node = record { x = colnum / 2; y = rownum / 2; direction = r % 4; used = true } in
    and_then-OrSpin _ _
      (create_new_food-same fuel
        (record g { body = set_node g.body 0 head; snakelen = 1; seed = seed }))
      (λ h (same_body, same_len, same_flag). inr (
        record h { gamepool = put h.gamepool (h.body 0).y (h.body 0).x snake },
        refl,
        (
          subst (λ d. d < 4) (sym (ap (λ b. (b 0).direction) same_body)) (omega arith),
          same_len,
          same_flag,
        ),
      ))

-- From a game that has not begun, is under way or is over.
pub update_snake_pos-Fit :
    (fuel now : ℕ) (g : Game) → Fit now g → OrSpin (Fit (suc now)) (update_snake_pos fuel g)
unfolding update_snake_pos
update_snake_pos-Fit fuel now g f = elim (ℕ_discrete g.snakelen 0) [
  | yes e ↦ subst (OrSpin (Fit (suc now))) (sym (rw (eq→== g.snakelen 0 e) refl)) (
      and_then-OrSpin (start fuel g) (advance fuel) (start-same fuel g) (λ h (heading, one, flag).
        to_Fit h (advance-Stepped fuel h (omega arith) heading) heading (omega arith)))
  | no ne ↦
      subst (OrSpin (Fit (suc now))) (sym (rw (ne→== g.snakelen 0 ne) refl))
        (to_Fit g (advance-Stepped fuel g (omega arith) f.heading) f.heading f.short)
]
  where
    to_Fit :
        (h : Game)
        → OrSpin (Stepped h) (advance fuel h)
        → (h.body 0).direction < 4
        → h.snakelen ≤ now + 1
        → OrSpin (Fit (suc now)) (advance fuel h)
    to_Fit h (inl stuck) heading short = inl stuck
    to_Fit h (inr (k, run, s)) heading short = inr (
      k,
      run,
      record {
        heading = subst (λ d. d < 4) (sym s.direction) heading;
        drawn = s.shown;
        short = omega (arith, s.longer);
      },
    )
