-- ===== src/Game/Loop/CatchUp.antt =====
-- The inner loop of `main_loop` in game/game.c.
use oslab.Base.{ℕ, zero, suc, ◌+◌, ◌^◌, ◌≤◌, ◌<◌, ◌≡◌, refl, inl, inr, Bool, List, arith}
use oslab.Game.Effect.{done}
use oslab.Game.Loop.{Interrupt, Loop, srand, first, others, catch_up}
use oslab.Game.Loop.Clock.{timers, Valid, less-lt, less-le}
use oslab.Game.Loop.Tick.{
  next_loop, next_flag, next_loop-now, next_loop-tick, next_loop-Valid, Agrees-spin, Agrees-next,
}
use oslab.Game.Loop.Play.{timers_of, play, Agrees, catch_up-stop, snake_turn-Fit, srand-Fit}

-- From a valid state that is `n` ticks behind a target below 2 ^ 31, with fuel for these and a clock that
-- stays below 2 ^ 32, the loop catches up by exactly these ticks and moves the snake as `play` does: both
-- end with the same game, or both search for a place for food longer than the fuel allows. No assertion
-- fails; the clock has gone on by the interrupts, and the screen is to be drawn again exactly if it
-- was or one of the ticks is a multiple of 33.
pub catch_up-play :
    (n fuel food target : ℕ) (during : List (List Interrupt)) (l : Loop) (redraw : Bool)
    → Valid l
    → n ≤ fuel
    → target ≡ l.now + n
    → target < 2 ^ 31
    → l.tick + timers_of n during < 2 ^ 32
    → Agrees n during l redraw
        (play food n l.now l.tick during l.game)
        (catch_up fuel food target during l redraw)
unfolding timers_of play
catch_up-play zero fuel food target during l redraw v enough e room clock = inr (
  l,
  redraw,
  refl_play,
  catch_up-stop fuel food target during l redraw
      (less-le l.now target (omega arith) room (omega arith)),
  record {
    caught = omega arith;
    ticked = omega arith;
    flagged = (
      (λ on. inl on),
      (λ o. elim o [ inl on ↦ on | inr (j, low, high, rem) ↦ absurd (omega arith) ]),
    );
    same_vbuf = refl;
    valid = v;
  },
)
  where
    refl_play : play food zero l.now l.tick during l.game ≡ done l.game
    refl_play = refl
catch_up-play (suc n) zero food target during l redraw v enough e room clock = absurd (omega arith)
catch_up-play (suc n) (suc fuel) food target during l redraw v enough e room clock =
    let behind = less-lt l.now target (omega arith) room (omega arith) in
    let one : l.now + 1 < 2 ^ 31 = omega arith in
    let soon : l.tick + timers (first during) < 2 ^ 32 = omega arith in
    elim (snake_turn-Fit food l.now (srand (l.tick + timers (first during)) l.game) (omega arith)
      (srand-Fit l.now (l.tick + timers (first during)) l.game v.fit)) [
        | inl stuck ↦ Agrees-spin n fuel food target during l redraw v behind one soon stuck
        | inr (h, turned, fit) ↦
            let m1 = next_loop n fuel food target during l redraw v behind one soon h in
            let now = next_loop-now n fuel food target during l redraw v behind one soon h in
            let tick = next_loop-tick n fuel food target during l redraw v behind one soon h in
            Agrees-next n fuel food target during l redraw v behind one soon h turned (
              catch_up-play n fuel food target (others during) m1
                (next_flag n fuel food target during l redraw v behind one soon)
                (next_loop-Valid n fuel food target during l redraw v behind one soon h fit)
                (omega arith) (omega arith) room (omega arith))
      ]
