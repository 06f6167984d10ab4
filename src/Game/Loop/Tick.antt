-- ===== src/Game/Loop/Tick.antt =====
-- One tick of the inner loop of `main_loop` in game/game.c, beside the same tick of the game alone.
use oslab.Base.{ℕ, suc, ◌+◌, ◌^◌, ◌<◌, ◌≡◌, sym, ap, ◌∙◌, inl, inr, Bool, true, List, ◌||◌, arith}
use mathlib.Core.Path.{subst}
use oslab.Game.Effect.{Game, Outcome, done, spin, and_then}
use oslab.Game.Loop.{
  Interrupt, Loop, deliver, less, every, count_fps, next_now, srand, snake_turn, first, others,
  catch_up,
}
use oslab.Game.Loop.Fit.{Fit}
use oslab.Game.Loop.Clock.{timers, Valid, Delivered, deliver-Delivered, every-rem}
use oslab.Game.Loop.Play.{
  play, Agrees, catch_up-next, Beaten, beat-Beaten, play-next, beat-turn, Caught-next,
}

module _ (n fuel food target : ℕ) (during : List (List Interrupt)) (l : Loop) (redraw : Bool)
    (v : Valid l) (behind : less l.now target ≡ true) (room : l.now + 1 < 2 ^ 31)
    (clock : l.tick + timers (first during) < 2 ^ 32) where
  abbrev time : ℕ
  time = l.tick + timers (first during)

  abbrev woken : Loop
  woken = deliver (first during) l

  -- The turn of the snake, and the loop and its flag after it.
  abbrev pub turn : Outcome Game
  turn = snake_turn food l.now (srand time l.game)

  abbrev pub next_loop : Game → Loop
  next_loop h = next_now (count_fps (record woken { game = h }))

  abbrev pub next_flag : Bool
  next_flag = redraw || every 33 woken.now

  woken-Delivered : Delivered (timers (first during)) l woken
  woken-Delivered = deliver-Delivered (first during) l v.key_bits v.rate_bits clock

  next_loop-Beaten : (h : Game) → Beaten woken h (next_loop h)
  next_loop-Beaten h =
      let d = woken-Delivered in
      beat-Beaten woken h (omega (arith, d.same_now)) d.key_bits d.rate_bits

  pub next_loop-now : (h : Game) → (next_loop h).now ≡ suc l.now
  next_loop-now h =
      let b = next_loop-Beaten h in let d = woken-Delivered in omega (arith, b.now, d.same_now)

  pub next_loop-tick : (h : Game) → (next_loop h).tick ≡ time
  next_loop-tick h = (next_loop-Beaten h).tick ∙ woken-Delivered.ticked

  pub next_loop-Valid : (h : Game) → Fit (suc l.now) h → Valid (next_loop h)
  next_loop-Valid h fit =
      let b = next_loop-Beaten h in
      record {
        key_bits = b.key_bits;
        rate_bits = b.rate_bits;
        fit =
            subst (λ i. Fit i (next_loop h).game) (sym (next_loop-now h))
              (subst (Fit (suc l.now)) (sym b.game) fit);
      }

  -- Both sides after the turn.
  play-turn :
      (o : Outcome Game)
      → turn ≡ o
      → play food (suc n) l.now l.tick during l.game
        ≡ and_then o (play food n (suc l.now) time (others during))
  play-turn o e =
      play-next food n l.now l.tick during l.game (omega arith)
      ∙ ap (λ o. and_then o (play food n (suc l.now) time (others during))) e

  catch_up-turn :
      (o : Outcome Game)
      → turn ≡ o
      → catch_up (suc fuel) food target during l redraw
        ≡ and_then
            (and_then o (λ g. done (next_loop g, next_flag)))
            (λ (m, r). catch_up fuel food target (others during) m r)
  catch_up-turn o e =
      catch_up-next fuel food target during l redraw behind
      ∙ ap (λ o. and_then o (λ (m, r). catch_up fuel food target (others during) m r))
          (beat-turn food (timers (first during)) l woken redraw woken-Delivered
            ∙ ap (λ o. and_then o (λ g. done (next_loop g, next_flag))) e)

  pub Agrees-spin :
      turn ≡ spin
      → Agrees
          (suc n)
          during
          l
          redraw
          (play food (suc n) l.now l.tick during l.game)
          (catch_up (suc fuel) food target during l redraw)
  Agrees-spin stuck = inl (play-turn spin stuck, catch_up-turn spin stuck)

  -- The rest of the game, in the words of the loop after the turn.
  play-rest :
      (h : Game)
      → turn ≡ done h
      → play food (suc n) l.now l.tick during l.game
        ≡ play food n (next_loop h).now (next_loop h).tick (others during) (next_loop h).game
  play-rest h turned =
      play-turn (done h) turned
      ∙ sym (
          ap (λ i. play food n i (next_loop h).tick (others during) (next_loop h).game)
            (next_loop-now h)
          ∙ ap (λ t. play food n (suc l.now) t (others during) (next_loop h).game)
              (next_loop-tick h)
          ∙ ap (play food n (suc l.now) time (others during)) (next_loop-Beaten h).game)

  pub Agrees-next :
      (h : Game)
      → turn ≡ done h
      → Agrees n
          (others during)
          (next_loop h)
          next_flag
          (play food n (next_loop h).now (next_loop h).tick (others during) (next_loop h).game)
          (catch_up fuel food target (others during) (next_loop h) next_flag)
      → Agrees
          (suc n)
          during
          l
          redraw
          (play food (suc n) l.now l.tick during l.game)
          (catch_up (suc fuel) food target during l redraw)
  Agrees-next h turned (inl (stuck, also)) =
      inl (play-rest h turned ∙ stuck, catch_up-turn (done h) turned ∙ also)
  Agrees-next h turned (inr (m, flag, games, loops, c)) = inr (
    m,
    flag,
    play-rest h turned ∙ games,
    catch_up-turn (done h) turned ∙ loops,
    Caught-next n during l (next_loop h) redraw next_flag m flag (next_loop-now h)
        (next_loop-tick h) ((next_loop-Beaten h).vbuf ∙ woken-Delivered.same_vbuf)
        (ap (λ q. redraw || q)
          (ap (every 33) woken-Delivered.same_now ∙ every-rem 33 l.now (omega arith)))
        c,
  )
