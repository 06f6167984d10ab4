-- ===== src/Game/Loop/Round.antt =====
-- A round of `main_loop` in game/game.c.
use oslab.Base.{
  ℕ, ◌+◌, ◌-◌, ◌^◌, ◌≤◌, ◌<◌, ◌≡◌, ◌⊎◌, refl, sym, ap, ◌∙◌, inl, inr, Bool, false, eq→==, ne→==,
  arith,
}
use native.Mathlib.Decide.{ℕ_discrete}
use oslab.Game.Effect.{done, spin, and_then}
use oslab.Game.Loop.{
  Loop, Arrivals, Status, running, deliver, catch_up, read_keys, draw, busy, round,
}
use oslab.Game.Loop.Clock.{timers, Valid, less-lt}
use oslab.Game.Loop.Play.{timers_of, play, Caught}
use oslab.Game.Loop.CatchUp.{catch_up-play}
use oslab.Game.Loop.Turn.{
  ticks, timers_of-all_timers, turned_game, Starves, After, plays, deliver-Valid, read_keys-Valid,
}
use oslab.Game.Loop.Draw.{draw-After}

-- The three parts of a round.
busy-next :
    (fuel food : ℕ) (a : Arrivals) (l m : Loop)
    → read_keys (deliver a.before_keys l) ≡ done m
    → busy fuel food a l
      ≡ and_then
          (catch_up fuel food l.tick a.during m false)
          (λ (n, redraw). draw (deliver a.before_draw n) redraw)
unfolding busy
busy-next fuel food a l m run =
    ap
      (λ o. and_then o (λ k.
        and_then (catch_up fuel food l.tick a.during k false)
          (λ (n, redraw). draw (deliver a.before_draw n) redraw)))
      run

busy-draw :
    (fuel food : ℕ) (a : Arrivals) (l m k : Loop) (flag : Bool)
    → read_keys (deliver a.before_keys l) ≡ done m
    → catch_up fuel food l.tick a.during m false ≡ done (k, flag)
    → busy fuel food a l ≡ draw (deliver a.before_draw k) flag
busy-draw fuel food a l m k flag run loops =
    busy-next fuel food a l m run
    ∙ ap (λ o. and_then o (λ (n, redraw). draw (deliver a.before_draw n) redraw)) loops

busy-spin :
    (fuel food : ℕ) (a : Arrivals) (l m : Loop)
    → read_keys (deliver a.before_keys l) ≡ done m
    → catch_up fuel food l.tick a.during m false ≡ spin
    → busy fuel food a l ≡ spin
busy-spin fuel food a l m run stuck =
    busy-next fuel food a l m run
    ∙ ap (λ o. and_then o (λ (n, redraw). draw (deliver a.before_draw n) redraw)) stuck

-- The end of a round whose inner loop has caught up.
busy-Caught :
    (fuel food : ℕ) (a : Arrivals) (l woken m k : Loop) (flag : Bool)
    → Caught (woken.tick - m.now) a.during m false k flag
    → read_keys (deliver a.before_keys woken) ≡ done m
    → catch_up fuel food woken.tick a.during m false ≡ done (k, flag)
    → m.now ≡ l.now
    → m.tick ≡ woken.tick + timers a.before_keys
    → woken.tick ≡ l.tick + timers a.at_halt
    → l.now ≤ woken.tick
    → l.tick + ticks a < 2 ^ 31
    → (s : Status) × (busy fuel food a woken ≡ done s) × After l a s
busy-Caught fuel food a l woken m k flag c run loops m_now m_tick tick behind room =
    let few = timers_of-all_timers (woken.tick - m.now) a.during in
    let (e, ev) = deliver-Valid a.before_draw k c.valid (omega (arith, c.ticked)) in
    let stop : (deliver a.before_draw k).now ≡ woken.tick = omega (arith, e.same_now, c.caught) in
    let clock : (deliver a.before_draw k).tick
        ≡ m.tick + timers_of (woken.tick - m.now) a.during + timers a.before_draw =
      omega (arith, e.ticked, c.ticked) in
    let (s, drawn, after) =
      draw-After l a (deliver a.before_draw k) flag ev (omega arith) (omega arith) (omega arith)
        (omega arith)
        (λ (j, low, high, rem). c.flagged.1 (inr (j, omega arith, omega arith, rem))) in
    (s, busy-draw fuel food a woken m k flag run loops ∙ drawn, after)

-- A round after a clock interrupt.
busy-After :
    (fuel food : ℕ) (a : Arrivals) (l woken : Loop)
    → Valid woken
    → woken.tick ≡ l.tick + timers a.at_halt
    → woken.now ≡ l.now
    → woken.game ≡ l.game
    → woken.now ≤ woken.tick
    → l.tick + ticks a < 2 ^ 31
    → l.tick + ticks a ≤ fuel
    → (Starves food a l × (busy fuel food a woken ≡ spin))
      ⊎ ((s : Status) × (busy fuel food a woken ≡ done s) × After l a s)
busy-After fuel food a l woken v tick now game behind room enough =
    let (d, dv) = deliver-Valid a.before_keys woken v (omega arith) in
    let (m, run, m_tick, m_now, (direction, m_game), mv) =
      read_keys-Valid (deliver a.before_keys woken) dv in
    let n = woken.tick - m.now in
    let few = timers_of-all_timers n a.during in
    let played =
      catch_up-play n fuel food woken.tick a.during m false mv (omega arith)
        (omega (arith, d.same_now)) (omega arith) (omega (arith, d.ticked)) in
    elim played [
      | inl (games, stuck) ↦ inl (
        (
          direction,
          starved m (deliver a.before_keys woken) direction m_game
              (omega (arith, m_now, d.same_now)) (omega (arith, m_tick, d.ticked))
              (d.same_game ∙ game) games,
        ),
        busy-spin fuel food a woken m run stuck,
      )
      | inr (k, flag, games, loops, c) ↦ inr (
          busy-Caught fuel food a l woken m k flag c run loops (omega (arith, m_now, d.same_now))
            (omega (arith, m_tick, d.ticked)) tick (omega arith) room)
    ]
  where
    starved :
        (m k : Loop) (direction : ℕ)
        → m.game ≡ turned_game k.game direction
        → m.now ≡ l.now
        → m.tick ≡ l.tick + timers a.at_halt + timers a.before_keys
        → k.game ≡ l.game
        → play food (woken.tick - m.now) m.now m.tick a.during m.game ≡ spin
        → play food
            (l.tick + timers a.at_halt - l.now)
            l.now
            (l.tick + timers a.at_halt + timers a.before_keys)
            a.during
            (turned_game l.game direction)
          ≡ spin
    starved m k direction turned same_now same_tick same_game stuck =
        sym (
          ap (λ t. play food (t - m.now) m.now m.tick a.during m.game) tick
          ∙ ap (λ i. play food (l.tick + timers a.at_halt - i) i m.tick a.during m.game) same_now
          ∙ ap (λ t. play food (l.tick + timers a.at_halt - l.now) l.now t a.during m.game)
              same_tick
          ∙ ap
              (play food (l.tick + timers a.at_halt - l.now) l.now
                (l.tick + timers a.at_halt + timers a.before_keys) a.during)
              (turned ∙ ap (λ g. turned_game g direction) same_game))
        ∙ stuck

-- A round from a valid state that is not ahead of the clock, with fuel for all ticks and the clock below
-- 2 ^ 31 to its end: it ends with the loop caught up with the clock at the halt, and the board drawn if
-- a multiple of 33 was among the ticks; or with the game over; or the game alone, for some direction
-- of its head, searches for a place for food longer than the fuel allows. The assertions hold.
pub round-After :
    (fuel food : ℕ) (a : Arrivals) (l : Loop)
    → Valid l
    → l.now ≤ l.tick
    → l.tick + ticks a < 2 ^ 31
    → l.tick + ticks a ≤ fuel
    → (Starves food a l × (round fuel food a l ≡ spin))
      ⊎ ((s : Status) × (round fuel food a l ≡ done s) × After l a s)
unfolding round
round-After fuel food a l v behind room enough =
    let woken = deliver a.at_halt l in
    let (d, dv) = deliver-Valid a.at_halt l v (omega arith) in
    elim (ℕ_discrete woken.now woken.tick) [
      | yes e ↦ inr (
        running woken,
        rw (eq→== woken.now woken.tick e) refl,
        plays woken dv (e ∙ d.ticked) (omega arith) (omega (arith, d.ticked))
            (λ (j, low, high, rem). absurd (omega (arith, d.same_now))),
      )
      | no ne ↦
          let behind_now =
            less-lt woken.now woken.tick (omega (arith, d.same_now, d.ticked))
              (omega (arith, d.ticked)) (omega (arith, d.same_now, d.ticked)) in
          let to_busy : round fuel food a l ≡ busy fuel food a woken =
            rw (ne→== woken.now woken.tick ne) (rw behind_now refl) in
          elim (busy-After fuel food a l woken dv d.ticked d.same_now d.same_game
            (omega (arith, d.same_now, d.ticked)) room enough) [
              | inl (starves, stuck) ↦ inl (starves, to_busy ∙ stuck)
              | inr (s, run, after) ↦ inr (s, to_busy ∙ run, after)
            ]
    ]
