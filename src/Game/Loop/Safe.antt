-- ===== src/Game/Loop/Safe.antt =====
-- All of `main_loop` in game/game.c, for any interrupts.
use oslab.Base.{ℕ, ◌+◌, ◌^◌, ◌≤◌, ◌<◌, ◌≡◌, ◌⊎◌, refl, ap, ◌∙◌, inl, inr, List, arith}
use oslab.Game.Effect.{Outcome, done, spin, and_then}
use oslab.Game.Pictures.{GameOver, show_logo-drawn, draw_gg-GameOver}
use oslab.Game.Video.{Frame}
use oslab.Game.Loop.{
  Interrupt, Loop, Arrivals, Status, running, over, rounds, wait_blank, finish, main_loop,
}
use oslab.Game.Loop.Fit.{Fit}
use oslab.Game.Loop.Turn.{all_timers}
use oslab.Game.Loop.Wait.{NotPressed, Waited, wait_blank-Waited}
use oslab.Game.Loop.Rounds.{
  all_ticks, Playing, plays_on, has_ended, Playing-weaken, Starved, Ran, rounds-Playing,
}

-- The picture at the end of a game.
abbrev pub Finished : (s t : Status) → Type 0
Finished (running m) t = t ≡ running m
Finished (over m) t = (new : Frame) × (t ≡ over (record m { vbuf = new })) × GameOver new

finish-Playing :
    (bound : ℕ) (s : Status)
    → Playing bound s
    → (t : Status) × (finish s ≡ done t) × Finished s t × Playing bound t
finish-Playing bound _ (plays_on m v behind clock) =
    (running m, refl, refl, plays_on m v behind clock)
finish-Playing bound _ (has_ended m on) =
    let (new, run, picture) = draw_gg-GameOver m.vbuf in
    (
      over (record m { vbuf = new }),
      rw run refl,
      (new, refl, picture),
      has_ended (record m { vbuf = new }) on,
    )

-- The wait goes on; or it ends, and from there the game alone searches longer for a place for food than its
-- fuel allows, or the rounds have run.
abbrev pub Reached :
    (logo : ℕ → ℕ) (fuel food : ℕ) (waiting : List (List Interrupt)) (arrivals : List Arrivals)
    → Loop
    → Type 0
Reached logo fuel food waiting arrivals l =
    (NotPressed waiting l.keys × (main_loop logo fuel food waiting arrivals l ≡ spin))
    ⊎ ((¬ NotPressed waiting l.keys)
        × ((m : Loop) × Waited l m (l.tick + all_timers waiting)
            × ((Starved food arrivals m × (main_loop logo fuel food waiting arrivals l ≡ spin))
                ⊎ ((s : Status) × (t : Status) × (main_loop logo fuel food waiting arrivals l
                      ≡ done t)
                    × Ran arrivals m s
                    × Finished s t
                    × Playing (l.tick + all_timers waiting + all_ticks arrivals) t))))

-- From a start with a game that can go on and with the values shown below 2 ^ 32, for any interrupts of
-- which fewer than 2 ^ 31, with the clock at the start, are those of the clock, and with fuel for these, no
-- assertion on the way through `main_loop` fails. If the space bar is up at every look, it waits. If not,
-- the wait ends, with no tick to catch up with and the game as it was. From there the rounds run, each
-- catching up with the clock and drawing as `After` says, and the loop can go on with a valid state, or has
-- ended because the game is over, with the text for that on a black screen; or in one of the rounds the game alone
-- searches longer for a place for food than its fuel allows.
pub main_loop-Playing :
    (logo : ℕ → ℕ) (fuel food : ℕ) (waiting : List (List Interrupt)) (arrivals : List Arrivals)
    (l : Loop)
    → l.keys.key_code < 2 ^ 32
    → l.real_fps < 2 ^ 32
    → Fit 0 l.game
    → l.tick + all_timers waiting + all_ticks arrivals < 2 ^ 31
    → l.tick + all_timers waiting + all_ticks arrivals ≤ fuel
    → Reached logo fuel food waiting arrivals l
unfolding main_loop
main_loop-Playing logo fuel food waiting arrivals l bits rate fit room enough =
    let (picture, shown, inside, text, outside) = show_logo-drawn logo l.vbuf in
    let start : main_loop logo fuel food waiting arrivals l
        ≡ and_then (wait_blank waiting (begin picture)) play_on =
      ap (λ o. and_then o ready) shown in
    elim (wait_blank-Waited waiting (begin picture)
      (record { key_bits = bits; rate_bits = rate; fit = fit }) refl (omega arith)) [
        | inl (up, stuck) ↦ inl (up, start ∙ ap (λ o. and_then o play_on) stuck)
        | inr (pressed, (m, run, w)) ↦
            let waited : main_loop logo fuel food waiting arrivals l
                ≡ and_then (rounds fuel food arrivals m) finish =
              start ∙ ap (λ o. and_then o play_on) run in
            inr (
              pressed,
              (
                m,
                record { valid = w.valid; even = w.even; clock = w.clock; same_game = w.same_game },
                elim (rounds-Playing fuel food arrivals m w.valid (omega (arith, w.even))
                    (omega (arith, w.clock)) (omega (arith, w.clock))) [
                      | inl (starved, stuck) ↦
                          inl (starved, waited ∙ ap (λ o. and_then o finish) stuck)
                      | inr (s, rounded, ran, p) ↦
                          let (t, ended, last, q) =
                            finish-Playing (m.tick + all_ticks arrivals) s p in
                          inr (
                            s,
                            t,
                            waited ∙ ap (λ o. and_then o finish) rounded ∙ ended,
                            ran,
                            last,
                            Playing-weaken (m.tick + all_ticks arrivals)
                                (l.tick + all_timers waiting + all_ticks arrivals) t
                                (omega (arith, w.clock)) q,
                          )
                    ],
              ),
            )
      ]
  where
    begin : Frame → Loop
    begin vbuf = record l { now = 0; num_draw = 0; vbuf = vbuf }

    play_on : Loop → Outcome Status
    play_on m = and_then (rounds fuel food arrivals m) finish

    ready : Frame → Outcome Status
    ready vbuf = and_then (wait_blank waiting (begin vbuf)) play_on
