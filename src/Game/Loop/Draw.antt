-- ===== src/Game/Loop/Draw.antt =====
-- The end of a round of `main_loop` in game/game.c.
use oslab.Base.{
  ◌+◌, ◌-◌, ◌%◌, ◌^◌, ◌≤◌, ◌<◌, ◌≡◌, ◌≢◌, ◌⊎◌, sym, ap, ◌∙◌, inl, inr, Bool, true, false,
  Bool-cases, if◌then◌else◌, arith,
}
use oslab.Game.Effect.{Outcome, done, and_then}
use oslab.Game.Video.{Frame}
use oslab.Game.Screen.{redraw_screen}
use oslab.Game.Shown.{redraw_screen-Shows}
use oslab.Game.Loop.{Loop, Arrivals, Status, running, over, draw}
use oslab.Game.Loop.Fit.{Marked}
use oslab.Game.Loop.Clock.{timers, Valid}
use oslab.Game.Loop.Play.{Due}
use oslab.Game.Loop.Turn.{ticks, After, plays, ends}

drawn_frame : Loop → Frame → Outcome Status
drawn_frame l vbuf = done (running (record l { num_draw = (l.num_draw + 1) % 2 ^ 32; vbuf = vbuf }))

draw-again :
    (l : Loop)
    → l.game.ggflag ≡ false
    → draw l true
      ≡ and_then (redraw_screen l.keys.key_code l.real_fps l.game l.vbuf) (drawn_frame l)
unfolding draw drawn_frame
draw-again l off =
    ap
      (λ b.
        if b
        then done (over l)
        else and_then (redraw_screen l.keys.key_code l.real_fps l.game l.vbuf) (drawn_frame l))
      off

draw-quiet : (l : Loop) → l.game.ggflag ≡ false → draw l false ≡ done (running l)
unfolding draw
draw-quiet l off = ap (λ b. if b then done (over l) else done (running l)) off

draw-over : (l : Loop) (redraw : Bool) → l.game.ggflag ≡ true → draw l redraw ≡ done (over l)
unfolding draw drawn_frame
draw-over l redraw on =
    ap
      (λ b.
        if b
        then done (over l)
        else if redraw
        then and_then (redraw_screen l.keys.key_code l.real_fps l.game l.vbuf) (drawn_frame l)
        else done (running l))
      on

-- The end of a round.
pub draw-After :
    (l : Loop) (a : Arrivals) (m : Loop) (redraw : Bool)
    → Valid m
    → m.now < 2 ^ 31
    → m.now ≡ l.tick + timers a.at_halt
    → m.now ≤ m.tick
    → m.tick ≤ l.tick + ticks a
    → (Due 33 l.now (m.now - l.now) → redraw ≡ true)
    → (s : Status) × (draw m redraw ≡ done s) × After l a s
unfolding drawn_frame
draw-After l a m redraw v room now behind clock due = elim (Bool-cases m.game.ggflag) [
  | inl on ↦ (over m, draw-over m redraw on, ends m on)
  | inr off ↦ elim (Bool-cases redraw) [
    | inl again ↦
        let (new, run, shows) =
          redraw_screen-Shows m.keys.key_code m.real_fps m.game m.vbuf (marked off v.fit.drawn)
            v.key_bits (omega (arith, v.fit.short)) v.rate_bits in
        (
          running (record m { num_draw = (m.num_draw + 1) % 2 ^ 32; vbuf = new }),
          ap (draw m) again ∙ draw-again m off ∙ ap (λ o. and_then o (drawn_frame m)) run,
          plays (record m { num_draw = (m.num_draw + 1) % 2 ^ 32; vbuf = new })
              (record { key_bits = v.key_bits; rate_bits = v.rate_bits; fit = v.fit }) now behind
              clock (λ j. shows),
        )
    | inr quiet ↦ (
      running m,
      ap (draw m) quiet ∙ draw-quiet m off,
      plays m v now behind clock (λ j. absurd (true-ne-false (sym (due j) ∙ quiet))),
    )
  ]
]
  where
    true-ne-false : true ≢ false
    true-ne-false = λ e. cc

    marked : m.game.ggflag ≡ false → (m.game.ggflag ≡ true) ⊎ Marked m.game → Marked m.game
    marked off (inl on) = absurd (true-ne-false (sym on ∙ off))
    marked off (inr yes_marked) = yes_marked
