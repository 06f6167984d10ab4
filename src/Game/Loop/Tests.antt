-- ===== src/Game/Loop/Tests.antt =====
-- The main loop of game/game.c on concrete interrupts.
use oslab.Base.{ℕ, ◌≡◌, ◌⊎◌, refl, inr, false, List, [], ◌∷◌, arith}
use oslab.Game.Effect.{empty, snake, Game, spin, done}
use oslab.Game.Loop.{timer, key, Loop, Arrivals, Status, catch_up, round, Interrupt}
use oslab.Game.Loop.Fit.{Fit}
use oslab.Game.Loop.Clock.{timers, Valid}
use oslab.Game.Loop.Play.{timers_of, play, Agrees}
use oslab.Game.Loop.CatchUp.{catch_up-play}
use oslab.Game.Loop.Turn.{all_timers, Starves, After}
use oslab.Game.Loop.Round.{round-After}
use oslab.Game.Loop.Rounds.{all_ticks}
use oslab.Game.Loop.Safe.{Reached, main_loop-Playing}

-- The statics at the begin.
abbrev first_game : Game
first_game = record {
  gamepool = λ y x. empty;
  body = λ i. record { x = 0; y = 0; direction = 0; used = false };
  snakelen = 0;
  ggflag = false;
  seed = 0x498037;
}

first_game-Fit : (now : ℕ) → Fit now first_game
first_game-Fit now = record {
  heading = omega arith;
  drawn = inr (λ y x high wide on. absurd (empty-ne-snake on));
  short = omega arith;
}
  where
    empty-ne-snake : ¬ (empty ≡ snake)
    empty-ne-snake = λ e. cc

-- Two ticks behind.
abbrev late : Loop
late = record {
  tick = 34;
  now = 32;
  num_draw = 0;
  real_fps = 0;
  game = first_game;
  keys = record { letter_pressed = λ i. false; key_code = 0 };
  vbuf = λ i. 0;
}

late-Valid : Valid late
late-Valid = record { key_bits = omega arith; rate_bits = omega arith; fit = first_game-Fit 32 }

abbrev arrived : List (List Interrupt)
arrived = [] ∷ (timer ∷ key 57 0 ∷ []) ∷ []

catch_up-play_example :
    Agrees 2 arrived late false
      (play 0 2 32 34 arrived first_game)
      (catch_up 2 0 34 arrived late false)
unfolding timers_of timers
catch_up-play_example =
    catch_up-play 2 2 0 34 arrived late false late-Valid (omega arith) refl (omega arith)
      (omega arith)

abbrev arrival : Arrivals
arrival = record {
  at_halt = timer ∷ [];
  before_keys = key 75 0 ∷ [];
  during = arrived;
  before_draw = timer ∷ [];
}

round-After_example :
    (Starves 5 arrival late × (round 37 5 arrival late ≡ spin))
    ⊎ ((s : Status) × (round 37 5 arrival late ≡ done s) × After late arrival s)
unfolding timers all_timers
round-After_example =
    round-After 37 5 arrival late late-Valid (omega arith) (omega arith) (omega arith)

-- The space bar, and then two rounds.
main_loop-Playing_example :
    Reached (λ i. i) 50 5 ([] ∷ (key 57 0 ∷ timer ∷ []) ∷ []) (arrival ∷ arrival ∷ []) late
unfolding timers all_timers all_ticks
main_loop-Playing_example =
    main_loop-Playing (λ i. i) 50 5 ([] ∷ (key 57 0 ∷ timer ∷ []) ∷ []) (arrival ∷ arrival ∷ [])
      late (omega arith) (omega arith) (first_game-Fit 0) (omega arith) (omega arith)
