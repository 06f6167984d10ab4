-- ===== src/Game/Loop/Play.antt =====
-- Single rounds of the inner loop of `main_loop` in game/game.c, and the game alone over some ticks.
use oslab.Base.{
  ℕ, zero, suc, ◌+◌, ◌%◌, ◌^◌, ◌≤◌, ◌<◌, ◌≡◌, ◌⊎◌, ◌↔◌, refl, sym, ap, ◌∙◌, inl, inr, Bool, true,
  false, List, ◌==◌, ◌||◌, if◌then◌else◌, eq→==, ==→eq, arith,
}
use native.Mathlib.Decide.{ℕ_discrete}
use mathlib.Core.Path.{subst}
use oslab.Game.Effect.{Game, Outcome, done, spin, and_then, update_snake_pos}
use oslab.Game.Loop.{
  Interrupt, Loop, deliver, less, every, count_fps, next_now, srand, snake_turn, beat, first,
  others, catch_up,
}
use oslab.Game.Loop.Fit.{Fit, OrSpin}
use oslab.Game.Loop.Stepped.{update_snake_pos-Fit}
use oslab.Game.Loop.Clock.{timers, Valid, Delivered, every-rem, count_fps-Delivered}

-- The clock interrupts in the first `n` lists.
unfoldable pub timers_of : (n : ℕ) → List (List Interrupt) → ℕ
timers_of zero during = 0
timers_of (suc n) during = timers (first during) + timers_of n (others during)

-- The game alone: `n` ticks from number `i` on, the clock of the interrupts at `tick`. The snake moves at
-- the multiples of 333, after a seed that is the time.
unfoldable pub play : (food n i tick : ℕ) (during : List (List Interrupt)) → Game → Outcome Game
play food zero i tick during g = done g
play food (suc n) i tick during g =
    let time = tick + timers (first during) in
    let seeded = srand time g in
    and_then (if i % 333 == 0 then update_snake_pos food seeded else done seeded)
      (play food n (suc i) time (others during))

-- One of the `n` ticks from `i` on is a multiple of `k`.
abbrev pub Due : (k i n : ℕ) → Type 0
Due k i n = (j : ℕ) × (i ≤ j) × (j < i + n) × (j % k ≡ 0)

-- The loop caught up by `n` ticks.
pub record Caught (n : ℕ) (during : List (List Interrupt)) (l : Loop) (redraw : Bool) (m : Loop)
    (flag : Bool) : Type 0 where
  pub caught : m.now ≡ l.now + n
  pub ticked : m.tick ≡ l.tick + timers_of n during
  pub flagged : (flag ≡ true) ↔ ((redraw ≡ true) ⊎ Due 33 l.now n)
  pub same_vbuf : m.vbuf ≡ l.vbuf
  pub valid : Valid m

-- The loop and the game agree: both search for a place for food longer than the fuel allows, or both end.
abbrev pub Agrees :
    (n : ℕ) (during : List (List Interrupt)) (l : Loop) (redraw : Bool) (played : Outcome Game)
    (run : Outcome (Loop × Bool))
    → Type 0
Agrees n during l redraw played run =
    ((played ≡ spin) × (run ≡ spin))
    ⊎ ((m : Loop) × (flag : Bool) × (played ≡ done m.game)
        × (run ≡ done (m, flag))
        × Caught n during l redraw m flag)

pub catch_up-stop :
    (fuel food target : ℕ) (during : List (List Interrupt)) (l : Loop) (redraw : Bool)
    → less l.now target ≡ false
    → catch_up fuel food target during l redraw ≡ done (l, redraw)
unfolding catch_up
catch_up-stop zero food target during l redraw e = rw e refl
catch_up-stop (suc fuel) food target during l redraw e =
    ap
      (λ b. elim b as (λ c. Outcome (Loop × Bool)) [
        | true ↦
            and_then (beat food (deliver (first during) l) redraw)
              (λ (m, r). catch_up fuel food target (others during) m r)
        | false ↦ done (l, redraw)
      ])
      e

pub catch_up-next :
    (fuel food target : ℕ) (during : List (List Interrupt)) (l : Loop) (redraw : Bool)
    → less l.now target ≡ true
    → catch_up (suc fuel) food target during l redraw
      ≡ and_then
          (beat food (deliver (first during) l) redraw)
          (λ (m, r). catch_up fuel food target (others during) m r)
unfolding catch_up
catch_up-next fuel food target during l redraw e =
    ap
      (λ b. elim b as (λ c. Outcome (Loop × Bool)) [
        | true ↦
            and_then (beat food (deliver (first during) l) redraw)
              (λ (m, r). catch_up fuel food target (others during) m r)
        | false ↦ done (l, redraw)
      ])
      e

-- A round of the loop, up to the result of the snake's turn.
pub record Beaten (l : Loop) (g : Game) (m : Loop) : Type 0 where
  pub now : m.now ≡ l.now + 1
  pub tick : m.tick ≡ l.tick
  pub game : m.game ≡ g
  pub vbuf : m.vbuf ≡ l.vbuf
  pub key_bits : m.keys.key_code < 2 ^ 32
  pub rate_bits : m.real_fps < 2 ^ 32

pub beat-Beaten :
    (l : Loop) (g : Game)
    → l.now + 1 < 2 ^ 31
    → l.keys.key_code < 2 ^ 32
    → l.real_fps < 2 ^ 32
    → Beaten l g (next_now (count_fps (record l { game = g })))
beat-Beaten l g room bits rate =
    let d = count_fps-Delivered (record l { game = g }) bits rate in
    record {
      now = omega (arith, d.same_now);
      tick = omega (arith, d.ticked);
      game = d.same_game;
      vbuf = d.same_vbuf;
      key_bits = d.key_bits;
      rate_bits = d.rate_bits;
    }

-- The turn of the snake at one tick.
pub snake_turn-Fit :
    (food now : ℕ) (g : Game)
    → now < 2 ^ 31
    → Fit now g
    → OrSpin (Fit (suc now)) (snake_turn food now g)
snake_turn-Fit food now g room f = at_turn (every 333 now)
  where
    at_turn : (b : Bool) → OrSpin (Fit (suc now)) (if b then update_snake_pos food g else done g)
    at_turn true = update_snake_pos-Fit food now g f
    at_turn false =
        inr
          (g, refl, record { heading = f.heading; drawn = f.drawn; short = omega (arith, f.short) })

-- `play` takes the same turn.
pub play-next :
    (food n i tick : ℕ) (during : List (List Interrupt)) (g : Game)
    → i < 2 ^ 31
    → play food (suc n) i tick during g
      ≡ and_then
          (snake_turn food i (srand (tick + timers (first during)) g))
          (play food n (suc i) (tick + timers (first during)) (others during))
unfolding play
play-next food n i tick during g room =
    ap
      (λ b.
        and_then
          (if b
            then update_snake_pos food (srand (tick + timers (first during)) g)
            else done (srand (tick + timers (first during)) g))
          (play food n (suc i) (tick + timers (first during)) (others during)))
      (sym (every-rem 333 i room))

-- The flag after a tick.
due_next :
    (k i n : ℕ) (redraw r flag : Bool)
    → r ≡ redraw || (i % k == 0)
    → (flag ≡ true) ↔ ((r ≡ true) ⊎ Due k (suc i) n)
    → (flag ≡ true) ↔ ((redraw ≡ true) ⊎ Due k i (suc n))
due_next k i n redraw r flag e (to, from) = (
  (λ on. elim (to on) [
    | inl set ↦ elim (or_true redraw (i % k == 0) (sym e ∙ set)) [
      | inl old ↦ inl old
      | inr now ↦ inr (i, omega arith, omega arith, ==→eq (i % k) 0 now)
    ]
    | inr (j, low, high, rem) ↦ inr (j, omega arith, omega arith, rem)
  ]),
  (λ o. elim o [
    | inl old ↦ from (inl (e ∙ ap (λ b. b || (i % k == 0)) old))
    | inr (j, low, high, rem) ↦ elim (ℕ_discrete i j) [
      | yes same ↦
          from
            (inl (e ∙ true_or redraw (i % k == 0) (eq→== (i % k) 0 (ap (λ a. a % k) same ∙ rem))))
      | no ne ↦ from (inr (j, omega arith, omega arith, rem))
    ]
  ]),
)
  where
    or_true : (a b : Bool) → a || b ≡ true → (a ≡ true) ⊎ (b ≡ true)
    or_true true b h = inl refl
    or_true false b h = inr h

    true_or : (a b : Bool) → b ≡ true → a || b ≡ true
    true_or true b h = refl
    true_or false b h = h

-- A round after the interrupts takes the turn of the game before them, at their time.
pub beat-turn :
    (food n : ℕ) (l m : Loop) (redraw : Bool)
    → Delivered n l m
    → beat food m redraw
      ≡ and_then
          (snake_turn food l.now (srand (l.tick + n) l.game))
          (λ g. done (next_now (count_fps (record m { game = g })), redraw || every 33 m.now))
unfolding beat
beat-turn food n l m redraw d =
    ap
      (λ turn.
        and_then turn
          (λ g. done (next_now (count_fps (record m { game = g })), redraw || every 33 m.now)))
      (ap (λ i. snake_turn food i (srand m.tick m.game)) d.same_now
        ∙ ap (λ t. snake_turn food l.now (srand t m.game)) d.ticked
        ∙ ap (λ g. snake_turn food l.now (srand (l.tick + n) g)) d.same_game)

pub srand-Fit : (now s : ℕ) (g : Game) → Fit now g → Fit now (srand s g)
srand-Fit now s g f = record { heading = f.heading; drawn = f.drawn; short = f.short }

-- What the rest of the loop comes to, seen from the begin of a tick.
pub Caught-next :
    (n : ℕ) (during : List (List Interrupt)) (l m1 : Loop) (redraw r : Bool) (m : Loop)
    (flag : Bool)
    → m1.now ≡ suc l.now
    → m1.tick ≡ l.tick + timers (first during)
    → m1.vbuf ≡ l.vbuf
    → r ≡ redraw || (l.now % 33 == 0)
    → Caught n (others during) m1 r m flag
    → Caught (suc n) during l redraw m flag
unfolding timers_of
Caught-next n during l m1 redraw r m flag now tick vbuf e c = record {
  caught = omega (arith, c.caught);
  ticked = omega (arith, c.ticked);
  flagged =
      due_next 33 l.now n redraw r flag e
        (subst (λ i. (flag ≡ true) ↔ ((r ≡ true) ⊎ Due 33 i n)) now c.flagged);
  same_vbuf = c.same_vbuf ∙ vbuf;
  valid = c.valid;
}
