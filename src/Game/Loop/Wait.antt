-- ===== src/Game/Loop/Wait.antt =====
-- The wait for the space bar in `main_loop` of game/game.c.
use oslab.Base.{
  ℕ, ◌+◌, ◌%◌, ◌^◌, ◌≤◌, ◌<◌, ◌≡◌, ◌⊎◌, refl, sym, ap, ◌∙◌, inl, inr, true, false, Bool-cases, List,
  [], ◌∷◌, arith,
}
use mathlib.Core.Path.{subst}
use oslab.Game.Effect.{Game, done, spin}
use oslab.Game.Keyboard.{Keyboard, keyboard_event, set_pressed, release_key, query_blank}
use oslab.Game.Loop.{Interrupt, timer, key, Loop, handle, deliver, wait_blank}
use oslab.Game.Loop.Fit.{Fit}
use oslab.Game.Loop.Clock.{Valid}
use oslab.Game.Loop.Turn.{all_timers, deliver-Valid}

-- The keyboard after interrupts.
abbrev pub keys_after : List Interrupt → Keyboard → Keyboard
keys_after [] k = k
keys_after (timer ∷ is) k = keys_after is k
keys_after (key code val ∷ is) k = keys_after is (keyboard_event (code % 2 ^ 8) val k).0

-- The space bar, key 30, is up whenever the loop looks.
abbrev pub NotPressed : List (List Interrupt) → Keyboard → Type 0
NotPressed [] k = Unit
NotPressed (is ∷ rest) k =
    ((keys_after is k).letter_pressed 30 ≡ false) × NotPressed rest (keys_after is k)

deliver-keys : (is : List Interrupt) (l : Loop) → (deliver is l).keys ≡ keys_after is l.keys
unfolding deliver handle
deliver-keys [] l = refl
deliver-keys (timer ∷ is) l = deliver-keys is _
deliver-keys (key code val ∷ is) l = deliver-keys is _

-- The look that finds the bar pressed, and one that does not.
wait_blank-pressed :
    (is : List Interrupt) (rest : List (List Interrupt)) (l : Loop)
    → (deliver is l).keys.letter_pressed 30 ≡ true
    → (k : Keyboard) × (wait_blank (is ∷ rest) l
        ≡ done (record (deliver is l) { now = (deliver is l).tick; keys = k }))
      × (k.key_code ≡ (deliver is l).keys.key_code)
unfolding wait_blank query_blank release_key
wait_blank-pressed is rest l on =
    let keys = (deliver is l).keys in
    (record keys { letter_pressed = set_pressed keys.letter_pressed 30 false }, rw on refl, refl)

wait_blank-up :
    (is : List Interrupt) (rest : List (List Interrupt)) (l : Loop)
    → (deliver is l).keys.letter_pressed 30 ≡ false
    → wait_blank (is ∷ rest) l ≡ wait_blank rest (deliver is l)
unfolding wait_blank query_blank release_key
wait_blank-up is rest l off = rw off refl

wait_blank-nil : (l : Loop) → wait_blank [] l ≡ spin
unfolding wait_blank
wait_blank-nil l = refl

Fit-later : (m n : ℕ) (g : Game) → m ≤ n → Fit m g → Fit n g
Fit-later m n g h f = record {
  heading = f.heading;
  drawn = f.drawn;
  short = omega (arith, f.short);
}

-- The state after the wait: the same game, and no tick to catch up with.
pub record Waited (l m : Loop) (bound : ℕ) : Type 0 where
  pub valid : Valid m
  pub even : m.now ≡ m.tick
  pub clock : m.tick ≤ bound
  pub same_game : m.game ≡ l.game

pressed-Waited :
    (l d : Loop) (k : Keyboard) (bound : ℕ)
    → Valid d
    → d.now ≤ d.tick
    → d.tick ≤ bound
    → d.game ≡ l.game
    → k.key_code ≡ d.keys.key_code
    → Waited l (record d { now = d.tick; keys = k }) bound
pressed-Waited l d k bound v early room game code = record {
  valid = record {
    key_bits = omega (arith, v.key_bits);
    rate_bits = v.rate_bits;
    fit = Fit-later d.now d.tick d.game early v.fit;
  };
  even = refl;
  clock = room;
  same_game = game;
}

true-ne-false : ¬ (true ≡ false)
true-ne-false e = cc

-- The wait goes on as long as the space bar is up at every look, and else it ends.
pub wait_blank-Waited :
    (waiting : List (List Interrupt)) (l : Loop)
    → Valid l
    → l.now ≡ 0
    → l.tick + all_timers waiting < 2 ^ 31
    → (NotPressed waiting l.keys × (wait_blank waiting l ≡ spin))
      ⊎ ((¬ NotPressed waiting l.keys)
          × ((m : Loop) × (wait_blank waiting l ≡ done m)
              × Waited l m (l.tick + all_timers waiting)))
unfolding all_timers
wait_blank-Waited [] l v zero_now room = inl (tt, wait_blank-nil l)
wait_blank-Waited (is ∷ rest) l v zero_now room =
    let (d, dv) = deliver-Valid is l v (omega arith) in
    let keys = deliver-keys is l in
    elim (Bool-cases ((deliver is l).keys.letter_pressed 30)) [
      | inl on ↦
          let (k, run, code) = wait_blank-pressed is rest l on in
          inr (
            (λ (off, later).
                true-ne-false (sym on ∙ ap (λ (h : Keyboard). h.letter_pressed 30) keys ∙ off)),
            (
              record (deliver is l) { now = (deliver is l).tick; keys = k },
              run,
              pressed-Waited l (deliver is l) k _ dv (omega (arith, d.same_now))
                  (omega (arith, d.ticked)) d.same_game code,
            ),
          )
      | inr off ↦
          let up : (keys_after is l.keys).letter_pressed 30 ≡ false =
            ap (λ (h : Keyboard). h.letter_pressed 30) (sym keys) ∙ off in
          elim (wait_blank-Waited rest (deliver is l) dv (omega (arith, d.same_now))
            (omega (arith, d.ticked))) [
              | inl (none, stuck) ↦
                  inl ((up, subst (NotPressed rest) keys none), wait_blank-up is rest l off ∙ stuck)
              | inr (some, (m, run, w)) ↦ inr (
                (λ (first, later). some (subst (NotPressed rest) (sym keys) later)),
                (
                  m,
                  wait_blank-up is rest l off ∙ run,
                  record {
                    valid = w.valid;
                    even = w.even;
                    clock = omega (arith, w.clock, d.ticked);
                    same_game = w.same_game ∙ d.same_game;
                  },
                ),
              )
            ]
    ]
