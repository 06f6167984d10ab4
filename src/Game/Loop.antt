-- ===== src/Game/Loop.antt =====
-- The main loop of game/game.c. HZ / UPDATERATE, HZ / FPS and HZ / 2 are 333, 33 and 500. An `int` is
-- kept as its 32 bits. The interrupts that arrive are given: lists for the places where they are
-- enabled. `update_keypress` runs with interrupts off, and the parts of a round of the inner loop do
-- not read what an interrupt changes, but for the `tick` at its begin, so those of one round are taken
-- at that place.
pub mod Heading
pub mod Fit
pub mod Stepped
pub mod Clock
pub mod Play
pub mod Tick
pub mod CatchUp
pub mod Turn
pub mod Draw
pub mod Round
pub mod Wait
pub mod Rounds
pub mod Safe
mod Tests
use oslab.Base.{
  ℕ, zero, suc, ◌+◌, ◌-◌, ◌*◌, ◌%◌, ◌^◌, Bool, true, false, List, [], ◌∷◌, ltb, ◌==◌, ◌||◌,
  if◌then◌else◌,
}
use oslab.Game.Effect.{Game, Node, Outcome, done, abort, spin, and_then, set_node, update_snake_pos}
use oslab.Game.Keyboard.{Keyboard, keyboard_event, update_keypress, query_blank}
use oslab.Game.Video.{Frame}
use oslab.Game.Screen.{redraw_screen, show_logo, draw_gg}

pub data Interrupt : Type 0 where
  timer : Interrupt
  key : (code val : ℕ) → Interrupt

-- The statics of game/game.c, the locals of `main_loop`, and what the other files keep.
pub record Loop : Type 0 where
  pub tick : ℕ
  pub now : ℕ
  pub num_draw : ℕ
  pub real_fps : ℕ
  pub game : Game
  pub keys : Keyboard
  pub vbuf : Frame

abbrev pub fps : ℕ
fps = 30

-- `timer_event` and `keyboard_event`, the second with the byte that it reads.
unfoldable pub handle : Interrupt → Loop → Loop
handle timer l = record l { tick = (l.tick + 1) % 2 ^ 32 }
handle (key code val) l = record l { keys = (keyboard_event (code % 2 ^ 8) val l.keys).0 }

unfoldable pub deliver : List Interrupt → Loop → Loop
deliver [] l = l
deliver (i ∷ is) l = deliver is (handle i l)

-- `a < b` of two `int`s, and `a % n == 0`.
abbrev pub less : (a b : ℕ) → Bool
less a b = ltb ((a + 2 ^ 31) % 2 ^ 32) ((b + 2 ^ 31) % 2 ^ 32)

abbrev pub every : (n a : ℕ) → Bool
every n a = if ltb a (2 ^ 31) then a % n == 0 else (2 ^ 32 - a) % n == 0

abbrev pub set_fps : ℕ → Loop → Loop
set_fps value l = record l { real_fps = value }

-- The statistics: twice the number of drawings and one, at most `fps`.
abbrev pub now_fps : (num_draw : ℕ) → ℕ
now_fps num_draw =
    if less fps ((num_draw * 2 + 1) % 2 ^ 32) then fps else (num_draw * 2 + 1) % 2 ^ 32

-- The last two statements of a round.
abbrev pub count_fps : Loop → Loop
count_fps l =
    if every 500 l.now then record (set_fps (now_fps l.num_draw) l) { num_draw = 0 } else l

abbrev pub next_now : Loop → Loop
next_now l = record l { now = (l.now + 1) % 2 ^ 32 }

-- `srand(tick)`
abbrev pub srand : ℕ → Game → Game
srand s g = record g { seed = s }

abbrev pub snake_turn : (food now : ℕ) → Game → Outcome Game
snake_turn food now g = if every 333 now then update_snake_pos food g else done g

-- A round of the inner loop; the flag is `redraw`.
unfoldable pub beat : (food : ℕ) → Loop → Bool → Outcome (Loop × Bool)
beat food l redraw =
    and_then (snake_turn food l.now (srand l.tick l.game))
      (λ g. done (next_now (count_fps (record l { game = g })), redraw || every 33 l.now))

-- The interrupts of the next round, and of those after it; none when the list is at its end.
abbrev pub first : List (List Interrupt) → List Interrupt
first [] = []
first (is ∷ rest) = is

abbrev pub others : List (List Interrupt) → List (List Interrupt)
others [] = []
others (is ∷ rest) = rest

-- The inner loop; out of fuel it is `spin`.
unfoldable pub catch_up :
    (fuel food target : ℕ) (during : List (List Interrupt)) → Loop → Bool → Outcome (Loop × Bool)
catch_up zero food target during l redraw = if less l.now target then spin else done (l, redraw)
catch_up (suc fuel) food target during l redraw = elim (less l.now target) [
  | true ↦
      and_then (beat food (deliver (first during) l) redraw)
        (λ (m, r). catch_up fuel food target (others during) m r)
  | false ↦ done (l, redraw)
]

-- The interrupts of one round of the outer loop: at the halt, before the keys are read, in the inner
-- loop and before the drawing.
pub record Arrivals : Type 0 where
  pub at_halt : List Interrupt
  pub before_keys : List Interrupt
  pub during : List (List Interrupt)
  pub before_draw : List Interrupt

-- `break` or another round.
pub data Status : Type 0 where
  running over : Loop → Status

-- `while (update_keypress());`, whose result is always false.
unfoldable pub read_keys : Loop → Outcome Loop
read_keys l = and_then (update_keypress (l.game.body 0).direction l.keys) (λ (direction, keys).
    done (record l {
      game = record l.game {
        body = set_node l.game.body 0 (record (l.game.body 0) { direction = direction });
      };
      keys = keys;
    }))

-- From `if(get_ggflag())break;` on.
unfoldable pub draw : Loop → Bool → Outcome Status
draw l redraw =
    if l.game.ggflag
    then done (over l)
    else if redraw
    then and_then (redraw_screen l.keys.key_code l.real_fps l.game l.vbuf)
        (λ vbuf. done (running (record l { num_draw = (l.num_draw + 1) % 2 ^ 32; vbuf = vbuf })))
    else done (running l)

-- From `target = tick;` on.
unfoldable pub busy : (fuel food : ℕ) → Arrivals → Loop → Outcome Status
busy fuel food a l = and_then (read_keys (deliver a.before_keys l)) (λ m.
    and_then (catch_up fuel food l.tick a.during m false)
      (λ (n, redraw). draw (deliver a.before_draw n) redraw))

-- A round of the outer loop.
unfoldable pub round : (fuel food : ℕ) → Arrivals → Loop → Outcome Status
round fuel food a l =
    let woken = deliver a.at_halt l in
    if woken.now == woken.tick
    then done (running woken)
    else if less woken.now woken.tick
    then busy fuel food a woken
    else abort

-- The rounds for given interrupts, each with the fuel for as many ticks as it can find.
unfoldable pub rounds : (fuel food : ℕ) → List Arrivals → Loop → Outcome Status
rounds fuel food [] l = done (running l)
rounds fuel food (a ∷ rest) l =
    and_then (round fuel food a l)
      (λ s. elim s [ running m ↦ rounds fuel food rest m | over m ↦ done (over m) ])

-- `while(!query_blank()); now=tick;`, with the interrupts before each call.
unfoldable pub wait_blank : List (List Interrupt) → Loop → Outcome Loop
wait_blank [] l = spin
wait_blank (is ∷ rest) l =
    let m = deliver is l in
    and_then (query_blank m.keys) (λ (pressed, keys). elim pressed [
      | true ↦ done (record m { now = m.tick; keys = keys })
      | false ↦ wait_blank rest (record m { keys = keys })
    ])

-- The picture at the end; a run that is not over has none yet.
abbrev pub finish : Status → Outcome Status
finish (running l) = done (running l)
finish (over l) = and_then (draw_gg l.vbuf) (λ vbuf. done (over (record l { vbuf = vbuf })))

unfoldable pub main_loop :
    (logo : ℕ → ℕ) (fuel food : ℕ) (waiting : List (List Interrupt)) (arrivals : List Arrivals)
    → Loop
    → Outcome Status
main_loop logo fuel food waiting arrivals l = and_then (show_logo logo l.vbuf) (λ vbuf.
    and_then (wait_blank waiting (record l { now = 0; num_draw = 0; vbuf = vbuf }))
      (λ m. and_then (rounds fuel food arrivals m) finish))
