-- ===== src/Game/Loop/Clock.antt =====
-- What an interrupt and a round of the inner loop of game/game.c do to the clock.
use oslab.Base.{
  ℕ, ◌+◌, ◌*◌, ◌%◌, ◌^◌, ◌≤◌, ◌<◌, ◌≡◌, refl, Bool, true, false, List, [], ◌∷◌, ◌==◌, if◌then◌else◌,
  lt→ltb, le→ltb, arith,
}
use oslab.Game.Keyboard.{keyboard_event, press_key}
use oslab.Game.Loop.{
  Interrupt, timer, key, Loop, handle, deliver, less, every, now_fps, set_fps, count_fps, fps,
}
use oslab.Game.Loop.Fit.{Fit}

-- The clock interrupts of a list.
unfoldable pub timers : List Interrupt → ℕ
timers [] = 0
timers (timer ∷ rest) = timers rest + 1
timers (key code val ∷ rest) = timers rest

-- The values that are shown are `int`s, and the game is one that the next step can take.
pub record Valid (l : Loop) : Type 0 where
  pub key_bits : l.keys.key_code < 2 ^ 32
  pub rate_bits : l.real_fps < 2 ^ 32
  pub fit : Fit l.now l.game

-- Interrupts of which `n` are those of the clock change the clock and the keys alone.
pub record Delivered (n : ℕ) (l m : Loop) : Type 0 where
  pub ticked : m.tick ≡ l.tick + n
  pub same_now : m.now ≡ l.now
  pub same_game : m.game ≡ l.game
  pub same_vbuf : m.vbuf ≡ l.vbuf
  pub key_bits : m.keys.key_code < 2 ^ 32
  pub rate_bits : m.real_fps < 2 ^ 32

pub deliver-Delivered :
    (is : List Interrupt) (l : Loop)
    → l.keys.key_code < 2 ^ 32
    → l.real_fps < 2 ^ 32
    → l.tick + timers is < 2 ^ 32
    → Delivered (timers is) l (deliver is l)
unfolding deliver handle timers keyboard_event press_key
deliver-Delivered [] l bits rate room = record {
  ticked = omega arith;
  same_now = refl;
  same_game = refl;
  same_vbuf = refl;
  key_bits = bits;
  rate_bits = rate;
}
deliver-Delivered (timer ∷ rest) l bits rate room =
    let d =
      deliver-Delivered rest (record l { tick = (l.tick + 1) % 2 ^ 32 }) bits rate (omega arith) in
    record {
      ticked = omega (arith, d.ticked);
      same_now = d.same_now;
      same_game = d.same_game;
      same_vbuf = d.same_vbuf;
      key_bits = d.key_bits;
      rate_bits = d.rate_bits;
    }
deliver-Delivered (key code val ∷ rest) l bits rate room =
    let d = deliver-Delivered rest (handle (key code val) l) (omega arith) rate room in
    record {
      ticked = d.ticked;
      same_now = d.same_now;
      same_game = d.same_game;
      same_vbuf = d.same_vbuf;
      key_bits = d.key_bits;
      rate_bits = d.rate_bits;
    }

-- A clock below 2 ^ 31 is compared as it reads.
pub less-lt : (a b : ℕ) → a < 2 ^ 31 → b < 2 ^ 31 → a < b → less a b ≡ true
less-lt a b ha hb h = lt→ltb ((a + 2 ^ 31) % 2 ^ 32) ((b + 2 ^ 31) % 2 ^ 32) (omega arith)

pub less-le : (a b : ℕ) → a < 2 ^ 31 → b < 2 ^ 31 → b ≤ a → less a b ≡ false
less-le a b ha hb h = le→ltb ((a + 2 ^ 31) % 2 ^ 32) ((b + 2 ^ 31) % 2 ^ 32) (omega arith)

pub every-rem : (n a : ℕ) → a < 2 ^ 31 → every n a ≡ (a % n == 0)
every-rem n a h = rw (lt→ltb a (2 ^ 31) h) refl

now_fps-bits : (n : ℕ) → now_fps n < 2 ^ 32
now_fps-bits n = capped (less fps ((n * 2 + 1) % 2 ^ 32)) ((n * 2 + 1) % 2 ^ 32) (omega arith)
  where
    capped : (b : Bool) (v : ℕ) → v < 2 ^ 32 → (if b then fps else v) < 2 ^ 32
    capped true v h = omega arith
    capped false v h = h

-- The statistics change the rate and the number of drawings alone.
pub count_fps-Delivered :
    (l : Loop) → l.keys.key_code < 2 ^ 32 → l.real_fps < 2 ^ 32 → Delivered 0 l (count_fps l)
count_fps-Delivered l bits rate = at_half (every 500 l.now)
  where
    at_half :
        (b : Bool)
        → Delivered 0 l (if b then record (set_fps (now_fps l.num_draw) l) { num_draw = 0 } else l)
    at_half true = record {
      ticked = omega arith;
      same_now = refl;
      same_game = refl;
      same_vbuf = refl;
      key_bits = bits;
      rate_bits = now_fps-bits l.num_draw;
    }
    at_half false = record {
      ticked = omega arith;
      same_now = refl;
      same_game = refl;
      same_vbuf = refl;
      key_bits = bits;
      rate_bits = rate;
    }
