-- ===== src/Game/Loop/Turn.antt =====
-- A round of `main_loop` in game/game.c up to its inner loop.
use oslab.Base.{
  ℕ, zero, suc, ◌+◌, ◌-◌, ◌^◌, ◌≤◌, ◌<◌, ◌≡◌, ◌⊎◌, refl, sym, ap, ◌∙◌, inl, inr, true, List, [],
  ◌∷◌, eq→==, ne→==, arith,
}
use native.Mathlib.Decide.{ℕ_discrete}
use mathlib.Core.Path.{subst}
use oslab.Game.Effect.{Game, Node, done, spin, set_node, rownum, colnum}
use oslab.Game.Keys.{update_keypress-lt_four}
use oslab.Game.Shown.{Shows}
use oslab.Game.Loop.{Interrupt, Loop, Arrivals, Status, running, over, deliver, read_keys}
use oslab.Game.Loop.Fit.{Fit, Marked}
use oslab.Game.Loop.Clock.{timers, Valid, Delivered, deliver-Delivered}
use oslab.Game.Loop.Play.{timers_of, play, Due}

-- All clock interrupts of some lists, and of a round.
unfoldable pub all_timers : List (List Interrupt) → ℕ
all_timers [] = 0
all_timers (is ∷ rest) = timers is + all_timers rest

abbrev pub ticks : Arrivals → ℕ
ticks a = timers a.at_halt + timers a.before_keys + all_timers a.during + timers a.before_draw

pub timers_of-all_timers :
    (n : ℕ) (during : List (List Interrupt)) → timers_of n during ≤ all_timers during
unfolding timers_of all_timers timers
timers_of-all_timers zero during = omega arith
timers_of-all_timers (suc n) [] = let rest = timers_of-all_timers n [] in omega arith
timers_of-all_timers (suc n) (is ∷ during) = let rest = timers_of-all_timers n during in omega arith

-- Every block of the board has the color of its cell.
abbrev pub Shown : Loop → Type 0
Shown l = (r c : ℕ) → r < rownum → c < colnum → Shows l.game.gamepool l.vbuf r c

-- The game with another direction of its head.
abbrev pub turned_game : Game → ℕ → Game
turned_game g direction = record g {
  body = set_node g.body 0 (record (g.body 0) { direction = direction });
}

-- For some direction of the head, the game alone searches for a place for food longer than allowed
-- in the ticks of the round.
abbrev pub Starves : (food : ℕ) (a : Arrivals) (l : Loop) → Type 0
Starves food a l =
    (direction : ℕ) × (play food (l.tick + timers a.at_halt - l.now) l.now
        (l.tick + timers a.at_halt + timers a.before_keys) a.during (turned_game l.game direction)
      ≡ spin)

-- What a round leaves: the loop has caught up with the clock of its begin and, if a multiple of 33 was
-- among the ticks, drawn the board; or the game is over.
pub data After (l : Loop) (a : Arrivals) : Status → Type 0 where
  plays :
      (m : Loop)
      → Valid m
      → m.now ≡ l.tick + timers a.at_halt
      → m.now ≤ m.tick
      → m.tick ≤ l.tick + ticks a
      → (Due 33 l.now (m.now - l.now) → Shown m)
      → After l a (running m)
  ends : (m : Loop) → m.game.ggflag ≡ true → After l a (over m)

pub deliver-Valid :
    (is : List Interrupt) (l : Loop)
    → Valid l
    → l.tick + timers is < 2 ^ 32
    → Delivered (timers is) l (deliver is l) × Valid (deliver is l)
deliver-Valid is l v room =
    let d = deliver-Delivered is l v.key_bits v.rate_bits room in
    (
      d,
      record {
        key_bits = d.key_bits;
        rate_bits = d.rate_bits;
        fit =
            subst (λ n. Fit n (deliver is l).game) (sym d.same_now)
              (subst (Fit l.now) (sym d.same_game) v.fit);
      },
    )

-- A turn of the head moves no node.
turned_body : (ℕ → Node) → ℕ → ℕ → Node
turned_body body direction = set_node body 0 (record (body 0) { direction = direction })

turned_body-place :
    (body : ℕ → Node) (direction k : ℕ)
    → ((turned_body body direction k).y ≡ (body k).y)
      × ((turned_body body direction k).x ≡ (body k).x)
unfolding turned_body
turned_body-place body direction k = elim (ℕ_discrete k 0) [
  | yes e ↦ (
    rw (eq→== k 0 e) (ap (λ j. (body j).y) (sym e)),
    rw (eq→== k 0 e) (ap (λ j. (body j).x) (sym e)),
  )
  | no ne ↦ (rw (ne→== k 0 ne) refl, rw (ne→== k 0 ne) refl)
]

turned-drawn :
    (g : Game) (direction : ℕ)
    → (g.ggflag ≡ true) ⊎ Marked g
    → (g.ggflag ≡ true) ⊎ Marked (record g { body = turned_body g.body direction })
turned-drawn g direction (inl on) = inl on
turned-drawn g direction (inr marked) = inr (λ y x high wide on.
    let (k, low, up, (p, q)) = marked y x high wide on in
    let (same_y, same_x) = turned_body-place g.body direction k in
    (k, low, up, (p ∙ sym same_y, q ∙ sym same_x)))

-- Reading the keys changes the direction and the keys alone.
pub read_keys-Valid :
    (l : Loop)
    → Valid l
    → (m : Loop) × (read_keys l ≡ done m)
      × (m.tick ≡ l.tick)
      × (m.now ≡ l.now)
      × ((direction : ℕ) × (m.game ≡ turned_game l.game direction))
      × Valid m
unfolding read_keys turned_body
read_keys-Valid l v =
    let (turned, keys, run, four, code) =
      update_keypress-lt_four (l.game.body 0).direction l.keys v.fit.heading in
    (
      record l { game = turned_game l.game turned; keys = keys },
      rw run refl,
      refl,
      refl,
      (turned, refl),
      record {
        key_bits = omega (arith, code, v.key_bits);
        rate_bits = v.rate_bits;
        fit = record {
          heading = four;
          drawn = turned-drawn l.game turned v.fit.drawn;
          short = v.fit.short;
        };
      },
    )
