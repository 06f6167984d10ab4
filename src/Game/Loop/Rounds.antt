-- ===== src/Game/Loop/Rounds.antt =====
-- The rounds of `main_loop` in game/game.c, for any interrupts.
use oslab.Base.{
  ℕ, ◌+◌, ◌^◌, ◌≤◌, ◌<◌, ◌≡◌, ◌⊎◌, refl, ap, ◌∙◌, inl, inr, true, List, [], ◌∷◌, arith,
}
use oslab.Game.Effect.{Outcome, done, spin, and_then}
use oslab.Game.Loop.{Loop, Arrivals, Status, running, over, round, rounds}
use oslab.Game.Loop.Clock.{Valid}
use oslab.Game.Loop.Turn.{ticks, Starves, After, plays, ends}
use oslab.Game.Loop.Round.{round-After}

unfoldable pub all_ticks : List Arrivals → ℕ
all_ticks [] = 0
all_ticks (a ∷ rest) = ticks a + all_ticks rest

-- The loop can go on, or the game is over.
pub data Playing (bound : ℕ) : Status → Type 0 where
  plays_on : (m : Loop) → Valid m → m.now ≤ m.tick → m.tick ≤ bound → Playing bound (running m)
  has_ended : (m : Loop) → m.game.ggflag ≡ true → Playing bound (over m)

pub Playing-weaken : (m n : ℕ) (s : Status) → m ≤ n → Playing m s → Playing n s
Playing-weaken m n _ h (plays_on k kv still bound) = plays_on k kv still (omega arith)
Playing-weaken m n _ h (has_ended k on) = has_ended k on

-- What `rounds` does after a round.
following : (fuel food : ℕ) (rest : List Arrivals) → Status → Outcome Status
following fuel food rest s = elim s [ running m ↦ rounds fuel food rest m | over m ↦ done (over m) ]

-- The game alone, in the first of the rounds or in one after rounds that end, searches for a place for food
-- longer than its fuel allows.
pub data Starved (food : ℕ) : List Arrivals → Loop → Type 0 where
  starves_now :
      (a : Arrivals) (rest : List Arrivals) (l : Loop)
      → Starves food a l
      → Starved food (a ∷ rest) l
  starves_later :
      (a : Arrivals) (rest : List Arrivals) (l m : Loop)
      → After l a (running m)
      → Starved food rest m
      → Starved food (a ∷ rest) l

-- The rounds, each as `After` describes it, up to the last or to the end of the game.
pub data Ran : List Arrivals → Loop → Status → Type 0 where
  ran_all : (l : Loop) → Ran [] l (running l)
  ran_on :
      (a : Arrivals) (rest : List Arrivals) (l m : Loop) (s : Status)
      → After l a (running m)
      → Ran rest m s
      → Ran (a ∷ rest) l s
  ran_out :
      (a : Arrivals) (rest : List Arrivals) (l m : Loop)
      → After l a (over m)
      → Ran (a ∷ rest) l (over m)

-- Every round leaves what the next one needs.
pub rounds-Playing :
    (fuel food : ℕ) (arrivals : List Arrivals) (l : Loop)
    → Valid l
    → l.now ≤ l.tick
    → l.tick + all_ticks arrivals < 2 ^ 31
    → l.tick + all_ticks arrivals ≤ fuel
    → (Starved food arrivals l × (rounds fuel food arrivals l ≡ spin))
      ⊎ ((s : Status) × (rounds fuel food arrivals l ≡ done s)
          × Ran arrivals l s
          × Playing (l.tick + all_ticks arrivals) s)
unfolding rounds all_ticks following
rounds-Playing fuel food [] l v behind room enough =
    inr (running l, refl, ran_all l, plays_on l v behind (omega arith))
rounds-Playing fuel food (a ∷ rest) l v behind room enough =
    elim (round-After fuel food a l v behind (omega arith) (omega arith)) [
      | inl (starves, stuck) ↦
          inl (starves_now a rest l starves, ap (λ o. and_then o (following fuel food rest)) stuck)
      | inr (s, run, after) ↦
          go s after run (λ m mv later clock.
            rounds-Playing fuel food rest m mv later (omega arith) (omega arith))
    ]
  where
    Result : ℕ → List Arrivals → Loop → Outcome Status → Type 0
    Result bound arrived k o =
        (Starved food arrived k × (o ≡ spin))
        ⊎ ((s : Status) × (o ≡ done s) × Ran arrived k s × Playing bound s)

    go :
        (s : Status)
        → After l a s
        → round fuel food a l ≡ done s
        → ((m : Loop)
            → Valid m
            → m.now ≤ m.tick
            → m.tick ≤ l.tick + ticks a
            → Result (m.tick + all_ticks rest) rest m (rounds fuel food rest m))
        → Result
            (l.tick + (ticks a + all_ticks rest))
            (a ∷ rest)
            l
            (and_then (round fuel food a l) (following fuel food rest))
    go _ (ends m on) run again = inr (
      over m,
      ap (λ o. and_then o (following fuel food rest)) run,
      ran_out a rest l m (ends m on),
      has_ended m on,
    )
    go _ (plays m mv now later clock shown) run again = elim (again m mv later clock) [
      | inl (starved, stuck) ↦ inl (
        starves_later a rest l m (plays m mv now later clock shown) starved,
        ap (λ o. and_then o (following fuel food rest)) run ∙ stuck,
      )
      | inr (s, next, ran, p) ↦ inr (
        s,
        ap (λ o. and_then o (following fuel food rest)) run ∙ next,
        ran_on a rest l m s (plays m mv now later clock shown) ran,
        Playing-weaken (m.tick + all_ticks rest) (l.tick + (ticks a + all_ticks rest)) s
            (omega arith) p,
      )
    ]
