-- ===== src/Game/Keys.antt =====
-- What a key press and a round of `update_keypress` do, from game/keyboard.c and game/effect.c.
use oslab.Base.{
  ℕ, zero, suc, ◌+◌, ◌≤◌, ◌<◌, Bool, true, false, ◌≡◌, ◌≢◌, ◌↔◌, ◌⊎◌, inr, refl, sym, ◌∙◌, ◌==◌,
  if◌then◌else◌, get_or, arith,
}
use native.Mathlib.Decide.{ℕ_discrete}
use mathlib.Core.Path.{subst}
use oslab.Game.Effect.{done, dirl, dirr, diru, dird}
use oslab.Game.Keyboard.{
  Keyboard, letter_code, num_keys, set_pressed, press_loop, press_key, release_key, query_blank,
  query_direkey, turn, keypress_loop, update_keypress,
}

abbrev flagged : (scan_code i : ℕ) → (ℕ → Bool) → ℕ → Bool
flagged scan_code i pressed =
    if get_or letter_code i 0 == scan_code then set_pressed pressed i true else pressed

flagged_self :
    (scan_code i : ℕ) (pressed : ℕ → Bool)
    → (flagged scan_code i pressed i ≡ true)
      ↔ ((pressed i ≡ true) ⊎ (get_or letter_code i 0 ≡ scan_code))
flagged_self scan_code i pressed = ground arith

flagged-ne :
    (scan_code i : ℕ) (pressed : ℕ → Bool) (j : ℕ)
    → j ≢ i
    → flagged scan_code i pressed j ≡ pressed j
flagged-ne scan_code i pressed j ne = ground arith

-- Three results of one direction key after another.
abbrev steer : (l r u d : Bool) (direction : ℕ) → ℕ
steer l r u d direction =
    let a = if l then turn 0 direction else direction in
    let b = if r then turn 1 a else a in
    let c = if u then turn 2 b else b in if d then turn 3 c else c

-- The keyboard with the four arrow keys released.
abbrev released : Keyboard → Keyboard
released k = record k {
  letter_pressed = λ j.
      if j == 29
      then false
      else if j == 28
      then false
      else if j == 27
      then false
      else if j == 26
      then false
      else k.letter_pressed j;
}

update_keypress-lem :
    (direction : ℕ) (k : Keyboard)
    → update_keypress direction k
      ≡ done (
        steer
            (k.letter_pressed 26)
            (k.letter_pressed 27)
            (k.letter_pressed 28)
            (k.letter_pressed 29)
            direction,
        released k,
      )
unfolding update_keypress keypress_loop query_direkey release_key
update_keypress-lem direction k = refl

steer-lt_four : (l r u d : Bool) (direction : ℕ) → direction < 4 → steer l r u d direction < 4
steer-lt_four l r u d direction h = ground arith

-- A direction stays one of the four, and the last key code is not touched.
pub update_keypress-lt_four :
    (direction : ℕ) (k : Keyboard)
    → direction < 4
    → (turned : ℕ) × (h : Keyboard) × (update_keypress direction k ≡ done (turned, h))
      × (turned < 4)
      × (h.key_code ≡ k.key_code)
update_keypress-lt_four direction k h = (
  _,
  released k,
  update_keypress-lem direction k,
  steer-lt_four (k.letter_pressed 26) (k.letter_pressed 27) (k.letter_pressed 28)
      (k.letter_pressed 29) direction h,
  refl,
)

abbrev pub Reverses : (direction turned : ℕ) → Type 0
Reverses direction turned =
    ((direction ≡ dirl) × (turned ≡ dirr))
    ⊎ (((direction ≡ dirr) × (turned ≡ dirl))
        ⊎ (((direction ≡ diru) × (turned ≡ dird)) ⊎ ((direction ≡ dird) × (turned ≡ diru))))

-- A turn by two keys: one to the side and then the one against the old direction.
abbrev pub TwoKeys : (direction : ℕ) (l r u d : Bool) → Type 0
TwoKeys direction l r u d =
    ((l ≡ true) ⊎ (r ≡ true))
    × (((direction ≡ diru) × (u ≡ false) × (d ≡ true)) ⊎ ((direction ≡ dird) × (u ≡ true)))

steer-Reverses :
    (l r u d : Bool) (direction : ℕ)
    → Reverses direction (steer l r u d direction) ↔ TwoKeys direction l r u d
steer-Reverses l r u d direction = ground arith

-- `update_keypress` ends. The arrow keys are released and the other keys are as they were; the snake
-- turns back into itself exactly if a key to the side and then the one against its direction were
-- both pressed, which the order of the keys allows for the two vertical directions.
pub update_keypress-Reverses :
    (direction : ℕ) (k : Keyboard)
    → (turned : ℕ) × (h : Keyboard) × (update_keypress direction k ≡ done (turned, h))
      × ((i : ℕ) → i < 4 → h.letter_pressed (26 + i) ≡ false)
      × ((i : ℕ) → (i < 26) ⊎ (30 ≤ i) → h.letter_pressed i ≡ k.letter_pressed i)
      × (Reverses direction turned
          ↔ TwoKeys direction
              (k.letter_pressed 26)
              (k.letter_pressed 27)
              (k.letter_pressed 28)
              (k.letter_pressed 29))
update_keypress-Reverses direction k = (
  _,
  released k,
  update_keypress-lem direction k,
  (λ i h. ground arith),
  (λ i h. ground arith),
  steer-Reverses (k.letter_pressed 26) (k.letter_pressed 27) (k.letter_pressed 28)
      (k.letter_pressed 29) direction,
)

press_loop-before :
    (left i scan_code : ℕ) (pressed : ℕ → Bool) (j : ℕ)
    → j < i
    → press_loop left i scan_code pressed j ≡ pressed j
unfolding press_loop
press_loop-before zero i scan_code pressed j h = refl
press_loop-before (suc left) i scan_code pressed j h =
    press_loop-before left (suc i) scan_code (flagged scan_code i pressed) j (omega arith)
    ∙ flagged-ne scan_code i pressed j (omega arith)

press_loop-pressed :
    (left i scan_code : ℕ) (pressed : ℕ → Bool) (j : ℕ)
    → i ≤ j
    → j < i + left
    → (press_loop left i scan_code pressed j ≡ true)
      ↔ ((pressed j ≡ true) ⊎ (get_or letter_code j 0 ≡ scan_code))
unfolding press_loop
press_loop-pressed zero i scan_code pressed j low high = absurd (omega arith)
press_loop-pressed (suc left) i scan_code pressed j low high =
    let next = flagged scan_code i pressed in
    elim (ℕ_discrete j i) [
      | yes e ↦
          let same = press_loop-before left (suc i) scan_code next j (omega arith) in
          let at : (next j ≡ true) ↔ ((pressed j ≡ true) ⊎ (get_or letter_code j 0 ≡ scan_code)) =
            subst
              (λ n. (next n ≡ true) ↔ ((pressed n ≡ true) ⊎ (get_or letter_code n 0 ≡ scan_code)))
              (sym e) (flagged_self scan_code i pressed) in
          ((λ p. at.0 (sym same ∙ p)), (λ p. same ∙ at.1 p))
      | no ne ↦
          subst
            (λ b.
              (press_loop left (suc i) scan_code next j ≡ true)
              ↔ ((b ≡ true) ⊎ (get_or letter_code j 0 ≡ scan_code)))
            (flagged-ne scan_code i pressed j ne)
            (press_loop-pressed left (suc i) scan_code next j (omega arith) (omega arith))
    ]

-- After `press_key` a key of the table is pressed exactly if it was, or if the scan code is its own.
pub press_key-pressed :
    (scan_code : ℕ) (k : Keyboard) (i : ℕ)
    → i < num_keys
    → ((press_key scan_code k).letter_pressed i ≡ true)
      ↔ ((k.letter_pressed i ≡ true) ⊎ (get_or letter_code i 0 ≡ scan_code))
unfolding press_key
press_key-pressed scan_code k i h =
    press_loop-pressed num_keys 0 scan_code k.letter_pressed i (omega arith) (omega arith)

-- The space bar is seen once: after its scan code the first `query_blank` says so and releases it, and
-- the next does not.
pub query_blank-press_key :
    (k : Keyboard)
    → (h : Keyboard) × (query_blank (press_key 57 k) ≡ done (true, h))
      × (query_blank h ≡ done (false, h))
unfolding query_blank release_key
query_blank-press_key k =
    let on : (press_key 57 k).letter_pressed 30 ≡ true =
      (press_key-pressed 57 k 30 (omega arith)).1 (inr refl) in
    let h : Keyboard = record (press_key 57 k) {
      letter_pressed = set_pressed (press_key 57 k).letter_pressed 30 false;
    } in
    (h, rw on refl, refl)
