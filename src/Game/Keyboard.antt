-- ===== src/Game/Keyboard.antt =====
-- Keys, from game/keyboard.c, and what the game makes of the arrow keys, `update_keypress` of
-- game/effect.c. `letter_pressed` is a function of the index, and a pressed key stays so until it is
-- released.
use Prim.Native.Nat.{bit_or}
use oslab.Base.{
  ℕ, zero, suc, ◌+◌, Bool, true, false, List, [], ◌∷◌, ltb, ◌==◌, if◌then◌else◌, get_or,
}
use oslab.Game.Effect.{Outcome, done, abort, and_then, dirl, dirr, diru, dird}

pub record Keyboard : Type 0 where
  pub letter_pressed : ℕ → Bool
  pub key_code : ℕ

-- The scan codes of a to z, the arrow keys and the space bar.
abbrev pub letter_code : List ℕ
letter_code =
    30 ∷ 48 ∷ 46 ∷ 32 ∷ 18 ∷ 33 ∷ 34 ∷ 35 ∷ 23 ∷ 36 ∷ 37 ∷ 38 ∷ 50 ∷ 49 ∷ 24 ∷ 25 ∷ 16 ∷ 19 ∷ 31
    ∷ 20 ∷ 22 ∷ 47 ∷ 17 ∷ 45 ∷ 21 ∷ 44 ∷ 75 ∷ 77 ∷ 72 ∷ 80 ∷ 57 ∷ []

abbrev pub num_keys : ℕ
num_keys = 31

-- `letter_pressed[i] = b`
abbrev pub set_pressed : (ℕ → Bool) → ℕ → Bool → ℕ → Bool
set_pressed pressed i b j = if j == i then b else pressed j

unfoldable pub press_loop : (left i scan_code : ℕ) → (ℕ → Bool) → ℕ → Bool
press_loop zero i scan_code pressed = pressed
press_loop (suc left) i scan_code pressed =
    press_loop left (suc i) scan_code
      (if get_or letter_code i 0 == scan_code then set_pressed pressed i true else pressed)

unfoldable pub press_key : (scan_code : ℕ) → Keyboard → Keyboard
press_key scan_code k = record k {
  letter_pressed = press_loop num_keys 0 scan_code k.letter_pressed;
}

unfoldable pub release_key : (index : ℕ) → Keyboard → Outcome Keyboard
release_key index k =
    if ltb index num_keys
    then done (record k { letter_pressed = set_pressed k.letter_pressed index false })
    else abort

unfoldable pub query_blank : Keyboard → Outcome (Bool × Keyboard)
query_blank k =
    if k.letter_pressed 30
    then and_then (release_key 30 k) (λ released. done (true, released))
    else done (false, k)

unfoldable pub query_key : (index : ℕ) → Keyboard → Outcome Bool
query_key index k = if ltb index 26 then done (k.letter_pressed index) else abort

unfoldable pub query_direkey : (index : ℕ) → Keyboard → Outcome Bool
query_direkey index k = if ltb index 4 then done (k.letter_pressed (index + 26)) else abort

-- The interrupt: the two bytes that it reads at ports 0x60 and 0x61 are given, and the writes to 0x61
-- are returned in order.
unfoldable pub keyboard_event : (code val : ℕ) → Keyboard → Keyboard × List (ℕ × ℕ)
keyboard_event code val k =
    (press_key code (record k { key_code = code }), (0x61, bit_or val 0x80) ∷ (0x61, val) ∷ [])

-- The `switch` for a pressed key `i`: the direction of the head after it.
abbrev pub turn : (i direction : ℕ) → ℕ
turn i direction =
    if i == dirl
    then (if direction == dirr then direction else i)
    else if i == dirr
    then (if direction == dirl then direction else i)
    else if i == diru
    then (if direction == dird then direction else i)
    else (if direction == diru then direction else i)

-- The rounds from key `i` on.
unfoldable pub keypress_loop : (left i direction : ℕ) → Keyboard → Outcome (ℕ × Keyboard)
keypress_loop zero i direction k = done (direction, k)
keypress_loop (suc left) i direction k = and_then (query_direkey i k) (λ pressed.
    and_then (release_key (26 + i) k) (λ released.
      keypress_loop left (suc i) (if pressed then turn i direction else direction) released))

unfoldable pub update_keypress : (direction : ℕ) → Keyboard → Outcome (ℕ × Keyboard)
update_keypress direction k = keypress_loop 4 0 direction k
