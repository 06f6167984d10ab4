-- ===== src/Abort/Tests.antt =====
-- A failed assertion of lib/abort.c.
use oslab.Base.{ℕ, ◌≤◌, ◌<◌, ◌≡◌, some, List, [], ◌∷◌, arith}
use oslab.Strings.{itoa, strlen}
use oslab.Game.Effect.{done}
use oslab.Game.Video.{Frame, pixel, draw_string, prepare_buffer, scr_width, scr_height}
use oslab.Abort.{fill_buffer, blue_screen}
use oslab.Abort.Message.{message, blue_screen-message}

-- "game.c"
abbrev file : List ℕ
file = 103 ∷ 97 ∷ 109 ∷ 101 ∷ 46 ∷ 99 ∷ []

file-short : strlen file ≤ 207
unfolding strlen
file-short = omega arith

blue_screen-message_example :
    (number : List ℕ) × (drawn shown : Frame) × (itoa 85 ≡ some number)
    × (draw_string (message file number) 0 0 15 (fill_buffer (prepare_buffer (λ i. 0)))
        ≡ done drawn)
    × (blue_screen file 85 (λ i. 0) (λ i. 9) ≡ done shown)
    × ((x y : ℕ) → x < scr_height → y < scr_width → shown (pixel x y) ≡ drawn (pixel x y))
    × ((x y : ℕ) → 56 ≤ x → x < scr_height → y < scr_width → shown (pixel x y) ≡ 1)
blue_screen-message_example =
    blue_screen-message file 85 (λ i. 0) (λ i. 9) (ground arith) file-short (omega arith)
