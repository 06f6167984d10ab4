-- ===== src/Abort.antt =====
-- Failed assertions, `append` and `blue_screen` of lib/abort.c. The buffer is the list of the characters in
-- front of `p`: behind them it is zero. `abort` calls `blue_screen` with interrupts off and stops.
pub mod Lines
pub mod Display
pub mod Message
mod Tests
use oslab.Base.{
  ℕ, zero, suc, ◌+◌, ◌*◌, Option, none, some, List, [], ◌∷◌, ◌++◌, ltb, ◌==◌, if◌then◌else◌,
}
use oslab.Strings.{itoa, strlen}
use oslab.Game.Effect.{Outcome, done, abort, and_then}
use oslab.Game.Video.{Frame, prepare_buffer, draw_string, scr_width, scr_height}
use oslab.Game.Screen.{written}

abbrev pub buffer_size : ℕ
buffer_size = 256

-- "Assertion failed: "
abbrev pub blue_screen_text : List ℕ
blue_screen_text =
    65 ∷ 115 ∷ 115 ∷ 101 ∷ 114 ∷ 116 ∷ 105 ∷ 111 ∷ 110 ∷ 32 ∷ 102 ∷ 97 ∷ 105 ∷ 108 ∷ 101 ∷ 100 ∷ 58
    ∷ 32 ∷ []

-- `none` is a write behind the buffer.
unfoldable pub append : (p str : List ℕ) → Option (List ℕ)
append p [] = some p
append p (c ∷ str) =
    let rest = append (p ++ (c ∷ [])) str in if ltb (strlen p) buffer_size then rest else none

-- `memset(vmem, 1, SCR_SIZE)`
abbrev pub fill_buffer : Frame → Frame
fill_buffer vbuf i = if ltb i (scr_width * scr_height) then 1 else vbuf i

-- A buffer without a zero at its end is read behind its end.
abbrev pub draw_message : List ℕ → Frame → Outcome Frame
draw_message buf vbuf =
    if ltb (strlen buf) buffer_size
    then draw_string buf 0 0 15 (fill_buffer (prepare_buffer vbuf))
    else abort

-- `display_buffer` of kernel/device/video.c: the loop from `i` on, `left` rounds, into video memory.
unfoldable pub display_loop : (left i : ℕ) (vbuf vmem : Frame) → Frame
display_loop zero i vbuf vmem = vmem
display_loop (suc left) i vbuf vmem =
    display_loop left (i + 1) vbuf (λ j. if j == i then vbuf i else vmem j)

unfoldable pub display_buffer : (vbuf vmem : Frame) → Frame
display_buffer vbuf vmem = display_loop (320 * 200) 0 vbuf vmem

-- The result is video memory.
unfoldable pub blue_screen : (file : List ℕ) (line : ℕ) (vbuf vmem : Frame) → Outcome Frame
blue_screen file line vbuf vmem = and_then (written (append blue_screen_text file)) (λ a.
    and_then (written (append a (58 ∷ []))) (λ b. and_then (written (itoa line)) (λ number.
      and_then (written (append b number))
        (λ buf. and_then (draw_message buf vbuf) (λ drawn. done (display_buffer drawn vmem))))))
