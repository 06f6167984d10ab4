-- ===== src/Abort/Message.antt =====
-- The message of lib/abort.c.
use oslab.Base.{
  ℕ, ◌+◌, ◌*◌, ◌^◌, ◌≤◌, ◌<◌, ◌≡◌, refl, sym, ap, ◌∙◌, some, List, [], ◌∷◌, ◌++◌, lt→ltb, arith,
}
use mathlib.Core.List.{append-nil, append_assoc}
use oslab.Strings.{itoa, strlen}
use oslab.Strings.Ascii.{IsAscii, itoa-IsAscii}
use oslab.Game.Effect.{done}
use oslab.Game.Video.{Frame, pixel, draw_string, prepare_buffer, scr_width, scr_height}
use oslab.Abort.{display_buffer, buffer_size, blue_screen_text, append, fill_buffer, blue_screen}
use oslab.Abort.Display.{display_buffer-pixel}
use oslab.Abort.Lines.{draw_string-lines}

strlen-append : (p str : List ℕ) → strlen (p ++ str) ≡ strlen p + strlen str
unfolding strlen
strlen-append [] str = omega arith
strlen-append (c ∷ p) str = omega (arith, strlen-append p str)

IsAscii-append : (p str : List ℕ) → IsAscii p → IsAscii str → IsAscii (p ++ str)
IsAscii-append [] str left right = right
IsAscii-append (c ∷ p) str (low, left) right = (low, IsAscii-append p str left right)

-- `append` within the buffer.
append-lem : (p str : List ℕ) → strlen p + strlen str ≤ buffer_size → append p str ≡ some (p ++ str)
unfolding append strlen
append-lem p [] h = ap some (sym (append-nil p))
append-lem p (c ∷ str) h = rw (lt→ltb (strlen p) buffer_size (omega arith)) (
    append-lem (p ++ (c ∷ [])) str (omega (arith, strlen-append p (c ∷ [])))
    ∙ ap some (append_assoc p (c ∷ []) str))

fill_buffer-one :
    (vbuf : Frame) (x y : ℕ) → x < scr_height → y < scr_width → fill_buffer vbuf (pixel x y) ≡ 1
fill_buffer-one vbuf x y h k = rw (lt→ltb (pixel x y) (scr_width * scr_height) (omega arith)) refl

text-IsAscii : IsAscii blue_screen_text × (strlen blue_screen_text ≡ 18)
unfolding strlen
text-IsAscii = (ground arith, refl)

colon-IsAscii : IsAscii (58 ∷ []) × (strlen (58 ∷ []) ≡ 1)
unfolding strlen
colon-IsAscii = ((omega arith, tt), refl)

-- The message.
abbrev pub message : (file number : List ℕ) → List ℕ
message file number = ((blue_screen_text ++ file) ++ (58 ∷ [])) ++ number

-- For the name of a file of at most 207 ASCII characters and any line, the message fits its buffer and ends in
-- it; `blue_screen` draws it, without an assertion that would lead to another `abort`, and the screen
-- shows the frame with the message, in which no row from 56 on has a pixel of another color than 1.
pub blue_screen-message :
    (file : List ℕ) (line : ℕ) (vbuf vmem : Frame)
    → IsAscii file
    → strlen file ≤ 207
    → line < 2 ^ 32
    → (number : List ℕ) × (drawn shown : Frame) × (itoa line ≡ some number)
      × (draw_string (message file number) 0 0 15 (fill_buffer (prepare_buffer vbuf)) ≡ done drawn)
      × (blue_screen file line vbuf vmem ≡ done shown)
      × ((x y : ℕ) → x < scr_height → y < scr_width → shown (pixel x y) ≡ drawn (pixel x y))
      × ((x y : ℕ) → 56 ≤ x → x < scr_height → y < scr_width → shown (pixel x y) ≡ 1)
unfolding blue_screen
blue_screen-message file line vbuf vmem ascii short bits =
    let (number, run, digits, few) = itoa-IsAscii line bits in
    let (text, text_length) = text-IsAscii in
    let (colon, one) = colon-IsAscii in
    let a = blue_screen_text ++ file in
    let b = a ++ (58 ∷ []) in
    let a_length = strlen-append blue_screen_text file in
    let b_length = strlen-append a (58 ∷ []) in
    let length = strlen-append b number in
    let first = append-lem blue_screen_text file (omega arith) in
    let second = append-lem a (58 ∷ []) (omega arith) in
    let third = append-lem b number (omega arith) in
    let (new, draws, kept) =
      draw_string-lines (b ++ number) 0 0 7 15 (fill_buffer (prepare_buffer vbuf))
        (IsAscii-append b number
          (IsAscii-append a (58 ∷ []) (IsAscii-append blue_screen_text file text ascii) colon)
          digits)
        (omega arith) (omega arith) (omega arith) in
    (
      number,
      new,
      display_buffer new vmem,
      run,
      draws,
      rw first (
          rw second (
            rw run (
              rw third
                (rw (lt→ltb (strlen (b ++ number)) buffer_size (omega arith)) (rw draws refl))))),
      (λ x y h k. display_buffer-pixel new vmem x y h k),
      (λ x y low h k.
          display_buffer-pixel new vmem x y h k
          ∙ kept x y k (omega arith)
          ∙ fill_buffer-one (prepare_buffer vbuf) x y h k),
    )
