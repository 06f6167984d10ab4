-- ===== src/Abort/Display.antt =====
-- What `display_buffer` of kernel/device/video.c shows.
use oslab.Base.{
  ℕ, zero, suc, ◌+◌, ◌*◌, ◌≤◌, ◌<◌, ◌≡◌, ◌⊎◌, refl, ap, ◌∙◌, inl, inr, ◌==◌, if◌then◌else◌, eq→==,
  ne→==, arith,
}
use native.Mathlib.Decide.{ℕ_discrete}
use oslab.Game.Video.{Frame, pixel, scr_width, scr_height}
use oslab.Abort.{display_loop, display_buffer}

display_loop-lem :
    (left i : ℕ) (vbuf vmem : Frame)
    → ((j : ℕ) → i ≤ j → j < i + left → display_loop left i vbuf vmem j ≡ vbuf j)
      × ((j : ℕ) → (j < i) ⊎ (i + left ≤ j) → display_loop left i vbuf vmem j ≡ vmem j)
unfolding display_loop
display_loop-lem zero i vbuf vmem = ((λ j low high. absurd (omega arith)), (λ j o. refl))
display_loop-lem (suc left) i vbuf vmem =
    let (inside, outside) =
      display_loop-lem left (i + 1) vbuf (λ j. if j == i then vbuf i else vmem j) in
    (
      (λ j low high. elim (ℕ_discrete j i) [
        | yes e ↦ outside j (inl (omega arith)) ∙ rw (eq→== j i e) (ap vbuf (omega arith))
        | no ne ↦ inside j (omega arith) (omega arith)
      ]),
      (λ j o.
          outside j (elim o [ inl lt ↦ inl (omega arith) | inr le ↦ inr (omega arith) ])
          ∙ rw (ne→== j i (elim o [ inl lt ↦ omega arith | inr le ↦ omega arith ])) refl),
    )

-- Every pixel is that of the buffer.
pub display_buffer-pixel :
    (vbuf vmem : Frame) (x y : ℕ)
    → x < scr_height
    → y < scr_width
    → display_buffer vbuf vmem (pixel x y) ≡ vbuf (pixel x y)
unfolding display_buffer
display_buffer-pixel vbuf vmem x y h k =
    let (inside, outside) = display_loop-lem (320 * 200) 0 vbuf vmem in
    inside (pixel x y) (omega arith) (omega arith)
