-- ===== src/Game/Paint.antt =====
-- What `draw_block` of game/video.c paints.
use oslab.Base.{
  ℕ, zero, suc, ◌+◌, ◌*◌, ◌%◌, ◌≤◌, ◌<◌, ◌≡◌, ◌≢◌, ◌⊎◌, refl, ap, ◌∙◌, inl, inr, ◌==◌,
  if◌then◌else◌, lt→ltb, ne→==, eq→==, arith,
}
use native.Mathlib.Decide.{ℕ_discrete}
use oslab.Game.Effect.{done}
use oslab.Game.Video.{
  Frame, pixel, draw_pixel, block_row, block_rows, draw_block, scr_width, scr_height,
}

-- The pixels of one row from column `from` on have the color, and all others are as before.
pub record Row (old new : Frame) (color px from n : ℕ) : Type 0 where
  pub inside : (y : ℕ) → from ≤ y → y < from + n → new (pixel px y) ≡ color % 256
  pub outside :
      (x y : ℕ)
      → y < scr_width
      → (x ≢ px) ⊎ ((y < from) ⊎ (from + n ≤ y))
      → new (pixel x y) ≡ old (pixel x y)

pub draw_pixel-Row :
    (x y color : ℕ) (vbuf : Frame)
    → x < scr_height
    → y < scr_width
    → (new : Frame) × (draw_pixel x y color vbuf ≡ done new) × Row vbuf new color x y 1
unfolding draw_pixel
draw_pixel-Row x y color vbuf h k = (
  (λ i. if i == pixel x y then color % 256 else vbuf i),
  rw (lt→ltb x scr_height h) (rw (lt→ltb y scr_width k) refl),
  record {
    inside = λ z low high. rw (eq→== (pixel x z) (pixel x y) (omega arith)) refl;
    outside = λ w z narrow o. rw (ne→== (pixel w z) (pixel x y) (omega arith)) refl;
  },
)

block_row-Row :
    (left x y color i j : ℕ) (vbuf : Frame)
    → 10 + x * 20 + i < scr_height
    → 10 + y * 20 + j + left ≤ scr_width
    → (new : Frame) × (block_row left x y color i j vbuf ≡ done new)
      × Row vbuf new color (10 + x * 20 + i) (10 + y * 20 + j) left
unfolding block_row
block_row-Row zero x y color i j vbuf h k = (
  vbuf,
  refl,
  record { inside = λ z low high. absurd (omega arith); outside = λ w z narrow o. refl },
)
block_row-Row (suc left) x y color i j vbuf h k =
    let (mid, run, m) =
      draw_pixel-Row (10 + x * 20 + i) (10 + y * 20 + j) color vbuf h (omega arith) in
    let (new, rest, n) = block_row-Row left x y color i (suc j) mid h (omega arith) in
    (
      new,
      rw run rest,
      record {
        inside = λ z low high. elim (ℕ_discrete z (10 + y * 20 + j)) [
          | yes e ↦
              n.outside (10 + x * 20 + i) z (omega arith) (inr (inl (omega arith)))
              ∙ m.inside z (omega arith) (omega arith)
          | no ne ↦ n.inside z (omega arith) (omega arith)
        ];
        outside = λ w z narrow o.
            n.outside w z narrow (
              widen w z (10 + x * 20 + i) (10 + y * 20 + j) (10 + y * 20 + suc j) left (omega arith)
                o)
            ∙ m.outside w z narrow (shrink w z (10 + x * 20 + i) (10 + y * 20 + j) left o);
      },
    )
  where
    widen :
        (w z px from next n : ℕ)
        → next ≡ suc from
        → (w ≢ px) ⊎ ((z < from) ⊎ (from + suc n ≤ z))
        → (w ≢ px) ⊎ ((z < next) ⊎ (next + n ≤ z))
    widen w z px from next n e (inl ne) = inl ne
    widen w z px from next n e (inr (inl lt)) = inr (inl (omega arith))
    widen w z px from next n e (inr (inr le)) = inr (inr (omega arith))

    shrink :
        (w z px from n : ℕ)
        → (w ≢ px) ⊎ ((z < from) ⊎ (from + suc n ≤ z))
        → (w ≢ px) ⊎ ((z < from) ⊎ (from + 1 ≤ z))
    shrink w z px from n (inl ne) = inl ne
    shrink w z px from n (inr (inl lt)) = inr (inl lt)
    shrink w z px from n (inr (inr le)) = inr (inr (omega arith))

-- The pixel lies in none of the `n` rows from `top` on, or in none of the 19 columns from `left` on.
abbrev Off : (x y top n left : ℕ) → Type 0
Off x y top n left = ((x < top) ⊎ (top + n ≤ x)) ⊎ ((y < left) ⊎ (left + 19 ≤ y))

-- A block of `n` rows and 19 columns has the color, and all other pixels are as before.
record Rows (old new : Frame) (color top n left : ℕ) : Type 0 where
  inside :
      (x y : ℕ) → top ≤ x → x < top + n → left ≤ y → y < left + 19 → new (pixel x y) ≡ color % 256
  outside : (x y : ℕ) → y < scr_width → Off x y top n left → new (pixel x y) ≡ old (pixel x y)

Off-row :
    (x y top n left : ℕ) → Off x y top (suc n) left → (x ≢ top) ⊎ ((y < left) ⊎ (left + 19 ≤ y))
Off-row x y top n left (inl (inl lt)) = inl (omega arith)
Off-row x y top n left (inl (inr le)) = inl (omega arith)
Off-row x y top n left (inr o) = inr o

Off-rest :
    (x y top next n left : ℕ) → next ≡ suc top → Off x y top (suc n) left → Off x y next n left
Off-rest x y top next n left e (inl (inl lt)) = inl (inl (omega arith))
Off-rest x y top next n left e (inl (inr le)) = inl (inr (omega arith))
Off-rest x y top next n left e (inr o) = inr o

block_rows-Rows :
    (n x y color i : ℕ) (vbuf : Frame)
    → 10 + x * 20 + i + n ≤ scr_height
    → 10 + y * 20 + 19 ≤ scr_width
    → (new : Frame) × (block_rows n x y color i vbuf ≡ done new)
      × Rows vbuf new color (10 + x * 20 + i) n (10 + y * 20)
unfolding block_rows
block_rows-Rows zero x y color i vbuf h k = (
  vbuf,
  refl,
  record { inside = λ w z top high low wide. absurd (omega arith); outside = λ w z narrow o. refl },
)
block_rows-Rows (suc n) x y color i vbuf h k =
    let px = 10 + x * 20 + i in
    let (mid, run, m) = block_row-Row 19 x y color i 0 vbuf (omega arith) (omega arith) in
    let (new, rest, r) = block_rows-Rows n x y color (suc i) mid (omega arith) k in
    (
      new,
      rw run rest,
      record {
        inside = λ w z top high low wide. elim (ℕ_discrete w px) [
          | yes e ↦
              r.outside w z (omega arith) (inl (inl (omega arith)))
              ∙ ap (λ v. mid (pixel v z)) e
              ∙ m.inside z (omega arith) (omega arith)
          | no ne ↦ r.inside w z (omega arith) (omega arith) low wide
        ];
        outside = λ w z narrow o.
            r.outside w z narrow
              (Off-rest w z px (10 + x * 20 + suc i) n (10 + y * 20) (omega arith) o)
            ∙ m.outside w z narrow
                (at_zero w z px (10 + y * 20) (Off-row w z px n (10 + y * 20) o));
      },
    )
  where
    at_zero :
        (w z px left : ℕ)
        → (w ≢ px) ⊎ ((z < left) ⊎ (left + 19 ≤ z))
        → (w ≢ px) ⊎ ((z < left + 0) ⊎ (left + 0 + 19 ≤ z))
    at_zero w z px left (inl ne) = inl ne
    at_zero w z px left (inr (inl lt)) = inr (inl (omega arith))
    at_zero w z px left (inr (inr le)) = inr (inr (omega arith))

below_or_not : (m n : ℕ) → (m < n) ⊎ (n ≤ m)
below_or_not m n = ground arith

-- The pixel belongs to the block of a cell of the board.
abbrev pub InBlock : (row col x y : ℕ) → Type 0
InBlock row col x y =
    (10 + row * 20 ≤ x) × (x < 10 + row * 20 + 19) × (10 + col * 20 ≤ y) × (y < 10 + col * 20 + 19)

-- `draw_block` of a cell of the board stays on the screen and ends. The pixels of its block have the
-- color, and every pixel of the block of another cell is as before.
pub draw_block-InBlock :
    (row col color : ℕ) (vbuf : Frame)
    → row < 9
    → col < 15
    → (new : Frame) × (draw_block row col color vbuf ≡ done new)
      × ((x y : ℕ) → InBlock row col x y → new (pixel x y) ≡ color % 256)
      × ((r c x y : ℕ)
          → (r ≢ row) ⊎ (c ≢ col)
          → c < 15
          → InBlock r c x y
          → new (pixel x y) ≡ vbuf (pixel x y))
unfolding draw_block
draw_block-InBlock row col color vbuf h k =
    let (new, run, r) = block_rows-Rows 19 row col color 0 vbuf (omega arith) (omega arith) in
    (
      new,
      run,
      (λ x y (a, b, c, d). r.inside x y (omega arith) (omega arith) c d),
      (λ p q x y other fits (a, b, c, d). r.outside x y (omega arith) (elim other [
        | inl ne ↦ inl (apart p row x ne a b)
        | inr ne ↦ inr (elim (apart q col y ne c d) [
          | inl lt ↦ inl (omega arith)
          | inr le ↦ inr (omega arith)
        ])
      ])),
    )
  where
    apart :
        (p row x : ℕ)
        → p ≢ row
        → 10 + p * 20 ≤ x
        → x < 10 + p * 20 + 19
        → (x < 10 + row * 20 + 0) ⊎ (10 + row * 20 + 0 + 19 ≤ x)
    apart p row x ne a b = elim (below_or_not p row) [
      | inl lt ↦ inl (omega arith)
      | inr le ↦ inr (omega arith)
    ]
