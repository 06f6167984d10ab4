-- ===== src/Game/Loop/Heading.antt =====
-- The `switch` of `update_snake_pos` in game/effect.c for one of the four directions.
use oslab.Base.{ℕ, ◌+◌, ◌-◌, ◌<◌, ◌≡◌, refl, Bool, true, false, ◌==◌, if◌then◌else◌, arith}
use oslab.Game.Effect.{
  Node, Move, moved, off_board, no_direction, move_head, rownum, colnum, diru, dird, dirl, dirr,
}

-- The head leaves the board, or moves on in its direction.
pub data Goes (direction : ℕ) : Move → Type 0 where
  leaves : Goes direction off_board
  goes : (head : Node) → head.direction ≡ direction → Goes direction (moved head)

edge-Goes : (b : Bool) (n : Node) → Goes n.direction (if b then off_board else moved n)
edge-Goes true n = leaves
edge-Goes false n = goes n refl

either-Goes :
    (b : Bool) {direction : ℕ} {t e : Move}
    → Goes direction t
    → (b ≡ false → Goes direction e)
    → Goes direction (if b then t else e)
either-Goes true g h = g
either-Goes false g h = h refl

-- One of the four tests holds.
no_test :
    (d : ℕ)
    → d < 4
    → (d == diru) ≡ false
    → (d == dird) ≡ false
    → (d == dirl) ≡ false
    → ¬ ((d == dirr) ≡ false)
no_test d h nu nd nl nr = ground arith

four_tests :
    (d : ℕ) {u v w t : Move}
    → d < 4
    → Goes d u
    → Goes d v
    → Goes d w
    → Goes d t
    → Goes d (
        if d == diru
        then u
        else if d == dird
        then v
        else if d == dirl
        then w
        else if d == dirr
        then t
        else no_direction)
four_tests d h gu gv gw gt = either-Goes (d == diru) gu (λ nu. either-Goes (d == dird) gv (λ nd.
    either-Goes (d == dirl) gw
      (λ nl. either-Goes (d == dirr) gt (λ nr. absurd (no_test d h nu nd nl nr)))))

pub move_head-Goes : (n : Node) → n.direction < 4 → Goes n.direction (move_head n)
unfolding move_head
move_head-Goes n h =
    four_tests n.direction h (edge-Goes (n.y == 0) (record n { y = n.y - 1 }))
      (edge-Goes (n.y == rownum - 1) (record n { y = n.y + 1 }))
      (edge-Goes (n.x == 0) (record n { x = n.x - 1 }))
      (edge-Goes (n.x == colnum - 1) (record n { x = n.x + 1 }))
