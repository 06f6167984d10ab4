-- ===== src/Game/Redraw.antt =====
-- The loops of `update_snake_pos` in game/effect.c: the shift of the nodes, the double loop that
-- clears the board and the loop that marks the nodes.
use oslab.Base.{ℕ, zero, suc, ◌+◌, ◌≤◌, ◌<◌, ◌≡◌, refl, sym, ap, ◌∙◌, ◌≢◌, ne→==, eq→==, arith}
use native.Mathlib.Decide.{ℕ_discrete}
use mathlib.Core.Path.{subst}
use oslab.Game.Effect.{
  Cell, snake, Node, Game, put, set_node, placed, shift, wiped, clear_row, clear_rows, mark, remark,
  colnum, rownum,
}

-- The node lies on the cell in row `y` and column `x`.
abbrev pub At : Node → (y x : ℕ) → Type 0
At n y x = (y ≡ n.y) × (x ≡ n.x)

pub At? : (n : Node) (y x : ℕ) → Dec (At n y x)
At? n y x = elim (ℕ_discrete y n.y) [
  | yes p ↦ elim (ℕ_discrete x n.x) [ yes q ↦ yes (p, q) | no q ↦ no (λ h. q h.1) ]
  | no p ↦ no (λ h. p h.0)
]

-- One of `left` nodes from number `i` on lies on the cell.
abbrev pub Covered : (body : ℕ → Node) (i left y x : ℕ) → Type 0
Covered body i left y x = (k : ℕ) × (i ≤ k) × (k < i + left) × At (body k) y x

pub Covered? : (body : ℕ → Node) (i left y x : ℕ) → Dec (Covered body i left y x)
Covered? body i zero y x = no (λ (k, low, high, at). absurd (omega arith))
Covered? body i (suc left) y x = elim (At? (body i) y x) [
  | yes here ↦ yes (i, omega arith, omega arith, here)
  | no off ↦ elim (Covered? body (suc i) left y x) [
    | yes (k, low, high, at) ↦ yes (k, omega arith, omega arith, at)
    | no none ↦ no (λ (k, low, high, at). elim (ℕ_discrete i k) [
      | yes e ↦ off (subst (λ j. At (body j) y x) (sym e) at)
      | no ne ↦ none (k, omega arith, omega arith, at)
    ])
  ]
]

pub shift-zero : (i : ℕ) (body : ℕ → Node) → shift i body 0 ≡ body 0
unfolding shift
shift-zero zero body = refl
shift-zero (suc i) body =
    shift-zero i (set_node body (suc i) (placed (body (suc i)) (body i)))
    ∙ rw (ne→== 0 (suc i) (omega arith)) refl

pub shift-above : (i : ℕ) (body : ℕ → Node) (j : ℕ) → i < j → shift i body j ≡ body j
unfolding shift
shift-above zero body j h = refl
shift-above (suc i) body j h =
    shift-above i (set_node body (suc i) (placed (body (suc i)) (body i))) j (omega arith)
    ∙ rw (ne→== j (suc i) (omega arith)) refl

pub shift-suc :
    (i : ℕ) (body : ℕ → Node) (j : ℕ)
    → j < i
    → shift i body (suc j) ≡ placed (body (suc j)) (body j)
unfolding shift
shift-suc zero body j h = absurd (omega arith)
shift-suc (suc i) body j h =
    let next = set_node body (suc i) (placed (body (suc i)) (body i)) in
    elim (ℕ_discrete j i) [
      | yes e ↦
          subst (λ k. shift i next (suc k) ≡ placed (body (suc k)) (body k)) (sym e)
            (shift-above i next (suc i) (omega arith) ∙ rw (eq→== (suc i) (suc i) refl) refl)
      | no ne ↦
          shift-suc i next j (omega arith)
          ∙ rw (ne→== (suc j) (suc i) (omega arith)) (rw (ne→== j (suc i) (omega arith)) refl)
    ]

pub put_self : (pool : ℕ → ℕ → Cell) (y x : ℕ) (c : Cell) → put pool y x c y x ≡ c
put_self pool y x c = rw (eq→== y y refl) (rw (eq→== x x refl) refl)

pub put-ne :
    (pool : ℕ → ℕ → Cell) (n : Node) (c : Cell) (y x : ℕ)
    → ¬ At n y x
    → put pool n.y n.x c y x ≡ pool y x
put-ne pool n c y x off = elim (ℕ_discrete y n.y) [
  | yes p ↦ elim (ℕ_discrete x n.x) [
    | yes q ↦ absurd (off (p, q))
    | no q ↦ rw (eq→== y n.y p) (rw (ne→== x n.x q) refl)
  ]
  | no p ↦ rw (ne→== y n.y p) refl
]

-- Rows other than `i` and columns before `j` are left alone.
clear_row-row :
    (left i j : ℕ) (pool : ℕ → ℕ → Cell) (y x : ℕ) → y ≢ i → clear_row left i j pool y x ≡ pool y x
unfolding clear_row
clear_row-row zero i j pool y x ne = refl
clear_row-row (suc left) i j pool y x ne =
    clear_row-row left i (suc j) (put pool i j (wiped (pool i j))) y x ne ∙ rw (ne→== y i ne) refl

clear_row-before :
    (left i j : ℕ) (pool : ℕ → ℕ → Cell) (x : ℕ) → x < j → clear_row left i j pool i x ≡ pool i x
unfolding clear_row
clear_row-before zero i j pool x h = refl
clear_row-before (suc left) i j pool x h =
    clear_row-before left i (suc j) (put pool i j (wiped (pool i j))) x (omega arith)
    ∙ rw (eq→== i i refl) (rw (ne→== x j (omega arith)) refl)

clear_row-wiped :
    (left i j : ℕ) (pool : ℕ → ℕ → Cell) (x : ℕ)
    → j ≤ x
    → x < j + left
    → clear_row left i j pool i x ≡ wiped (pool i x)
unfolding clear_row
clear_row-wiped zero i j pool x low high = absurd (omega arith)
clear_row-wiped (suc left) i j pool x low high =
    let next = put pool i j (wiped (pool i j)) in
    elim (ℕ_discrete x j) [
      | yes e ↦
          subst (λ k. clear_row left i (suc j) next i k ≡ wiped (pool i k)) (sym e)
            (clear_row-before left i (suc j) next j (omega arith)
              ∙ put_self pool i j (wiped (pool i j)))
      | no ne ↦
          clear_row-wiped left i (suc j) next x (omega arith) (omega arith)
          ∙ rw (eq→== i i refl) (rw (ne→== x j ne) refl)
    ]

clear_rows-before :
    (left i : ℕ) (pool : ℕ → ℕ → Cell) (y x : ℕ) → y < i → clear_rows left i pool y x ≡ pool y x
unfolding clear_rows
clear_rows-before zero i pool y x h = refl
clear_rows-before (suc left) i pool y x h =
    clear_rows-before left (suc i) (clear_row colnum i 0 pool) y x (omega arith)
    ∙ clear_row-row colnum i 0 pool y x (omega arith)

clear_rows-wiped :
    (left i : ℕ) (pool : ℕ → ℕ → Cell) (y x : ℕ)
    → i ≤ y
    → y < i + left
    → x < colnum
    → clear_rows left i pool y x ≡ wiped (pool y x)
unfolding clear_rows
clear_rows-wiped zero i pool y x low high h = absurd (omega arith)
clear_rows-wiped (suc left) i pool y x low high h =
    let next = clear_row colnum i 0 pool in
    elim (ℕ_discrete y i) [
      | yes e ↦
          subst (λ k. clear_rows left (suc i) next k x ≡ wiped (pool k x)) (sym e)
            (clear_rows-before left (suc i) next i x (omega arith)
              ∙ clear_row-wiped colnum i 0 pool x (omega arith) (omega arith))
      | no ne ↦
          clear_rows-wiped left (suc i) next y x (omega arith) (omega arith) h
          ∙ ap wiped (clear_row-row colnum i 0 pool y x ne)
    ]

mark-off :
    (left i : ℕ) (body : ℕ → Node) (pool : ℕ → ℕ → Cell) (y x : ℕ)
    → ¬ Covered body i left y x
    → mark left i body pool y x ≡ pool y x
unfolding mark
mark-off zero i body pool y x off = refl
mark-off (suc left) i body pool y x off =
    mark-off left (suc i) body (put pool (body i).y (body i).x snake) y x
      (λ (k, low, high, at). off (k, omega arith, omega arith, at))
    ∙ put-ne pool (body i) snake y x (λ at. off (i, omega arith, omega arith, at))

mark_keeps :
    (left i : ℕ) (body : ℕ → Node) (pool : ℕ → ℕ → Cell) (y x : ℕ)
    → pool y x ≡ snake
    → mark left i body pool y x ≡ snake
unfolding mark
mark_keeps zero i body pool y x on = on
mark_keeps (suc left) i body pool y x on =
    mark_keeps left (suc i) body (put pool (body i).y (body i).x snake) y x
      (elim (At? (body i) y x) [
        | yes at ↦ rw (eq→== y (body i).y at.0) (rw (eq→== x (body i).x at.1) refl)
        | no off ↦ put-ne pool (body i) snake y x off ∙ on
      ])

mark-on :
    (left i : ℕ) (body : ℕ → Node) (pool : ℕ → ℕ → Cell) (k : ℕ)
    → i ≤ k
    → k < i + left
    → mark left i body pool (body k).y (body k).x ≡ snake
unfolding mark
mark-on zero i body pool k low high = absurd (omega arith)
mark-on (suc left) i body pool k low high =
    let next = put pool (body i).y (body i).x snake in
    elim (ℕ_discrete k i) [
      | yes e ↦
          subst (λ j. mark left (suc i) body next (body j).y (body j).x ≡ snake) (sym e)
            (mark_keeps left (suc i) body next (body i).y (body i).x
              (put_self pool (body i).y (body i).x snake))
      | no ne ↦ mark-on left (suc i) body next k (omega arith) (omega arith)
    ]

-- After the redrawing the nodes lie on snake cells,
pub remark-on :
    (g : Game) (k : ℕ) → k < g.snakelen → (remark g).gamepool (g.body k).y (g.body k).x ≡ snake
unfolding remark
remark-on g k h = mark-on g.snakelen 0 g.body _ k (omega arith) (omega arith)

-- and a cell of the board without a node is no snake cell, and else as before.
pub remark-off :
    (g : Game) (y x : ℕ)
    → 0 < g.snakelen
    → y < rownum
    → x < colnum
    → ¬ Covered g.body 0 g.snakelen y x
    → (remark g).gamepool y x ≡ wiped (g.gamepool y x)
unfolding remark
remark-off g y x some low high off =
    let headed = put g.gamepool (g.body 0).y (g.body 0).x snake in
    mark-off g.snakelen 0 g.body (clear_rows rownum 0 headed) y x off
    ∙ clear_rows-wiped rownum 0 headed y x (omega arith) (omega arith) high
    ∙ ap wiped
        (put-ne g.gamepool (g.body 0) snake y x (λ at. off (0, omega arith, omega arith, at)))
