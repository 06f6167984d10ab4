-- ===== src/Game/Count.antt =====
-- How many cells of the board `redraw_screen` of game/effect.c counts as snake.
use oslab.Base.{
  ℕ, zero, suc, ◌+◌, ◌≤◌, ◌<◌, ◌≡◌, ◌≢◌, ◌⊎◌, refl, sym, ap, ◌∙◌, inl, inr, eq→==, arith,
}
use native.Mathlib.Decide.{ℕ_discrete}
use mathlib.Core.Path.{subst}
use oslab.Game.Effect.{Cell, empty, food, snake, Node, put, rownum, colnum}
use oslab.Game.Redraw.{At, At?, Covered, put-ne}
use oslab.Game.Screen.{snake_bit}

unfoldable pub count_row : (left i j : ℕ) (pool : ℕ → ℕ → Cell) → ℕ
count_row zero i j pool = 0
count_row (suc left) i j pool = snake_bit (pool i j) + count_row left i (suc j) pool

unfoldable pub count_rows : (left i : ℕ) (pool : ℕ → ℕ → Cell) → ℕ
count_rows zero i pool = 0
count_rows (suc left) i pool = count_row colnum i 0 pool + count_rows left (suc i) pool

-- Two boards that agree from column `j` of row `i` on, or from row `i` on, have as many snake cells there.
count_row-same :
    (left i j : ℕ) (pool old : ℕ → ℕ → Cell)
    → ((k : ℕ) → j ≤ k → pool i k ≡ old i k)
    → count_row left i j pool ≡ count_row left i j old
unfolding count_row
count_row-same zero i j pool old same = refl
count_row-same (suc left) i j pool old same =
    rw (same j (omega arith))
      (rw (count_row-same left i (suc j) pool old (λ k le. same k (omega arith))) refl)

count_rows-same :
    (left i : ℕ) (pool old : ℕ → ℕ → Cell)
    → ((r k : ℕ) → i ≤ r → pool r k ≡ old r k)
    → count_rows left i pool ≡ count_rows left i old
unfolding count_rows
count_rows-same zero i pool old same = refl
count_rows-same (suc left) i pool old same =
    rw (count_row-same colnum i 0 pool old (λ k le. same i k (omega arith)))
      (rw (count_rows-same left (suc i) pool old (λ r k le. same r k (omega arith))) refl)

snake_bit-le_one : (c : Cell) → snake_bit c ≤ 1
snake_bit-le_one empty = omega arith
snake_bit-le_one food = omega arith
snake_bit-le_one snake = omega arith

-- Boards that differ in one cell at most have counts that differ by one at most.
module _ (pool old : ℕ → ℕ → Cell) (y x : ℕ)
    (same : (r k : ℕ) → (r ≢ y) ⊎ (k ≢ x) → pool r k ≡ old r k) where
  count_row-one : (left j : ℕ) → count_row left y j pool ≤ count_row left y j old + 1
  unfolding count_row
  count_row-one zero j = omega arith
  count_row-one (suc left) j = elim (ℕ_discrete j x) [
    | yes e ↦
        let rest = count_row-same left y (suc j) pool old (λ k le. same y k (inr (omega arith))) in
        let bit = snake_bit-le_one (pool y j) in omega arith
    | no ne ↦
        let rest = count_row-one left (suc j) in
        let bit = ap snake_bit (same y j (inr ne)) in omega arith
  ]

  count_rows-one : (left i : ℕ) → count_rows left i pool ≤ count_rows left i old + 1
  unfolding count_rows
  count_rows-one zero i = omega arith
  count_rows-one (suc left) i = elim (ℕ_discrete i y) [
    | yes e ↦
        let row =
          subst (λ r. count_row colnum r 0 pool ≤ count_row colnum r 0 old + 1) (sym e)
            (count_row-one colnum 0) in
        let rest = count_rows-same left (suc i) pool old (λ r k le. same r k (inl (omega arith))) in
        omega arith
    | no ne ↦
        let row = count_row-same colnum i 0 pool old (λ k le. same i k (inl ne)) in
        let rest = count_rows-one left (suc i) in omega arith
  ]

-- The snake cells of a part of the board.
count_row-none :
    (left i j : ℕ) (pool : ℕ → ℕ → Cell)
    → ((k : ℕ) → k < j + left → pool i k ≢ snake)
    → count_row left i j pool ≡ 0
unfolding count_row
count_row-none zero i j pool off = refl
count_row-none (suc left) i j pool off =
    let rest = count_row-none left i (suc j) pool (λ k lt. off k (omega arith)) in
    let bit = no_bit (pool i j) (off j (omega arith)) in omega arith
  where
    no_bit : (c : Cell) → c ≢ snake → snake_bit c ≡ 0
    no_bit empty ne = refl
    no_bit food ne = refl
    no_bit snake ne = absurd (ne refl)

count_rows-none :
    (left i : ℕ) (pool : ℕ → ℕ → Cell)
    → ((r k : ℕ) → r < i + left → k < colnum → pool r k ≢ snake)
    → count_rows left i pool ≡ 0
unfolding count_rows
count_rows-none zero i pool off = refl
count_rows-none (suc left) i pool off =
    let row = count_row-none colnum i 0 pool (λ k lt. off i k (omega arith) (omega arith)) in
    let rest = count_rows-none left (suc i) pool (λ r k lt wide. off r k (omega arith) wide) in
    omega arith

-- A cell off the last node that is covered is covered by the others.
Covered-others :
    (n : ℕ) (body : ℕ → Node) (y x : ℕ)
    → ¬ At (body n) y x
    → Covered body 0 (suc n) y x
    → Covered body 0 n y x
Covered-others n body y x off (k, low, high, at) = elim (ℕ_discrete k n) [
  | yes e ↦ absurd (off (subst (λ j. At (body j) y x) e at))
  | no ne ↦ (k, low, omega arith, at)
]

empty-ne-snake : empty ≢ snake
empty-ne-snake = λ e. cc

put-empty :
    (pool : ℕ → ℕ → Cell) (n : Node) (y x : ℕ) → At n y x → put pool n.y n.x empty y x ≡ empty
put-empty pool n y x (p, q) = rw (eq→== y n.y p) (rw (eq→== x n.x q) refl)

-- Where every snake cell of the board is the place of one of `n` nodes, there are at most `n` of them.
pub count_rows-Covered :
    (n : ℕ) (body : ℕ → Node) (pool : ℕ → ℕ → Cell)
    → ((y x : ℕ) → y < rownum → x < colnum → pool y x ≡ snake → Covered body 0 n y x)
    → count_rows rownum 0 pool ≤ n
count_rows-Covered zero body pool cover =
    let none = count_rows-none rownum 0 pool (λ r k lt wide on.
      let (j, low, high, at) = cover r k (omega arith) wide on in absurd (omega arith)) in
    omega arith
count_rows-Covered (suc n) body pool cover =
    let last = body n in
    let rest = count_rows-Covered n body (put pool last.y last.x empty) (λ r k high wide on.
      elim (At? last r k) [
        | yes at ↦ absurd (empty-ne-snake (sym (put-empty pool last r k at) ∙ on))
        | no off ↦
            Covered-others n body r k off
              (cover r k high wide (sym (put-ne pool last empty r k off) ∙ on))
      ]) in
    let one =
      count_rows-one pool (put pool last.y last.x empty) last.y last.x
        (λ r k other.
          sym (put-ne pool last empty r k (λ (p, q). elim other [ inl ne ↦ ne p | inr ne ↦ ne q ])))
        rownum 0 in
    omega arith
