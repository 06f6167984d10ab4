-- ===== src/Vm/Region.antt =====
-- `region_alloc` over a region that one directory entry covers: the frames that back its pages.
use mathlib.Core.Path.{subst}
use oslab.Base.{
  ℕ, zero, suc, ◌+◌, ◌-◌, ◌*◌, ◌/◌, ◌%◌, ◌^◌, ◌<◌, ◌≤◌, ◌≡◌, refl, ap, ◌∙◌, Bool, true, false, List,
  [], ◌∷◌, ◌++◌, arith, inl, inr, length,
}
use oslab.Vm.Layout.{word, pgsize, pdx, paddr, rounddown, roundup}
use oslab.Vm.State.{Vm, ok}
use oslab.Vm.Tables.{is_present, region_loop, region_alloc}
use oslab.Vm.Mmu.{pde, translate}
use oslab.Vm.Walk.{IsReady, CanWalk, left}
use oslab.Vm.Backed.{
  Backed, Unmapped, Backed-none, Backed-next, Round, region-Round, region_loop-end, there_of_some,
}

-- The free list holds the frames `ys` for a region, with a page below 4MB for the table if the
-- directory has none yet, and `rest` behind them.
abbrev pub Supply : (there : Bool) → (free ys rest : List ℕ) → Type 0
Supply true free ys rest = free ≡ ys ++ rest
Supply false free [] rest = free ≡ rest
Supply false free (y ∷ ys) rest = (table : ℕ) × (free ≡ y ∷ table ∷ (ys ++ rest)) × (table < 1024)

-- What the loop leaves after all rounds.
abbrev Outcome : (s : Vm) (dir begin fuel end : ℕ) → (ys rest : List ℕ) → Type 0
Outcome s dir begin fuel end ys rest =
    (t : Vm) × (region_loop fuel dir begin end s ≡ ok tt t)
    × IsReady t dir rest
    × Backed (translate s.mem (paddr dir)) (translate t.mem (paddr dir)) begin ys

left_there :
    (there : Bool) (xs ys rest : List ℕ)
    → there ≡ true
    → xs ≡ ys ++ rest
    → left there xs ≡ ys ++ rest
left_there there [] ys rest e f = f
left_there there (x ∷ xs) ys rest e f = rw e f

CanWalk-there :
    (s : Vm) (dir va : ℕ) (xs : List ℕ)
    → is_present (pde s.mem (paddr dir) (pdx va)) ≡ true
    → CanWalk s dir va xs
CanWalk-there s dir va [] there = there
CanWalk-there s dir va (x ∷ xs) there = inl there

-- One round, and then the rest of the loop from the state after it.
Outcome-next :
    {s u : Vm} {dir va y : ℕ} {free : List ℕ} (fuel end : ℕ) (ys rest : List ℕ)
    → region_loop (suc fuel) dir va end s ≡ region_loop fuel dir ((va + pgsize) % word) end u
    → Round s u dir va y free
    → va + suc (length ys) * 4096 < 2 ^ 32
    → Outcome u dir (va + 4096) fuel end ys rest
    → Outcome s dir va (suc fuel) end (y ∷ ys) rest
Outcome-next {u} {dir} {va} {y} fuel end ys rest run o fits (t, run', r', b) =
    let e : (va + pgsize) % word ≡ va + 4096 = omega arith in
    (
      t,
      run ∙ ap (λ a. region_loop fuel dir a end u) e ∙ run',
      r',
      Backed-next va y ys fits o.self o.others b,
    )

-- What one round leaves for the rounds behind it.
module _ {s u : Vm} {dir va y : ℕ} {free : List ℕ} (o : Round s u dir va y free) (n : ℕ)
    (one : va % 2 ^ 22 + suc n * 4096 ≤ 2 ^ 22) (fits : va + suc n * 4096 < 2 ^ 32) where
  next-there : 0 < n → is_present (pde u.mem (paddr dir) (pdx (va + 4096))) ≡ true
  next-there more =
      let e : va + 0 ≡ va = omega arith in
      let d : pdx (va + 4096) ≡ pdx va = omega arith in
      rw d (there_of_some u.mem (paddr dir) va (y * 4096 + 0) (rw e at (o.self 0 (omega arith))))

  next-Unmapped :
      Unmapped (translate s.mem (paddr dir)) va (suc n)
      → Unmapped (translate u.mem (paddr dir)) (va + 4096) n
  next-Unmapped unmapped wa le lt =
      o.others wa (omega arith) (omega arith) ∙ unmapped wa (omega arith) (omega arith)

region_loop-there :
    (ys rest : List ℕ) {s : Vm} {dir : ℕ} (va fuel end : ℕ)
    → IsReady s dir (ys ++ rest)
    → s.npages ≤ 2 ^ 20
    → (0 < length ys → is_present (pde s.mem (paddr dir) (pdx va)) ≡ true)
    → va % 4096 ≡ 0
    → va + length ys * 4096 ≡ end
    → end < 2 ^ 32
    → va % 2 ^ 22 + length ys * 4096 ≤ 2 ^ 22
    → length ys < fuel
    → Unmapped (translate s.mem (paddr dir)) va (length ys)
    → Outcome s dir va fuel end ys rest
region_loop-there ys rest va zero end r memory there paged e fits one enough unmapped =
    absurd (omega arith)
region_loop-there [] rest {s} {dir} va (suc fuel) end r memory there paged e fits one enough
      unmapped =
    let at : va ≡ end = omega arith in
    (s, rw (← at) (region_loop-end fuel dir va s), r, Backed-none (translate s.mem (paddr dir)) va)
region_loop-there (y ∷ ys) rest {s} {dir} va (suc fuel) end r memory there paged e fits one enough
      unmapped =
    let here = there (omega arith) in
    let (u, run, o) =
      region-Round (ys ++ rest) r va memory (omega arith) paged fuel end (omega arith)
        (CanWalk-there s dir va (ys ++ rest) here) (unmapped va (omega arith) (omega arith)) in
    let q = subst (IsReady u dir) (left_there _ (ys ++ rest) ys rest here refl) o.ready in
    Outcome-next fuel end ys rest run o (omega arith) (
      region_loop-there ys rest (va + 4096) fuel end q (rw o.npages memory)
        (next-there o (length ys) one (omega arith)) (omega arith) (omega arith) fits (omega arith)
        (omega arith) (next-Unmapped o (length ys) one (omega arith) unmapped))

-- The same where the first round makes the table.
region_loop-made :
    (y table : ℕ) (ys rest : List ℕ) {s : Vm} {dir : ℕ} (va fuel end : ℕ)
    → IsReady s dir (y ∷ table ∷ (ys ++ rest))
    → table < 1024
    → s.npages ≤ 2 ^ 20
    → is_present (pde s.mem (paddr dir) (pdx va)) ≡ false
    → va % 4096 ≡ 0
    → va + suc (length ys) * 4096 ≡ end
    → end < 2 ^ 32
    → va % 2 ^ 22 + suc (length ys) * 4096 ≤ 2 ^ 22
    → suc (length ys) < suc fuel
    → Unmapped (translate s.mem (paddr dir)) va (suc (length ys))
    → Outcome s dir va (suc fuel) end (y ∷ ys) rest
region_loop-made y table ys rest {s} {dir} va fuel end r low memory gone paged e fits one enough
      unmapped =
    let (u, run, o) =
      region-Round (table ∷ (ys ++ rest)) r va memory (omega arith) paged fuel end (omega arith)
        (inr low) (unmapped va (omega arith) (omega arith)) in
    let q = subst (IsReady u dir) (ap (λ b. left b (table ∷ (ys ++ rest))) gone) o.ready in
    Outcome-next fuel end ys rest run o (omega arith) (
      region_loop-there ys rest (va + 4096) fuel end q (rw o.npages memory)
        (next-there o (length ys) one (omega arith)) (omega arith) (omega arith) fits (omega arith)
        (omega arith) (next-Unmapped o (length ys) one (omega arith) unmapped))

region_loop-Outcome :
    (there : Bool) (free ys rest : List ℕ) {s : Vm} {dir : ℕ} (va fuel end : ℕ)
    → is_present (pde s.mem (paddr dir) (pdx va)) ≡ there
    → Supply there free ys rest
    → IsReady s dir free
    → s.npages ≤ 2 ^ 20
    → va % 4096 ≡ 0
    → va + length ys * 4096 ≡ end
    → end < 2 ^ 32
    → va % 2 ^ 22 + length ys * 4096 ≤ 2 ^ 22
    → length ys < suc fuel
    → Unmapped (translate s.mem (paddr dir)) va (length ys)
    → Outcome s dir va (suc fuel) end ys rest
region_loop-Outcome true free ys rest {s} {dir} va fuel end at sup r memory paged e fits one enough
      unmapped =
    region_loop-there ys rest va (suc fuel) end (subst (IsReady s dir) sup r) memory (λ z. at) paged
      e fits one enough unmapped
region_loop-Outcome false free [] rest {s} {dir} va fuel end at sup r memory paged e fits one enough
      unmapped =
    region_loop-there [] rest va (suc fuel) end (subst (IsReady s dir) sup r) memory
      (λ z. absurd (omega arith)) paged e fits one enough unmapped
region_loop-Outcome false free (y ∷ ys) rest {s} {dir} va fuel end at (table, e', low) r memory
      paged e fits one enough unmapped =
    region_loop-made y table ys rest va fuel end (subst (IsReady s dir) e' r) low memory at paged e
      fits one enough unmapped

-- `region_alloc` on a machine of at most 2 ^ 20 pages returns if nothing is mapped in the pages that
-- [va, va + len) touches, rounding up does not wrap, these pages lie under one directory entry, the
-- free list starts with as many frames as there are pages, and, where the entry has no table, its
-- second page lies below 4MB and serves as the table. Afterwards each page is backed by its own frame
-- in list order, every other address is translated as before, and directory and rest of the free list
-- are well formed.
pub region_alloc-Backed :
    {s : Vm} {dir : ℕ} (free ys rest : List ℕ) (va len : ℕ)
    → IsReady s dir free
    → s.npages ≤ 2 ^ 20
    → Supply (is_present (pde s.mem (paddr dir) (pdx va))) free ys rest
    → va + len + 4095 < 2 ^ 32
    → rounddown va pgsize + length ys * 4096 ≡ roundup (va + len) pgsize
    → rounddown va pgsize % 2 ^ 22 + length ys * 4096 ≤ 2 ^ 22
    → Unmapped (translate s.mem (paddr dir)) (rounddown va pgsize) (length ys)
    → (t : Vm) × (region_alloc dir va len s ≡ ok tt t)
      × IsReady t dir rest
      × Backed (translate s.mem (paddr dir)) (translate t.mem (paddr dir)) (rounddown va pgsize) ys
unfolding region_alloc
region_alloc-Backed {s} {dir} free ys rest va len r memory sup fits count one unmapped =
    let begin = rounddown va pgsize in
    let end = roundup ((va + len) % word) pgsize in
    let n = (end - begin) / pgsize in
    let d : pdx begin ≡ pdx va = omega arith in
    let e : n + 1 ≡ suc n = omega arith in
    let (t, run, r', b) =
      region_loop-Outcome (is_present (pde s.mem (paddr dir) (pdx va))) free ys rest begin n end
        (ap (λ i. is_present (pde s.mem (paddr dir) i)) d) sup r memory (omega arith) (omega arith)
        (omega arith) one (omega arith) unmapped in
    (t, ap (λ f. region_loop f dir begin end s) e ∙ run, r', b)
