-- ===== src/Vm/Backed.antt =====
-- One page of `region_alloc`, and what a region is that frames back.
use oslab.Base.{
  ℕ, zero, suc, ◌+◌, ◌*◌, ◌%◌, ◌^◌, ◌<◌, ◌≤◌, ◌≡◌, ◌⊎◌, refl, ap, ◌∙◌, true, false, Option, none,
  some, List, [], ◌∷◌, arith, inl, inr, Bool-cases, length, get_or, lt→ltb, le→ltb,
}
use oslab.Vm.Layout.{word, pgsize, pdx, paddr}
use oslab.Vm.State.{Vm, ok}
use oslab.Vm.Tables.{is_present, region_loop}
use oslab.Vm.FreeList.{allocated, page_alloc-cons}
use oslab.Vm.Mmu.{pde, translate, translate-absent, IsTree-tail}
use oslab.Vm.Walk.{IsReady, CanWalk, left}
use oslab.Vm.Insert.{page_insert-Inserted}

-- The pages from `va` on are backed by the frames `ys`, and `old` is what else is translated.
pub record Backed (old new : ℕ → Option ℕ) (va : ℕ) (ys : List ℕ) : Type 0 where
  pub inside :
      (k off : ℕ)
      → k < length ys
      → off < 4096
      → new (va + k * 4096 + off) ≡ some (get_or ys k 0 * 4096 + off)
  pub outside : (wa : ℕ) → wa < 2 ^ 32 → (wa < va) ⊎ (va + length ys * 4096 ≤ wa) → new wa ≡ old wa

-- Nothing is mapped in `n` pages from `va` on.
abbrev pub Unmapped : (ℕ → Option ℕ) → (va n : ℕ) → Type 0
Unmapped f va n = (wa : ℕ) → va ≤ wa → wa < va + n * 4096 → f wa ≡ none

pub Backed-none : (f : ℕ → Option ℕ) (va : ℕ) → Backed f f va []
Backed-none f va = record { inside = λ k off lt h. absurd (omega arith); outside = λ wa h o. refl }

pub Backed-next :
    {old mid new : ℕ → Option ℕ} (va y : ℕ) (ys : List ℕ)
    → va + suc (length ys) * 4096 < 2 ^ 32
    → ((off : ℕ) → off < 4096 → mid (va + off) ≡ some (y * 4096 + off))
    → ((wa : ℕ) → wa < 2 ^ 32 → (wa < va) ⊎ (va + 4096 ≤ wa) → mid wa ≡ old wa)
    → Backed mid new (va + 4096) ys
    → Backed old new va (y ∷ ys)
Backed-next {old} {mid} {new} va y ys fits self others rest = record {
  inside = inside;
  outside = λ wa h o. rest.outside wa h (omega arith) ∙ others wa h (omega arith);
}
  where
    inside :
        (k off : ℕ)
        → k < suc (length ys)
        → off < 4096
        → new (va + k * 4096 + off) ≡ some (get_or (y ∷ ys) k 0 * 4096 + off)
    inside zero off lt h =
        let e : va + 0 * 4096 + off ≡ va + off = omega arith in
        rw e (rest.outside (va + off) (omega arith) (omega arith) ∙ self off h)
    inside (suc k) off lt h =
        let e : va + suc k * 4096 + off ≡ va + 4096 + k * 4096 + off = omega arith in
        rw e (rest.inside k off (omega arith) h)

-- A page is taken off the list.
pub allocated-IsReady :
    {s : Vm} {dir x : ℕ} {xs : List ℕ} → IsReady s dir (x ∷ xs) → IsReady (allocated 0 x s) dir xs
allocated-IsReady r = record {
  tree = IsTree-tail r.tree;
  list = record {
    chain = r.list.chain.1;
    distinct = r.list.distinct.1;
    bounded = r.list.bounded.1;
  };
}

-- One round of the loop: the frame `y` behind the page at `va`.
pub record Round (s u : Vm) (dir va y : ℕ) (free : List ℕ) : Type 0 where
  pub ready : IsReady u dir free
  pub self : (off : ℕ) → off < 4096 → translate u.mem (paddr dir) (va + off) ≡ some (y * 4096 + off)
  pub others :
      (wa : ℕ)
      → wa < 2 ^ 32
      → (wa < va) ⊎ (va + 4096 ≤ wa)
      → translate u.mem (paddr dir) wa ≡ translate s.mem (paddr dir) wa
  pub npages : u.npages ≡ s.npages

module _ {s : Vm} {dir y : ℕ} (xs : List ℕ) (r : IsReady s dir (y ∷ xs)) (va : ℕ)
    (memory : s.npages ≤ 2 ^ 20) (in_word : va < 2 ^ 32) (paged : va % 4096 ≡ 0) where
  pub region-Round :
      (fuel end : ℕ)
      → va < end
      → CanWalk s dir va xs
      → translate s.mem (paddr dir) va ≡ none
      → (u : Vm) × (region_loop (suc fuel) dir va end s
          ≡ region_loop fuel dir ((va + pgsize) % word) end u)
        × Round s u dir va y (left (is_present (pde s.mem (paddr dir) (pdx va))) xs)
  unfolding region_loop
  region-Round fuel end below can unmapped =
      let (u, run, i, refs, flushed) =
        page_insert-Inserted xs (allocated-IsReady r) va y 6 r.list.bounded.0 memory (omega arith)
          in_word r.list.distinct.0 can unmapped in
      (
        u,
        rw (lt→ltb va end below)
            (rw (page_alloc-cons 0 y xs r.list (λ (z : false ≡ true). cc)) (rw run)),
        record {
          ready = i.ready;
          self = λ off h.
              i.self (va + off) (omega arith) ∙ ap (λ o. some (y * 4096 + o)) (omega arith);
          others = λ wa h o. i.others wa h (omega arith);
          npages = i.npages;
        },
      )

pub region_loop-end : (fuel dir va : ℕ) (s : Vm) → region_loop (suc fuel) dir va va s ≡ ok tt s
unfolding region_loop
region_loop-end fuel dir va s = rw (le→ltb va va (omega arith))

-- What is translated has a table.
pub there_of_some :
    (mem : ℕ → ℕ) (cr3 va pa : ℕ)
    → translate mem cr3 va ≡ some pa
    → is_present (pde mem cr3 (pdx va)) ≡ true
there_of_some mem cr3 va pa e = elim (Bool-cases (is_present (pde mem cr3 (pdx va)))) [
  | inl there ↦ there
  | inr gone ↦ cc (translate-absent mem cr3 va gone)
]
