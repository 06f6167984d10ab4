-- ===== src/Vm/Fill/BootMap.antt =====
-- `boot_map_region` over a region that one directory entry covers, as both calls of `mem_init` are.
use mathlib.Core.Path.{ap₂, subst, sym}
use mathlib.Core.Bool.{Bool}
use oslab.Base.{
  ℕ, zero, suc, ◌+◌, ◌*◌, ◌/◌, ◌%◌, ◌^◌, ◌<◌, ◌≤◌, ◌≡◌, ◌⊎◌, refl, ap, ◌∙◌, true, Option, some,
  List, [], ◌∷◌, arith, inl,
}
use oslab.Vm.Layout.{word, pgsize, pdx, pte_addr, paddr}
use oslab.Vm.State.{Vm, ok}
use oslab.Vm.Tables.{is_present, boot_map_loop, boot_map_region}
use oslab.Vm.Mmu.{pde, translate}
use oslab.Vm.Walk.{IsReady, CanWalk, Walked, pgdir_walk-Walked, left, left_present}
use oslab.Vm.Fill.{
  entry_for, filled, store-filled, filled-IsReady, pde-filled, translate-filled_ne,
  translate-filled_self,
}

-- What mapping `np` pages at `va` onto `pa` means for the translation `old` that it replaces.
pub record Maps (old new : ℕ → Option ℕ) (va pa np : ℕ) : Type 0 where
  pub inside :
      (k off : ℕ) → k < np → off < 4096 → new (va + k * 4096 + off) ≡ some (pa + k * 4096 + off)
  pub outside : (wa : ℕ) → wa < 2 ^ 32 → (wa < va) ⊎ (va + np * 4096 ≤ wa) → new wa ≡ old wa

Maps-none : (f : ℕ → Option ℕ) (va pa : ℕ) → Maps f f va pa 0
Maps-none f va pa = record { inside = λ k off lt h. absurd (omega arith); outside = λ wa h o. refl }

-- One page mapped, and then `np` more behind it.
Maps-next :
    {old mid new : ℕ → Option ℕ} (va pa np : ℕ)
    → va + suc np * 4096 ≤ 2 ^ 32
    → ((off : ℕ) → off < 4096 → mid (va + off) ≡ some (pa + off))
    → ((wa : ℕ) → wa < 2 ^ 32 → (wa < va) ⊎ (va + 4096 ≤ wa) → mid wa ≡ old wa)
    → Maps mid new (va + 4096) (pa + 4096) np
    → Maps old new va pa (suc np)
Maps-next {old} {mid} {new} va pa np fits self others rest = record {
  inside = inside;
  outside = λ wa h o. rest.outside wa h (omega arith) ∙ others wa h (omega arith);
}
  where
    inside :
        (k off : ℕ)
        → k < suc np
        → off < 4096
        → new (va + k * 4096 + off) ≡ some (pa + k * 4096 + off)
    inside zero off lt h =
        let e : va + 0 * 4096 + off ≡ va + off = omega arith in
        let e' : pa + 0 * 4096 + off ≡ pa + off = omega arith in
        rw (e, e') (rest.outside (va + off) (omega arith) (omega arith) ∙ self off h)
    inside (suc k) off lt h =
        let e : va + suc k * 4096 + off ≡ va + 4096 + k * 4096 + off = omega arith in
        let e' : pa + suc k * 4096 + off ≡ pa + 4096 + k * 4096 + off = omega arith in
        rw (e, e') (rest.inside k off (omega arith) h)

module _ {s : Vm} {dir : ℕ} {free : List ℕ} (r : IsReady s dir free) (va pa perm : ℕ)
    (can : CanWalk s dir va free) (small : perm < 4096) (aligned : pa % 4096 ≡ 0) where
  -- The first round.
  boot_map_first :
      (np : ℕ)
      → (t : Vm) × (boot_map_loop (suc np) dir va pa perm s
          ≡ boot_map_loop np dir
              ((va + pgsize) % word)
              ((pa + pgsize) % word)
              perm
              (filled dir va (entry_for pa perm) t))
        × ((p : ℕ) × Walked s t dir va p free
              (left (is_present (pde s.mem (paddr dir) (pdx va))) free))
  unfolding boot_map_loop
  boot_map_first np =
      let (p, t, run, w) = pgdir_walk-Walked free r va can in
      let at : pte_addr pa ≡ pa = omega arith in
      (
        t,
        rw run (rw at (rw (store-filled w.ready va w.there p (entry_for pa perm) w.points))),
        (p, w),
      )

-- A directory after one page of the region is mapped.
record Round (s u : Vm) (dir va pa : ℕ) (free : List ℕ) : Type 0 where
  ready : IsReady u dir free
  there : is_present (pde u.mem (paddr dir) (pdx va)) ≡ true
  self : (off : ℕ) → off < 4096 → translate u.mem (paddr dir) (va + off) ≡ some (pa + off)
  others :
      (wa : ℕ)
      → wa < 2 ^ 32
      → (wa < va) ⊎ (va + 4096 ≤ wa)
      → translate u.mem (paddr dir) wa ≡ translate s.mem (paddr dir) wa

Walked-Round :
    {s t : Vm} {dir va p : ℕ} {was free : List ℕ} (pa perm : ℕ)
    → Walked s t dir va p was free
    → perm < 4096
    → pa % 4096 ≡ 0
    → va % 4096 ≡ 0
    → va < 2 ^ 32
    → Round s (filled dir va (entry_for pa perm) t) dir va pa free
Walked-Round {s} {t} {dir} {va} pa perm w small aligned paged low = record {
  ready = filled-IsReady w.ready va w.there (entry_for pa perm);
  there = rw (pde-filled w.ready va w.there (pdx va) (entry_for pa perm) (omega arith)) w.there;
  self = λ off h.
      translate-filled_self w.ready va w.there (va + off) pa perm (omega arith) aligned small
      ∙ ap (λ o. some (pa + o)) (omega arith);
  others = λ wa h o.
      translate-filled_ne w.ready va w.there wa (entry_for pa perm) low h (omega arith)
      ∙ w.keeps wa;
}

boot_map_loop-none : (dir va pa perm : ℕ) (s : Vm) → boot_map_loop 0 dir va pa perm s ≡ ok tt s
unfolding boot_map_loop
boot_map_loop-none dir va pa perm s = refl

CanWalk-there :
    (s : Vm) (dir va : ℕ) (free : List ℕ)
    → is_present (pde s.mem (paddr dir) (pdx va)) ≡ true
    → CanWalk s dir va free
CanWalk-there s dir va [] there = there
CanWalk-there s dir va (x ∷ xs) there = inl there

-- The free list after `np` pages: a missing table takes its first page.
abbrev pub used : ℕ → Bool → List ℕ → List ℕ
used zero present free = free
used (suc np) present free = left present free

boot_map_loop-Maps :
    (np : ℕ) {s : Vm} {dir : ℕ} {free : List ℕ} (va pa perm : ℕ)
    → IsReady s dir free
    → CanWalk s dir va free
    → perm < 4096
    → pa % 4096 ≡ 0
    → va % 4096 ≡ 0
    → va % 2 ^ 22 + np * 4096 ≤ 2 ^ 22
    → va < 2 ^ 32
    → pa + np * 4096 ≤ 2 ^ 32
    → (t : Vm) × (boot_map_loop np dir va pa perm s ≡ ok tt t)
      × IsReady t dir (used np (is_present (pde s.mem (paddr dir) (pdx va))) free)
      × Maps (translate s.mem (paddr dir)) (translate t.mem (paddr dir)) va pa np
boot_map_loop-Maps zero {s} {dir} {free} va pa perm r can small aligned paged one h k =
    (s, boot_map_loop-none dir va pa perm s, r, Maps-none (translate s.mem (paddr dir)) va pa)
boot_map_loop-Maps (suc zero) {s} {dir} {free} va pa perm r can small aligned paged one h k =
    let (t, run, (p, w)) = boot_map_first r va pa perm can small aligned 0 in
    let o = Walked-Round pa perm w small aligned paged h in
    let u = filled dir va (entry_for pa perm) t in
    (
      u,
      run ∙ boot_map_loop-none dir ((va + pgsize) % word) ((pa + pgsize) % word) perm u,
      o.ready,
      Maps-next va pa 0 (omega arith) o.self o.others
          (Maps-none (translate u.mem (paddr dir)) (va + 4096) (pa + 4096)),
    )
boot_map_loop-Maps (suc (suc np)) {s} {dir} {free} va pa perm r can small aligned paged one h k =
    let (t, run, (p, w)) = boot_map_first r va pa perm can small aligned (suc np) in
    let o = Walked-Round pa perm w small aligned paged h in
    let u = filled dir va (entry_for pa perm) t in
    let e : (va + pgsize) % word ≡ va + 4096 = omega arith in
    let e' : (pa + pgsize) % word ≡ pa + 4096 = omega arith in
    let d : pdx (va + 4096) ≡ pdx va = omega arith in
    let there : is_present (pde u.mem (paddr dir) (pdx (va + 4096))) ≡ true = rw d o.there in
    let (v, run', r', m) =
      boot_map_loop-Maps (suc np) (va + 4096) (pa + 4096) perm o.ready
        (CanWalk-there u dir (va + 4096) _ there) small (omega arith) (omega arith) (omega arith)
        (omega arith) (omega arith) in
    (
      v,
      run ∙ ap₂ (λ a b. boot_map_loop (suc np) dir a b perm u) e e' ∙ run',
      subst (IsReady v dir)
          (sym (left_present there (left (is_present (pde s.mem (paddr dir) (pdx va))) free))) r',
      Maps-next va pa (suc np) (omega arith) o.self o.others m,
    )

-- `boot_map_region` over a page-aligned region that lies under one directory entry, to physical
-- addresses that do not wrap and with the permissions in the low twelve bits, returns if that entry
-- has a table or the next free page lies below 4MB. Afterwards the MMU sends every byte of the
-- region to the byte at the same offset from `pa`, translates every other address as before, and
-- directory and free list are well formed; only a missing table takes a page off the list.
pub boot_map_region-Maps :
    {s : Vm} {dir : ℕ} {free : List ℕ} (va size pa perm : ℕ)
    → IsReady s dir free
    → CanWalk s dir va free
    → perm < 4096
    → pa % 4096 ≡ 0
    → va % 4096 ≡ 0
    → va % 2 ^ 22 + size ≤ 2 ^ 22
    → va < 2 ^ 32
    → pa + size ≤ 2 ^ 32
    → (t : Vm) × (boot_map_region dir va size pa perm s ≡ ok tt t)
      × IsReady t dir (used (size / pgsize) (is_present (pde s.mem (paddr dir) (pdx va))) free)
      × Maps (translate s.mem (paddr dir)) (translate t.mem (paddr dir)) va pa (size / pgsize)
unfolding boot_map_region
boot_map_region-Maps va size pa perm r can small aligned paged one h k =
    boot_map_loop-Maps (size / pgsize) va pa perm r can small aligned paged (omega arith) h
      (omega arith)
