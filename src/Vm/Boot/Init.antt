-- ===== src/Vm/Boot/Init.antt =====
-- `mem_init`: the address space that it sets up.
use mathlib.Core.Path.{subst}
use oslab.Vm.Pages.{page_init}
use oslab.Base.{
  ℕ, zero, suc, ◌+◌, ◌-◌, ◌*◌, ◌/◌, ◌%◌, ◌<◌, ◌≤◌, ◌≡◌, ◌≢◌, ◌⊎◌, inr, refl, ap, ◌∙◌, arith, true,
  false, Option, none, some, List, ◌∷◌, All, lt→ltb, eq→==,
}
use oslab.Vm.Layout.{word, kernbase, pgsize, pgnum, pdx, paddr, roundup}
use oslab.Vm.State.{Vm, ok, clear_page, ◌>>◌, window, zeroed}
use oslab.Vm.Tables.{is_present, boot_map_region}
use oslab.Vm.FreeList.{IsFreeList}
use oslab.Vm.FreeList.Init.{upfrom, page_init-IsFreeList}
use oslab.Vm.Mmu.{pde, translate, translate-absent, IsTree}
use oslab.Vm.Walk.{IsReady, left}
use oslab.Vm.Fill.BootMap.{Maps, boot_map_region-Maps, used}
use oslab.Vm.Boot.{
  boot_alloc, sizeof_page_info, sizeof_env, nenv, stop_page, mem_init, Booted, cleared, clear_range,
  cr0_bits,
}
use oslab.Vm.Boot.Layout.{Fits, last_block, envs_lem, second_block, second_block_lem}

-- The first 4MB of physical memory appear at 0 and at KERNBASE, and nothing else is mapped.
pub record KernelMap (f : ℕ → Option ℕ) : Type 0 where
  pub low : (va : ℕ) → va < 0x400000 → f va ≡ some va
  pub high : (va : ℕ) → va < 0x400000 → f (kernbase + va) ≡ some va
  pub rest :
      (va : ℕ)
      → va < word
      → 0x400000 ≤ va
      → (va < kernbase) ⊎ (kernbase + 0x400000 ≤ va)
      → f va ≡ none

-- Two regions mapped over an empty address space.
two_regions :
    {old mid new : ℕ → Option ℕ}
    → ((va : ℕ) → old va ≡ none)
    → Maps old mid kernbase 0 1024
    → Maps mid new 0 0 1024
    → KernelMap new
two_regions {old} {mid} {new} empty a b = record {
  low = λ va h.
      let e : 0 + va / 4096 * 4096 + va % 4096 ≡ va = omega arith in
      rw e at (b.inside (va / 4096) (va % 4096) (omega arith) (omega arith));
  high = λ va h.
      let e : kernbase + va / 4096 * 4096 + va % 4096 ≡ kernbase + va = omega arith in
      let e' : 0 + va / 4096 * 4096 + va % 4096 ≡ va = omega arith in
      b.outside (kernbase + va) (omega arith) (omega arith)
      ∙ (rw (e, e') at (a.inside (va / 4096) (va % 4096) (omega arith) (omega arith)));
  rest = λ va h le o. b.outside va h (omega arith) ∙ a.outside va h (omega arith) ∙ empty va;
}

-- A cleared directory page maps nothing and has the right shape.
empty-IsTree :
    (mem : ℕ → ℕ) (cr3 : ℕ) (free : List ℕ)
    → cr3 % 4096 ≡ 0
    → cr3 < window
    → All (λ f. f ≢ pgnum cr3) free
    → ((i : ℕ) → i < 1024 → pde mem cr3 i ≡ 0)
    → IsTree mem cr3 free
empty-IsTree mem cr3 free aligned low used empty = record {
  aligned = aligned;
  dir_low = low;
  dir_used = used;
  low = λ i h p. absurd (omega (arith, zero_entry i h p));
  not_dir = λ i h p. absurd (zero_entry i h p);
  apart = λ i j h k ne p q. absurd (zero_entry i h p);
  used = λ i h p. absurd (zero_entry i h p);
}
  where
    zero_entry : (i : ℕ) → i < 1024 → is_present (pde mem cr3 i) ≡ true → ⊥
    zero_entry i h p = ground (arith, empty i h)

upfrom-ne : (d n k : ℕ) → d < n → All (λ f. f ≢ d) (upfrom n k)
upfrom-ne d n zero h = tt
upfrom-ne d n (suc k) h = (omega arith, upfrom-ne d (suc n) k (omega arith))

-- The two calls of `boot_map_region`, from an empty directory and two pages below 4MB.
two_calls :
    (t : Vm) (dir x y : ℕ) (ys : List ℕ)
    → IsReady t dir (x ∷ y ∷ ys)
    → x < 1024
    → y < 1024
    → ((i : ℕ) → i < 1024 → pde t.mem (paddr dir) i ≡ 0)
    → (u : Vm) × (v : Vm) × (xs : List ℕ) × (boot_map_region dir 0xc0000000 0x400000 0 6 t
        ≡ ok tt u)
      × (boot_map_region dir 0 0x400000 0 6 u ≡ ok tt v)
      × IsReady v dir xs
      × KernelMap (translate v.mem (paddr dir))
two_calls t dir x y ys r low low' empty =
    let gone : is_present (pde t.mem (paddr dir) (pdx 0xc0000000)) ≡ false =
      rw (empty 768 (omega arith)) in
    let none_mapped =
      λ (va : ℕ). translate-absent t.mem (paddr dir) va (rw (empty (pdx va) (omega arith))) in
    let (u, run_u, r_u, m_u) =
      boot_map_region-Maps 0xc0000000 0x400000 0 6 r (inr low) (omega arith) refl refl (omega arith)
        (omega arith) (omega arith) in
    let r_u' : IsReady u dir (y ∷ ys) =
      subst (IsReady u dir) (ap (λ b. left b (x ∷ y ∷ ys)) gone) r_u in
    let (v, run_v, r_v, m_v) =
      boot_map_region-Maps 0 0x400000 0 6 r_u' (inr low') (omega arith) refl refl (omega arith)
        (omega arith) (omega arith) in
    (
      u,
      v,
      left (is_present (pde u.mem (paddr dir) (pdx 0))) (y ∷ ys),
      run_u,
      run_v,
      r_v,
      two_regions none_mapped m_u m_v,
    )

cleared-zero : (mem : ℕ → ℕ) (from n a : ℕ) → mem a ≡ 0 → cleared mem from n a ≡ 0
cleared-zero mem from n a e = ground arith

module _ (s : Vm) (image_end npages cr0 : ℕ) (f : Fits image_end npages)
    (empty : s.page_free_list ≡ none) (low : stop_page image_end npages + 2 < 1024)
    (enough : stop_page image_end npages + 2 < npages) where
  abbrev stop : ℕ
  stop = stop_page image_end npages

  abbrev dir : ℕ
  dir = (boot_alloc image_end 0 pgsize).0

  abbrev envs_at : ℕ
  envs_at = (boot_alloc image_end (second_block image_end npages) (nenv * sizeof_env)).0

  dir_lem : dir ≡ roundup image_end pgsize
  unfolding boot_alloc
  dir_lem = refl

  -- The memory after both calls of `memset`.
  abbrev wiped : Vm
  wiped = record s {
    npages = npages;
    mem = cleared (zeroed s.mem (pgnum (paddr dir))) (paddr envs_at) (nenv * sizeof_env);
  }

  wiped_zero : (i : ℕ) → i < 1024 → pde wiped.mem (paddr dir) i ≡ 0
  wiped_zero i h =
      cleared-zero (zeroed s.mem (pgnum (paddr dir))) (paddr envs_at) (nenv * sizeof_env)
        (paddr dir + 4 * i)
        (rw (
          eq→== (pgnum (paddr dir + 4 * i)) (pgnum (paddr dir))
            (omega (arith, dir_lem, f.above, f.below))))

  -- The directory is in reach and lies below the page where `page_init` stops.
  dir_place : (paddr dir % 4096 ≡ 0) × (paddr dir < window) × (pgnum (paddr dir) < suc stop)
  dir_place =
      let e = dir_lem in
      (
        omega (arith, f.above, f.below),
        omega (arith, f.above, f.below),
        omega (arith, f.above, f.below),
      )

  envs_place : paddr envs_at + nenv * sizeof_env < window
  envs_place =
      omega
        (arith, envs_lem image_end npages f, second_block_lem image_end npages f, f.above, f.below)

  clears :
      (do clear_page dir; clear_range envs_at (nenv * sizeof_env)) (record s { npages = npages })
      ≡ ok tt wiped
  clears =
      rw (lt→ltb (paddr dir) window dir_place.1)
        (rw (lt→ltb (paddr envs_at + nenv * sizeof_env) window envs_place))

  -- The free pages that `page_init` leaves, with the first two split off for tables.
  abbrev free : List ℕ
  free = upfrom (suc stop) (npages - suc stop)

  free_lem :
      free
      ≡ suc stop ∷ suc (suc stop) ∷ upfrom (suc (suc (suc stop))) (npages - suc (suc (suc stop)))
  free_lem =
      let e : npages - suc stop ≡ suc (suc (npages - suc (suc (suc stop)))) = omega arith in rw e

  ready : {t : Vm} → IsFreeList t free → t.mem ≡ wiped.mem → IsReady t dir free
  ready {t} list same = record {
    tree = rw same (
        empty-IsTree wiped.mem (paddr dir) free dir_place.0 dir_place.1
          (upfrom-ne (pgnum (paddr dir)) (suc stop) (npages - suc stop) dir_place.2) wiped_zero);
    list = list;
  }

  -- The record that `mem_init` fills.
  abbrev result : Booted
  result = record {
    kern_pgdir = dir;
    pages_at =
        (boot_alloc image_end (boot_alloc image_end 0 pgsize).1 (npages * sizeof_page_info)).0;
    envs = envs_at;
    nextfree = last_block image_end npages;
    cr3 = paddr dir;
    cr0 = cr0_bits cr0;
  }

  mem_init_run :
      (t u v : Vm)
      → page_init stop wiped ≡ ok tt t
      → boot_map_region dir 0xc0000000 0x400000 0 6 t ≡ ok tt u
      → boot_map_region dir 0 0x400000 0 6 u ≡ ok tt v
      → mem_init image_end npages cr0 s ≡ ok result v
  unfolding mem_init
  mem_init_run t u v a b c =
      rw (lt→ltb (paddr dir) window dir_place.1)
        (rw (lt→ltb (paddr envs_at + nenv * sizeof_env) window envs_place) (rw a (rw b (rw c))))

  -- `mem_init` on a machine whose free memory starts below 4MB, less two pages, returns. It loads CR3
  -- with the directory that it made; in it the first 4MB of physical memory appear at address 0 and at
  -- KERNBASE and nothing else is mapped. The directory and the free list are well formed.
  pub mem_init-KernelMap :
      (t : Vm) × (b : Booted) × (xs : List ℕ) × (mem_init image_end npages cr0 s ≡ ok b t)
      × (b.cr3 ≡ paddr b.kern_pgdir)
      × (b.kern_pgdir ≡ roundup image_end pgsize)
      × IsReady t b.kern_pgdir xs
      × KernelMap (translate t.mem b.cr3)
  mem_init-KernelMap =
      let (t, run, list, same_npages, same_mem) =
        page_init-IsFreeList wiped stop empty (omega arith) in
      let (u, v, xs, run_u, run_v, r, m) =
        two_calls t dir (suc stop) (suc (suc stop))
          (upfrom (suc (suc (suc stop))) (npages - suc (suc (suc stop))))
          (subst (IsReady t dir) free_lem (ready list same_mem)) (omega arith) (omega arith)
          (λ i h. ap (λ mem. pde mem (paddr dir) i) same_mem ∙ wiped_zero i h) in
      (v, result, xs, mem_init_run t u v run run_u run_v, refl, dir_lem, r, m)
