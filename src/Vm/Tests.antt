-- ===== src/Vm/Tests.antt =====
-- The theorems on kernel/pmapjos.c at concrete states, and short runs.
use oslab.Base.{
  ◌⊎◌, ℕ, ◌+◌, ◌*◌, ◌%◌, ◌<◌, ◌≤◌, ◌≡◌, refl, Option, none, some, List, [], ◌∷◌, arith, ◌==◌,
  if◌then◌else◌, true, inr, All, ltb, ◌/◌, ◌-◌, ap, lt→ltb, le→ltb,
}
use oslab.Vm.Layout.{kernbase, paddr, pgsize, roundup}
use oslab.Vm.State.{Vm, PageInfo, ok, fault, zeroed}
use oslab.Vm.Pages.{page_init, page_alloc, page_free, wants_zero}
use oslab.Vm.Tables.{
  pgdir_walk, boot_map_region, page_insert, page_remove, region_alloc, success, e_no_mem,
}
use oslab.Vm.FreeList.{IsFreeList, page_alloc-page_free}
use oslab.Vm.FreeList.Init.{upfrom, page_init-lem}
use oslab.Vm.Mmu.{translate, IsTree}
use oslab.Vm.Walk.{IsReady, Walked, pgdir_walk-Walked}
use oslab.Vm.Fill.BootMap.{Maps, boot_map_region-Maps}
use oslab.Vm.Remove.{IsData, Removed, page_remove-Removed, page_remove-fault}
use oslab.Vm.Insert.{Inserted, ref_up, page_insert-Inserted, page_insert-no_memory}
use oslab.Vm.Insert.Replace.{page_insert-over, page_insert_again}
use oslab.Vm.Backed.{Backed}
use oslab.Vm.Region.{region_alloc-Backed}
use oslab.Vm.Boot.{Booted, boot_alloc, mem_init, stop_page}
use oslab.Vm.Boot.Layout.{Fits, last_block, page_init-above, boot_alloc-block}
use oslab.Vm.Boot.Init.{KernelMap, mem_init-KernelMap}
use oslab.Vm.Boot.Entry.{Loaded, entry_pgdir, entry_pgtable, entry_pgdir-KernelMap}

abbrev info : Option ℕ → ℕ → PageInfo
info l r = record { pp_link = l; pp_ref = r }

-- Six pages, none on the free list.
abbrev blank : Vm
blank = record {
  npages = 6;
  pages = λ _. info none 0;
  page_free_list = none;
  mem = λ _. 0;
  flushed = [];
}

-- Pages 3, 4 and 5 free, and an empty directory in page 1.
abbrev pool : Vm
pool = record blank {
  pages = λ i. if i == 3 then info (some 4) 0 else if i == 4 then info (some 5) 0 else info none 0;
  page_free_list = some 3;
}

abbrev dir : ℕ
dir = 0xc0001000

abbrev user_va : ℕ
user_va = 0x8048000

pool-IsFreeList : IsFreeList pool (3 ∷ 4 ∷ 5 ∷ [])
pool-IsFreeList = record {
  chain = (refl, (refl, (refl, refl)));
  distinct = omega arith;
  bounded = omega arith;
}

pool-IsReady : IsReady pool dir (3 ∷ 4 ∷ 5 ∷ [])
pool-IsReady = record {
  tree = record {
    aligned = refl;
    dir_low = omega arith;
    dir_used = omega arith;
    low = λ i h p. cc;
    not_dir = λ i h p. cc;
    apart = λ i j h k ne p q. cc;
    used = λ i h p. cc;
  };
  list = pool-IsFreeList;
}

-- Page 2 is the table for `user_va`, which is mapped to page 3; 4 and 5 are free.
abbrev mapped_mem : ℕ → ℕ
mapped_mem a = if a == 0x1080 then 0x2007 else if a == 0x2120 then 0x3007 else 0

abbrev busy : Vm
busy = record blank {
  pages = λ i. if i == 3 then info none 1 else if i == 4 then info (some 5) 0 else info none 0;
  page_free_list = some 4;
  mem = mapped_mem;
}

busy-IsTree : IsTree mapped_mem (paddr dir) (4 ∷ 5 ∷ [])
busy-IsTree = record {
  aligned = refl;
  dir_low = omega arith;
  dir_used = omega arith;
  low = λ i h p. ground arith;
  not_dir = λ i h p. ground arith;
  apart = λ i j h k ne p q. ground arith;
  used = λ i h p. ground arith;
}

busy-IsReady : IsReady busy dir (4 ∷ 5 ∷ [])
busy-IsReady = record {
  tree = busy-IsTree;
  list = record { chain = (refl, (refl, refl)); distinct = omega arith; bounded = omega arith };
}

busy-IsData : IsData busy dir (4 ∷ 5 ∷ []) 3
busy-IsData = record {
  bounded = omega arith;
  used = omega arith;
  not_dir = omega arith;
  not_table = λ i h p. ground arith;
}

pool-unmapped : (va : ℕ) → translate (λ _. 0) (paddr dir) va ≡ none
unfolding translate
pool-unmapped va = refl

page_init-lem_example :
    ((2 < 6)
      × ((t : Vm) × (page_init 2 blank ≡ ok tt t) × IsFreeList t (upfrom 3 3) × (t.npages ≡ 6)))
    ⊎ ((6 ≤ 2) × (page_init 2 blank ≡ fault))
page_init-lem_example = page_init-lem blank 2 refl (omega arith)

page_alloc-page_free_example :
    (t : Vm) × (u : Vm) × (page_free 2 pool ≡ ok tt t)
    × IsFreeList t (2 ∷ 3 ∷ 4 ∷ 5 ∷ [])
    × (page_alloc 1 t ≡ ok (some 2) u)
    × IsFreeList u (3 ∷ 4 ∷ 5 ∷ [])
    × (u.mem ≡ (if wants_zero 1 then zeroed pool.mem 2 else pool.mem))
page_alloc-page_free_example =
    page_alloc-page_free pool 1 2 (3 ∷ 4 ∷ 5 ∷ []) pool-IsFreeList (omega arith) (omega arith)
      (λ h. omega arith)

pgdir_walk-Walked_example :
    (p : ℕ) × (t : Vm) × (pgdir_walk dir user_va true pool ≡ ok (some p) t)
    × Walked pool t dir user_va p (3 ∷ 4 ∷ 5 ∷ []) (4 ∷ 5 ∷ [])
pgdir_walk-Walked_example =
    pgdir_walk-Walked (3 ∷ 4 ∷ 5 ∷ []) pool-IsReady user_va (inr (omega arith))

boot_map_region-Maps_example :
    (t : Vm) × (boot_map_region dir 0 0x400000 0 6 pool ≡ ok tt t)
    × IsReady t dir (4 ∷ 5 ∷ [])
    × Maps (translate pool.mem (paddr dir)) (translate t.mem (paddr dir)) 0 0 1024
boot_map_region-Maps_example =
    boot_map_region-Maps 0 0x400000 0 6 pool-IsReady (inr (omega arith)) (omega arith) refl refl
      (omega arith) (omega arith) (omega arith)

page_remove-fault_example : page_remove dir user_va pool ≡ fault
page_remove-fault_example = page_remove-fault user_va pool-IsReady refl

page_remove-Removed_example :
    (t : Vm) × (page_remove dir user_va busy ≡ ok tt t) × Removed busy t dir user_va 3 (4 ∷ 5 ∷ [])
page_remove-Removed_example =
    page_remove-Removed busy-IsReady user_va refl 3 refl (omega arith) busy-IsData (omega arith)
      (omega arith)

-- The same with no page free.
abbrev dry : Vm
dry = blank

dry-IsReady : IsReady dry dir []
dry-IsReady = record {
  tree = record {
    aligned = refl;
    dir_low = omega arith;
    dir_used = tt;
    low = λ i h p. cc;
    not_dir = λ i h p. cc;
    apart = λ i j h k ne p q. cc;
    used = λ i h p. cc;
  };
  list = record { chain = refl; distinct = tt; bounded = tt };
}

page_insert-no_memory_example : page_insert dir (some 2) user_va 6 dry ≡ ok e_no_mem dry
page_insert-no_memory_example =
    page_insert-no_memory [] dry-IsReady user_va 2 6 (omega arith) (omega arith) (omega arith)
      (omega arith) refl refl

page_insert-Inserted_example :
    (t : Vm) × (page_insert dir (some 2) user_va 6 pool ≡ ok success t)
    × Inserted pool t dir user_va 2 (4 ∷ 5 ∷ [])
    × ((t.pages 2).pp_ref ≡ ref_up 0)
    × (t.flushed ≡ user_va ∷ [])
page_insert-Inserted_example =
    page_insert-Inserted (3 ∷ 4 ∷ 5 ∷ []) pool-IsReady user_va 2 6 (omega arith) (omega arith)
      (omega arith) (omega arith) (omega arith) (inr (omega arith)) (pool-unmapped user_va)

page_insert-over_example :
    (t : Vm) × (page_insert dir (some 0) user_va 6 busy ≡ ok success t)
    × Inserted busy t dir user_va 0 (3 ∷ 4 ∷ 5 ∷ [])
    × ((t.pages 0).pp_ref ≡ ref_up 0)
    × ((t.pages 3).pp_ref ≡ 0)
page_insert-over_example =
    page_insert-over busy-IsReady user_va refl refl 3 refl busy-IsData (omega arith) (omega arith) 6
      (omega arith) (omega arith) 0 (omega arith) (omega arith) (omega arith)

page_insert_again_example :
    (t : Vm) × (page_insert dir (some 3) user_va 6 busy ≡ ok success t)
    × Inserted busy t dir user_va 3 (4 ∷ 5 ∷ [])
    × ((t.pages 3).pp_ref ≡ 1)
page_insert_again_example =
    page_insert_again busy-IsReady user_va refl refl 3 refl busy-IsData (omega arith) (omega arith)
      6 (omega arith) (omega arith)

-- One page with a new table: page 3 is the frame and page 4 the table.
region_alloc-Backed_example :
    (t : Vm) × (region_alloc dir (user_va + 0x123) 0x456 pool ≡ ok tt t)
    × IsReady t dir (5 ∷ [])
    × Backed (translate pool.mem (paddr dir)) (translate t.mem (paddr dir)) user_va (3 ∷ [])
region_alloc-Backed_example =
    region_alloc-Backed (3 ∷ 4 ∷ 5 ∷ []) (3 ∷ []) (5 ∷ []) (user_va + 0x123) 0x456 pool-IsReady
      (omega arith) (4, refl, omega arith) (omega arith) refl (omega arith)
      (λ wa h k. pool-unmapped wa)

boot_alloc-block_example :
    let (result, next) = boot_alloc 0xc0123456 0xc0124000 5000 in
    (result ≡ 0xc0124000)
    × (next % pgsize ≡ 0)
    × (result + 5000 ≤ next)
    × (next < result + 5000 + pgsize)
boot_alloc-block_example =
    boot_alloc-block 0xc0123456 0xc0124000 5000 (omega arith) refl (omega arith)

-- 16MB of memory and an image that ends at KERNBASE + 1MB + 0x23456.
abbrev machine : Vm
machine = record blank { npages = 4096 }

abbrev image_end : ℕ
image_end = 0xc0123456

machine-Fits : Fits image_end 4096
machine-Fits = record { above = omega arith; below = omega arith }

page_init-above_example :
    (t : Vm) × (free : List ℕ) × (page_init (stop_page image_end 4096) machine ≡ ok tt t)
    × IsFreeList t free
    × All (λ x. paddr (last_block image_end 4096) ≤ x * pgsize) free
page_init-above_example = page_init-above machine image_end machine-Fits refl (omega arith)

mem_init-KernelMap_example :
    (t : Vm) × (b : Booted) × (xs : List ℕ) × (mem_init image_end 4096 0 blank ≡ ok b t)
    × (b.cr3 ≡ paddr b.kern_pgdir)
    × (b.kern_pgdir ≡ roundup image_end pgsize)
    × IsReady t b.kern_pgdir xs
    × KernelMap (translate t.mem b.cr3)
mem_init-KernelMap_example =
    mem_init-KernelMap blank image_end 4096 0 machine-Fits refl (omega arith) (omega arith)

-- The two tables of the entry code behind one another.
abbrev entry_mem : ℕ → ℕ
entry_mem a =
    if ltb a 4096 then entry_pgdir (kernbase + 4096) (a / 4) else entry_pgtable ((a - 4096) / 4)

entry-Loaded : Loaded entry_mem 0 4096
entry-Loaded = record {
  dir_at = λ i h.
      rw (lt→ltb (0 + 4 * i) 4096 (omega arith)) (ap (entry_pgdir (kernbase + 4096)) (omega arith));
  table_at = λ i h. rw (le→ltb (4096 + 4 * i) 4096 (omega arith)) (ap entry_pgtable (omega arith));
}

entry_pgdir-KernelMap_example : KernelMap (translate entry_mem 0)
entry_pgdir-KernelMap_example = entry_pgdir-KernelMap entry-Loaded refl
