-- ===== src/Vm/Boot/Layout.antt =====
-- Where `mem_init` puts its arrays, and that the free pages lie behind them.
use oslab.Base.{
  ℕ, ◌+◌, ◌-◌, ◌*◌, ◌/◌, ◌%◌, ◌^◌, ◌<◌, ◌≤◌, ◌≡◌, refl, arith, ne→==, zero, suc, List, All, none,
}
use oslab.Vm.Layout.{word, kernbase, pgsize, paddr, roundup}
use oslab.Vm.State.{Vm, ok}
use oslab.Vm.Pages.{page_init}
use oslab.Vm.FreeList.{IsFreeList}
use oslab.Vm.FreeList.Init.{upfrom, page_init-IsFreeList}
use oslab.Vm.Boot.{boot_alloc, sizeof_page_info, sizeof_env, nenv, stop_page}

-- The kernel image ends above KERNBASE, and image and arrays fit below the top of the address space.
pub record Fits (image_end npages : ℕ) : Type 0 where
  pub above : kernbase ≤ image_end
  pub below : image_end + npages * 8 + 0x20000 < word

-- The first call of `boot_alloc` starts at the page boundary behind the kernel image.
pub boot_alloc-first :
    (image_end n : ℕ)
    → 0 < image_end
    → image_end + n + 8192 < word
    → (boot_alloc image_end 0 n).0 ≡ roundup image_end pgsize
unfolding boot_alloc
boot_alloc-first image_end n some below = refl

-- A block of `boot_alloc` starts on a page boundary where the last one ended, holds the `n` bytes asked
-- for, and wastes less than a page.
pub boot_alloc-block :
    (image_end nextfree n : ℕ)
    → 0 < nextfree
    → nextfree % pgsize ≡ 0
    → nextfree + n + 4096 < word
    → let (result, next) = boot_alloc image_end nextfree n in
      (result ≡ nextfree) × (next % pgsize ≡ 0) × (result + n ≤ next) × (next < result + n + pgsize)
unfolding boot_alloc
boot_alloc-block image_end nextfree n some aligned below =
    rw (ne→== nextfree 0 (omega arith)) (refl, omega arith, omega arith, omega arith)

-- The three blocks of `mem_init` and the end of the last.
abbrev pub last_block : (image_end npages : ℕ) → ℕ
last_block image_end npages =
    let next1 = (boot_alloc image_end 0 pgsize).1 in
    let next2 = (boot_alloc image_end next1 (npages * sizeof_page_info)).1 in
    (boot_alloc image_end next2 (nenv * sizeof_env)).1

boot_alloc-zero :
    (image_end n : ℕ)
    → (boot_alloc image_end 0 n).1
      ≡ (roundup image_end pgsize + roundup n pgsize / 2 ^ 12 * pgsize) % word
unfolding boot_alloc
boot_alloc-zero image_end n = refl

boot_alloc-next :
    (image_end nextfree n : ℕ)
    → 0 < nextfree
    → (boot_alloc image_end nextfree n).1 ≡ (nextfree + roundup n pgsize / 2 ^ 12 * pgsize) % word
unfolding boot_alloc
boot_alloc-next image_end nextfree n some = rw (ne→== nextfree 0 (omega arith))

pub boot_alloc-at :
    (image_end nextfree n : ℕ) → 0 < nextfree → (boot_alloc image_end nextfree n).0 ≡ nextfree
unfolding boot_alloc
boot_alloc-at image_end nextfree n some = rw (ne→== nextfree 0 (omega arith))

-- The end of the `pages` array, where the environments start.
abbrev pub second_block : (image_end npages : ℕ) → ℕ
second_block image_end npages =
    (boot_alloc image_end (boot_alloc image_end 0 pgsize).1 (npages * sizeof_page_info)).1

module _ (image_end npages : ℕ) (f : Fits image_end npages) where
  pub second_block_lem :
      second_block image_end npages
      ≡ roundup image_end pgsize + pgsize + roundup (npages * 8) pgsize
  second_block_lem =
      let a = boot_alloc-zero image_end pgsize in
      let next1 = (boot_alloc image_end 0 pgsize).1 in
      let a' : next1 ≡ roundup image_end pgsize + pgsize = omega (arith, f.above, f.below) in
      let b =
        boot_alloc-next image_end next1 (npages * sizeof_page_info) (omega (arith, f.above)) in
      omega (arith, f.above, f.below)

  -- The environments start there.
  pub envs_lem :
      (boot_alloc image_end (second_block image_end npages) (nenv * sizeof_env)).0
      ≡ second_block image_end npages
  envs_lem =
      boot_alloc-at image_end (second_block image_end npages) (nenv * sizeof_env)
        (omega (arith, second_block_lem, f.above))

  -- The end of the last block, without wrap.
  pub last_block_lem :
      last_block image_end npages ≡ second_block image_end npages + sizeof_env * nenv
  last_block_lem =
      let b = second_block_lem in
      let c =
        boot_alloc-next image_end (second_block image_end npages) (nenv * sizeof_env)
          (omega (arith, f.above)) in
      omega (arith, f.above, f.below)

-- The page directory, the `pages` array and the environments end on a page boundary, at or below the
-- page after the one where `page_init` stops.
pub last_block-le-stop_page :
    (image_end npages : ℕ)
    → Fits image_end npages
    → (last_block image_end npages % pgsize ≡ 0)
      × (image_end ≤ last_block image_end npages)
      × (paddr (last_block image_end npages) ≤ (stop_page image_end npages + 1) * pgsize)
last_block-le-stop_page image_end npages f =
    let e = last_block_lem image_end npages f in
    let e' = second_block_lem image_end npages f in
    (
      omega (arith, f.above, f.below),
      omega (arith, f.above, f.below),
      omega (arith, f.above, f.below),
    )

upfrom-above : (low n k : ℕ) → low ≤ n * pgsize → All (λ x. low ≤ x * pgsize) (upfrom n k)
upfrom-above low n zero h = tt
upfrom-above low n (suc k) h = (h, upfrom-above low (suc n) k (omega arith))

-- `page_init`, called with no page free on a machine that has the page where it stops, returns, and no
-- page that it frees overlaps the kernel image, the page directory, the `pages` array or the
-- environments: every free page starts at or behind the end of the last block of `boot_alloc`.
pub page_init-above :
    (s : Vm) (image_end : ℕ)
    → Fits image_end s.npages
    → s.page_free_list ≡ none
    → stop_page image_end s.npages < s.npages
    → (t : Vm) × (free : List ℕ) × (page_init (stop_page image_end s.npages) s ≡ ok tt t)
      × IsFreeList t free
      × All (λ x. paddr (last_block image_end s.npages) ≤ x * pgsize) free
page_init-above s image_end f empty lt =
    let stop = stop_page image_end s.npages in
    let (t, run, list, same_npages, same_mem) = page_init-IsFreeList s stop empty lt in
    let (aligned, behind, le) = last_block-le-stop_page image_end s.npages f in
    (
      t,
      upfrom (suc stop) (s.npages - suc stop),
      run,
      list,
      upfrom-above (paddr (last_block image_end s.npages)) (suc stop) (s.npages - suc stop)
          (omega arith),
    )
