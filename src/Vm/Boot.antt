-- ===== src/Vm/Boot.antt =====
-- Start-up of the memory system: `i386_detect_memory`, `boot_alloc` and `mem_init` of
-- kernel/pmapjos.c. The bytes of the CMOS memory and the end of the kernel image are parameters.
pub mod Layout
pub mod Init
pub mod Entry
use Prim.Native.Nat.{bit_and}
use oslab.Base.{
  ℕ, ◌+◌, ◌-◌, ◌*◌, ◌/◌, ◌%◌, ◌^◌, Bool, true, false, Option, none, some, List, ltb, ◌==◌,
  if◌then◌else◌, bit_or,
}
use oslab.Vm.Layout.{word, kernbase, pgsize, pgnum, paddr, roundup, pte_w, pte_u, pa2page}
use oslab.Vm.State.{Vm, Run, Cmd, ok, pure, ◌>>=◌, ◌>>◌, clear_page, window}
use oslab.Vm.Pages.{page_init}
use oslab.Vm.Tables.{boot_map_region}

-- `nvram_read`: two bytes, the low one first.
abbrev pub nvram_read : (cmos : ℕ → ℕ) → ℕ → ℕ
nvram_read cmos r = bit_or (cmos r) (cmos (r + 1) * 2 ^ 8)

abbrev pub nvram_baselo : ℕ
nvram_baselo = 0xe + 7

abbrev pub nvram_extlo : ℕ
nvram_extlo = 0xe + 9

-- `EXTPHYSMEM`
abbrev pub extphysmem : ℕ
extphysmem = 0x100000

-- `npages_basemem` and `npages`.
unfoldable pub i386_detect_memory : (cmos : ℕ → ℕ) → ℕ × ℕ
i386_detect_memory cmos =
    let npages_basemem = nvram_read cmos nvram_baselo * 1024 / pgsize in
    let npages_extmem = nvram_read cmos nvram_extlo * 1024 / pgsize in
    (
      npages_basemem,
      if npages_extmem == 0 then npages_basemem else extphysmem / pgsize + npages_extmem,
    )

-- `boot_alloc` with the static `nextfree` passed in: the result and the new `nextfree`.
unfoldable pub boot_alloc : (image_end nextfree n : ℕ) → ℕ × ℕ
boot_alloc image_end nextfree n =
    let result = if nextfree == 0 then roundup image_end pgsize else nextfree in
    (result, (result + roundup n pgsize / 2 ^ 12 * pgsize) % word)

-- sizeof(struct PageInfo), sizeof(struct Env) and NENV.
abbrev pub sizeof_page_info : ℕ
sizeof_page_info = 8

abbrev pub sizeof_env : ℕ
sizeof_env = 96

abbrev pub nenv : ℕ
nenv = 1024

-- The index of the page at which the loop of `page_init` stops.
abbrev pub stop_page : (image_end npages : ℕ) → ℕ
stop_page image_end npages = pa2page (
    (image_end
      + word
      - kernbase
      + pgsize
      + roundup (npages * sizeof_page_info) pgsize
      + roundup (sizeof_env * nenv) pgsize)
    % word)

-- The new value of CR0, from the old.
abbrev pub cr0_bits : ℕ → ℕ
cr0_bits cr0 =
    bit_and
      (bit_or cr0
        (bit_or (bit_or (bit_or (bit_or (bit_or 0x1 0x80000000) 0x40000) 0x10000) 0x20) 0x2))
      (word - 1 - bit_or 0x8 0x4)

-- The addresses that `mem_init` hands out and the control registers that it loads.
pub record Booted : Type 0 where
  pub kern_pgdir : ℕ
  pub pages_at : ℕ
  pub envs : ℕ
  pub nextfree : ℕ
  pub cr3 : ℕ
  pub cr0 : ℕ

-- `memset(envs, 0, n)` over whole words.
abbrev pub cleared : (ℕ → ℕ) → (from n : ℕ) → ℕ → ℕ
cleared mem from n a = if ltb a from then mem a else if ltb a (from + n) then 0 else mem a

-- Both ends of the range lie where the kernel can reach memory.
abbrev pub clear_range : (kva n : ℕ) → Cmd (Unit {0})
clear_range kva n s =
    if ltb (paddr kva + n) window
    then ok tt (record s { mem = cleared s.mem (paddr kva) n })
    else Run.fault

-- `mem_init`, from the image end and the memory that was detected. (The three `static` variables that
-- it sets are results; `page_free_list` is still NULL and `nextfree` 0 when it is called.)
unfoldable pub mem_init : (image_end npages cr0 : ℕ) → Cmd Booted
mem_init image_end npages cr0 s =
    let (kern_pgdir, next1) = boot_alloc image_end 0 pgsize in
    let (pages_at, next2) = boot_alloc image_end next1 (npages * sizeof_page_info) in
    let (envs, next3) = boot_alloc image_end next2 (nenv * sizeof_env) in
    (do
      clear_page kern_pgdir
      clear_range envs (nenv * sizeof_env)
      page_init (stop_page image_end npages)
      boot_map_region kern_pgdir 0xc0000000 (0xc0400000 - 0xc0000000) 0x0 (bit_or pte_w pte_u)
      boot_map_region kern_pgdir 0x00000 0x400000 0x00000 (bit_or pte_w pte_u)
      pure (record {
        kern_pgdir = kern_pgdir;
        pages_at = pages_at;
        envs = envs;
        nextfree = next3;
        cr3 = paddr kern_pgdir;
        cr0 = cr0_bits cr0;
      }))
      (record s { npages = npages })
