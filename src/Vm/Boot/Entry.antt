-- ===== src/Vm/Boot/Entry.antt =====
-- The page directory and the page table of kernel/entrypgdir.c, with which the kernel starts.
use oslab.Base.{
  ℕ, ◌+◌, ◌-◌, ◌*◌, ◌/◌, ◌%◌, ◌^◌, ◌<◌, ◌≡◌, ◌≢◌, ◌⊎◌, refl, ap, ◌∙◌, inl, inr, true, false, some,
  ◌==◌, if◌then◌else◌, bit_or, ne→==, arith,
}
use oslab.Base.Bits.{bit_or-one, bit_or_two}
use oslab.Vm.Layout.{kernbase, pdx, ptx, pte_p, pte_w}
use oslab.Vm.Tables.{is_present}
use oslab.Vm.Mmu.{pde, slot, translate, translate-absent}
use oslab.Vm.Boot.Init.{KernelMap}

-- `entry_pgtable` is the kernel virtual address of the table.
unfoldable pub entry_pgdir : (entry_pgtable i : ℕ) → ℕ
entry_pgdir entry_pgtable i =
    if i == 0
    then entry_pgtable - kernbase + pte_p + pte_w
    else if i == kernbase / 2 ^ 22
    then entry_pgtable - kernbase + pte_p + pte_w
    else 0

-- Entry `i` is written out in the source as the address of page `i` with the two flags.
unfoldable pub entry_pgtable : (i : ℕ) → ℕ
entry_pgtable i = bit_or (bit_or (i * 4096) pte_p) pte_w

-- Both are in memory, the directory at physical address `dir` and the table at `table`.
pub record Loaded (mem : ℕ → ℕ) (dir table : ℕ) : Type 0 where
  pub dir_at : (i : ℕ) → i < 1024 → mem (dir + 4 * i) ≡ entry_pgdir (kernbase + table) i
  pub table_at : (i : ℕ) → i < 1024 → mem (table + 4 * i) ≡ entry_pgtable i

entry_pgtable-sum : (i : ℕ) → entry_pgtable i ≡ i * 4096 + 3
unfolding entry_pgtable
entry_pgtable-sum i = omega (arith, bit_or-one (i * 4096), bit_or_two (bit_or (i * 4096) 1))

module _ {mem : ℕ → ℕ} {dir table : ℕ} (l : Loaded mem dir table) (aligned : table % 4096 ≡ 0) where
  translate-table :
      (va : ℕ) → pde mem dir (pdx va) ≡ table + 3 → translate mem dir va ≡ some (va % 2 ^ 22)
  unfolding translate
  translate-table va e =
      let there : is_present (pde mem dir (pdx va)) ≡ true = ground arith in
      let at : slot mem dir va ≡ table + 4 * ptx va = omega (arith, e) in
      let value : mem (slot mem dir va) ≡ ptx va * 4096 + 3 =
        ap mem at ∙ l.table_at (ptx va) (omega arith) ∙ entry_pgtable-sum (ptx va) in
      let on : is_present (mem (slot mem dir va)) ≡ true = ground arith in
      rw there (rw on (ap some (omega (arith, value))))

  entry_dir : (i : ℕ) → i < 1024 → (i ≡ 0) ⊎ (i ≡ 768) → pde mem dir i ≡ table + 3
  unfolding entry_pgdir
  entry_dir i h o = let here = l.dir_at i h in ground arith

  entry_none : (i : ℕ) → i < 1024 → i ≢ 0 → i ≢ 768 → pde mem dir i ≡ 0
  unfolding entry_pgdir
  entry_none i h a b = l.dir_at i h ∙ rw (ne→== i 0 a) (rw (ne→== i 768 b) refl)

  -- The directory with which the kernel starts shows the first 4MB of physical memory at address 0 and
  -- at KERNBASE and nothing else, as the one that `mem_init` makes does.
  pub entry_pgdir-KernelMap : KernelMap (translate mem dir)
  entry_pgdir-KernelMap = record {
    low = λ va h.
        translate-table va (entry_dir (pdx va) (omega arith) (inl (omega arith)))
        ∙ ap some (omega arith);
    high = λ va h.
        translate-table (kernbase + va)
          (entry_dir (pdx (kernbase + va)) (omega arith) (inr (omega arith)))
        ∙ ap some (omega arith);
    rest = λ va h le out.
        let gone : is_present (pde mem dir (pdx va)) ≡ false =
          rw (entry_none (pdx va) (omega arith) (omega arith) (omega arith)) refl in
        translate-absent mem dir va gone;
  }
