-- ===== src/Vm/Tables.antt =====
-- The page tables of kernel/pmapjos.c, from `pgdir_walk` to `region_alloc`. A `pde_t *` or
-- `pte_t *` is the kernel virtual address of the entry.
use oslab.Base.{
  ℕ, zero, suc, ◌+◌, ◌-◌, ◌*◌, ◌/◌, ◌%◌, ◌^◌, Bool, true, false, Option, none, some, ltb, ◌==◌,
  if◌then◌else◌, bit_or,
}
use oslab.Vm.Layout.{
  word, pgsize, pdx, ptx, pte_addr, rounddown, roundup, paddr, kaddr, page2pa, pa2page, page2kva,
  pte_p, pte_w, pte_u,
}
use oslab.Vm.State.{
  Cmd, spin, pure, ◌>>=◌, ◌>>◌, load_page, store_page, deref, load, store, get_free_list,
  set_free_list, tlb_invalidate,
}
use oslab.Vm.Pages.{page_alloc, page_decref, same_page}

-- `entry & PTE_P`
abbrev pub is_present : ℕ → Bool
is_present pte = pte % 2 == 1

-- `table[i]` for a table of words
abbrev pub entry : ℕ → ℕ → ℕ
entry table i = (table + 4 * i) % word

-- `pp->pp_ref++`
abbrev pub incref : ℕ → Cmd (Unit {0})
incref pp = do p ← load_page pp; store_page pp (record p { pp_ref = (p.pp_ref + 1) % 2 ^ 16 })

unfoldable pub pgdir_walk : (pgdir va : ℕ) (create : Bool) → Cmd (Option ℕ)
pgdir_walk pgdir va create = do
  pde ← load (entry pgdir (pdx va))
  if is_present pde
      then pure (some (entry (kaddr (pte_addr pde)) (ptx va)))
      else if create
      then (do
        page ← page_alloc 1
        elim page [
          | none ↦ pure none
          | some pp ↦
              let pte = page2kva pp in
              if pte == 0 then pure none else (do
                incref pp
                store (entry pgdir (pdx va))
                    (bit_or (bit_or (bit_or (paddr pte) pte_p) pte_w) pte_u)
                pure (some (entry pte (ptx va))))
        ])
      else pure none

-- The loop of `boot_map_region` over `np` pages. A NULL from `pgdir_walk` is reported and then
-- dereferenced.
unfoldable pub boot_map_loop : (np : ℕ) (pgdir va pa perm : ℕ) → Cmd (Unit {0})
boot_map_loop zero pgdir va pa perm = pure tt
boot_map_loop (suc np) pgdir va pa perm =
    let rest = boot_map_loop np pgdir ((va + pgsize) % word) ((pa + pgsize) % word) perm in
    do
      slot ← pgdir_walk pgdir va true
      pte ← deref slot
      store pte (bit_or (bit_or (pte_addr pa) perm) pte_p)
      rest

unfoldable pub boot_map_region : (pgdir va size pa perm : ℕ) → Cmd (Unit {0})
boot_map_region pgdir va size pa perm = boot_map_loop (size / pgsize) pgdir va pa perm

-- The page mapped at `va`, and what is left in `*pte_store`, which starts as NULL in the callers.
unfoldable pub page_lookup : (pgdir va : ℕ) → Cmd (Option ℕ × Option ℕ)
page_lookup pgdir va = do
  pte ← pgdir_walk pgdir va false
  elim pte [
    | none ↦ pure (none, none)
    | some p ↦ do v ← load p; pure ((if v == 0 then none else some (pa2page (pte_addr v))), some p)
  ]

abbrev pub decref_if_some : Option ℕ → Cmd (Unit {0})
decref_if_some none = pure tt
decref_if_some (some pp) = page_decref pp

unfoldable pub page_remove : (pgdir va : ℕ) → Cmd (Unit {0})
page_remove pgdir va = do
  (page, pte_store) ← page_lookup pgdir va
  decref_if_some page
  pte ← deref pte_store
  store pte 0
  tlb_invalidate va

-- What `page_insert` returns: 0 or -E_NO_MEM.
pub data Status : Type 0 where
  success e_no_mem : Status

-- `page_free_list = head->pp_link`
abbrev pub pop_head : Option ℕ → Cmd (Unit {0})
pop_head head = do i ← deref head; p ← load_page i; set_free_list p.pp_link

-- `if (page_free_list == pp) page_free_list = page_free_list->pp_link;`
abbrev pub drop_head : Option ℕ → Cmd (Unit {0})
drop_head pp = do head ← get_free_list; if same_page head pp then pop_head head else pure tt

-- The entry that `page_insert` fills: the old one, emptied, or one in a new table.
unfoldable pub slot_for : (pgdir : ℕ) (pp : Option ℕ) (va : ℕ) → Cmd (Option ℕ)
slot_for pgdir pp va = do
  pte ← pgdir_walk pgdir va false
  elim pte [
    | none ↦ pgdir_walk pgdir va true
    | some p ↦ do
      v ← load p
      if is_present v then page_remove pgdir va else pure tt
      drop_head pp
      pure (some p)
  ]

unfoldable pub page_insert : (pgdir : ℕ) (pp : Option ℕ) (va perm : ℕ) → Cmd Status
page_insert pgdir pp va perm = do
  slot ← slot_for pgdir pp va
  elim slot [
    | none ↦ pure e_no_mem
    | some pte ↦ do
      i ← deref pp
      store pte (bit_or (bit_or (page2pa i) perm) pte_p)
      incref i
      tlb_invalidate va
      pure success
  ]

-- The loop of `region_alloc`. The page may be NULL and the status is not looked at.
unfoldable pub region_loop : (fuel : ℕ) (pgdir begin end : ℕ) → Cmd (Unit {0})
region_loop zero pgdir begin end = λ _. spin
region_loop (suc fuel) pgdir begin end =
    let rest = region_loop fuel pgdir ((begin + pgsize) % word) end in
    if ltb begin end
    then (do page ← page_alloc 0; page_insert pgdir page begin (bit_or pte_u pte_w); rest)
    else pure tt

-- One round for each page between the two ends, and one for the last test.
unfoldable pub region_alloc : (pgdir va len : ℕ) → Cmd (Unit {0})
region_alloc pgdir va len =
    let begin = rounddown va pgsize in
    let end = roundup ((va + len) % word) pgsize in
    region_loop ((end - begin) / pgsize + 1) pgdir begin end
