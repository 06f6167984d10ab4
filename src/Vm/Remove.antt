-- ===== src/Vm/Remove.antt =====
-- `page_lookup` and `page_remove`.
use oslab.Base.{
  ℕ, ◌+◌, ◌-◌, ◌*◌, ◌%◌, ◌^◌, ◌<◌, ◌≡◌, ◌≢◌, refl, ap, ◌∙◌, true, false, none, some, List, ◌∷◌,
  arith, ◌==◌, if◌then◌else◌, NotIn, inl, inr, ne→==, Bool-cases, lt→ltb,
}
use oslab.Vm.Layout.{pgnum, pdx, ptx, pte_addr, paddr, kaddr}
use oslab.Vm.State.{Vm, ok, fault, window, load}
use oslab.Vm.Tables.{is_present, entry, page_lookup, page_remove}
use oslab.Vm.Pages.{page_decref}
use oslab.Vm.FreeList.{
  IsFreeList-same, freed, counted, freed-IsFreeList, counted-IsFreeList, page_decref-last,
  page_decref-shared,
}
use oslab.Vm.Mmu.{pde, slot, translate, IsTree}
use oslab.Vm.Walk.{IsReady, pgdir_walk-present, pgdir_walk-absent, paddr-entry, paddr-kaddr}
use oslab.Vm.Fill.{
  filled, store-filled, slot-low, filled-IsReady, translate-filled_ne, translate-filled-none,
}

-- A page that is in use for data: none of the directory, its tables and the free pages.
pub record IsData (s : Vm) (dir : ℕ) (free : List ℕ) (o : ℕ) : Type 0 where
  pub bounded : o < s.npages
  pub used : NotIn o free
  pub not_dir : o ≢ pgnum (paddr dir)
  pub not_table :
      (i : ℕ)
      → i < 1024
      → is_present (pde s.mem (paddr dir) i) ≡ true
      → o ≢ pgnum (pde s.mem (paddr dir) i)

-- Without a table for `va` the pointer that `page_remove` writes through is still NULL, whatever else
-- holds of the state.
pub page_remove-fault :
    {s : Vm} {dir : ℕ} {free : List ℕ} (va : ℕ)
    → IsReady s dir free
    → is_present (pde s.mem (paddr dir) (pdx va)) ≡ false
    → page_remove dir va s ≡ fault
unfolding page_remove page_lookup
page_remove-fault va r gone = rw (pgdir_walk-absent r va gone)

-- The state after one reference to `o` is dropped.
abbrev pub dropped : ℕ → Vm → Vm
dropped o s = record s {
  pages =
      if (s.pages o).pp_ref == 1
      then (freed o (counted o 0 s)).pages
      else (counted o (((s.pages o).pp_ref + 2 ^ 16 - 1) % 2 ^ 16) s).pages;
  page_free_list = if (s.pages o).pp_ref == 1 then some o else s.page_free_list;
}

-- The free list after it.
abbrev pub regained : Vm → ℕ → List ℕ → List ℕ
regained s o free = if (s.pages o).pp_ref == 1 then o ∷ free else free

-- The address of the entry of `va`, as `pgdir_walk` returns it.
abbrev pub entry_of : Vm → (dir va : ℕ) → ℕ
entry_of s dir va = entry (kaddr (pte_addr (pde s.mem (paddr dir) (pdx va)))) (ptx va)

module _ {s : Vm} {dir : ℕ} {free : List ℕ} (r : IsReady s dir free) (va : ℕ)
    (there : is_present (pde s.mem (paddr dir) (pdx va)) ≡ true) where
  pub paddr-entry_of : paddr (entry_of s dir va) ≡ slot s.mem (paddr dir) va
  paddr-entry_of =
      let v = pde s.mem (paddr dir) (pdx va) in
      let low = r.tree.low (pdx va) (omega arith) there in
      paddr-entry (kaddr (pte_addr v)) (ptx va) (omega (arith, paddr-kaddr v low))
        (omega (arith, paddr-kaddr v low)) (omega arith)
      ∙ ap (λ a. a + 4 * ptx va) (paddr-kaddr v low)

  pub load-entry_of : load (entry_of s dir va) s ≡ ok (s.mem (slot s.mem (paddr dir) va)) s
  load-entry_of =
      rw (paddr-entry_of, lt→ltb (slot s.mem (paddr dir) va) window (slot-low r va there))

  -- `page_lookup` finds the page that the entry holds, and nothing in an entry of zero.
  pub page_lookup_lem :
      page_lookup dir va s
      ≡ ok
          (
            (if s.mem (slot s.mem (paddr dir) va) == 0
                then none
                else some (pgnum (pte_addr (s.mem (slot s.mem (paddr dir) va))))),
            some (entry_of s dir va),
          )
          s
  unfolding page_lookup
  page_lookup_lem = rw (pgdir_walk-present r va false there) (rw load-entry_of)

module _ {s : Vm} {dir : ℕ} {free : List ℕ} (r : IsReady s dir free) (o : ℕ)
    (d : IsData s dir free o) where
  pub page_decref-dropped : (s.pages o).pp_ref < 2 ^ 16 → page_decref o s ≡ ok tt (dropped o s)
  page_decref-dropped small = elim (Bool-cases ((s.pages o).pp_ref == 1)) [
    | inl last ↦ rw last (page_decref-last s o d.bounded (ground arith))
    | inr more ↦ rw more (page_decref-shared s o d.bounded (ground arith) small)
  ]

  -- The directory stays clear of the free list when `o` joins it.
  IsTree-regained : IsTree s.mem (paddr dir) (o ∷ free)
  IsTree-regained = record {
    aligned = r.tree.aligned;
    dir_low = r.tree.dir_low;
    dir_used = (d.not_dir, r.tree.dir_used);
    low = r.tree.low;
    not_dir = r.tree.not_dir;
    apart = r.tree.apart;
    used = λ i h p. (d.not_table i h p, r.tree.used i h p);
  }

  dropped-IsReady : IsReady (dropped o s) dir (regained s o free)
  dropped-IsReady = elim (Bool-cases ((s.pages o).pp_ref == 1)) [
    | inl last ↦ rw last (record {
      tree = IsTree-regained;
      list =
          IsFreeList-same
            (freed-IsFreeList o free (counted-IsFreeList o 0 free r.list) d.used d.bounded) refl
            refl refl;
    })
    | inr more ↦ rw more (record {
      tree = r.tree;
      list = IsFreeList-same (counted-IsFreeList o _ free r.list) refl refl refl;
    })
  ]

-- What `page_remove` leaves: `va`'s page unmapped, one reference to its page `o` less and that page
-- free if it was the last, every other translation as before, and the address flushed.
pub record Removed (s t : Vm) (dir va o : ℕ) (free : List ℕ) : Type 0 where
  pub ready : IsReady t dir (regained s o free)
  pub gone : (wa : ℕ) → pgnum wa ≡ pgnum va → translate t.mem (paddr dir) wa ≡ none
  pub others :
      (wa : ℕ)
      → wa < 2 ^ 32
      → pgnum va ≢ pgnum wa
      → translate t.mem (paddr dir) wa ≡ translate s.mem (paddr dir) wa
  pub refs : (t.pages o).pp_ref ≡ ((s.pages o).pp_ref + 2 ^ 16 - 1) % 2 ^ 16
  pub flushed : t.flushed ≡ va ∷ s.flushed

-- The state after `page_remove`.
abbrev pub removed : (dir va o : ℕ) → Vm → Vm
removed dir va o s = record (filled dir va 0 (dropped o s)) { flushed = va ∷ s.flushed }

module _ {s : Vm} {dir : ℕ} {free : List ℕ} (r : IsReady s dir free) (va : ℕ)
    (there : is_present (pde s.mem (paddr dir) (pdx va)) ≡ true) (o : ℕ)
    (mapped : pgnum (s.mem (slot s.mem (paddr dir) va)) ≡ o)
    (ne : s.mem (slot s.mem (paddr dir) va) ≢ 0) (d : IsData s dir free o)
    (small : (s.pages o).pp_ref < 2 ^ 16) (in_word : va < 2 ^ 32) where
  pub page_remove-removed : page_remove dir va s ≡ ok tt (removed dir va o s)
  unfolding page_remove
  page_remove-removed =
      let at : pgnum (pte_addr (s.mem (slot s.mem (paddr dir) va))) ≡ o = omega arith in
      rw (page_lookup_lem r va there) (
        rw (ne→== _ 0 ne, at)
          (rw (page_decref-dropped r o d small) (
            rw (
              store-filled (dropped-IsReady r o d) va there (entry_of s dir va) 0
                (paddr-entry_of r va there)))))

  refs-removed : ((removed dir va o s).pages o).pp_ref ≡ ((s.pages o).pp_ref + 2 ^ 16 - 1) % 2 ^ 16
  refs-removed = ground arith

  pub removed-Removed : Removed s (removed dir va o s) dir va o free
  removed-Removed =
      let q = dropped-IsReady r o d in
      let f = filled-IsReady q va there 0 in
      record {
        ready = record { tree = f.tree; list = IsFreeList-same f.list refl refl refl };
        gone = λ wa same. translate-filled-none q va there wa same;
        others = λ wa h k. translate-filled_ne q va there wa 0 in_word h k;
        refs = refs-removed;
        flushed = refl;
      }

  -- `page_remove` of a mapped page whose count is a 16-bit number returns. Afterwards nothing is mapped
  -- at `va`'s page, every other address is translated as before, the page has one reference less and
  -- is the first free page if that was the last, and the address is flushed.
  pub page_remove-Removed : (t : Vm) × (page_remove dir va s ≡ ok tt t) × Removed s t dir va o free
  page_remove-Removed = (removed dir va o s, page_remove-removed, removed-Removed)
