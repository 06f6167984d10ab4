-- ===== src/Vm/Fill.antt =====
-- Writing the entry that `pgdir_walk` returned, and `boot_map_region`.
pub mod BootMap
use oslab.Base.{
  ℕ, ◌+◌, ◌-◌, ◌*◌, ◌/◌, ◌%◌, ◌^◌, ◌<◌, ◌≡◌, ◌≢◌, ◌⊎◌, refl, ap, sym, ◌∙◌, Bool, true, false,
  Option, none, some, List, [], ◌∷◌, arith, ◌==◌, if◌then◌else◌, All, NotIn, Distinct, inl, inr,
  ne→==, eq→==, Bool-cases, bit_or, lt→ltb,
}
use oslab.Base.Bits.{bit_or_fields, bit_or-one}
use oslab.Vm.Layout.{word, pgnum, pdx, ptx, pgoff, pte_addr, paddr, pte_p}
use oslab.Vm.State.{Vm, ok, window, update, store}
use oslab.Vm.Tables.{is_present}
use oslab.Vm.Mmu.{
  pde, slot, translate, IsTree, slot-ne-pde, translate-update_ne, translate-update_self,
  IsTree-same,
}
use oslab.Vm.Walk.{IsReady}

-- The entry for the page at `pa` with `perm`.
abbrev pub entry_for : (pa perm : ℕ) → ℕ
entry_for pa perm = bit_or (bit_or pa perm) pte_p

pub entry_for_lem :
    (pa perm : ℕ)
    → pa % 4096 ≡ 0
    → perm < 4096
    → (is_present (entry_for pa perm) ≡ true) × (pte_addr (entry_for pa perm) ≡ pa)
entry_for_lem pa perm aligned small =
    let base : pa ≡ pa / 4096 * 2 ^ 12 = omega arith in
    let sum : bit_or pa perm ≡ pa + perm =
      rw base (bit_or_fields 12 (pa / 4096) perm (omega arith)) in
    let v : entry_for pa perm ≡ (pa + perm) / 2 * 2 + 1 = rw sum (bit_or-one (pa + perm)) in
    (eq→== _ 1 (omega arith), omega arith)

-- The state after the entry of `va` is set to `v`.
abbrev pub filled : (dir va v : ℕ) → Vm → Vm
filled dir va v t = record t { mem = update t.mem (slot t.mem (paddr dir) va) v }

module _ {t : Vm} {dir : ℕ} {free : List ℕ} (r : IsReady t dir free) (va : ℕ)
    (there : is_present (pde t.mem (paddr dir) (pdx va)) ≡ true) where
  pub slot-low : slot t.mem (paddr dir) va < window
  slot-low = omega (arith, r.tree.low (pdx va) (omega arith) there)

  pub store-filled :
      (p v : ℕ) → paddr p ≡ slot t.mem (paddr dir) va → store p v t ≡ ok tt (filled dir va v t)
  store-filled p v at = rw (at, lt→ltb (slot t.mem (paddr dir) va) window slot-low)

  pub pde-filled :
      (i v : ℕ) → i < 1024 → pde (filled dir va v t).mem (paddr dir) i ≡ pde t.mem (paddr dir) i
  pde-filled i v lt = slot-ne-pde r.tree va i v lt there

  pub filled-IsReady : (v : ℕ) → IsReady (filled dir va v t) dir free
  filled-IsReady v = record {
    tree = IsTree-same r.tree (filled dir va v t).mem (λ i lt. pde-filled i v lt);
    list = record { chain = r.list.chain; distinct = r.list.distinct; bounded = r.list.bounded };
  }

  pub translate-filled_ne :
      (wa v : ℕ)
      → va < 2 ^ 32
      → wa < 2 ^ 32
      → pgnum va ≢ pgnum wa
      → translate (filled dir va v t).mem (paddr dir) wa ≡ translate t.mem (paddr dir) wa
  translate-filled_ne wa v h k ne = translate-update_ne r.tree va wa v h k ne there

  -- Every address of the page is sent into the page at `pa`.
  pub translate-filled_self :
      (wa pa perm : ℕ)
      → pgnum wa ≡ pgnum va
      → pa % 4096 ≡ 0
      → perm < 4096
      → translate (filled dir va (entry_for pa perm) t).mem (paddr dir) wa ≡ some (pa + pgoff wa)
  translate-filled_self wa pa perm same aligned small =
      let (is, at) = entry_for_lem pa perm aligned small in
      let d : pdx va ≡ pdx wa = omega arith in
      let e : ptx va ≡ ptx wa = omega arith in
      rw (d, e)
        (translate-update_self r.tree wa (entry_for pa perm) (rw d at there) ∙ (rw (is, at)))

  -- A cleared entry unmaps the page.
  pub translate-filled-none :
      (wa : ℕ) → pgnum wa ≡ pgnum va → translate (filled dir va 0 t).mem (paddr dir) wa ≡ none
  translate-filled-none wa same =
      let d : pdx va ≡ pdx wa = omega arith in
      let e : ptx va ≡ ptx wa = omega arith in
      rw (d, e) (translate-update_self r.tree wa 0 (rw d at there))
