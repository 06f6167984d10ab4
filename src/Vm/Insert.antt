-- ===== src/Vm/Insert.antt =====
-- `page_insert`: at an address with nothing mapped, over another page, and again over the same page.
pub mod Replace
use mathlib.Core.Path.{subst}
use oslab.Base.{
  ℕ, ◌+◌, ◌-◌, ◌*◌, ◌/◌, ◌%◌, ◌^◌, ◌<◌, ◌≤◌, ◌≡◌, ◌≢◌, ◌⊎◌, refl, ap, sym, ◌∙◌, Bool, true, false,
  Option, none, some, List, [], ◌∷◌, arith, ◌==◌, if◌then◌else◌, All, NotIn, Distinct, inl, inr,
  ne→==, eq→==, Bool-cases, bit_or, lt→ltb,
}
use oslab.Vm.Layout.{word, pgnum, pdx, ptx, pgoff, pte_addr, paddr, kaddr, page2pa}
use oslab.Vm.State.{PageInfo, Vm, ok, fault, window, update, load}
use oslab.Vm.Pages.{same_page}
use oslab.Vm.Tables.{
  is_present, pgdir_walk, Status, success, e_no_mem, slot_for, page_insert, page_remove,
}
use oslab.Vm.FreeList.{Chain, IsFreeList, IsFreeList-same, counted, counted-IsFreeList}
use oslab.Vm.Mmu.{pde, slot, translate, absent_of_none}
use oslab.Vm.Walk.{
  IsReady, Walked, CanWalk, left, left_present, pgdir_walk-Walked, pgdir_walk-present,
  pgdir_walk-absent, pgdir_walk-no_memory, update-ne,
}
use oslab.Vm.Fill.{
  entry_for, filled, store-filled, filled-IsReady, translate-filled_ne, translate-filled_self,
}
use oslab.Vm.Remove.{entry_of, paddr-entry_of, load-entry_of}

-- The state after the last part of `page_insert`.
abbrev pub inserted : (dir va y perm : ℕ) → Vm → Vm
inserted dir va y perm t =
    record (counted y (((t.pages y).pp_ref + 1) % 2 ^ 16)
      (filled dir va (entry_for (page2pa y) perm) t)) { flushed = va ∷ t.flushed }

-- What `page_insert` leaves: `va`'s page mapped to page `y`, every other translation as in `s`, one
-- reference to `y` more, and the address flushed.
pub record Inserted (s t : Vm) (dir va y : ℕ) (free : List ℕ) : Type 0 where
  pub ready : IsReady t dir free
  pub self :
      (wa : ℕ) → pgnum wa ≡ pgnum va → translate t.mem (paddr dir) wa ≡ some (y * 4096 + pgoff wa)
  pub others :
      (wa : ℕ)
      → wa < 2 ^ 32
      → pgnum va ≢ pgnum wa
      → translate t.mem (paddr dir) wa ≡ translate s.mem (paddr dir) wa
  pub npages : t.npages ≡ s.npages

module _ {t : Vm} {dir : ℕ} {free : List ℕ} (r : IsReady t dir free) (va : ℕ)
    (there : is_present (pde t.mem (paddr dir) (pdx va)) ≡ true) (y perm : ℕ) (lt : y < t.npages)
    (memory : t.npages ≤ 2 ^ 20) (small : perm < 4096) (in_word : va < 2 ^ 32) where
  pub page_insert-finish :
      (s : Vm) (p : ℕ)
      → slot_for dir (some y) va s ≡ ok (some p) t
      → paddr p ≡ slot t.mem (paddr dir) va
      → page_insert dir (some y) va perm s ≡ ok success (inserted dir va y perm t)
  unfolding page_insert
  page_insert-finish s p run at = rw run (
      rw (store-filled r va there p (entry_for (page2pa y) perm) at)
        (rw (lt→ltb y t.npages lt) (rw (lt→ltb y t.npages lt))))

  pub inserted-Inserted : Inserted t (inserted dir va y perm t) dir va y free
  inserted-Inserted =
      let f = filled-IsReady r va there (entry_for (page2pa y) perm) in
      let at : page2pa y ≡ y * 4096 = omega arith in
      record {
        ready = record {
          tree = f.tree;
          list = IsFreeList-same (counted-IsFreeList y _ free r.list) refl refl refl;
        };
        self = λ wa same.
            translate-filled_self r va there wa (page2pa y) perm same (omega arith) small
            ∙ ap (λ b. some (b + pgoff wa)) at;
        others =
            λ wa h k. translate-filled_ne r va there wa (entry_for (page2pa y) perm) in_word h k;
        npages = refl;
      }

-- A page that is not on the free list is not its head.
pub head-ne :
    (pages : ℕ → PageInfo) (head : Option ℕ) (xs : List ℕ) (y : ℕ)
    → Chain pages head xs
    → NotIn y xs
    → same_page head (some y) ≡ false
head-ne pages head [] y c out = ground arith
head-ne pages head (x ∷ xs) y c out = ground arith

abbrev pub ref_up : ℕ → ℕ
ref_up n = (n + 1) % 2 ^ 16

pub refs-inserted :
    (dir va y perm : ℕ) (t : Vm)
    → ((inserted dir va y perm t).pages y).pp_ref ≡ ref_up (t.pages y).pp_ref
refs-inserted dir va y perm t = ground arith

module _ {s : Vm} {dir : ℕ} (free : List ℕ) (r : IsReady s dir free) (va : ℕ) (y perm : ℕ)
    (lt : y < s.npages) (memory : s.npages ≤ 2 ^ 20) (small : perm < 4096)
    (in_word : va < 2 ^ 32) where
  slot_for-absent :
      is_present (pde s.mem (paddr dir) (pdx va)) ≡ false
      → slot_for dir (some y) va s ≡ pgdir_walk dir va true s
  unfolding slot_for
  slot_for-absent gone = rw (pgdir_walk-absent r va gone)

  slot_for-empty :
      (there : is_present (pde s.mem (paddr dir) (pdx va)) ≡ true)
      → is_present (s.mem (slot s.mem (paddr dir) va)) ≡ false
      → NotIn y free
      → slot_for dir (some y) va s ≡ ok (some (entry_of s dir va)) s
  unfolding slot_for
  slot_for-empty there off out = rw (pgdir_walk-present r va false there) (
      rw (load-entry_of r va there)
        (rw off (rw (head-ne s.pages s.page_free_list free y r.list.chain out))))

  -- If the table cannot be made, `page_insert` says so and changes nothing.
  pub page_insert-no_memory :
      free ≡ []
      → is_present (pde s.mem (paddr dir) (pdx va)) ≡ false
      → page_insert dir (some y) va perm s ≡ ok e_no_mem s
  unfolding page_insert
  page_insert-no_memory none_free gone =
      rw (slot_for-absent gone) (rw (pgdir_walk-no_memory r va none_free gone))

  abbrev pub Result : List ℕ → Type 0
  Result free' =
      (t : Vm) × (page_insert dir (some y) va perm s ≡ ok success t)
      × Inserted s t dir va y free'
      × ((t.pages y).pp_ref ≡ ref_up (s.pages y).pp_ref)
      × (t.flushed ≡ va ∷ s.flushed)

  insert_in_table :
      (there : is_present (pde s.mem (paddr dir) (pdx va)) ≡ true)
      → is_present (s.mem (slot s.mem (paddr dir) va)) ≡ false
      → NotIn y free
      → Result free
  insert_in_table there off out = (
    inserted dir va y perm s,
    page_insert-finish r va there y perm lt memory small in_word s (entry_of s dir va)
        (slot_for-empty there off out) (paddr-entry_of r va there),
    inserted-Inserted r va there y perm lt memory small in_word,
    ground arith,
    refl,
  )

  insert_new_table :
      is_present (pde s.mem (paddr dir) (pdx va)) ≡ false
      → NotIn y free
      → CanWalk s dir va free
      → Result (left (is_present (pde s.mem (paddr dir) (pdx va))) free)
  insert_new_table gone out can =
      let (p, t, run, w) = pgdir_walk-Walked free r va can in
      let i =
        inserted-Inserted w.ready va w.there y perm (rw w.npages lt) (rw w.npages memory) small
          in_word in
      (
        inserted dir va y perm t,
        page_insert-finish w.ready va w.there y perm (rw w.npages lt) (rw w.npages memory) small
            in_word s p (slot_for-absent gone ∙ run) w.points,
        record {
          ready = i.ready;
          self = i.self;
          others = λ wa h k. i.others wa h k ∙ w.keeps wa;
          npages = i.npages ∙ w.npages;
        },
        refs-inserted dir va y perm t ∙ ap (λ (q : PageInfo). ref_up q.pp_ref) (w.spared y out),
        rw w.flushed,
      )

  -- `page_insert` of a page `y` that is not free, at an address where nothing is mapped, succeeds if
  -- the directory has a table for `va` or the next free page lies below 4MB. Afterwards `va`'s page is
  -- mapped to `y`, all other addresses are translated as before, the count of `y` is one more, the
  -- address is flushed, and directory and free list are well formed.
  pub page_insert-Inserted :
      NotIn y free
      → CanWalk s dir va free
      → translate s.mem (paddr dir) va ≡ none
      → Result (left (is_present (pde s.mem (paddr dir) (pdx va))) free)
  page_insert-Inserted out can unmapped =
      elim (Bool-cases (is_present (pde s.mem (paddr dir) (pdx va)))) [
        | inl there ↦
            subst Result (left_present there free)
              (insert_in_table there (absent_of_none s.mem (paddr dir) va there unmapped) out)
        | inr gone ↦ insert_new_table gone out can
      ]
