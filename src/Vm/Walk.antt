-- ===== src/Vm/Walk.antt =====
-- `pgdir_walk`: what it returns on each branch, and that a new table changes no translation.
use oslab.Base.{
  ℕ, ◌+◌, ◌*◌, ◌%◌, ◌^◌, ◌<◌, ◌≡◌, ◌≢◌, ◌⊎◌, refl, ap, ◌∙◌, Bool, true, false, none, some, List, [],
  ◌∷◌, arith, NotIn, inl, inr, ne→==, Bool-cases, bit_or, lt→ltb,
}
use oslab.Base.Bits.{bit_or-one, bit_or_two, bit_or_four}
use oslab.Vm.Layout.{pgnum, pdx, ptx, pte_addr, paddr, kaddr, page2kva, pte_p, pte_w, pte_u}
use oslab.Vm.State.{Vm, ok, window, update}
use oslab.Vm.Tables.{is_present, entry, pgdir_walk}
use oslab.Vm.FreeList.{
  IsFreeList, Chain-relink, page_alloc-empty, page_alloc-cons, paddr-page2kva, counted,
}
use oslab.Vm.Mmu.{pde, slot, translate, IsTree}
use oslab.Vm.NewTable.{
  new_entry, with_table, with_table-IsTree, translate-with_table, pde-with_table_self,
}

-- The directory at kernel address `dir` is well shaped, and `free` is the free list.
pub record IsReady (s : Vm) (dir : ℕ) (free : List ℕ) : Type 0 where
  pub tree : IsTree s.mem (paddr dir) free
  pub list : IsFreeList s free

-- Entry `i` of a page that starts at a kernel address.
pub paddr-entry :
    (table i : ℕ)
    → paddr table % 4096 ≡ 0
    → paddr table < window
    → i < 1024
    → paddr (entry table i) ≡ paddr table + 4 * i
paddr-entry table i h k l = omega arith

pub paddr-kaddr : (v : ℕ) → pgnum v < 1024 → paddr (kaddr (pte_addr v)) ≡ pte_addr v
paddr-kaddr v h = omega arith

-- The word that `pgdir_walk` writes for a new table.
new_entry_lem :
    (x : ℕ)
    → x < 1024
    → bit_or (bit_or (bit_or (paddr (page2kva x)) pte_p) pte_w) pte_u ≡ new_entry x
new_entry_lem x low = omega (
  arith,
  paddr-page2kva x low,
  bit_or-one (paddr (page2kva x)),
  bit_or_two (bit_or (paddr (page2kva x)) pte_p),
  bit_or_four (bit_or (bit_or (paddr (page2kva x)) pte_p) pte_w),
)

page2kva-ne-null : (x : ℕ) → x < 1024 → page2kva x ≢ 0
page2kva-ne-null x low = omega arith

module _ {s : Vm} {dir : ℕ} {free : List ℕ} (r : IsReady s dir free) (va : ℕ) where
  -- Where the directory has a table for `va`, the walk gives the entry and changes nothing.
  pub pgdir_walk-present :
      (create : Bool)
      → is_present (pde s.mem (paddr dir) (pdx va)) ≡ true
      → pgdir_walk dir va create s
        ≡ ok (some (entry (kaddr (pte_addr (pde s.mem (paddr dir) (pdx va)))) (ptx va))) s
  unfolding pgdir_walk
  pgdir_walk-present create there =
      let at = paddr-entry dir (pdx va) r.tree.aligned r.tree.dir_low (omega arith) in
      rw (
        at,
        lt→ltb (paddr dir + 4 * pdx va) window (omega (arith, r.tree.aligned, r.tree.dir_low)),
        there,
      )

  -- Without a table and without `create` it returns NULL and changes nothing.
  pub pgdir_walk-absent :
      is_present (pde s.mem (paddr dir) (pdx va)) ≡ false → pgdir_walk dir va false s ≡ ok none s
  unfolding pgdir_walk
  pgdir_walk-absent gone =
      let at = paddr-entry dir (pdx va) r.tree.aligned r.tree.dir_low (omega arith) in
      rw (
        at,
        lt→ltb (paddr dir + 4 * pdx va) window (omega (arith, r.tree.aligned, r.tree.dir_low)),
        gone,
      )

  -- With the free list empty, no table can be made: NULL, and nothing changes.
  pub pgdir_walk-no_memory :
      free ≡ []
      → is_present (pde s.mem (paddr dir) (pdx va)) ≡ false
      → pgdir_walk dir va true s ≡ ok none s
  unfolding pgdir_walk
  pgdir_walk-no_memory none_free gone =
      let at = paddr-entry dir (pdx va) r.tree.aligned r.tree.dir_low (omega arith) in
      let e : IsFreeList s [] = rw none_free at r.list in
      rw
        (
          at,
          lt→ltb (paddr dir + 4 * pdx va) window (omega (arith, r.tree.aligned, r.tree.dir_low)),
          gone,
        )
        (rw (page_alloc-empty 1 e))

pub update-ne {ℓ} : {A : Type ℓ} (f : ℕ → A) (i : ℕ) (v : A) (j : ℕ) → j ≢ i → update f i v j ≡ f j
update-ne f i v j ne = rw (ne→== j i ne)

-- The state after a walk has taken page `x` for a new table.
abbrev pub tabled : (dir va x : ℕ) → Vm → Vm
tabled dir va x s = record s {
  pages = (counted x (((s.pages x).pp_ref + 1) % 2 ^ 16) s).pages;
  page_free_list = (s.pages x).pp_link;
  mem = with_table s.mem (paddr dir) (pdx va) x;
}

module _ {s : Vm} {dir x : ℕ} {xs : List ℕ} (r : IsReady s dir (x ∷ xs)) (low : x < 1024) (va : ℕ)
    (gone : is_present (pde s.mem (paddr dir) (pdx va)) ≡ false) where
  pub pgdir_walk-create :
      pgdir_walk dir va true s ≡ ok (some (entry (page2kva x) (ptx va))) (tabled dir va x s)
  unfolding pgdir_walk
  pgdir_walk-create =
      let at = paddr-entry dir (pdx va) r.tree.aligned r.tree.dir_low (omega arith) in
      rw
        (
          at,
          lt→ltb (paddr dir + 4 * pdx va) window (omega (arith, r.tree.aligned, r.tree.dir_low)),
          gone,
        )
        (rw (page_alloc-cons 1 x xs r.list (λ _. low)) (
          rw (ne→== (page2kva x) 0 (page2kva-ne-null x low), lt→ltb x s.npages r.list.bounded.0)
            (rw (
              lt→ltb x s.npages r.list.bounded.0,
              at,
              lt→ltb (paddr dir + 4 * pdx va) window
                  (omega (arith, r.tree.aligned, r.tree.dir_low)),
              new_entry_lem x low,
            ))))

  pub tabled-IsReady : IsReady (tabled dir va x s) dir xs
  tabled-IsReady = record {
    tree = with_table-IsTree r.tree low (pdx va) (omega arith) gone r.list.distinct.0;
    list = record {
      chain = Chain-relink s.pages x _ _ xs refl r.list.chain.1;
      distinct = r.list.distinct.1;
      bounded = r.list.bounded.1;
    };
  }

-- What a walk that finds or makes a table leaves: the entry of `va` at `p`, every translation as
-- before, and the pages that were not free as before.
pub record Walked (s t : Vm) (dir va p : ℕ) (was free : List ℕ) : Type 0 where
  pub ready : IsReady t dir free
  pub there : is_present (pde t.mem (paddr dir) (pdx va)) ≡ true
  pub points : paddr p ≡ slot t.mem (paddr dir) va
  pub keeps : (wa : ℕ) → translate t.mem (paddr dir) wa ≡ translate s.mem (paddr dir) wa
  pub npages : t.npages ≡ s.npages
  pub flushed : t.flushed ≡ s.flushed
  pub spared : (y : ℕ) → NotIn y was → t.pages y ≡ s.pages y

-- The directory has a table for `va`, or the next free page can become one.
abbrev pub CanWalk : Vm → (dir va : ℕ) → List ℕ → Type 0
CanWalk s dir va [] = is_present (pde s.mem (paddr dir) (pdx va)) ≡ true
CanWalk s dir va (x ∷ xs) = (is_present (pde s.mem (paddr dir) (pdx va)) ≡ true) ⊎ (x < 1024)

-- The free list after such a walk.
abbrev pub left : Bool → List ℕ → List ℕ
left present [] = []
left true (x ∷ xs) = x ∷ xs
left false (x ∷ xs) = xs

pub left_present : {present : Bool} → present ≡ true → (free : List ℕ) → free ≡ left present free
left_present there [] = refl
left_present there (x ∷ xs) = rw there

walk_found :
    {s : Vm} {dir : ℕ} {free : List ℕ} (r : IsReady s dir free) (va : ℕ)
    → is_present (pde s.mem (paddr dir) (pdx va)) ≡ true
    → (p : ℕ) × (t : Vm) × (pgdir_walk dir va true s ≡ ok (some p) t)
      × Walked s t dir va p free free
walk_found {s} {dir} r va there =
    let v = pde s.mem (paddr dir) (pdx va) in
    let low = r.tree.low (pdx va) (omega arith) there in
    (
      entry (kaddr (pte_addr v)) (ptx va),
      s,
      pgdir_walk-present r va true there,
      record {
        ready = r;
        there = there;
        points =
            paddr-entry (kaddr (pte_addr v)) (ptx va) (omega (arith, paddr-kaddr v low))
              (omega (arith, paddr-kaddr v low)) (omega arith)
            ∙ ap (λ a. a + 4 * ptx va) (paddr-kaddr v low);
        keeps = λ wa. refl;
        npages = refl;
        flushed = refl;
        spared = λ y out. refl;
      },
    )

walk_made :
    {s : Vm} {dir x : ℕ} {xs : List ℕ} (r : IsReady s dir (x ∷ xs)) (va : ℕ)
    → x < 1024
    → is_present (pde s.mem (paddr dir) (pdx va)) ≡ false
    → (p : ℕ) × (t : Vm) × (pgdir_walk dir va true s ≡ ok (some p) t)
      × Walked s t dir va p (x ∷ xs) xs
walk_made {s} {dir} {x} r va low gone =
    let self = pde-with_table_self r.tree low (pdx va) (omega arith) gone in
    (
      entry (page2kva x) (ptx va),
      tabled dir va x s,
      pgdir_walk-create r low va gone,
      record {
        ready = tabled-IsReady r low va gone;
        there = rw self (ground arith);
        points = rw self (
            paddr-entry (page2kva x) (ptx va) (omega (arith, paddr-page2kva x low))
              (omega (arith, paddr-page2kva x low)) (omega arith)
            ∙ omega (arith, paddr-page2kva x low));
        keeps = translate-with_table r.tree low (pdx va) (omega arith) gone;
        npages = refl;
        flushed = refl;
        spared = λ y out. update-ne s.pages x _ y out.0;
      },
    )

-- `pgdir_walk` with `create` succeeds where the directory has a table for `va` or the next free page
-- lies below 4MB. It returns the entry of `va`, changes no translation, keeps the directory and the
-- free list well formed, and takes a page off the list only for a missing table.
pub pgdir_walk-Walked :
    {s : Vm} {dir : ℕ} (free : List ℕ) (r : IsReady s dir free) (va : ℕ)
    → CanWalk s dir va free
    → (p : ℕ) × (t : Vm) × (pgdir_walk dir va true s ≡ ok (some p) t)
      × Walked s t dir va p free (left (is_present (pde s.mem (paddr dir) (pdx va))) free)
pgdir_walk-Walked [] r va there = walk_found r va there
pgdir_walk-Walked {s} {dir} (x ∷ xs) r va can =
    elim (Bool-cases (is_present (pde s.mem (paddr dir) (pdx va)))) [
      | inl there ↦ rw there (walk_found r va there)
      | inr gone ↦ rw gone (walk_made r va (elim can [ inl there ↦ cc | inr low ↦ low ]) gone)
    ]
