-- ===== src/Vm/Insert/Replace.antt =====
-- `page_insert` at an address that is mapped already.
use native.Mathlib.Decide.{ℕ_discrete}
use mathlib.Core.Path.{subst}
use oslab.Base.{
  ℕ, ◌+◌, ◌-◌, ◌%◌, ◌^◌, ◌<◌, ◌≤◌, ◌≡◌, ◌≢◌, refl, ap, ◌∙◌, true, false, Option, some, List, ◌∷◌,
  arith, ◌==◌, NotIn, inl, inr, ne→==, eq→==, Bool-cases, lt→ltb,
}
use oslab.Vm.Layout.{pgnum, pdx, paddr}
use oslab.Vm.State.{Vm, ok, pure, chain}
use oslab.Vm.Pages.{same_page}
use oslab.Vm.Tables.{is_present, success, slot_for, page_insert, drop_head}
use oslab.Vm.Mmu.{pde, slot, translate, IsTree-tail}
use oslab.Vm.Walk.{IsReady, pgdir_walk-present}
use oslab.Vm.Fill.{pde-filled}
use oslab.Vm.Remove.{
  entry_of, paddr-entry_of, load-entry_of, IsData, Removed, page_remove-removed, removed-Removed,
  regained, removed,
}
use oslab.Vm.Insert.{
  Inserted, inserted, inserted-Inserted, page_insert-finish, head-ne, ref_up, refs-inserted,
}

NotIn-regained :
    (s : Vm) (o y : ℕ) (free : List ℕ) → y ≢ o → NotIn y free → NotIn y (regained s o free)
NotIn-regained s o y free ne out = elim (Bool-cases ((s.pages o).pp_ref == 1)) [
  | inl last ↦ rw last (ne, out)
  | inr more ↦ rw more out
]

module _ {s : Vm} {dir : ℕ} {free : List ℕ} (r : IsReady s dir free) (va : ℕ)
    (there : is_present (pde s.mem (paddr dir) (pdx va)) ≡ true)
    (on : is_present (s.mem (slot s.mem (paddr dir) va)) ≡ true) (o : ℕ)
    (mapped : pgnum (s.mem (slot s.mem (paddr dir) va)) ≡ o) (d : IsData s dir free o)
    (counts : (s.pages o).pp_ref < 2 ^ 16) (in_word : va < 2 ^ 32) where
  -- The entry is emptied, and the head of the free list is taken off if it is the page to insert.
  slot_for-removed :
      (pp : Option ℕ)
      → slot_for dir pp va s
        ≡ chain (drop_head pp (removed dir va o s)) (λ _. pure (some (entry_of s dir va)))
  unfolding slot_for
  slot_for-removed pp = rw (pgdir_walk-present r va false there) (
      rw (load-entry_of r va there)
        (rw on (rw (page_remove-removed r va there o mapped (ground arith) d counts in_word))))

  gone : Removed s (removed dir va o s) dir va o free
  gone = removed-Removed r va there o mapped (ground arith) d counts in_word

  there' : is_present (pde (removed dir va o s).mem (paddr dir) (pdx va)) ≡ true
  there' = rw (pde-filled r va there (pdx va) 0 (omega arith)) there

  points : paddr (entry_of s dir va) ≡ slot (removed dir va o s).mem (paddr dir) va
  points = rw (pde-filled r va there (pdx va) 0 (omega arith)) (paddr-entry_of r va there)

  slot_for-kept :
      (y : ℕ)
      → same_page (removed dir va o s).page_free_list (some y) ≡ false
      → slot_for dir (some y) va s ≡ ok (some (entry_of s dir va)) (removed dir va o s)
  slot_for-kept y other = rw (slot_for-removed (some y)) (rw other)

  -- The state with `o` taken off the free list again.
  abbrev retaken : Vm
  retaken = record (removed dir va o s) { page_free_list = ((removed dir va o s).pages o).pp_link }

  slot_for-retaken :
      (s.pages o).pp_ref ≡ 1 → slot_for dir (some o) va s ≡ ok (some (entry_of s dir va)) retaken
  slot_for-retaken last =
      let head : (removed dir va o s).page_free_list ≡ some o = ground arith in
      let self : same_page (removed dir va o s).page_free_list (some o) ≡ true = ground arith in
      rw (slot_for-removed (some o)) (rw self (rw head (rw (lt→ltb o s.npages d.bounded))))

  retaken-IsReady : (s.pages o).pp_ref ≡ 1 → IsReady retaken dir free
  retaken-IsReady last =
      let e : regained s o free ≡ o ∷ free = rw (eq→== _ 1 last) in
      let q = subst (IsReady (removed dir va o s) dir) e gone.ready in
      record {
        tree = IsTree-tail q.tree;
        list = record {
          chain = q.list.chain.1;
          distinct = q.list.distinct.1;
          bounded = q.list.bounded.1;
        };
      }

  -- The entry filled from a state with the translations of `removed`.
  Inserted-from :
      {t u : Vm} {y : ℕ} {left : List ℕ}
      → t.mem ≡ (removed dir va o s).mem
      → t.npages ≡ s.npages
      → Inserted t u dir va y left
      → Inserted s u dir va y left
  Inserted-from same count i = record {
    ready = i.ready;
    self = i.self;
    others =
        λ wa h k. i.others wa h k ∙ ap (λ m. translate m (paddr dir) wa) same ∙ gone.others wa h k;
    npages = i.npages ∙ count;
  }

  module _ (perm : ℕ) (memory : s.npages ≤ 2 ^ 20) (small : perm < 4096) where
    -- `page_insert` of a page `y` over another page `o`: `va`'s page is mapped to `y`, all other
    -- addresses are translated as before, `y` has one reference more, `o` one less, and `o` is free if
    -- that was its last.
    pub page_insert-over :
        (y : ℕ)
        → y ≢ o
        → NotIn y free
        → y < s.npages
        → (t : Vm) × (page_insert dir (some y) va perm s ≡ ok success t)
          × Inserted s t dir va y (regained s o free)
          × ((t.pages y).pp_ref ≡ ref_up (s.pages y).pp_ref)
          × ((t.pages o).pp_ref ≡ ((s.pages o).pp_ref + 2 ^ 16 - 1) % 2 ^ 16)
    page_insert-over y ne out lt =
        let u = removed dir va o s in
        let other =
          head-ne u.pages u.page_free_list (regained s o free) y gone.ready.list.chain
            (NotIn-regained s o y free ne out) in
        (
          inserted dir va y perm u,
          page_insert-finish gone.ready va there' y perm lt memory small in_word s
              (entry_of s dir va) (slot_for-kept y other) points,
          Inserted-from refl refl
              (inserted-Inserted gone.ready va there' y perm lt memory small in_word),
          refs-inserted dir va y perm u ∙ ground arith,
          ground (arith, gone.refs),
        )

    again_kept :
        (s.pages o).pp_ref ≢ 1
        → (t : Vm) × (page_insert dir (some o) va perm s ≡ ok success t)
          × Inserted s t dir va o free
          × ((t.pages o).pp_ref ≡ (s.pages o).pp_ref)
    again_kept more =
        let u = removed dir va o s in
        let e : regained s o free ≡ free = rw (ne→== _ 1 more) in
        let q = subst (IsReady u dir) e gone.ready in
        (
          inserted dir va o perm u,
          page_insert-finish q va there' o perm d.bounded memory small in_word s (entry_of s dir va)
              (slot_for-kept o (head-ne u.pages u.page_free_list free o q.list.chain d.used))
              points,
          Inserted-from refl refl
              (inserted-Inserted q va there' o perm d.bounded memory small in_word),
          refs-inserted dir va o perm u ∙ omega (arith, gone.refs),
        )

    again_last :
        (s.pages o).pp_ref ≡ 1
        → (t : Vm) × (page_insert dir (some o) va perm s ≡ ok success t)
          × Inserted s t dir va o free
          × ((t.pages o).pp_ref ≡ (s.pages o).pp_ref)
    again_last last =
        let q = retaken-IsReady last in
        (
          inserted dir va o perm retaken,
          page_insert-finish q va there' o perm d.bounded memory small in_word s (entry_of s dir va)
              (slot_for-retaken last) points,
          Inserted-from refl refl
              (inserted-Inserted q va there' o perm d.bounded memory small in_word),
          refs-inserted dir va o perm retaken ∙ omega (arith, gone.refs),
        )

    -- `page_insert` of the page that `va` is mapped to already, the corner case of its comment: it
    -- succeeds, `va`'s page stays mapped to that page, all other addresses are translated as before, and
    -- the count of the page and the free list are what they were.
    pub page_insert_again :
        (t : Vm) × (page_insert dir (some o) va perm s ≡ ok success t)
        × Inserted s t dir va o free
        × ((t.pages o).pp_ref ≡ (s.pages o).pp_ref)
    page_insert_again = elim (ℕ_discrete (s.pages o).pp_ref 1) [
      | yes last ↦ again_last last
      | no more ↦ again_kept more
    ]
