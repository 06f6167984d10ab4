-- ===== src/Vm/NewTable.antt =====
-- A directory after `pgdir_walk` has put a fresh, cleared page into an empty entry.
use native.Mathlib.Decide.{ℕ_discrete}
use oslab.Base.{
  ℕ, ◌+◌, ◌*◌, ◌<◌, ◌≡◌, ◌≢◌, ◌⊎◌, refl, sym, ◌∙◌, true, false, none, List, [], ◌∷◌, arith, All,
  NotIn, inl, inr, ne→==, eq→==,
}
use oslab.Vm.Layout.{pgnum, pdx, ptx, pte_addr}
use oslab.Vm.State.{update, zeroed}
use oslab.Vm.Tables.{is_present}
use oslab.Vm.Mmu.{pde, translate, translate-same, translate-absent, IsTree}

-- The entry for table page `x`: present, writable, user.
abbrev pub new_entry : ℕ → ℕ
new_entry x = x * 4096 + 7

abbrev pub with_table : (ℕ → ℕ) → (cr3 i x : ℕ) → ℕ → ℕ
with_table mem cr3 i x = update (zeroed mem x) (cr3 + 4 * i) (new_entry x)

pub NotIn-ne : (x y : ℕ) (xs : List ℕ) → x ≡ y → NotIn x xs → All (λ f. f ≢ y) xs
NotIn-ne x y [] e out = tt
NotIn-ne x y (z ∷ xs) e out = (omega (arith, out.0), NotIn-ne x y xs e out.1)

module _ {mem : ℕ → ℕ} {cr3 : ℕ} {x : ℕ} {xs : List ℕ} (t : IsTree mem cr3 (x ∷ xs))
    (low : x < 1024) (i : ℕ) (lt : i < 1024) (gone : is_present (pde mem cr3 i) ≡ false) where
  pub pde-with_table_self : pde (with_table mem cr3 i x) cr3 i ≡ new_entry x
  pde-with_table_self = rw (eq→== (cr3 + 4 * i) (cr3 + 4 * i) refl)

  pub pde-with_table_ne :
      (j : ℕ) → j < 1024 → j ≢ i → pde (with_table mem cr3 i x) cr3 j ≡ pde mem cr3 j
  pde-with_table_ne j h ne = rw (
    ne→== (cr3 + 4 * j) (cr3 + 4 * i) (omega arith),
    ne→== (pgnum (cr3 + 4 * j)) x (omega (arith, t.aligned, t.dir_used.0)),
  )

  -- The entries of a table that was there are kept.
  keep-slot :
      (j k : ℕ)
      → j < 1024
      → k < 1024
      → is_present (pde mem cr3 j) ≡ true
      → with_table mem cr3 i x (pte_addr (pde mem cr3 j) + 4 * k)
        ≡ mem (pte_addr (pde mem cr3 j) + 4 * k)
  keep-slot j k h h' there = rw (
    ne→== (pte_addr (pde mem cr3 j) + 4 * k) (cr3 + 4 * i)
        (omega (arith, t.aligned, t.not_dir j h there)),
    ne→== (pgnum (pte_addr (pde mem cr3 j) + 4 * k)) x (omega (arith, (t.used j h there).0)),
  )

  -- The entries of the new table are empty.
  empty-slot : (k : ℕ) → k < 1024 → with_table mem cr3 i x (x * 4096 + 4 * k) ≡ 0
  empty-slot k h = rw (
    ne→== (x * 4096 + 4 * k) (cr3 + 4 * i) (omega (arith, t.aligned, t.dir_used.0)),
    eq→== (pgnum (x * 4096 + 4 * k)) x (omega arith),
  )

  translate-new : (wa : ℕ) → pdx wa ≡ i → translate (with_table mem cr3 i x) cr3 wa ≡ none
  unfolding translate
  translate-new wa same = rw (same, pde-with_table_self) (ground (arith, empty-slot (ptx wa)))

  -- No address is translated otherwise than before.
  pub translate-with_table :
      (wa : ℕ) → translate (with_table mem cr3 i x) cr3 wa ≡ translate mem cr3 wa
  translate-with_table wa = elim (ℕ_discrete (pdx wa) i) [
    | yes same ↦ translate-new wa same ∙ sym (translate-absent mem cr3 wa (rw same gone))
    | no other ↦
        translate-same mem (with_table mem cr3 i x) cr3 wa
          (pde-with_table_ne (pdx wa) (omega arith) other)
          λ there. keep-slot (pdx wa) (ptx wa) (omega arith) (omega arith) there
  ]

  -- Every entry is the new one or an old one.
  entry-cases :
      (j : ℕ)
      → j < 1024
      → ((j ≡ i) × (pde (with_table mem cr3 i x) cr3 j ≡ new_entry x))
        ⊎ ((j ≢ i) × (pde (with_table mem cr3 i x) cr3 j ≡ pde mem cr3 j))
  entry-cases j h = elim (ℕ_discrete j i) [
    | yes same ↦ inl (same, rw same pde-with_table_self)
    | no other ↦ inr (other, pde-with_table_ne j h other)
  ]

  new-low :
      (j : ℕ)
      → j < 1024
      → is_present (pde (with_table mem cr3 i x) cr3 j) ≡ true
      → pgnum (pde (with_table mem cr3 i x) cr3 j) < 1024
  new-low j h p = elim (entry-cases j h) [
    | inl (same, e) ↦ rw e (omega arith)
    | inr (other, e) ↦ rw e (t.low j h (rw e at p))
  ]

  new-not_dir :
      (j : ℕ)
      → j < 1024
      → is_present (pde (with_table mem cr3 i x) cr3 j) ≡ true
      → pgnum (pde (with_table mem cr3 i x) cr3 j) ≢ pgnum cr3
  new-not_dir j h p = elim (entry-cases j h) [
    | inl (same, e) ↦ rw e (omega (arith, t.dir_used.0))
    | inr (other, e) ↦ rw e (t.not_dir j h (rw e at p))
  ]

  new-apart :
      (j k : ℕ)
      → j < 1024
      → k < 1024
      → j ≢ k
      → is_present (pde (with_table mem cr3 i x) cr3 j) ≡ true
      → is_present (pde (with_table mem cr3 i x) cr3 k) ≡ true
      → pgnum (pde (with_table mem cr3 i x) cr3 j) ≢ pgnum (pde (with_table mem cr3 i x) cr3 k)
  new-apart j k h h' ne p q = elim (entry-cases j h) [
    | inl (same, e) ↦ elim (entry-cases k h') [
      | inl (same', e') ↦ absurd (omega arith)
      | inr (other', e') ↦ rw (e, e') (omega (arith, (t.used k h' (rw e' at q)).0))
    ]
    | inr (other, e) ↦ elim (entry-cases k h') [
      | inl (same', e') ↦ rw (e, e') (omega (arith, (t.used j h (rw e at p)).0))
      | inr (other', e') ↦ rw (e, e') (t.apart j k h h' ne (rw e at p) (rw e' at q))
    ]
  ]

  new-used :
      NotIn x xs
      → (j : ℕ) → j < 1024
      → is_present (pde (with_table mem cr3 i x) cr3 j) ≡ true
      → All (λ f. f ≢ pgnum (pde (with_table mem cr3 i x) cr3 j)) xs
  new-used out j h p = elim (entry-cases j h) [
    | inl (same, e) ↦ rw e (NotIn-ne x (pgnum (new_entry x)) xs (omega arith) out)
    | inr (other, e) ↦ rw e (t.used j h (rw e at p)).1
  ]

  -- The directory keeps its shape, with `x` off the free list.
  pub with_table-IsTree : NotIn x xs → IsTree (with_table mem cr3 i x) cr3 xs
  with_table-IsTree out = record {
    aligned = t.aligned;
    dir_low = t.dir_low;
    dir_used = t.dir_used.1;
    low = new-low;
    not_dir = new-not_dir;
    apart = new-apart;
    used = new-used out;
  }
