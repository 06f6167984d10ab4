-- ===== src/Vm/Mmu.antt =====
-- The hardware walk that include/jos/mmu.h describes, as the meaning of a page directory, and the
-- shape that the kernel keeps its tables in.
use native.Mathlib.Decide.{ℕ_discrete}
use oslab.Base.{
  ℕ, ◌+◌, ◌*◌, ◌%◌, ◌^◌, ◌<◌, ◌≡◌, ◌≢◌, true, false, List, ◌∷◌, refl, ap, eq→==, Bool-cases, Option,
  none, some, arith, if◌then◌else◌, All, ◌⊎◌, inl, inr, ne→==,
}
use oslab.Vm.Layout.{pgnum, pdx, ptx, pgoff, pte_addr}
use oslab.Vm.State.{window, update}
use oslab.Vm.Tables.{is_present}

-- Entry `i` of the directory at physical address `cr3`.
abbrev pub pde : (ℕ → ℕ) → (cr3 i : ℕ) → ℕ
pde mem cr3 i = mem (cr3 + 4 * i)

-- The physical address of the table entry for `va`, where the directory has a table for it.
abbrev pub slot : (ℕ → ℕ) → (cr3 va : ℕ) → ℕ
slot mem cr3 va = pte_addr (pde mem cr3 (pdx va)) + 4 * ptx va

-- The physical address that the MMU finds for `va`, or none where it raises a page fault.
unfoldable pub translate : (ℕ → ℕ) → (cr3 va : ℕ) → Option ℕ
translate mem cr3 va =
    if is_present (pde mem cr3 (pdx va))
    then (if is_present (mem (slot mem cr3 va))
        then some (pte_addr (mem (slot mem cr3 va)) + pgoff va)
        else none)
    else none

pub translate-absent :
    (mem : ℕ → ℕ) (cr3 va : ℕ)
    → is_present (pde mem cr3 (pdx va)) ≡ false
    → translate mem cr3 va ≡ none
unfolding translate
translate-absent mem cr3 va gone = rw gone

-- Where there is a table and no translation, the entry is not present.
pub absent_of_none :
    (mem : ℕ → ℕ) (cr3 va : ℕ)
    → is_present (pde mem cr3 (pdx va)) ≡ true
    → translate mem cr3 va ≡ none
    → is_present (mem (slot mem cr3 va)) ≡ false
unfolding translate
absent_of_none mem cr3 va there e = elim (Bool-cases (is_present (mem (slot mem cr3 va)))) [
  | inl on ↦
      let bad : some (pte_addr (mem (slot mem cr3 va)) + pgoff va) ≡ none = rw (there, on) at e in
      cc
  | inr off ↦ off
]

-- A walk reads two words: two directories with the same entry translate alike if the word of the table
-- is the same.
pub translate-copy :
    (mem mem' : ℕ → ℕ) (cr3 cr3' va : ℕ)
    → pde mem' cr3' (pdx va) ≡ pde mem cr3 (pdx va)
    → (is_present (pde mem cr3 (pdx va)) ≡ true → mem' (slot mem cr3 va) ≡ mem (slot mem cr3 va))
    → translate mem' cr3' va ≡ translate mem cr3 va
unfolding translate
translate-copy mem mem' cr3 cr3' va e f =
    rw e (elim (Bool-cases (is_present (pde mem cr3 (pdx va)))) [
      | inl there ↦ rw (f there)
      | inr gone ↦ rw gone
    ])

pub translate-same :
    (mem mem' : ℕ → ℕ) (cr3 va : ℕ)
    → pde mem' cr3 (pdx va) ≡ pde mem cr3 (pdx va)
    → (is_present (pde mem cr3 (pdx va)) ≡ true → mem' (slot mem cr3 va) ≡ mem (slot mem cr3 va))
    → translate mem' cr3 va ≡ translate mem cr3 va
translate-same mem mem' cr3 va e f = translate-copy mem mem' cr3 cr3 va e f

-- The directory and its tables are separate pages that the kernel can reach, none of them free.
pub record IsTree (mem : ℕ → ℕ) (cr3 : ℕ) (free : List ℕ) : Type 0 where
  pub aligned : cr3 % 4096 ≡ 0
  pub dir_low : cr3 < window
  pub dir_used : All (λ f. f ≢ pgnum cr3) free
  pub low : (i : ℕ) → i < 1024 → is_present (pde mem cr3 i) ≡ true → pgnum (pde mem cr3 i) < 1024
  pub not_dir :
      (i : ℕ) → i < 1024 → is_present (pde mem cr3 i) ≡ true → pgnum (pde mem cr3 i) ≢ pgnum cr3
  pub apart :
      (i j : ℕ)
      → i < 1024
      → j < 1024
      → i ≢ j
      → is_present (pde mem cr3 i) ≡ true
      → is_present (pde mem cr3 j) ≡ true
      → pgnum (pde mem cr3 i) ≢ pgnum (pde mem cr3 j)
  pub used :
      (i : ℕ)
      → i < 1024
      → is_present (pde mem cr3 i) ≡ true
      → All (λ f. f ≢ pgnum (pde mem cr3 i)) free

-- Two addresses in different pages differ in the directory index or in the table index.
pub page-ne :
    (va wa : ℕ)
    → va < 2 ^ 32
    → wa < 2 ^ 32
    → pgnum va ≢ pgnum wa
    → (pdx va ≢ pdx wa) ⊎ ((pdx va ≡ pdx wa) × (ptx va ≢ ptx wa))
page-ne va wa h k ne = elim (ℕ_discrete (pdx va) (pdx wa)) [
  | yes same ↦ inr (same, omega arith)
  | no other ↦ inl other
]

pub IsTree-tail :
    {mem : ℕ → ℕ} {cr3 x : ℕ} {xs : List ℕ} → IsTree mem cr3 (x ∷ xs) → IsTree mem cr3 xs
IsTree-tail t = record {
  aligned = t.aligned;
  dir_low = t.dir_low;
  dir_used = t.dir_used.1;
  low = t.low;
  not_dir = t.not_dir;
  apart = t.apart;
  used = λ i h p. (t.used i h p).1;
}

module _ {mem : ℕ → ℕ} {cr3 : ℕ} {free : List ℕ} (t : IsTree mem cr3 free) where
  -- The slot of `va` is no entry of the directory.
  pub slot-ne-pde :
      (va i v : ℕ)
      → i < 1024
      → is_present (pde mem cr3 (pdx va)) ≡ true
      → update mem (slot mem cr3 va) v (cr3 + 4 * i) ≡ pde mem cr3 i
  slot-ne-pde va i v lt there =
      let ne : cr3 + 4 * i ≢ slot mem cr3 va =
        omega (arith, t.aligned, t.not_dir (pdx va) (omega arith) there) in
      rw (ne→== (cr3 + 4 * i) (slot mem cr3 va) ne)

  -- The slots of two pages are different words.
  pub slot-ne-slot :
      (va wa : ℕ)
      → va < 2 ^ 32
      → wa < 2 ^ 32
      → pgnum va ≢ pgnum wa
      → is_present (pde mem cr3 (pdx va)) ≡ true
      → is_present (pde mem cr3 (pdx wa)) ≡ true
      → slot mem cr3 wa ≢ slot mem cr3 va
  slot-ne-slot va wa h k ne there there' = elim (page-ne va wa h k ne) [
    | inl other ↦
        omega (arith, t.apart (pdx va) (pdx wa) (omega arith) (omega arith) other there there')
    | inr (same, other) ↦ omega (arith, ap (pde mem cr3) same)
  ]

  -- Writing the entry of `va` changes the translation of no other page,
  pub translate-update_ne :
      (va wa v : ℕ)
      → va < 2 ^ 32
      → wa < 2 ^ 32
      → pgnum va ≢ pgnum wa
      → is_present (pde mem cr3 (pdx va)) ≡ true
      → translate (update mem (slot mem cr3 va) v) cr3 wa ≡ translate mem cr3 wa
  unfolding translate
  translate-update_ne va wa v h k ne there =
      translate-same mem (update mem (slot mem cr3 va) v) cr3 wa
        (slot-ne-pde va (pdx wa) v (omega arith) there)
        λ there'. rw (ne→== _ _ (slot-ne-slot va wa h k ne there there'))

  -- and gives `va` the page in the entry.
  pub translate-update_self :
      (va v : ℕ)
      → is_present (pde mem cr3 (pdx va)) ≡ true
      → translate (update mem (slot mem cr3 va) v) cr3 va
        ≡ (if is_present v then some (pte_addr v + pgoff va) else none)
  unfolding translate
  translate-update_self va v there =
      rw (slot-ne-pde va (pdx va) v (omega arith) there, there, eq→== _ _ refl)

  -- A memory with the same directory has the same shape.
  pub IsTree-same :
      (mem' : ℕ → ℕ) → ((i : ℕ) → i < 1024 → pde mem' cr3 i ≡ pde mem cr3 i) → IsTree mem' cr3 free
  IsTree-same mem' e = record {
    aligned = t.aligned;
    dir_low = t.dir_low;
    dir_used = t.dir_used;
    low = λ i h p. rw (e i h) (t.low i h (rw (e i h) at p));
    not_dir = λ i h p. rw (e i h) (t.not_dir i h (rw (e i h) at p));
    apart = λ i j h k ne p q.
        rw (e i h, e j k) (t.apart i j h k ne (rw (e i h) at p) (rw (e j k) at q));
    used = λ i h p. rw (e i h) (t.used i h (rw (e i h) at p));
  }
