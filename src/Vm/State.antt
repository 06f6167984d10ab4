-- ===== src/Vm/State.antt =====
-- The state of kernel/pmapjos.c and the commands that read and write it.
use oslab.Base.{ℕ, Option, none, some, List, ◌∷◌, ltb, ◌==◌, if◌then◌else◌}
use oslab.Vm.Layout.{paddr, pgnum}

-- `struct PageInfo`; a pointer to one is its index in `pages`, `none` is NULL.
pub record PageInfo : Type 0 where
  pub pp_link : Option ℕ
  pub pp_ref : ℕ

-- `mem` is physical memory by the address of an aligned word; `flushed` lists the arguments of
-- `invlpg`, the latest first. The array `pages` has its own part of the state, and its words are not
-- in `mem`.
pub record Vm : Type 0 where
  pub npages : ℕ
  pub pages : ℕ → PageInfo
  pub page_free_list : Option ℕ
  pub mem : ℕ → ℕ
  pub flushed : List ℕ

-- How much of physical memory the kernel can reach: both the entry page directory and
-- `kern_pgdir` map [KERNBASE, KERNBASE + 4MB) to it and nothing above.
abbrev pub window : ℕ
window = 0x400000

-- A run ends with a value and a state, or in a fault: a dereference of NULL, an access outside
-- `pages`, or one to a kernel address that no entry maps. `spin` is a loop out of fuel.
pub data Run (A : Type 0) : Type 0 where
  ok : A → Vm → Run A
  fault : Run A
  spin : Run A

abbrev pub Cmd : Type 0 → Type 0
Cmd A = Vm → Run A

abbrev pub pure : {A : Type 0} → A → Cmd A
pure = ok

module _ {A C : Type 0} where
  abbrev pub chain : Run A → (A → Cmd C) → Run C
  chain (ok a t) rest = rest a t
  chain fault rest = fault
  chain spin rest = spin

  infixl 5 ◌>>=◌ ◌>>◌
  abbrev pub ◌>>=◌ : Cmd A → (A → Cmd C) → Cmd C
  (m >>= rest) s = chain (m s) rest

  abbrev pub ◌>>◌ : Cmd A → Cmd C → Cmd C
  m >> rest = m >>= λ _. rest

abbrev pub update {ℓ} : {A : Type ℓ} → (ℕ → A) → ℕ → A → ℕ → A
update f i v j = if j == i then v else f j

-- `*pp` and `*pp = p`
abbrev pub load_page : ℕ → Cmd PageInfo
load_page i s = if ltb i s.npages then ok (s.pages i) s else fault

abbrev pub store_page : ℕ → PageInfo → Cmd (Unit {0})
store_page i p s = if ltb i s.npages then ok tt (record s { pages = update s.pages i p }) else fault

abbrev pub deref : Option ℕ → Cmd ℕ
deref none s = fault
deref (some p) s = ok p s

-- A word at a kernel virtual address.
abbrev pub load : ℕ → Cmd ℕ
load kva s = if ltb (paddr kva) window then ok (s.mem (paddr kva)) s else fault

abbrev pub store : ℕ → ℕ → Cmd (Unit {0})
store kva v s =
    if ltb (paddr kva) window then ok tt (record s { mem = update s.mem (paddr kva) v }) else fault

-- `memset(kva, 0, PGSIZE)` at the start of a page.
abbrev pub zeroed : (ℕ → ℕ) → ℕ → ℕ → ℕ
zeroed mem n a = if pgnum a == n then 0 else mem a

abbrev pub clear_page : ℕ → Cmd (Unit {0})
clear_page kva s =
    if ltb (paddr kva) window
    then ok tt (record s { mem = zeroed s.mem (pgnum (paddr kva)) })
    else fault

abbrev pub get_free_list : Cmd (Option ℕ)
get_free_list s = ok s.page_free_list s

abbrev pub set_free_list : Option ℕ → Cmd (Unit {0})
set_free_list p s = ok tt (record s { page_free_list = p })

abbrev pub tlb_invalidate : ℕ → Cmd (Unit {0})
tlb_invalidate va s = ok tt (record s { flushed = va ∷ s.flushed })
