-- ===== src/Vm/FreeList.antt =====
-- The free list of kernel/pmapjos.c as a list of page indices, and the allocator as a stack on it.
pub mod Init
use oslab.Base.{
  ℕ, zero, suc, ◌+◌, ◌-◌, ◌%◌, ◌^◌, ◌≤◌, ◌<◌, ◌≡◌, ◌≢◌, refl, Bool, true, false, Option, none, some,
  List, [], ◌∷◌, arith, ltb, ◌==◌, if◌then◌else◌, lt→ltb, Bool-cases, inl, inr, ◌*◌, All, NotIn,
  Distinct,
}
use oslab.Vm.Layout.{page2kva, paddr, pgnum}
use oslab.Vm.State.{PageInfo, Vm, Run, ok, window, update, zeroed}
use oslab.Vm.Pages.{page_alloc, page_free, page_decref, wants_zero}

-- From `head` the links lead through exactly the pages `xs` to NULL.
abbrev pub Chain : (ℕ → PageInfo) → (head : Option ℕ) → List ℕ → Type 0
Chain pages head [] = head ≡ none
Chain pages head (x ∷ xs) = (head ≡ some x) × Chain pages (pages x).pp_link xs

pub record IsFreeList (s : Vm) (xs : List ℕ) : Type 0 where
  pub chain : Chain s.pages s.page_free_list xs
  pub distinct : Distinct xs
  pub bounded : All (λ x. x < s.npages) xs

-- Only the pages, their number and the head count.
pub IsFreeList-same :
    {s t : Vm} {xs : List ℕ}
    → IsFreeList s xs
    → t.pages ≡ s.pages
    → t.page_free_list ≡ s.page_free_list
    → t.npages ≡ s.npages
    → IsFreeList t xs
IsFreeList-same f e e' e'' = record {
  chain = rw (e, e') f.chain;
  distinct = f.distinct;
  bounded = rw e'' f.bounded;
}

-- The links of the pages of `xs` decide the chain.
pub Chain-update :
    (pages : ℕ → PageInfo) (i : ℕ) (p : PageInfo) (head : Option ℕ) (xs : List ℕ)
    → NotIn i xs
    → Chain pages head xs
    → Chain (update pages i p) head xs
Chain-update pages i p head [] out c = c
Chain-update pages i p head (x ∷ xs) out c =
    let keep : (update pages i p x) ≡ pages x = ground arith in
    (c.0, rw keep (Chain-update pages i p (pages x).pp_link xs out.1 c.1))

-- A write that keeps the link of its page keeps the chain.
pub Chain-relink :
    (pages : ℕ → PageInfo) (i : ℕ) (p : PageInfo) (head : Option ℕ) (xs : List ℕ)
    → p.pp_link ≡ (pages i).pp_link
    → Chain pages head xs
    → Chain (update pages i p) head xs
Chain-relink pages i p head [] e c = c
Chain-relink pages i p head (x ∷ xs) e c =
    let keep : (update pages i p x).pp_link ≡ (pages x).pp_link = ground arith in
    (c.0, rw keep (Chain-relink pages i p (pages x).pp_link xs e c.1))

-- The page of a kernel address below 4MB.
pub paddr-page2kva : (x : ℕ) → x < 1024 → paddr (page2kva x) ≡ x * 4096
paddr-page2kva x low = omega arith

-- The state after `page_alloc` hands out `x`.
abbrev pub allocated : (flags x : ℕ) → Vm → Vm
allocated flags x s = record s {
  page_free_list = (s.pages x).pp_link;
  mem = if wants_zero flags then zeroed s.mem x else s.mem;
}

pub page_alloc-empty : {s : Vm} (flags : ℕ) → IsFreeList s [] → page_alloc flags s ≡ ok none s
unfolding page_alloc
page_alloc-empty flags f = ground arith

pub page_alloc-cons :
    {s : Vm} (flags x : ℕ) (xs : List ℕ)
    → IsFreeList s (x ∷ xs)
    → (wants_zero flags ≡ true → x < 1024)
    → page_alloc flags s ≡ ok (some x) (allocated flags x s)
unfolding page_alloc
page_alloc-cons {s} flags x xs f low = elim (Bool-cases (wants_zero flags)) [
  | inl clear ↦ ground (arith, paddr-page2kva x (low clear))
  | inr plain ↦ ground arith
]

-- The state after `page_free` takes `x` back.
abbrev pub freed : ℕ → Vm → Vm
freed x s = record s {
  pages = update s.pages x (record (s.pages x) { pp_link = s.page_free_list });
  page_free_list = some x;
}

pub page_free-freed : (s : Vm) (x : ℕ) → x < s.npages → page_free x s ≡ ok tt (freed x s)
unfolding page_free
page_free-freed s x lt = ground arith

pub freed-IsFreeList :
    {s : Vm} (x : ℕ) (xs : List ℕ)
    → IsFreeList s xs
    → NotIn x xs
    → x < s.npages
    → IsFreeList (freed x s) (x ∷ xs)
freed-IsFreeList {s} x xs f out lt =
    let p : PageInfo = record (s.pages x) { pp_link = s.page_free_list } in
    let self : update s.pages x p x ≡ p = ground arith in
    record {
      chain = (refl, rw self (Chain-update s.pages x p s.page_free_list xs out f.chain));
      distinct = (out, f.distinct);
      bounded = (lt, f.bounded);
    }

-- The state after the count of `x` is set to `ref`.
abbrev pub counted : ℕ → ℕ → Vm → Vm
counted x ref s = record s { pages = update s.pages x (record (s.pages x) { pp_ref = ref }) }

pub counted-IsFreeList :
    {s : Vm} (x ref : ℕ) (xs : List ℕ) → IsFreeList s xs → IsFreeList (counted x ref s) xs
counted-IsFreeList {s} x ref xs f = record {
  chain = Chain-relink s.pages x _ s.page_free_list xs refl f.chain;
  distinct = f.distinct;
  bounded = f.bounded;
}

pub page_decref-last :
    (s : Vm) (x : ℕ)
    → x < s.npages
    → (s.pages x).pp_ref ≡ 1
    → page_decref x s ≡ ok tt (freed x (counted x 0 s))
unfolding page_decref page_free
page_decref-last s x lt one = ground (arith)

pub page_decref-shared :
    (s : Vm) (x : ℕ)
    → x < s.npages
    → (s.pages x).pp_ref ≢ 1
    → (s.pages x).pp_ref < 2 ^ 16
    → page_decref x s ≡ ok tt (counted x (((s.pages x).pp_ref + 2 ^ 16 - 1) % 2 ^ 16) s)
unfolding page_decref
page_decref-shared s x lt ne small = ground arith

-- A page given back by `page_free` is the next that `page_alloc` hands out, and the free list is then
-- what it was. The new contents are zero where the flag asks for it; the flag needs the page in reach.
pub page_alloc-page_free :
    (s : Vm) (flags x : ℕ) (xs : List ℕ)
    → IsFreeList s xs
    → NotIn x xs
    → x < s.npages
    → (wants_zero flags ≡ true → x < 1024)
    → (t : Vm) × (u : Vm) × (page_free x s ≡ ok tt t)
      × IsFreeList t (x ∷ xs)
      × (page_alloc flags t ≡ ok (some x) u)
      × IsFreeList u xs
      × (u.mem ≡ (if wants_zero flags then zeroed s.mem x else s.mem))
page_alloc-page_free s flags x xs f out lt low =
    let g = freed-IsFreeList x xs f out lt in
    (
      freed x s,
      allocated flags x (freed x s),
      page_free-freed s x lt,
      g,
      page_alloc-cons flags x xs g low,
      record { chain = g.chain.1; distinct = g.distinct.1; bounded = g.bounded.1 },
      refl,
    )
