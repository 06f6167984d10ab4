-- ===== src/Vm/FreeList/Init.antt =====
-- `page_init`: the free list that it builds, and the fault of a machine with too few pages.
use native.Mathlib.Decide.{dec_le}
use oslab.Base.{
  ℕ, ap, ◌∙◌, zero, suc, ◌+◌, ◌-◌, ◌≤◌, ◌<◌, ◌≡◌, ◌⊎◌, refl, false, Option, none, some, List, [],
  ◌∷◌, arith, inl, inr, NotIn, Distinct, All,
}
use oslab.Vm.State.{PageInfo, Vm, ok, fault, update}
use oslab.Vm.Pages.{page_init_loop, page_init, same_page}
use oslab.Vm.FreeList.{Chain, Chain-update, IsFreeList}

-- The pages n, n + 1, ..., n + k - 1.
abbrev pub upfrom : ℕ → ℕ → List ℕ
upfrom n zero = []
upfrom n (suc k) = n ∷ upfrom (suc n) k

-- The state after one round of the loop at index `i`.
abbrev pushed : ℕ → Vm → Vm
pushed i s = record s {
  pages = update s.pages i (record { pp_link = s.page_free_list; pp_ref = 0 });
  page_free_list = some i;
}

-- The list starts with the page after `i`, or is empty when `i` is the last page.
abbrev HeadAbove : ℕ → Option ℕ → Type 0
HeadAbove i none = Unit
HeadAbove i (some x) = x ≡ suc i

page_init_loop-stop :
    {s : Vm} (stop i : ℕ) → s.page_free_list ≡ some stop → page_init_loop stop i s ≡ ok tt s
unfolding page_init_loop
page_init_loop-stop stop zero e = ground arith
page_init_loop-stop stop (suc i) e = ground arith

page_init_loop-push :
    (s : Vm) (stop i : ℕ)
    → same_page s.page_free_list (some stop) ≡ false
    → suc i < s.npages
    → page_init_loop stop (suc i) s ≡ page_init_loop stop i (pushed (suc i) s)
unfolding page_init_loop
page_init_loop-push s stop i e lt = ground arith

page_init_loop-last :
    (s : Vm)
    → same_page s.page_free_list (some 0) ≡ false
    → 0 < s.npages
    → page_init_loop 0 0 s ≡ ok tt (pushed 0 s)
unfolding page_init_loop
page_init_loop-last s ne lt = ground arith

pub upfrom-NotIn : (i n k : ℕ) → i < n → NotIn i (upfrom n k)
upfrom-NotIn i n zero lt = tt
upfrom-NotIn i n (suc k) lt = (omega arith, upfrom-NotIn i (suc n) k (omega arith))

pub upfrom-Distinct : (n k : ℕ) → Distinct (upfrom n k)
upfrom-Distinct n zero = tt
upfrom-Distinct n (suc k) = (upfrom-NotIn n (suc n) k (omega arith), upfrom-Distinct (suc n) k)

pub upfrom-All : (n k m : ℕ) → n + k ≤ m → All (λ x. x < m) (upfrom n k)
upfrom-All n zero m le = tt
upfrom-All n (suc k) m le = (omega arith, upfrom-All (suc n) k m (omega arith))

pushed-Chain :
    (s : Vm) (i k : ℕ)
    → Chain s.pages s.page_free_list (upfrom (suc i) k)
    → Chain (pushed i s).pages (some i) (upfrom i (suc k))
pushed-Chain s i k c =
    let p : PageInfo = record { pp_link = s.page_free_list; pp_ref = 0 } in
    let self : update s.pages i p i ≡ p = ground arith in
    (
      refl,
      rw self (
          Chain-update s.pages i p s.page_free_list (upfrom (suc i) k)
            (upfrom-NotIn i (suc i) k (omega arith)) c),
    )

-- What the loop leaves: every page from `stop` on is linked in ascending order.
pub record Linked (stop : ℕ) (s t : Vm) : Type 0 where
  pub chain : Chain t.pages t.page_free_list (upfrom stop (s.npages - stop))
  pub npages : t.npages ≡ s.npages
  pub mem : t.mem ≡ s.mem

-- With the pages above `i` linked, the list does not start at `i` or below.
head-ne-stop :
    (pages : ℕ → PageInfo) (head : Option ℕ) (stop i k : ℕ)
    → Chain pages head (upfrom (suc i) k)
    → stop ≤ i
    → same_page head (some stop) ≡ false
head-ne-stop pages head stop i zero c le = ground arith
head-ne-stop pages head stop i (suc k) c le = ground arith

stop-cases : (stop i : ℕ) → stop ≤ suc i → (stop ≤ i) ⊎ (some (suc i) ≡ some stop)
stop-cases stop i le = elim (dec_le stop i) [
  | yes below ↦ inl below
  | no above ↦ inr (ap some (omega arith))
]

-- The loop at index `i`, with the pages above `i` already linked.
page_init_loop-Linked :
    (stop i k : ℕ) (s : Vm)
    → Chain s.pages s.page_free_list (upfrom (suc i) k)
    → (stop ≤ i) ⊎ (s.page_free_list ≡ some stop)
    → suc (i + k) ≡ s.npages
    → (t : Vm) × (page_init_loop stop i s ≡ ok tt t) × Linked stop s t
page_init_loop-Linked stop i zero s c (inr e) n = cc
page_init_loop-Linked stop i (suc k) s c (inr e) n =
    let at : stop ≡ suc i = ground arith in
    let count : s.npages - stop ≡ suc k = omega arith in
    (
      s,
      page_init_loop-stop stop i e,
      record { chain = rw (count, at) c; npages = refl; mem = refl },
    )
page_init_loop-Linked stop zero k s c (inl le) n =
    let at : stop ≡ 0 = omega arith in
    let count : s.npages - 0 ≡ suc k = omega arith in
    rw at (
      pushed 0 s,
      page_init_loop-last s (head-ne-stop s.pages s.page_free_list 0 0 k c (omega arith))
          (omega arith),
      record { chain = rw count (pushed-Chain s 0 k c); npages = refl; mem = refl },
    )
page_init_loop-Linked stop (suc i) k s c (inl le) n =
    let (t, run, l) =
      page_init_loop-Linked stop i (suc k) (pushed (suc i) s) (pushed-Chain s (suc i) k c)
        (stop-cases stop i le) (omega arith) in
    (
      t,
      page_init_loop-push s stop i (head-ne-stop s.pages s.page_free_list stop (suc i) k c le)
            (omega arith)
          ∙ run,
      record { chain = l.chain; npages = l.npages; mem = l.mem },
    )

page_init-finish :
    (s t : Vm) (stop : ℕ)
    → page_init_loop stop (s.npages - 1) s ≡ ok tt t
    → t.page_free_list ≡ some stop
    → stop < t.npages
    → page_init stop s ≡ ok tt (record t { page_free_list = (t.pages stop).pp_link })
unfolding page_init
page_init-finish s t stop run head lt = rw run (ground arith)

-- Started with an empty list and `stop` a page of the machine, `page_init` returns; it leaves on the
-- free list exactly the pages above `stop`, in ascending order. The model keeps `pages` apart
-- from `mem`, which stays as it is.
pub page_init-IsFreeList :
    (s : Vm) (stop : ℕ)
    → s.page_free_list ≡ none
    → stop < s.npages
    → (t : Vm) × (page_init stop s ≡ ok tt t)
      × IsFreeList t (upfrom (suc stop) (s.npages - suc stop))
      × (t.npages ≡ s.npages)
      × (t.mem ≡ s.mem)
page_init-IsFreeList s stop empty lt =
    let (t, run, l) =
      page_init_loop-Linked stop (s.npages - 1) 0 s empty (inl (omega arith)) (omega arith) in
    let count : s.npages - stop ≡ suc (s.npages - suc stop) = omega arith in
    let c : Chain t.pages t.page_free_list (stop ∷ upfrom (suc stop) (s.npages - suc stop)) =
      rw count at l.chain in
    (
      record t { page_free_list = (t.pages stop).pp_link },
      page_init-finish s t stop run c.0 (omega (arith, l.npages)),
      record {
        chain = c.1;
        distinct = upfrom-Distinct (suc stop) (s.npages - suc stop);
        bounded = upfrom-All (suc stop) (s.npages - suc stop) t.npages (omega (arith, l.npages));
      },
      l.npages,
      l.mem,
    )

page_init_loop-fault :
    (s : Vm) (stop i : ℕ)
    → same_page s.page_free_list (some stop) ≡ false
    → i < s.npages
    → i < stop
    → page_init_loop stop i s ≡ fault
unfolding page_init_loop
page_init_loop-fault s stop zero e lt above = ground arith
page_init_loop-fault s stop (suc i) e lt above =
    ground (arith, page_init_loop-fault (pushed (suc i) s) stop i)

-- If the page computed from the end of the kernel is not one of the machine's, `page_init` runs off
-- the bottom of the `pages` array.
page_init-fault :
    (s : Vm) (stop : ℕ)
    → s.page_free_list ≡ none
    → 0 < s.npages
    → s.npages ≤ stop
    → page_init stop s ≡ fault
unfolding page_init
page_init-fault s stop empty some_pages above =
    rw (page_init_loop-fault s stop (s.npages - 1) (ground arith) (omega arith) (omega arith))

-- `page_init`, started with an empty list on a machine that has pages. If `stop` is one of them it returns
-- and leaves on the free list exactly the pages above `stop`, in ascending order; if not, it runs off the bottom of the `pages` array.
pub page_init-lem :
    (s : Vm) (stop : ℕ)
    → s.page_free_list ≡ none
    → 0 < s.npages
    → ((stop < s.npages)
        × ((t : Vm) × (page_init stop s ≡ ok tt t)
            × IsFreeList t (upfrom (suc stop) (s.npages - suc stop))
            × (t.npages ≡ s.npages)))
      ⊎ ((s.npages ≤ stop) × (page_init stop s ≡ fault))
page_init-lem s stop empty some_pages = elim (below stop s.npages) [
  | inl lt ↦
      let (t, run, list, count, mem) = page_init-IsFreeList s stop empty lt in
      inl (lt, (t, run, list, count))
  | inr le ↦ inr (le, page_init-fault s stop empty some_pages le)
]
  where
    below : (m n : ℕ) → (m < n) ⊎ (n ≤ m)
    below m n = ground arith
