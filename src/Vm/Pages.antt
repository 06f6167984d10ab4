-- ===== src/Vm/Pages.antt =====
-- The page allocator of kernel/pmapjos.c: `page_init`, `page_alloc`, `page_free`, `page_decref`.
use oslab.Base.{
  ℕ, zero, suc, ◌+◌, ◌-◌, ◌%◌, ◌^◌, Bool, true, false, Option, none, some, ◌==◌, if◌then◌else◌,
}
use oslab.Vm.Layout.{page2kva}
use oslab.Vm.State.{
  Cmd, pure, fault, ◌>>=◌, ◌>>◌, load_page, store_page, clear_page, get_free_list, set_free_list,
  deref,
}

-- `alloc_flags & ALLOC_ZERO`, with ALLOC_ZERO the lowest bit.
abbrev pub wants_zero : ℕ → Bool
wants_zero alloc_flags = alloc_flags % 2 == 1

unfoldable pub page_alloc : ℕ → Cmd (Option ℕ)
page_alloc alloc_flags = do
  head ← get_free_list
  elim head [
    | none ↦ pure none
    | some ans ↦ do
      p ← load_page ans
      set_free_list p.pp_link
      if wants_zero alloc_flags then clear_page (page2kva ans) else pure tt
      pure (some ans)
  ]

unfoldable pub page_free : ℕ → Cmd (Unit {0})
page_free pp = do
  p ← load_page pp
  head ← get_free_list
  store_page pp (record p { pp_link = head })
  set_free_list (some pp)

-- `pp_ref` is a `uint16_t`.
unfoldable pub page_decref : ℕ → Cmd (Unit {0})
page_decref pp = do
  p ← load_page pp
  let ref = (p.pp_ref + 2 ^ 16 - 1) % 2 ^ 16
  store_page pp (record p { pp_ref = ref })
  if ref == 0 then page_free pp else pure tt

-- Two `struct PageInfo *` compared.
abbrev pub same_page : Option ℕ → Option ℕ → Bool
same_page none none = true
same_page none (some b) = false
same_page (some a) none = false
same_page (some a) (some b) = a == b

-- The loop of `page_init` from index `i` down, until the list starts at `stop`. Past index 0 the
-- unsigned `i` wraps and leaves the array.
unfoldable pub page_init_loop : (stop : ℕ) → (i : ℕ) → Cmd (Unit {0})
page_init_loop stop zero = do
  head ← get_free_list
  if same_page head (some stop) then pure tt else (do
    store_page 0 (record { pp_link = head; pp_ref = 0 })
    set_free_list (some 0)
    head ← get_free_list
    if same_page head (some stop) then pure tt else (λ _. fault))
page_init_loop stop (suc i) =
    let rest = page_init_loop stop i in
    do
      head ← get_free_list
      if same_page head (some stop) then pure tt else (do
        store_page (suc i) (record { pp_link = head; pp_ref = 0 })
        set_free_list (some (suc i))
        rest)

-- `stop` is the page that `page_init` computes from the end of the kernel image. The array `pages` that it
-- writes lies in physical memory too, in a block of `boot_alloc` below `stop`; here it is a part of the
-- state of its own, so what is stored in it does not show in `mem`.
unfoldable pub page_init : (stop : ℕ) → Cmd (Unit {0})
page_init stop s =
    (do
      page_init_loop stop (s.npages - 1)
      head ← get_free_list
      p ← deref head
      q ← load_page p
      set_free_list q.pp_link)
      s
