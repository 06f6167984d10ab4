-- ===== src/Env/Setup.antt =====
-- `env_setup_vm` of kernel/env.c: the page with the copy of the kernel's directory.
use oslab.Base.{ℕ, ◌+◌, ◌*◌, ◌<◌, ◌≡◌, ◌≢◌, refl, ap, ◌∙◌, List, ◌∷◌, ne→==, arith}
use oslab.Vm.Layout.{pgnum, pdx, paddr, page2kva}
use oslab.Vm.State.{Run, chain, Vm, ok, zeroed, ◌>>◌}
use oslab.Vm.Tables.{incref}
use oslab.Vm.FreeList.{IsFreeList, paddr-page2kva, counted, allocated, Chain-relink}
use oslab.Vm.Mmu.{pde, slot, translate, translate-copy, IsTree-tail, IsTree-same}
use oslab.Vm.NewTable.{NotIn-ne}
use oslab.Vm.Walk.{IsReady}
use oslab.Vm.Insert.{ref_up}
use oslab.Env.{copy_loop}
use oslab.Env.Copy.{Copied, copy_loop-Copied}

-- The memory system after `env_setup_vm` has taken page `p` and copied the directory into it.
abbrev pub copied_vm : (p : ℕ) (vm : Vm) (mem : ℕ → ℕ) → Vm
copied_vm p vm mem = record (counted p (ref_up (vm.pages p).pp_ref) (allocated 1 p vm)) {
  mem = mem;
}

incref-counted :
    (p : ℕ) (vm : Vm)
    → p < vm.npages
    → incref p vm ≡ ok tt (counted p (ref_up (vm.pages p).pp_ref) vm)
incref-counted p vm h = ground arith

module _ (vm : Vm) (kern_pgdir p : ℕ) {ps : List ℕ} (r : IsReady vm kern_pgdir (p ∷ ps))
    (low : p < 1024) where
  pub copy-Copied :
      (new : ℕ → ℕ) × ((do incref p; copy_loop 1024 0 (page2kva p) kern_pgdir) (allocated 1 p vm)
        ≡ ok tt (copied_vm p vm new))
      × Copied (zeroed vm.mem p) new (paddr (page2kva p)) (paddr kern_pgdir) 0 1024
  copy-Copied =
      let at = paddr-page2kva p low in
      let (new, run, c) =
        copy_loop-Copied (page2kva p) kern_pgdir (omega arith) r.tree.aligned (omega arith)
          r.tree.dir_low (omega (arith, r.tree.dir_used.0)) 1024 0
          (counted p (ref_up (vm.pages p).pp_ref) (allocated 1 p vm)) (omega arith) in
      (
        new,
        ap (λ (o : Run Unit). chain o (λ _. copy_loop 1024 0 (page2kva p) kern_pgdir))
              (incref-counted p (allocated 1 p vm) r.list.bounded.0)
            ∙ run,
        c,
      )

  module _ (new : ℕ → ℕ)
      (c : Copied (zeroed vm.mem p) new (paddr (page2kva p)) (paddr kern_pgdir) 0 1024) where
    -- Outside page `p` memory is as before.
    other_page : (a : ℕ) → pgnum a ≢ p → new a ≡ vm.mem a
    other_page a out =
        c.elsewhere a (omega (arith, paddr-page2kva p low)) ∙ rw (ne→== (pgnum a) p out) refl

    kept-pde : (i : ℕ) → i < 1024 → pde new (paddr kern_pgdir) i ≡ pde vm.mem (paddr kern_pgdir) i
    kept-pde i h =
        other_page (paddr kern_pgdir + 4 * i) (omega (arith, r.tree.dir_used.0, r.tree.aligned))

    new-pde : (i : ℕ) → i < 1024 → pde new (paddr (page2kva p)) i ≡ pde vm.mem (paddr kern_pgdir) i
    new-pde i h =
        c.copied i (omega arith) (omega arith)
        ∙ rw
            (ne→== (pgnum (paddr kern_pgdir + 4 * i)) p
              (omega (arith, r.tree.dir_used.0, r.tree.aligned)))
            refl

    -- The new directory translates every address as the kernel's does.
    pub new-translate :
        (va : ℕ) → translate new (paddr (page2kva p)) va ≡ translate vm.mem (paddr kern_pgdir) va
    new-translate va =
        translate-copy vm.mem new (paddr kern_pgdir) (paddr (page2kva p)) va
          (new-pde (pdx va) (omega arith))
          (λ there.
            other_page (slot vm.mem (paddr kern_pgdir) va)
              (omega (arith, (r.tree.used (pdx va) (omega arith) there).0)))

    copied-IsFreeList : IsFreeList (copied_vm p vm new) ps
    copied-IsFreeList = record {
      chain = Chain-relink vm.pages p _ (vm.pages p).pp_link ps refl r.list.chain.1;
      distinct = r.list.distinct.1;
      bounded = r.list.bounded.1;
    }

    pub kept-IsReady : IsReady (copied_vm p vm new) kern_pgdir ps
    kept-IsReady = record {
      tree = IsTree-same (IsTree-tail r.tree) new kept-pde;
      list = copied-IsFreeList;
    }

    pub new-IsReady : IsReady (copied_vm p vm new) (page2kva p) ps
    new-IsReady = record {
      tree =
          let at = paddr-page2kva p low in
          record {
            aligned = omega arith;
            dir_low = omega arith;
            dir_used = NotIn-ne p (pgnum (paddr (page2kva p))) ps (omega arith) r.list.distinct.0;
            low = λ i h q. rw (new-pde i h) (r.tree.low i h (rw (new-pde i h) at q));
            not_dir = λ i h q.
                rw (new-pde i h) (omega (arith, (r.tree.used i h (rw (new-pde i h) at q)).0));
            apart = λ i j h k ne q q'.
                rw (new-pde i h, new-pde j k)
                  (r.tree.apart i j h k ne (rw (new-pde i h) at q) (rw (new-pde j k) at q'));
            used = λ i h q. rw (new-pde i h) (r.tree.used i h (rw (new-pde i h) at q)).1;
          };
      list = copied-IsFreeList;
    }
