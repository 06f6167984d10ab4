-- ===== src/Env/Alloc.antt =====
-- `env_alloc` of kernel/env.c: a new environment with the kernel's address space, and the errors.
use oslab.Base.{
  ℕ, ◌+◌, ◌*◌, ◌/◌, ◌%◌, ◌^◌, ◌<◌, ◌≡◌, ◌≢◌, refl, sym, ap, ◌∙◌, List, [], ◌∷◌, bit_or, eq→==,
  lt→ltb, arith,
}
use oslab.Base.Bits.{bit_or_fields}
use mathlib.Core.Path.{subst}
use oslab.Vm.Layout.{word, paddr, page2kva}
use oslab.Vm.Insert.{ref_up}
use oslab.Vm.State.{Vm, ok, update, ◌>>◌}
use oslab.Vm.Tables.{incref}
use oslab.Vm.FreeList.{IsFreeList, page_alloc-cons, page_alloc-empty, allocated}
use oslab.Vm.Mmu.{translate}
use oslab.Vm.Walk.{IsReady, update-ne}
use oslab.Vm.Boot.{nenv}
use oslab.Env.{
  Env, Envs, succeeded, failed, e_no_mem, e_no_free_env, env_runnable, env_type_user,
  next_generation, new_env, new_tf, env_setup_vm, env_alloc, copy_loop,
}
use oslab.Env.FreeEnvs.{IsFreeEnvs, Chain, Chain-update}
use oslab.Env.Setup.{copied_vm, copy-Copied, new-translate, kept-IsReady, new-IsReady}

-- The identifier of a new environment is positive as an `int`, has the index in its low bits, and is not
-- the one that the environment had.
abbrev pub IsFreshId : (old new e : ℕ) → Type 0
IsFreshId old new e = (0 < new) × (new < 2 ^ 31) × (new % nenv ≡ e) × (new ≢ old)

generation_split : (old : ℕ) → next_generation old ≡ next_generation old / nenv * 2 ^ 10
generation_split old = ground arith

new_id-IsFreshId :
    (old e : ℕ) → old < word → e < nenv → IsFreshId old (bit_or (next_generation old) e) e
new_id-IsFreshId old e h k =
    let sum : bit_or (next_generation old) e ≡ next_generation old / nenv * 2 ^ 10 + e =
      ap (λ n. bit_or n e) (generation_split old)
      ∙ bit_or_fields 10 (next_generation old / nenv) e k in
    ground (arith, generation_split old)

update_env : (envs : ℕ → Env) (i : ℕ) (e : Env) → update envs i e i ≡ e
update_env envs i e = rw (eq→== i i refl) refl

-- The environment `e` handed out, with page `p` for its directory.
abbrev handed_out : (s : Envs) (e p parent_id : ℕ) (new : ℕ → ℕ) → Envs
handed_out s e p parent_id new =
    let with_dir = update s.envs e (record (s.envs e) { env_pgdir = page2kva p }) in
    record {
      vm = copied_vm p s.vm new;
      envs = update with_dir e (new_env e parent_id (with_dir e));
      env_free_list = (with_dir e).env_link;
    }

-- The environment `e` is new in `t`: it has a fresh identifier, is a user environment that waits to run and has not, and its own directory in
-- page `p` translates as the kernel's did. That page has one reference more than before, and no other
-- page has more or fewer. Both directories are well formed with `pages` free, `envs` are the
-- free environments, and every other environment is as before.
pub record Allocated (s t : Envs) (kern_pgdir e parent_id p : ℕ) (pages envs : List ℕ)
    : Type 0 where
  pub fresh_id : IsFreshId (s.envs e).env_id (t.envs e).env_id e
  pub parent : (t.envs e).env_parent_id ≡ parent_id
  pub runnable : (t.envs e).env_status ≡ env_runnable
  pub user : (t.envs e).env_type ≡ env_type_user
  pub not_run : (t.envs e).env_runs ≡ 0
  pub registers : (t.envs e).env_tf ≡ new_tf
  pub directory : (t.envs e).env_pgdir ≡ page2kva p
  pub referenced : (t.vm.pages p).pp_ref ≡ ref_up (s.vm.pages p).pp_ref
  pub other_counts : (j : ℕ) → j ≢ p → (t.vm.pages j).pp_ref ≡ (s.vm.pages j).pp_ref
  pub space :
      (va : ℕ)
      → translate t.vm.mem (paddr (t.envs e).env_pgdir) va
        ≡ translate s.vm.mem (paddr kern_pgdir) va
  pub ready : IsReady t.vm (t.envs e).env_pgdir pages
  pub kernel_ready : IsReady t.vm kern_pgdir pages
  pub free : IsFreeEnvs t envs
  pub others : (j : ℕ) → j ≢ e → t.envs j ≡ s.envs j

copied_vm_self :
    (p : ℕ) (vm : Vm) (new : ℕ → ℕ)
    → ((copied_vm p vm new).pages p).pp_ref ≡ ref_up (vm.pages p).pp_ref
copied_vm_self p vm new = ground arith

copied_vm_other :
    (p : ℕ) (vm : Vm) (new : ℕ → ℕ) (j : ℕ)
    → j ≢ p
    → ((copied_vm p vm new).pages j).pp_ref ≡ (vm.pages j).pp_ref
copied_vm_other p vm new j ne = ground arith

module _ (s : Envs) (kern_pgdir parent_id : ℕ) {e p : ℕ} {es ps : List ℕ}
    (f : IsFreeEnvs s (e ∷ es)) (r : IsReady s.vm kern_pgdir (p ∷ ps)) (low : p < 1024) where
  env_alloc-handed_out :
      (new : ℕ → ℕ)
      → (do incref p; copy_loop 1024 0 (page2kva p) kern_pgdir) (allocated 1 p s.vm)
        ≡ ok tt (copied_vm p s.vm new)
      → env_alloc kern_pgdir parent_id s ≡ succeeded e (handed_out s e p parent_id new)
  unfolding env_alloc env_setup_vm
  env_alloc-handed_out new run =
      rw (f.chain.0) (
        rw (lt→ltb e nenv f.bounded.0)
          (rw (page_alloc-cons 1 p ps r.list (λ _. low)) (rw run refl)))

  handed_out-IsFreeEnvs : (new : ℕ → ℕ) → IsFreeEnvs (handed_out s e p parent_id new) es
  handed_out-IsFreeEnvs new =
      let with_dir = update s.envs e (record (s.envs e) { env_pgdir = page2kva p }) in
      let first =
        Chain-update s.envs e (record (s.envs e) { env_pgdir = page2kva p }) (s.envs e).env_link es
          f.distinct.0 f.chain.1 in
      record {
        chain =
            Chain-update with_dir e (new_env e parent_id (with_dir e)) (with_dir e).env_link es
              f.distinct.0
              (subst (λ head. Chain with_dir head es)
                (sym (ap (λ (v : Env). v.env_link) (update_env s.envs e _))) first);
        distinct = f.distinct.1;
        bounded = f.bounded.1;
      }

  -- `env_alloc`, with a free environment and the first free page below 4MB, succeeds and hands out the
  -- first free environment: with a fresh identifier, a user environment that is runnable and has
  -- not run, with the registers of user mode, and with the directory in that page, which translates every address as the kernel's directory does.
  -- The page is off the free list and has one reference more than before; the counts of the other pages
  -- and the other environments are as before, and free lists and directories stay well formed.
  pub env_alloc-Allocated :
      (s.envs e).env_id < word
      → (t : Envs) × (env_alloc kern_pgdir parent_id s ≡ succeeded e t)
        × Allocated s t kern_pgdir e parent_id p ps es
  env_alloc-Allocated id =
      let (new, run, c) = copy-Copied s.vm kern_pgdir p r low in
      let with_dir = update s.envs e (record (s.envs e) { env_pgdir = page2kva p }) in
      let t = handed_out s e p parent_id new in
      let at : t.envs e ≡ new_env e parent_id (record (s.envs e) { env_pgdir = page2kva p }) =
        update_env with_dir e _ ∙ ap (new_env e parent_id) (update_env s.envs e _) in
      let dir : (t.envs e).env_pgdir ≡ page2kva p = ap (λ (v : Env). v.env_pgdir) at in
      (
        t,
        env_alloc-handed_out new run,
        record {
          fresh_id =
              subst (λ n. IsFreshId (s.envs e).env_id n e) (sym (ap (λ (v : Env). v.env_id) at))
                (new_id-IsFreshId (s.envs e).env_id e id f.bounded.0);
          parent = ap (λ (v : Env). v.env_parent_id) at;
          runnable = ap (λ (v : Env). v.env_status) at;
          user = ap (λ (v : Env). v.env_type) at;
          not_run = ap (λ (v : Env). v.env_runs) at;
          registers = ap (λ (v : Env). v.env_tf) at;
          directory = dir;
          referenced = copied_vm_self p s.vm new;
          other_counts = copied_vm_other p s.vm new;
          space = λ va.
              subst (λ d. translate new (paddr d) va ≡ translate s.vm.mem (paddr kern_pgdir) va)
                (sym dir) (new-translate s.vm kern_pgdir p r low new c va);
          ready =
              subst (λ d. IsReady t.vm d ps) (sym dir) (new-IsReady s.vm kern_pgdir p r low new c);
          kernel_ready = kept-IsReady s.vm kern_pgdir p r low new c;
          free = handed_out-IsFreeEnvs new;
          others = λ j ne. update-ne with_dir e _ j ne ∙ update-ne s.envs e _ j ne;
        },
      )

-- With no page free, `env_alloc` returns -E_NO_FREE_ENV if no environment is free either and else
-- -E_NO_MEM, and changes nothing.
pub env_alloc-failed :
    (s : Envs) (kern_pgdir parent_id : ℕ) (es : List ℕ)
    → IsFreeEnvs s es
    → IsFreeList s.vm []
    → env_alloc kern_pgdir parent_id s
      ≡ failed (elim es [ [] ↦ e_no_free_env | e ∷ rest ↦ e_no_mem ]) s
unfolding env_alloc env_setup_vm
env_alloc-failed s kern_pgdir parent_id [] f pages = rw f.chain refl
env_alloc-failed s kern_pgdir parent_id (e ∷ es) f pages =
    rw f.chain.0 (rw (lt→ltb e nenv f.bounded.0) (rw (page_alloc-empty 1 pages) refl))
