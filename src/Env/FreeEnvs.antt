-- ===== src/Env/FreeEnvs.antt =====
-- The list of free environments of kernel/env.c as a list of indices, and what `env_init` makes of it.
use oslab.Base.{
  ℕ, zero, suc, ◌+◌, ◌≤◌, ◌<◌, ◌≡◌, refl, Option, none, some, List, [], ◌∷◌, All, NotIn, Distinct,
  arith, eq→==, ne→==,
}
use native.Mathlib.Decide.{ℕ_discrete}
use oslab.Vm.State.{update}
use oslab.Vm.FreeList.Init.{upfrom, upfrom-NotIn, upfrom-Distinct, upfrom-All}
use mathlib.Core.Path.{subst}
use oslab.Vm.Boot.{nenv}
use oslab.Env.{Env, Envs, env_free, env_type_idle, idle_env, env_init_loop, env_init}

-- From `head` the links lead through exactly the environments `xs` to NULL.
abbrev pub Chain : (ℕ → Env) → (head : Option ℕ) → List ℕ → Type 0
Chain envs head [] = head ≡ none
Chain envs head (x ∷ xs) = (head ≡ some x) × Chain envs (envs x).env_link xs

pub record IsFreeEnvs (s : Envs) (xs : List ℕ) : Type 0 where
  pub chain : Chain s.envs s.env_free_list xs
  pub distinct : Distinct xs
  pub bounded : All (λ x. x < nenv) xs

pub Chain-update :
    (envs : ℕ → Env) (i : ℕ) (e : Env) (head : Option ℕ) (xs : List ℕ)
    → NotIn i xs
    → Chain envs head xs
    → Chain (update envs i e) head xs
Chain-update envs i e head [] out c = c
Chain-update envs i e head (x ∷ xs) out c =
    let keep : (update envs i e x) ≡ envs x = ground arith in
    (c.0, rw keep (Chain-update envs i e (envs x).env_link xs out.1 c.1))

-- What the loop leaves of an environment.
abbrev pub IsIdle : Env → Type 0
IsIdle e =
    (e.env_id ≡ 0)
    × (e.env_parent_id ≡ 0)
    × (e.env_type ≡ env_type_idle)
    × (e.env_status ≡ env_free)
    × (e.env_runs ≡ 0)
    × (e.env_pgdir ≡ 0)

-- One round, for environment `i`.
abbrev linked : ℕ → Envs → Envs
linked i s = record s {
  envs = update s.envs i (idle_env (s.envs i) s.env_free_list);
  env_free_list = some i;
}

linked-Chain :
    (s : Envs) (i k : ℕ)
    → Chain s.envs s.env_free_list (upfrom (suc i) k)
    → Chain (linked i s).envs (some i) (upfrom i (suc k))
linked-Chain s i k c =
    let e : Env = idle_env (s.envs i) s.env_free_list in
    let self : update s.envs i e i ≡ e = ground arith in
    (
      refl,
      rw self (
          Chain-update s.envs i e s.env_free_list (upfrom (suc i) k)
            (upfrom-NotIn i (suc i) k (omega arith)) c),
    )

linked-IsIdle :
    (s : Envs) (i k j : ℕ)
    → ((l : ℕ) → suc i ≤ l → l < suc i + k → IsIdle (s.envs l))
    → i ≤ j
    → j < i + suc k
    → IsIdle ((linked i s).envs j)
linked-IsIdle s i k j idle low high = elim (ℕ_discrete j i) [
  | yes e ↦ rw (eq→== j i e) (refl, refl, refl, refl, refl, refl)
  | no ne ↦ rw (ne→== j i ne) (idle j (omega arith) (omega arith))
]

-- The loop from `i` down, behind which the environments up to `i + k` are free.
env_init_loop-IsFreeEnvs :
    (i k : ℕ) (s : Envs)
    → Chain s.envs s.env_free_list (upfrom i k)
    → ((j : ℕ) → i ≤ j → j < i + k → IsIdle (s.envs j))
    → Chain (env_init_loop i s).envs (env_init_loop i s).env_free_list (upfrom 0 (i + k))
      × ((j : ℕ) → j < i + k → IsIdle ((env_init_loop i s).envs j))
      × ((env_init_loop i s).vm ≡ s.vm)
unfolding env_init_loop
env_init_loop-IsFreeEnvs zero k s c idle = (
  subst (λ n. Chain s.envs s.env_free_list (upfrom 0 n)) (omega arith) c,
  (λ j h. idle j (omega arith) (omega arith)),
  refl,
)
env_init_loop-IsFreeEnvs (suc i) k s c idle =
    let (chain, all, same) =
      env_init_loop-IsFreeEnvs i (suc k) (linked i s) (linked-Chain s i k c)
        (λ j low high. linked-IsIdle s i k j idle low high) in
    let count : i + suc k ≡ suc i + k = omega arith in
    (
      subst
          (λ n.
            Chain (env_init_loop i (linked i s)).envs (env_init_loop i (linked i s)).env_free_list
              (upfrom 0 n))
          count chain,
      (λ j h. all j (omega arith)),
      same,
    )

-- `env_init`, called while no environment is free, leaves all of them on the free list, in the order of
-- `envs`, each with the identifier, the parent, the number of runs and the directory 0, the type idle and
-- the status free, and leaves the page allocator as it was.
pub env_init-IsFreeEnvs :
    (s : Envs)
    → s.env_free_list ≡ none
    → IsFreeEnvs (env_init s) (upfrom 0 nenv)
      × ((j : ℕ) → j < nenv → IsIdle ((env_init s).envs j))
      × ((env_init s).vm ≡ s.vm)
unfolding env_init
env_init-IsFreeEnvs s empty =
    let (chain, idle, same) =
      env_init_loop-IsFreeEnvs nenv 0 s empty (λ j low high. absurd (omega arith)) in
    (
      record {
        chain = chain;
        distinct = upfrom-Distinct 0 nenv;
        bounded = upfrom-All 0 nenv nenv (omega arith);
      },
      (λ j h. idle j (omega arith)),
      same,
    )
