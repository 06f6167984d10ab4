-- ===== src/Env.antt =====
-- The environments of kernel/env.c: `env_init`, `env_setup_vm` and `env_alloc`. A `struct Env *` is the
-- index of its environment in `envs`, `none` is NULL.
pub mod Segments
pub mod FreeEnvs
pub mod Copy
pub mod Setup
pub mod Alloc
mod Tests
use oslab.Base.{
  ℕ, zero, suc, ◌+◌, ◌-◌, ◌*◌, ◌%◌, ◌^◌, Option, none, some, ltb, leb, ◌==◌, ◌||◌, if◌then◌else◌,
  bit_or,
}
use oslab.Vm.Layout.{word, page2kva}
use oslab.Vm.State.{Vm, Run, Cmd, ok, pure, ◌>>=◌, ◌>>◌, load, store, update}
use oslab.Vm.Pages.{page_alloc}
use oslab.Vm.Tables.{entry, incref}
use oslab.Vm.Boot.{nenv}

-- `struct Trapframe` without its padding and, as they are only cleared, without the eight general
-- registers.
pub record Trapframe : Type 0 where
  pub tf_es : ℕ
  pub tf_ds : ℕ
  pub tf_trapno : ℕ
  pub tf_err : ℕ
  pub tf_eip : ℕ
  pub tf_cs : ℕ
  pub tf_eflags : ℕ
  pub tf_esp : ℕ
  pub tf_ss : ℕ

pub data EnvState : Type 0 where
  env_free env_runnable env_running env_not_runnable : EnvState

pub data EnvType : Type 0 where
  env_type_user env_type_idle : EnvType

-- `struct Env`; `env_id` and `env_parent_id` are the 32 bits of an `envid_t`.
pub record Env : Type 0 where
  pub env_tf : Trapframe
  pub env_link : Option ℕ
  pub env_id : ℕ
  pub env_parent_id : ℕ
  pub env_type : EnvType
  pub env_status : EnvState
  pub env_runs : ℕ
  pub env_pgdir : ℕ

-- `envs` and `env_free_list`, with the memory system below them.
pub record Envs : Type 0 where
  pub vm : Vm
  pub envs : ℕ → Env
  pub env_free_list : Option ℕ

pub data EnvError : Type 0 where
  e_no_mem e_no_free_env : EnvError

-- What a function returns: 0 with the environment, an error code, or the ways of `Run` not to return.
pub data EnvRun : Type 0 where
  succeeded : ℕ → Envs → EnvRun
  failed : EnvError → Envs → EnvRun
  fault spin : EnvRun

abbrev pub with_vm : {A : Type 0} → Run A → (A → Vm → EnvRun) → EnvRun
with_vm (ok a vm) rest = rest a vm
with_vm Run.fault rest = fault
with_vm Run.spin rest = spin

abbrev pub and_then : EnvRun → (ℕ → Envs → EnvRun) → EnvRun
and_then (succeeded e s) rest = rest e s
and_then (failed err s) rest = failed err s
and_then fault rest = fault
and_then spin rest = spin

abbrev pub envgenshift : ℕ
envgenshift = 12

abbrev pub gd_ut : ℕ
gd_ut = 0x18

abbrev pub gd_ud : ℕ
gd_ud = 0x20

-- The body of the loop of `env_init` for environment `i`.
abbrev pub idle_env : Env → Option ℕ → Env
idle_env e link = record e {
  env_id = 0;
  env_parent_id = 0;
  env_type = env_type_idle;
  env_status = env_free;
  env_runs = 0;
  env_pgdir = 0;
  env_link = link;
}

-- The loop over `i - 1` down to 0.
unfoldable pub env_init_loop : (i : ℕ) → Envs → Envs
env_init_loop zero s = s
env_init_loop (suc i) s = env_init_loop i (record s {
  envs = update s.envs i (idle_env (s.envs i) s.env_free_list);
  env_free_list = some i;
})

unfoldable pub env_init : Envs → Envs
env_init s = env_init_loop nenv s

-- The loop that copies `left` entries from number `i` on.
unfoldable pub copy_loop : (left i dst src : ℕ) → Cmd (Unit {0})
copy_loop zero i dst src = pure tt
copy_loop (suc left) i dst src = do
  v ← load (entry src i)
  store (entry dst i) v
  copy_loop left (i + 1) dst src

unfoldable pub env_setup_vm : (kern_pgdir e : ℕ) → Envs → EnvRun
env_setup_vm kern_pgdir e s = with_vm (page_alloc 1 s.vm) (λ page vm. elim page [
  | none ↦ failed e_no_mem (record s { vm = vm })
  | some p ↦ with_vm ((do incref p; copy_loop 1024 0 (page2kva p) kern_pgdir) vm) (λ _ after.
      succeeded e (record s {
        vm = after;
        envs = update s.envs e (record (s.envs e) { env_pgdir = page2kva p });
      }))
])

-- The signed test `generation <= 0`, and the bits above the index of an environment.
abbrev pub next_generation : (env_id : ℕ) → ℕ
next_generation env_id =
    let sum = (env_id + 2 ^ envgenshift) % word in
    let generation = sum - sum % nenv in
    if generation == 0 || leb (2 ^ 31) generation then 2 ^ envgenshift else generation

-- The saved registers that a new environment starts with.
abbrev pub new_tf : Trapframe
new_tf = record {
  tf_es = bit_or gd_ud 3;
  tf_ds = bit_or gd_ud 3;
  tf_trapno = 0;
  tf_err = 0;
  tf_eip = 0;
  tf_cs = bit_or gd_ut 3;
  tf_eflags = 0;
  tf_esp = 0x8000000;
  tf_ss = bit_or gd_ud 3;
}

abbrev pub new_env : (e parent_id : ℕ) → Env → Env
new_env e parent_id old = record old {
  env_id = bit_or (next_generation old.env_id) e;
  env_parent_id = parent_id;
  env_type = env_type_user;
  env_status = env_runnable;
  env_runs = 0;
  env_tf = new_tf;
}

unfoldable pub env_alloc : (kern_pgdir parent_id : ℕ) → Envs → EnvRun
env_alloc kern_pgdir parent_id s = elim s.env_free_list [
  | none ↦ failed e_no_free_env s
  | some e ↦
      if ltb e nenv
      then and_then (env_setup_vm kern_pgdir e s) (λ e t. succeeded e (record t {
        envs = update t.envs e (new_env e parent_id (t.envs e));
        env_free_list = (t.envs e).env_link;
      }))
      else fault
]
