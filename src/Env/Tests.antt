-- ===== src/Env/Tests.antt =====
-- The theorems about kernel/env.c at concrete states.
use oslab.Base.{ℕ, ◌<◌, ◌≡◌, refl, none, some, [], ◌∷◌, ◌==◌, if◌then◌else◌, arith}
use oslab.Vm.State.{Vm}
use oslab.Vm.FreeList.Init.{upfrom}
use oslab.Vm.Walk.{IsReady}
use oslab.Vm.Boot.{nenv}
use oslab.Env.{
  Env, Envs, env_free, env_type_idle, succeeded, failed, e_no_mem, env_init, env_alloc, new_tf,
}
use oslab.Env.FreeEnvs.{IsFreeEnvs, IsIdle, env_init-IsFreeEnvs}
use oslab.Env.Alloc.{Allocated, env_alloc-Allocated, env_alloc-failed}

-- The directory in page 1 with its table in page 2, which maps one page; 4 and 5 are free.
abbrev mapped_mem : ℕ → ℕ
mapped_mem a = if a == 0x1080 then 0x2007 else if a == 0x2120 then 0x3007 else 0

abbrev busy : Vm
busy = record {
  npages = 6;
  pages = λ i. record { pp_link = if i == 4 then some 5 else none; pp_ref = 0 };
  page_free_list = some 4;
  mem = mapped_mem;
  flushed = [];
}

abbrev dir : ℕ
dir = 0xc0001000

busy-IsReady : IsReady busy dir (4 ∷ 5 ∷ [])
busy-IsReady = record {
  tree = record {
    aligned = refl;
    dir_low = omega arith;
    dir_used = omega arith;
    low = λ i h p. ground arith;
    not_dir = λ i h p. ground arith;
    apart = λ i j h k ne p q. ground arith;
    used = λ i h p. ground arith;
  };
  list = record { chain = (refl, (refl, refl)); distinct = omega arith; bounded = omega arith };
}

abbrev zero_env : Env
zero_env = record {
  env_tf = new_tf;
  env_link = none;
  env_id = 0x1003;
  env_parent_id = 0;
  env_type = env_type_idle;
  env_status = env_free;
  env_runs = 0;
  env_pgdir = 0;
}

-- Environment 3 is free and has been used before.
abbrev one_free : Envs
one_free = record { vm = busy; envs = λ i. zero_env; env_free_list = some 3 }

one_free-IsFreeEnvs : IsFreeEnvs one_free (3 ∷ [])
one_free-IsFreeEnvs = record {
  chain = (refl, refl);
  distinct = (tt, tt);
  bounded = (omega arith, tt);
}

env_alloc-Allocated_example :
    (t : Envs) × (env_alloc dir 7 one_free ≡ succeeded 3 t)
    × Allocated one_free t dir 3 7 4 (5 ∷ []) []
env_alloc-Allocated_example =
    env_alloc-Allocated one_free dir 7 one_free-IsFreeEnvs busy-IsReady (omega arith) (omega arith)

abbrev full : Envs
full = record one_free { vm = record busy { page_free_list = none } }

full-IsFreeEnvs : IsFreeEnvs full (3 ∷ [])
full-IsFreeEnvs = record { chain = (refl, refl); distinct = (tt, tt); bounded = (omega arith, tt) }

env_alloc-failed_example : env_alloc dir 7 full ≡ failed e_no_mem full
env_alloc-failed_example =
    env_alloc-failed full dir 7 (3 ∷ []) full-IsFreeEnvs
      (record { chain = refl; distinct = tt; bounded = tt })

env_init-IsFreeEnvs_example :
    IsFreeEnvs (env_init (record one_free { env_free_list = none })) (upfrom 0 nenv)
    × ((j : ℕ) → j < nenv → IsIdle ((env_init (record one_free { env_free_list = none })).envs j))
    × ((env_init (record one_free { env_free_list = none })).vm ≡ busy)
env_init-IsFreeEnvs_example = env_init-IsFreeEnvs (record one_free { env_free_list = none }) refl
