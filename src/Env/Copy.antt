-- ===== src/Env/Copy.antt =====
-- The loop of `env_setup_vm` in kernel/env.c that copies the kernel's page directory.
use oslab.Base.{
  ℕ, zero, suc, ◌+◌, ◌*◌, ◌%◌, ◌≤◌, ◌<◌, ◌≡◌, ◌≢◌, refl, ap, ◌∙◌, eq→==, lt→ltb, arith,
}
use native.Mathlib.Decide.{ℕ_discrete}
use oslab.Vm.Layout.{paddr, pgnum}
use oslab.Vm.State.{Vm, ok, update, window}
use oslab.Vm.Walk.{paddr-entry, update-ne}
use oslab.Env.{copy_loop}

-- In `new` the entries from number `i` on of the page at `to` are those of the page at `from`; the
-- entries before them and all other pages are as in `old`.
pub record Copied (old new : ℕ → ℕ) (to from i left : ℕ) : Type 0 where
  pub copied : (j : ℕ) → i ≤ j → j < i + left → new (to + 4 * j) ≡ old (from + 4 * j)
  pub before : (j : ℕ) → j < i → new (to + 4 * j) ≡ old (to + 4 * j)
  pub elsewhere : (a : ℕ) → pgnum a ≢ pgnum to → new a ≡ old a

abbrev with_word : Vm → (a v : ℕ) → Vm
with_word s a v = record s { mem = update s.mem a v }

update_self : (mem : ℕ → ℕ) (i v j : ℕ) → j ≡ i → update mem i v j ≡ v
update_self mem i v j e = rw (eq→== j i e) refl

module _ (dst src : ℕ) (aligned : paddr dst % 4096 ≡ 0) (aligned' : paddr src % 4096 ≡ 0)
    (low : paddr dst < window) (low' : paddr src < window)
    (ne : pgnum (paddr src) ≢ pgnum (paddr dst)) where
  copy_loop-next :
      (left i : ℕ) (s : Vm)
      → i < 1024
      → copy_loop (suc left) i dst src s
        ≡ copy_loop left
            (i + 1)
            dst
            src
            (with_word s (paddr dst + 4 * i) (s.mem (paddr src + 4 * i)))
  unfolding copy_loop
  copy_loop-next left i s h =
      rw
        (
          paddr-entry src i aligned' low' h,
          lt→ltb (paddr src + 4 * i) window (omega arith),
          paddr-entry dst i aligned low h,
          lt→ltb (paddr dst + 4 * i) window (omega arith),
        )
        refl

  copy_loop-done : (i : ℕ) (s : Vm) → copy_loop 0 i dst src s ≡ ok tt s
  unfolding copy_loop
  copy_loop-done i s = refl

  pub copy_loop-Copied :
      (left i : ℕ) (s : Vm)
      → i + left ≤ 1024
      → (new : ℕ → ℕ) × (copy_loop left i dst src s ≡ ok tt (record s { mem = new }))
        × Copied s.mem new (paddr dst) (paddr src) i left
  copy_loop-Copied zero i s h = (
    s.mem,
    copy_loop-done i s,
    record {
      copied = λ j low_j high_j. absurd (omega arith);
      before = λ j h'. refl;
      elsewhere = λ a out. refl;
    },
  )
  copy_loop-Copied (suc left) i s h =
      let mid = update s.mem (paddr dst + 4 * i) (s.mem (paddr src + 4 * i)) in
      let (new, run, c) =
        copy_loop-Copied left (i + 1) (with_word s (paddr dst + 4 * i) (s.mem (paddr src + 4 * i)))
          (omega arith) in
      (
        new,
        copy_loop-next left i s (omega arith) ∙ run,
        record {
          copied = λ j low_j high_j. elim (ℕ_discrete j i) [
            | yes e ↦
                c.before j (omega arith)
                ∙ update_self s.mem (paddr dst + 4 * i) _ (paddr dst + 4 * j) (omega arith)
                ∙ ap s.mem (omega arith)
            | no other ↦
                c.copied j (omega arith) (omega arith)
                ∙ update-ne s.mem (paddr dst + 4 * i) _ (paddr src + 4 * j) (omega arith)
          ];
          before = λ j h'.
              c.before j (omega arith)
              ∙ update-ne s.mem (paddr dst + 4 * i) _ (paddr dst + 4 * j) (omega arith);
          elsewhere =
              λ a out. c.elsewhere a out ∙ update-ne s.mem (paddr dst + 4 * i) _ a (omega arith);
        },
      )
