-- ===== src/Loader/Fields.antt =====
-- The headers of boot/boot.h in memory and in the file that they were read from.
use oslab.Base.{ℕ, ◌+◌, ◌*◌, ◌^◌, ◌≤◌, ◌<◌, ◌≡◌, refl, ap, ◌∙◌, arith}
use oslab.Disk.{Memory}
use oslab.Loader.{short_at, int_at, elf_header, program_header, sizeof_program_header}

-- The `n` bytes at `a` are those at `b` of the other memory.
abbrev pub Agree : (mem : Memory) (a : ℕ) (file : Memory) (b n : ℕ) → Type 0
Agree mem a file b n = (i : ℕ) → i < n → mem (a + i) ≡ file (b + i)

module _ (mem : Memory) (a : ℕ) (file : Memory) (b n : ℕ) (same : Agree mem a file b n) where
  pub Agree-part : (k m : ℕ) → k + m ≤ n → Agree mem (a + k) file (b + k) m
  Agree-part k m h i lt = ap mem (omega arith) ∙ same (k + i) (omega arith) ∙ ap file (omega arith)

  short_at-Agree : (k : ℕ) → k + 2 ≤ n → short_at mem (a + k) ≡ short_at file (b + k)
  unfolding short_at
  short_at-Agree k h =
      let first : mem (a + k) ≡ file (b + k) =
        ap mem (omega arith) ∙ Agree-part k 2 h 0 (omega arith) ∙ ap file (omega arith) in
      let second = Agree-part k 2 h 1 (omega arith) in
      ap (λ v. v + mem (a + k + 1) * 2 ^ 8) first ∙ ap (λ v. file (b + k) + v * 2 ^ 8) second

  int_at-Agree : (k : ℕ) → k + 4 ≤ n → int_at mem (a + k) ≡ int_at file (b + k)
  unfolding int_at
  int_at-Agree k h =
      let high : short_at mem (a + k + 2) ≡ short_at file (b + k + 2) =
        ap (short_at mem) (omega arith)
        ∙ short_at-Agree (k + 2) (omega arith)
        ∙ ap (short_at file) (omega arith) in
      ap (λ v. v + short_at mem (a + k + 2) * 2 ^ 16) (short_at-Agree k (omega arith))
      ∙ ap (λ v. short_at file (b + k) + v * 2 ^ 16) high

  pub program_header-Agree :
      sizeof_program_header ≤ n → program_header mem a ≡ program_header file b
  program_header-Agree h =
      rw
        (
          int_at-Agree 4 (omega arith),
          int_at-Agree 12 (omega arith),
          int_at-Agree 16 (omega arith),
          int_at-Agree 20 (omega arith),
        )
        refl

  pub elf_header-Agree : 46 ≤ n → elf_header mem a ≡ elf_header file b
  elf_header-Agree h =
      let magic : int_at mem a ≡ int_at file b =
        ap (int_at mem) (omega arith)
        ∙ int_at-Agree 0 (omega arith)
        ∙ ap (int_at file) (omega arith) in
      rw
        (
          magic,
          int_at-Agree 24 (omega arith),
          int_at-Agree 28 (omega arith),
          short_at-Agree 44 (omega arith),
        )
        refl
