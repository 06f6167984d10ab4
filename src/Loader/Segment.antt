-- ===== src/Loader/Segment.antt =====
-- One segment, as `bootmain` of boot/main.c loads it.
use oslab.Base.{
  ℕ, zero, suc, ◌+◌, ◌-◌, ◌%◌, ◌^◌, ◌≤◌, ◌<◌, ◌≡◌, ◌⊎◌, refl, ◌∙◌, inl, inr, some, ◌==◌,
  if◌then◌else◌, eq→==, ne→==, arith,
}
use native.Mathlib.Decide.{ℕ_discrete}
use oslab.Disk.{Memory}
use oslab.Disk.Segment.{file_byte, readseg-file_byte}
use oslab.Loader.{ProgramHeader, zero_loop, load_segment}

zero_loop-lem :
    (left i : ℕ) (mem : Memory)
    → ((a : ℕ) → i ≤ a → a < i + left → zero_loop left i mem a ≡ 0)
      × ((a : ℕ) → (a < i) ⊎ (i + left ≤ a) → zero_loop left i mem a ≡ mem a)
unfolding zero_loop
zero_loop-lem zero i mem = ((λ a low high. absurd (omega arith)), (λ a o. refl))
zero_loop-lem (suc left) i mem =
    let (inside, outside) = zero_loop-lem left (i + 1) (λ a. if a == i then 0 else mem a) in
    (
      (λ a low high. elim (ℕ_discrete a i) [
        | yes e ↦ outside a (inl (omega arith)) ∙ rw (eq→== a i e) refl
        | no ne ↦ inside a (omega arith) (omega arith)
      ]),
      (λ a o.
          outside a (elim o [ inl lt ↦ inl (omega arith) | inr le ↦ inr (omega arith) ])
          ∙ rw (ne→== a i (elim o [ inl lt ↦ omega arith | inr le ↦ omega arith ])) refl),
    )

-- A segment that lies above the buffer of the headers and does not wrap, and whose offset is not
-- negative as an `int`.
pub record Fits (ph : ProgramHeader) : Type 0 where
  pub above : 0x9000 + 511 ≤ ph.paddr
  pub high : ph.paddr + ph.memsz + 1024 < 2 ^ 32
  pub reach : ph.off < 2 ^ 31
  pub whole : ph.filesz ≤ ph.memsz

-- The segment is in memory: its bytes of the file, and zeros behind them.
pub record Loaded (disk : ℕ → ℕ → ℕ) (ph : ProgramHeader) (mem : Memory) : Type 0 where
  pub bytes : (i : ℕ) → i < ph.filesz → mem (ph.paddr + i) ≡ file_byte disk (ph.off + i)
  pub zeros : (i : ℕ) → ph.filesz ≤ i → i < ph.memsz → mem (ph.paddr + i) ≡ 0

-- The address is more than 511 bytes before the segment or behind its bytes of the file, and not in it.
abbrev pub Off : ProgramHeader → ℕ → Type 0
Off ph a = (a + 511 < ph.paddr) ⊎ ((ph.paddr + ph.filesz + 511 ≤ a) × (ph.paddr + ph.memsz ≤ a))

pub load_segment-Loaded :
    (disk : ℕ → ℕ → ℕ) (ph : ProgramHeader) (mem : Memory)
    → Fits ph
    → (new : Memory) × (load_segment disk ph mem ≡ some new)
      × Loaded disk ph new
      × ((a : ℕ) → Off ph a → new a ≡ mem a)
unfolding load_segment
load_segment-Loaded disk ph mem f =
    let (read, run, bytes, other) =
      readseg-file_byte disk ph.paddr ph.filesz ph.off mem (omega (arith, f.above))
        (omega (arith, f.high, f.whole)) f.reach in
    let start = (ph.paddr + ph.filesz) % 2 ^ 32 in
    let count = (ph.paddr + ph.memsz) % 2 ^ 32 - start in
    let start_at : start ≡ ph.paddr + ph.filesz = omega (arith, f.high, f.whole) in
    let stop_at : start + count ≡ ph.paddr + ph.memsz = omega (arith, f.high, f.whole) in
    let (inside, outside) = zero_loop-lem count start read in
    (
      zero_loop count start read,
      rw run refl,
      record {
        bytes = λ i h. outside (ph.paddr + i) (inl (omega arith)) ∙ bytes i h;
        zeros = λ i low h. inside (ph.paddr + i) (omega arith) (omega arith);
      },
      (λ a o. elim o [
        | inl lt ↦ outside a (inl (omega arith)) ∙ other a (inl lt)
        | inr (le, past) ↦ outside a (inr (omega arith)) ∙ other a (inr le)
      ]),
    )
