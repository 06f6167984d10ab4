-- ===== src/Loader/Rounds.antt =====
-- The loop of `bootmain` in boot/main.c over the program headers.
use oslab.Base.{
  ℕ, zero, suc, ◌+◌, ◌*◌, ◌≤◌, ◌<◌, ◌≡◌, ◌⊎◌, refl, ap, ◌∙◌, inl, inr, true, false, Option, some,
  ltb, lt→ltb, le→ltb, arith,
}
use native.Mathlib.Decide.{ℕ_discrete}
use mathlib.Core.Path.{subst}
use oslab.Disk.{Memory}
use oslab.Disk.Segment.{file_byte}
use oslab.Loader.{
  ProgramHeader, program_header, sizeof_program_header, if_read, load_segment, load_loop,
}
use oslab.Loader.Fields.{Agree, Agree-part, program_header-Agree}
use oslab.Loader.Segment.{Fits, Loaded, Off, load_segment-Loaded}

-- Header `k` in the file.
abbrev pub segment : (disk : ℕ → ℕ → ℕ) (phoff k : ℕ) → ProgramHeader
segment disk phoff k = program_header (file_byte disk) (phoff + k * sizeof_program_header)

-- Reading the segment `later` leaves the segment `earlier` alone.
abbrev pub Beside : (earlier later : ProgramHeader) → Type 0
Beside earlier later =
    (earlier.paddr + earlier.memsz + 511 ≤ later.paddr)
    ⊎ ((later.paddr + later.filesz + 511 ≤ earlier.paddr)
        × (later.paddr + later.memsz ≤ earlier.paddr))

Beside-Off :
    (earlier later : ProgramHeader) (i : ℕ)
    → i < earlier.memsz
    → Beside earlier later
    → Off later (earlier.paddr + i)
Beside-Off earlier later i h (inl le) = inl (omega arith)
Beside-Off earlier later i h (inr (le, past)) = inr (omega arith, omega arith)

-- A segment stays loaded where its bytes stay.
Loaded-kept :
    (disk : ℕ → ℕ → ℕ) (ph : ProgramHeader) (old new : Memory)
    → ph.filesz ≤ ph.memsz
    → ((i : ℕ) → i < ph.memsz → new (ph.paddr + i) ≡ old (ph.paddr + i))
    → Loaded disk ph old
    → Loaded disk ph new
Loaded-kept disk ph old new whole same l = record {
  bytes = λ i h. same i (omega arith) ∙ l.bytes i h;
  zeros = λ i low h. same i h ∙ l.zeros i low h;
}

load_loop-stop :
    (fuel : ℕ) (disk : ℕ → ℕ → ℕ) (ph eph : ℕ) (mem : Memory)
    → ltb ph eph ≡ false
    → load_loop (suc fuel) disk ph eph mem ≡ some mem
unfolding load_loop
load_loop-stop fuel disk ph eph mem e =
    ap
      (λ b. elim b as (λ c. Option Memory) [
        | true ↦
            if_read (load_segment disk (program_header mem ph) mem)
              (load_loop fuel disk (ph + sizeof_program_header) eph)
        | false ↦ some mem
      ])
      e

load_loop-next :
    (fuel : ℕ) (disk : ℕ → ℕ → ℕ) (ph eph : ℕ) (mem : Memory)
    → ltb ph eph ≡ true
    → load_loop (suc fuel) disk ph eph mem
      ≡ if_read
          (load_segment disk (program_header mem ph) mem)
          (load_loop fuel disk (ph + sizeof_program_header) eph)
unfolding load_loop
load_loop-next fuel disk ph eph mem e =
    ap
      (λ b. elim b as (λ c. Option Memory) [
        | true ↦
            if_read (load_segment disk (program_header mem ph) mem)
              (load_loop fuel disk (ph + sizeof_program_header) eph)
        | false ↦ some mem
      ])
      e

-- A round, and the rest after it.
loop_step :
    (fuel : ℕ) (disk : ℕ → ℕ → ℕ) (ph next eph : ℕ) (mem mid new : Memory) (header : ProgramHeader)
    → ph < eph
    → program_header mem ph ≡ header
    → load_segment disk header mem ≡ some mid
    → ph + sizeof_program_header ≡ next
    → load_loop fuel disk next eph mid ≡ some new
    → load_loop (suc fuel) disk ph eph mem ≡ some new
loop_step fuel disk ph next eph mem mid new header more read run step rest =
    load_loop-next fuel disk ph eph mem (lt→ltb ph eph more)
    ∙ ap
        (λ h.
          if_read (load_segment disk h mem) (load_loop fuel disk (ph + sizeof_program_header) eph))
        read
    ∙ ap (λ o. if_read o (load_loop fuel disk (ph + sizeof_program_header) eph)) run
    ∙ ap (λ p. load_loop fuel disk p eph mid) step
    ∙ rest

-- The segments from number `k` up to `last` fit, and none is read over an earlier one.
pub record Apart (disk : ℕ → ℕ → ℕ) (phoff k last : ℕ) : Type 0 where
  pub fits : (j : ℕ) → k ≤ j → j < last → Fits (segment disk phoff j)
  pub beside :
      (i j : ℕ) → k ≤ i → i < j → j < last → Beside (segment disk phoff i) (segment disk phoff j)

pub load_loop-Loaded :
    (left fuel : ℕ) (disk : ℕ → ℕ → ℕ) (phoff k last : ℕ) (mem : Memory)
    → last ≡ k + left
    → left < fuel
    → phoff + last * sizeof_program_header ≤ 4096
    → Agree mem 0x8000 (file_byte disk) 0 4096
    → Apart disk phoff k last
    → (new : Memory) × (load_loop fuel disk
          (0x8000 + phoff + k * sizeof_program_header)
          (0x8000 + phoff + last * sizeof_program_header)
          mem
        ≡ some new)
      × ((j : ℕ) → k ≤ j → j < last → Loaded disk (segment disk phoff j) new)
      × ((a : ℕ) → ((j : ℕ) → k ≤ j → j < last → Off (segment disk phoff j) a) → new a ≡ mem a)
load_loop-Loaded left zero disk phoff k last mem e enough room agree a = absurd (omega arith)
load_loop-Loaded zero (suc fuel) disk phoff k last mem e enough room agree a = (
  mem,
  load_loop-stop fuel disk (0x8000 + phoff + k * sizeof_program_header)
      (0x8000 + phoff + last * sizeof_program_header) mem (le→ltb _ _ (omega arith)),
  (λ j low high. absurd (omega arith)),
  (λ b off. refl),
)
load_loop-Loaded (suc left) (suc fuel) disk phoff k last mem e enough room agree a =
    let ph = segment disk phoff k in
    let at = 0x8000 + phoff + k * sizeof_program_header in
    let header : program_header mem at ≡ ph =
      ap (program_header mem) (omega arith)
      ∙ program_header-Agree mem (0x8000 + (phoff + k * sizeof_program_header)) (file_byte disk)
          (0 + (phoff + k * sizeof_program_header)) sizeof_program_header
          (Agree-part mem 0x8000 (file_byte disk) 0 4096 agree (phoff + k * sizeof_program_header)
            sizeof_program_header (omega arith))
          (omega arith)
      ∙ ap (program_header (file_byte disk)) (omega arith) in
    let (mid, run, here, others) =
      load_segment-Loaded disk ph mem (a.fits k (omega arith) (omega arith)) in
    let f = a.fits k (omega arith) (omega arith) in
    let (new, rest, loaded, outside) =
      load_loop-Loaded left fuel disk phoff (suc k) last mid (omega arith) (omega arith) room
        (λ i h. others (0x8000 + i) (inl (omega (arith, f.above))) ∙ agree i h)
        (record {
          fits = λ j low high. a.fits j (omega arith) high;
          beside = λ i j low lt high. a.beside i j (omega arith) lt high;
        }) in
    let kept : (i : ℕ) → i < ph.memsz → new (ph.paddr + i) ≡ mid (ph.paddr + i) = λ i h.
      outside (ph.paddr + i) (λ j low high.
        Beside-Off ph (segment disk phoff j) i h (a.beside k j (omega arith) (omega arith) high)) in
    (
      new,
      loop_step fuel disk at (0x8000 + phoff + suc k * sizeof_program_header)
          (0x8000 + phoff + last * sizeof_program_header) mem mid new ph (omega arith) header run
          (omega arith) rest,
      (λ j low high. elim (ℕ_discrete k j) [
        | yes same ↦
            subst (λ n. Loaded disk (segment disk phoff n) new) same
              (Loaded-kept disk ph mid new f.whole kept here)
        | no ne ↦ loaded j (omega arith) high
      ]),
      (λ b off.
          outside b (λ j low high. off j (omega arith) high)
          ∙ others b (off k (omega arith) (omega arith))),
    )
