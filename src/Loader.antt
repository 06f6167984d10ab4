-- ===== src/Loader.antt =====
-- The boot loader of boot/main.c: `bootmain`, with the headers of boot/boot.h. Its `readsect` and `readseg`
-- are those of kernel/main.c. Memory is flat, by bytes, as before paging.
pub mod Fields
pub mod Segment
pub mod Rounds
pub mod Segments
mod Tests
use oslab.Base.{
  ℕ, zero, suc, ◌+◌, ◌-◌, ◌*◌, ◌%◌, ◌^◌, Bool, true, false, Option, none, some, ltb, ◌==◌,
  if◌then◌else◌,
}
use oslab.Disk.{Memory, readseg}

-- `struct ELFHeader` and `struct ProgramHeader`, the fields that are read.
pub record ElfHeader : Type 0 where
  pub magic : ℕ
  pub entry : ℕ
  pub phoff : ℕ
  pub phnum : ℕ

pub record ProgramHeader : Type 0 where
  pub off : ℕ
  pub paddr : ℕ
  pub filesz : ℕ
  pub memsz : ℕ

-- An `unsigned short` and an `unsigned int` in memory.
unfoldable pub short_at : Memory → ℕ → ℕ
short_at mem a = mem a + mem (a + 1) * 2 ^ 8

unfoldable pub int_at : Memory → ℕ → ℕ
int_at mem a = short_at mem a + short_at mem (a + 2) * 2 ^ 16

abbrev pub elf_header : Memory → ℕ → ElfHeader
elf_header mem a = record {
  magic = int_at mem a;
  entry = int_at mem (a + 24);
  phoff = int_at mem (a + 28);
  phnum = short_at mem (a + 44);
}

abbrev pub program_header : Memory → ℕ → ProgramHeader
program_header mem a = record {
  off = int_at mem (a + 4);
  paddr = int_at mem (a + 12);
  filesz = int_at mem (a + 16);
  memsz = int_at mem (a + 20);
}

abbrev pub sizeof_program_header : ℕ
sizeof_program_header = 32

-- `left` bytes from `i` on are set to 0.
unfoldable pub zero_loop : (left i : ℕ) → Memory → Memory
zero_loop zero i mem = mem
zero_loop (suc left) i mem = zero_loop left (i + 1) (λ a. if a == i then 0 else mem a)

-- What follows a read that may not end.
abbrev pub if_read : Option Memory → (Memory → Option Memory) → Option Memory
if_read none rest = none
if_read (some mem) rest = rest mem

-- The body of the loop.
unfoldable pub load_segment : (disk : ℕ → ℕ → ℕ) → ProgramHeader → Memory → Option Memory
load_segment disk ph mem = if_read (readseg disk ph.paddr ph.filesz ph.off mem) (λ new. some (
    zero_loop ((ph.paddr + ph.memsz) % 2 ^ 32 - (ph.paddr + ph.filesz) % 2 ^ 32)
      ((ph.paddr + ph.filesz) % 2 ^ 32) new))

-- The loop from `ph` up to `eph`; each header is read from the memory of the time.
unfoldable pub load_loop : (fuel : ℕ) (disk : ℕ → ℕ → ℕ) (ph eph : ℕ) → Memory → Option Memory
load_loop zero disk ph eph mem = none
load_loop (suc fuel) disk ph eph mem = elim (ltb ph eph) [
  | true ↦
      if_read (load_segment disk (program_header mem ph) mem)
        (load_loop fuel disk (ph + sizeof_program_header) eph)
  | false ↦ some mem
]

-- The jump to the entry point with the memory then, the endless loop for a file of another kind, and a
-- run out of fuel.
pub data Boot : Type 0 where
  entered : (entry : ℕ) → Memory → Boot
  hung spin : Boot

abbrev pub then_enter : Option Memory → Boot
then_enter none = spin
then_enter (some mem) = entered (elf_header mem 0x8000).entry mem

abbrev pub elf_magic : ℕ
elf_magic = 0x464c457f

abbrev pub load_all : (disk : ℕ → ℕ → ℕ) → ElfHeader → Memory → Option Memory
load_all disk elf mem =
    load_loop (elf.phnum + 1) disk ((0x8000 + elf.phoff) % 2 ^ 32)
      ((0x8000 + elf.phoff + elf.phnum * sizeof_program_header) % 2 ^ 32) mem

abbrev pub after_header : (disk : ℕ → ℕ → ℕ) → Option Memory → Boot
after_header disk none = spin
after_header disk (some mem) =
    if (elf_header mem 0x8000).magic == elf_magic
    then then_enter (load_all disk (elf_header mem 0x8000) mem)
    else hung

unfoldable pub bootmain : (disk : ℕ → ℕ → ℕ) → Memory → Boot
bootmain disk mem = after_header disk (readseg disk 0x8000 4096 0 mem)
