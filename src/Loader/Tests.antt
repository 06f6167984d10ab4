-- ===== src/Loader/Tests.antt =====
-- The boot loader of boot/main.c with a small file.
use oslab.Base.{ℕ, List, [], ◌∷◌, ◌==◌, if◌then◌else◌, get_or}
use oslab.Loader.{ElfHeader, ProgramHeader, elf_magic}

-- One segment of 512 bytes of the file and 256 zeros, at 1MB, where the program is entered.
abbrev file_head : List ℕ
file_head =
    0x7f ∷ 0x45 ∷ 0x4c ∷ 0x46 ∷ 0 ∷ 0 ∷ 0 ∷ 0 ∷ 0 ∷ 0 ∷ 0 ∷ 0 ∷ 0 ∷ 0 ∷ 0 ∷ 0 ∷ 0 ∷ 0 ∷ 0 ∷ 0 ∷ 0
    ∷ 0 ∷ 0 ∷ 0 ∷ 0 ∷ 0 ∷ 0x10 ∷ 0 ∷ 52 ∷ 0 ∷ 0 ∷ 0 ∷ 0 ∷ 0 ∷ 0 ∷ 0 ∷ 0 ∷ 0 ∷ 0 ∷ 0 ∷ 0 ∷ 0 ∷ 0 ∷ 0
    ∷ 1 ∷ 0 ∷ 0 ∷ 0 ∷ 0 ∷ 0 ∷ 0 ∷ 0 ∷ 1 ∷ 0 ∷ 0 ∷ 0 ∷ 0 ∷ 0x10 ∷ 0 ∷ 0 ∷ 0 ∷ 0 ∷ 0 ∷ 0 ∷ 0 ∷ 0
    ∷ 0x10 ∷ 0 ∷ 0 ∷ 2 ∷ 0 ∷ 0 ∷ 0 ∷ 3 ∷ []

abbrev disk : ℕ → ℕ → ℕ
disk sector place = if sector == 1 then get_or file_head place 0 else place

abbrev header : ElfHeader
header = record { magic = elf_magic; entry = 0x100000; phoff = 52; phnum = 1 }

abbrev only : ProgramHeader
only = record { off = 0x1000; paddr = 0x100000; filesz = 0x200; memsz = 0x300 }
