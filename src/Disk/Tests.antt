-- ===== src/Disk/Tests.antt =====
-- The theorem about the disk at a concrete segment.
use oslab.Base.{ℕ, ◌+◌, ◌<◌, ◌≤◌, ◌≡◌, ◌⊎◌, some, arith}
use oslab.Disk.{Memory, readseg}
use oslab.Disk.Segment.{file_byte, readseg-file_byte}

abbrev disk : ℕ → ℕ → ℕ
disk sector place = sector + place

-- The first page of the program, which starts at byte 102400 of the file.
readseg-file_byte_example :
    (new : Memory) × (readseg disk 0x100000 4096 102400 (λ a. 0) ≡ some new)
    × ((i : ℕ) → i < 4096 → new (0x100000 + i) ≡ file_byte disk (102400 + i))
    × ((a : ℕ) → (a + 511 < 0x100000) ⊎ (0x100000 + 4096 + 511 ≤ a) → new a ≡ 0)
readseg-file_byte_example =
    readseg-file_byte disk 0x100000 4096 102400 (λ a. 0) (omega arith) (omega arith) (omega arith)
