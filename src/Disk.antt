-- ===== src/Disk.antt =====
-- Reading the disk, from kernel/main.c. What the disk holds is a parameter, by the number of a sector
-- and the place in it; memory is a function of the address, by bytes. An `int` is kept as its 32 bits.
pub mod Segment
mod Tests
use oslab.Base.{
  ℕ, zero, suc, ◌+◌, ◌-◌, ◌*◌, ◌/◌, ◌%◌, ◌^◌, Bool, true, List, [], ◌∷◌, ltb, leb, ◌&&◌, ◌==◌,
  if◌then◌else◌, Option, none, some, bit_or,
}
use Prim.Native.Nat.{bit_and}

abbrev pub sectsize : ℕ
sectsize = 512

abbrev pub Memory : Type 0
Memory = ℕ → ℕ

-- The bytes that `readsect` writes to the ports of the disk, in order. The byte kept of each shift is the
-- same for a negative `offset`.
unfoldable pub sector_command : (offset : ℕ) → List (ℕ × ℕ)
sector_command offset =
    (0x1f2, 1)
    ∷ (0x1f3, offset % 2 ^ 8)
    ∷ (0x1f4, offset / 2 ^ 8 % 2 ^ 8)
    ∷ (0x1f5, offset / 2 ^ 16 % 2 ^ 8)
    ∷ (0x1f6, bit_or 0xe0 (offset / 2 ^ 24 % 2 ^ 8))
    ∷ (0x1f7, 0x20)
    ∷ []

-- The sector that the disk makes of them: the last byte written to each of the four ports, without the
-- upper half of the fourth.
abbrev pub last_byte : (port : ℕ) → List (ℕ × ℕ) → ℕ → ℕ
last_byte port [] v = v
last_byte port ((p, b) ∷ ws) v = last_byte port ws (if p == port then b else v)

abbrev pub selected : List (ℕ × ℕ) → ℕ
selected ws =
    last_byte 0x1f3 ws 0
    + last_byte 0x1f4 ws 0 * 2 ^ 8
    + last_byte 0x1f5 ws 0 * 2 ^ 16
    + last_byte 0x1f6 ws 0 % 2 ^ 4 * 2 ^ 24

-- The 128 words of the sector that was selected, at `dst`.
unfoldable pub readsect : (disk : ℕ → ℕ → ℕ) (dst offset : ℕ) → Memory → Memory
readsect disk dst offset mem a =
    if leb dst a && ltb a (dst + sectsize)
    then disk (selected (sector_command offset)) (a - dst)
    else mem a

-- `offset % SECTSIZE` and `offset / SECTSIZE`, which round towards 0, also where `offset` is negative.
abbrev pub sector_rem : ℕ → ℕ
sector_rem offset =
    if ltb offset (2 ^ 31)
    then offset % sectsize
    else (2 ^ 32 - (2 ^ 32 - offset) % sectsize) % 2 ^ 32

abbrev pub sector_quot : ℕ → ℕ
sector_quot offset =
    if ltb offset (2 ^ 31)
    then offset / sectsize
    else (2 ^ 32 - (2 ^ 32 - offset) / sectsize) % 2 ^ 32

-- The loop of `readseg`; `none` is a loop out of fuel.
unfoldable pub read_loop :
    (fuel : ℕ) (disk : ℕ → ℕ → ℕ) (pa epa offset : ℕ) → Memory → Option Memory
read_loop zero disk pa epa offset mem = none
read_loop (suc fuel) disk pa epa offset mem =
    let rest =
      read_loop fuel disk ((pa + sectsize) % 2 ^ 32) epa ((offset + 1) % 2 ^ 32)
        (readsect disk pa offset mem) in
    if ltb pa epa then rest else some mem

-- One round for each sector from `pa` up to `epa`, and one for the last test. A loop whose `pa` passes
-- 2 ^ 32 comes back to the same places and never ends.
unfoldable pub readseg : (disk : ℕ → ℕ → ℕ) (pa count offset : ℕ) → Memory → Option Memory
readseg disk pa count offset mem =
    let epa = (pa + count) % 2 ^ 32 in
    let start = (pa + (2 ^ 32 - sector_rem offset)) % 2 ^ 32 in
    read_loop ((epa - start) / sectsize + 2) disk start epa ((sector_quot offset + 1) % 2 ^ 32) mem
