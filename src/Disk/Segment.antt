-- ===== src/Disk/Segment.antt =====
-- What `readseg` of kernel/main.c puts where.
use oslab.Base.{
  ℕ, zero, suc, ◌+◌, ◌-◌, ◌*◌, ◌/◌, ◌%◌, ◌^◌, ◌≤◌, ◌<◌, ◌≡◌, ◌⊎◌, refl, ap, ◌∙◌, inl, inr, some,
  lt→ltb, le→ltb, le→leb, arith,
}
use oslab.Base.Bits.{bit_or_fields}
use oslab.Disk.{
  Memory, sectsize, sector_rem, sector_quot, sector_command, selected, readsect, read_loop, readseg,
}

-- The disk selects the sector that was asked for.
sector_command-selected : (offset : ℕ) → offset < 2 ^ 28 → selected (sector_command offset) ≡ offset
unfolding sector_command
sector_command-selected offset h =
    omega (arith, bit_or_fields 4 14 (offset / 2 ^ 24 % 2 ^ 8) (omega arith))

below_or_not : (m n : ℕ) → (m < n) ⊎ (n ≤ m)
below_or_not m n = ground arith

readsect-in :
    (disk : ℕ → ℕ → ℕ) (dst offset : ℕ) (mem : Memory) (i : ℕ)
    → offset < 2 ^ 28
    → i < sectsize
    → readsect disk dst offset mem (dst + i) ≡ disk offset i
unfolding readsect
readsect-in disk dst offset mem i small h =
    let index : dst + i - dst ≡ i = omega arith in
    rw (le→leb dst (dst + i) (omega arith)) (
      rw (lt→ltb (dst + i) (dst + sectsize) (omega arith))
        (rw index (ap (λ n. disk n i) (sector_command-selected offset small))))

readsect-out :
    (disk : ℕ → ℕ → ℕ) (dst offset : ℕ) (mem : Memory) (a : ℕ)
    → (a < dst) ⊎ (dst + sectsize ≤ a)
    → readsect disk dst offset mem a ≡ mem a
unfolding readsect
readsect-out disk dst offset mem a o = ground arith

-- Byte `i` of the sectors from `offset` on.
abbrev pub byte_from : (disk : ℕ → ℕ → ℕ) (offset i : ℕ) → ℕ
byte_from disk offset i = disk (offset + i / sectsize) (i % sectsize)

-- Memory `new` has at `pa` up to `epa` the bytes of the sectors from `offset` on, and is else as before,
-- but for what the last sector brings behind `epa`.
abbrev pub Filled : (disk : ℕ → ℕ → ℕ) (pa epa offset : ℕ) (old new : Memory) → Type 0
Filled disk pa epa offset old new =
    ((i : ℕ) → pa + i < epa → new (pa + i) ≡ byte_from disk offset i)
    × ((a : ℕ) → (a < pa) ⊎ (epa + 511 ≤ a) → new a ≡ old a)

next_bytes :
    (disk : ℕ → ℕ → ℕ) (offset i : ℕ)
    → 512 ≤ i
    → byte_from disk (offset + 1) (i - 512) ≡ byte_from disk offset i
next_bytes disk offset i h =
    ap (λ n. disk n ((i - 512) % sectsize)) (omega arith) ∙ ap (disk _) (omega arith)

read_loop-next :
    (fuel : ℕ) (disk : ℕ → ℕ → ℕ) (pa epa offset : ℕ) (mem : Memory)
    → pa < epa
    → pa + sectsize < 2 ^ 32
    → offset + 1 < 2 ^ 32
    → read_loop (suc fuel) disk pa epa offset mem
      ≡ read_loop fuel disk (pa + sectsize) epa (offset + 1) (readsect disk pa offset mem)
unfolding read_loop
read_loop-next fuel disk pa epa offset mem more fits small =
    let step : (pa + sectsize) % 2 ^ 32 ≡ pa + sectsize = omega arith in
    let next : (offset + 1) % 2 ^ 32 ≡ offset + 1 = omega arith in
    rw (lt→ltb pa epa more) (
      ap (λ p. read_loop fuel disk p epa ((offset + 1) % 2 ^ 32) (readsect disk pa offset mem)) step
      ∙ ap (λ o. read_loop fuel disk (pa + sectsize) epa o (readsect disk pa offset mem)) next)

read_loop-Filled :
    (left : ℕ) (disk : ℕ → ℕ → ℕ) (pa epa offset : ℕ) (mem : Memory)
    → epa ≤ pa + left * sectsize
    → pa + left * sectsize < 2 ^ 32
    → offset + left < 2 ^ 28
    → (new : Memory) × (read_loop (suc left) disk pa epa offset mem ≡ some new)
      × Filled disk pa epa offset mem new
unfolding read_loop
read_loop-Filled zero disk pa epa offset mem h k small =
    (mem, rw (le→ltb pa epa (omega arith)) refl, ((λ i lt. absurd (omega arith)), (λ a o. refl)))
read_loop-Filled (suc left) disk pa epa offset mem h k small = elim (below_or_not pa epa) [
  | inr done ↦ (mem, rw (le→ltb pa epa done) refl, ((λ i lt. absurd (omega arith)), (λ a o. refl)))
  | inl more ↦
      let (new, run, (read, other)) =
        read_loop-Filled left disk (pa + sectsize) epa (offset + 1) (readsect disk pa offset mem)
          (omega arith) (omega arith) (omega arith) in
      (
        new,
        read_loop-next (suc left) disk pa epa offset mem more (omega arith) (omega arith) ∙ run,
        (
          (λ i lt. elim (below_or_not i sectsize) [
            | inl first ↦
                other (pa + i) (inl (omega arith))
                ∙ readsect-in disk pa offset mem i (omega arith) first
                ∙ ap (λ n. disk n i) (omega arith)
                ∙ ap (disk _) (omega arith)
            | inr later ↦
                ap new (omega arith) ∙ read (i - 512) (omega arith) ∙ next_bytes disk offset i later
          ]),
          (λ a o.
              other a (elim o [ inl lt ↦ inl (omega arith) | inr le ↦ inr le ])
              ∙ readsect-out disk pa offset mem a
                  (elim o [ inl lt ↦ inl lt | inr le ↦ inr (omega arith) ])),
        ),
      )
]

-- Byte `i` of the file that starts at sector 1 of the disk.
abbrev pub file_byte : (disk : ℕ → ℕ → ℕ) (i : ℕ) → ℕ
file_byte disk i = byte_from disk 1 i

-- `readseg` at an `offset` that is not negative and of a segment that, with the whole sectors which it
-- touches, does not wrap in memory ends. Memory then holds, at `pa`, `count` bytes of the file from
-- `offset` on, and nothing has changed more than 511 bytes before or behind them.
pub readseg-file_byte :
    (disk : ℕ → ℕ → ℕ) (pa count offset : ℕ) (mem : Memory)
    → offset % sectsize ≤ pa
    → pa + count + 1024 < 2 ^ 32
    → offset < 2 ^ 31
    → (new : Memory) × (readseg disk pa count offset mem ≡ some new)
      × ((i : ℕ) → i < count → new (pa + i) ≡ file_byte disk (offset + i))
      × ((a : ℕ) → (a + 511 < pa) ⊎ (pa + count + 511 ≤ a) → new a ≡ mem a)
unfolding readseg
readseg-file_byte disk pa count offset mem low fits positive =
    let skip = offset % sectsize in
    let (new, run, (read, other)) =
      read_loop-Filled ((count + skip) / sectsize + 1) disk (pa - skip) (pa + count)
        (offset / sectsize + 1) mem (omega arith) (omega arith) (omega arith) in
    let start : (pa + (2 ^ 32 - sector_rem offset)) % 2 ^ 32 ≡ pa - skip =
      rw (lt→ltb offset (2 ^ 31) positive) (omega arith) in
    let stop : (pa + count) % 2 ^ 32 ≡ pa + count = omega arith in
    let sector : (sector_quot offset + 1) % 2 ^ 32 ≡ offset / sectsize + 1 =
      rw (lt→ltb offset (2 ^ 31) positive) (omega arith) in
    (
      new,
      rw (start, stop, sector)
          (ap (λ fuel. read_loop fuel disk (pa - skip) (pa + count) (offset / sectsize + 1) mem)
              (omega arith)
            ∙ run),
      (λ i h.
          ap new (omega arith)
          ∙ read (skip + i) (omega arith)
          ∙ ap (λ n. disk n ((skip + i) % sectsize)) (omega arith)
          ∙ ap (disk _) (omega arith)),
      (λ a o. other a (elim o [ inl lt ↦ inl (omega arith) | inr le ↦ inr le ])),
    )
