-- ===== src/Vm/Layout.antt =====
-- The address macros of include/jos/mmu.h, include/jos/types.h and include/jos/pmap.h. A shift is
-- written as `/` or `*` by a power of two, and a mask of low bits as `%`.
use oslab.Base.{ℕ, ◌+◌, ◌-◌, ◌*◌, ◌/◌, ◌%◌, ◌^◌}

abbrev pub word : ℕ
word = 2 ^ 32

abbrev pub kernbase : ℕ
kernbase = 0xc0000000

abbrev pub pgsize : ℕ
pgsize = 4096

abbrev pub pgnum : ℕ → ℕ
pgnum la = la / 2 ^ 12

abbrev pub pdx : ℕ → ℕ
pdx la = la / 2 ^ 22 % 1024

abbrev pub ptx : ℕ → ℕ
ptx la = la / 2 ^ 12 % 1024

abbrev pub pgoff : ℕ → ℕ
pgoff la = la % 4096

-- `pte & ~0xFFF`
abbrev pub pte_addr : ℕ → ℕ
pte_addr pte = pte - pte % 4096

-- `ROUNDDOWN` and `ROUNDUP` on 32-bit values.
abbrev pub rounddown : ℕ → ℕ → ℕ
rounddown a n = a - a % n

abbrev pub roundup : ℕ → ℕ → ℕ
roundup a n = rounddown ((a + n - 1) % word) n

-- `PADDR` and `KADDR`, with the subtraction and the sum of 32-bit words.
abbrev pub paddr : ℕ → ℕ
paddr kva = (kva + word - kernbase) % word

abbrev pub kaddr : ℕ → ℕ
kaddr pa = (pa + kernbase) % word

-- A `struct PageInfo *` is the index of its page in `pages`.
abbrev pub page2pa : ℕ → ℕ
page2pa pp = pp * 2 ^ 12 % word

abbrev pub pa2page : ℕ → ℕ
pa2page pa = pgnum pa

abbrev pub page2kva : ℕ → ℕ
page2kva pp = kaddr (page2pa pp)

-- Flags of a directory or table entry: present, writable, user.
abbrev pub pte_p : ℕ
pte_p = 0x001

abbrev pub pte_w : ℕ
pte_w = 0x002

abbrev pub pte_u : ℕ
pte_u = 0x004
