-- ===== src/Env/Segments.antt =====
-- The segment descriptors of kernel/env.c, with the macros of include/jos/mmu.h.
use oslab.Base.{
  ℕ, ◌+◌, ◌*◌, ◌/◌, ◌%◌, ◌^◌, ◌<◌, ◌≡◌, List, [], ◌∷◌, bit_or, arith, ◌==◌, if◌then◌else◌,
}

-- `struct Segdesc`
pub record Segdesc : Type 0 where
  pub sd_lim_15_0 : ℕ
  pub sd_base_15_0 : ℕ
  pub sd_base_23_16 : ℕ
  pub sd_type : ℕ
  pub sd_s : ℕ
  pub sd_dpl : ℕ
  pub sd_p : ℕ
  pub sd_lim_19_16 : ℕ
  pub sd_avl : ℕ
  pub sd_rsv1 : ℕ
  pub sd_db : ℕ
  pub sd_g : ℕ
  pub sd_base_31_24 : ℕ

abbrev pub seg_null : Segdesc
seg_null = record {
  sd_lim_15_0 = 0;
  sd_base_15_0 = 0;
  sd_base_23_16 = 0;
  sd_type = 0;
  sd_s = 0;
  sd_dpl = 0;
  sd_p = 0;
  sd_lim_19_16 = 0;
  sd_avl = 0;
  sd_rsv1 = 0;
  sd_db = 0;
  sd_g = 0;
  sd_base_31_24 = 0;
}

-- `SEG(type, base, lim, dpl)`, each value cut to the bits of its field.
unfoldable pub seg : (type base lim dpl : ℕ) → Segdesc
seg type base lim dpl = record {
  sd_lim_15_0 = lim / 2 ^ 12 % 2 ^ 16;
  sd_base_15_0 = base % 2 ^ 16;
  sd_base_23_16 = base / 2 ^ 16 % 2 ^ 8;
  sd_type = type % 2 ^ 4;
  sd_s = 1;
  sd_dpl = dpl % 4;
  sd_p = 1;
  sd_lim_19_16 = lim / 2 ^ 28 % 2 ^ 4;
  sd_avl = 0;
  sd_rsv1 = 0;
  sd_db = 1;
  sd_g = 1;
  sd_base_31_24 = base / 2 ^ 24 % 2 ^ 8;
}

abbrev pub sta_x : ℕ
sta_x = 0x8

abbrev pub sta_w : ℕ
sta_w = 0x2

abbrev pub sta_r : ℕ
sta_r = 0x2

unfoldable pub gdt : List Segdesc
gdt =
    seg_null
    ∷ seg (bit_or sta_x sta_r) 0x0 0xffffffff 0
    ∷ seg sta_w 0x0 0xffffffff 0
    ∷ seg (bit_or sta_x sta_r) 0x0 0xffffffff 3
    ∷ seg sta_w 0x0 0xffffffff 3
    ∷ seg_null
    ∷ []

-- What the CPU makes of a descriptor: its first address, and its last offset, in pages of 4096 bytes
-- where the granularity bit is set.
abbrev pub base_of : Segdesc → ℕ
base_of d = d.sd_base_31_24 * 2 ^ 24 + d.sd_base_23_16 * 2 ^ 16 + d.sd_base_15_0

abbrev pub limit_of : Segdesc → ℕ
limit_of d =
    let units = d.sd_lim_19_16 * 2 ^ 16 + d.sd_lim_15_0 in
    if d.sd_g == 1 then units * 4096 + 4095 else units

-- The CPU reads from `SEG` the base, and the limit rounded up to the end of its page.
pub seg-lem :
    (type base lim dpl : ℕ)
    → base < 2 ^ 32
    → lim < 2 ^ 32
    → (base_of (seg type base lim dpl) ≡ base)
      × (limit_of (seg type base lim dpl) ≡ lim / 4096 * 4096 + 4095)
unfolding seg
seg-lem type base lim dpl h k = (omega arith, omega arith)
