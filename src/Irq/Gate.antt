-- ===== src/Irq/Gate.antt =====
-- The interrupt descriptor table of kernel/irq/idt.c, and what a gate is to the CPU. The addresses of
-- the assembly routines are parameters.
use oslab.Base.{ℕ, zero, suc, ◌*◌, ◌/◌, ◌%◌, ◌^◌, ◌==◌, if◌then◌else◌}

-- `struct GateDescriptor` of include/x86/memory.h.
pub record GateDescriptor : Type 0 where
  pub offset_15_0 : ℕ
  pub segment : ℕ
  pub pad0 : ℕ
  pub kind : ℕ
  pub system : ℕ
  pub privilege_level : ℕ
  pub present : ℕ
  pub offset_31_16 : ℕ

abbrev pub interrupt_gate_32 : ℕ
interrupt_gate_32 = 0xe

abbrev pub trap_gate_32 : ℕ
trap_gate_32 = 0xf

abbrev pub seg_kernel_code : ℕ
seg_kernel_code = 1

abbrev pub dpl_kernel : ℕ
dpl_kernel = 0

abbrev pub dpl_user : ℕ
dpl_user = 3

abbrev pub nr_irq : ℕ
nr_irq = 256

-- Both write every field; a value is cut to the bits of its field.
unfoldable pub set_intr : (selector offset dpl : ℕ) → GateDescriptor
set_intr selector offset dpl = record {
  offset_15_0 = offset % 2 ^ 16;
  segment = selector * 2 ^ 3 % 2 ^ 16;
  pad0 = 0;
  kind = interrupt_gate_32;
  system = 0;
  privilege_level = dpl % 4;
  present = 1;
  offset_31_16 = offset / 2 ^ 16 % 2 ^ 16;
}

unfoldable pub set_trap : (selector offset dpl : ℕ) → GateDescriptor
set_trap selector offset dpl = record {
  offset_15_0 = offset % 2 ^ 16;
  segment = selector * 2 ^ 3 % 2 ^ 16;
  pad0 = 0;
  kind = trap_gate_32;
  system = 0;
  privilege_level = dpl % 4;
  present = 1;
  offset_31_16 = offset / 2 ^ 16 % 2 ^ 16;
}

abbrev pub Idt : Type 0
Idt = ℕ → GateDescriptor

-- `idt[i] = gate`
abbrev pub set_gate : Idt → ℕ → GateDescriptor → Idt
set_gate idt i gate j = if j == i then gate else idt j

-- The addresses of the routines: `vec i` for exception `i`.
pub record Routines : Type 0 where
  pub vec : ℕ → ℕ
  pub vecsys : ℕ
  pub irq0 : ℕ
  pub irq1 : ℕ
  pub irq_empty : ℕ

-- The loop from `i` on.
unfoldable pub empty_loop : (left i : ℕ) → Routines → Idt → Idt
empty_loop zero i r idt = idt
empty_loop (suc left) i r idt =
    empty_loop left (suc i) r (set_gate idt i (set_trap seg_kernel_code r.irq_empty dpl_kernel))

abbrev pub set_exception : Routines → ℕ → Idt → Idt
set_exception r i idt = set_gate idt i (set_trap seg_kernel_code (r.vec i) dpl_user)

-- The fourteen exceptions in the order of the source.
unfoldable pub set_exceptions : Routines → Idt → Idt
set_exceptions r idt =
    let a = set_exception r 7 (set_exception r 6 (set_exception r 5 (set_exception r 4 idt))) in
    let b = set_exception r 11 (set_exception r 10 (set_exception r 9 (set_exception r 8 a))) in
    let c = set_exception r 14 (set_exception r 13 (set_exception r 12 b)) in
    set_exception r 3 (set_exception r 2 (set_exception r 1 c))

unfoldable pub init_idt : Routines → Idt → Idt
init_idt r idt =
    let filled = set_exceptions r (empty_loop nr_irq 0 r idt) in
    let calls = set_gate filled 0x80 (set_trap seg_kernel_code r.vecsys dpl_user) in
    let timer = set_gate calls 32 (set_intr seg_kernel_code r.irq0 dpl_kernel) in
    set_gate timer 33 (set_intr seg_kernel_code r.irq1 dpl_kernel)
