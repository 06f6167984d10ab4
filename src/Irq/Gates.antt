-- ===== src/Irq/Gates.antt =====
-- Where the CPU goes through the gates of kernel/irq/idt.c.
use oslab.Base.{
  ℕ, zero, suc, ◌+◌, ◌*◌, ◌≤◌, ◌<◌, ◌^◌, ◌≡◌, ◌≢◌, refl, sym, ap, ◌∙◌, Bool, true, false, ◌&&◌, leb,
  ◌==◌, if◌then◌else◌, ne→==, eq→==, Bool-cases, arith, inl, inr,
}
use native.Mathlib.Decide.{ℕ_discrete}
use mathlib.Core.Path.{subst}
use oslab.Irq.Gate.{
  GateDescriptor, Routines, Idt, set_intr, set_trap, set_exceptions, empty_loop, init_idt, nr_irq,
  interrupt_gate_32, trap_gate_32, seg_kernel_code, dpl_kernel, dpl_user,
}

-- The address that the CPU jumps to.
abbrev pub offset : GateDescriptor → ℕ
offset g = g.offset_31_16 * 2 ^ 16 + g.offset_15_0

-- A present gate to `address` in the kernel's code segment, of a kind and with a privilege.
abbrev pub GateTo : GateDescriptor → (address kind dpl : ℕ) → Type 0
GateTo g address kind dpl =
    (offset g ≡ address)
    × (g.segment ≡ 8)
    × (g.present ≡ 1)
    × (g.kind ≡ kind)
    × (g.privilege_level ≡ dpl)

-- What each number leads to.
abbrev pub is_exception : ℕ → Bool
is_exception i = leb 1 i && leb i 14

abbrev pub routine_of : Routines → ℕ → ℕ
routine_of r i =
    if is_exception i
    then r.vec i
    else if i == 0x80
    then r.vecsys
    else if i == 32
    then r.irq0
    else if i == 33
    then r.irq1
    else r.irq_empty

abbrev pub kind_of : ℕ → ℕ
kind_of i =
    if i == 32 then interrupt_gate_32 else if i == 33 then interrupt_gate_32 else trap_gate_32

abbrev pub dpl_of : ℕ → ℕ
dpl_of i = if is_exception i then dpl_user else if i == 0x80 then dpl_user else dpl_kernel

set_trap-GateTo :
    (address dpl : ℕ)
    → address < 2 ^ 32
    → dpl < 4
    → GateTo (set_trap seg_kernel_code address dpl) address trap_gate_32 dpl
unfolding set_trap
set_trap-GateTo address dpl h k = (omega arith, refl, refl, refl, omega arith)

set_intr-GateTo :
    (address dpl : ℕ)
    → address < 2 ^ 32
    → dpl < 4
    → GateTo (set_intr seg_kernel_code address dpl) address interrupt_gate_32 dpl
unfolding set_intr
set_intr-GateTo address dpl h k = (omega arith, refl, refl, refl, omega arith)

empty_loop-before :
    (left i : ℕ) (r : Routines) (idt : Idt) (j : ℕ) → j < i → empty_loop left i r idt j ≡ idt j
unfolding empty_loop
empty_loop-before zero i r idt j h = refl
empty_loop-before (suc left) i r idt j h =
    empty_loop-before left (suc i) r _ j (omega arith) ∙ rw (ne→== j i (omega arith)) refl

empty_loop-gate :
    (left i : ℕ) (r : Routines) (idt : Idt) (j : ℕ)
    → i ≤ j
    → j < i + left
    → empty_loop left i r idt j ≡ set_trap seg_kernel_code r.irq_empty dpl_kernel
unfolding empty_loop
empty_loop-gate zero i r idt j low high = absurd (omega arith)
empty_loop-gate (suc left) i r idt j low high = elim (ℕ_discrete j i) [
  | yes e ↦ empty_loop-before left (suc i) r _ j (omega arith) ∙ rw (eq→== j i e) refl
  | no ne ↦ empty_loop-gate left (suc i) r _ j (omega arith) (omega arith)
]

-- The gates of the exceptions, and the others as they were.
set_exceptions-in :
    (r : Routines) (idt : Idt) (i : ℕ)
    → is_exception i ≡ true
    → set_exceptions r idt i ≡ set_trap seg_kernel_code (r.vec i) dpl_user
unfolding set_exceptions
set_exceptions-in r idt i h = ground arith

set_exceptions-out :
    (r : Routines) (idt : Idt) (i : ℕ) → is_exception i ≡ false → set_exceptions r idt i ≡ idt i
unfolding set_exceptions
set_exceptions-out r idt i h = ground arith

-- All addresses are 32-bit numbers.
abbrev pub Addresses : Routines → Type 0
Addresses r = (i : ℕ) → routine_of r i < 2 ^ 32

exception_gate :
    (r : Routines) (idt : Idt) (i : ℕ)
    → is_exception i ≡ true
    → init_idt r idt i ≡ set_trap seg_kernel_code (r.vec i) dpl_user
unfolding init_idt
exception_gate r idt i h =
    rw (ne→== i 33 (ground arith)) (
      rw (ne→== i 32 (ground arith)) (rw (ne→== i 0x80 (ground arith)) (set_exceptions-in r _ i h)))

other_gate :
    (r : Routines) (idt : Idt) (i : ℕ)
    → is_exception i ≡ false
    → i < nr_irq
    → i ≢ 0x80
    → i ≢ 32
    → i ≢ 33
    → init_idt r idt i ≡ set_trap seg_kernel_code r.irq_empty dpl_kernel
unfolding init_idt
other_gate r idt i h fits a b c = rw (ne→== i 33 c) (
    rw (ne→== i 32 b) (
      rw (ne→== i 0x80 a) (
        set_exceptions-out r _ i h ∙ empty_loop-gate nr_irq 0 r idt i (omega arith) (omega arith))))

GateTo-along :
    {g h : GateDescriptor} {address to kind as_kind dpl as_dpl : ℕ}
    → g ≡ h
    → address ≡ to
    → kind ≡ as_kind
    → dpl ≡ as_dpl
    → GateTo h to as_kind as_dpl
    → GateTo g address kind dpl
GateTo-along e a k d (at, segment, present, is_kind, is_dpl) = (
  ap offset e ∙ at ∙ sym a,
  ap (λ (g : GateDescriptor). g.segment) e ∙ segment,
  ap (λ (g : GateDescriptor). g.present) e ∙ present,
  ap (λ (g : GateDescriptor). g.kind) e ∙ is_kind ∙ sym k,
  ap (λ (g : GateDescriptor). g.privilege_level) e ∙ is_dpl ∙ sym d,
)

abbrev Correct : Routines → Idt → ℕ → Type 0
Correct r idt i = GateTo (init_idt r idt i) (routine_of r i) (kind_of i) (dpl_of i)

Correct-exception :
    (r : Routines) (idt : Idt) (i : ℕ) → Addresses r → is_exception i ≡ true → Correct r idt i
Correct-exception r idt i at h =
    let same : routine_of r i ≡ r.vec i = ground arith in
    GateTo-along (exception_gate r idt i h) same (ground arith) (ground arith)
      (set_trap-GateTo (r.vec i) dpl_user (omega (arith, same, at i)) (omega arith))

Correct-other :
    (r : Routines) (idt : Idt) (i : ℕ)
    → Addresses r
    → is_exception i ≡ false
    → i < nr_irq
    → i ≢ 0x80
    → i ≢ 32
    → i ≢ 33
    → Correct r idt i
Correct-other r idt i at h fits a b c =
    let same : routine_of r i ≡ r.irq_empty = ground arith in
    GateTo-along (other_gate r idt i h fits a b c) same (ground arith) (ground arith)
      (set_trap-GateTo r.irq_empty dpl_kernel (omega (arith, same, at i)) (omega arith))

Correct-named :
    (r : Routines) (idt : Idt)
    → Addresses r
    → Correct r idt 0x80 × Correct r idt 32 × Correct r idt 33
unfolding init_idt
Correct-named r idt at = (
  set_trap-GateTo r.vecsys dpl_user (at 0x80) (omega arith),
  set_intr-GateTo r.irq0 dpl_kernel (at 32) (omega arith),
  set_intr-GateTo r.irq1 dpl_kernel (at 33) (omega arith),
)

-- After `init_idt` every interrupt number leads, through a present gate in the kernel's code segment,
-- to its routine: exceptions 1 to 14 and the system call 0x80 through trap gates that user code may
-- enter, the timer and the keyboard through interrupt gates, every other number to `irq_empty`.
pub init_idt-GateTo :
    (r : Routines) (idt : Idt) (i : ℕ)
    → Addresses r
    → i < nr_irq
    → GateTo (init_idt r idt i) (routine_of r i) (kind_of i) (dpl_of i)
init_idt-GateTo r idt i at fits =
    let (calls, timer, keyboard) = Correct-named r idt at in
    elim (Bool-cases (is_exception i)) [
      | inl h ↦ Correct-exception r idt i at h
      | inr h ↦ elim (ℕ_discrete i 0x80) [
        | yes e ↦ subst (Correct r idt) (sym e) calls
        | no a ↦ elim (ℕ_discrete i 32) [
          | yes e ↦ subst (Correct r idt) (sym e) timer
          | no b ↦ elim (ℕ_discrete i 33) [
            | yes e ↦ subst (Correct r idt) (sym e) keyboard
            | no c ↦ Correct-other r idt i at h fits a b c
          ]
        ]
      ]
    ]
