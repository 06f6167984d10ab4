-- ===== src/Irq/Tests.antt =====
-- The theorems about interrupts at concrete gates and trap frames.
use oslab.Base.{ℕ, ◌≡◌, ◌≢◌, ◌↔◌, refl, none, [], ◌∷◌, arith}
use oslab.Irq.Gate.{Routines, set_trap, init_idt}
use oslab.Irq.Gates.{GateTo, init_idt-GateTo}
use oslab.Irq.Dispatch.{
  TrapFrame, Kernel, returned, asserted, fault, called, disabled, enabled, log, irq_handle,
}
use oslab.Irq.Handlers.{registration, Asserts, Faults, irq_handle-registered, irq_handle-stops}

abbrev routines : Routines
routines = record {
  vec = λ i. 0xc0100000;
  vecsys = 0xc0100080;
  irq0 = 0xc0100100;
  irq1 = 0xc0100200;
  irq_empty = 0xc0100300;
}

-- The keyboard's gate.
init_idt-GateTo_example : GateTo (init_idt routines (λ i. set_trap 0 0 0) 33) 0xc0100200 0xe 0
init_idt-GateTo_example =
    init_idt-GateTo routines (λ i. set_trap 0 0 0) 33 (λ i. ground arith) (omega arith)

abbrev idle : Kernel
idle = record { handler_pool = λ i. none; events = [] }

abbrev key : TrapFrame
key = record { eax = 0; ebx = 0; ecx = 0; edx = 0; irq = 1001 }

irq_handle-registered_example :
    (h : Kernel) × (irq_handle (λ p. 0) (registration 1 0x8001000) idle
      ≡ returned (registration 1 0x8001000) h)
    × (irq_handle (λ p. 0) key h ≡ returned key (log (called 0x8001000) h))
    × ((j : ℕ) → j ≢ 1 → h.handler_pool j ≡ none)
    × (h.events ≡ enabled ∷ disabled ∷ [])
irq_handle-registered_example =
    irq_handle-registered (λ p. 0) idle key 1 0x8001000 (omega arith) (omega arith) refl

irq_handle-stops_example :
    ((irq_handle (λ p. 0) (record key { irq = 3 }) idle ≡ asserted)
      ↔ Asserts (record key { irq = 3 }))
    × ((irq_handle (λ p. 0) (record key { irq = 3 }) idle ≡ fault)
        ↔ Faults (record key { irq = 3 }) idle)
irq_handle-stops_example = irq_handle-stops (λ p. 0) (record key { irq = 3 }) idle
