-- ===== src/Irq/Handlers.antt =====
-- Handlers that a program has registered, and which interrupts stop the kernel: kernel/irq/irq_handle.c
-- and kernel/syscall/do_syscall.c.
use oslab.Base.{
  ℕ, ◌+◌, ◌-◌, ◌≤◌, ◌<◌, ◌^◌, ◌≡◌, ◌≢◌, ◌↔◌, ◌⊎◌, refl, none, some, ◌∷◌, ◌==◌, if◌then◌else◌, ne→==,
  eq→==, lt→ltb, le→ltb, gt→leb, arith, ◌∙◌,
}
use oslab.Irq.Dispatch.{
  TrapFrame, Kernel, returned, asserted, fault, called, disabled, enabled, log, nr_irq_handler,
  add_irq_handler, do_syscall, call_handler, irq_handle,
}

-- System call 0 with a handler `func` for number `i`, and then an interrupt.
abbrev pub registration : (i func : ℕ) → TrapFrame
registration i func = record { eax = 0; ebx = 0; ecx = i; edx = func; irq = 0x80 }

abbrev pub registered : (i func : ℕ) → Kernel → Kernel
registered i func k = record {
  handler_pool = λ j. if j == i then some func else k.handler_pool j;
  events = enabled ∷ disabled ∷ k.events;
}

irq_handle-call :
    (in_byte : ℕ → ℕ) (tf : TrapFrame) (k : Kernel) (i : ℕ)
    → i < 2 ^ 30
    → tf.irq ≡ 1000 + i
    → irq_handle in_byte tf k ≡ call_handler i tf k
unfolding irq_handle
irq_handle-call in_byte tf k i small e =
    let index : tf.irq - 1000 ≡ i = omega arith in
    rw (gt→leb (2 ^ 31) tf.irq (omega arith))
      (rw (ne→== tf.irq 0x80 (omega arith)) (rw (le→ltb tf.irq 1000 (omega arith)) (rw index refl)))

call_handler-found :
    (i func : ℕ) (tf : TrapFrame) (k : Kernel)
    → i < nr_irq_handler
    → k.handler_pool i ≡ some func
    → call_handler i tf k ≡ returned tf (log (called func) k)
unfolding call_handler
call_handler-found i func tf k lt e = rw (lt→ltb i nr_irq_handler lt) (rw e refl)

-- A registration within the pool returns, between a `cli` and a `sti`; the interrupt of that number then
-- calls the handler and does nothing else, and the other handlers are the ones they were.
pub irq_handle-registered :
    (in_byte : ℕ → ℕ) (k : Kernel) (tf : TrapFrame) (i func : ℕ)
    → i < nr_irq_handler
    → func ≢ 0
    → tf.irq ≡ 1000 + i
    → (h : Kernel) × (irq_handle in_byte (registration i func) k ≡ returned (registration i func) h)
      × (irq_handle in_byte tf h ≡ returned tf (log (called func) h))
      × ((j : ℕ) → j ≢ i → h.handler_pool j ≡ k.handler_pool j)
      × (h.events ≡ enabled ∷ disabled ∷ k.events)
unfolding irq_handle do_syscall add_irq_handler call_handler
irq_handle-registered in_byte k tf i func lt ne e = (
  registered i func k,
  rw (lt→ltb i nr_irq_handler lt) (rw (ne→== func 0 ne) refl),
  irq_handle-call in_byte tf (registered i func k) i (omega (arith)) e
      ∙ call_handler-found i func tf (registered i func k) lt (rw (eq→== i i refl) refl),
  (λ j h. rw (ne→== j i h) refl),
  refl,
)

-- Which interrupts stop the kernel in an assertion.
abbrev pub Asserts : TrapFrame → Type 0
Asserts tf =
    ((tf.irq < 1000) × (tf.irq ≢ 0x80) × (tf.irq ≢ 6) × (tf.irq ≢ 13) × (tf.irq ≢ 14))
    ⊎ ((tf.irq ≡ 0x80) × (tf.ebx ≢ 0) × ((0x103 < tf.ebx) ⊎ (tf.ebx < 0x100)))

-- Which leave the pool of handlers or call NULL: a registration outside the pool, and an interrupt of a
-- device without a handler.
abbrev pub Faults : TrapFrame → Kernel → Type 0
Faults tf k =
    ((tf.irq ≡ 0x80) × (tf.ebx ≡ 0) × (nr_irq_handler ≤ tf.ecx))
    ⊎ ((1000 ≤ tf.irq)
        × (tf.irq < 2 ^ 31)
        × ((nr_irq_handler ≤ tf.irq - 1000) ⊎ (k.handler_pool (tf.irq - 1000) ≡ none)))

-- The kernel stops in an assertion exactly at an exception other than 6, 13 and 14 or at a system call
-- with an unknown number. It writes outside the pool of handlers, calls what lies outside it or calls
-- NULL exactly at a registration with a number that is too large and at an interrupt that has no handler.
pub irq_handle-stops :
    (in_byte : ℕ → ℕ) (tf : TrapFrame) (k : Kernel)
    → ((irq_handle in_byte tf k ≡ asserted) ↔ Asserts tf)
      × ((irq_handle in_byte tf k ≡ fault) ↔ Faults tf k)
unfolding irq_handle do_syscall add_irq_handler call_handler
irq_handle-stops in_byte tf k = (ground arith, ground arith)
