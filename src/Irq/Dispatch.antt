-- ===== src/Irq/Dispatch.antt =====
-- What the kernel does with an interrupt: `irq_handle` of kernel/irq/irq_handle.c and `do_syscall` of
-- kernel/syscall/do_syscall.c. What it does to the outside is a list of events, the latest first; the
-- bytes that the ports give are a parameter.
use oslab.Base.{ℕ, ◌-◌, ◌%◌, ◌^◌, Option, none, some, List, ◌∷◌, ltb, leb, ◌==◌, if◌then◌else◌}

-- `struct TrapFrame`, the fields that the two files use; `irq` is the 32 bits of an `int32_t`.
pub record TrapFrame : Type 0 where
  pub eax : ℕ
  pub ebx : ℕ
  pub ecx : ℕ
  pub edx : ℕ
  pub irq : ℕ

pub data Message : Type 0 where
  irq_negative irq_6 irq_13 irq_14 unhandled_exception halt unhandled_system_call : Message

-- A message, the call of a handler, a byte written to a port, the copy of a frame of 320*200 bytes to
-- video memory, and the two instructions on the interrupt flag.
pub data Event : Type 0 where
  printed : Message → Event
  called : (func : ℕ) → Event
  wrote : (port value : ℕ) → Event
  copied : (from : ℕ) → Event
  disabled enabled : Event

-- `handler_pool`, where `none` is NULL.
pub record Kernel : Type 0 where
  pub handler_pool : ℕ → Option ℕ
  pub events : List Event

-- A failed assertion, the endless loop of the halt call, and an access outside the pool or a call of
-- NULL.
pub data Handled : Type 0 where
  returned : TrapFrame → Kernel → Handled
  asserted halted fault : Handled

abbrev pub nr_irq_handler : ℕ
nr_irq_handler = 32

abbrev pub log : Event → Kernel → Kernel
log e k = record k { events = e ∷ k.events }

-- `handler_pool[irq] = func`, with no look at the bound.
unfoldable pub add_irq_handler : (irq : ℕ) (func : Option ℕ) → Kernel → Option Kernel
add_irq_handler irq func k =
    if ltb irq nr_irq_handler
    then some (record k { handler_pool = λ i. if i == irq then func else k.handler_pool i })
    else none

-- A pointer from a register.
abbrev pub pointer : ℕ → Option ℕ
pointer a = if a == 0 then none else some a

unfoldable pub do_syscall : (in_byte : ℕ → ℕ) → TrapFrame → Kernel → Handled
do_syscall in_byte tf k =
    if tf.ebx == 0x0
    then (elim (add_irq_handler tf.ecx (pointer tf.edx) (log disabled k)) [
      | none ↦ fault
      | some after ↦ returned tf (log enabled after)
    ])
    else if tf.ebx == 0x100
    then returned (record tf { eax = in_byte (tf.edx % 2 ^ 16) % 2 ^ 8 }) k
    else if tf.ebx == 0x101
    then returned tf (log (wrote (tf.edx % 2 ^ 16) (tf.eax % 2 ^ 8)) k)
    else if tf.ebx == 0x102
    then returned tf (log (copied tf.ecx) k)
    else if tf.ebx == 0x103
    then halted
    else asserted

-- `handler_pool[index]()`
unfoldable pub call_handler : (index : ℕ) → TrapFrame → Kernel → Handled
call_handler index tf k =
    if ltb index nr_irq_handler
    then (elim (k.handler_pool index) [
      | none ↦ fault
      | some func ↦ returned tf (log (called func) k)
    ])
    else fault

unfoldable pub irq_handle : (in_byte : ℕ → ℕ) → TrapFrame → Kernel → Handled
irq_handle in_byte tf k =
    if leb (2 ^ 31) tf.irq
    then returned tf (log (printed irq_negative) k)
    else if tf.irq == 0x80
    then do_syscall in_byte tf k
    else if ltb tf.irq 1000
    then (if tf.irq == 6
        then returned tf (log (printed irq_6) k)
        else if tf.irq == 14
        then returned tf (log (printed irq_14) k)
        else if tf.irq == 13
        then returned tf (log (printed irq_13) k)
        else asserted)
    else call_handler (tf.irq - 1000) tf k
