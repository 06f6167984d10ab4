-- ===== src/Irq.antt =====
-- Interrupts: the gates of kernel/irq/idt.c and what kernel/irq/irq_handle.c and
-- kernel/syscall/do_syscall.c make of an interrupt.
pub mod Gate
pub mod Gates
pub mod Dispatch
pub mod Handlers
mod Tests
