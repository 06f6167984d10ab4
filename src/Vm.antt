-- ===== src/Vm.antt =====
-- Physical pages and two-level page tables: kernel/pmapjos.c with include/jos/mmu.h and
-- include/jos/pmap.h. Definitions stand in Layout, State, Pages and Tables.
pub mod Layout
pub mod State
pub mod Pages
pub mod Tables
pub mod FreeList
pub mod Mmu
pub mod NewTable
pub mod Walk
pub mod Fill
pub mod Remove
pub mod Insert
pub mod Backed
pub mod Region
pub mod Boot
mod Tests
