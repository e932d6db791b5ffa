-- ===== src/Mem.antt =====
-- kernel/uefi/mem.c: the page frames of the machine, and the UEFI memory map.
pub mod State
pub mod Pages
pub mod Efi
pub mod Spec
pub mod View
pub mod Refine
pub mod Run
pub mod Request
pub mod Account
pub mod Range
pub mod Keeps
pub mod Free
mod Tests
