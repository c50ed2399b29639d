-- ===== src/Vcpu.antt =====
-- A vCPU: its slot and the calls on it (src/ohv_vcpu.cpp).
pub mod Slot
pub mod Environment
pub mod Registers
pub mod Controls
pub mod Interrupts
pub mod Timers
pub mod Lifecycle
pub mod Syndrome
pub mod Sysreg
pub mod Stage1
pub mod Emulation
pub mod Nesting
pub mod Sme
pub mod Amx
pub mod Exit
pub mod Run
