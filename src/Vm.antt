-- ===== src/Vm.antt =====
-- The virtual machine (src/ohv_vm.cpp).
pub mod Maps
pub mod Config
pub mod Kernel
pub mod Lifecycle
pub mod Memory
pub mod Spaces
