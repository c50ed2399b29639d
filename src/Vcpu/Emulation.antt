-- ===== src/Vcpu/Emulation.antt =====
-- The system register accesses of a guest that are carried out for it (`service_nv2_access` and its
-- helpers, src/ohv_vcpu.cpp): which access it is, what its register is, and the transfer.
pub mod Nested
pub mod Shadows
pub mod Dispatch
pub mod Transfer
pub mod Service
pub mod Laws
