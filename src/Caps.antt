-- ===== src/Caps.antt =====
-- What the guest and the caller are told of the machine: the identification registers, narrowed
-- (src/ohv_misc.cpp, src/ohv_caps_field.cpp).
pub mod Block
pub mod Narrowing
pub mod Queries
pub mod Registers
