-- ===== src/Gic.antt =====
-- The interrupt controller model (src/ohv_gic.cpp).
pub mod Model
pub mod Registers
pub mod Spi
pub mod Lifecycle
