-- ===== src/Tests.antt =====
-- Concrete runs: each theorem of the header applied where its hypotheses hold.
mod Fixtures
mod Vm
mod Gic
mod Vcpu
mod Sysreg
mod Emulation
mod Nesting
mod Sme
mod Run
mod Wrapper
