-- ===== src/Context/State.antt =====
-- Bits of `state_dirty`.
use open_hypervisor.Base.{ℕ, ◌^◌}

abbrev pub sysregs : ℕ
sysregs = 2 ^ 0

abbrev pub debug : ℕ
debug = 2 ^ 1

abbrev pub controls : ℕ
controls = 2 ^ 2

abbrev pub gic : ℕ
gic = 2 ^ 3

abbrev pub sme_context : ℕ
sme_context = 2 ^ 4

abbrev pub jitbox : ℕ
jitbox = 2 ^ 56

abbrev pub gxf : ℕ
gxf = 2 ^ 58

abbrev pub sprr : ℕ
sprr = 2 ^ 59

abbrev pub ptrauth_apple : ℕ
ptrauth_apple = 2 ^ 60

abbrev pub ptrauth_arm : ℕ
ptrauth_arm = 2 ^ 61
