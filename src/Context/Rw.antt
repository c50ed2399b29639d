-- ===== src/Context/Rw.antt =====
-- Byte offsets. `regs` and `neon` of `ohv_rw_page_head_t`.
use open_hypervisor.Base.{ℕ, ◌+◌, ◌*◌}

abbrev pub x : ℕ → ℕ
x n = 0x008 + n * 8

abbrev pub fp : ℕ
fp = 0x0f0

abbrev pub lr : ℕ
lr = 0x0f8

abbrev pub sp : ℕ
sp = 0x100

abbrev pub pc : ℕ
pc = 0x108

abbrev pub cpsr : ℕ
cpsr = 0x110

abbrev pub neon_q : ℕ → ℕ
neon_q n = 0x140 + n * 16

abbrev pub fpsr : ℕ
fpsr = 0x340

abbrev pub fpcr : ℕ
fpcr = 0x344

abbrev pub shared_sysregs : ℕ
shared_sysregs = 0x350

abbrev pub banked_sysregs : ℕ
banked_sysregs = 0x3b8

abbrev pub dbgregs : ℕ
dbgregs = 0x478

abbrev pub vgic_sysregs : ℕ
vgic_sysregs = 0x698

abbrev pub controls : ℕ
controls = 0x920

abbrev pub timer : ℕ
timer = 0x988

abbrev pub state_dirty : ℕ
state_dirty = 0xa00

abbrev pub guest_ticks : ℕ
guest_ticks = 0xa08

abbrev pub extregs : ℕ
extregs = 0xa10
