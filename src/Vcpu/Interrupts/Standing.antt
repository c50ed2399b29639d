-- ===== src/Vcpu/Interrupts/Standing.antt =====
-- When a level may stand, in terms of the guest's state alone: what the gates of src/ohv_vcpu.cpp
-- (`ohv_fiq_takeable`, `ohv_irq_takeable`) are compared with.
use open_hypervisor.Base.{
  ℕ, ◌+◌, ◌/◌, ◌%◌, ◌^◌, ◌≡◌, refl, Bool, not, ◌&&◌, ◌||◌, none, some, false, arith, ltb, leb, ◌==◌,
}
use open_hypervisor.Base.Bits.{bit_at, bit_and-one_hot, bit_and_low}
use open_hypervisor.Context.{load32, load64}
use open_hypervisor.Context.Rw
use open_hypervisor.Vcpu.Slot.{VcpuSlot}
use open_hypervisor.Vcpu.Environment.{Environment}
use open_hypervisor.Vcpu.Interrupts.{
  ohv_guest_in_monitor, ohv_fiq_takeable, ohv_irq_takeable, ohv_timer_as_irq, ohv_timer_irq_vcpus,
}

-- The bits of PSTATE that mask an FIQ and an IRQ.
abbrev pub pstate_f : ℕ
pstate_f = 6

abbrev pub pstate_i : ℕ
pstate_i = 7

-- The program counter lies in the 512 MB from the monitor's base up, whose end is a 64-bit word.
abbrev pub runs_monitor : VcpuSlot → Bool
runs_monitor s =
    leb s.sptm_base (load64 s.ctx Rw.pc)
    && ltb (load64 s.ctx Rw.pc) ((s.sptm_base + 0x20000000) % 2 ^ 64)

-- A level may stand where there is no monitor yet, where the guest is stopped on a WFI or a WFE, or
-- where it runs outside of the monitor with the interrupt's own mask bit clear.
pub may_stand : ℕ → VcpuSlot → Bool
may_stand mask s =
    s.sptm_base == 0 || s.in_wfx || not (runs_monitor s) && bit_at (load32 s.ctx Rw.cpsr) mask == 0

-- The guest is one whose timer is offered as an IRQ.
abbrev pub timer_by_irq : Environment → VcpuSlot → Bool
timer_by_irq e s = elim e.timer_irq_vcpus [
  | none ↦ false
  | some m ↦ ltb s.id 64 && m % 2 ^ 64 / 2 ^ s.id % 2 == 1
]

pub fiq_takeable_lem :
    (s : VcpuSlot) → (s.sptm_base == 0 || ohv_fiq_takeable s) ≡ may_stand pstate_f s
unfolding may_stand ohv_fiq_takeable ohv_guest_in_monitor
fiq_takeable_lem s = ground (arith, bit_and-one_hot 6 (load32 s.ctx Rw.cpsr))

pub irq_takeable_lem :
    (s : VcpuSlot) → (s.sptm_base == 0 || ohv_irq_takeable s) ≡ may_stand pstate_i s
unfolding may_stand ohv_irq_takeable ohv_guest_in_monitor
irq_takeable_lem s = ground (arith, bit_and-one_hot 7 (load32 s.ctx Rw.cpsr))

pub timer_as_irq_lem : (e : Environment) (s : VcpuSlot) → ohv_timer_as_irq e s ≡ timer_by_irq e s
unfolding ohv_timer_as_irq ohv_timer_irq_vcpus
timer_as_irq_lem e s = ground (arith, bit_and_low 1 (ohv_timer_irq_vcpus e / 2 ^ s.id))

pub may_stand_same :
    (mask : ℕ) (s s' : VcpuSlot)
    → load64 s'.ctx Rw.pc ≡ load64 s.ctx Rw.pc
    → load32 s'.ctx Rw.cpsr ≡ load32 s.ctx Rw.cpsr
    → s'.sptm_base ≡ s.sptm_base
    → s'.in_wfx ≡ s.in_wfx
    → may_stand mask s' ≡ may_stand mask s
unfolding may_stand
may_stand_same mask s s' pc cpsr base wfx = rw (pc, cpsr, base, wfx) refl
