-- ===== src/Vcpu/Interrupts.antt =====
-- The virtual FIQ and IRQ of a vCPU as levels in HCR_EL2, and the rule that decides when a level
-- may stand (`ohv_timer_gate_mode` to `ohv_vcpu_set_parked`, `hv_vcpu_set_pending_interrupt`,
-- src/ohv_vcpu.cpp). The slot of a call that is not owned is not touched.
pub mod Levels
pub mod Standing
pub mod Gate
pub mod Granted
pub mod Pending
use open_hypervisor.Base.{
  ℕ, ◌+◌, ◌/◌, ◌%◌, ◌^◌, Bool, true, false, not, ◌&&◌, ◌||◌, Option, none, some, bit_and, bit_or,
  ltb, leb, ◌==◌, if◌then◌else◌,
}
use open_hypervisor.Base.Bits.{not64}
use open_hypervisor.Context.{Ctx, load32, load64, store64, mark_dirty}
use open_hypervisor.Context.Rw
use open_hypervisor.Context.Controls
use open_hypervisor.Context.State
use open_hypervisor.Hv.{hv_success, Result, ok}
use open_hypervisor.Host.{Host, owned_vcpu, put_slot, with_owned, from_owned}
use open_hypervisor.Vcpu.Environment.{Environment}
use open_hypervisor.Vcpu.Slot.{VcpuSlot}

abbrev pub hcr_vf : ℕ
hcr_vf = 2 ^ 6

abbrev pub hcr_vi : ℕ
hcr_vi = 2 ^ 7

pub data InterruptType : Type 0 where
  irq fiq : InterruptType

unfoldable pub pending_bit : InterruptType → ℕ
pending_bit irq = hcr_vi
pending_bit fiq = hcr_vf

unfoldable pub ohv_timer_gate_mode : Environment → ℕ
ohv_timer_gate_mode e = elim e.timer_gate [ none ↦ 4 | some m ↦ m % 2 ^ 32 ]

unfoldable pub ohv_guest_in_monitor : VcpuSlot → Bool
ohv_guest_in_monitor s =
    let pc = load64 s.ctx Rw.pc in
    if s.sptm_base == 0
    then false
    else leb s.sptm_base pc && ltb pc ((s.sptm_base + 0x20000000) % 2 ^ 64)

unfoldable pub ohv_fiq_takeable : VcpuSlot → Bool
ohv_fiq_takeable s =
    s.in_wfx || not (ohv_guest_in_monitor s) && bit_and (load32 s.ctx Rw.cpsr) (2 ^ 6) == 0

unfoldable pub ohv_irq_takeable : VcpuSlot → Bool
ohv_irq_takeable s =
    s.in_wfx || not (ohv_guest_in_monitor s) && bit_and (load32 s.ctx Rw.cpsr) (2 ^ 7) == 0

unfoldable pub ohv_timer_fiq_wanted : Environment → VcpuSlot → Bool
ohv_timer_fiq_wanted e s =
    let mode = ohv_timer_gate_mode e in
    let fired = s.timer_fired_v || s.timer_fired_p in
    if mode == 1
    then fired
    else if mode == 2
    then fired && (not s.guest_at_el2 && not s.nv_off_for_geret)
    else if mode == 3
    then fired && not (ohv_guest_in_monitor s)
    else if mode == 0
    then s.timer_fired_p && not (bit_and s.vm_tmr_fiq_ena 1 == 0)
      || s.timer_fired_v && not (bit_and s.vm_tmr_fiq_ena 2 == 0)
    else if not fired
    then false
    else if s.sptm_base == 0
    then true
    else ohv_fiq_takeable s

unfoldable pub ohv_timer_irq_vcpus : Environment → ℕ
ohv_timer_irq_vcpus e = elim e.timer_irq_vcpus [ none ↦ 0 | some m ↦ m % 2 ^ 64 ]

unfoldable pub ohv_timer_as_irq : Environment → VcpuSlot → Bool
ohv_timer_as_irq e s = ltb s.id 64 && not (bit_and (ohv_timer_irq_vcpus e / 2 ^ s.id) 1 == 0)

-- `hcr_el2 = (hcr & ~bit) | want` and `mark_dirty`, unless the bit is as wanted.
unfoldable pub set_level : Ctx → ℕ → Bool → Ctx
set_level c bit on =
    let hcr = load64 c Controls.hcr_el2 in
    let want = if on then bit else 0 in
    if bit_and hcr bit == want
    then c
    else mark_dirty (store64 c Controls.hcr_el2 (bit_or (bit_and hcr (not64 bit)) want))
        State.controls

-- `want_irq`.
unfoldable pub irq_wanted : Environment → VcpuSlot → Bool
irq_wanted e s =
    (s.vmm_irq || ohv_timer_as_irq e s && ohv_timer_fiq_wanted e s)
    && (s.sptm_base == 0 || e.irq_ungated || ohv_irq_takeable s)

unfoldable pub ohv_set_irq_level : Environment → VcpuSlot → VcpuSlot
ohv_set_irq_level e s = record s { ctx = set_level s.ctx hcr_vi (irq_wanted e s) }

-- `s->timer_fiq` as it is assigned.
unfoldable pub timer_fiq_now : Environment → VcpuSlot → Bool
timer_fiq_now e s = ohv_timer_fiq_wanted e s && not (ohv_timer_as_irq e s)

-- `vmm || s->timer_fiq`.
unfoldable pub fiq_wanted : Environment → VcpuSlot → Bool
fiq_wanted e s =
    s.vmm_fiq && (s.sptm_base == 0 || e.ipi_ungated || ohv_fiq_takeable s) || timer_fiq_now e s

unfoldable pub ohv_set_fiq_level : Environment → VcpuSlot → VcpuSlot
ohv_set_fiq_level e s = record s {
  timer_fiq = timer_fiq_now e s;
  ctx = set_level s.ctx hcr_vf (fiq_wanted e s);
}

-- The slot after the machine asserted or released one of its two lines.
unfoldable pub assert_line : Environment → VcpuSlot → InterruptType → Bool → VcpuSlot
assert_line e s fiq pending = ohv_set_fiq_level e (record s { vmm_fiq = pending })
assert_line e s irq pending = ohv_set_irq_level e (record s { vmm_irq = pending })

unfoldable pub hv_vcpu_get_pending_interrupt : Host → ℕ → InterruptType → Bool → Result Bool
hv_vcpu_get_pending_interrupt h id type out =
    from_owned h id out
      (λ s. ok (not (bit_and (load64 s.ctx Controls.hcr_el2) (pending_bit type) == 0)))

unfoldable pub hv_vcpu_set_pending_interrupt :
    Environment → Host → ℕ → InterruptType → Bool → Host × ℕ
hv_vcpu_set_pending_interrupt e h id type pending =
    with_owned h id (λ s. (assert_line e s type pending, hv_success))

-- The slot after the machine said whether the guest is stopped on a WFI or a WFE.
unfoldable pub park : Environment → VcpuSlot → Bool → VcpuSlot
park e s parked =
    let s' = ohv_set_fiq_level e (record s { in_wfx = parked }) in
    if (s.in_wfx && parked) || (not s.in_wfx && not parked) then s else ohv_set_irq_level e s'

unfoldable pub ohv_vcpu_set_parked : Environment → Host → ℕ → Bool → Host
ohv_vcpu_set_parked e h id parked = elim (owned_vcpu h id) [
  | none ↦ h
  | some s ↦ put_slot h id (park e s parked)
]
