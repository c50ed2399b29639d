-- ===== src/Vcpu/Exit.antt =====
-- What becomes of an exit of the guest (`exit_from_ro`, src/ohv_vcpu.cpp). The traces are left out,
-- and with them the statics that only feed them. A sync leaves the record of the exit as it is, so
-- its words are read once.
pub mod Laws
pub mod Kept
use open_hypervisor.Base.{
  ℕ, ◌+◌, ◌*◌, ◌/◌, ◌%◌, ◌^◌, Bool, true, false, not, ◌&&◌, ◌||◌, none, some, bit_and, bit_or, leb,
  ◌==◌, if◌then◌else◌,
}
use open_hypervisor.Base.Bits.{not64}
use open_hypervisor.Context.{Ctx, load32, load64, store64}
use open_hypervisor.Context.Rw
use open_hypervisor.Context.Ro
use open_hypervisor.Context.Controls
use open_hypervisor.Context.State
use open_hypervisor.Hv.{hv_unsupported, Result, ok}
use open_hypervisor.Host.{Host, from_owned}
use open_hypervisor.Vm.Maps.{guest_ptr}
use open_hypervisor.Vm.Kernel.{Trap}
use open_hypervisor.Vcpu.Slot.{VcpuSlot, mark_slot_dirty}
use open_hypervisor.Vcpu.Environment.{Environment}
use open_hypervisor.Vcpu.Controls.{timer_mask}
use open_hypervisor.Vcpu.Syndrome.{synth_msr_trap_syndrome}
use open_hypervisor.Vcpu.Stage1.{banked}
use open_hypervisor.Vcpu.Emulation.Transfer.{step_pc}
use open_hypervisor.Vcpu.Emulation.Service.{Surroundings, service_nv2_access, hcr_nv}
use open_hypervisor.Vcpu.Nesting.{
  elr_el1, spsr_el1, elr_gl1, spsr_gl1, nv_on, leave_guarded, synced, level_change,
}

-- `hv_exit_reason_t`.
abbrev pub exit_canceled : ℕ
exit_canceled = 0

abbrev pub exit_exception : ℕ
exit_exception = 1

abbrev pub exit_vtimer_activated : ℕ
exit_vtimer_activated = 2

abbrev pub exit_unknown : ℕ
exit_unknown = 3

-- The reasons of the kernel that the switch names by their constant.
abbrev pub vmexit_sync : ℕ
vmexit_sync = 1

abbrev pub vmexit_serror : ℕ
vmexit_serror = 2

abbrev pub vmexit_msr_trap : ℕ
vmexit_msr_trap = 8

abbrev pub class_of : ℕ → ℕ
class_of esr = bit_and (esr / 2 ^ 26) 0x3f

-- `EXIT_KEEP_RUNNING`, or `EXIT_TO_VMM` with the reason and the syndrome that are told.
pub data ExitAction : Type 0 where
  keep_running : ExitAction
  to_vmm : ℕ → ℕ → ExitAction

-- GEXIT, 0x00201400, read where the guest stopped.
unfoldable pub synth_guarded_exit_syndrome : (ℕ → ℕ) → Host → VcpuSlot → ℕ → ℕ
synth_guarded_exit_syndrome memory h s syndrome = elim (guest_ptr h.maps (load64 s.ctx Rw.pc) 4) [
  | none ↦ syndrome
  | some p ↦
      if p == 0
      then syndrome
      else if memory p == 0x00201400
      then 0x3f * 2 ^ 26 + 2 ^ 25 + 0x22
      else syndrome
]

-- The guarded return pair, copied to where an ERET of the hardware looks for one.
unfoldable pub mirrored : VcpuSlot → VcpuSlot
mirrored s =
    let gelr = load64 s.ctx elr_gl1 in
    let gspsr = load64 s.ctx spsr_gl1 in
    let c = store64 (store64 s.ctx elr_el1 gelr) spsr_el1 gspsr in
    if gelr == 0 || gspsr == 0
    then s
    else if load64 s.ctx elr_el1 == gelr && load64 s.ctx spsr_el1 == gspsr
    then s
    else mark_slot_dirty (record s { ctx = c }) State.sysregs

-- NV comes back on while the monitor runs.
unfoldable pub monitor_nv : Environment → VcpuSlot → VcpuSlot
monitor_nv e s =
    if not e.no_monitor_nv
      && (leb 0xfffffff000000000 (load64 s.ctx Rw.pc)
          && bit_and (load64 s.ctx Controls.hcr_el2) hcr_nv == 0)
    then nv_on s
    else s

-- A physical interrupt: the virtual timer's, where that is enabled, due and not masked yet.
unfoldable pub physical_interrupt : VcpuSlot → ℕ → VcpuSlot × ExitAction
physical_interrupt s esr =
    let timer = load64 s.ctx Rw.timer in
    if bit_and timer timer_mask == 0 && load64 s.ctx (banked 18) == 5
    then (
      record s { ctx = store64 s.ctx Rw.timer (bit_or timer timer_mask) },
      to_vmm exit_vtimer_activated esr,
    )
    else (s, to_vmm exit_unknown esr)

-- The address of the fault: its page is the kernel's word, the offset is FAR's.
unfoldable pub fault_address : ℕ → ℕ → ℕ
fault_address hpfar far = bit_or (bit_and hpfar (not64 0xfff)) (bit_and far 0xfff)

-- `pub_exit`, and whether the VMM is told. The code fills it in before the switch, which does not
-- look at it.
unfoldable pub report : ExitAction → ℕ → ℕ → ℕ → VcpuSlot → VcpuSlot × Bool
report keep_running esr far hpfar s = (
  record s {
    exit_syndrome = esr;
    exit_virtual_address = far;
    exit_physical_address = fault_address hpfar far;
  },
  false,
)
report (to_vmm reason syndrome) esr far hpfar s = (
  record s {
    exit_reason = reason;
    exit_syndrome = syndrome;
    exit_virtual_address = far;
    exit_physical_address = fault_address hpfar far;
  },
  true,
)

module _ (h : Host) (m : Surroundings) where
  -- The syndrome of an exception that is passed on: where the kernel gave none, one is built. The
  -- instruction is the lower half of the word of memory.
  unfoldable pub told_syndrome : VcpuSlot → ℕ → ℕ → ℕ
  told_syndrome s reason esr =
      let host : Host = record h { maps = m.maps } in
      let word : ℕ → ℕ = λ p. m.memory p % 2 ^ 32 in
      if not (esr == 0)
      then esr
      else if reason == vmexit_msr_trap
      then synth_msr_trap_syndrome word host s esr
      else if reason == vmexit_sync
      then synth_guarded_exit_syndrome word host s esr
      else esr

  -- Case 6.
  unfoldable pub exception : VcpuSlot → ℕ → ℕ → ExitAction
  exception s reason esr = to_vmm exit_exception (told_syndrome s reason esr)

  module _ {K : Type 0} (trap : Trap K) (refresh : K → Ctx → Ctx) (e : Environment) where
    unfoldable pub mirror_gl1 : K → VcpuSlot → ℕ → K × VcpuSlot
    mirror_gl1 k s esr =
        let (k', s') = synced trap refresh k s in
        if e.mirror_gl1 && class_of esr == 0x18 then (k', mirrored s') else (k, s)

    -- Case 1, which a register access that is not carried out falls through to.
    unfoldable pub synchronous : K → VcpuSlot → ℕ → ℕ → K × VcpuSlot × ExitAction
    synchronous k s reason esr =
        let (k', s', going) = level_change trap refresh e k s esr in
        if e.spin_wfi && class_of esr == 1
        then (k, step_pc s, keep_running)
        else if going
        then (k', s', keep_running)
        else (k', s', exception s' reason esr)

    -- The case of a trapped register access.
    unfoldable pub msr_trap : K → VcpuSlot → ℕ → ℕ → K × VcpuSlot × ℕ × ExitAction
    msr_trap k s held esr =
        let o = service_nv2_access e m s held esr in
        let (k1, s1, a1) = synchronous k s vmexit_msr_trap esr in
        let (k2, s2, a2) = synchronous k o.slot vmexit_msr_trap esr in
        if not (class_of esr == 0x18)
        then (k1, s1, held, a1)
        else if o.served
        then (k, o.slot, o.held, keep_running)
        else (k2, s2, o.held, a2)

    -- The switch.
    unfoldable pub exit_switch : K → VcpuSlot → ℕ → ℕ → ℕ → K × VcpuSlot × ℕ × ExitAction
    exit_switch k s held reason esr =
        let (si, ai) = physical_interrupt s esr in
        let (k1, s1, a1) = synchronous k s reason esr in
        if reason == 0
        then (k, s, held, to_vmm exit_canceled esr)
        else if reason == vmexit_serror || (reason == 7 || (reason == 11 || reason == 12))
        then (k, s, held, keep_running)
        else if reason == 3 || reason == 4
        then (k, si, held, ai)
        else if reason == vmexit_msr_trap
        then msr_trap k s held esr
        else if reason == vmexit_sync
        then (k1, s1, held, a1)
        else if reason == 6
        then (k, s, held, exception s reason esr)
        else (k, s, held, to_vmm exit_unknown esr)

    -- What comes before the switch.
    unfoldable pub exit_prelude : K → VcpuSlot → ℕ → K × VcpuSlot
    exit_prelude k s esr =
        let (k', s') = mirror_gl1 k (leave_guarded s esr) esr in (k', monitor_nv e s')

    -- The whole of it; the last component says whether the VMM is told.
    unfoldable pub exit_from_ro : K → VcpuSlot → ℕ → K × VcpuSlot × ℕ × Bool
    exit_from_ro k s held =
        let esr = load64 s.ctx Ro.exit_esr in
        let far = load64 s.ctx Ro.exit_far in
        let hpfar = load64 s.ctx Ro.exit_hpfar in
        let reason = load32 s.ctx Ro.exit_reason in
        let (k1, s1) = exit_prelude k s esr in
        let (k2, s2, held2, action) = exit_switch k1 s1 held reason esr in
        let (s3, told) = report action esr far hpfar s2 in (k2, s3, held2, told)

-- `hv_vcpu_get_serror`: whether the last exit was for an SError. None can be injected.
unfoldable pub hv_vcpu_get_serror : Host → ℕ → Bool → Result Bool
hv_vcpu_get_serror h id out =
    from_owned h id out (λ s. ok (load32 s.ctx Ro.exit_reason == vmexit_serror))

abbrev pub hv_vcpu_set_serror : ℕ → Bool → ℕ
hv_vcpu_set_serror id pending = hv_unsupported
