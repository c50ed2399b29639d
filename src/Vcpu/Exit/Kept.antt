-- ===== src/Vcpu/Exit/Kept.antt =====
-- What the handling of an exit leaves of the slot beside the guest (`exit_from_ro`,
-- src/ohv_vcpu.cpp): the request for an exit, the count of entries and whether the slot is in use.
pub mod Entry
pub mod Served
use open_hypervisor.Base.{ℕ, ◌+◌, refl, arith}
use open_hypervisor.Context.{Ctx, load32, load64}
use open_hypervisor.Context.Controls
use open_hypervisor.Context.Rw
use open_hypervisor.Context.Ro
use open_hypervisor.Host.{Host}
use open_hypervisor.Vm.Kernel.{Trap, vcpu_sysregs_sync}
use open_hypervisor.Vcpu.Slot.{VcpuSlot, mark_slot_dirty}
use open_hypervisor.Vcpu.Environment.{Environment}
use open_hypervisor.Vcpu.Emulation.Transfer.{step_pc}
use open_hypervisor.Vcpu.Emulation.Service.{Surroundings, service_nv2_access}
use open_hypervisor.Vcpu.Nesting.{
  elr_gl1, spsr_gl1, nv_on, nv_off, put_exception, enter_guest_el2, leave_guarded, hand_over,
  put_return, complete_return, synced, soft_return, trapped_eret, level_change,
}
use open_hypervisor.Vcpu.Exit.{
  ExitAction, keep_running, to_vmm, report, vmexit_msr_trap, mirrored, monitor_nv,
  physical_interrupt, mirror_gl1, synchronous, msr_trap, exit_switch, exit_prelude, exit_from_ro,
}
use open_hypervisor.Vcpu.Exit.Kept.Entry.{Kept, Kept-trans}
use open_hypervisor.Vcpu.Exit.Kept.Served.{service-Kept}

-- The changes of level.
nv_on-Kept : (s : VcpuSlot) → Kept s (nv_on s)
unfolding nv_on mark_slot_dirty
nv_on-Kept s = ground arith

enter-Kept : (s : VcpuSlot) (esr pc : ℕ) → Kept s (enter_guest_el2 s esr pc)
unfolding enter_guest_el2 put_exception nv_on mark_slot_dirty
enter-Kept s esr pc = ground arith

hand_over-Kept : (s : VcpuSlot) (elr spsr : ℕ) → Kept s (hand_over s elr spsr)
unfolding hand_over nv_off mark_slot_dirty
hand_over-Kept s elr spsr = ground arith

complete-Kept : (s : VcpuSlot) → Kept s (complete_return s)
unfolding complete_return put_return nv_off mark_slot_dirty
complete-Kept s = ground arith

leave_guarded-Kept : (s : VcpuSlot) (esr : ℕ) → Kept s (leave_guarded s esr)
unfolding leave_guarded
leave_guarded-Kept s esr = ground (arith, nv_on-Kept s)

monitor_nv-Kept : (e : Environment) (s : VcpuSlot) → Kept s (monitor_nv e s)
unfolding monitor_nv
monitor_nv-Kept e s = ground (arith, nv_on-Kept s)

mirrored-Kept : (s : VcpuSlot) → Kept s (mirrored s)
unfolding mirrored mark_slot_dirty
mirrored-Kept s = ground arith

physical_interrupt-Kept : (s : VcpuSlot) (esr : ℕ) → Kept s (physical_interrupt s esr).0
unfolding physical_interrupt
physical_interrupt-Kept s esr = ground arith

report-Kept :
    (a : ExitAction) (esr far hpfar : ℕ) (s : VcpuSlot) → Kept s (report a esr far hpfar s).0
unfolding report
report-Kept keep_running esr far hpfar s = (refl, refl, refl)
report-Kept (to_vmm _ _) esr far hpfar s = (refl, refl, refl)

module _ {K : Type 0} (trap : Trap K) (refresh : K → Ctx → Ctx) where
  soft_return-Kept :
      (e : Environment) (k : K) (s : VcpuSlot) → Kept s (soft_return trap refresh e k s).1
  unfolding soft_return synced
  soft_return-Kept e k s =
      let k1 = (trap vcpu_sysregs_sync k).1 in
      ground (arith, complete-Kept (record s { ctx = refresh k1 s.ctx }))

  trapped_eret-Kept :
      (e : Environment) (k : K) (s : VcpuSlot) → Kept s (trapped_eret trap refresh e k s).1
  unfolding trapped_eret synced
  trapped_eret-Kept e k s =
      let k1 = (trap vcpu_sysregs_sync k).1 in
      let s1 : VcpuSlot = record s { ctx = refresh k1 s.ctx } in
      ground (
        arith,
        soft_return-Kept e k s,
        soft_return-Kept e k1 s1,
        hand_over-Kept s1 (load64 s1.ctx elr_gl1) (load64 s1.ctx spsr_gl1),
      )

  level_change-Kept :
      (e : Environment) (k : K) (s : VcpuSlot) (esr : ℕ)
      → Kept s (level_change trap refresh e k s esr).1
  unfolding level_change
  level_change-Kept e k s esr =
      ground (arith, enter-Kept s esr (load64 s.ctx Rw.pc + 4), trapped_eret-Kept e k s)

  module _ (h : Host) (m : Surroundings) (e : Environment) where
    synchronous-Kept :
        (k : K) (s : VcpuSlot) (reason esr : ℕ)
        → Kept s (synchronous h m trap refresh e k s reason esr).1
    unfolding synchronous step_pc
    synchronous-Kept k s reason esr = ground (arith, level_change-Kept e k s esr)

    msr_trap-Kept :
        (k : K) (s : VcpuSlot) (held esr : ℕ) → Kept s (msr_trap h m trap refresh e k s held esr).1
    unfolding msr_trap
    msr_trap-Kept k s held esr =
        let o = (service_nv2_access e m s held esr).slot in
        ground (
          arith,
          service-Kept e m s held esr,
          synchronous-Kept k s vmexit_msr_trap esr,
          synchronous-Kept k o vmexit_msr_trap esr,
        )

    exit_switch-Kept :
        (k : K) (s : VcpuSlot) (held reason esr : ℕ)
        → Kept s (exit_switch h m trap refresh e k s held reason esr).1
    unfolding exit_switch
    exit_switch-Kept k s held reason esr = ground (
      arith,
      physical_interrupt-Kept s esr,
      msr_trap-Kept k s held esr,
      synchronous-Kept k s reason esr,
    )

    exit_prelude-Kept :
        (k : K) (s : VcpuSlot) (esr : ℕ) → Kept s (exit_prelude h m trap refresh e k s esr).1
    unfolding exit_prelude mirror_gl1 synced
    exit_prelude-Kept k s esr =
        let s1 = leave_guarded s esr in
        let k2 = (trap vcpu_sysregs_sync k).1 in
        let s2 : VcpuSlot = record s1 { ctx = refresh k2 s1.ctx } in
        ground (
          arith,
          leave_guarded-Kept s esr,
          mirrored-Kept s2,
          monitor_nv-Kept e s1,
          monitor_nv-Kept e (mirrored s2),
        )

    pub exit_from_ro-Kept :
        (k : K) (s : VcpuSlot) (held : ℕ) → Kept s (exit_from_ro h m trap refresh e k s held).1
    unfolding exit_from_ro
    exit_from_ro-Kept k s held =
        let esr = load64 s.ctx Ro.exit_esr in
        let far = load64 s.ctx Ro.exit_far in
        let hpfar = load64 s.ctx Ro.exit_hpfar in
        let reason = load32 s.ctx Ro.exit_reason in
        let (k1, s1) = exit_prelude h m trap refresh e k s esr in
        let (k2, s2, held2, action) = exit_switch h m trap refresh e k1 s1 held reason esr in
        Kept-trans s s2 (report action esr far hpfar s2).0
          (Kept-trans s s1 s2 (exit_prelude-Kept k s esr) (exit_switch-Kept k1 s1 held reason esr))
          (report-Kept action esr far hpfar s2)
