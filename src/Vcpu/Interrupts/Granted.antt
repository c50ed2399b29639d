-- ===== src/Vcpu/Interrupts/Granted.antt =====
-- The level that a line is due, by the guest's state and the requests alone, and that it is the one
-- which the code sets (`ohv_set_irq_level`, `ohv_set_fiq_level`, src/ohv_vcpu.cpp).
use open_hypervisor.Base.{◌≡◌, refl, Bool, true, not, ◌&&◌, ◌||◌, arith}
use open_hypervisor.Vcpu.Slot.{VcpuSlot}
use open_hypervisor.Vcpu.Environment.{Environment}
use open_hypervisor.Vcpu.Interrupts.{
  InterruptType, irq, fiq, irq_wanted, timer_fiq_now, ohv_timer_fiq_wanted, fiq_wanted,
}
use open_hypervisor.Vcpu.Interrupts.Gate.{gates_on}
use open_hypervisor.Vcpu.Interrupts.Standing.{
  pstate_f, pstate_i, may_stand, timer_by_irq, fiq_takeable_lem, irq_takeable_lem, timer_as_irq_lem,
  may_stand_same,
}

-- The level that the code sets once the line is at `pending`.
abbrev pub wanted_level : Environment → VcpuSlot → InterruptType → Bool → Bool
wanted_level e s irq pending = irq_wanted e (record s { vmm_irq = pending })
wanted_level e s fiq pending = fiq_wanted e (record s { vmm_fiq = pending })

-- A guest timer has fired and the FIQ that it raises may stand.
abbrev pub timer_stands : VcpuSlot → Bool
timer_stands s = (s.timer_fired_v || s.timer_fired_p) && may_stand pstate_f s

-- The level that a line is due once the machine has it at `pending`: the machine's own request and
-- that of the guest's timers, which the environment routes to one of the two, each held back where
-- it may not stand.
abbrev pub granted_level : Environment → VcpuSlot → InterruptType → Bool → Bool
granted_level e s irq pending =
    (pending || timer_by_irq e s && timer_stands s) && may_stand pstate_i s
granted_level e s fiq pending =
    pending && may_stand pstate_f s || timer_stands s && not (timer_by_irq e s)

pub granted_level_lem :
    (e : Environment) (s : VcpuSlot) (type : InterruptType) (pending : Bool)
    → gates_on e ≡ true
    → wanted_level e s type pending ≡ granted_level e s type pending
unfolding irq_wanted fiq_wanted timer_fiq_now ohv_timer_fiq_wanted
granted_level_lem e s irq pending on =
    let s' : VcpuSlot = record s { vmm_irq = pending } in
    ground (
      arith,
      irq_takeable_lem s',
      fiq_takeable_lem s',
      timer_as_irq_lem e s',
      may_stand_same pstate_i s s' refl refl refl refl,
      may_stand_same pstate_f s s' refl refl refl refl,
    )
granted_level_lem e s fiq pending on =
    let s' : VcpuSlot = record s { vmm_fiq = pending } in
    ground (
      arith,
      fiq_takeable_lem s',
      timer_as_irq_lem e s',
      may_stand_same pstate_f s s' refl refl refl refl,
    )
