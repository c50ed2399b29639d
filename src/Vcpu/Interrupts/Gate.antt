-- ===== src/Vcpu/Interrupts/Gate.antt =====
-- When an interrupt level stands: what the machine asserted, held back by the gate.
use open_hypervisor.Base.{◌≡◌, refl, Bool, true, not, ◌&&◌, ◌||◌, arith, ltb}
use open_hypervisor.Context.{IsCtx}
use open_hypervisor.Vcpu.Slot.{VcpuSlot}
use open_hypervisor.Vcpu.Environment.{Environment}
use open_hypervisor.Vcpu.Interrupts.{
  hcr_vf, hcr_vi, InterruptType, irq, fiq, ohv_timer_fiq_wanted, set_level, irq_wanted,
  ohv_set_irq_level, timer_fiq_now, fiq_wanted, ohv_set_fiq_level, assert_line, park,
  ohv_timer_gate_mode,
}
use open_hypervisor.Vcpu.Interrupts.Standing.{
  pstate_f, pstate_i, may_stand, may_stand_same, fiq_takeable_lem, irq_takeable_lem,
}
use open_hypervisor.Vcpu.Interrupts.Levels.{
  is_up, is_up-set_level, set_level-pc, set_level-cpsr, set_level-IsCtx,
}

-- The gates as the source has them by default: no override, and the last timer rule.
abbrev pub gates_on : Environment → Bool
gates_on e = not e.irq_ungated && not e.ipi_ungated && not (ltb (ohv_timer_gate_mode e) 4)

-- A level stands only where it may: bit 6 of HCR_EL2 is the FIQ and bit 7 the IRQ.
unfoldable pub well_gated : VcpuSlot → Bool
well_gated s =
    (not (is_up s.ctx 6) || may_stand pstate_f s) && (not (is_up s.ctx 7) || may_stand pstate_i s)

fiq_wanted_gated :
    (e : Environment) (s : VcpuSlot)
    → gates_on e ≡ true
    → fiq_wanted e s ≡ true
    → may_stand pstate_f s ≡ true
unfolding fiq_wanted timer_fiq_now ohv_timer_fiq_wanted
fiq_wanted_gated e s on wanted = ground (arith, fiq_takeable_lem s)

irq_wanted_gated :
    (e : Environment) (s : VcpuSlot)
    → gates_on e ≡ true
    → irq_wanted e s ≡ true
    → may_stand pstate_i s ≡ true
unfolding irq_wanted
irq_wanted_gated e s on wanted = ground (arith, irq_takeable_lem s)

-- Setting the FIQ level makes it what is wanted and keeps the IRQ level, and the other way round.
pub fiq_level :
    (e : Environment) (s : VcpuSlot)
    → IsCtx s.ctx
    → (is_up (ohv_set_fiq_level e s).ctx 6 ≡ fiq_wanted e s)
      × (is_up (ohv_set_fiq_level e s).ctx 7 ≡ is_up s.ctx 7)
      × (may_stand pstate_f (ohv_set_fiq_level e s) ≡ may_stand pstate_f s)
      × (may_stand pstate_i (ohv_set_fiq_level e s) ≡ may_stand pstate_i s)
unfolding ohv_set_fiq_level
fiq_level e s isctx =
    let c = set_level s.ctx hcr_vf (fiq_wanted e s) in
    let s' : VcpuSlot = record s { timer_fiq = timer_fiq_now e s; ctx = c } in
    let pc = set_level-pc s.ctx hcr_vf (fiq_wanted e s) in
    let cpsr = set_level-cpsr s.ctx hcr_vf (fiq_wanted e s) in
    (
      is_up-set_level s.ctx 6 (fiq_wanted e s) 6 isctx (omega arith) (omega arith) (omega arith),
      is_up-set_level s.ctx 6 (fiq_wanted e s) 7 isctx (omega arith) (omega arith) (omega arith),
      may_stand_same pstate_f s s' pc cpsr refl refl,
      may_stand_same pstate_i s s' pc cpsr refl refl,
    )

pub irq_level :
    (e : Environment) (s : VcpuSlot)
    → IsCtx s.ctx
    → (is_up (ohv_set_irq_level e s).ctx 7 ≡ irq_wanted e s)
      × (is_up (ohv_set_irq_level e s).ctx 6 ≡ is_up s.ctx 6)
      × (may_stand pstate_f (ohv_set_irq_level e s) ≡ may_stand pstate_f s)
      × (may_stand pstate_i (ohv_set_irq_level e s) ≡ may_stand pstate_i s)
unfolding ohv_set_irq_level
irq_level e s isctx =
    let c = set_level s.ctx hcr_vi (irq_wanted e s) in
    let s' : VcpuSlot = record s { ctx = c } in
    let pc = set_level-pc s.ctx hcr_vi (irq_wanted e s) in
    let cpsr = set_level-cpsr s.ctx hcr_vi (irq_wanted e s) in
    (
      is_up-set_level s.ctx 7 (irq_wanted e s) 7 isctx (omega arith) (omega arith) (omega arith),
      is_up-set_level s.ctx 7 (irq_wanted e s) 6 isctx (omega arith) (omega arith) (omega arith),
      may_stand_same pstate_f s s' pc cpsr refl refl,
      may_stand_same pstate_i s s' pc cpsr refl refl,
    )

set_fiq_level-gated :
    (e : Environment) (s : VcpuSlot)
    → gates_on e ≡ true
    → IsCtx s.ctx
    → (not (is_up s.ctx 7) || may_stand pstate_i s) ≡ true
    → well_gated (ohv_set_fiq_level e s) ≡ true
unfolding well_gated ohv_set_fiq_level
set_fiq_level-gated e s on isctx other =
    ground (arith, fiq_level e s isctx, fiq_wanted_gated e s on)

set_irq_level-gated :
    (e : Environment) (s : VcpuSlot)
    → gates_on e ≡ true
    → IsCtx s.ctx
    → (not (is_up s.ctx 6) || may_stand pstate_f s) ≡ true
    → well_gated (ohv_set_irq_level e s) ≡ true
unfolding well_gated ohv_set_irq_level
set_irq_level-gated e s on isctx other =
    ground (arith, irq_level e s isctx, irq_wanted_gated e s on)

pub set_fiq_level-IsCtx :
    (e : Environment) (s : VcpuSlot) → IsCtx s.ctx → IsCtx (ohv_set_fiq_level e s).ctx
unfolding ohv_set_fiq_level
set_fiq_level-IsCtx e s isctx = set_level-IsCtx s.ctx hcr_vf (fiq_wanted e s) isctx

-- Both levels set anew, in the order of the source, leave the slot gated, whatever stood before.
pub refresh-gated :
    (e : Environment) (s : VcpuSlot)
    → gates_on e ≡ true
    → IsCtx s.ctx
    → well_gated (ohv_set_irq_level e (ohv_set_fiq_level e s)) ≡ true
unfolding ohv_set_fiq_level
refresh-gated e s on isctx =
    let s1 = ohv_set_fiq_level e s in
    set_irq_level-gated e s1 on (set_fiq_level-IsCtx e s isctx)
      (ground (arith, fiq_level e s isctx, fiq_wanted_gated e s on))

-- Asserting or releasing a line of the machine never leaves a level standing where the guest
-- would not take it at once, with the gates as they are by default: not while a monitor image
-- runs and not while the flags mask the interrupt, unless the guest is parked or no monitor exists
-- yet.
pub assert_line-gated :
    (e : Environment) (s : VcpuSlot) (type : InterruptType) (pending : Bool)
    → gates_on e ≡ true
    → IsCtx s.ctx
    → well_gated s ≡ true
    → well_gated (assert_line e s type pending) ≡ true
unfolding assert_line well_gated
assert_line-gated e s fiq pending on isctx gated =
    set_fiq_level-gated e (record s { vmm_fiq = pending }) on isctx
      (ground
        (arith, may_stand_same pstate_i s (record s { vmm_fiq = pending }) refl refl refl refl))
assert_line-gated e s irq pending on isctx gated =
    set_irq_level-gated e (record s { vmm_irq = pending }) on isctx
      (ground
        (arith, may_stand_same pstate_f s (record s { vmm_irq = pending }) refl refl refl refl))

-- The machine's word that the guest is stopped, or no longer is, keeps it so too: with the gates
-- as they are by default no level stands that the guest would not take at once, unless no
-- monitor exists yet.
pub park-gated :
    (e : Environment) (s : VcpuSlot) (parked : Bool)
    → gates_on e ≡ true
    → IsCtx s.ctx
    → well_gated s ≡ true
    → well_gated (park e s parked) ≡ true
unfolding park
park-gated e s parked on isctx gated =
    ground (arith, refresh-gated e (record s { in_wfx = parked }) on isctx)
