-- ===== src/Vcpu/Interrupts/Pending.antt =====
-- What a caller sees of the two lines: the level that it reads back, and that an interrupt which
-- the gate held back is offered when the guest stops to wait.
use open_hypervisor.Base.{
  ℕ, ◌≡◌, refl, ap, ◌∙◌, Bool, true, false, arith, some, Bool-cases, inl, inr,
}
use open_hypervisor.Context.{IsCtx}
use open_hypervisor.Hv.{ok}
use open_hypervisor.Host.{Host, owned_vcpu}
use open_hypervisor.Host.Laws.{owned_vcpu_found, owned_vcpu-put_slot}
use open_hypervisor.Vcpu.Slot.{VcpuSlot}
use open_hypervisor.Vcpu.Environment.{Environment}
use open_hypervisor.Vcpu.Interrupts.{
  InterruptType, hcr_vi, irq, fiq, pending_bit, ohv_fiq_takeable, ohv_irq_takeable, irq_wanted,
  ohv_set_irq_level, fiq_wanted, ohv_set_fiq_level, assert_line, hv_vcpu_get_pending_interrupt,
  hv_vcpu_set_pending_interrupt, park, ohv_vcpu_set_parked,
}
use open_hypervisor.Vcpu.Interrupts.Levels.{is_up, set_level-IsCtx}
use open_hypervisor.Vcpu.Interrupts.Gate.{fiq_level, irq_level, set_fiq_level-IsCtx}
use open_hypervisor.Vcpu.Interrupts.Granted.{wanted_level}

abbrev pub other : InterruptType → InterruptType
other irq = fiq
other fiq = irq

abbrev pub level_of : VcpuSlot → InterruptType → Bool
level_of s irq = is_up s.ctx 7
level_of s fiq = is_up s.ctx 6

get_pending_lem :
    (h : Host) (id : ℕ) (type : InterruptType) (s : VcpuSlot)
    → owned_vcpu h id ≡ some s
    → hv_vcpu_get_pending_interrupt h id type true ≡ ok (level_of s type)
unfolding hv_vcpu_get_pending_interrupt pending_bit is_up
get_pending_lem h id irq s owned = ground arith
get_pending_lem h id fiq s owned = ground arith

assert_line_lem :
    (e : Environment) (s : VcpuSlot) (type : InterruptType) (pending : Bool)
    → IsCtx s.ctx
    → (level_of (assert_line e s type pending) type ≡ wanted_level e s type pending)
      × (level_of (assert_line e s type pending) (other type) ≡ level_of s (other type))
      × ((assert_line e s type pending).used ≡ s.used)
      × ((assert_line e s type pending).in_wfx ≡ s.in_wfx)
unfolding assert_line ohv_set_fiq_level ohv_set_irq_level
assert_line_lem e s irq pending isctx =
    let l = irq_level e (record s { vmm_irq = pending }) isctx in (l.0, l.1, refl, refl)
assert_line_lem e s fiq pending isctx =
    let l = fiq_level e (record s { vmm_fiq = pending }) isctx in (l.0, l.1, refl, refl)

-- A parked guest takes whatever is asserted.
irq_wanted-parked :
    (e : Environment) (s : VcpuSlot) → s.vmm_irq ≡ true → s.in_wfx ≡ true → irq_wanted e s ≡ true
unfolding irq_wanted ohv_irq_takeable
irq_wanted-parked e s asserted parked = ground arith

fiq_wanted-parked :
    (e : Environment) (s : VcpuSlot) → s.vmm_fiq ≡ true → s.in_wfx ≡ true → fiq_wanted e s ≡ true
unfolding fiq_wanted ohv_fiq_takeable
fiq_wanted-parked e s asserted parked = ground arith

-- The two levels after both were set.
refresh_levels :
    (e : Environment) (s : VcpuSlot)
    → IsCtx s.ctx
    → let s' = ohv_set_irq_level e (ohv_set_fiq_level e s) in
      (level_of s' irq ≡ irq_wanted e (ohv_set_fiq_level e s)) × (level_of s' fiq ≡ fiq_wanted e s)
refresh_levels e s isctx =
    let s1 = ohv_set_fiq_level e s in
    let i = irq_level e s1 (set_fiq_level-IsCtx e s isctx) in (i.0, i.1 ∙ (fiq_level e s isctx).0)

park-used : (e : Environment) (s : VcpuSlot) (parked : Bool) → (park e s parked).used ≡ s.used
unfolding park ohv_set_fiq_level ohv_set_irq_level
park-used e s parked = ground arith

park_stays : (e : Environment) (s : VcpuSlot) → s.in_wfx ≡ true → park e s true ≡ s
unfolding park
park_stays e s w = ground arith

park_moves :
    (e : Environment) (s : VcpuSlot)
    → s.in_wfx ≡ false
    → park e s true ≡ ohv_set_irq_level e (ohv_set_fiq_level e (record s { in_wfx = true }))
unfolding park
park_moves e s w = ground arith

assert_line-IsCtx :
    (e : Environment) (s : VcpuSlot) (type : InterruptType)
    → IsCtx s.ctx
    → IsCtx (assert_line e s type true).ctx
unfolding assert_line ohv_set_irq_level
assert_line-IsCtx e s irq isctx =
    set_level-IsCtx s.ctx hcr_vi (irq_wanted e (record s { vmm_irq = true })) isctx
assert_line-IsCtx e s fiq isctx = set_fiq_level-IsCtx e (record s { vmm_fiq = true }) isctx

-- The latched line itself.
line_of : VcpuSlot → InterruptType → Bool
line_of s irq = s.vmm_irq
line_of s fiq = s.vmm_fiq

moved-level :
    (e : Environment) (s : VcpuSlot) (type : InterruptType)
    → IsCtx s.ctx
    → line_of s type ≡ true
    → s.in_wfx ≡ true
    → level_of (ohv_set_irq_level e (ohv_set_fiq_level e s)) type ≡ true
unfolding line_of ohv_set_fiq_level
moved-level e s irq isctx line w =
    (refresh_levels e s isctx).0 ∙ irq_wanted-parked e (ohv_set_fiq_level e s) line w
moved-level e s fiq isctx line w = (refresh_levels e s isctx).1 ∙ fiq_wanted-parked e s line w

asserted-line :
    (e : Environment) (s : VcpuSlot) (type : InterruptType)
    → line_of (assert_line e s type true) type ≡ true
unfolding line_of assert_line ohv_set_fiq_level ohv_set_irq_level
asserted-line e s irq = refl
asserted-line e s fiq = refl

wanted_level-parked :
    (e : Environment) (s : VcpuSlot) (type : InterruptType)
    → s.in_wfx ≡ true
    → wanted_level e s type true ≡ true
wanted_level-parked e s irq w = irq_wanted-parked e (record s { vmm_irq = true }) refl w
wanted_level-parked e s fiq w = fiq_wanted-parked e (record s { vmm_fiq = true }) refl w

park-level :
    (e : Environment) (s : VcpuSlot) (type : InterruptType)
    → IsCtx s.ctx
    → level_of (park e (assert_line e s type true) true) type ≡ true
unfolding line_of
park-level e s type isctx =
    let t = assert_line e s type true in
    let a = assert_line_lem e s type true isctx in
    elim (Bool-cases s.in_wfx) [
      | inl w ↦ rw (park_stays e t (a.3 ∙ w)) (a.0 ∙ wanted_level-parked e s type w)
      | inr w ↦ rw (park_moves e t (a.3 ∙ w)) (
          moved-level e (record t { in_wfx = true }) type (assert_line-IsCtx e s type isctx)
            (asserted-line e s type) refl)
    ]

-- No interrupt is lost to the gate: one that was asserted for a vCPU that the calling thread may
-- use, however the gate answered then, stands once the machine has said that the guest is
-- stopped on a WFI or a WFE.
pub get_pending-parked :
    (e : Environment) (h : Host) (id : ℕ) (type : InterruptType) (s : VcpuSlot)
    → owned_vcpu h id ≡ some s
    → IsCtx s.ctx
    → let h' = (hv_vcpu_set_pending_interrupt e h id type true).0 in
      hv_vcpu_get_pending_interrupt (ohv_vcpu_set_parked e h' id true) id type true ≡ ok true
unfolding hv_vcpu_set_pending_interrupt ohv_vcpu_set_parked
get_pending-parked e h id type s owned isctx =
    let s' = assert_line e s type true in
    let h' = (hv_vcpu_set_pending_interrupt e h id type true).0 in
    let h'' = ohv_vcpu_set_parked e h' id true in
    let a = assert_line_lem e s type true isctx in
    let found : owned_vcpu h' id ≡ some s' =
      ground (arith, owned_vcpu_found h id s owned, owned_vcpu-put_slot h id id s s' owned, a) in
    let found' : owned_vcpu h'' id ≡ some (park e s' true) = ground (
      arith,
      owned_vcpu_found h' id s' found,
      owned_vcpu-put_slot h' id id s' (park e s' true) found,
      park-used e s' true,
    ) in
    get_pending_lem h'' id type (park e s' true) found'
    ∙ ap (λ (b : Bool). ok b) (park-level e s type isctx)
