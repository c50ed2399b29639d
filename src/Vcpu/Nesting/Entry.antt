-- ===== src/Vcpu/Nesting/Entry.antt =====
-- What entering a guest hypervisor leaves in its return pair (`enter_guest_el2`,
-- src/ohv_vcpu.cpp).
use open_hypervisor.Base.{ℕ, ◌+◌, ◌%◌, ◌^◌, ◌≡◌, ap, ◌∙◌, arith}
use open_hypervisor.Context.{IsCtx, load32, store32, load64, store64}
use open_hypervisor.Context.Rw
use open_hypervisor.Context.State
use open_hypervisor.Context.Laws.{
  load32-lt, load64-store64-Apart, load64-store32_apart, load32-store64_apart,
}
use open_hypervisor.Vcpu.Slot.{VcpuSlot, mark_slot_dirty}
use open_hypervisor.Vcpu.Emulation.Transfer.{load64-store64_wrapped}
use open_hypervisor.Vcpu.Nesting.Laws.{mark-Apart, nv_on-Apart}
use open_hypervisor.Vcpu.Nesting.{
  vbar_el2, elr_el1, esr_el1, spsr_el1, put_exception, enter_guest_el2,
}

-- What entering the guest's EL2 leaves in its return pair.
pub enter-elr :
    (s : VcpuSlot) (esr pc : ℕ) → load64 (enter_guest_el2 s esr pc).ctx elr_el1 ≡ pc % 2 ^ 64
unfolding enter_guest_el2 put_exception
enter-elr s esr pc =
    let c1 = store64 s.ctx elr_el1 pc in
    let c2 = store64 c1 esr_el1 esr in
    let c3 = store64 c2 spsr_el1 (load32 c2 Rw.cpsr) in
    let s1 : VcpuSlot = mark_slot_dirty (record s { ctx = c3 }) State.sysregs in
    let entry = load64 s.ctx vbar_el2 + 0x400 in
    let c4 = store64 s1.ctx Rw.pc entry in
    nv_on-Apart (record s1 { ctx = store32 c4 Rw.cpsr 0x3c5 }) elr_el1 (omega arith) (omega arith)
    ∙ load64-store32_apart c4 Rw.cpsr elr_el1 0x3c5 (omega arith)
    ∙ load64-store64-Apart s1.ctx Rw.pc elr_el1 entry (omega arith)
    ∙ mark-Apart (record s { ctx = c3 }) State.sysregs elr_el1 (omega arith)
    ∙ load64-store64-Apart c2 spsr_el1 elr_el1 (load32 c2 Rw.cpsr) (omega arith)
    ∙ load64-store64-Apart c1 esr_el1 elr_el1 esr (omega arith)
    ∙ load64-store64_wrapped s.ctx elr_el1 pc

pub enter-spsr :
    (s : VcpuSlot) (esr pc : ℕ)
    → IsCtx s.ctx
    → load64 (enter_guest_el2 s esr pc).ctx spsr_el1 ≡ load32 s.ctx Rw.cpsr
unfolding enter_guest_el2 put_exception
enter-spsr s esr pc is =
    let c1 = store64 s.ctx elr_el1 pc in
    let c2 = store64 c1 esr_el1 esr in
    let c3 = store64 c2 spsr_el1 (load32 c2 Rw.cpsr) in
    let s1 : VcpuSlot = mark_slot_dirty (record s { ctx = c3 }) State.sysregs in
    let entry = load64 s.ctx vbar_el2 + 0x400 in
    let c4 = store64 s1.ctx Rw.pc entry in
    let same : load32 c2 Rw.cpsr ≡ load32 s.ctx Rw.cpsr =
      load32-store64_apart c1 esr_el1 Rw.cpsr esr (omega arith)
      ∙ load32-store64_apart s.ctx elr_el1 Rw.cpsr pc (omega arith) in
    nv_on-Apart (record s1 { ctx = store32 c4 Rw.cpsr 0x3c5 }) spsr_el1 (omega arith) (omega arith)
    ∙ load64-store32_apart c4 Rw.cpsr spsr_el1 0x3c5 (omega arith)
    ∙ load64-store64-Apart s1.ctx Rw.pc spsr_el1 entry (omega arith)
    ∙ mark-Apart (record s { ctx = c3 }) State.sysregs spsr_el1 (omega arith)
    ∙ load64-store64_wrapped c2 spsr_el1 (load32 c2 Rw.cpsr)
    ∙ ap (λ (t : ℕ). t % 2 ^ 64) same
    ∙ ground (arith, load32-lt s.ctx Rw.cpsr is)
