-- ===== src/Vcpu/Nesting/Guarded.antt =====
-- Which exception returns the hardware is handed with HCR_EL2.NV off (`eret_is_guarded` and its use
-- in `exit_from_ro`, src/ohv_vcpu.cpp).
use open_hypervisor.Base.{ℕ, ◌+◌, ◌%◌, ◌^◌, ◌≡◌, ◌⊎◌, ◌∙◌, true, false, bit_and, arith}
use open_hypervisor.Context.{Ctx, IsCtx, load64, store64}
use open_hypervisor.Context.Rw
use open_hypervisor.Context.State
use open_hypervisor.Context.Laws.{load64-lt}
use open_hypervisor.Vm.Kernel.{Trap, vcpu_sysregs_sync}
use open_hypervisor.Vcpu.Slot.{VcpuSlot, mark_slot_dirty}
use open_hypervisor.Vcpu.Environment.{Environment}
use open_hypervisor.Vcpu.Emulation.Transfer.{load64-store64_wrapped}
use open_hypervisor.Vcpu.Nesting.Laws.{nv_bit, mark-Apart, nv_off-Apart, nv_off_lem}
use open_hypervisor.Vcpu.Nesting.{
  elr_el1, spsr_el1, elr_gl1, spsr_gl1, mode_of, spsr_illegal_reason, is_guarded, nv_on, nv_off,
  put_exception, enter_guest_el2, hand_over, put_return, complete_return, synced, soft_return,
  trapped_eret, level_change,
}

-- An AArch64 state of EL0 or EL1.
abbrev pub NamesLower : ℕ → Type 0
NamesLower spsr =
    bit_and spsr 0x10 ≡ 0 × ((mode_of spsr ≡ 0) ⊎ ((mode_of spsr ≡ 4) ⊎ (mode_of spsr ≡ 5)))

guarded-NamesLower : (spsr : ℕ) → is_guarded spsr ≡ true → NamesLower spsr
unfolding is_guarded spsr_illegal_reason
guarded-NamesLower spsr guarded = ground arith

-- What an exit that leaves a return to the hardware has done.
abbrev pub IsHanded : VcpuSlot → Type 0
IsHanded t = NamesLower (load64 t.ctx spsr_el1) × nv_bit t ≡ 0

hand_over-spsr :
    (s : VcpuSlot) (elr spsr : ℕ) → load64 (hand_over s elr spsr).ctx spsr_el1 ≡ spsr % 2 ^ 64
unfolding hand_over
hand_over-spsr s elr spsr =
    let c1 = store64 s.ctx elr_el1 elr in
    let s1 : VcpuSlot = record s { ctx = store64 c1 spsr_el1 spsr } in
    nv_off-Apart (mark_slot_dirty s1 State.sysregs) spsr_el1 (omega arith) (omega arith)
    ∙ mark-Apart s1 State.sysregs spsr_el1 (omega arith)
    ∙ load64-store64_wrapped c1 spsr_el1 spsr

hand_over-nv : (s : VcpuSlot) (elr spsr : ℕ) → nv_bit (hand_over s elr spsr) ≡ 0
unfolding hand_over
hand_over-nv s elr spsr =
    let c = store64 (store64 s.ctx elr_el1 elr) spsr_el1 spsr in
    nv_off_lem (mark_slot_dirty (record s { ctx = c }) State.sysregs)

enter_flag :
    (s : VcpuSlot) (esr pc : ℕ) → (enter_guest_el2 s esr pc).nv_off_for_geret ≡ s.nv_off_for_geret
unfolding enter_guest_el2 put_exception nv_on mark_slot_dirty
enter_flag s esr pc = ground arith

complete_flag : (s : VcpuSlot) → (complete_return s).nv_off_for_geret ≡ s.nv_off_for_geret
unfolding complete_return put_return nv_off mark_slot_dirty
complete_flag s = ground arith

module _ {K : Type 0} (trap : Trap K) (refresh : K → Ctx → Ctx)
    (words : (k : K) (c : Ctx) → IsCtx c → IsCtx (refresh k c)) where
  soft_return_flag :
      (e : Environment) (k : K) (s : VcpuSlot)
      → (soft_return trap refresh e k s).1.nv_off_for_geret ≡ s.nv_off_for_geret
  unfolding soft_return synced
  soft_return_flag e k s =
      let k1 = (trap vcpu_sysregs_sync k).1 in
      ground (arith, complete_flag (record s { ctx = refresh k1 s.ctx }))

  hand_over-IsHanded :
      (s : VcpuSlot)
      → IsCtx s.ctx
      → is_guarded (load64 s.ctx spsr_gl1) ≡ true
      → IsHanded (hand_over s (load64 s.ctx elr_gl1) (load64 s.ctx spsr_gl1))
  hand_over-IsHanded s is guarded =
      let elr = load64 s.ctx elr_gl1 in
      let spsr = load64 s.ctx spsr_gl1 in
      let small : spsr % 2 ^ 64 ≡ spsr = omega (arith, load64-lt s.ctx spsr_gl1 is) in
      let kept : load64 (hand_over s elr spsr).ctx spsr_el1 ≡ spsr =
        hand_over-spsr s elr spsr ∙ small in
      (rw (kept) (guarded-NamesLower spsr guarded), hand_over-nv s elr spsr)

  trapped_eret-IsHanded :
      (e : Environment) (k : K) (s : VcpuSlot)
      → IsCtx s.ctx
      → s.nv_off_for_geret ≡ false
      → (trapped_eret trap refresh e k s).1.nv_off_for_geret ≡ true
      → IsHanded (trapped_eret trap refresh e k s).1
  unfolding trapped_eret synced
  trapped_eret-IsHanded e k s is before after =
      let k1 = (trap vcpu_sysregs_sync k).1 in
      let s1 : VcpuSlot = record s { ctx = refresh k1 s.ctx } in
      ground (
        arith,
        soft_return_flag e k s,
        soft_return_flag e k1 s1,
        hand_over-IsHanded s1 (words k1 s.ctx is),
      )

  -- Where an exit leaves an exception return to the hardware, which `nv_off_for_geret` then says, the
  -- SPSR that it has put there is an AArch64 state of EL0 or EL1, never one of EL2, and HCR_EL2.NV is
  -- off. The kernel's sync is taken to leave the pages what 32-bit cells can hold.
  pub level_change-IsHanded :
      (e : Environment) (k : K) (s : VcpuSlot) (esr : ℕ)
      → IsCtx s.ctx
      → s.nv_off_for_geret ≡ false
      → (level_change trap refresh e k s esr).1.nv_off_for_geret ≡ true
      → IsHanded (level_change trap refresh e k s esr).1
  unfolding level_change
  level_change-IsHanded e k s esr is before after =
      ground
        (arith, enter_flag s esr (load64 s.ctx Rw.pc + 4), trapped_eret-IsHanded e k s is before)
