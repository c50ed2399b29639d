-- ===== src/Vcpu/Nesting/Laws.antt =====
-- What the changes of level of a guest hypervisor keep (`enter_guest_el2` and the cases of
-- `exit_from_ro`, src/ohv_vcpu.cpp).
use open_hypervisor.Base.{
  ℕ, ◌+◌, ◌≡◌, ◌-◌, refl, ap, ◌∙◌, Bool, true, false, not, ◌||◌, bit_and, bit_or, arith, ◌==◌,
}
use open_hypervisor.Base.Bits.{
  bit_at, bit_at-or, bit_at-and, not64, bit_at-le-one, bit_at-one_hot, bit_at-complement,
}
use open_hypervisor.Context.{Ctx, load32, store32, load64, store64}
use open_hypervisor.Context.Rw
use open_hypervisor.Context.Controls
use open_hypervisor.Context.State
use open_hypervisor.Context.Laws.{
  Apart, load64-store64-Apart, load64-mark_dirty, load64-store32_apart, load32-store64_apart,
  load32-mark_dirty,
}
use open_hypervisor.Vm.Kernel.{Trap, vcpu_sysregs_sync}
use open_hypervisor.Vcpu.Slot.{VcpuSlot, mark_slot_dirty}
use open_hypervisor.Vcpu.Environment.{Environment}
use open_hypervisor.Vcpu.Emulation.Service.{hcr_nv}
use open_hypervisor.Vcpu.Emulation.Transfer.{load64-store64_wrapped}
use open_hypervisor.Vcpu.Nesting.{
  vbar_el2, elr_el1, spsr_el1, elr_gl1, spsr_gl1, mode_of, nv_on, nv_off, put_exception,
  enter_guest_el2, leave_guarded, hand_over, put_return, complete_return, synced, soft_return,
  trapped_eret, level_change,
}

-- HCR_EL2.NV.
abbrev pub nv_bit : VcpuSlot → ℕ
nv_bit s = bit_at (load64 s.ctx Controls.hcr_el2) 42

-- A guest that believes itself at EL2 has NV, or was let into a guarded level.
abbrev pub is_nested : VcpuSlot → Bool
is_nested s = not s.guest_at_el2 || (nv_bit s == 1 || s.nv_off_for_geret)

pub mark-Apart :
    (s : VcpuSlot) (bit b : ℕ)
    → Apart Rw.state_dirty b
    → load64 (mark_slot_dirty s bit).ctx b ≡ load64 s.ctx b
unfolding mark_slot_dirty
mark-Apart s bit b apart = ground (arith, load64-mark_dirty s.ctx bit b)

hcr_written :
    (s : VcpuSlot) (v : ℕ)
    → let t : VcpuSlot = record s { ctx = store64 s.ctx Controls.hcr_el2 v } in
      nv_bit (mark_slot_dirty t State.controls) ≡ bit_at v 42
unfolding bit_at
hcr_written s v =
    let t : VcpuSlot = record s { ctx = store64 s.ctx Controls.hcr_el2 v } in
    omega (
      arith,
      mark-Apart t State.controls Controls.hcr_el2 (omega arith),
      load64-store64_wrapped s.ctx Controls.hcr_el2 v,
    )

pub nv_on_lem : (s : VcpuSlot) → nv_bit (nv_on s) ≡ 1
unfolding nv_on
nv_on_lem s =
    let hcr = load64 s.ctx Controls.hcr_el2 in
    hcr_written s (bit_or hcr hcr_nv)
    ∙ ground (arith, bit_at-or 42 hcr hcr_nv, bit_at-le-one 42 hcr, bit_at-one_hot 42 42)

pub nv_off_lem : (s : VcpuSlot) → nv_bit (nv_off s) ≡ 0
unfolding nv_off
nv_off_lem s =
    let hcr = load64 s.ctx Controls.hcr_el2 in
    hcr_written s (bit_and hcr (not64 hcr_nv))
    ∙ ground (
      arith,
      bit_at-and 42 hcr (not64 hcr_nv),
      bit_at-complement 64 42 hcr_nv (omega arith) (omega arith),
      bit_at-one_hot 42 42,
    )

-- The other words of the pages.
pub nv_on-Apart :
    (s : VcpuSlot) (b : ℕ)
    → Apart Rw.state_dirty b
    → Apart Controls.hcr_el2 b
    → load64 (nv_on s).ctx b ≡ load64 s.ctx b
unfolding nv_on
nv_on-Apart s b dirty apart =
    let hcr = bit_or (load64 s.ctx Controls.hcr_el2) hcr_nv in
    mark-Apart (record s { ctx = store64 s.ctx Controls.hcr_el2 hcr }) State.controls b dirty
    ∙ load64-store64-Apart s.ctx Controls.hcr_el2 b hcr apart

pub nv_off-Apart :
    (s : VcpuSlot) (b : ℕ)
    → Apart Rw.state_dirty b
    → Apart Controls.hcr_el2 b
    → load64 (nv_off s).ctx b ≡ load64 s.ctx b
unfolding nv_off
nv_off-Apart s b dirty apart =
    let hcr = bit_and (load64 s.ctx Controls.hcr_el2) (not64 hcr_nv) in
    mark-Apart (record s { ctx = store64 s.ctx Controls.hcr_el2 hcr }) State.controls b dirty
    ∙ load64-store64-Apart s.ctx Controls.hcr_el2 b hcr apart

pub nv_off-cpsr : (s : VcpuSlot) → load32 (nv_off s).ctx Rw.cpsr ≡ load32 s.ctx Rw.cpsr
unfolding nv_off mark_slot_dirty
nv_off-cpsr s =
    let hcr = bit_and (load64 s.ctx Controls.hcr_el2) (not64 hcr_nv) in
    let c = store64 s.ctx Controls.hcr_el2 hcr in
    ground (
      arith,
      load32-mark_dirty c State.controls Rw.cpsr,
      load32-store64_apart s.ctx Controls.hcr_el2 Rw.cpsr hcr,
    )

-- The slot beside the pages.
pub marked_flags :
    (s : VcpuSlot) (bit : ℕ)
    → (mark_slot_dirty s bit).guest_at_el2 ≡ s.guest_at_el2
      × (mark_slot_dirty s bit).nv_off_for_geret ≡ s.nv_off_for_geret
unfolding mark_slot_dirty
marked_flags s bit = ground arith

put_return-nv : (s : VcpuSlot) (elr pstate : ℕ) → nv_bit (put_return s elr pstate) ≡ nv_bit s
unfolding put_return bit_at
put_return-nv s elr pstate = omega (
  arith,
  load64-store32_apart (store64 s.ctx Rw.pc elr) Rw.cpsr Controls.hcr_el2 pstate (omega arith),
  load64-store64-Apart s.ctx Rw.pc Controls.hcr_el2 elr (omega arith),
)

put_return_flags :
    (s : VcpuSlot) (elr pstate : ℕ)
    → (put_return s elr pstate).guest_at_el2 ≡ s.guest_at_el2
      × (put_return s elr pstate).nv_off_for_geret ≡ s.nv_off_for_geret
unfolding put_return
put_return_flags s elr pstate = (refl, refl)

pub nv_off_flag : (s : VcpuSlot) → (nv_off s).guest_at_el2 ≡ s.guest_at_el2
unfolding nv_off mark_slot_dirty
nv_off_flag s = ground arith

enter-nested : (s : VcpuSlot) (esr pc : ℕ) → is_nested (enter_guest_el2 s esr pc) ≡ true
unfolding enter_guest_el2
enter-nested s esr pc =
    let s1 = put_exception s esr pc in
    let c = store64 s1.ctx Rw.pc (load64 s.ctx vbar_el2 + 0x400) in
    let t : VcpuSlot = record s1 { ctx = store32 c Rw.cpsr 0x3c5 } in ground (arith, nv_on_lem t)

hand_over-nested : (s : VcpuSlot) (elr spsr : ℕ) → is_nested (hand_over s elr spsr) ≡ true
unfolding hand_over
hand_over-nested s elr spsr = ground arith

-- The guarded exit keeps it.
pub leave_guarded-nested :
    (s : VcpuSlot) (esr : ℕ) → is_nested s ≡ true → is_nested (leave_guarded s esr) ≡ true
unfolding leave_guarded
leave_guarded-nested s esr nested = ground (arith, nv_on_lem s)

complete-nested : (s : VcpuSlot) → is_nested s ≡ true → is_nested (complete_return s) ≡ true
unfolding complete_return
complete-nested s nested =
    let elr = load64 s.ctx elr_el1 in
    let spsr = load64 s.ctx spsr_el1 in
    let low = bit_or (bit_and spsr 0xfffffff0) (mode_of spsr - 4) in
    let lower : VcpuSlot = record (put_return s elr spsr) { guest_at_el2 = false } in
    ground (
      arith,
      put_return-nv s elr spsr,
      put_return-nv s elr low,
      put_return_flags s elr spsr,
      put_return_flags s elr low,
      nv_off_flag lower,
    )

module _ {K : Type 0} (trap : Trap K) (refresh : K → Ctx → Ctx)
    (controls_kept : (k : K) (c : Ctx)
      → load64 (refresh k c) Controls.hcr_el2 ≡ load64 c Controls.hcr_el2) where
  synced-nested :
      (k : K) (s : VcpuSlot) → is_nested s ≡ true → is_nested (synced trap refresh k s).1 ≡ true
  unfolding synced
  synced-nested k s nested =
      let k1 = (trap vcpu_sysregs_sync k).1 in
      ap (λ (t : ℕ). not s.guest_at_el2 || (bit_at t 42 == 1 || s.nv_off_for_geret))
        (controls_kept k1 s.ctx)
      ∙ nested

  soft_return-nested :
      (e : Environment) (k : K) (s : VcpuSlot)
      → is_nested s ≡ true
      → is_nested (soft_return trap refresh e k s).1 ≡ true
  unfolding soft_return
  soft_return-nested e k s nested =
      let s1 = (synced trap refresh k s).1 in
      ground (arith, synced-nested k s nested, complete-nested s1)

  trapped_eret-nested :
      (e : Environment) (k : K) (s : VcpuSlot)
      → is_nested s ≡ true
      → is_nested (trapped_eret trap refresh e k s).1 ≡ true
  unfolding trapped_eret
  trapped_eret-nested e k s nested =
      let (k1, s1) = synced trap refresh k s in
      ground (
        arith,
        synced-nested k s nested,
        soft_return-nested e k s nested,
        soft_return-nested e k1 s1,
        hand_over-nested s1 (load64 s1.ctx elr_gl1) (load64 s1.ctx spsr_gl1),
      )

  -- Whatever an exit changes of the guest's level, a guest that is left believing itself at EL2 has
  -- HCR_EL2.NV, or was let into a guarded level by the hardware. The kernel's sync is taken to leave
  -- HCR_EL2 as it is.
  pub level_change-nested :
      (e : Environment) (k : K) (s : VcpuSlot) (esr : ℕ)
      → is_nested s ≡ true
      → is_nested (level_change trap refresh e k s esr).1 ≡ true
  unfolding level_change
  level_change-nested e k s esr nested =
      ground (arith, enter-nested s esr (load64 s.ctx Rw.pc + 4), trapped_eret-nested e k s nested)
