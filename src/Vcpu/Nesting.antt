-- ===== src/Vcpu/Nesting.antt =====
-- The levels of a guest hypervisor (`enter_guest_el2`, `eret_is_guarded` and the cases of
-- `exit_from_ro` for a hypervisor call and a trapped exception return, src/ohv_vcpu.cpp). The
-- traces of these cases are left out.
pub mod Laws
pub mod Entry
pub mod Returns
pub mod Guarded
use open_hypervisor.Base.{
  ℕ, ◌+◌, ◌-◌, ◌*◌, ◌/◌, ◌^◌, ◌%◌, Bool, true, false, not, ◌&&◌, ◌||◌, Option, none, some, bit_and,
  bit_or, ◌==◌, if◌then◌else◌,
}
use open_hypervisor.Base.Bits.{not64}
use open_hypervisor.Context.{Ctx, load32, store32, load64, store64}
use open_hypervisor.Context.Rw
use open_hypervisor.Context.Controls
use open_hypervisor.Context.State
use open_hypervisor.Vm.Kernel.{Trap, vcpu_sysregs_sync}
use open_hypervisor.Vcpu.Slot.{VcpuSlot, mark_slot_dirty}
use open_hypervisor.Vcpu.Environment.{Environment}
use open_hypervisor.Vcpu.Stage1.{banked}
use open_hypervisor.Vcpu.Emulation.Service.{hcr_nv}

-- ELR_EL1 and SPSR_EL1 of the guest, and ELR_GL1 and SPSR_GL1.
abbrev pub elr_el1 : ℕ
elr_el1 = banked 3

abbrev pub esr_el1 : ℕ
esr_el1 = banked 5

abbrev pub spsr_el1 : ℕ
spsr_el1 = banked 14

abbrev pub elr_gl1 : ℕ
elr_gl1 = Rw.extregs + 51 * 8

abbrev pub spsr_gl1 : ℕ
spsr_gl1 = Rw.extregs + 52 * 8

-- VBAR_EL2 in the nested block.
abbrev pub vbar_el2 : ℕ
vbar_el2 = 0x1250

abbrev pub vect_lower64_sync : ℕ
vect_lower64_sync = 0x400

pub data IllegalReason : Type 0 where
  aarch32 el3 reserved : IllegalReason

abbrev pub mode_of : ℕ → ℕ
mode_of spsr = bit_and spsr 0xf

unfoldable pub spsr_illegal_reason : ℕ → Option IllegalReason
spsr_illegal_reason spsr =
    let m = mode_of spsr in
    if not (bit_and spsr 0x10 == 0)
    then some aarch32
    else if m == 0 || (m == 4 || (m == 5 || (m == 8 || m == 9)))
    then none
    else if m == 0xc || m == 0xd
    then some el3
    else some reserved

abbrev pub is_legal : Option IllegalReason → Bool
is_legal none = true
is_legal (some _) = false

-- What `eret_is_guarded` makes of SPSR_GL1.
unfoldable pub is_guarded : ℕ → Bool
is_guarded spsr =
    not (spsr == 0)
    && (is_legal (spsr_illegal_reason spsr) && (not (mode_of spsr == 8) && not (mode_of spsr == 9)))

-- `hcr_el2 |= OHV_HCR_NV` and `hcr_el2 &= ~OHV_HCR_NV`, with the mark.
unfoldable pub nv_on : VcpuSlot → VcpuSlot
nv_on s =
    let hcr = bit_or (load64 s.ctx Controls.hcr_el2) hcr_nv in
    mark_slot_dirty (record s { ctx = store64 s.ctx Controls.hcr_el2 hcr }) State.controls

unfoldable pub nv_off : VcpuSlot → VcpuSlot
nv_off s =
    let hcr = bit_and (load64 s.ctx Controls.hcr_el2) (not64 hcr_nv) in
    mark_slot_dirty (record s { ctx = store64 s.ctx Controls.hcr_el2 hcr }) State.controls

-- The three exception registers of `enter_guest_el2`.
unfoldable pub put_exception : VcpuSlot → ℕ → ℕ → VcpuSlot
put_exception s esr return_pc =
    let c1 = store64 s.ctx elr_el1 return_pc in
    let c2 = store64 c1 esr_el1 esr in
    let c3 = store64 c2 spsr_el1 (load32 c2 Rw.cpsr) in
    mark_slot_dirty (record s { ctx = c3 }) State.sysregs

unfoldable pub enter_guest_el2 : VcpuSlot → ℕ → ℕ → VcpuSlot
enter_guest_el2 s esr return_pc =
    let vbar = load64 s.ctx vbar_el2 in
    let s1 = put_exception s esr return_pc in
    let c2 = store64 s1.ctx Rw.pc (vbar + vect_lower64_sync) in
    let s2 : VcpuSlot = record s1 { ctx = store32 c2 Rw.cpsr 0x3c5 } in
    record (nv_on s2) { guest_at_el2 = true }

-- The guarded exit puts NV back.
unfoldable pub leave_guarded : VcpuSlot → ℕ → VcpuSlot
leave_guarded s esr =
    if s.nv_off_for_geret && bit_and (esr / 2 ^ 26) 0x3f == 0x3f
    then record (nv_on s) { nv_off_for_geret = false }
    else s

-- A guarded return, left to the hardware.
unfoldable pub hand_over : VcpuSlot → ℕ → ℕ → VcpuSlot
hand_over s gelr gspsr =
    let c = store64 (store64 s.ctx elr_el1 gelr) spsr_el1 gspsr in
    let s1 = mark_slot_dirty (record s { ctx = c }) State.sysregs in
    record (nv_off s1) { nv_off_for_geret = true }

-- The program counter and the state that a completed return writes.
unfoldable pub put_return : VcpuSlot → ℕ → ℕ → VcpuSlot
put_return s elr pstate = record s { ctx = store32 (store64 s.ctx Rw.pc elr) Rw.cpsr pstate }

-- A return that is completed here.
unfoldable pub complete_return : VcpuSlot → VcpuSlot
complete_return s =
    let elr = load64 s.ctx elr_el1 in
    let spsr = load64 s.ctx spsr_el1 in
    let mode = mode_of spsr in
    if mode == 4 || mode == 5
    then nv_off (record (put_return s elr spsr) { guest_at_el2 = false })
    else if mode == 8 || mode == 9
    then put_return s elr (bit_or (bit_and spsr 0xfffffff0) (mode - 4))
    else put_return s elr spsr

module _ {K : Type 0} (trap : Trap K) (refresh : K → Ctx → Ctx) where
  -- The sync of `eret_is_guarded`: `refresh` is what the kernel has put into the pages.
  unfoldable pub synced : K → VcpuSlot → K × VcpuSlot
  synced k s = let k' = (trap vcpu_sysregs_sync k).1 in (k', record s { ctx = refresh k' s.ctx })

  -- The test of the software path, which asks once more.
  unfoldable pub soft_return : Environment → K → VcpuSlot → K × VcpuSlot × Bool
  soft_return e k s =
      let (k', s') = synced k s in
      if not s.guest_at_el2
      then (k, s, false)
      else if is_guarded (load64 s'.ctx spsr_gl1) || e.no_eret_emulation
      then (k', s', false)
      else (k', complete_return s', true)

  unfoldable pub trapped_eret : Environment → K → VcpuSlot → K × VcpuSlot × Bool
  trapped_eret e k s =
      let (k', s') = synced k s in
      let gspsr = load64 s'.ctx spsr_gl1 in
      let rest = soft_return e k' s' in
      if e.no_hw_geret
      then soft_return e k s
      else if is_guarded gspsr
      then (k', hand_over s' (load64 s'.ctx elr_gl1) gspsr, true)
      else rest

  -- The hypervisor call and the exception return of an exit: whether the vCPU goes on running.
  unfoldable pub level_change : Environment → K → VcpuSlot → ℕ → K × VcpuSlot × Bool
  level_change e k s esr =
      let class = bit_and (esr / 2 ^ 26) 0x3f in
      if class == 0x16 && (not s.guest_at_el2 && not e.no_el2_injection)
      then (k, enter_guest_el2 s esr (load64 s.ctx Rw.pc + 4), true)
      else if class == 0x1a && bit_and esr 1 == 0
      then trapped_eret e k s
      else (k, s, false)
