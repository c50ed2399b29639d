-- ===== src/Vcpu/Sysreg/Laws/Dirty.antt =====
-- A written register is marked for the kernel to carry into the machine.
use open_hypervisor.Base.{
  ℕ, ◌^◌, ◌≡◌, ◌≤◌, ◌<◌, refl, sym, ap, ◌∙◌, true, false, some, arith, ltb, ◌==◌, if◌then◌else◌,
  all_from, Bool-cases, inl, inr,
}
use open_hypervisor.Base.Bits.{bit_at, bit_at-or, bit_at_zero}
use open_hypervisor.Context.{Ctx, IsCtx, load64, store64, update}
use open_hypervisor.Context.Rw
use open_hypervisor.Context.State
use open_hypervisor.Context.Controls
use open_hypervisor.Context.Laws.{mark_dirty_lem, mark_dirty-IsCtx, store64-IsCtx}
use open_hypervisor.Hv.{hv_success}
use open_hypervisor.Host.{Host, owned_vcpu}
use open_hypervisor.Vm.Kernel.{Trap, vcpu_sysregs_sync}
use open_hypervisor.Vcpu.Slot.{VcpuSlot, mark_slot_dirty}
use open_hypervisor.Vcpu.Environment.{Environment}
use open_hypervisor.Sysreg.{SysRegDesc}
use open_hypervisor.Sysreg.Lookup.{sysreg_lookup}
use open_hypervisor.Sysreg.Lookup.Laws.{all_rows, sysreg_lookup_lem, scan-all}
use open_hypervisor.Caps.Block.{Capabilities}
use open_hypervisor.Vcpu.Sysreg.{
  word, place_of, written, mirror_key, mark_row, write_word, wants_sync, sync_slot, access_slot,
  sysreg_access, hv_vcpu_set_sys_reg, kernkeylo_el1,
}

-- The rows' dirty bits are bits of a 64-bit word.
dirty_bits_fit : all_from (λ _ (d : SysRegDesc). ltb d.dirty_bit (2 ^ 64)) all_rows 0 ≡ true
dirty_bits_fit = refl

mark_slot_dirty-IsCtx : (s : VcpuSlot) (bit : ℕ) → IsCtx s.ctx → IsCtx (mark_slot_dirty s bit).ctx
unfolding mark_slot_dirty
mark_slot_dirty-IsCtx s bit h = elim (Bool-cases s.mapped) [
  | inl e ↦ rw e (mark_dirty-IsCtx s.ctx bit h)
  | inr e ↦ rw e h
]

mirror_key-IsCtx :
    (e : Environment) (enc out : ℕ) (s : VcpuSlot)
    → IsCtx s.ctx
    → IsCtx (mirror_key e enc out s).ctx
unfolding mirror_key
mirror_key-IsCtx e enc out s h i =
    let key = if enc == kernkeylo_el1 then Controls.vmkeylo_el2 else Controls.vmkeyhi_el2 in
    let s' : VcpuSlot = record s { ctx = store64 s.ctx key out } in
    ground (arith, h i, mark_slot_dirty-IsCtx s' State.controls (store64-IsCtx s.ctx key out h) i)

mirror_key-mapped :
    (e : Environment) (enc out : ℕ) (s : VcpuSlot) → (mirror_key e enc out s).mapped ≡ s.mapped
unfolding mirror_key mark_slot_dirty
mirror_key-mapped e enc out s = ground arith

mark_row-dirty :
    (d : SysRegDesc) (s : VcpuSlot) (j : ℕ)
    → s.mapped ≡ true
    → IsCtx s.ctx
    → d.dirty_bit < 2 ^ 64
    → bit_at d.dirty_bit j ≤ bit_at (load64 (mark_row d s).ctx Rw.state_dirty) j
unfolding mark_row mark_slot_dirty
mark_row-dirty d s j mapped h lt = ground (
  arith,
  mark_dirty_lem s.ctx d.dirty_bit h lt,
  bit_at-or j (load64 s.ctx Rw.state_dirty) d.dirty_bit,
  bit_at_zero j,
  ap (λ (b : ℕ). bit_at b j),
)

pub write_word-dirty :
    (e : Environment) (d : SysRegDesc) (off enc v j : ℕ) (s : VcpuSlot)
    → s.mapped ≡ true
    → IsCtx s.ctx
    → d.dirty_bit < 2 ^ 64
    → bit_at d.dirty_bit j ≤ bit_at (load64 (write_word e d off enc v s).ctx Rw.state_dirty) j
unfolding write_word
write_word-dirty e d off enc v j s mapped h lt =
    let s' : VcpuSlot = record s { ctx = store64 s.ctx off (written enc v) } in
    mark_row-dirty d (mirror_key e enc (written enc v) s') j
      (mirror_key-mapped e enc (written enc v) s' ∙ mapped)
      (mirror_key-IsCtx e enc (written enc v) s' (store64-IsCtx s.ctx off (written enc v) h)) lt

pub dirty_bit-lt : (enc : ℕ) (d : SysRegDesc) → sysreg_lookup enc ≡ some d → d.dirty_bit < 2 ^ 64
dirty_bit-lt enc d found =
    let fits =
      scan-all (λ (d : SysRegDesc). ltb d.dirty_bit (2 ^ 64)) all_rows 0 enc d dirty_bits_fit
        (sym (sysreg_lookup_lem enc) ∙ found) in
    ground arith

module _ {K : Type 0} (trap : Trap K) (block : K → Capabilities) (refresh : K → Ctx → Ctx)
    (whole : (k : K) (c : Ctx) → IsCtx c → IsCtx (refresh k c)) where
  pub sync_slot-whole :
      (d : SysRegDesc) (k : K) (s : VcpuSlot)
      → IsCtx s.ctx
      → let (_, s1, _) = sync_slot trap block refresh d k s in (s1.mapped ≡ s.mapped) × IsCtx s1.ctx
  unfolding sync_slot
  sync_slot-whole d k s h = elim (Bool-cases (wants_sync s.ctx d)) [
    | inl e ↦ rw e (refl, whole (trap vcpu_sysregs_sync k).1 s.ctx h)
    | inr e ↦ rw e (refl, h)
  ]

  -- A successful write of a register that lives in the pages of the context leaves every state bit
  -- of its row set in the dirty word, so that the kernel carries the register into the machine at
  -- the next entry; the pages hold 32-bit cells before and after a sync, and no survey of registers
  -- is on.
  pub set_sys_reg-dirty :
      (e : Environment) (h : Host) (k : K) (id enc v off j : ℕ) (d : SysRegDesc) (s : VcpuSlot)
      → e.survey_sysreg ≡ false
      → enc < 2 ^ 16
      → owned_vcpu h id ≡ some s
      → s.mapped ≡ true
      → IsCtx s.ctx
      → sysreg_lookup enc ≡ some d
      → place_of d ≡ word off
      → (hv_vcpu_set_sys_reg trap block refresh e h k id enc v).2 ≡ hv_success
      → let (h1, _, _) = hv_vcpu_set_sys_reg trap block refresh e h k id enc v in
        bit_at d.dirty_bit j ≤ bit_at (load64 (h1.vcpus id).ctx Rw.state_dirty) j
  unfolding hv_vcpu_set_sys_reg sysreg_access access_slot update
  set_sys_reg-dirty e h k id enc v off j d s surveys small owned mapped cells found at done =
      let (_, s1, r) = sync_slot trap block refresh d k s in
      let (mapped1, cells1) = sync_slot-whole d k s cells in
      ground (
        arith,
        write_word-dirty e d off enc v j s1 (mapped1 ∙ mapped) cells1 (dirty_bit-lt enc d found),
      )
