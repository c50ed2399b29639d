-- ===== src/Gic/Registers/Ich.antt =====
-- `hv_gic_get_ich_reg` and `hv_gic_set_ich_reg` (src/ohv_gic.cpp): the half of the CPU interface
-- that lives in the vCPU context.
use open_hypervisor.Base.{
  ℕ, ◌+◌, ◌-◌, ◌*◌, ◌^◌, ◌<◌, Bool, true, false, ◌||◌, Option, none, some, List, [], ◌∷◌, bit_and,
  bit_or, ltb, leb, ◌==◌, if◌then◌else◌,
}
pub mod Laws
use open_hypervisor.Base.Bits.{not64}
use open_hypervisor.Context.{Ctx, load64, store64}
use open_hypervisor.Context.Rw
use open_hypervisor.Context.Ro
use open_hypervisor.Context.Controls
use open_hypervisor.Context.State
use open_hypervisor.Hv.{hv_success, hv_bad_argument, hv_no_device, Result, ok, err}
use open_hypervisor.Host.{Host, put_slot}
use open_hypervisor.Vcpu.Slot.{VcpuSlot, mark_slot_dirty}
use open_hypervisor.Gic.Model.{GicModel, modelled_cpus}
use open_hypervisor.Gic.Registers.{sparse_slot, update_bank, with_cpu}

abbrev pub ich_encodings : List ℕ
ich_encodings =
    0xe640 ∷ 0xe648 ∷ 0xe658 ∷ 0xe659 ∷ 0xe65a ∷ 0xe65b ∷ 0xe65d ∷ 0xe65f ∷ 0xe660 ∷ 0xe661 ∷ 0xe662
    ∷ 0xe663 ∷ 0xe664 ∷ 0xe665 ∷ 0xe666 ∷ 0xe667 ∷ 0xe668 ∷ 0xe669 ∷ 0xe66a ∷ 0xe66b ∷ 0xe66c
    ∷ 0xe66d ∷ 0xe66e ∷ 0xe66f ∷ []

abbrev pub ich_ap0r0 : ℕ
ich_ap0r0 = 0xe640

abbrev pub ich_ap1r0 : ℕ
ich_ap1r0 = 0xe648

abbrev pub ich_hcr : ℕ
ich_hcr = 0xe658

abbrev pub ich_vtr : ℕ
ich_vtr = 0xe659

abbrev pub ich_misr : ℕ
ich_misr = 0xe65a

abbrev pub ich_eisr : ℕ
ich_eisr = 0xe65b

abbrev pub ich_elrsr : ℕ
ich_elrsr = 0xe65d

abbrev pub ich_vmcr : ℕ
ich_vmcr = 0xe65f

abbrev pub ich_lr0 : ℕ
ich_lr0 = 0xe660

abbrev pub list_registers : ℕ
list_registers = 8

-- `OHV_ICH_LR_DIRTY`.
abbrev pub lr_dirty : ℕ
lr_dirty = 2 ^ 32

-- The slots of `banked_sysregs.ich_vmcr_el2` and of `vgic_sysregs`.
abbrev pub vmcr_offset : ℕ
vmcr_offset = Rw.banked_sysregs + 21 * 8

abbrev pub ap0r0_offset : ℕ
ap0r0_offset = Rw.vgic_sysregs

abbrev pub ap1r0_offset : ℕ
ap1r0_offset = Rw.vgic_sysregs + 8

-- The switch of the read, with the value of the model for what no case takes.
unfoldable pub read_ich : Ctx → ℕ → ℕ → Result ℕ
read_ich c enc modelled =
    if enc == ich_vtr
    then ok (load64 c Ro.ich_vtr)
    else if enc == ich_misr
    then ok (load64 c Ro.ich_misr)
    else if enc == ich_elrsr
    then ok (load64 c Ro.ich_elrsr)
    else if enc == ich_ap0r0
    then ok (load64 c ap0r0_offset)
    else if enc == ich_ap1r0
    then ok (load64 c ap1r0_offset)
    else if enc == ich_hcr
    then ok (load64 c Controls.ich_hcr_el2)
    else if enc == ich_vmcr
    then ok (load64 c vmcr_offset)
    else if leb ich_lr0 enc
    then if leb list_registers (enc - ich_lr0)
      then err hv_bad_argument
      else ok (bit_and (load64 c (Controls.ich_lr_el2 (enc - ich_lr0))) (not64 lr_dirty))
    else ok modelled

-- The switch of the write: the new context, whether it is marked dirty, and the code.
pub data IchWrite : Type 0 where
  dropped refused : IchWrite
  written : Ctx → IchWrite

unfoldable pub write_ich : Ctx → ℕ → ℕ → IchWrite
write_ich c enc value =
    if enc == ich_vtr || (enc == ich_misr || (enc == ich_eisr || enc == ich_elrsr))
    then dropped
    else if enc == ich_ap0r0
    then written (store64 c ap0r0_offset value)
    else if enc == ich_ap1r0
    then written (store64 c ap1r0_offset value)
    else if enc == ich_hcr
    then written (store64 c Controls.ich_hcr_el2 value)
    else if enc == ich_vmcr
    then written (store64 c vmcr_offset value)
    else if ltb enc ich_lr0 || leb list_registers (enc - ich_lr0)
    then refused
    else written (store64 c (Controls.ich_lr_el2 (enc - ich_lr0)) (bit_or value lr_dirty))

unfoldable pub hv_gic_get_ich_reg : Host → ℕ → ℕ → Bool → Result ℕ
hv_gic_get_ich_reg h id reg out = with_cpu h id out (err hv_no_device) λ m s.
    if leb modelled_cpus s.id then err hv_bad_argument else elim (sparse_slot reg ich_encodings) [
      | none ↦ err hv_bad_argument
      | some slot ↦ read_ich s.ctx reg (m.ich s.id slot)
    ]

unfoldable pub hv_gic_set_ich_reg : Host → ℕ → ℕ → ℕ → Host × ℕ
hv_gic_set_ich_reg h id reg value =
    with_cpu h id true (h, hv_no_device)
      λ m s.
        if leb modelled_cpus s.id
        then (h, hv_bad_argument)
        else elim (sparse_slot reg ich_encodings) [
          | none ↦ (h, hv_bad_argument)
          | some slot ↦
              let h' : Host = record h {
                gic = some (record m { ich = update_bank m.ich s.id slot value });
              } in
              elim (write_ich s.ctx reg value) [
                | dropped ↦ (h', hv_success)
                | refused ↦ (h', hv_bad_argument)
                | written c ↦ (
                  put_slot h' id
                      (mark_slot_dirty (record s { ctx = c }) (bit_or State.gic State.controls)),
                  hv_success,
                )
              ]
        ]
