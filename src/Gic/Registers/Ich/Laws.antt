-- ===== src/Gic/Registers/Ich/Laws.antt =====
-- What the ICH registers read after a write, and what the read-only ones read.
use open_hypervisor.Base.{
  ℕ, ◌+◌, ◌-◌, ◌*◌, ◌^◌, ◌<◌, ◌≡◌, ◌⊎◌, refl, Bool, true, false, ◌||◌, some, arith, bit_and, bit_or,
  leb, ◌==◌, if◌then◌else◌, Option-cases, inl, inr, ◌∙◌,
}
use open_hypervisor.Base.Bits.{
  not64, bit_at-and, bit_at-or, bit_at-complement, bit_at-le-one, bit_at-one_hot, bit_ext,
  bit_and-lt, bit_or-lt,
}
use open_hypervisor.Context.{Ctx, load32, load64, store64, mark_dirty}
use open_hypervisor.Context.Laws.{Apart, load64-store64, load64-mark_dirty}
use open_hypervisor.Context.Controls
use open_hypervisor.Context.Rw
use open_hypervisor.Context.Ro
use open_hypervisor.Context.State
use open_hypervisor.Hv.{hv_success, ok}
use open_hypervisor.Host.{Host, find_vcpu}
use open_hypervisor.Vcpu.Slot.{VcpuSlot, mark_slot_dirty}
use open_hypervisor.Gic.Model.{GicModel, modelled_cpus}
use open_hypervisor.Gic.Registers.{sparse_slot, update_bank}
use open_hypervisor.Gic.Registers.Laws.{OwnIds}
use open_hypervisor.Gic.Registers.Ich.{
  ich_encodings, ap0r0_offset, ap1r0_offset, vmcr_offset, lr_dirty, ich_lr0, ich_vtr, ich_misr,
  ich_elrsr, IchWrite, dropped, refused, written, read_ich, write_ich, hv_gic_get_ich_reg,
  hv_gic_set_ich_reg,
}

-- Setting the flag of a list register and hiding it again gives the value without the flag.
hide_dirty :
    (v : ℕ) → v < 2 ^ 64 → bit_and (bit_or v lr_dirty) (not64 lr_dirty) ≡ bit_and v (not64 lr_dirty)
hide_dirty v h =
    bit_ext 64 _ _ (bit_and-lt 64 _ _ (bit_or-lt 64 v lr_dirty h (omega arith)))
      (bit_and-lt 64 v _ h)
      λ k lt. ground (
        arith,
        bit_at-and k (bit_or v lr_dirty) (not64 lr_dirty),
        bit_at-and k v (not64 lr_dirty),
        bit_at-or k v lr_dirty,
        bit_at-complement 64 k lr_dirty lt (omega arith),
        bit_at-one_hot 32 k,
        bit_at-le-one k v,
      )

-- A word of the context that is not the dirty word reads back after a dirtying write.
load64-store64_dirty :
    (c : Ctx) (off value dirty : ℕ)
    → value < 2 ^ 64
    → Apart Rw.state_dirty off
    → load64 (mark_dirty (store64 c off value) dirty) off ≡ value
load64-store64_dirty c off value dirty lt apart =
    load64-mark_dirty (store64 c off value) dirty off apart ∙ load64-store64 c off value lt

read-write_ich :
    (c c' : Ctx) (enc value modelled dirty : ℕ)
    → value < 2 ^ 64
    → write_ich c enc value ≡ written c'
    → read_ich (mark_dirty c' dirty) enc modelled
      ≡ ok (if leb ich_lr0 enc then bit_and value (not64 lr_dirty) else value)
unfolding read_ich write_ich
read-write_ich c c' enc value modelled dirty lt w =
    let lr = Controls.ich_lr_el2 (enc - ich_lr0) in
    ground (
      arith,
      hide_dirty value lt,
      bit_or-lt 64 value lr_dirty lt (omega arith),
      load64-store64_dirty c ap0r0_offset value dirty lt,
      load64-store64_dirty c ap1r0_offset value dirty lt,
      load64-store64_dirty c Controls.ich_hcr_el2 value dirty lt,
      load64-store64_dirty c vmcr_offset value dirty lt,
      load64-store64_dirty c lr (bit_or value lr_dirty) dirty,
    )

-- The three registers that the kernel reports in the context.
abbrev pub is_reported : ℕ → Bool
is_reported enc = enc == ich_vtr || (enc == ich_misr || enc == ich_elrsr)

read_ich-dropped :
    (c : Ctx) (enc value m : ℕ)
    → write_ich c enc value ≡ dropped
    → read_ich c enc value ≡ (
        if is_reported enc
        then read_ich c enc m
        else ok (if leb ich_lr0 enc then bit_and value (not64 lr_dirty) else value))
unfolding read_ich write_ich
read_ich-dropped c enc value m w = ground arith

is_reported-written :
    (c c' : Ctx) (enc value : ℕ) → write_ich c enc value ≡ written c' → is_reported enc ≡ false
unfolding write_ich
is_reported-written c c' enc value w = ground arith

IchWrite-cases : (w : IchWrite) → (w ≡ dropped) ⊎ ((w ≡ refused) ⊎ ((c : Ctx) × (w ≡ written c)))
IchWrite-cases dropped = inl refl
IchWrite-cases refused = inr (inl refl)
IchWrite-cases (written c) = inr (inr (c, refl))

-- Where slots carry their own index and a slot in use has its pages, an accepted write to an ICH
-- register of a vCPU is read back: without the dirty flag for a list register, not at all for
-- the three registers that the kernel reports, and as written for all others.
pub get_ich_reg-set :
    (h : Host) (id reg value : ℕ)
    → OwnIds h
    → ((h.vcpus id).used ≡ true → (h.vcpus id).mapped ≡ true)
    → value < 2 ^ 64
    → (hv_gic_set_ich_reg h id reg value).1 ≡ hv_success
    → hv_gic_get_ich_reg (hv_gic_set_ich_reg h id reg value).0 id reg true ≡ (
        if is_reported reg
        then hv_gic_get_ich_reg h id reg true
        else ok (if leb ich_lr0 reg then bit_and value (not64 lr_dirty) else value))
unfolding hv_gic_get_ich_reg hv_gic_set_ich_reg find_vcpu update_bank mark_slot_dirty
get_ich_reg-set h id reg value own has_ctx lt accepted =
    let s = h.vcpus id in
    let dirty = bit_or State.gic State.controls in
    elim (IchWrite-cases (write_ich s.ctx reg value)) [
      | inl e ↦ elim (Option-cases h.gic) [
        | inl g ↦ ground arith
        | inr (m, g) ↦ elim (Option-cases (sparse_slot reg ich_encodings)) [
          | inl n ↦ ground arith
          | inr (i, n) ↦ ground (arith, own id, read_ich-dropped s.ctx reg value (m.ich s.id i) e)
        ]
      ]
      | inr (inl e) ↦ ground arith
      | inr (inr (c, e)) ↦ elim (Option-cases h.gic) [
        | inl g ↦ ground arith
        | inr (m, g) ↦ elim (Option-cases (sparse_slot reg ich_encodings)) [
          | inl n ↦ ground arith
          | inr (i, n) ↦ ground (
            arith,
            own id,
            has_ctx,
            is_reported-written s.ctx c reg value e,
            read-write_ich s.ctx c reg value value dirty lt e,
          )
        ]
      ]
    ]

-- The 64-bit read of ICH_VTR or ICH_MISR takes in its 32-bit neighbour: the upper half of what is
-- answered is the next register of the read-only page.
pub get_ich_reg_neighbour :
    (h : Host) (m : GicModel) (s : VcpuSlot) (id : ℕ)
    → h.gic ≡ some m
    → find_vcpu h id ≡ some s
    → s.id < modelled_cpus
    → (hv_gic_get_ich_reg h id ich_vtr true
        ≡ ok (load32 s.ctx Ro.ich_vtr + 2 ^ 32 * load32 s.ctx Ro.ich_misr))
      × (hv_gic_get_ich_reg h id ich_misr true
          ≡ ok (load32 s.ctx Ro.ich_misr + 2 ^ 32 * load32 s.ctx Ro.ich_elrsr))
unfolding hv_gic_get_ich_reg load32 load64 read_ich sparse_slot
get_ich_reg_neighbour h m s id has_gic has_cpu modelled = (ground arith, ground arith)
