-- ===== src/Vcpu/Sysreg/Laws.antt =====
-- What a system register reads after a write.
pub mod Loading
pub mod Places
pub mod Access
pub mod Dropped
pub mod Dirty
use open_hypervisor.Base.{
  ℕ, ◌+◌, ◌*◌, ◌/◌, ◌%◌, ◌^◌, ◌≡◌, ◌≢◌, ◌≤◌, ◌<◌, ◌⊎◌, inl, inr, refl, sym, ap, ◌∙◌, Bool, true,
  false, not, ◌&&◌, ◌||◌, Option, none, some, bit_or, arith, ◌==◌, if◌then◌else◌, Option-cases,
  Bool-cases,
}
use open_hypervisor.Base.Bits.{bit_at, bit_at-or, bit_or-lt}
use open_hypervisor.Context.{Ctx, IsCtx, load64, store64}
use open_hypervisor.Context.Rw
use open_hypervisor.Context.Controls
use open_hypervisor.Context.State
use open_hypervisor.Context.Laws.{
  Apart, load64-store64, load64-store64-Apart, load64-mark_dirty, store64-IsCtx, mark_dirty-IsCtx,
  mark_dirty_lem,
}
use open_hypervisor.Vcpu.Slot.{VcpuSlot, mark_slot_dirty}
use open_hypervisor.Vcpu.Environment.{Environment}
use open_hypervisor.Sysreg.{SysRegDesc}
use open_hypervisor.Sysreg.Lookup.{sysreg_lookup}
use open_hypervisor.Vcpu.Sysreg.{
  word, place_of, written, write_word, mark_row, mirror_key, kernkeylo_el1,
}
use open_hypervisor.Vcpu.Sysreg.Words.{word_fits_found, words-Apart}

pub written-lt : (enc v : ℕ) → v < 2 ^ 64 → written enc v < 2 ^ 64
written-lt enc v lt = ground (arith, bit_or-lt 64 v 0x300000)

load64-mark_slot_dirty :
    (s : VcpuSlot) (bit b : ℕ)
    → Apart Rw.state_dirty b
    → load64 (mark_slot_dirty s bit).ctx b ≡ load64 s.ctx b
unfolding mark_slot_dirty
load64-mark_slot_dirty s bit b h = ground (arith, load64-mark_dirty s.ctx bit b h)

-- Apart from the dirty word and the words of the mirrored key.
abbrev pub Clear : ℕ → Type 0
Clear b = Apart Rw.state_dirty b × Apart Controls.vmkeylo_el2 b × Apart Controls.vmkeyhi_el2 b

load64-mark_row :
    (d : SysRegDesc) (s : VcpuSlot) (b : ℕ)
    → Apart Rw.state_dirty b
    → load64 (mark_row d s).ctx b ≡ load64 s.ctx b
unfolding mark_row
load64-mark_row d s b h = ground (arith, load64-mark_slot_dirty s d.dirty_bit b h)

load64-mirror_key :
    (e : Environment) (enc out b : ℕ) (s : VcpuSlot)
    → Clear b
    → load64 (mirror_key e enc out s).ctx b ≡ load64 s.ctx b
unfolding mirror_key
load64-mirror_key e enc out b s clear =
    let key = if enc == kernkeylo_el1 then Controls.vmkeylo_el2 else Controls.vmkeyhi_el2 in
    let s' : VcpuSlot = record s { ctx = store64 s.ctx key out } in
    ground (
      arith,
      load64-mark_slot_dirty s' State.controls b clear.0,
      load64-store64-Apart s.ctx key b out,
    )

-- Away from those, a write is the store alone.
pub load64-write_word :
    (e : Environment) (d : SysRegDesc) (off enc v b : ℕ) (s : VcpuSlot)
    → Clear b
    → load64 (write_word e d off enc v s).ctx b ≡ load64 (store64 s.ctx off (written enc v)) b
unfolding write_word
load64-write_word e d off enc v b s clear =
    let s' : VcpuSlot = record s { ctx = store64 s.ctx off (written enc v) } in
    load64-mark_row d (mirror_key e enc (written enc v) s') b clear.0
    ∙ load64-mirror_key e enc (written enc v) b s' clear

-- What a write leaves of the rest of the slot.
pub write_word-rest :
    (e : Environment) (d : SysRegDesc) (off enc v : ℕ) (s : VcpuSlot)
    → record (write_word e d off enc v s) { ctx = s.ctx } ≡ s
unfolding write_word mark_row mirror_key mark_slot_dirty
write_word-rest e d off enc v s = ground arith
