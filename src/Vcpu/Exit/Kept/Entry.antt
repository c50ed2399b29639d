-- ===== src/Vcpu/Exit/Kept/Entry.antt =====
-- What becomes of the slot beside the guest, before an entry (`ohv_expire_timers`,
-- src/ohv_vcpu.cpp): the request for an exit, the count of entries and whether the slot is in use.
use open_hypervisor.Base.{ℕ, ◌≡◌, refl, ◌∙◌, List, arith}
use open_hypervisor.Vcpu.Slot.{VcpuSlot, mark_slot_dirty}
use open_hypervisor.Vcpu.Environment.{Environment}
use open_hypervisor.Vcpu.Interrupts.{ohv_set_fiq_level, ohv_set_irq_level}
use open_hypervisor.Vcpu.Timers.{
  ohv_note_image_band, virtual_round, physical_round, ohv_expire_timers,
}

abbrev pub Kept : VcpuSlot → VcpuSlot → Type 0
Kept s t = (t.exit_requested ≡ s.exit_requested) × (t.run_count ≡ s.run_count) × (t.used ≡ s.used)

pub Kept-trans : (s t u : VcpuSlot) → Kept s t → Kept t u → Kept s u
Kept-trans s t u (a, b, c) (a', b', c') = (a' ∙ a, b' ∙ b, c' ∙ c)

pub mark-Kept : (s : VcpuSlot) (bit : ℕ) → Kept s (mark_slot_dirty s bit)
unfolding mark_slot_dirty
mark-Kept s bit = ground arith

note-Kept :
    (s : VcpuSlot) (shared : ℕ) (races : List ℕ) → Kept s (ohv_note_image_band s shared races).0
unfolding ohv_note_image_band
note-Kept s shared races = ground arith

virtual-Kept : (now : ℕ) (s : VcpuSlot) → Kept s (virtual_round now s)
unfolding virtual_round mark_slot_dirty
virtual-Kept now s = ground arith

physical-Kept : (now : ℕ) (s : VcpuSlot) → Kept s (physical_round now s)
unfolding physical_round mark_slot_dirty
physical-Kept now s = ground arith

fiq-Kept : (e : Environment) (s : VcpuSlot) → Kept s (ohv_set_fiq_level e s)
unfolding ohv_set_fiq_level
fiq-Kept e s = (refl, refl, refl)

irq-Kept : (e : Environment) (s : VcpuSlot) → Kept s (ohv_set_irq_level e s)
unfolding ohv_set_irq_level
irq-Kept e s = (refl, refl, refl)

pub expire-Kept :
    (e : Environment) (now : ℕ) (s : VcpuSlot) (shared : ℕ) (races : List ℕ)
    → Kept s (ohv_expire_timers e now s shared races).0
unfolding ohv_expire_timers
expire-Kept e now s shared races =
    let s0 = (ohv_note_image_band s shared races).0 in
    let s1 = virtual_round now s0 in
    let s2 = physical_round now s1 in
    let s3 = ohv_set_fiq_level e s2 in
    Kept-trans s s3 (ohv_set_irq_level e s3)
      (Kept-trans s s2 s3
        (Kept-trans s s1 s2 (Kept-trans s s0 s1 (note-Kept s shared races) (virtual-Kept now s0))
          (physical-Kept now s1))
        (fiq-Kept e s2))
      (irq-Kept e s3)
