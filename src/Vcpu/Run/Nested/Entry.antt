-- ===== src/Vcpu/Run/Nested/Entry.antt =====
-- The level of a guest hypervisor before an entry (`ohv_expire_timers`, src/ohv_vcpu.cpp).
use open_hypervisor.Base.{
  ℕ, ◌^◌, ◌≡◌, ◌<◌, refl, ap, ◌∙◌, Bool, true, bit_and, bit_or, List, arith, ◌==◌, if◌then◌else◌,
  if_cases,
}
use open_hypervisor.Base.Bits.{
  bit_at, not64, bit_at-or, bit_at-and, bit_at-complement, bit_at-one_hot, bit_at_zero,
  bit_at-le-one,
}
use open_hypervisor.Context.{Ctx, load64, store64, mark_dirty}
use open_hypervisor.Context.Controls
use open_hypervisor.Context.State
use open_hypervisor.Context.Laws.{load64-mark_dirty}
use open_hypervisor.Vcpu.Slot.{VcpuSlot, mark_slot_dirty}
use open_hypervisor.Vcpu.Environment.{Environment}
use open_hypervisor.Vcpu.Interrupts.{
  set_level, irq_wanted, fiq_wanted, ohv_set_fiq_level, ohv_set_irq_level,
}
use open_hypervisor.Vcpu.Timers.{
  tick, banked, ohv_note_image_band, virtual_round, physical_round, ohv_expire_timers,
}
use open_hypervisor.Vcpu.Emulation.Transfer.{load64-store64_wrapped}
use open_hypervisor.Vcpu.Nesting.Laws.{is_nested, nv_bit}
use open_hypervisor.Vcpu.Run.Nested.Words.{
  Steady, Steady-trans, Steady-nested, mark-Steady, store-Steady,
}

note-Steady :
    (s : VcpuSlot) (shared : ℕ) (races : List ℕ) → Steady s (ohv_note_image_band s shared races).0
unfolding ohv_note_image_band
note-Steady s shared races = ground arith

virtual-Steady : (now : ℕ) (s : VcpuSlot) → Steady s (virtual_round now s)
unfolding virtual_round
virtual-Steady now s =
    let t = tick now (load64 s.ctx (banked 18)) (load64 s.ctx (banked 9)) in
    let s1 : VcpuSlot = record s { ctx = store64 s.ctx (banked 18) t.ctl } in
    let s2 = mark_slot_dirty s1 State.sysregs in
    if_cases (λ (x : VcpuSlot). Steady s (record x { timer_fired_v = t.fired })) t.dirty _ _
      (λ _.
        Steady-trans s s1 s2 (store-Steady s (banked 18) t.ctl (omega arith))
          (mark-Steady s1 State.sysregs))
      (λ _. (refl, refl, refl))

physical-Steady : (now : ℕ) (s : VcpuSlot) → Steady s (physical_round now s)
unfolding physical_round
physical-Steady now s =
    let t = tick now (s.el2_shadow 30) (load64 s.ctx (banked 10)) in
    if_cases (λ (x : VcpuSlot). Steady s (record x { timer_fired_p = t.fired })) t.dirty _ _
      (λ _. mark-Steady _ State.sysregs) (λ _. (refl, refl, refl))

stored_nv :
    (c : Ctx) (v : ℕ)
    → bit_at (load64 (mark_dirty (store64 c Controls.hcr_el2 v) State.controls) Controls.hcr_el2) 42
      ≡ bit_at v 42
unfolding bit_at
stored_nv c v = omega (
  arith,
  load64-mark_dirty (store64 c Controls.hcr_el2 v) State.controls Controls.hcr_el2 (omega arith),
  load64-store64_wrapped c Controls.hcr_el2 v,
)

set_level_nv :
    (c : Ctx) (j : ℕ) (on : Bool)
    → j < 42
    → 2 ^ j < 2 ^ 64
    → bit_at (load64 (set_level c (2 ^ j) on) Controls.hcr_el2) 42
      ≡ bit_at (load64 c Controls.hcr_el2) 42
unfolding set_level
set_level_nv c j on lt small =
    let hcr = load64 c Controls.hcr_el2 in
    let want = if on then 2 ^ j else 0 in
    let v = bit_or (bit_and hcr (not64 (2 ^ j))) want in
    let same : bit_at v 42 ≡ bit_at hcr 42 = ground (
      arith,
      bit_at-or 42 (bit_and hcr (not64 (2 ^ j))) want,
      bit_at-and 42 hcr (not64 (2 ^ j)),
      bit_at-complement 64 42 (2 ^ j) (omega arith) small,
      bit_at-one_hot j 42,
      bit_at_zero 42,
      bit_at-le-one 42 hcr,
    ) in
    if_cases (λ (x : Ctx). bit_at (load64 x Controls.hcr_el2) 42 ≡ bit_at hcr 42)
      (bit_and hcr (2 ^ j) == want) _ _ (λ _. refl) (λ _. stored_nv c v ∙ same)

-- A level that is set keeps NV, and so the level of the guest.
level-nested :
    (s t : VcpuSlot) (j : ℕ) (on : Bool)
    → j < 42
    → 2 ^ j < 2 ^ 64
    → t.ctx ≡ set_level s.ctx (2 ^ j) on
    → t.guest_at_el2 ≡ s.guest_at_el2
    → t.nv_off_for_geret ≡ s.nv_off_for_geret
    → is_nested s ≡ true
    → is_nested t ≡ true
level-nested s t j on lt small ctx guest off nested =
    let bits : nv_bit t ≡ nv_bit s =
      ap (λ (c : Ctx). bit_at (load64 c Controls.hcr_el2) 42) ctx
      ∙ set_level_nv s.ctx j on lt small in
    ground (arith, bits, guest, off, nested)

fiq-nested :
    (e : Environment) (s : VcpuSlot) → is_nested s ≡ true → is_nested (ohv_set_fiq_level e s) ≡ true
unfolding ohv_set_fiq_level
fiq-nested e s n =
    level-nested s (ohv_set_fiq_level e s) 6 (fiq_wanted e s) (omega arith) (omega arith) refl refl
      refl n

irq-nested :
    (e : Environment) (s : VcpuSlot) → is_nested s ≡ true → is_nested (ohv_set_irq_level e s) ≡ true
unfolding ohv_set_irq_level
irq-nested e s n =
    level-nested s (ohv_set_irq_level e s) 7 (irq_wanted e s) (omega arith) (omega arith) refl refl
      refl n

pub expire-nested :
    (e : Environment) (now : ℕ) (s : VcpuSlot) (shared : ℕ) (races : List ℕ)
    → is_nested s ≡ true
    → is_nested (ohv_expire_timers e now s shared races).0 ≡ true
unfolding ohv_expire_timers
expire-nested e now s shared races n =
    let s0 = (ohv_note_image_band s shared races).0 in
    let s1 = virtual_round now s0 in
    let s2 = physical_round now s1 in
    let still : Steady s s2 =
      Steady-trans s s1 s2
        (Steady-trans s s0 s1 (note-Steady s shared races) (virtual-Steady now s0))
        (physical-Steady now s1) in
    irq-nested e (ohv_set_fiq_level e s2) (fiq-nested e s2 (Steady-nested s s2 still n))
