-- ===== src/Vcpu/Run/Nested/Words.antt =====
-- What leaves the level of a guest and HCR_EL2 alone (src/ohv_vcpu.cpp).
use open_hypervisor.Base.{ℕ, ◌+◌, ◌≡◌, ◌≤◌, refl, ap, ◌∙◌, Bool, true, arith, ◌==◌, if_cases}
use open_hypervisor.Base.Bits.{bit_at}
use open_hypervisor.Context.{load64, store64}
use open_hypervisor.Context.Rw
use open_hypervisor.Context.Controls
use open_hypervisor.Context.Laws.{Apart, load64-store64-Apart}
use open_hypervisor.Vcpu.Slot.{VcpuSlot, mark_slot_dirty}
use open_hypervisor.Vcpu.Emulation.Transfer.{step_pc, put_reg, transfer, source_of}
use open_hypervisor.Vcpu.Emulation.Service.{timer_write, mark_if}
use open_hypervisor.Vcpu.Nesting.Laws.{is_nested, mark-Apart, marked_flags}

abbrev pub Steady : VcpuSlot → VcpuSlot → Type 0
Steady s t =
    (load64 t.ctx Controls.hcr_el2 ≡ load64 s.ctx Controls.hcr_el2)
    × (t.guest_at_el2 ≡ s.guest_at_el2)
    × (t.nv_off_for_geret ≡ s.nv_off_for_geret)

pub Steady-trans : (s t u : VcpuSlot) → Steady s t → Steady t u → Steady s u
Steady-trans s t u (a, b, c) (a', b', c') = (a' ∙ a, b' ∙ b, c' ∙ c)

pub Steady-nested : (s t : VcpuSlot) → Steady s t → is_nested s ≡ true → is_nested t ≡ true
Steady-nested s t (a, b, c) nested = ground (arith, ap (λ (w : ℕ). bit_at w 42) a, b, c, nested)

pub mark-Steady : (s : VcpuSlot) (bit : ℕ) → Steady s (mark_slot_dirty s bit)
mark-Steady s bit =
    let (guest, off) = marked_flags s bit in
    (mark-Apart s bit Controls.hcr_el2 (omega arith), guest, off)

pub store-Steady :
    (s : VcpuSlot) (off v : ℕ)
    → Apart off Controls.hcr_el2
    → Steady s (record s { ctx = store64 s.ctx off v })
store-Steady s off v apart = (load64-store64-Apart s.ctx off Controls.hcr_el2 v apart, refl, refl)

pub step-Steady : (s : VcpuSlot) → Steady s (step_pc s)
unfolding step_pc
step-Steady s = store-Steady s Rw.pc (load64 s.ctx Rw.pc + 4) (omega arith)

put_reg-Steady : (s : VcpuSlot) (rt v : ℕ) → rt ≤ 31 → Steady s (put_reg s rt v)
unfolding put_reg
put_reg-Steady s rt v le =
    if_cases (Steady s) (rt == 31) _ _ (λ _. (refl, refl, refl))
      (λ _. store-Steady s (Rw.x rt) v (omega arith))

pub transfer-Steady :
    (read : Bool) (rt v : ℕ) (put : ℕ → VcpuSlot) (s : VcpuSlot)
    → rt ≤ 31
    → Steady s (put (source_of s rt))
    → Steady s (transfer read rt v put s)
unfolding transfer
transfer-Steady read rt v put s le kept =
    let got = put_reg s rt v in
    let had = put (source_of s rt) in
    if_cases (Steady s) read _ _
      (λ _. Steady-trans s got (step_pc got) (put_reg-Steady s rt v le) (step-Steady got))
      (λ _. Steady-trans s had (step_pc had) kept (step-Steady had))

pub mark_if-Steady :
    (s : VcpuSlot) (bit off v : ℕ)
    → Apart off Controls.hcr_el2
    → Steady s (mark_if bit (record s { ctx = store64 s.ctx off v }))
mark_if-Steady s bit off v apart =
    let t : VcpuSlot = record s { ctx = store64 s.ctx off v } in
    let stored = store-Steady s off v apart in
    if_cases (Steady s) (bit == 0) _ _ (λ _. stored)
      (λ _. Steady-trans s t (mark_slot_dirty t bit) stored (mark-Steady t bit))

pub timer_write-Steady :
    (now op2 v : ℕ) (physical : Bool) (s : VcpuSlot) → Steady s (timer_write now physical op2 v s)
unfolding timer_write load64 store64
timer_write-Steady now op2 v physical s = ground arith
